-- ===== src/Config/Manager/Watching.antt =====
-- internal/config/watcher.go, the whole of Start: what comes before the loop, and what it returns.
-- fsnotify.NewWatcher and Add are given by their errors, and `cancelled` is the context's error.
use load_balancer.Base.{◌≡◌, refl, Bool, Option, none, some, String, List, [], ◌∷◌, ◌++◌}
use load_balancer.Balancer.Backend.{Url}
use load_balancer.Config.{Config}
use load_balancer.Config.Valid.{IsValid}
use load_balancer.Config.Manager.{
  Manager, Event, context_done, events_closed, errors_closed, other_event, watch_error, write_event,
  reload, watch, watch-IsValid,
}

-- A goroutine that is still in the loop, or what it has returned, `none` for nil.
pub data Ended (E : Type 0) : Type 0 where
  watching : Ended E
  ended : Option E → Ended E

module _ {F E : Type 0} (cancelled : E) where
  unfoldable pub end_of : List (Event F) → Ended E
  end_of [] = watching
  end_of (context_done ∷ es) = ended (some cancelled)
  end_of (events_closed ∷ es) = ended none
  end_of (errors_closed ∷ es) = ended none
  end_of (other_event ∷ es) = end_of es
  end_of (watch_error ∷ es) = end_of es
  end_of (write_event file ∷ es) = end_of es

  module _ (decode : F → Option Config) (parse : String → Option Url) (exists : String → Bool) where
    -- Start, where `made` and `added` are the errors of NewWatcher and of Add.
    unfoldable pub start_watcher :
        Option E → Option E → Manager → List (Event F) → Manager × Ended E
    unfolding watch end_of
    start_watcher (some e) added m es = (m, ended (some e))
    start_watcher none (some e) m es = (m, ended (some e))
    start_watcher none none m es = (watch decode parse exists m es, end_of es)

    watch_ended :
        (m : Manager) (r : Option E) (es later : List (Event F))
        → end_of es ≡ ended r
        → (watch decode parse exists m (es ++ later) ≡ watch decode parse exists m es)
          × (end_of (es ++ later) ≡ ended r)
    unfolding watch end_of
    watch_ended m r [] later e = cc
    watch_ended m r (context_done ∷ es) later e = (refl, e)
    watch_ended m r (events_closed ∷ es) later e = (refl, e)
    watch_ended m r (errors_closed ∷ es) later e = (refl, e)
    watch_ended m r (other_event ∷ es) later e = watch_ended m r es later e
    watch_ended m r (watch_error ∷ es) later e = watch_ended m r es later e
    watch_ended m r (write_event file ∷ es) later e =
        watch_ended (reload decode parse exists m file).0 r es later e

    -- Once Start has returned, for whatever reason, nothing that happens to the file changes the
    -- configuration of the manager, nor what was returned.
    pub returned_for_good :
        (made added : Option E) (m : Manager) (r : Option E) (es later : List (Event F))
        → (start_watcher made added m es).1 ≡ ended r
        → start_watcher made added m (es ++ later) ≡ start_watcher made added m es
    unfolding start_watcher
    returned_for_good (some e) added m r es later back = refl
    returned_for_good none (some e) m r es later back = refl
    returned_for_good none none m r es later back =
        let (same, still) = watch_ended m r es later back in rw (same, still, back) refl

    -- However it goes, a valid configuration stays valid.
    pub start_watcher-IsValid :
        (made added : Option E) (m : Manager) (es : List (Event F))
        → IsValid parse exists m.config
        → IsValid parse exists (start_watcher made added m es).0.config
    unfolding start_watcher
    start_watcher-IsValid (some e) added m es v = v
    start_watcher-IsValid none (some e) m es v = v
    start_watcher-IsValid none none m es v = watch-IsValid decode parse exists es m v
