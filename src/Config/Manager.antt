-- ===== src/Config/Manager.antt =====
-- internal/config: the manager of config.go and the loop of watcher.go. Reading the file and
-- decoding YAML are parameters: a load is given what os.ReadFile returned at that time. Logging is
-- left out.
pub mod Loads
pub mod Watching
use load_balancer.Base.{◌≡◌, refl, ap, Bool, Option, none, some, String, List, [], ◌∷◌}
use load_balancer.Balancer.Backend.{Url}
use load_balancer.Config.{Config}
use load_balancer.Config.Validator.{Problem, validate_config}
use load_balancer.Config.Valid.{IsValid, validate_config_iff}

pub record Manager : Type 0 where
  pub path : String
  pub config : Config

pub data LoadError : Type 0 where
  read_failed parse_failed : LoadError
  invalid : List Problem → LoadError

pub data Loaded : Type 0 where
  loaded : Config → Loaded
  failed : LoadError → Loaded

-- What the watcher's `select` receives: the end of the context, an event (a write with the file as
-- it is read then, or another), an error of fsnotify, or the closing of a channel.
pub data Event (F : Type 0) : Type 0 where
  context_done events_closed errors_closed other_event watch_error : Event F
  write_event : Option F → Event F

module _ {F : Type 0} (decode : F → Option Config) (parse : String → Option Url)
    (exists : String → Bool) where
  check : Config → List Problem → Loaded
  check c [] = loaded c
  check c (p ∷ ps) = failed (invalid (p ∷ ps))

  decoded : Option Config → Loaded
  unfolding check
  decoded none = failed parse_failed
  decoded (some c) = check c (validate_config parse exists c)

  -- load, given the contents of the file, or none.
  unfoldable pub load : Option F → Loaded
  unfolding decoded
  load none = failed read_failed
  load (some f) = decoded (decode f)

  abbrev manager_of : String → Loaded → Option Manager
  manager_of path (loaded c) = some (record { path = path; config = c })
  manager_of path (failed e) = none

  unfoldable pub new_manager : String → Option F → Option Manager
  new_manager path file = manager_of path (load file)

  abbrev stored : Manager → Loaded → Manager × Option LoadError
  stored m (loaded c) = (record m { config = c }, none)
  stored m (failed e) = (m, some e)

  unfoldable pub reload : Manager → Option F → Manager × Option LoadError
  reload m file = stored m (load file)

  -- Watcher.Start, from its loop on, over the events in the order in which it receives them.
  unfoldable pub watch : Manager → List (Event F) → Manager
  watch m [] = m
  watch m (context_done ∷ es) = m
  watch m (events_closed ∷ es) = m
  watch m (errors_closed ∷ es) = m
  watch m (other_event ∷ es) = watch m es
  watch m (watch_error ∷ es) = watch m es
  watch m (write_event file ∷ es) = watch (reload m file).0 es

  check-IsValid :
      (c d : Config) (ps : List Problem)
      → validate_config parse exists c ≡ ps
      → check c ps ≡ loaded d
      → IsValid parse exists d
  unfolding check
  check-IsValid c d [] e h =
      let same : c ≡ d = cc in rw same at ((validate_config_iff parse exists c).0 e)
  check-IsValid c d (p ∷ ps) e h = cc

  decoded-IsValid : (o : Option Config) (d : Config) → decoded o ≡ loaded d → IsValid parse exists d
  unfolding decoded
  decoded-IsValid none d h = cc
  decoded-IsValid (some c) d h = check-IsValid c d (validate_config parse exists c) refl h

  load-IsValid : (file : Option F) (c : Config) → load file ≡ loaded c → IsValid parse exists c
  unfolding load
  load-IsValid none c h = cc
  load-IsValid (some f) c h = decoded-IsValid (decode f) c h

  stored-IsValid :
      (m : Manager) (l : Loaded)
      → ((c : Config) → l ≡ loaded c → IsValid parse exists c)
      → IsValid parse exists m.config
      → IsValid parse exists (stored m l).0.config
  stored-IsValid m (loaded c) h v = h c refl
  stored-IsValid m (failed e) h v = v

  reload-IsValid :
      (m : Manager) (file : Option F)
      → IsValid parse exists m.config
      → IsValid parse exists (reload m file).0.config
  unfolding reload
  reload-IsValid m file v = stored-IsValid m (load file) (load-IsValid file) v

  manager_of-IsValid :
      (path : String) (l : Loaded) (m : Manager)
      → ((c : Config) → l ≡ loaded c → IsValid parse exists c)
      → manager_of path l ≡ some m
      → IsValid parse exists m.config
  manager_of-IsValid path (loaded c) m h e =
      let same : c ≡ m.config =
        ap {B = Config} (λ (o : Option Manager). elim o [ none ↦ c | some x ↦ x.config ]) e in
      rw same at (h c refl)
  manager_of-IsValid path (failed x) m h e = cc

  pub watch-IsValid :
      (es : List (Event F)) (m : Manager)
      → IsValid parse exists m.config
      → IsValid parse exists (watch m es).config
  unfolding watch
  watch-IsValid [] m v = v
  watch-IsValid (context_done ∷ es) m v = v
  watch-IsValid (events_closed ∷ es) m v = v
  watch-IsValid (errors_closed ∷ es) m v = v
  watch-IsValid (other_event ∷ es) m v = watch-IsValid es m v
  watch-IsValid (watch_error ∷ es) m v = watch-IsValid es m v
  watch-IsValid (write_event file ∷ es) m v =
      watch-IsValid es (reload m file).0 (reload-IsValid m file v)

  -- A manager that starts has a valid configuration, and keeps one through any events of the
  -- watcher.
  pub served-IsValid :
      (path : String) (file : Option F) (m : Manager) (es : List (Event F))
      → new_manager path file ≡ some m
      → IsValid parse exists (watch m es).config
  unfolding new_manager
  served-IsValid path file m es e =
      watch-IsValid es m (manager_of-IsValid path (load file) m (load-IsValid file) e)
