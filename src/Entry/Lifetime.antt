-- ===== src/Entry/Lifetime.antt =====
-- From the configuration to any later day of the program: cmd/proxy/main.go and NewProxy, and then
-- requests, rounds of the checker and calls of the admin routes in any order. NewFastProxy makes
-- the same world.
use load_balancer.Base.{
  ℕ, ◌<◌, ◌≡◌, ◌≢◌, refl, sym, ap, ◌∙◌, inl, inr, Bool, Option, none, some, String, List, [], ◌∷◌,
  map, u64_mod, is_nonpos, if◌then◌else◌, Option-cases,
}
use load_balancer.Balancer.Backend.{Backend, Heap, Ref, Url, new_backend}
use load_balancer.Balancer.Pool.{all_backends}
use load_balancer.Balancer.Strategy.{Strategy}
use load_balancer.Base.Dict.{lookup}
use load_balancer.Breaker.Manager.{Arena, IsValid as BreakersOk, new_manager}
use load_balancer.Config.{Config, BackendConfig}
use load_balancer.Config.Valid.{IsValid}
use load_balancer.Metrics.{Collector}
use load_balancer.Server.{World}
use load_balancer.Server.Fresh.{new_proxy}
use load_balancer.Server.Session.{Event, live}
use load_balancer.Server.Session.Kept.{IsKept}
use load_balancer.Server.Session.Lasting.{live-IsKept}
use load_balancer.Server.Session.WellFormed.{live-IsValid}
use load_balancer.Entry.Startup.{Running, start}
use load_balancer.Entry.Started.{configured, started}
use load_balancer.Entry.FirstRequest.{StateType, methods, first_world}

nothing : (r : ℕ) → ¬ (◌≡◌ {A = Option ℕ} none (some r))
nothing r e = cc

module _ (parse : String → Option Url) where
  -- The backend has the address and the weight of the entry, one for a weight that is not positive,
  -- and no connection.
  abbrev pub IsEntry : BackendConfig → Backend → Type 0
  IsEntry bc b =
      (parse bc.url ≡ some b.url)
      × (b.weight ≡ (if is_nonpos bc.weight then 1 else bc.weight))
      × (b.connections ≡ 0)

  -- The pointers lead to a backend for each entry, in order.
  abbrev pub AreEntries : Heap → List Ref → List BackendConfig → Type 0
  AreEntries h [] [] = Unit
  AreEntries h (r ∷ rs) (bc ∷ bcs) = IsEntry bc (h r) × AreEntries h rs bcs
  AreEntries h [] (bc ∷ bcs) = ⊥
  AreEntries h (r ∷ rs) [] = ⊥

  made_of :
      (bc : BackendConfig) (u : Url)
      → parse bc.url ≡ some u
      → (b : Backend) × (configured parse bc ≡ some b) × IsEntry bc b
  unfolding new_backend
  made_of bc u e = rw (e, new_backend) (_, refl, (refl, refl, refl))

  configured-IsEntry :
      (bc : BackendConfig) (b : Backend) → some b ≡ configured parse bc → IsEntry bc b
  unfolding new_backend
  configured-IsEntry bc b made = elim (Option-cases (parse bc.url)) [
    | inl e ↦
        let failed : configured parse bc ≡ none = rw (e, new_backend) refl in
        let clash : some b ≡ none = made ∙ failed in cc
    | inr (u, e) ↦
        let (b', made', entry) = made_of bc u e in
        let sames : some b ≡ some b' = made ∙ made' in let same : b ≡ b' = cc in rw same entry
  ]

  built-AreEntries :
      (h : Heap) (rs : List Ref) (bcs : List BackendConfig)
      → map (λ r. some (h r)) rs ≡ map (configured parse) bcs
      → AreEntries h rs bcs
  built-AreEntries h [] [] built = tt
  built-AreEntries h (r ∷ rs) (bc ∷ bcs) built =
      let cells : some (h r) ∷ map (λ r. some (h r)) rs
          ≡ configured parse bc ∷ map (configured parse) bcs =
        built in
      let head : some (h r) ≡ configured parse bc = cc in
      let tail : map (λ r. some (h r)) rs ≡ map (configured parse) bcs = cc in
      (configured-IsEntry bc (h r) head, built-AreEntries h rs bcs tail)
  built-AreEntries h [] (bc ∷ bcs) built = cc
  built-AreEntries h (r ∷ rs) [] built = cc

  kept-AreEntries :
      {S : Type 0}
      → (w w' : World S) (rs : List Ref) (bcs : List BackendConfig) → IsKept w w'
      → AreEntries w.heap rs bcs
      → AreEntries w'.heap rs bcs
  kept-AreEntries w w' [] [] kept e = e
  kept-AreEntries w w' (r ∷ rs) (bc ∷ bcs) kept ((url, weight, connections), later) = (
    (url ∙ ap some (sym (kept.url r)), kept.weight r ∙ weight, kept.connections r ∙ connections),
    kept-AreEntries w w' rs bcs kept later,
  )
  kept-AreEntries w w' [] (bc ∷ bcs) kept e = e
  kept-AreEntries w w' (r ∷ rs) [] kept e = e

  live-AreEntries :
      {S : Type 0}
      → (w : World S) (status_text : ℕ → String) (st : Strategy S) (es : List Event)
        (bcs : List BackendConfig)
      → ((r : Ref) → (w.heap r).connections < u64_mod)
      → AreEntries w.heap (all_backends w.pool) bcs
      → AreEntries
          (live status_text st es w).heap
          (all_backends (live status_text st es w).pool)
          bcs
  live-AreEntries w status_text st es bcs fits first =
      let kept = live-IsKept status_text st es w fits in
      rw kept.pool
        (kept-AreEntries w (live status_text st es w) (all_backends w.pool) bcs kept first)

  -- Once main comes to the servers with a valid configuration, where no counter of connections in
  -- memory exceeds a word, and whatever requests to either proxy, rounds of the checker and calls
  -- of the admin routes then follow one another: the pool is a backend for each entry of the
  -- configuration, in order, with its address and its weight, one where that is not positive, and
  -- no connection is counted when the last is done.
  pub life_keeps_entries :
      (exists : String → Bool) (h : Heap) (c : Config) (run : Running) (arena : Arena)
      (m : Collector) (status_text : ℕ → String) (es : List Event)
      → IsValid parse exists c
      → start parse h c ≡ some run
      → ((r : Ref) → (run.heap r).connections < u64_mod)
      → let w = live status_text (methods run.strategy) es (first_world run arena m) in
        AreEntries w.heap (all_backends w.pool) c.backends
  unfolding first_world new_proxy all_backends
  life_keeps_entries exists h c run arena m status_text es valid runs fits =
      let (own, owns, (pooled, _, built), _) = started parse exists h c "" valid in
      let sames : some own ≡ some run = sym owns ∙ runs in
      let same : own ≡ run = cc in
      let now = rw same at built in
      let first = built-AreEntries run.heap (all_backends run.pool) c.backends now in
      live-AreEntries (first_world run arena m) status_text (methods run.strategy) es c.backends
        fits first

module _ (run : Running) (arena : Arena) (m : Collector) where
  first_world-IsValid : BreakersOk (first_world run arena m).breakers
  unfolding first_world new_proxy new_manager lookup
  first_world-IsValid = record {
    allocated = λ n r e. absurd (nothing r e);
    named = λ n r e. absurd (nothing r e);
  }

  -- The world after the given events.
  abbrev pub after : (ℕ → String) → List Event → World (StateType run.strategy)
  after status_text es = live status_text (methods run.strategy) es (first_world run arena m)

  -- Whatever requests to either proxy, rounds of the checker and calls of the admin routes follow
  -- one another from the start on: two hosts with a breaker each have breakers of their own, which
  -- bear the names of the hosts.
  pub life_keeps_breakers :
      (status_text : ℕ → String) (es : List Event) (host other : String) (a b : ℕ)
      → host ≢ other
      → lookup host (after status_text es).breakers.manager.breakers ≡ some a
      → lookup other (after status_text es).breakers.manager.breakers ≡ some b
      → (a ≢ b)
        × (((after status_text es).breakers.arena.cell a).name ≡ host)
        × (((after status_text es).breakers.arena.cell b).name ≡ other)
  life_keeps_breakers status_text es host other a b apart here there =
      let w = after status_text es in
      let kept =
        live-IsValid status_text (methods run.strategy) es (first_world run arena m)
          first_world-IsValid in
      let own = kept.named host a here in
      let its = kept.named other b there in
      (λ same. apart (sym own ∙ ap (λ c. (w.breakers.arena.cell c).name) same ∙ its), own, its)
