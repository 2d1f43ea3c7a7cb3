-- ===== src/Server.antt =====
-- internal/server: what proxy.go and fastproxy.go share. A `World` is what the two proxies hold:
-- the backends behind the pool's pointers, the pool, the strategy's state, the breakers and the
-- collector. Logging is left out.
pub mod Selection
pub mod Availability
pub mod Transport
pub mod Proxy
pub mod Proxied
pub mod Admin
pub mod FastProxy
pub mod Relay
pub mod Aggregate
pub mod StatusPages
pub mod Clients
pub mod Trips
pub mod Outcome
pub mod Director
pub mod FastAdmin
pub mod Fresh
pub mod FastFresh
pub mod Probed
pub mod Session
use load_balancer.Base.{
  ℕ, ◌-◌, ◌≡◌, refl, ap, ◌∙◌, ◌≢◌, inl, inr, Bool, true, Option, none, some, String, List, [], ◌∷◌,
  if◌then◌else◌, Option-cases,
}
use load_balancer.Balancer.Backend.{Heap, Ref, Backend, modify}
use load_balancer.Balancer.Pool.{Pool}
use load_balancer.Breaker.Types.{
  Config, State, closed, half_open, open_state, is_state, default_config,
}
use load_balancer.Breaker.{Breaker, Change, allow, on_result}
use load_balancer.Breaker.Manager.{
  Breakers, Manager, Arena, write, get_breaker, get_breaker_found, get_breaker_fresh,
  get_breaker-lookup, write_back,
}
use load_balancer.Base.Dict.{lookup}
use load_balancer.Breaker.Open.{allow_refused, allow-new_breaker}
use load_balancer.Metrics.{Collector, set_circuit_breaker_state, record_circuit_breaker_trip}

-- What the proxies read of a request. The length is an int64, -1 where it is unknown.
pub record Request : Type 0 where
  pub method : String
  pub forwarded_for : String
  pub remote_addr : String
  pub content_length : ℕ

pub record World (S : Type 0) : Type 0 where
  pub heap : Heap
  pub pool : Pool
  pub strategy : S
  pub breakers : Breakers
  pub metrics : Collector

-- int(to).
abbrev pub state_number : State → ℕ
state_number closed = 0
state_number half_open = 1
state_number open_state = 2

-- The OnStateChange that NewProxy and NewFastProxy set, for the calls that a breaker makes.
unfoldable pub on_state_change : List Change → Collector → Collector
on_state_change [] c = c
on_state_change (x ∷ xs) c =
    let c' = set_circuit_breaker_state x.name (state_number x.to) c in
    on_state_change xs
      (if is_state x.to open_state then record_circuit_breaker_trip x.name c' else c')

unfoldable pub proxy_config : Config
proxy_config = record default_config { on_state_change = true }

module _ {S : Type 0} where
  -- `f` called on the backend behind `r`.
  abbrev pub on_backend : (Backend → Backend) → Ref → World S → World S
  on_backend f r w = record w { heap = modify f r w.heap }

  abbrev pub to_metrics : (Collector → Collector) → World S → World S
  to_metrics f w = record w { metrics = f w.metrics }

  abbrev pub host_of : World S → Ref → String
  host_of w r = (w.heap r).url.host

  -- GetBreaker for a host, then Allow: the breaker's address if the request is let through. Allow
  -- calls no OnStateChange.
  unfoldable pub ask : String → ℕ → World S → World S × Option ℕ
  ask host now w =
      let (b, a) = get_breaker host w.breakers in
      let (cb, refusal) = allow now (b.arena.cell a) in
      (
        record w { breakers = record b { arena = write a cb b.arena } },
        elim refusal [ none ↦ some a | some e ↦ none ],
      )

  -- The function that Allow gave, called with `success`: it closes over the breaker's address.
  unfoldable pub report : ℕ → Bool → ℕ → World S → World S
  report a success now w =
      let (cb, told) = on_result success now (w.breakers.arena.cell a) in
      record w {
        breakers = record (w.breakers) { arena = write a cb w.breakers.arena };
        metrics = on_state_change told w.metrics;
      }

  pub ask_heap : (host : String) (now : ℕ) (w : World S) → (ask host now w).0.heap ≡ w.heap
  unfolding ask
  ask_heap host now w = refl

  ask_verdict :
      (host : String) (now : ℕ) (w : World S)
      → let got = get_breaker host w.breakers in
        (ask host now w).1 ≡ none → (allow now (got.0.arena.cell got.1)).1 ≢ none
  unfolding ask
  ask_verdict host now w e let_through = let clash = rw (let_through, ask) at e in cc

  -- A refusal comes from a breaker that the host had, and nothing is changed by it.
  pub ask_refused :
      (host : String) (now : ℕ) (w : World S)
      → (ask host now w).1 ≡ none
      → ((ask host now w).0 ≡ w)
        × ((a : ℕ) × (lookup host w.breakers.manager.breakers ≡ some a)
            × ((allow now (w.breakers.arena.cell a)).1 ≢ none))
  unfolding ask
  ask_refused host now w e = elim (Option-cases (lookup host w.breakers.manager.breakers)) [
    | inl missing ↦ absurd (
        ask_verdict host now w e (
          rw (get_breaker_fresh host w.breakers missing)
            (allow-new_breaker now host w.breakers.manager.config)))
    | inr (a, found) ↦
        let same = get_breaker_found host a w.breakers found in
        let refused : (allow now (w.breakers.arena.cell a)).1 ≢ none =
          rw same at (ask_verdict host now w e) in
        (
          rw (
            same,
            allow_refused now (w.breakers.arena.cell a) refused,
            write_back a w.breakers.arena,
          ),
          (a, found, refused),
        )
  ]

  -- Who is let through was let through by the breaker that its host has now.
  pub ask-lookup :
      (host : String) (now : ℕ) (w : World S) (a : ℕ)
      → (ask host now w).1 ≡ some a
      → lookup host (ask host now w).0.breakers.manager.breakers ≡ some a
  unfolding ask
  ask-lookup host now w a e =
      let got = get_breaker host w.breakers in
      elim (Option-cases (allow now (got.0.arena.cell got.1)).1) [
        | inl let_through ↦
            let h = rw (let_through, ask) at e in
            let same : got.1 ≡ a = cc in get_breaker-lookup host w.breakers ∙ ap some same
        | inr (x, refused) ↦ let clash = rw (refused, ask) at e in cc
      ]
