-- ===== src/Server/Selection.antt =====
-- internal/server/proxy.go, selectAvailableBackend: the strategy's choice, and the fallback over
-- the other healthy backends when its breaker refuses. `clock i` is what the i-th Allow reads.
use load_balancer.Base.{
  ℕ, ◌+◌, ◌≡◌, true, false, Option, none, some, String, List, [], ◌∷◌, str_eq, if◌then◌else◌,
}
use load_balancer.Balancer.Backend.{Ref}
use load_balancer.Balancer.Pool.{healthy_backends}
use load_balancer.Balancer.Strategy.{Strategy, select_for}
use load_balancer.Metrics.{record_circuit_breaker_rejection}
use load_balancer.Server.{Request, World, host_of, ask, to_metrics}

abbrev pub client_key : Request → String
client_key req = if str_eq req.forwarded_for "" then req.remote_addr else req.forwarded_for

module _ {S : Type 0} where
  -- The call of the strategy, keyed or not.
  unfoldable pub choose : Strategy S → String → World S → World S × Option Ref
  choose st key w =
      let (s, be) = select_for st key w.strategy w.heap w.pool in (record w { strategy = s }, be)

  -- The loop over HealthyBackends.
  unfoldable pub fallback : String → (ℕ → ℕ) → ℕ → List Ref → World S → World S × Option (Ref × ℕ)
  fallback host clock i [] w = (w, none)
  fallback host clock i (n ∷ ns) w =
      let same = str_eq (host_of w n) host in
      let (w', answer) = ask (host_of w n) (clock i) w in
      let skipped = fallback host clock (i + 1) ns w in
      let rest = fallback host clock (i + 1) ns w' in
      if same then skipped else elim answer [ some a ↦ (w', some (n, a)) | none ↦ rest ]

  unfoldable pub guarded : (ℕ → ℕ) → Ref → World S → World S × Option (Ref × ℕ)
  unfolding ask fallback
  guarded clock be w =
      let host = host_of w be in
      let (w', answer) = ask host (clock 0) w in
      elim answer [
        | some a ↦ (w', some (be, a))
        | none ↦
            fallback host clock 1 (healthy_backends w'.heap w'.pool)
              (to_metrics (record_circuit_breaker_rejection host) w')
      ]

  unfoldable pub select_available_backend :
      Strategy S → (ℕ → ℕ) → Request → World S → World S × Option (Ref × ℕ)
  unfolding choose guarded
  select_available_backend st clock req w =
      let (w', be) = choose st (client_key req) w in
      elim be [ none ↦ (w', none) | some b ↦ guarded clock b w' ]

  module _ (host : String) (clock : ℕ → ℕ) (i : ℕ) (n : Ref) (ns : List Ref) (w : World S) where
    pub fallback_skip :
        str_eq (host_of w n) host ≡ true
        → fallback host clock i (n ∷ ns) w ≡ fallback host clock (i + 1) ns w
    unfolding fallback
    fallback_skip same = rw same

    pub fallback_shut :
        str_eq (host_of w n) host ≡ false
        → (ask (host_of w n) (clock i) w).1 ≡ none
        → fallback host clock i (n ∷ ns) w
          ≡ fallback host clock (i + 1) ns (ask (host_of w n) (clock i) w).0
    unfolding fallback
    fallback_shut other shut = rw (other, shut)

    pub fallback_free :
        (a : ℕ)
        → str_eq (host_of w n) host ≡ false
        → (ask (host_of w n) (clock i) w).1 ≡ some a
        → fallback host clock i (n ∷ ns) w ≡ ((ask (host_of w n) (clock i) w).0, some (n, a))
    unfolding fallback
    fallback_free a other free = rw (other, free)

  module _ (clock : ℕ → ℕ) (c : Ref) (w : World S) where
    pub guarded_free :
        (a : ℕ)
        → (ask (host_of w c) (clock 0) w).1 ≡ some a
        → guarded clock c w ≡ ((ask (host_of w c) (clock 0) w).0, some (c, a))
    unfolding guarded
    guarded_free a free = rw (free, guarded)

    pub guarded_shut :
        (ask (host_of w c) (clock 0) w).1 ≡ none
        → let w' = (ask (host_of w c) (clock 0) w).0 in
          guarded clock c w
          ≡ fallback
              (host_of w c)
              clock
              1
              (healthy_backends w'.heap w'.pool)
              (to_metrics (record_circuit_breaker_rejection (host_of w c)) w')
    unfolding guarded
    guarded_shut shut = rw (shut, guarded)

  module _ (st : Strategy S) (clock : ℕ → ℕ) (req : Request) (w : World S) where
    pub nobody_chosen :
        (choose st (client_key req) w).1 ≡ none
        → select_available_backend st clock req w ≡ ((choose st (client_key req) w).0, none)
    unfolding select_available_backend
    nobody_chosen e = rw (e, select_available_backend)

    pub somebody_chosen :
        (c : Ref)
        → (choose st (client_key req) w).1 ≡ some c
        → select_available_backend st clock req w ≡ guarded clock c (choose st (client_key req) w).0
    unfolding select_available_backend
    somebody_chosen c e = rw (e, select_available_backend)
