-- ===== src/Server/Availability.antt =====
-- Whom the selection hands out, and when it turns a request away.
use load_balancer.Base.{
  ℕ, ◌+◌, ◌≡◌, sym, ◌≢◌, ◌⊎◌, inl, inr, none, some, String, List, [], ◌∷◌, str_eq, str_eq_iff,
  Bool-cases, Option-cases, In,
}
use load_balancer.Balancer.Backend.{Ref}
use load_balancer.Balancer.Pool.{healthy_backends}
use load_balancer.Balancer.Strategy.{Strategy, IsSound}
use load_balancer.Metrics.{record_circuit_breaker_rejection}
use load_balancer.Server.{Request, World, host_of, ask, to_metrics, ask_refused, ask-lookup}
use load_balancer.Base.Dict.{lookup}
use load_balancer.Breaker.{allow}
use load_balancer.Server.Selection.{
  client_key, choose, fallback, guarded, select_available_backend, fallback_skip, fallback_shut,
  fallback_free, guarded_free, guarded_shut, nobody_chosen, somebody_chosen,
}

module _ {S : Type 0} where
  -- The host has a breaker, which refuses at one of the times read.
  abbrev pub Refuses : (ℕ → ℕ) → World S → String → Type 0
  Refuses clock w host =
      (i : ℕ) × (a : ℕ) × (lookup host w.breakers.manager.breakers ≡ some a)
      × ((allow (clock i) (w.breakers.arena.cell a)).1 ≢ none)

  -- The backend returned is one of those listed, and the breaker asked last is its host's.
  fallback_found :
      (host : String) (clock : ℕ → ℕ) (i : ℕ) (ns : List Ref) (w : World S) (b : Ref) (a : ℕ)
      → (fallback host clock i ns w).1 ≡ some (b, a)
      → In b ns
        × (lookup (host_of w b) (fallback host clock i ns w).0.breakers.manager.breakers ≡ some a)
  unfolding ask
  fallback_found host clock i [] w b a e = unfold fallback in cc
  fallback_found host clock i (n ∷ ns) w b a e =
      let asked = ask (host_of w n) (clock i) w in
      elim (Bool-cases (str_eq (host_of w n) host)) [
        | inl same ↦
            let eq = fallback_skip host clock i n ns w same in
            let (mem, l) = fallback_found host clock (i + 1) ns w b a (rw eq at e) in
            (inr mem, rw eq l)
        | inr other ↦ elim (Option-cases asked.1) [
          | inl shut ↦
              let eq = fallback_shut host clock i n ns w other shut in
              let (mem, l) = fallback_found host clock (i + 1) ns asked.0 b a (rw eq at e) in
              (inr mem, rw eq l)
          | inr (x, free) ↦
              let eq = fallback_free host clock i n ns w x other free in
              let h = rw eq at e in
              let same_node : n ≡ b = cc in
              let same_breaker : x ≡ a = cc in
              (
                inl (sym same_node),
                rw (eq, sym same_node, sym same_breaker)
                    (ask-lookup (host_of w n) (clock i) w x free),
              )
        ]
      ]

  -- Where the loop finds nobody, every breaker it asked had refused before.
  fallback_refused :
      (host : String) (clock : ℕ → ℕ) (i : ℕ) (ns : List Ref) (w : World S) (b : Ref)
      → (fallback host clock i ns w).1 ≡ none
      → In b ns
      → (host_of w b ≡ host) ⊎ Refuses clock w (host_of w b)
  fallback_refused host clock i [] w b e h = elim h [ ]
  fallback_refused host clock i (n ∷ ns) w b e h =
      let asked = ask (host_of w n) (clock i) w in
      elim (Bool-cases (str_eq (host_of w n) host)) [
        | inl same ↦ elim h [
          | inl here ↦ inl (rw here ((str_eq_iff (host_of w n) host).0 same))
          | inr later ↦
              fallback_refused host clock (i + 1) ns w b
                (rw (fallback_skip host clock i n ns w same) at e) later
        ]
        | inr other ↦ elim (Option-cases asked.1) [
          | inr (x, free) ↦ let h' = rw (fallback_free host clock i n ns w x other free) at e in cc
          | inl shut ↦
              let (kept, (a, found, refused)) = ask_refused (host_of w n) (clock i) w shut in
              elim h [
                | inl here ↦ inr (rw here (i, a, found, refused))
                | inr later ↦
                    let rest = rw (fallback_shut host clock i n ns w other shut) at e in
                    fallback_refused host clock (i + 1) ns w b (rw kept at rest) later
              ]
        ]
      ]

  module _ (clock : ℕ → ℕ) (c : Ref) (w : World S) where
    guarded_found :
        (b : Ref) (a : ℕ)
        → In c (healthy_backends w.heap w.pool)
        → (guarded clock c w).1 ≡ some (b, a)
        → In b (healthy_backends w.heap w.pool)
          × (lookup (host_of w b) (guarded clock c w).0.breakers.manager.breakers ≡ some a)
    unfolding ask
    guarded_found b a mem e =
        let asked = ask (host_of w c) (clock 0) w in
        elim (Option-cases asked.1) [
          | inl shut ↦
              let w' = to_metrics (record_circuit_breaker_rejection (host_of w c)) asked.0 in
              let found =
                fallback_found (host_of w c) clock 1 (healthy_backends w'.heap w'.pool) w' b a
                  (rw (guarded_shut clock c w shut) at e) in
              (found.0, rw (guarded_shut clock c w shut) found.1)
          | inr (x, free) ↦
              let h = rw (guarded_free clock c w x free) at e in
              let same_node : c ≡ b = cc in
              let same_breaker : x ≡ a = cc in
              (
                rw same_node at mem,
                rw (guarded_free clock c w x free, sym same_node, sym same_breaker)
                    (ask-lookup (host_of w c) (clock 0) w x free),
              )
        ]

    guarded_refused :
        (b : Ref)
        → (guarded clock c w).1 ≡ none
        → In b (healthy_backends w.heap w.pool)
        → Refuses clock w (host_of w b)
    guarded_refused b e mem =
        let asked = ask (host_of w c) (clock 0) w in
        elim (Option-cases asked.1) [
          | inr (x, free) ↦ let h = rw (guarded_free clock c w x free) at e in cc
          | inl shut ↦
              let (kept, (a, found, refused)) = ask_refused (host_of w c) (clock 0) w shut in
              let w' = to_metrics (record_circuit_breaker_rejection (host_of w c)) w in
              let e' = rw kept at (rw (guarded_shut clock c w shut) at e) in
              elim (fallback_refused (host_of w c) clock 1 (healthy_backends w.heap w.pool) w' b e'
                mem) [ inl same ↦ (0, a, rw same found, refused) | inr there ↦ there ]
        ]

  -- A backend that is handed out is a healthy one of the pool, if the strategy is sound, and the
  -- breaker that let the request through is the one that its host has.
  pub selected-healthy :
      (st : Strategy S) (clock : ℕ → ℕ) (req : Request) (w : World S) (b : Ref) (a : ℕ)
      → IsSound st
      → (select_available_backend st clock req w).1 ≡ some (b, a)
      → In b (healthy_backends w.heap w.pool)
        × (lookup
              (host_of w b)
              (select_available_backend st clock req w).0.breakers.manager.breakers
            ≡ some a)
  unfolding choose
  selected-healthy st clock req w b a sound e =
      let chosen = choose st (client_key req) w in
      elim (Option-cases chosen.1) [
        | inl nobody ↦ let h = rw (nobody_chosen st clock req w nobody) at e in cc
        | inr (c, some_c) ↦
            let mem = sound.law (client_key req) w.strategy w.heap w.pool c some_c in
            rw (somebody_chosen st clock req w c some_c) (
              guarded_found clock c chosen.0 b a mem
                (rw (somebody_chosen st clock req w c some_c) at e))
      ]

  -- A request is turned away only if the strategy names no backend, or if every healthy backend's
  -- host has a breaker, in the state of before the request, that refuses at one of the times read.
  pub unavailable :
      (st : Strategy S) (clock : ℕ → ℕ) (req : Request) (w : World S) (b : Ref)
      → (select_available_backend st clock req w).1 ≡ none
      → In b (healthy_backends w.heap w.pool)
      → ((choose st (client_key req) w).1 ≡ none) ⊎ Refuses clock w (host_of w b)
  unfolding choose
  unavailable st clock req w b e mem =
      let chosen = choose st (client_key req) w in
      elim (Option-cases chosen.1) [
        | inl nobody ↦ inl nobody
        | inr (c, some_c) ↦ inr (
            guarded_refused clock c chosen.0 b (rw (somebody_chosen st clock req w c some_c) at e)
              mem)
      ]
