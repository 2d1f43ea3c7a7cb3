-- ===== src/Server/Session/Named.antt =====
-- Through a life of the proxy the breakers stay well-formed: each in the map is allocated and bears
-- the name of the host that it stands under.
use load_balancer.Base.{
  ℕ, ◌+◌, ◌≡◌, inl, inr, Bool, String, List, [], ◌∷◌, str_eq, Bool-cases, Option-cases,
}
use load_balancer.Balancer.Backend.{Ref}
use load_balancer.Balancer.Strategy.{Strategy}
use load_balancer.Breaker.{Breaker, Change, allow, on_result, trip_manually, reset_manually}
use load_balancer.Breaker.Manager.{IsValid, get_breaker}
use load_balancer.Breaker.Manager.Kept.{get_breaker-IsValid, write-IsValid}
use load_balancer.Breaker.Names.{
  allow-name, on_result-name, get_state-name, trip_manually-name, reset_manually-name,
}
use load_balancer.Server.{Request, World, host_of, ask, report}
use load_balancer.Server.Admin.{on_breaker, ask_state, chaos_trip, chaos_reset, show_states}
use load_balancer.Server.Selection.{
  client_key, choose, fallback, guarded, select_available_backend, fallback_skip, fallback_shut,
  fallback_free, guarded_free, guarded_shut, nobody_chosen, somebody_chosen,
}

module _ {S : Type 0} where
  abbrev pub IsNamed : World S → Type 0
  IsNamed w = IsValid w.breakers

  ask-IsNamed : (host : String) (now : ℕ) (w : World S) → IsNamed w → IsNamed (ask host now w).0
  unfolding ask
  ask-IsNamed host now w v =
      let got = get_breaker host w.breakers in
      let cb = got.0.arena.cell got.1 in
      write-IsValid got.1 (allow now cb).0 got.0 (allow-name now cb)
        (get_breaker-IsValid host w.breakers v)

  pub report-IsNamed :
      (a : ℕ) (ok : Bool) (now : ℕ) (w : World S) → IsNamed w → IsNamed (report a ok now w)
  unfolding report
  report-IsNamed a ok now w v =
      let cb = w.breakers.arena.cell a in
      write-IsValid a (on_result ok now cb).0 w.breakers (on_result-name ok now cb) v

  pub on_breaker-IsNamed :
      (f : Breaker → Breaker × List Change) (host : String) (w : World S)
      → ((cb : Breaker) → (f cb).0.name ≡ cb.name)
      → IsNamed w
      → IsNamed (on_breaker f host w)
  unfolding on_breaker
  on_breaker-IsNamed f host w keeps v =
      let got = get_breaker host w.breakers in
      let cb = got.0.arena.cell got.1 in
      write-IsValid got.1 (f cb).0 got.0 (keeps cb) (get_breaker-IsValid host w.breakers v)

  fallback-IsNamed :
      (host : String) (clock : ℕ → ℕ) (i : ℕ) (ns : List Ref) (w : World S)
      → IsNamed w
      → IsNamed (fallback host clock i ns w).0
  fallback-IsNamed host clock i [] w v = unfold fallback in v
  fallback-IsNamed host clock i (n ∷ ns) w v =
      let asked = ask (host_of w n) (clock i) w in
      let kept = ask-IsNamed (host_of w n) (clock i) w v in
      elim (Bool-cases (str_eq (host_of w n) host)) [
        | inl same ↦
            rw (fallback_skip host clock i n ns w same) (fallback-IsNamed host clock (i + 1) ns w v)
        | inr other ↦ elim (Option-cases asked.1) [
          | inl shut ↦
              rw (fallback_shut host clock i n ns w other shut)
                (fallback-IsNamed host clock (i + 1) ns asked.0 kept)
          | inr (x, free) ↦ rw (fallback_free host clock i n ns w x other free) kept
        ]
      ]

  pub guarded-IsNamed :
      (clock : ℕ → ℕ) (c : Ref) (w : World S) → IsNamed w → IsNamed (guarded clock c w).0
  guarded-IsNamed clock c w v =
      let kept = ask-IsNamed (host_of w c) (clock 0) w v in
      elim (Option-cases (ask (host_of w c) (clock 0) w).1) [
        | inl shut ↦ rw (guarded_shut clock c w shut) (fallback-IsNamed _ clock 1 _ _ kept)
        | inr (x, free) ↦ rw (guarded_free clock c w x free) kept
      ]

  pub select-IsNamed :
      (st : Strategy S) (clock : ℕ → ℕ) (req : Request) (w : World S)
      → IsNamed w
      → IsNamed (select_available_backend st clock req w).0
  unfolding choose
  select-IsNamed st clock req w v =
      let chosen = choose st (client_key req) w in
      elim (Option-cases chosen.1) [
        | inl nobody ↦ rw (nobody_chosen st clock req w nobody) v
        | inr (c, some_c) ↦
            rw (somebody_chosen st clock req w c some_c) (guarded-IsNamed clock c chosen.0 v)
      ]

  pub show_states-IsNamed :
      (now : ℕ) (rs : List Ref) (w : World S) → IsNamed w → IsNamed (show_states now rs w)
  unfolding show_states ask_state
  show_states-IsNamed now [] w v = v
  show_states-IsNamed now (r ∷ rs) w v =
      show_states-IsNamed now rs (on_breaker (ask_state now) (host_of w r) w)
        (on_breaker-IsNamed (ask_state now) (host_of w r) w (get_state-name now) v)

  pub chaos_trip-IsNamed :
      (host : String) (now : ℕ) (w : World S) → IsNamed w → IsNamed (chaos_trip host now w).0
  unfolding chaos_trip
  chaos_trip-IsNamed host now w v =
      let kept = on_breaker-IsNamed (trip_manually now) host w (trip_manually-name now) v in
      elim (Bool-cases (str_eq host "")) [ inl e ↦ rw e v | inr e ↦ rw e kept ]

  pub chaos_reset-IsNamed :
      (host : String) (now : ℕ) (w : World S) → IsNamed w → IsNamed (chaos_reset host now w).0
  unfolding chaos_reset
  chaos_reset-IsNamed host now w v =
      let kept = on_breaker-IsNamed (reset_manually now) host w (reset_manually-name now) v in
      elim (Bool-cases (str_eq host "")) [ inl e ↦ rw e v | inr e ↦ rw e kept ]
