-- ===== src/Server/Session/Served.antt =====
-- A request, failing or not, leaves the backends and the pool as they are but for their counters.
use load_balancer.Base.{
  ℕ, ◌+◌, ◌<◌, refl, inl, inr, Option, none, some, String, List, [], ◌∷◌, arith, str_eq, Bool-cases,
  Option-cases, u64_mod,
}
use load_balancer.Balancer.Backend.{
  Ref, increment_conn, decrement_conn, record_failure, record_success,
}
use load_balancer.Balancer.Strategy.{Strategy}
use load_balancer.Errors.{GoError}
use load_balancer.Retry.{Env}
use load_balancer.Server.{Request, World, host_of, ask, report}
use load_balancer.Server.Selection.{
  client_key, choose, fallback, guarded, select_available_backend, fallback_skip, fallback_shut,
  fallback_free, guarded_free, guarded_shut, nobody_chosen, somebody_chosen,
}
use load_balancer.Server.Transport.{Response, begin_trip, end_trip, round_trip}
use load_balancer.Server.Proxy.{
  modify_response, error_handler, finish, proxied, turn_away, dispatch, serve_http,
}
use load_balancer.Server.Session.Kept.{
  Fits, still-Fits, IsUntouched, IsUntouched-trans, same-IsUntouched, IsSame,
}

module _ {S : Type 0} where
  ask-IsSame : (host : String) (now : ℕ) (w : World S) → IsSame w (ask host now w).0
  unfolding ask
  ask-IsSame host now w = (refl, refl)

  fallback-IsSame :
      (host : String) (clock : ℕ → ℕ) (i : ℕ) (ns : List Ref) (w : World S)
      → IsSame w (fallback host clock i ns w).0
  unfolding ask
  fallback-IsSame host clock i [] w = unfold fallback in (refl, refl)
  fallback-IsSame host clock i (n ∷ ns) w =
      let asked = ask (host_of w n) (clock i) w in
      elim (Bool-cases (str_eq (host_of w n) host)) [
        | inl same ↦
            rw (fallback_skip host clock i n ns w same) (fallback-IsSame host clock (i + 1) ns w)
        | inr other ↦ elim (Option-cases asked.1) [
          | inl shut ↦
              rw (fallback_shut host clock i n ns w other shut)
                (fallback-IsSame host clock (i + 1) ns asked.0)
          | inr (x, free) ↦ rw (fallback_free host clock i n ns w x other free) (refl, refl)
        ]
      ]

  pub guarded-IsSame : (clock : ℕ → ℕ) (c : Ref) (w : World S) → IsSame w (guarded clock c w).0
  unfolding ask
  guarded-IsSame clock c w = elim (Option-cases (ask (host_of w c) (clock 0) w).1) [
    | inl shut ↦ rw (guarded_shut clock c w shut) (fallback-IsSame _ clock 1 _ _)
    | inr (x, free) ↦ rw (guarded_free clock c w x free) (refl, refl)
  ]

  select-IsSame :
      (st : Strategy S) (clock : ℕ → ℕ) (req : Request) (w : World S)
      → IsSame w (select_available_backend st clock req w).0
  unfolding choose
  select-IsSame st clock req w =
      let chosen = choose st (client_key req) w in
      elim (Option-cases chosen.1) [
        | inl nobody ↦ rw (nobody_chosen st clock req w nobody) (refl, refl)
        | inr (c, some_c) ↦
            rw (somebody_chosen st clock req w c some_c) (guarded-IsSame clock c chosen.0)
      ]

  module _ (status_text : ℕ → String) where
    round_trip-IsUntouched :
        (be : Ref) (req : Request) (env : Env Response GoError) (dur : ℕ) (w : World S)
        → ((r : Ref) → (w.heap r).connections < u64_mod)
        → IsUntouched w (round_trip status_text be req env dur w).0
    unfolding round_trip begin_trip end_trip increment_conn decrement_conn
    round_trip-IsUntouched be req env dur w fits = record {
      kept = record {
        pool = refl;
        url = λ r. ground arith;
        weight = λ r. ground arith;
        connections = λ r. ground (arith, fits r);
      };
      alive = λ r. ground arith;
    }

    finish-IsUntouched :
        (be : Ref) (a : ℕ) (req : Request) (now : ℕ) (resp : Option Response) (err : Option GoError)
        (w : World S)
        → IsUntouched w
            (finish status_text (record { backend = some be; done = some a }) req now resp err w).0
    unfolding finish error_handler modify_response report record_failure record_success
    finish-IsUntouched be a req now none none w = same-IsUntouched w w refl refl
    finish-IsUntouched be a req now resp (some e) w = record {
      kept = record {
        pool = refl;
        url = λ r. ground arith;
        weight = λ r. ground arith;
        connections = λ r. ground arith;
      };
      alive = λ r. ground arith;
    }
    finish-IsUntouched be a req now (some x) none w = record {
      kept = record {
        pool = ground arith;
        url = λ r. ground arith;
        weight = λ r. ground arith;
        connections = λ r. ground arith;
      };
      alive = λ r. ground arith;
    }

    dispatch-IsUntouched :
        (req : Request) (env : Ref → Env Response GoError) (dur now : ℕ) (chosen : Option (Ref × ℕ))
        (w : World S)
        → Fits w
        → IsUntouched w (dispatch status_text req env dur now chosen w).0
    unfolding turn_away proxied
    dispatch-IsUntouched req env dur now none w fits =
        same-IsUntouched w (turn_away status_text req w).0 refl refl
    dispatch-IsUntouched req env dur now (some (be, a)) w fits =
        let back = round_trip status_text be req (env be) dur w in
        IsUntouched-trans w back.0 (proxied status_text be a req (env be) dur now w).0
          (round_trip-IsUntouched be req (env be) dur w fits)
          (finish-IsUntouched be a req now back.1 back.2 back.0)

    pub serve_http-IsUntouched :
        (st : Strategy S) (clock : ℕ → ℕ) (req : Request) (env : Ref → Env Response GoError)
        (dur now : ℕ) (w : World S)
        → Fits w
        → IsUntouched w (serve_http status_text st clock req env dur now w).0
    unfolding serve_http
    serve_http-IsUntouched st clock req env dur now w fits =
        let picked = select_available_backend st clock req w in
        let (heap, pool) = select-IsSame st clock req w in
        let first = same-IsUntouched w picked.0 heap pool in
        IsUntouched-trans w picked.0 (serve_http status_text st clock req env dur now w).0 first (
          dispatch-IsUntouched req env dur now picked.1 picked.0
            (still-Fits w picked.0 first.kept fits))
