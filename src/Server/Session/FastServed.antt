-- ===== src/Server/Session/FastServed.antt =====
-- A request to the fast proxy, and the admin routes of fasthttp.go, leave the backends and the pool
-- as they are but for their counters.
use load_balancer.Base.{
  ℕ, ◌<◌, refl, inl, inr, Option, none, some, String, arith, Bool-cases, u64_mod,
}
use load_balancer.Balancer.Backend.{
  Ref, increment_conn, decrement_conn, record_failure, record_success,
}
use load_balancer.Balancer.Strategy.{Strategy}
use load_balancer.Server.{World, report}
use load_balancer.Server.Admin.{on_breaker}
use load_balancer.Server.FastAdmin.{fast_chaos_trip, fast_chaos_reset}
use load_balancer.Server.FastProxy.{
  FastRequest, Answer, refused, answered, FastReply, fast_key, is_dashboard, begin_relay, refusal,
  outcome, relay, nobody, select_backend, handler,
}
use load_balancer.Server.Selection.{choose, guarded}
use load_balancer.Server.Transport.{end_trip}
use load_balancer.Server.Session.Kept.{
  Fits, still-Fits, IsUntouched, IsUntouched-trans, same-IsUntouched, IsSame,
}
use load_balancer.Server.Session.Served.{guarded-IsSame}

module _ {S : Type 0} where
  chosen-IsSame :
      (clock : ℕ → ℕ) (w : World S) (chosen : Option Ref)
      → let out : World S × Option (Ref × ℕ) = elim chosen [
        | none ↦ (w, none)
        | some b ↦ guarded clock b w
      ] in
        IsSame w out.0
  chosen-IsSame clock w none = (refl, refl)
  chosen-IsSame clock w (some b) = guarded-IsSame clock b w

  select_backend-IsSame :
      (st : Strategy S) (clock : ℕ → ℕ) (req : FastRequest) (w : World S)
      → IsSame w (select_backend st clock req w).0
  unfolding select_backend choose
  select_backend-IsSame st clock req w =
      let picked = choose st (fast_key req) w in chosen-IsSame clock picked.0 picked.1

  pub fast_chaos_trip-IsSame :
      (host : String) (now : ℕ) (w : World S) → IsSame w (fast_chaos_trip host now w)
  unfolding fast_chaos_trip on_breaker
  fast_chaos_trip-IsSame host now w = (refl, refl)

  pub fast_chaos_reset-IsSame :
      (host : String) (now : ℕ) (w : World S) → IsSame w (fast_chaos_reset host now w)
  unfolding fast_chaos_reset on_breaker
  fast_chaos_reset-IsSame host now w = (refl, refl)

  module _ (status_text : ℕ → String) where
    relay-IsUntouched :
        (be : Ref) (a : ℕ) (req : FastRequest) (dur now : ℕ) (answer : Answer) (w : World S)
        → ((r : Ref) → (w.heap r).connections < u64_mod)
        → IsUntouched w (relay status_text be a req dur now answer w).0
    unfolding relay begin_relay outcome refusal end_trip report increment_conn decrement_conn
        record_failure record_success
    relay-IsUntouched be a req dur now (refused e) w fits = record {
      kept = record {
        pool = refl;
        url = λ r. ground arith;
        weight = λ r. ground arith;
        connections = λ r. ground (arith, fits r);
      };
      alive = λ r. ground arith;
    }
    relay-IsUntouched be a req dur now (answered status size) w fits = record {
      kept = record {
        pool = ground arith;
        url = λ r. ground arith;
        weight = λ r. ground arith;
        connections = λ r. ground (arith, fits r);
      };
      alive = λ r. ground arith;
    }

    served-IsUntouched :
        (req : FastRequest) (answer : Answer) (dur now : ℕ) (chosen : Option (Ref × ℕ))
        (w : World S)
        → Fits w
        → let out : World S × FastReply = elim chosen [
          | none ↦ nobody status_text req w
          | some (be, a) ↦ relay status_text be a req dur now answer w
        ] in
          IsUntouched w out.0
    unfolding nobody
    served-IsUntouched req answer dur now none w fits =
        same-IsUntouched w (nobody status_text req w).0 refl refl
    served-IsUntouched req answer dur now (some (be, a)) w fits =
        relay-IsUntouched be a req dur now answer w fits

    pub handler-IsUntouched :
        (st : Strategy S) (clock : ℕ → ℕ) (req : FastRequest) (answer : Answer) (dur now : ℕ)
        (w : World S)
        → Fits w
        → IsUntouched w (handler status_text st clock req answer dur now w).0
    unfolding handler
    handler-IsUntouched st clock req answer dur now w fits =
        elim (Bool-cases (is_dashboard req.path)) [
          | inl e ↦ rw e (same-IsUntouched w w refl refl)
          | inr e ↦
              let picked = select_backend st clock req w in
              let (heap, pool) = select_backend-IsSame st clock req w in
              let first = same-IsUntouched w picked.0 heap pool in
              rw e (
                IsUntouched-trans w picked.0 _ first (
                  served-IsUntouched req answer dur now picked.1 picked.0
                    (still-Fits w picked.0 first.kept fits)))
        ]
