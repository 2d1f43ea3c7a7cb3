-- ===== src/Server/Trips/Balance.antt =====
-- The connection counts under requests that overlap.
use load_balancer.Base.{
  ℕ, ◌+◌, ◌%◌, ◌<◌, ◌≡◌, refl, Bool, false, Option, none, some, String, List, [], ◌∷◌, arith, ◌==◌,
  if◌then◌else◌, count, u64_mod, add64, sub64,
}
use load_balancer.Balancer.Backend.{
  Ref, increment_conn, decrement_conn, record_failure, record_success,
}
use load_balancer.Errors.{GoError}
use load_balancer.Retry.{Env}
use load_balancer.Server.{Request, World, report}
use load_balancer.Server.Transport.{Response, begin_trip, end_trip, forward}
use load_balancer.Server.Proxy.{Context, modify_response, error_handler}
use load_balancer.Server.FastProxy.{
  FastRequest, Answer, refused, answered, begin_relay, refusal, outcome,
}
use load_balancer.Server.Trips.{
  Step, begins, ends, relays, records, settles, fails, resolves, take_step, take_steps, handled,
  net_trip, fast_trip,
}

-- The third list has the steps of the first two, each in its order.
pub data Shuffle : List Step → List Step → List Step → Type 0 where
  both_done : Shuffle [] [] []
  from_left : (x : Step) (xs ys zs : List Step) → Shuffle xs ys zs → Shuffle (x ∷ xs) ys (x ∷ zs)
  from_right : (y : Step) (xs ys zs : List Step) → Shuffle xs ys zs → Shuffle xs (y ∷ ys) (y ∷ zs)

-- The steps of any number of requests to the proxies, all of which come to their end, in any order
-- that keeps that of each request.
pub data Schedule (status_text : ℕ → String) : List Step → Type 0 where
  idle : Schedule status_text []
  net_joins :
      (host : String) (be : Ref) (a : ℕ) (req : Request) (env : Env Response GoError) (dur now : ℕ)
      (xs zs : List Step)
      → Schedule status_text xs
      → Shuffle (net_trip status_text host be a req env dur now) xs zs
      → Schedule status_text zs
  fast_joins :
      (be : Ref) (a : ℕ) (req : FastRequest) (dur now : ℕ) (answer : Answer) (xs zs : List Step)
      → Schedule status_text xs
      → Shuffle (fast_trip be a req dur now answer) xs zs
      → Schedule status_text zs

is_begin : Ref → Step → Bool
is_begin r (begins s) = r == s
is_begin r (relays s) = r == s
is_begin r (ends s) = false
is_begin r (records f) = false
is_begin r (settles ctx now x) = false
is_begin r (fails ctx req now e) = false
is_begin r (resolves be a req dur now answer) = false

is_end : Ref → Step → Bool
is_end r (begins s) = false
is_end r (relays s) = false
is_end r (ends s) = r == s
is_end r (records f) = false
is_end r (settles ctx now x) = false
is_end r (fails ctx req now e) = false
is_end r (resolves be a req dur now answer) = false

count-Shuffle :
    (p : Step → Bool) (xs ys zs : List Step)
    → Shuffle xs ys zs
    → count p zs ≡ count p xs + count p ys
count-Shuffle p _ _ _ both_done = refl
count-Shuffle p _ _ _ (from_left x xs ys zs s) = ground (arith, count-Shuffle p xs ys zs s)
count-Shuffle p _ _ _ (from_right y xs ys zs s) = ground (arith, count-Shuffle p xs ys zs s)

handled-count :
    (r be : Ref) (a : ℕ) (req : Request) (now : ℕ) (resp : Option Response) (err : Option GoError)
    → (count (is_begin r) (handled be a req now resp err) ≡ 0)
      × (count (is_end r) (handled be a req now resp err) ≡ 0)
unfolding is_begin is_end
handled-count r be a req now none (some e) = (refl, refl)
handled-count r be a req now (some x) (some e) = (refl, refl)
handled-count r be a req now (some x) none = (refl, refl)
handled-count r be a req now none none = (refl, refl)

net_trip-count :
    (status_text : ℕ → String) (host : String) (r be : Ref) (a : ℕ) (req : Request)
    (env : Env Response GoError) (dur now : ℕ)
    → count (is_begin r) (net_trip status_text host be a req env dur now)
      ≡ count (is_end r) (net_trip status_text host be a req env dur now)
unfolding is_begin is_end net_trip
net_trip-count status_text host r be a req env dur now =
    let o = forward req env in
    let (none_begin, none_end) = handled-count r be a req now o.result o.error in
    rw (none_begin, none_end) (ground arith)

fast_trip-count :
    (r be : Ref) (a : ℕ) (req : FastRequest) (dur now : ℕ) (answer : Answer)
    → count (is_begin r) (fast_trip be a req dur now answer)
      ≡ count (is_end r) (fast_trip be a req dur now answer)
unfolding is_begin is_end fast_trip
fast_trip-count r be a req dur now answer = ground arith

-- As many begin as end.
Schedule-count :
    (status_text : ℕ → String) (r : Ref) (zs : List Step)
    → Schedule status_text zs
    → count (is_begin r) zs ≡ count (is_end r) zs
Schedule-count status_text r _ idle = refl
Schedule-count status_text r _ (net_joins host be a req env dur now xs zs sched s) = omega (
  arith,
  count-Shuffle (is_begin r) _ xs zs s,
  count-Shuffle (is_end r) _ xs zs s,
  net_trip-count status_text host r be a req env dur now,
  Schedule-count status_text r xs sched,
)
Schedule-count status_text r _ (fast_joins be a req dur now answer xs zs sched s) = omega (
  arith,
  count-Shuffle (is_begin r) _ xs zs s,
  count-Shuffle (is_end r) _ xs zs s,
  fast_trip-count r be a req dur now answer,
  Schedule-count status_text r xs sched,
)

module _ {S : Type 0} (status_text : ℕ → String) where
  conns : World S → Ref → ℕ
  conns w r = (w.heap r).connections

  begin-conns :
      (be r : Ref) (w : World S)
      → conns (begin_trip be w) r ≡ (if r == be then add64 (conns w r) 1 else conns w r)
  unfolding begin_trip increment_conn conns
  begin-conns be r w = ground arith

  relay-conns :
      (be r : Ref) (w : World S)
      → conns (begin_relay be w) r ≡ (if r == be then add64 (conns w r) 1 else conns w r)
  unfolding begin_relay increment_conn conns
  relay-conns be r w = ground arith

  end-conns :
      (be r : Ref) (w : World S)
      → conns (end_trip be w) r ≡ (if r == be then sub64 (conns w r) 1 else conns w r)
  unfolding end_trip decrement_conn conns
  end-conns be r w = ground arith

  modify_response-conns :
      (ctx : Context) (now : ℕ) (x : Response) (r : Ref) (w : World S)
      → conns (modify_response ctx now x w) r ≡ conns w r
  unfolding modify_response record_failure record_success report conns
  modify_response-conns ctx now x r w = ground arith

  error_handler-conns :
      (ctx : Context) (req : Request) (now : ℕ) (e : GoError) (r : Ref) (w : World S)
      → conns (error_handler status_text ctx req now e w).0 r ≡ conns w r
  unfolding error_handler record_failure report conns
  error_handler-conns ctx req now e r w = ground arith

  outcome-conns :
      (be : Ref) (a : ℕ) (req : FastRequest) (dur now : ℕ) (answer : Answer) (r : Ref) (w : World S)
      → conns (outcome status_text be a req dur now answer w).0 r ≡ conns w r
  unfolding outcome refusal report record_failure record_success conns
  outcome-conns be a req dur now (refused e) r w = ground arith
  outcome-conns be a req dur now (answered status size) r w = ground arith

  step-conns :
      (x : Step) (r : Ref) (w : World S)
      → conns w r < u64_mod
      → (conns (take_step status_text x w) r < u64_mod)
        × ((conns (take_step status_text x w) r + (if is_end r x then 1 else 0)) % u64_mod
            ≡ (conns w r + (if is_begin r x then 1 else 0)) % u64_mod)
  unfolding take_step is_begin is_end conns
  step-conns (begins be) r w fits = ground (arith, begin-conns be r w, fits)
  step-conns (relays be) r w fits = ground (arith, relay-conns be r w, fits)
  step-conns (ends be) r w fits = ground (arith, end-conns be r w, fits)
  step-conns (records f) r w fits = (fits, refl)
  step-conns (settles ctx now x) r w fits =
      ground (arith, modify_response-conns ctx now x r w, fits)
  step-conns (fails ctx req now e) r w fits =
      ground (arith, error_handler-conns ctx req now e r w, fits)
  step-conns (resolves be a req dur now answer) r w fits =
      ground (arith, outcome-conns be a req dur now answer r w, fits)

  steps-conns :
      (xs : List Step) (r : Ref) (w : World S)
      → conns w r < u64_mod
      → (conns (take_steps status_text xs w) r < u64_mod)
        × ((conns (take_steps status_text xs w) r + count (is_end r) xs) % u64_mod
            ≡ (conns w r + count (is_begin r) xs) % u64_mod)
  unfolding take_steps
  steps-conns [] r w fits = (fits, refl)
  steps-conns (x ∷ xs) r w fits =
      let (fits', one) = step-conns x r w fits in
      let (fits'', rest) = steps-conns xs r (take_step status_text x w) fits' in
      (fits'', ground (arith, one, rest))

  -- However the steps of any number of requests to the proxies interleave, failing ones included:
  -- when all have come to their end, the connection count of each backend is what it was before,
  -- if that was below 2^64.
  pub trips_balance :
      (xs : List Step) (r : Ref) (w : World S)
      → Schedule status_text xs
      → (w.heap r).connections < u64_mod
      → ((take_steps status_text xs w).heap r).connections ≡ (w.heap r).connections
  unfolding conns
  trips_balance xs r w sched fits =
      let same = Schedule-count status_text r xs sched in
      let (fits', balance) = steps-conns xs r w fits in omega (arith, fits', balance, same, fits)
