-- ===== src/Middleware/Logging/Recorder.antt =====
-- What the recording writer of internal/middleware/logging.go holds after any calls.
use load_balancer.Base.{
  All-append, length-take, ℕ, ◌+◌, ◌%◌, ◌≤◌, ◌≡◌, refl, sym, ap, Bool, true, List, [], ◌∷◌, ◌++◌,
  arith, if◌then◌else◌, length, All, u64_mod, take,
}
use mathlib.Core.Path.{subst}
use load_balancer.Middleware.Exchange.{Sent, header, body, client_status}
use load_balancer.Middleware.Logging.{
  ResponseWriter, new_recorder, write_header, record_body, write,
}

pub data Call : Type 0 where
  writes_header : ℕ → Call
  writes : List ℕ → ℕ → Call

unfoldable pub call : Call → ResponseWriter → ResponseWriter
unfolding write_header write
call (writes_header code) w = write_header code w
call (writes b n) w = write b n w

unfoldable pub calls : List Call → ResponseWriter → ResponseWriter
unfolding call
calls [] w = w
calls (c ∷ cs) w = calls cs (call c w)

-- The bytes that the writer inside has got.
unfoldable pub body_bytes : List Sent → ℕ
body_bytes [] = 0
body_bytes (header code ∷ ss) = body_bytes ss
body_bytes (body b ∷ ss) = length b + body_bytes ss

-- No WriteHeader among the calls.
abbrev IsBody : Sent → Type 0
IsBody (header code) = ⊥
IsBody (body b) = Unit

-- One WriteHeader, and it comes first.
abbrev pub IsOrderly : List Sent → Type 0
IsOrderly [] = Unit
IsOrderly (header code ∷ ss) = All IsBody ss
IsOrderly (body b ∷ ss) = ⊥

abbrev pub IsProper : Call → Type 0
IsProper (writes_header code) = Unit
IsProper (writes b n) = n ≤ length b

-- A writer that has sent its header: that, and then only bodies, of which it has counted the bytes.
abbrev IsStarted : ℕ → ResponseWriter → Type 0
IsStarted code w =
    (w.wrote_header ≡ true)
    × (w.status_code ≡ code)
    × ((ss : List Sent) × (w.forwarded ≡ header code ∷ ss)
        × All IsBody ss
        × (w.bytes_written ≡ body_bytes ss % u64_mod))

body_bytes-append : (xs ys : List Sent) → body_bytes (xs ++ ys) ≡ body_bytes xs + body_bytes ys
unfolding body_bytes
body_bytes-append [] ys = omega arith
body_bytes-append (header code ∷ xs) ys = body_bytes-append xs ys
body_bytes-append (body b ∷ xs) ys = let rest = body_bytes-append xs ys in omega arith

body_bytes-record_body :
    (b : List ℕ) (n : ℕ) (ss : List Sent)
    → n ≤ length b
    → body_bytes (ss ++ body (take n b) ∷ []) ≡ body_bytes ss + n
unfolding body_bytes
body_bytes-record_body b n ss proper =
    let sum = body_bytes-append ss (body (take n b) ∷ []) in
    let taken = length-take n b proper in omega arith

record_body-IsStarted :
    (b : List ℕ) (n code : ℕ) (w : ResponseWriter)
    → n ≤ length b
    → IsStarted code w
    → IsStarted code (record_body b n w)
record_body-IsStarted b n code w proper (wrote, same, (ss, sent, bodies, counted)) =
    let sum = body_bytes-record_body b n ss proper in
    (
      wrote,
      same,
      (
        ss ++ body (take n b) ∷ [],
        ap (λ (x : List Sent). x ++ body (take n b) ∷ []) sent,
        All-append IsBody ss (body (take n b) ∷ []) bodies (tt, tt),
        omega arith,
      ),
    )

if_true : {A : Type 0} → (b : Bool) (x y : A) → b ≡ true → (if b then x else y) ≡ x
if_true b x y e = rw e refl

call-IsStarted :
    (c : Call) (code : ℕ) (w : ResponseWriter)
    → IsProper c
    → IsStarted code w
    → IsStarted code (call c w)
unfolding call write write_header
call-IsStarted (writes_header new) code w proper started =
    subst (IsStarted code) (sym (if_true w.wrote_header w _ started.0)) started
call-IsStarted (writes b n) code w proper started =
    subst (λ (x : ResponseWriter). IsStarted code (record_body b n x))
      (sym (if_true w.wrote_header w _ started.0)) (record_body-IsStarted b n code w proper started)

calls-IsStarted :
    (cs : List Call) (code : ℕ) (w : ResponseWriter)
    → All IsProper cs
    → IsStarted code w
    → IsStarted code (calls cs w)
unfolding calls
calls-IsStarted [] code w proper started = started
calls-IsStarted (c ∷ cs) code w (p, proper) started =
    calls-IsStarted cs code (call c w) proper (call-IsStarted c code w p started)

-- The status that the first call settles.
abbrev pub first_status : Call → ℕ
first_status (writes_header code) = code
first_status (writes b n) = 200

first_call-IsStarted : (c : Call) → IsProper c → IsStarted (first_status c) (call c new_recorder)
unfolding call write write_header new_recorder body_bytes
first_call-IsStarted (writes_header code) proper = (refl, refl, ([], refl, tt, refl))
first_call-IsStarted (writes b n) proper =
    record_body-IsStarted b n 200 (write_header 200 new_recorder) proper
      (refl, refl, ([], refl, tt, refl))

-- After any calls of WriteHeader and Write from the first on, where each Write takes no more than
-- it is given, the writer inside has got one WriteHeader, before all bodies, with the status
-- that the first call settles; the recorded status is that one, and the recorded count is the
-- number of the bytes sent modulo 2^64.
pub recorder_tells :
    (c : Call) (cs : List Call)
    → IsProper c
    → All IsProper cs
    → let w = calls (c ∷ cs) new_recorder in
      (w.status_code ≡ first_status c)
      × (w.status_code ≡ client_status w.forwarded)
      × (w.bytes_written ≡ body_bytes w.forwarded % u64_mod)
      × IsOrderly w.forwarded
unfolding calls body_bytes client_status
recorder_tells c cs p proper =
    let (wrote, same, (ss, sent, bodies, counted)) =
      calls-IsStarted cs (first_status c) (call c new_recorder) proper (first_call-IsStarted c p) in
    rw (sent, same) (refl, refl, counted, bodies)
