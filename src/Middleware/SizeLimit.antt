-- ===== src/Middleware/SizeLimit.antt =====
-- internal/middleware/sizelimit.go: the writer that limits a response. Sizes are int64 bit patterns.
-- What the writer below accepts of a call is given; `passed` counts the bytes that it got, and
-- `headers` the status codes, the newest last.
use load_balancer.Base.{
  ℕ, ◌+◌, ◌≤◌, ◌<◌, ◌≡◌, refl, Bool, true, false, not, ◌&&◌, List, [], ◌∷◌, ◌++◌, arith, ◌==◌,
  if◌then◌else◌, All, i64_half, add64, is_nonpos, slt,
}

pub record Writer : Type 0 where
  pub max_size : ℕ
  pub written : ℕ
  pub status : ℕ
  pub hijacked : Bool
  pub passed : ℕ
  pub headers : List ℕ

-- The writer that SizeLimitMiddleware makes.
unfoldable pub new_writer : ℕ → Writer
new_writer max_size = record {
  max_size = max_size;
  written = 0;
  status = 0;
  hijacked = false;
  passed = 0;
  headers = [];
}

pub data Written : Type 0 where
  wrote : ℕ → Written
  connection_hijacked response_too_large : Written

unfoldable pub write_header : ℕ → Writer → Writer
write_header code lw = record lw {
  status = if lw.status == 0 then code else lw.status;
  headers = lw.headers ++ code ∷ [];
}

-- Write of `len` bytes, of which the writer below takes `n`.
unfoldable pub write : ℕ → ℕ → Writer → Writer × Written
unfolding write_header
write len n lw =
    if lw.hijacked
    then (lw, connection_hijacked)
    else if not (is_nonpos lw.max_size) && slt lw.max_size (add64 lw.written len)
    then (write_header 413 lw, response_too_large)
    else (record lw { written = add64 lw.written n; passed = lw.passed + n }, wrote n)

-- Hijack, where the writer below can: `ok` says whether it returned no error.
unfoldable pub hijack : Bool → Writer → Writer
hijack ok lw = record lw { hijacked = if ok then true else lw.hijacked }

-- ReadFrom, where the writer below reads `n` bytes itself.
unfoldable pub read_from : ℕ → Writer → Writer
read_from n lw = record lw { written = add64 lw.written n; passed = lw.passed + n }

pub data Call : Type 0 where
  writes : ℕ → ℕ → Call
  writes_header : ℕ → Call
  hijacks : Bool → Call

unfoldable pub call : Call → Writer → Writer
unfolding write write_header hijack
call (writes len n) lw = (write len n lw).0
call (writes_header code) lw = write_header code lw
call (hijacks ok) lw = hijack ok lw

unfoldable pub calls : List Call → Writer → Writer
calls [] lw = lw
calls (c ∷ cs) lw = calls cs (call c lw)

-- A write as the Go interface has it: the writer below takes no more than it was given. The sizes
-- are such that the limit and one write stay below 2^63.
abbrev pub IsProper : ℕ → Call → Type 0
IsProper max_size (writes len n) = (n ≤ len) × (max_size + len < i64_half)
IsProper max_size (writes_header code) = Unit
IsProper max_size (hijacks ok) = Unit

abbrev IsBounded : ℕ → Writer → Type 0
IsBounded max_size lw = (lw.max_size ≡ max_size) × (lw.written ≡ lw.passed) × (lw.passed ≤ max_size)

call-IsBounded :
    (max_size : ℕ) (c : Call) (lw : Writer)
    → 0 < max_size
    → IsProper max_size c
    → IsBounded max_size lw
    → IsBounded max_size (call c lw)
unfolding call write write_header hijack
call-IsBounded max_size (writes len n) lw pos proper bounded = ground (arith, pos, proper, bounded)
call-IsBounded max_size (writes_header code) lw pos proper bounded = bounded
call-IsBounded max_size (hijacks ok) lw pos proper bounded = bounded

calls-IsBounded :
    (max_size : ℕ) (cs : List Call) (lw : Writer)
    → 0 < max_size
    → All (IsProper max_size) cs
    → IsBounded max_size lw
    → IsBounded max_size (calls cs lw)
unfolding calls
calls-IsBounded max_size [] lw pos proper bounded = bounded
calls-IsBounded max_size (c ∷ cs) lw pos proper bounded =
    calls-IsBounded max_size cs (call c lw) pos proper.1
      (call-IsBounded max_size c lw pos proper.0 bounded)

-- With a positive limit, any calls of Write, WriteHeader and Hijack pass on no more bytes than the
-- limit, where each write takes no more than it is given and no sum reaches 2^63.
pub response_bounded :
    (max_size : ℕ) (cs : List Call)
    → 0 < max_size
    → All (IsProper max_size) cs
    → (calls cs (new_writer max_size)).passed ≤ max_size
unfolding new_writer
response_bounded max_size cs pos proper =
    (calls-IsBounded max_size cs (new_writer max_size) pos proper (refl, refl, omega arith)).2
