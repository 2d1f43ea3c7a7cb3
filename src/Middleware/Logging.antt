-- ===== src/Middleware/Logging.antt =====
-- internal/middleware/logging.go: the writer that records what passes it, and the two middlewares.
-- What the writer below takes of a Write is given. bytesWritten is an int bit pattern.
use load_balancer.Base.{ℕ, ◌+◌, Bool, true, false, List, [], ◌∷◌, ◌++◌, if◌then◌else◌, add64, take}
pub mod Recorder
pub mod Lines
use load_balancer.Middleware.Exchange.{
  Sent, header, body, Line, request_line, panic_line, Outcome, returned, panicked, Exchange,
  Handler, Middleware, client_status, send, log_line, http_error,
}

pub record ResponseWriter : Type 0 where
  pub status_code : ℕ
  pub bytes_written : ℕ
  pub wrote_header : Bool
  -- The calls made on the ResponseWriter inside.
  pub forwarded : List Sent

-- The writer that Logging makes.
unfoldable pub new_recorder : ResponseWriter
new_recorder = record { status_code = 200; bytes_written = 0; wrote_header = false; forwarded = [] }

unfoldable pub write_header : ℕ → ResponseWriter → ResponseWriter
write_header code w = if w.wrote_header then w else record w {
  status_code = code;
  wrote_header = true;
  forwarded = w.forwarded ++ header code ∷ [];
}

abbrev pub record_body : List ℕ → ℕ → ResponseWriter → ResponseWriter
record_body b n w = record w {
  bytes_written = add64 w.bytes_written n;
  forwarded = w.forwarded ++ body (take n b) ∷ [];
}

-- Write of `b`, of which the writer inside takes `n` bytes.
unfoldable pub write : List ℕ → ℕ → ResponseWriter → ResponseWriter
unfolding write_header
write b n w = let ready = if w.wrote_header then w else write_header 200 w in record_body b n ready

module _ {V : Type 0} where
  -- After the call of the handler: a panic leaves before the line is written.
  abbrev pub after_call : ResponseWriter → Exchange V × Outcome → Exchange V × Outcome
  after_call wrapped (x, returned) =
      (log_line (request_line wrapped.status_code wrapped.bytes_written) x, returned)
  after_call wrapped (x, panicked) = (x, panicked)

module _ {R : Type 0} {V : Type 0} where
  -- `wrapped` is made, and the handler gets `w`.
  unfoldable pub logging : Middleware R V
  unfolding new_recorder
  logging h w r x = after_call new_recorder (h w r x)

-- FastLogging on the context of fasthttp, whose response has a status and a body's length.
module _ {C : Type 0} (status_code body_length : C → ℕ) where
  abbrev pub after_next : (C × List Line) × Outcome → (C × List Line) × Outcome
  after_next ((c, log), returned) =
      ((c, log ++ request_line (status_code c) (body_length c) ∷ []), returned)
  after_next (c, panicked) = (c, panicked)

  unfoldable pub fast_logging :
      (C × List Line → (C × List Line) × Outcome) → C × List Line → (C × List Line) × Outcome
  fast_logging next c = after_next (next c)
