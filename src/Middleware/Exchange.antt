-- ===== src/Middleware/Exchange.antt =====
-- What a handler of net/http does, as the files of internal/middleware see it: calls on the response
-- writer that it is given, lines in the log, a change of the program's state, and a panic or none.
-- The connection takes every byte it is given.
use load_balancer.Base.{
  append_nil, ℕ, ◌≡◌, refl, ap, ◌∙◌, List, [], ◌∷◌, ◌++◌, if◌then◌else◌, length, is_nonpos,
}
use load_balancer.Middleware.SizeLimit.{
  Writer, new_writer, write, write_header, Written, wrote, connection_hijacked, response_too_large,
}

-- A call that has reached the connection: WriteHeader, or Write.
pub data Sent : Type 0 where
  header : ℕ → Sent
  body : List ℕ → Sent

-- A line of the log: the fields status and bytes of "request" (the others are the request's), or
-- "panic recovered".
pub data Line : Type 0 where
  request_line : ℕ → ℕ → Line
  panic_line : Line

pub data Outcome : Type 0 where
  returned panicked : Outcome

pub record Exchange (V : Type 0) : Type 0 where
  pub sent : List Sent
  pub limiter : Writer
  pub log : List Line
  pub state : V

-- The response writer that a handler is given: the connection's, or the one that limits it, which
-- is `limiter`.
pub data Out : Type 0 where
  connection limited : Out

-- A handler of a request R over the program's state V.
abbrev pub Handler : Type 0 → Type 0 → Type 0
Handler R V = Out → R → Exchange V → Exchange V × Outcome

abbrev pub Middleware : Type 0 → Type 0 → Type 0
Middleware R V = Handler R V → Handler R V

abbrev status_after : Sent → ℕ
status_after (header code) = code
status_after (body b) = 200

-- The status the client gets: that of the first WriteHeader, and 200 if the first call is a Write
-- or there is none.
unfoldable pub client_status : List Sent → ℕ
client_status [] = 200
client_status (s ∷ ss) = status_after s

module _ {V : Type 0} where
  abbrev pub send : Sent → Exchange V → Exchange V
  send s x = record x { sent = x.sent ++ s ∷ [] }

  abbrev pub log_line : Line → Exchange V → Exchange V
  log_line line x = record x { log = x.log ++ line ∷ [] }

  -- Write on the limiting writer: a refused one calls WriteHeader(413) on the connection.
  abbrev pub pass : List ℕ → Writer × Written → Exchange V → Exchange V
  pass b (lw, wrote n) x = send (body b) (record x { limiter = lw })
  pass b (lw, connection_hijacked) x = record x { limiter = lw }
  pass b (lw, response_too_large) x = send (header 413) (record x { limiter = lw })

  -- A call on a response writer.
  unfoldable pub emit : Out → Sent → Exchange V → Exchange V
  unfolding write write_header
  emit connection s x = send s x
  emit limited (header code) x =
      send (header code) (record x { limiter = write_header code x.limiter })
  emit limited (body b) x = pass b (write (length b) (length b) x.limiter) x

  -- http.Error.
  unfoldable pub http_error : Out → List ℕ → ℕ → Exchange V → Exchange V
  unfolding emit
  http_error w message code x = emit w (body (message ++ 10 ∷ [])) (emit w (header code) x)

  pass-keeps :
      (b : List ℕ) (r : Writer × Written) (x : Exchange V)
      → ((pass b r x).log ≡ x.log) × ((pass b r x).state ≡ x.state)
  pass-keeps b (lw, wrote n) x = (refl, refl)
  pass-keeps b (lw, connection_hijacked) x = (refl, refl)
  pass-keeps b (lw, response_too_large) x = (refl, refl)

  pub emit-keeps :
      (w : Out) (s : Sent) (x : Exchange V)
      → ((emit w s x).log ≡ x.log) × ((emit w s x).state ≡ x.state)
  unfolding emit
  emit-keeps connection s x = (refl, refl)
  emit-keeps limited (header code) x = (refl, refl)
  emit-keeps limited (body b) x = pass-keeps b (write (length b) (length b) x.limiter) x

  -- WriteHeader settles what the client gets if nothing was sent before.
  pub emit-status :
      (w : Out) (code : ℕ) (x : Exchange V)
      → x.sent ≡ []
      → client_status (emit w (header code) x).sent ≡ code
  unfolding emit client_status
  emit-status connection code x fresh = rw fresh refl
  emit-status limited code x fresh = rw fresh refl

  -- A refused body is followed by another header, and nothing is taken back.
  pass-grows :
      (b : List ℕ) (r : Writer × Written) (x : Exchange V)
      → (more : List Sent) × ((pass b r x).sent ≡ x.sent ++ more)
  pass-grows b (lw, wrote n) x = (body b ∷ [], refl)
  pass-grows b (lw, connection_hijacked) x = ([], append_nil x.sent)
  pass-grows b (lw, response_too_large) x = (header 413 ∷ [], refl)

  -- An error's answer touches neither the log nor the program's state.
  pub http_error-keeps :
      (w : Out) (message : List ℕ) (code : ℕ) (x : Exchange V)
      → ((http_error w message code x).log ≡ x.log)
        × ((http_error w message code x).state ≡ x.state)
  unfolding http_error
  http_error-keeps w message code x =
      let first = emit-keeps w (header code) x in
      let second = emit-keeps w (body (message ++ 10 ∷ [])) (emit w (header code) x) in
      (second.0 ∙ first.0, second.1 ∙ first.1)

  -- Its status is what the client gets if nothing was sent before.
  pub http_error-status :
      (w : Out) (message : List ℕ) (code : ℕ) (x : Exchange V)
      → x.sent ≡ []
      → client_status (http_error w message code x).sent ≡ code
  unfolding http_error client_status emit
  http_error-status connection message code x fresh = rw fresh refl
  http_error-status limited message code x fresh =
      let lw = write_header code x.limiter in
      let b = message ++ 10 ∷ [] in
      ap client_status (pass-grows b (write (length b) (length b) lw) _).1 ∙ rw fresh refl

module _ {R : Type 0} {V : Type 0} where
  -- SizeLimitMiddleware, for its MaxResponseSize: the request's body is not modelled.
  unfoldable pub size_limit : ℕ → Middleware R V
  unfolding new_writer
  size_limit max_size h w r x =
      if is_nonpos max_size
      then h w r x
      else h limited r (record x { limiter = new_writer max_size })
