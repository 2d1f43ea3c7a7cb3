-- ===== src/Middleware/Recovery.antt =====
-- internal/middleware/recovery.go. What ctx.Error of fasthttp makes of a response is a parameter.
use load_balancer.Base.{append_assoc, ℕ, ◌≡◌, refl, ap, ◌∙◌, List, [], ◌∷◌, ◌++◌, bytes}
use load_balancer.Middleware.Exchange.{
  Sent, Out, connection, emit, header, Line, panic_line, Outcome, returned, panicked, Exchange,
  Handler, Middleware, client_status, log_line, http_error,
}
use load_balancer.Middleware.Chain.{chain, nest, chain-nest}

module _ {V : Type 0} where
  -- The deferred function: `recover()` is nil after a return.
  abbrev pub after_defer : Out → Exchange V × Outcome → Exchange V × Outcome
  after_defer w (x, returned) = (x, returned)
  after_defer w (x, panicked) =
      (http_error w (bytes "Internal server error") 500 (log_line panic_line x), returned)

module _ {R : Type 0} {V : Type 0} where
  unfoldable pub recovery : Middleware R V
  unfolding http_error
  recovery h w r x = after_defer w (h w r x)

-- The same for fasthttp, on its context: `error` is ctx.Error.
module _ {C : Type 0} (error : List ℕ → ℕ → C → C) where
  abbrev pub after_fast_defer : (C × List Line) × Outcome → (C × List Line) × Outcome
  after_fast_defer (c, returned) = (c, returned)
  after_fast_defer ((c, log), panicked) =
      ((error (bytes "Internal Server Error") 500 c, log ++ panic_line ∷ []), returned)

  unfoldable pub fast_recovery :
      (C × List Line → (C × List Line) × Outcome) → C × List Line → (C × List Line) × Outcome
  fast_recovery next c = after_fast_defer (next c)

abbrev first_or_500 : List Sent → ℕ
first_or_500 [] = 500
first_or_500 (s ∷ ss) = client_status (s ∷ ss)

sent_or_500 : (ss more : List Sent) → client_status (ss ++ header 500 ∷ more) ≡ first_or_500 ss
unfolding client_status
sent_or_500 [] more = refl
sent_or_500 (s ∷ ss) more = refl

module _ {V : Type 0} where
  -- What the client gets when a handler has come to an end inside Recovery: 500 after a panic, if
  -- nothing was sent before it.
  abbrev pub answer : Exchange V × Outcome → ℕ
  answer (x, returned) = client_status x.sent
  answer (x, panicked) = first_or_500 x.sent

  abbrev pub IsAnswer : Exchange V × Outcome → Exchange V × Outcome → Type 0
  IsAnswer inner all =
      (all.1 ≡ returned) × (client_status all.0.sent ≡ answer inner) × (all.0.state ≡ inner.0.state)

  pub after_defer-IsAnswer : (e : Exchange V × Outcome) → IsAnswer e (after_defer connection e)
  unfolding http_error client_status emit
  after_defer-IsAnswer (x, returned) = (refl, refl, refl)
  after_defer-IsAnswer (x, panicked) =
      (refl, ap client_status (append_assoc x.sent _ _) ∙ sent_or_500 x.sent _, refl)

module _ {R : Type 0} {V : Type 0} where
  -- A chain that begins with Recovery returns, whatever the other middlewares and the handler are
  -- and whether they panic: the state is what they leave, and the client's status is 500 after a
  -- panic before anything was sent, and else that of what they sent first.
  pub chain_recovers :
      (h : Handler R V) (mws : List (Middleware R V)) (r : R) (x : Exchange V)
      → let inner = nest mws h connection r x in
        let all = chain h (recovery ∷ mws) connection r x in
        (all.1 ≡ returned)
        × (client_status all.0.sent ≡ answer inner)
        × (all.0.state ≡ inner.0.state)
  unfolding recovery
  chain_recovers h mws r x =
      rw (chain-nest h (recovery ∷ mws)) (after_defer-IsAnswer (nest mws h connection r x))
