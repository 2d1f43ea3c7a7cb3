-- ===== src/Middleware/Logging/Lines.antt =====
-- What stands in the log after a request, with Recovery outside Logging as cmd/proxy/net.go and
-- cmd/proxy/fasthttp.go chain them.
use load_balancer.Base.{ℕ, ◌≡◌, refl, List, [], ◌∷◌, ◌++◌, bytes}
use load_balancer.Middleware.Exchange.{
  Out, Line, request_line, panic_line, Outcome, returned, panicked, Exchange, Handler, log_line,
  http_error, http_error-keeps,
}
use load_balancer.Middleware.Chain.{chain, chain_from}
use load_balancer.Middleware.Logging.{logging, fast_logging, after_call, after_next, new_recorder}
use load_balancer.Middleware.Recovery.{recovery, fast_recovery, after_defer, after_fast_defer}

-- The line after a handler's end, with the status and the length that Logging reads.
abbrev pub line : Outcome → ℕ → ℕ → Line
line returned status size = request_line status size
line panicked status size = panic_line

lines-net :
    {V : Type 0}
    → (w : Out) (e : Exchange V × Outcome)
    → (after_defer w (after_call new_recorder e)).0.log ≡ e.0.log ++ line e.1 200 0 ∷ []
unfolding new_recorder http_error
lines-net w (x, returned) = refl
lines-net w (x, panicked) =
    (http_error-keeps w (bytes "Internal server error") 500 (log_line panic_line x)).0

module _ {C : Type 0} (error : List ℕ → ℕ → C → C) (status_code body_length : C → ℕ) where
  lines-fast :
      (e : (C × List Line) × Outcome)
      → (after_fast_defer error (after_next status_code body_length e)).0.1
        ≡ e.0.1 ++ line e.1 (status_code e.0.0) (body_length e.0.0) ∷ []
  lines-fast (c, returned) = refl
  lines-fast (c, panicked) = refl

  -- Either server writes one line for a request, "panic recovered" if the handler panics: that of
  -- net/http always has status 200 and 0 bytes, whatever the handler sends, and that of fasthttp
  -- has the status and the length of the handler's response.
  pub one_line :
      {R : Type 0}
      → {V : Type 0}
      → (h : Handler R V) (w : Out) (r : R) (x : Exchange V)
        (next : C × List Line → (C × List Line) × Outcome) (c : C × List Line)
      → let own = h w r x in
        let fast_own = next c in
        ((chain h (recovery ∷ logging ∷ []) w r x).0.log ≡ own.0.log ++ line own.1 200 0 ∷ [])
        × ((chain next (fast_recovery error ∷ fast_logging status_code body_length ∷ []) c).0.1
            ≡ fast_own.0.1
              ++ line fast_own.1 (status_code fast_own.0.0) (body_length fast_own.0.0) ∷ [])
  unfolding recovery logging fast_recovery fast_logging chain chain_from
  one_line h w r x next c = (lines-net w (h w r x), lines-fast (next c))
