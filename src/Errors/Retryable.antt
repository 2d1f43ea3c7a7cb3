-- ===== src/Errors/Retryable.antt =====
-- Which errors may be retried.
use load_balancer.Base.{◌≡◌, refl, true, false, some, String, List, [], ◌∷◌}
use load_balancer.Errors.{
  GoError, wrapped, is_retryable, new_backend_error, new_network_error, new_configuration_error,
  new_security_error, new_rate_limit_error, new_validation_error,
}

-- Wrappings by other packages, the outermost first.
abbrev pub wrap_all : List String → GoError → GoError
wrap_all [] e = e
wrap_all (s ∷ ss) e = wrapped s (wrap_all ss e)

is_retryable-wrap_all :
    (ss : List String) (e : GoError) → is_retryable (some (wrap_all ss e)) ≡ is_retryable (some e)
unfolding is_retryable
is_retryable-wrap_all [] e = refl
is_retryable-wrap_all (s ∷ ss) e = is_retryable-wrap_all ss e

-- However often other packages wrap it, and whatever it carries inside, a backend or a network
-- error is retried, and a configuration, security, validation or rate limit error is not.
pub is_retryable_wrapped :
    (ss : List String) (e : GoError) (s host : String)
    → let retried = λ (x : GoError). is_retryable (some (wrap_all ss x)) in
      (retried (new_backend_error e host) ≡ true)
      × (retried (new_network_error e) ≡ true)
      × (retried (new_configuration_error e) ≡ false)
      × (retried (new_security_error e s) ≡ false)
      × (retried (new_validation_error s) ≡ false)
      × (retried new_rate_limit_error ≡ false)
unfolding is_retryable new_backend_error new_network_error new_configuration_error
    new_security_error new_validation_error new_rate_limit_error
is_retryable_wrapped ss e s host = (
  is_retryable-wrap_all ss (new_backend_error e host),
  is_retryable-wrap_all ss (new_network_error e),
  is_retryable-wrap_all ss (new_configuration_error e),
  is_retryable-wrap_all ss (new_security_error e s),
  is_retryable-wrap_all ss (new_validation_error s),
  is_retryable-wrap_all ss new_rate_limit_error,
)
