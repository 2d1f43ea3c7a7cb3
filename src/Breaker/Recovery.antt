-- ===== src/Breaker/Recovery.antt =====
-- The half-open state: how it is entered, how many requests it lets through, how it is left.
use load_balancer.Base.{
  ℕ, ◌+◌, ◌-◌, ◌≤◌, ◌<◌, ◌≡◌, refl, ap, inl, inr, Bool, true, false, Option, none, some, List, [],
  ◌∷◌, arith, ltb, ltb→lt, ltb→ge, Bool-cases, length, count, u32_mod,
}
use Prim.Native.Nat.{min}
use load_balancer.Breaker.Types.{closed, half_open, open_state, zero_counts, Config, add_time}
use load_balancer.Breaker.{Breaker, Error, too_many_requests, allow, get_state, on_result}
use load_balancer.Breaker.Open.{allow_all, request}

-- A half-open breaker `k` requests into its trial, all of them successful so far.
abbrev pub IsTrial : ℕ → Breaker → Type 0
IsTrial k cb =
    (cb.state ≡ half_open) × (cb.counts.requests ≡ k) × (cb.counts.consecutive_successes ≡ k)

-- Asked for its state after the timeout, an open breaker becomes half-open and begins a trial.
pub get_state-IsTrial :
    (now e : ℕ) (cb : Breaker)
    → cb.state ≡ open_state
    → cb.expiry ≡ some e
    → e < now
    → IsTrial 0 (get_state now cb).0
      × ((get_state now cb).0.config ≡ cb.config)
      × ((get_state now cb).1 ≡ half_open)
unfolding get_state
get_state-IsTrial now e cb s x lt = ground (arith, lt)

-- Requests one after the other, each successful.
unfoldable pub successes : List ℕ → Breaker → Breaker
successes [] cb = cb
successes (now ∷ nows) cb = successes nows (request true now cb)

IsTrial-step :
    (k now : ℕ) (cb : Breaker)
    → IsTrial k cb
    → k + 1 < cb.config.max_requests
    → cb.config.max_requests < u32_mod
    → IsTrial (k + 1) (request true now cb) × ((request true now cb).config ≡ cb.config)
unfolding request
IsTrial-step k now cb t more fits = ground (arith, t.0, t.1, t.2)

trial_end :
    (k now : ℕ) (cb : Breaker)
    → IsTrial k cb
    → k + 1 ≡ cb.config.max_requests
    → cb.config.max_requests < u32_mod
    → ((request true now cb).state ≡ closed) × ((request true now cb).counts ≡ zero_counts)
unfolding request
trial_end k now cb t last fits = ground (arith, t.0, t.1, t.2)

successes_close :
    (nows : List ℕ) (k : ℕ) (cb : Breaker)
    → IsTrial k cb
    → 0 < length nows
    → k + length nows ≡ cb.config.max_requests
    → cb.config.max_requests < u32_mod
    → ((successes nows cb).state ≡ closed) × ((successes nows cb).counts ≡ zero_counts)
unfolding successes
successes_close [] k cb t pos e fits = elim pos [ ]
successes_close (now ∷ []) k cb t pos e fits = trial_end k now cb t (omega arith) fits
successes_close (now ∷ next ∷ nows) k cb t pos e fits =
    let (t', same) = IsTrial-step k now cb t (omega arith) fits in
    let same_max = ap (λ (c : Config). c.max_requests) same in
    successes_close (next ∷ nows) (k + 1) (request true now cb) t' (omega arith)
      (omega (arith, same_max)) (omega (arith, same_max))

-- An open breaker whose timeout has run out, once asked for its state, closes with zero counts
-- after exactly MaxRequests requests that succeed one after the other.
pub recovers :
    (now e : ℕ) (nows : List ℕ) (cb : Breaker)
    → cb.state ≡ open_state
    → cb.expiry ≡ some e
    → e < now
    → 0 < cb.config.max_requests
    → cb.config.max_requests < u32_mod
    → length nows ≡ cb.config.max_requests
    → let cb' = successes nows (get_state now cb).0 in
      (cb'.state ≡ closed) × (cb'.counts ≡ zero_counts)
recovers now e nows cb s x lt pos fits len =
    let (t, same, _) = get_state-IsTrial now e cb s x lt in
    let same_max = ap (λ (c : Config). c.max_requests) same in
    successes_close nows 0 (get_state now cb).0 t (omega arith) (omega (arith, same_max))
      (omega (arith, same_max))

-- A failure in a trial opens the breaker again at once, for a full timeout, whatever its counts.
pub trial_failure :
    (now : ℕ) (cb : Breaker)
    → cb.state ≡ half_open
    → ((on_result false now cb).0.state ≡ open_state)
      × ((on_result false now cb).0.expiry ≡ some (add_time now cb.config.timeout))
unfolding on_result
trial_failure now cb s = ground arith

abbrev pub is_admitted : Option Error → Bool
is_admitted none = true
is_admitted (some _) = false

admits :
    (now : ℕ) (cb : Breaker)
    → cb.state ≡ half_open
    → cb.counts.requests < cb.config.max_requests
    → cb.config.max_requests < u32_mod
    → ((allow now cb).1 ≡ none)
      × ((allow now cb).0.state ≡ half_open)
      × ((allow now cb).0.counts.requests ≡ cb.counts.requests + 1)
      × ((allow now cb).0.config ≡ cb.config)
unfolding allow
admits now cb s room fits = ground arith

refuses :
    (now : ℕ) (cb : Breaker)
    → cb.state ≡ half_open
    → cb.config.max_requests ≤ cb.counts.requests
    → allow now cb ≡ (cb, some too_many_requests)
unfolding allow
refuses now cb s full = ground arith

refuses_all :
    (nows : List ℕ) (cb : Breaker)
    → cb.state ≡ half_open
    → cb.config.max_requests ≤ cb.counts.requests
    → count is_admitted (allow_all nows cb).1 ≡ 0
unfolding allow_all
refuses_all [] cb s full = refl
refuses_all (now ∷ nows) cb s full = rw (refuses now cb s full) (refuses_all nows cb s full)

-- Of the requests that arrive at a half-open breaker before a result is reported, exactly as many
-- are admitted as MaxRequests leaves room for.
pub trial_cap :
    (nows : List ℕ) (cb : Breaker)
    → cb.state ≡ half_open
    → cb.counts.requests ≤ cb.config.max_requests
    → cb.config.max_requests < u32_mod
    → count is_admitted (allow_all nows cb).1
      ≡ min (length nows) (cb.config.max_requests - cb.counts.requests)
unfolding allow_all
trial_cap [] cb s room fits = omega arith
trial_cap (now ∷ nows) cb s room fits =
    elim (Bool-cases (ltb cb.counts.requests cb.config.max_requests)) [
      | inl lt ↦
          let (ok, same_state, one_more, same) = admits now cb s (ltb→lt _ _ lt) fits in
          let same_max = ap (λ (c : Config). c.max_requests) same in
          let rest =
            trial_cap nows (allow now cb).0 same_state (omega (arith, same_max, ltb→lt _ _ lt))
              (omega (arith, same_max)) in
          rw ok (omega (arith, rest, same_max, ltb→lt _ _ lt))
      | inr ge ↦
          let full = ltb→ge _ _ ge in
          rw (refuses now cb s full) (omega (arith, refuses_all nows cb s full, full))
    ]

-- Results reported with no Allow before them, as by requests that were admitted long ago.
unfoldable pub late_successes : List ℕ → Breaker → Breaker
late_successes [] cb = cb
late_successes (now ∷ nows) cb = late_successes nows (on_result true now cb).0

late_step :
    (k now : ℕ) (cb : Breaker)
    → cb.state ≡ half_open
    → cb.counts.consecutive_successes ≡ k
    → k + 1 < cb.config.max_requests
    → cb.config.max_requests < u32_mod
    → ((on_result true now cb).0.state ≡ half_open)
      × ((on_result true now cb).0.counts.consecutive_successes ≡ k + 1)
      × ((on_result true now cb).0.config ≡ cb.config)
unfolding on_result
late_step k now cb s e more fits = ground arith

late_end :
    (k now : ℕ) (cb : Breaker)
    → cb.state ≡ half_open
    → cb.counts.consecutive_successes ≡ k
    → k + 1 ≡ cb.config.max_requests
    → cb.config.max_requests < u32_mod
    → (on_result true now cb).0.state ≡ closed
unfolding on_result
late_end k now cb s e last fits = ground arith

-- As many reported successes as are missing to MaxRequests close a half-open breaker even if no
-- request of the trial was let through.
pub late_successes_close :
    (nows : List ℕ) (cb : Breaker)
    → cb.state ≡ half_open
    → 0 < length nows
    → cb.counts.consecutive_successes + length nows ≡ cb.config.max_requests
    → cb.config.max_requests < u32_mod
    → (late_successes nows cb).state ≡ closed
unfolding late_successes
late_successes_close [] cb s pos e fits = elim pos [ ]
late_successes_close (now ∷ []) cb s pos e fits = late_end _ now cb s refl (omega arith) fits
late_successes_close (now ∷ next ∷ nows) cb s pos e fits =
    let (s', one_more, same) = late_step _ now cb s refl (omega arith) fits in
    let same_max = ap (λ (c : Config). c.max_requests) same in
    late_successes_close (next ∷ nows) (on_result true now cb).0 s' (omega arith)
      (omega (arith, one_more, same_max)) (omega (arith, same_max))
