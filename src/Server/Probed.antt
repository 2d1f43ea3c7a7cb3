-- ===== src/Server/Probed.antt =====
-- Health checks and selection together: whom the proxies of internal/server hand out after a round
-- of the checker of internal/health on the same backends.
use load_balancer.Base.{ℕ, ◌≡◌, sym, ◌∙◌, true, some, List, In}
use load_balancer.Balancer.Backend.{Ref, is_alive}
use load_balancer.Balancer.Pool.{healthy_backends_iff, all_backends}
use load_balancer.Balancer.Strategy.{Strategy, IsSound}
use load_balancer.Health.{Outcome, check_all, is_success}
use load_balancer.Health.Rounds.{check_all-alive}
use load_balancer.Server.{Request, World}
use load_balancer.Server.Selection.{select_available_backend}
use load_balancer.Server.Availability.{selected-healthy}

module _ {S : Type 0} where
  -- The world after a round of probes.
  unfoldable pub probed : (Ref → Outcome × ℕ) → List Ref → World S → World S
  probed probes rs w =
      let (heap, metrics) = check_all probes rs (w.heap, w.metrics) in
      record w { heap = heap; metrics = metrics }

  -- After a round of probes, a backend of the round to which a request is handed, whatever sound
  -- strategy selects, is one of the pool whose probe succeeded.
  pub probed-select :
      (st : Strategy S) (clock : ℕ → ℕ) (req : Request) (w : World S) (probes : Ref → Outcome × ℕ)
      (rs : List Ref) (r a : ℕ)
      → IsSound st
      → In r rs
      → (select_available_backend st clock req (probed probes rs w)).1 ≡ some (r, a)
      → (is_success (probes r).0 ≡ true) × In r (all_backends w.pool)
  unfolding probed is_alive
  probed-select st clock req w probes rs r a sound listed chosen =
      let (healthy, _) = selected-healthy st clock req (probed probes rs w) r a sound chosen in
      let (member, alive) =
        (healthy_backends_iff (probed probes rs w).heap (probed probes rs w).pool r).0 healthy in
      (sym (check_all-alive probes r rs (w.heap, w.metrics) listed) ∙ alive, member)
