-- ===== src/Server/Aggregate.antt =====
-- internal/server/proxy.go, the aggregate of active connections: RoundTrip reads it, and stores it
-- twice, before the call, and reads and stores it after the call, with nothing to keep other
-- requests out between. Each read and each store is a step.
pub mod Drift
use load_balancer.Base.{ℕ, ◌≡◌, ◌==◌, if◌then◌else◌, add64, sub64}

-- Where a request stands, with the value that it has read or stored.
pub data Phase : Type 0 where
  outside inside : Phase
  entering stored leaving : ℕ → Phase

pub record Gauge : Type 0 where
  pub value : ℕ
  pub phase : ℕ → Phase

unfoldable pub become : ℕ → Phase → ℕ → Gauge → Gauge
become t ph v g = record { value = v; phase = λ u. if u == t then ph else g.phase u }

pub data Step : Gauge → Gauge → Type 0 where
  -- `t.metrics.GetActiveConnections()`, before the call.
  reads : (g : Gauge) (t : ℕ) → g.phase t ≡ outside → Step g (become t (entering g.value) g.value g)
  -- `active := t.metrics.SetActive(_ + 1)`.
  stores :
      (g : Gauge) (t v : ℕ)
      → g.phase t ≡ entering v
      → Step g (become t (stored (add64 v 1)) (add64 v 1) g)
  -- `t.metrics.SetActive(active)`.
  stores_again : (g : Gauge) (t v : ℕ) → g.phase t ≡ stored v → Step g (become t inside v g)
  -- The read after the call, and its store.
  reads_back :
      (g : Gauge) (t : ℕ) → g.phase t ≡ inside → Step g (become t (leaving g.value) g.value g)
  stores_back :
      (g : Gauge) (t v : ℕ) → g.phase t ≡ leaving v → Step g (become t outside (sub64 v 1) g)

pub data Reach : Gauge → Gauge → Type 0 where
  stays : (g : Gauge) → Reach g g
  then_step : (g m e : Gauge) → Reach g m → Step m e → Reach g e
