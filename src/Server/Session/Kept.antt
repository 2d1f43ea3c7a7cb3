-- ===== src/Server/Session/Kept.antt =====
-- What one event leaves as it is: the notions, and how they chain.
use load_balancer.Base.{◌<◌, ◌≡◌, ap, ◌∙◌, u64_mod}
use load_balancer.Balancer.Backend.{Ref}
use load_balancer.Server.{World}

module _ {S : Type 0} where
  -- The pool and the backends are the same but for their counters and their health.
  pub record IsKept (w w' : World S) : Type 0 where
    pub pool : w'.pool ≡ w.pool
    pub url : (r : Ref) → (w'.heap r).url ≡ (w.heap r).url
    pub weight : (r : Ref) → (w'.heap r).weight ≡ (w.heap r).weight
    pub connections : (r : Ref) → (w'.heap r).connections ≡ (w.heap r).connections

  -- And so is their health.
  pub record IsUntouched (w w' : World S) : Type 0 where
    pub kept : IsKept w w'
    pub alive : (r : Ref) → (w'.heap r).alive ≡ (w.heap r).alive

  pub IsKept-trans : (a b c : World S) → IsKept a b → IsKept b c → IsKept a c
  IsKept-trans a b c h k = record {
    pool = k.pool ∙ h.pool;
    url = λ r. k.url r ∙ h.url r;
    weight = λ r. k.weight r ∙ h.weight r;
    connections = λ r. k.connections r ∙ h.connections r;
  }

  pub IsUntouched-trans : (a b c : World S) → IsUntouched a b → IsUntouched b c → IsUntouched a c
  IsUntouched-trans a b c h k = record {
    kept = IsKept-trans a b c h.kept k.kept;
    alive = λ r. k.alive r ∙ h.alive r;
  }

  -- The same backends and the same pool.
  pub same-IsUntouched : (a b : World S) → b.heap ≡ a.heap → b.pool ≡ a.pool → IsUntouched a b
  same-IsUntouched a b heap pool = record {
    kept = record {
      pool = pool;
      url = λ r. ap (λ h. (h r).url) heap;
      weight = λ r. ap (λ h. (h r).weight) heap;
      connections = λ r. ap (λ h. (h r).connections) heap;
    };
    alive = λ r. ap (λ h. (h r).alive) heap;
  }

  abbrev pub IsSame : World S → World S → Type 0
  IsSame w w' = (w'.heap ≡ w.heap) × (w'.pool ≡ w.pool)

  -- No backend has more connections than its counter can hold.
  abbrev pub Fits : World S → Type 0
  Fits w = (r : Ref) → (w.heap r).connections < u64_mod

  pub still-Fits : (w w' : World S) → IsKept w w' → Fits w → Fits w'
  still-Fits w w' h fits r = rw (h.connections r) (fits r)
