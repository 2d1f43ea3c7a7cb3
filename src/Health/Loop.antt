-- ===== src/Health/Loop.antt =====
-- internal/health/checker.go, Start: a first round, and one with each tick until the context is
-- done. A round starts a goroutine for each backend and waits for none, so rounds overlap and the
-- probes end in any order. time.NewTicker is a parameter: `none` is its panic. What a probe meets,
-- and which of a tick and the end of the context select takes, are open.
pub mod Overlap
use load_balancer.Base.{ℕ, suc, ◌≡◌, Bool, true, false, Option, none, some, List, [], ◌∷◌, ◌++◌}
use load_balancer.Balancer.Backend.{Heap, Ref}
use load_balancer.Balancer.Pool.{Pool, all_backends}
use load_balancer.Metrics.{Collector}
use load_balancer.Health.{Outcome, probe}

-- `flying` are the probes under way, and `landed` those that have ended, the newest first.
pub record Run : Type 0 where
  pub world : Heap × Collector
  pub flying : List Ref
  pub landed : List (Ref × Outcome)
  pub rounds : ℕ
  pub running : Bool

-- checkAll.
unfoldable pub launch : Pool → Run → Run
launch p s = record s { flying = all_backends p ++ s.flying; rounds = suc s.rounds }

abbrev pub nothing_yet : Heap × Collector → Run
nothing_yet w = record { world = w; flying = []; landed = []; rounds = 0; running = true }

-- The statements of Start before its loop.
unfoldable pub begin :
    {Ticker : Type 0} → (ℕ → Option Ticker) → ℕ → Pool → Heap × Collector → Option Run
unfolding launch
begin new_ticker interval p w = elim (new_ticker interval) [
  | none ↦ none
  | some t ↦ some (launch p (nothing_yet w))
]

-- The end of a probe.
unfoldable pub land : Ref → Outcome → ℕ → List Ref → Run → Run
unfolding probe
land r o dur rest s = record s {
  world = probe o dur r s.world;
  flying = rest;
  landed = (r, o) ∷ s.landed;
}

pub data Step (p : Pool) : Run → Run → Type 0 where
  ticks : (s : Run) → s.running ≡ true → Step p s (launch p s)
  stops : (s : Run) → s.running ≡ true → Step p s (record s { running = false })
  lands :
      (s : Run) (before after : List Ref) (r : Ref) (o : Outcome) (dur : ℕ)
      → s.flying ≡ before ++ r ∷ after
      → Step p s (land r o dur (before ++ after) s)

pub data Reach (p : Pool) : Run → Run → Type 0 where
  stays : (s : Run) → Reach p s s
  then_step : (s m e : Run) → Reach p s m → Step p m e → Reach p s e
