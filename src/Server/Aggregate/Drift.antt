-- ===== src/Server/Aggregate/Drift.antt =====
-- How far the aggregate of active connections goes astray.
use load_balancer.Base.{
  ℕ, zero, suc, ◌+◌, ◌*◌, ◌-◌, ◌%◌, ◌<◌, ◌≡◌, ◌≢◌, arith, add64, sub64, u64_mod,
}
use load_balancer.Server.Aggregate.{
  outside, inside, entering, stored, leaving, Gauge, become, reads, stores, stores_again,
  reads_back, stores_back, Reach, stays, then_step,
}

-- Two requests that read one value leave one less behind.
lose_one :
    (g : Gauge) (t u : ℕ)
    → t ≢ u
    → g.value < u64_mod
    → g.phase t ≡ outside
    → g.phase u ≡ outside
    → (e : Gauge) × Reach g e
      × (e.phase t ≡ outside)
      × (e.phase u ≡ outside)
      × (e.value ≡ sub64 g.value 1)
unfolding become
lose_one g t u apart fits t_out u_out =
    let n = g.value in
    let up = add64 n 1 in
    let g1 = become t (entering n) n g in
    let g2 = become u (entering n) n g1 in
    let g3 = become t (stored up) up g2 in
    let g4 = become t inside up g3 in
    let g5 = become u (stored up) up g4 in
    let g6 = become u inside up g5 in
    let g7 = become t (leaving up) up g6 in
    let g8 = become t outside (sub64 up 1) g7 in
    let g9 = become u (leaving (sub64 up 1)) (sub64 up 1) g8 in
    let last = sub64 (sub64 up 1) 1 in
    let g10 = become u outside last g9 in
    let w2 =
      then_step g g1 g2 (then_step g g g1 (stays g) (reads g t t_out))
        (reads g1 u (ground arith)) in
    let w4 =
      then_step g g3 g4 (then_step g g2 g3 w2 (stores g2 t n (ground arith)))
        (stores_again g3 t up (ground arith)) in
    let w6 =
      then_step g g5 g6 (then_step g g4 g5 w4 (stores g4 u n (ground arith)))
        (stores_again g5 u up (ground arith)) in
    let w8 =
      then_step g g7 g8 (then_step g g6 g7 w6 (reads_back g6 t (ground arith)))
        (stores_back g7 t up (ground arith)) in
    let w10 =
      then_step g g9 g10 (then_step g g8 g9 w8 (reads_back g8 u (ground arith)))
        (stores_back g9 u (sub64 up 1) (ground arith)) in
    (g10, w10, ground arith, ground arith, omega arith)

append_Reach : (a b c : Gauge) → Reach a b → Reach b c → Reach a c
append_Reach a b _ w (stays _) = w
append_Reach a b c w (then_step _ m _ v last) = then_step a m c (append_Reach a b m w v) last

-- With two requests that are not in RoundTrip, the aggregate may go down by any number, modulo
-- 2^64, while both come and go: below zero where nobody is left.
pub drifts :
    (k : ℕ) (g : Gauge) (t u : ℕ)
    → t ≢ u
    → g.value < u64_mod
    → g.phase t ≡ outside
    → g.phase u ≡ outside
    → (e : Gauge) × Reach g e
      × (e.phase t ≡ outside)
      × (e.phase u ≡ outside)
      × (e.value ≡ (g.value + k * (u64_mod - 1)) % u64_mod)
drifts zero g t u apart fits t_out u_out = (g, stays g, t_out, u_out, omega arith)
drifts (suc k) g t u apart fits t_out u_out =
    let (m, first, t_mid, u_mid, lost) = lose_one g t u apart fits t_out u_out in
    let (e, rest, t_end, u_end, gone) = drifts k m t u apart (omega arith) t_mid u_mid in
    (e, append_Reach g m e first rest, t_end, u_end, omega arith)
