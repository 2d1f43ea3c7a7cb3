-- ===== src/BufferPool/Exclusive.antt =====
-- What a holder of a buffer of internal/pool/buffer_pool.go can rely on.
use load_balancer.Base.{
  ℕ, zero, suc, ◌<◌, ◌≡◌, refl, sym, ◌≢◌, inl, inr, some, List, [], ◌∷◌, arith, ltb, ==_iff,
  Bool-cases, Option-cases, get_elem?, In, get_elem?-In,
}
use load_balancer.BufferPool.{
  Buffer, State, take_or_new, without, get, put, fill, Use, gets, puts, fills, use_pool, use_all,
}

abbrev pub IsDistinct : List ℕ → Type 0
IsDistinct [] = Unit
IsDistinct (a ∷ rest) = ¬ (In a rest) × IsDistinct rest

-- No pointer stands twice in the pool, and all that do are below the free ones.
pub record IsSound (s : State) : Type 0 where
  pub distinct : IsDistinct s.kept
  pub below : (a : ℕ) → In a s.kept → a < s.next

-- Callers keep to the rule of sync.Pool: a buffer that is put is not in the pool already. The
-- holder of `a` does not put it.
abbrev pub IsProper : ℕ → List Use → State → Type 0
IsProper a [] s = Unit
IsProper a (gets i ∷ us) s = IsProper a us (get i s).0
IsProper a (puts b ∷ us) s = (¬ (In b s.kept)) × (b < s.next) × (b ≢ a) × IsProper a us (put b s)
IsProper a (fills b new ∷ us) s = IsProper a us (fill b new s)

In-without : (i x : ℕ) (kept : List ℕ) → In x (without i kept) → In x kept
In-without i x [] h = h
In-without zero x (a ∷ rest) h = inr h
In-without (suc i) x (a ∷ rest) (inl e) = inl e
In-without (suc i) x (a ∷ rest) (inr h) = inr (In-without i x rest h)

IsDistinct-without : (i : ℕ) (kept : List ℕ) → IsDistinct kept → IsDistinct (without i kept)
IsDistinct-without i [] h = h
IsDistinct-without zero (a ∷ rest) (new, h) = h
IsDistinct-without (suc i) (a ∷ rest) (new, h) =
    (λ m. new (In-without i a rest m), IsDistinct-without i rest h)

taken_gone :
    (i a : ℕ) (kept : List ℕ)
    → IsDistinct kept
    → get_elem? kept i ≡ some a
    → ¬ (In a (without i kept))
taken_gone i a [] h e m = m
taken_gone zero a (b ∷ rest) (new, h) e m = let same : b ≡ a = cc in new (rw same m)
taken_gone (suc i) a (b ∷ rest) (new, h) e (inr m) = taken_gone i a rest h e m
taken_gone (suc i) a (b ∷ rest) (new, h) e (inl same) =
    new (rw (sym same) (get_elem?-In rest i a e))

-- A pointer that somebody holds: in use, and not in the pool.
record IsHeld (a : ℕ) (s : State) : Type 0 where
  pub sound : IsSound s
  pub absent : ¬ (In a s.kept)
  pub used : a < s.next

without-IsSound : (i : ℕ) (s : State) → IsSound s → IsSound (record s { kept = without i s.kept })
without-IsSound i s h = record {
  distinct = IsDistinct-without i s.kept h.distinct;
  below = λ a m. h.below a (In-without i a s.kept m);
}

get-IsHeld : (i : ℕ) (s : State) → IsSound s → IsHeld (get i s).1 (get i s).0
unfolding get
get-IsHeld i s h =
    let left = without-IsSound i s h in
    elim (Option-cases (get_elem? s.kept i)) [
      | inl fresh ↦ rw fresh (record {
        sound = record {
          distinct = left.distinct;
          below = λ a m. let old = left.below a m in omega arith;
        };
        absent = λ m. let old = left.below s.next m in omega arith;
        used = omega arith;
      })
      | inr (a, e) ↦ rw e (record {
        sound = record { distinct = left.distinct; below = left.below };
        absent = taken_gone i a s.kept h.distinct e;
        used = h.below a (get_elem?-In s.kept i a e);
      })
    ]

-- A Get hands out another pointer than the one held, and leaves that one held.
get-other : (i a : ℕ) (s : State) → IsHeld a s → IsHeld a (get i s).0 × ((get i s).1 ≢ a)
unfolding get
get-other i a s h =
    let left = without-IsSound i s h.sound in
    let absent = λ (m : In a (without i s.kept)). h.absent (In-without i a s.kept m) in
    elim (Option-cases (get_elem? s.kept i)) [
      | inl fresh ↦ rw fresh (
        record {
          sound = record {
            distinct = left.distinct;
            below = λ x m. let old = left.below x m in omega arith;
          };
          absent = absent;
          used = let old = h.used in omega arith;
        },
        λ same. let old = h.used in omega arith,
      )
      | inr (b, e) ↦ rw e (
        record {
          sound = record { distinct = left.distinct; below = left.below };
          absent = absent;
          used = h.used;
        },
        λ same. h.absent (rw (sym same) (get_elem?-In s.kept i b e)),
      )
    ]

put-IsHeld :
    (b a : ℕ) (s : State) → ¬ (In b s.kept) → b < s.next → b ≢ a → IsHeld a s → IsHeld a (put b s)
unfolding put
put-IsHeld b a s new used other h = elim (Bool-cases (ltb (s.buffers b).cap 1048576)) [
  | inr e ↦ rw e (record {
    sound = record { distinct = h.sound.distinct; below = h.sound.below };
    absent = h.absent;
    used = h.used;
  })
  | inl e ↦ rw e (record {
    sound = record {
      distinct = (new, h.sound.distinct);
      below = λ x m. elim m [ inl same ↦ rw same used | inr old ↦ h.sound.below x old ];
    };
    absent = λ m. elim m [ inl same ↦ other (sym same) | inr old ↦ h.absent old ];
    used = h.used;
  })
]

fill-IsHeld : (b a : ℕ) (new : Buffer) (s : State) → IsHeld a s → IsHeld a (fill b new s)
unfolding fill
fill-IsHeld b a new s h = record {
  sound = record { distinct = h.sound.distinct; below = h.sound.below };
  absent = h.absent;
  used = h.used;
}

use_all-IsHeld :
    (a : ℕ) (us : List Use) (s : State) → IsProper a us s → IsHeld a s → IsHeld a (use_all us s)
unfolding use_all use_pool
use_all-IsHeld a [] s proper h = h
use_all-IsHeld a (gets i ∷ us) s proper h =
    use_all-IsHeld a us (get i s).0 proper (get-other i a s h).0
use_all-IsHeld a (puts b ∷ us) s (new, used, other, proper) h =
    use_all-IsHeld a us (put b s) proper (put-IsHeld b a s new used other h)
use_all-IsHeld a (fills b new ∷ us) s proper h =
    use_all-IsHeld a us (fill b new s) proper (fill-IsHeld b a new s h)

get-empty : (i : ℕ) (s : State) → ((get i s).0.buffers (get i s).1).contents ≡ []
unfolding get
get-empty i s =
    let (s', a) = take_or_new (record s { kept = without i s.kept }) (get_elem? s.kept i) in
    rw ((==_iff a a).1 refl) refl

-- A buffer got from a sound pool is empty, and until its holder puts it, whatever the others do by
-- the rule that a buffer put is not in the pool already, no Get hands it out again.
pub exclusive :
    (i j : ℕ) (us : List Use) (s : State)
    → IsSound s
    → IsProper (get i s).1 us (get i s).0
    → (((get i s).0.buffers (get i s).1).contents ≡ [])
      × ((get j (use_all us (get i s).0)).1 ≢ (get i s).1)
exclusive i j us s sound proper =
    let held = use_all-IsHeld (get i s).1 us (get i s).0 proper (get-IsHeld i s sound) in
    (get-empty i s, (get-other j (get i s).1 (use_all us (get i s).0) held).1)
