-- ===== src/Spinlock/Exclusion.antt =====
-- At most one hart has the lock, and the lock word tells whether one has it.
use native.Mathlib.Decide.{ℕ_discrete}
use rep_vgg_acc.Base.{
  ℕ, zero, suc, ◌≡◌, ◌≢◌, refl, sym, ◌∙◌, ◌⊎◌, inl, inr, Bool, true, false, minus_one, ◌==◌, arith,
}
use rep_vgg_acc.Spinlock.System.{
  Hart, Harts, Calls, trylock, lock, lock_irqsave, unlock, unlock_irqrestore, put, view, Step, runs,
  makes_call, Reach, here, next, initial, holds,
}
use rep_vgg_acc.Spinlock.Local.{Effect, keeps, swaps, clears, run-Effect}

-- `b` tells which harts have the lock, and `l` is the lock word: it is not 0 when a hart has the lock,
-- at most one has it, and if it is not 0 then some hart has the lock.
pub record Owned (l : ℕ) (b : ℕ → Bool) : Type 0 where
  taken : (i : ℕ) → b i ≡ true → l ≢ 0
  unique : (i j : ℕ) → b i ≡ true → b j ≡ true → i ≡ j
  free : (l ≡ 0) ⊎ (i : ℕ) × (b i ≡ true)

-- What a step of hart `i` leaves of `b`.
abbrev pub Changes : (ℕ → Bool) → ℕ → Bool → (ℕ → Bool) → Type 0
Changes b i y b' = (b' i ≡ y) × ((j : ℕ) → j ≢ i → b' j ≡ b j)

relock : {l l' : ℕ} {b : ℕ → Bool} → l ≢ 0 → l' ≢ 0 → Owned l b → Owned l' b
relock h h' o = record {
  taken = λ j t. h';
  unique = o.unique;
  free = elim o.free [ inl z ↦ absurd (h z) | inr x ↦ inr x ];
}

module _ (b b' : ℕ → Bool) (i : ℕ) where
  kept : {x : Bool} → b i ≡ x → Changes b i x b' → (j : ℕ) → b' j ≡ b j
  kept e c j = elim (ℕ_discrete j i) [ yes p ↦ grind arith | no p ↦ c.1 j p ]

  keeps-Owned : {l : ℕ} → ((j : ℕ) → b' j ≡ b j) → Owned l b → Owned l b'
  keeps-Owned same o = record {
    taken = λ j h. o.taken j (sym (same j) ∙ h);
    unique = λ j k hj hk. o.unique j k (sym (same j) ∙ hj) (sym (same k) ∙ hk);
    free = elim o.free [ inl z ↦ inl z | inr (j, h) ↦ inr (j, same j ∙ h) ];
  }

  -- Who has the lock after the step is hart `i`, or had it before.
  was : {y : Bool} → Changes b i y b' → (j : ℕ) → b' j ≡ true → (j ≡ i) ⊎ (b j ≡ true)
  was c j h = elim (ℕ_discrete j i) [ yes p ↦ inl p | no p ↦ inr (sym (c.1 j p) ∙ h) ]

  acquires-Owned : b i ≡ false → Changes b i true b' → Owned 0 b → Owned minus_one b'
  acquires-Owned e c o =
      let only : (j : ℕ) → b' j ≡ true → j ≡ i =
        λ j h. elim (was c j h) [ inl p ↦ p | inr q ↦ absurd (o.taken j q refl) ] in
      record {
        taken = λ j h. ground arith;
        unique = λ j k hj hk. only j hj ∙ sym (only k hk);
        free = inr (i, c.0);
      }

  releases-Owned : {l : ℕ} → b i ≡ true → Changes b i false b' → Owned l b → Owned 0 b'
  releases-Owned e c o =
      let nobody : (j : ℕ) → b' j ≢ true = λ j h.
        let p : j ≡ i = elim (was c j h) [ inl p ↦ p | inr q ↦ o.unique j i q e ] in grind arith in
      record {
        taken = λ j h. absurd (nobody j h);
        unique = λ j k hj hk. absurd (nobody j hj);
        free = inl refl;
      }

  Effect-Owned :
      {l : ℕ} {x y : Bool} {l' : ℕ}
      → b i ≡ x
      → Effect x l y l'
      → Changes b i y b'
      → Owned l b
      → Owned l' b'
  Effect-Owned e (keeps x l) c o = keeps-Owned (kept e c) o
  Effect-Owned e (swaps zero) c o = acquires-Owned e c o
  Effect-Owned e (swaps (suc l)) c o =
      let busy : (suc l == 0) ≡ false = ground arith in
      relock (omega arith) (omega arith) (keeps-Owned (kept e (c.0 ∙ busy, c.1)) o)
  Effect-Owned e (clears l) c o = releases-Owned e c o

-- The lock word and who has the lock, in a state of the system.
abbrev pub Inv : Harts → Type 0
Inv s = Owned s.lock (λ i. holds (s.harts i))

Calls-holds : {h h' : Hart} → Calls h h' → holds h' ≡ holds h
unfolding holds
Calls-holds trylock = refl
Calls-holds lock = refl
Calls-holds lock_irqsave = refl
Calls-holds unlock = refl
Calls-holds (unlock_irqrestore flags) = refl

put-Changes :
    (f : ℕ → Hart) (i : ℕ) (h : Hart)
    → Changes (λ j. holds (f j)) i (holds h) (λ j. holds (put f i h j))
put-Changes f i h = (ground arith, λ j ne. ground arith)

pub Step-Inv : {s t : Harts} → Step s t → Inv s → Inv t
Step-Inv (runs s i) o =
    Effect-Owned _ _ i refl (run-Effect (s.harts i) (view s i)) (put-Changes s.harts i _) o
Step-Inv (makes_call s i h c) o =
    keeps-Owned _ _ i (kept _ _ i (sym (Calls-holds c)) (put-Changes s.harts i h)) o

-- Whatever the harts do, in whatever order their steps come: at most one of them has the lock, a hart
-- that has it finds the lock word other than 0, and when the word is not 0 some hart has the lock, so
-- it is never lost.
pub Reach-Owned :
    (mstatus : ℕ → ℕ) (s : Harts)
    → Reach (initial mstatus) s
    → Owned s.lock (λ i. holds (s.harts i))
unfolding holds
Reach-Owned mstatus s here = record {
  taken = λ i h. ground arith;
  unique = λ i j h k. ground arith;
  free = inl refl;
}
Reach-Owned mstatus s (next r t) = Step-Inv t (Reach-Owned mstatus _ r)
