-- ===== src/Spinlock/Flags.antt =====
-- The interrupt enable bit of a hart: disable_irqsave and enable_irqrestore around the lock.
use native.Mathlib.Decide.{ℕ_discrete}
use rep_vgg_acc.Base.{
  ℕ, ◌≡◌, refl, Bool, true, false, Option, none, some, not32, bit_and, ◌==◌, if◌then◌else◌,
}
use rep_vgg_acc.Spinlock.{
  View, at, returns, swap, fence, wait, attempt, drain, clear, save, locking, unlocking, restore,
  spinlock_trylock, spinlock_lock, spinlock_unlock, spinlock_lock_irqsave,
  spinlock_unlock_irqrestore, retry, with_flags, then_restore, disable_irqsave, enable_irqrestore,
}
use rep_vgg_acc.Spinlock.System.{
  Hart, outside, in_trylock, in_lock, in_lock_irqsave, section, in_unlock, in_unlock_irqrestore,
  Harts, Calls, trylock, lock, lock_irqsave, unlock, unlock_irqrestore, put, put-here, put-other,
  view, Step, runs, makes_call, Reach, here, next, initial, after_trylock, after_lock,
  after_lock_irqsave, after_unlock, after_unlock_irqrestore, run, saved,
}

-- `m` is the `mstatus` that the hart came with: it is in place when no flags are saved; otherwise the
-- flags are `m`, and the register is `m` with the bit MIE cleared.
abbrev pub Masked : ℕ → Option ℕ → ℕ → Type 0
Masked m none w = w ≡ m
Masked m (some flags) w = (flags ≡ m) × (w ≡ bit_and m (not32 8))

-- A test that decides where a hart goes without a change of the flags.
same_flags :
    (m w : ℕ) (f : Bool → Hart) (b : Bool) (o : Option ℕ)
    → saved (f true) ≡ o
    → saved (f false) ≡ o
    → Masked m o w
    → Masked m (saved (f b)) w
same_flags m w f true o t e k = rw t k
same_flags m w f false o t e k = rw e k

run-Masked :
    (m : ℕ) (h : Hart) (v : View)
    → Masked m (saved h) v.mstatus
    → let (h', v') = run h v in Masked m (saved h') v'.mstatus
unfolding run after_trylock after_lock after_lock_irqsave after_unlock after_unlock_irqrestore saved
    spinlock_trylock spinlock_lock spinlock_unlock spinlock_lock_irqsave spinlock_unlock_irqrestore
    retry with_flags then_restore disable_irqsave enable_irqrestore
run-Masked m outside v k = k
run-Masked m (in_trylock swap) v k = k
run-Masked m (in_trylock (fence res)) v k =
    same_flags m v.mstatus (λ b. if b then section none else outside) (res == 0) none refl refl k
run-Masked m (in_lock wait) v k =
    same_flags m v.mstatus (λ b. in_lock (if b then attempt swap else wait)) (v.lock == 0) none refl
      refl k
run-Masked m (in_lock (attempt swap)) v k = k
run-Masked m (in_lock (attempt (fence res))) v k =
    same_flags m v.mstatus (λ b. after_lock (if b then returns tt else at wait)) (res == 0) none
      refl refl k
run-Masked m (in_lock_irqsave save) v k = (k, rw k refl)
run-Masked m (in_lock_irqsave (locking flags wait)) v k =
    same_flags m v.mstatus (λ b. in_lock_irqsave (locking flags (if b then attempt swap else wait)))
      (v.lock == 0) (some flags) refl refl k
run-Masked m (in_lock_irqsave (locking flags (attempt swap))) v k = k
run-Masked m (in_lock_irqsave (locking flags (attempt (fence res)))) v k =
    same_flags m v.mstatus
      (λ b. after_lock_irqsave (with_flags flags (if b then returns tt else at wait))) (res == 0)
      (some flags) refl refl k
run-Masked m (section flags) v k = k
run-Masked m (in_unlock drain) v k = k
run-Masked m (in_unlock clear) v k = k
run-Masked m (in_unlock_irqrestore flags (unlocking drain)) v k = k
run-Masked m (in_unlock_irqrestore flags (unlocking clear)) v k = k
run-Masked m (in_unlock_irqrestore flags restore) v k = k.0

Calls-saved : {h h' : Hart} → Calls h h' → saved h' ≡ saved h
unfolding saved
Calls-saved trylock = refl
Calls-saved lock = refl
Calls-saved lock_irqsave = refl
Calls-saved unlock = refl
Calls-saved (unlock_irqrestore flags) = refl

abbrev AllMasked : (ℕ → ℕ) → Harts → Type 0
AllMasked m s = (i : ℕ) → Masked (m i) (saved (s.harts i)) (s.mstatus i)

put-Masked :
    (m mstatus : ℕ → ℕ) (harts : ℕ → Hart) (i : ℕ) (h : Hart) (w : ℕ)
    → ((j : ℕ) → Masked (m j) (saved (harts j)) (mstatus j))
    → Masked (m i) (saved h) w
    → (j : ℕ) → Masked (m j) (saved (put harts i h j)) (put mstatus i w j)
put-Masked m mstatus harts i h w all own j = elim (ℕ_discrete j i) [
  | yes p ↦ rw p (rw (put-here harts i h) (rw (put-here mstatus i w) own))
  | no p ↦ rw (put-other harts i h j p) (rw (put-other mstatus i w j p) (all j))
]

saved-put :
    (h : Hart) (harts : ℕ → Hart) (i : ℕ)
    → saved h ≡ saved (harts i)
    → (j : ℕ) → saved (put harts i h j) ≡ saved (harts j)
saved-put h harts i e j = elim (ℕ_discrete j i) [
  | yes p ↦ rw p (rw (put-here harts i h) e)
  | no p ↦ rw (put-other harts i h j p) refl
]

Step-Masked : (m : ℕ → ℕ) {s t : Harts} → Step s t → AllMasked m s → AllMasked m t
Step-Masked m (runs s i) k =
    put-Masked m s.mstatus s.harts i _ _ k (run-Masked (m i) (s.harts i) (view s i) (k i))
Step-Masked m (makes_call s i h c) k = λ j. rw (saved-put h s.harts i (Calls-saved c) j) (k j)

-- When the harts change `mstatus` by disable_irqsave and enable_irqrestore only, then in any order of
-- their steps: a hart that came with `m` in `mstatus` has exactly `m` there whenever it is not between
-- the two, and `m` without MIE between them, where the flags that it saved are `m`.
pub Reach-Masked :
    (mstatus : ℕ → ℕ) (s : Harts) (i : ℕ)
    → Reach (initial mstatus) s
    → Masked (mstatus i) (saved (s.harts i)) (s.mstatus i)
unfolding saved
Reach-Masked mstatus s i here = refl
Reach-Masked mstatus s i (next r t) = Step-Masked mstatus t (λ j. Reach-Masked mstatus _ j r) i
