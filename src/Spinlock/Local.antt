-- ===== src/Spinlock/Local.antt =====
-- What a step of one hart does to the lock word, and to whether the hart has the lock.
use rep_vgg_acc.Base.{ℕ, ◌≡◌, refl, Bool, true, false, none, minus_one, ◌==◌, if◌then◌else◌}
use rep_vgg_acc.Spinlock.{
  View, at, returns, swap, fence, wait, attempt, drain, clear, save, locking, unlocking, restore,
  spinlock_trylock, spinlock_lock, spinlock_unlock, spinlock_lock_irqsave,
  spinlock_unlock_irqrestore, retry, with_flags, then_restore, disable_irqsave, enable_irqrestore,
}
use rep_vgg_acc.Spinlock.System.{
  Hart, outside, in_trylock, in_lock, in_lock_irqsave, section, in_unlock, in_unlock_irqrestore,
  after_trylock, after_lock, after_lock_irqsave, after_unlock, after_unlock_irqrestore, run, holds,
}

-- The lock word goes from `l` to `l'`, and whether the hart has the lock from `b` to `b'`: neither
-- changes, or the hart swaps and gets the lock if it was free, or the hart gives it back.
pub data Effect : Bool → ℕ → Bool → ℕ → Type 0 where
  keeps : (b : Bool) (l : ℕ) → Effect b l b l
  swaps : (l : ℕ) → Effect false l (l == 0) minus_one
  clears : (l : ℕ) → Effect true l false 0

-- A test that decides where a hart without a change of the lock word goes: on who has the lock, or not.
decided :
    (f : Bool → Hart) (b : Bool) (l : ℕ)
    → holds (f true) ≡ true
    → holds (f false) ≡ false
    → Effect b l (holds (f b)) l
decided f true l t e = rw t (keeps true l)
decided f false l t e = rw e (keeps false l)

still_waits :
    (f : Bool → Hart) (b : Bool) (l : ℕ)
    → holds (f true) ≡ false
    → holds (f false) ≡ false
    → Effect false l (holds (f b)) l
still_waits f true l t e = rw t (keeps false l)
still_waits f false l t e = rw e (keeps false l)

-- Each step of a hart has one of the three effects.
pub run-Effect :
    (h : Hart) (v : View) → let (h', v') = run h v in Effect (holds h) v.lock (holds h') v'.lock
unfolding run after_trylock after_lock after_lock_irqsave after_unlock after_unlock_irqrestore holds
    spinlock_trylock spinlock_lock spinlock_unlock spinlock_lock_irqsave spinlock_unlock_irqrestore
    retry with_flags then_restore disable_irqsave enable_irqrestore
run-Effect outside v = keeps false v.lock
run-Effect (in_trylock swap) v = swaps v.lock
run-Effect (in_trylock (fence res)) v =
    decided (λ b. if b then section none else outside) (res == 0) v.lock refl refl
run-Effect (in_lock wait) v =
    still_waits (λ b. in_lock (if b then attempt swap else wait)) (v.lock == 0) v.lock refl refl
run-Effect (in_lock (attempt swap)) v = swaps v.lock
run-Effect (in_lock (attempt (fence res))) v =
    decided (λ b. after_lock (if b then returns tt else at wait)) (res == 0) v.lock refl refl
run-Effect (in_lock_irqsave save) v = keeps false v.lock
run-Effect (in_lock_irqsave (locking flags wait)) v =
    still_waits (λ b. in_lock_irqsave (locking flags (if b then attempt swap else wait)))
      (v.lock == 0) v.lock refl refl
run-Effect (in_lock_irqsave (locking flags (attempt swap))) v = swaps v.lock
run-Effect (in_lock_irqsave (locking flags (attempt (fence res)))) v =
    decided (λ b. after_lock_irqsave (with_flags flags (if b then returns tt else at wait)))
      (res == 0) v.lock refl refl
run-Effect (section flags) v = keeps true v.lock
run-Effect (in_unlock drain) v = keeps true v.lock
run-Effect (in_unlock clear) v = clears v.lock
run-Effect (in_unlock_irqrestore flags (unlocking drain)) v = keeps true v.lock
run-Effect (in_unlock_irqrestore flags (unlocking clear)) v = clears v.lock
run-Effect (in_unlock_irqrestore flags restore) v = keeps false v.lock
