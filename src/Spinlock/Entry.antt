-- ===== src/Spinlock/Entry.antt =====
-- A hart gets the lock when it is free.
use rep_vgg_acc.Base.{ℕ, false, zero, suc, ◌≤◌, ◌≡◌, ◌==◌, arith}
use rep_vgg_acc.Spinlock.{
  View, swap, fence, wait, attempt, save, locking, spinlock_trylock, spinlock_lock,
  spinlock_lock_irqsave, retry, with_flags, disable_irqsave,
}
use rep_vgg_acc.Spinlock.System.{
  Hart, outside, in_trylock, in_lock, in_lock_irqsave, section, in_unlock, in_unlock_irqrestore,
  after_lock, after_lock_irqsave, run,
}

-- `n` steps of a hart that nobody interrupts.
unfoldable pub runs_alone : ℕ → Hart → View → Hart × View
runs_alone zero h v = (h, v)
runs_alone (suc n) h v = let (h', v') = run h v in runs_alone n h' v'

-- The hart is in spinlock_lock or spinlock_lock_irqsave.
abbrev pub IsEntering : Hart → Type 0
IsEntering (in_lock l) = Unit
IsEntering (in_lock_irqsave p) = Unit
IsEntering _ = ⊥

abbrev pub IsInside : Hart → Type 0
IsInside (section flags) = Unit
IsInside _ = ⊥

abbrev pub Enters : Hart → View → Type 0
Enters h v = (n : ℕ) × (n ≤ 4) × IsInside (runs_alone n h v).0

busy : (r : ℕ) → (suc r == 0) ≡ false
busy r = ground arith

-- A hart that is anywhere in spinlock_lock or spinlock_lock_irqsave while the lock word is 0 is in the
-- section after at most 4 steps of its own, if no other hart makes a step before.
pub spinlock_lock-Enters : (h : Hart) (v : View) → IsEntering h → v.lock ≡ 0 → Enters h v
unfolding runs_alone run after_lock after_lock_irqsave spinlock_trylock spinlock_lock
    spinlock_lock_irqsave retry with_flags disable_irqsave
spinlock_lock-Enters (in_lock wait) v e z = (3, omega arith, rw z tt)
spinlock_lock-Enters (in_lock (attempt swap)) v e z = (2, omega arith, rw z tt)
spinlock_lock-Enters (in_lock (attempt (fence zero))) v e z = (1, omega arith, tt)
spinlock_lock-Enters (in_lock (attempt (fence (suc r)))) v e z =
    (4, omega arith, rw (busy r) (rw z tt))
spinlock_lock-Enters (in_lock_irqsave save) v e z = (4, omega arith, rw z tt)
spinlock_lock-Enters (in_lock_irqsave (locking f wait)) v e z = (3, omega arith, rw z tt)
spinlock_lock-Enters (in_lock_irqsave (locking f (attempt swap))) v e z = (2, omega arith, rw z tt)
spinlock_lock-Enters (in_lock_irqsave (locking f (attempt (fence zero)))) v e z =
    (1, omega arith, tt)
spinlock_lock-Enters (in_lock_irqsave (locking f (attempt (fence (suc r))))) v e z =
    (4, omega arith, rw (busy r) (rw z tt))
spinlock_lock-Enters outside v e z = absurd e
spinlock_lock-Enters (in_trylock t) v e z = absurd e
spinlock_lock-Enters (section f) v e z = absurd e
spinlock_lock-Enters (in_unlock u) v e z = absurd e
spinlock_lock-Enters (in_unlock_irqrestore f r) v e z = absurd e
