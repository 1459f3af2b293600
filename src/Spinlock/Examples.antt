-- ===== src/Spinlock/Examples.antt =====
-- Hart 0 takes the lock with interrupts off while hart 1 tries for it.
use rep_vgg_acc.Base.{ℕ, refl}
use rep_vgg_acc.Spinlock.{View, swap, fence, save, attempt, locking}
use rep_vgg_acc.Spinlock.System.{
  in_trylock, in_lock_irqsave, Harts, trylock, lock_irqsave, put, run_hart, runs, makes_call, Reach,
  here, next, initial, holds, saved,
}
use rep_vgg_acc.Spinlock.Exclusion.{Owned, Reach-Owned}
use rep_vgg_acc.Spinlock.Flags.{Masked, Reach-Masked}
use rep_vgg_acc.Spinlock.Entry.{Enters, spinlock_lock-Enters}

abbrev mstatus : ℕ → ℕ
mstatus i = 0x1808

abbrev called : Harts
called = record (initial mstatus) { harts = put (initial mstatus).harts 0 (in_lock_irqsave save) }

-- Hart 0 has made its swap.
abbrev swapped : Harts
swapped = run_hart 0 (run_hart 0 (run_hart 0 called))

abbrev contended : Harts
contended = run_hart 1 (record swapped { harts = put swapped.harts 1 (in_trylock swap) })

contended-Reach : Reach (initial mstatus) contended
contended-Reach =
    let a = next here (makes_call (initial mstatus) 0 (in_lock_irqsave save) lock_irqsave) in
    let b = next (next (next a (runs called 0)) (runs _ 0)) (runs _ 0) in
    next (next b (makes_call swapped 1 (in_trylock swap) trylock)) (runs _ 1)

Reach-Owned_example : Owned contended.lock (λ i. holds (contended.harts i))
Reach-Owned_example = Reach-Owned mstatus contended contended-Reach

Reach-Masked_example : Masked (mstatus 0) (saved (contended.harts 0)) (contended.mstatus 0)
Reach-Masked_example = Reach-Masked mstatus contended 0 contended-Reach

-- A hart whose last attempt found the lock taken, which is free now.
abbrev free : View
free = record { lock = 0; mstatus = 0x1800 }

spinlock_lock-Enters_example : Enters (in_lock_irqsave (locking 0x1808 (attempt (fence 1)))) free
spinlock_lock-Enters_example =
    spinlock_lock-Enters (in_lock_irqsave (locking 0x1808 (attempt (fence 1)))) free tt refl
