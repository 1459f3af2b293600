-- ===== src/Spinlock.antt =====
-- The spin lock of hbird-sdk/SoC/hbirdv2/Common/Include/riscv_atomic.h, with `__riscv_atomic`. A
-- function is cut at its accesses: one step makes one access to the lock word or to `mstatus`. The
-- lock word is sequentially consistent memory, where a fence (`mb`) is a step that changes nothing.
pub mod System
pub mod Local
pub mod Exclusion
pub mod Flags
pub mod Entry
mod Examples
use rep_vgg_acc.Base.{ℕ, minus_one, not32, bit_and, ◌==◌, if◌then◌else◌}

-- What the steps of a hart work on: the shared lock word, and its own `mstatus`.
pub record View : Type 0 where
  pub lock : ℕ
  pub mstatus : ℕ

-- A call in progress is at a point of the function, or returns a result.
pub data Progress (P A : Type 0) : Type 0 where
  at : P → Progress P A
  returns : A → Progress P A

-- Points of spinlock_trylock: before `atomic_swap`, and before `mb`, with the result of the swap.
pub data TryPc : Type 0 where
  swap : TryPc
  fence : ℕ → TryPc

-- Points of spinlock_lock: before `atomic_read`, or in the call of spinlock_trylock.
pub data LockPc : Type 0 where
  wait : LockPc
  attempt : TryPc → LockPc

-- Points of spinlock_unlock: before `mb`, before `atomic_set`.
pub data UnlockPc : Type 0 where
  drain : UnlockPc
  clear : UnlockPc

-- Points of spinlock_lock_irqsave: before `disable_irqsave`, or in spinlock_lock with the flags.
pub data SavePc : Type 0 where
  save : SavePc
  locking : ℕ → LockPc → SavePc

-- Points of spinlock_unlock_irqrestore: in spinlock_unlock, or before `enable_irqrestore`.
pub data RestorePc : Type 0 where
  unlocking : UnlockPc → RestorePc
  restore : RestorePc

-- `csrrci %0, mstatus, 0x8`.
unfoldable pub disable_irqsave : View → ℕ × View
disable_irqsave v = (v.mstatus, record v { mstatus = bit_and v.mstatus (not32 8) })

-- `csrw mstatus, flags`.
unfoldable pub enable_irqrestore : ℕ → View → View
enable_irqrestore flags v = record v { mstatus = flags }

unfoldable pub spinlock_trylock : TryPc → View → Progress TryPc ℕ × View
spinlock_trylock swap v = (at (fence v.lock), record v { lock = minus_one })
spinlock_trylock (fence res) v = (returns res, v)

-- `while (spinlock_trylock(lock))` around one step of the call.
unfoldable pub retry : Progress TryPc ℕ → Progress LockPc (Unit {0})
retry (at t) = at (attempt t)
retry (returns res) = if res == 0 then returns tt else at wait

unfoldable pub spinlock_lock : LockPc → View → Progress LockPc (Unit {0}) × View
unfolding retry spinlock_trylock
spinlock_lock wait v = (at (if v.lock == 0 then attempt swap else wait), v)
spinlock_lock (attempt t) v = let (p, v') = spinlock_trylock t v in (retry p, v')

unfoldable pub spinlock_unlock : UnlockPc → View → Progress UnlockPc (Unit {0}) × View
spinlock_unlock drain v = (at clear, v)
spinlock_unlock clear v = (returns tt, record v { lock = 0 })

-- `return flags` once spinlock_lock has returned.
unfoldable pub with_flags : ℕ → Progress LockPc (Unit {0}) → Progress SavePc ℕ
with_flags flags (at l) = at (locking flags l)
with_flags flags (returns u) = returns flags

unfoldable pub spinlock_lock_irqsave : SavePc → View → Progress SavePc ℕ × View
unfolding with_flags disable_irqsave spinlock_lock
spinlock_lock_irqsave save v = let (flags, v') = disable_irqsave v in (at (locking flags wait), v')
spinlock_lock_irqsave (locking flags l) v =
    let (p, v') = spinlock_lock l v in (with_flags flags p, v')

-- `enable_irqrestore` follows once spinlock_unlock has returned.
unfoldable pub then_restore : Progress UnlockPc (Unit {0}) → Progress RestorePc (Unit {0})
then_restore (at u) = at (unlocking u)
then_restore (returns u) = at restore

unfoldable pub spinlock_unlock_irqrestore :
    ℕ → RestorePc → View → Progress RestorePc (Unit {0}) × View
unfolding then_restore enable_irqrestore spinlock_unlock
spinlock_unlock_irqrestore flags (unlocking u) v =
    let (p, v') = spinlock_unlock u v in (then_restore p, v')
spinlock_unlock_irqrestore flags restore v = (returns tt, enable_irqrestore flags v)
