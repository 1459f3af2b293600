-- ===== src/Spinlock/System.antt =====
-- Any number of harts that share a lock. A hart calls a function for taking the lock when it has not
-- got it, and the function for giving it back that matches when it has.
use rep_vgg_acc.Base.{
  ℕ, Bool, true, false, ◌≡◌, ◌≢◌, arith, Option, none, some, ◌==◌, if◌then◌else◌,
}
use rep_vgg_acc.Spinlock.{
  View, Progress, at, returns, TryPc, swap, fence, LockPc, wait, attempt, UnlockPc, drain, SavePc,
  save, locking, RestorePc, unlocking, restore, spinlock_trylock, spinlock_lock, spinlock_unlock,
  spinlock_lock_irqsave, spinlock_unlock_irqrestore,
}

-- Where a hart is: outside, in a call, or in the section that the lock protects. The section has the
-- flags when it was entered by spinlock_lock_irqsave.
pub data Hart : Type 0 where
  outside : Hart
  in_trylock : TryPc → Hart
  in_lock : LockPc → Hart
  in_lock_irqsave : SavePc → Hart
  section : Option ℕ → Hart
  in_unlock : UnlockPc → Hart
  in_unlock_irqrestore : ℕ → RestorePc → Hart

-- Where a hart goes when a step of its call was made.
unfoldable pub after_trylock : Progress TryPc ℕ → Hart
after_trylock (at t) = in_trylock t
after_trylock (returns res) = if res == 0 then section none else outside

unfoldable pub after_lock : Progress LockPc (Unit {0}) → Hart
after_lock (at l) = in_lock l
after_lock (returns u) = section none

unfoldable pub after_lock_irqsave : Progress SavePc ℕ → Hart
after_lock_irqsave (at p) = in_lock_irqsave p
after_lock_irqsave (returns flags) = section (some flags)

unfoldable pub after_unlock : Progress UnlockPc (Unit {0}) → Hart
after_unlock (at u) = in_unlock u
after_unlock (returns u) = outside

unfoldable pub after_unlock_irqrestore : ℕ → Progress RestorePc (Unit {0}) → Hart
after_unlock_irqrestore flags (at r) = in_unlock_irqrestore flags r
after_unlock_irqrestore flags (returns u) = outside

-- The next step of a hart; outside of the calls it leaves the lock alone.
unfoldable pub run : Hart → View → Hart × View
unfolding after_trylock after_lock after_lock_irqsave after_unlock after_unlock_irqrestore
run outside v = (outside, v)
run (section flags) v = (section flags, v)
run (in_trylock t) v = let (p, v') = spinlock_trylock t v in (after_trylock p, v')
run (in_lock l) v = let (p, v') = spinlock_lock l v in (after_lock p, v')
run (in_lock_irqsave s) v = let (p, v') = spinlock_lock_irqsave s v in (after_lock_irqsave p, v')
run (in_unlock u) v = let (p, v') = spinlock_unlock u v in (after_unlock p, v')
run (in_unlock_irqrestore flags r) v =
    let (p, v') = spinlock_unlock_irqrestore flags r v in (after_unlock_irqrestore flags p, v')

-- The calls that a hart can make where it is.
pub data Calls : Hart → Hart → Type 0 where
  trylock : Calls outside (in_trylock swap)
  lock : Calls outside (in_lock wait)
  lock_irqsave : Calls outside (in_lock_irqsave save)
  unlock : Calls (section none) (in_unlock drain)
  unlock_irqrestore :
      (flags : ℕ) → Calls (section (some flags)) (in_unlock_irqrestore flags (unlocking drain))

pub record Harts : Type 0 where
  pub lock : ℕ
  pub harts : ℕ → Hart
  pub mstatus : ℕ → ℕ

abbrev pub put {ℓ} : {A : Type ℓ} → (ℕ → A) → ℕ → A → ℕ → A
put f i a j = if j == i then a else f j

pub put-here {ℓ} : {A : Type ℓ} (f : ℕ → A) (i : ℕ) (a : A) → put f i a i ≡ a
put-here f i a = ground arith

pub put-other {ℓ} : {A : Type ℓ} (f : ℕ → A) (i : ℕ) (a : A) (j : ℕ) → j ≢ i → put f i a j ≡ f j
put-other f i a j ne = ground arith

abbrev pub view : Harts → ℕ → View
view s i = record { lock = s.lock; mstatus = s.mstatus i }

-- Hart `i` makes its next step.
abbrev pub run_hart : ℕ → Harts → Harts
run_hart i s =
    let (h, v) = run (s.harts i) (view s i) in
    record { lock = v.lock; harts = put s.harts i h; mstatus = put s.mstatus i v.mstatus }

-- One step of the system: a hart runs, or makes a call.
pub data Step : Harts → Harts → Type 0 where
  runs : (s : Harts) (i : ℕ) → Step s (run_hart i s)
  makes_call :
      (s : Harts) (i : ℕ) (h : Hart)
      → Calls (s.harts i) h
      → Step s (record s { harts = put s.harts i h })

pub data Reach (s : Harts) : Harts → Type 0 where
  here : Reach s s
  next : {t u : Harts} → Reach s t → Step t u → Reach s u

-- SPINLOCK_INIT, and no hart in a call; each hart has its own `mstatus`.
abbrev pub initial : (ℕ → ℕ) → Harts
initial mstatus = record { lock = 0; harts = λ i. outside; mstatus = mstatus }

-- Whether a hart has the lock: from the swap that gave 0 to the store of 0.
unfoldable pub holds : Hart → Bool
holds outside = false
holds (in_trylock swap) = false
holds (in_trylock (fence res)) = res == 0
holds (in_lock wait) = false
holds (in_lock (attempt swap)) = false
holds (in_lock (attempt (fence res))) = res == 0
holds (in_lock_irqsave save) = false
holds (in_lock_irqsave (locking flags wait)) = false
holds (in_lock_irqsave (locking flags (attempt swap))) = false
holds (in_lock_irqsave (locking flags (attempt (fence res)))) = res == 0
holds (section flags) = true
holds (in_unlock u) = true
holds (in_unlock_irqrestore flags (unlocking u)) = true
holds (in_unlock_irqrestore flags restore) = false

-- The flags that a hart has saved.
unfoldable pub saved : Hart → Option ℕ
saved outside = none
saved (in_trylock t) = none
saved (in_lock l) = none
saved (in_lock_irqsave save) = none
saved (in_lock_irqsave (locking flags l)) = some flags
saved (section flags) = flags
saved (in_unlock u) = none
saved (in_unlock_irqrestore flags r) = some flags
