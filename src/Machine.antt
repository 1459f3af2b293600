-- ===== src/Machine.antt =====
-- How the C code meets the hardware: volatile loads and stores on a bus, loops that wait for a
-- register, null pointers, and accesses out of an array.
pub mod Poll
pub mod Memory
pub mod Logic
use rep_vgg_acc.Base.{
  ℕ, zero, suc, ◌+◌, Bool, true, false, Option, none, some, minus_one, u32, bit_and, bit_or, ◌==◌,
  if◌then◌else◌,
}

-- `spinning`: a loop still waits when the fuel is used up. `fault`: an access out of an array,
-- which C leaves undefined.
pub data Outcome {ℓ} (A : Type ℓ) : Type ℓ where
  done : A → Outcome A
  spinning fault : Outcome A

-- A device, or all of them: what a volatile load and a volatile store of a 32-bit word do.
pub record Bus (D : Type 0) : Type 0 where
  pub load : ℕ → D → ℕ × D
  pub store : ℕ → ℕ → D → D

abbrev pub Prog : Type 0 → Type 0 → Type 0
Prog D A = D → Outcome (A × D)

abbrev pub pure : {D A : Type 0} → A → Prog D A
pure a d = done (a, d)

infixl 5 ◌>>=◌ ◌>>◌
abbrev pub ◌>>=◌ : {D A B : Type 0} → Prog D A → (A → Prog D B) → Prog D B
◌>>=◌ m f d = elim (m d) [ done (a, d') ↦ f a d' | spinning ↦ spinning | fault ↦ fault ]

abbrev pub ◌>>◌ : {D B : Type 0} → Prog D (Unit {0}) → Prog D B → Prog D B
m >> k = m >>= λ _. k

-- The program ends, with a result and a state for which `Q` holds.
abbrev pub Returns : {D A : Type 0} → Outcome (A × D) → (A → D → Type 0) → Type 0
Returns (done (a, d)) Q = Q a d
Returns spinning Q = ⊥
Returns fault Q = ⊥

-- `if (p == NULL) return -1;`, the guard at the head of each driver function.
abbrev pub unless_null : {D : Type 0} → Option ℕ → (ℕ → Prog D ℕ) → Prog D ℕ
unless_null none f = pure minus_one
unless_null (some p) f = f p

module _ {D : Type 0} (bus : Bus D) where
  abbrev pub read : ℕ → Prog D ℕ
  read a d = done (bus.load a d)

  abbrev pub write : ℕ → ℕ → Prog D (Unit {0})
  write a v d = done (tt, bus.store a v d)

  -- `reg |= mask` and `reg &= mask`.
  abbrev pub set_bits : ℕ → ℕ → Prog D (Unit {0})
  set_bits a mask = do v ← read a; write a (bit_or v mask)

  abbrev pub keep_bits : ℕ → ℕ → Prog D (Unit {0})
  keep_bits a mask = do v ← read a; write a (bit_and v mask)

  -- `while (!test(reg));`, with fuel for the loads; the value that passes is returned.
  unfoldable pub spin_until : ℕ → (ℕ → Bool) → ℕ → Prog D ℕ
  spin_until a test zero d = spinning
  spin_until a test (suc fuel) d =
      let (v, d') = bus.load a d in
      elim (test v) [ true ↦ done (v, d') | false ↦ spin_until a test fuel d' ]

-- Registers that hold what was written: memory, and the control registers of a device.
abbrev pub update : (ℕ → ℕ) → ℕ → ℕ → ℕ → ℕ
update m a v x = if x == a then v else m x

abbrev pub ram : Bus (ℕ → ℕ)
ram = record { load = λ a m. (m a, m); store = λ a v m. update m a (u32 v) }
