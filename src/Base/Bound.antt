-- ===== src/Base/Bound.antt =====
-- Integers of a bounded magnitude, and the wrap-around of signed wires.
use native.Mathlib.Nat.{mul-le-mul, mod-eq_of_lt}
use rep_vgg_acc.Base.{ℕ, ◌+◌, ◌-◌, ◌*◌, ◌%◌, ◌≤◌, ◌<◌, ◌≡◌, ap₂, ltb, if◌then◌else◌, arith}
use rep_vgg_acc.Base.Int.{ℤ, pos, negsuc, pos_part, neg_part, ◌+ℤ◌, ◌*ℤ◌, signed8, sub_ℕ}

-- The magnitude of an integer is at most `b`.
abbrev pub Within : ℕ → ℤ → Type 0
Within b a = (pos_part a ≤ b) × (neg_part a ≤ b)

pub signed8-Within : (w : ℕ) → w < 256 → Within 128 (signed8 w)
signed8-Within w h = ground arith

pub mul-Within : (a b : ℤ) → Within 128 a → Within 128 b → Within 16384 (a *ℤ b)
unfolding ◌*ℤ◌
mul-Within (pos x) (pos y) p q = ground (arith, mul-le-mul p.0 q.0)
mul-Within (pos x) (negsuc y) p q = ground (arith, mul-le-mul p.0 q.1)
mul-Within (negsuc x) (pos y) p q = ground (arith, mul-le-mul p.1 q.0)
mul-Within (negsuc x) (negsuc y) p q = ground (arith, mul-le-mul p.1 q.1)

pub add-Within : (x y : ℕ) (a b : ℤ) → Within x a → Within y b → Within (x + y) (a +ℤ b)
unfolding ◌+ℤ◌
add-Within x y a b p q = ground arith

-- What a signed wire keeps of a number, where its top bit has the weight `half`.
unfoldable pub wrap : ℕ → ℤ → ℤ
wrap half (pos n) =
    if ltb (n % (2 * half)) half
    then pos (n % (2 * half))
    else negsuc (2 * half - 1 - n % (2 * half))
wrap half (negsuc n) =
    if ltb (n % (2 * half)) half
    then negsuc (n % (2 * half))
    else pos (2 * half - 1 - n % (2 * half))

pub wrap-eq_self : (half b : ℕ) (a : ℤ) → b < half → Within b a → wrap half a ≡ a
unfolding wrap
wrap-eq_self half b (pos n) h p =
    let small : n % (2 * half) ≡ n = mod-eq_of_lt (omega arith) in rw small (ground arith)
wrap-eq_self half b (negsuc n) h p =
    let small : n % (2 * half) ≡ n = mod-eq_of_lt (omega arith) in rw small (ground arith)

pub *ℤ_comm : (a b : ℤ) → a *ℤ b ≡ b *ℤ a
unfolding ◌*ℤ◌
*ℤ_comm a b = ap₂ sub_ℕ (omega arith) (omega arith)

-- Two integers with the same difference of their parts are equal.
pub parts_ext : (a b : ℤ) → pos_part a + neg_part b ≡ pos_part b + neg_part a → a ≡ b
parts_ext a b e = ground arith
