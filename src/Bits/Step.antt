-- ===== src/Bits/Step.antt =====
-- One equation for the lowest digit of each native bit operation: what is left of its definition
-- once the bound on the number of digits is seen not to matter.
use Prim.Native.Nat.{differ, digits, bitwise, bit_and-bitwise, bit_or-bitwise, bit_xor-bitwise}
use rep_vgg_acc.Base.{
  ℕ, zero, suc, ◌+◌, ◌-◌, ◌*◌, ◌/◌, ◌%◌, ◌≤◌, ◌<◌, min, max, bit_and, bit_or, bit_xor, ◌≡◌, refl,
  ◌∙◌, arith,
}

-- More rounds than the left word has digits change nothing.
enough :
    (left : ℕ → ℕ) (op : ℕ → ℕ → ℕ) (rounds x y : ℕ)
    → x ≤ rounds
    → digits left op (suc rounds) x y ≡ digits left op rounds x y
enough left op zero zero y fits = refl
enough left op zero (suc x) y fits = absurd (omega arith)
enough left op (suc rounds) zero y fits = refl
enough left op (suc rounds) (suc x) y fits =
    rw (enough left op rounds (suc x / 2) (y / 2) (omega arith)) refl

-- So the rounds may be as many more as one likes.
more :
    (left : ℕ → ℕ) (op : ℕ → ℕ → ℕ) (extra rounds x y : ℕ)
    → x ≤ rounds
    → digits left op (extra + rounds) x y ≡ digits left op rounds x y
more left op zero rounds x y fits = let same : 0 + rounds ≡ rounds = omega arith in rw same refl
more left op (suc extra) rounds x y fits =
    let next : suc extra + rounds ≡ suc (extra + rounds) = omega arith in
    rw next (enough left op (extra + rounds) x y (omega arith) ∙ more left op extra rounds x y fits)

at_least :
    (left : ℕ → ℕ) (op : ℕ → ℕ → ℕ) (most rounds x y : ℕ)
    → x ≤ rounds
    → rounds ≤ most
    → digits left op most x y ≡ digits left op rounds x y
at_least left op most rounds x y fits fewer =
    let same : most - rounds + rounds ≡ most = omega arith in
    rw (← same) (more left op (most - rounds) rounds x y fits)

module _ (left : ℕ → ℕ) (op : ℕ → ℕ → ℕ) where
  -- The law holds for a zero on the left if it does for the digits that are then left over.
  lowest :
      ((y : ℕ) → left y ≡ left (y / 2) * 2 + op 0 (y % 2))
      → (x y : ℕ) → bitwise left op x y ≡ bitwise left op (x / 2) (y / 2) * 2 + op (x % 2) (y % 2)
  lowest over zero y = over y
  lowest over (suc x) y =
      let rounds : digits left op x (suc x / 2) (y / 2) ≡ bitwise left op (suc x / 2) (y / 2) =
        at_least left op x (suc x / 2) (suc x / 2) (y / 2) (omega arith) (omega arith) in
      rw rounds refl

pub bit_or_step : (v w : ℕ) → bit_or v w ≡ bit_or (v / 2) (w / 2) * 2 + max (v % 2) (w % 2)
bit_or_step v w = simp bit_or-bitwise (lowest (λ y. y) max (λ y. omega arith) v w)

pub bit_and_step : (v w : ℕ) → bit_and v w ≡ bit_and (v / 2) (w / 2) * 2 + min (v % 2) (w % 2)
bit_and_step v w = simp bit_and-bitwise (lowest (λ y. 0) min (λ y. omega arith) v w)

pub zero-bit_and : (w : ℕ) → bit_and 0 w ≡ 0
zero-bit_and w = bit_and-bitwise 0 w

-- The digit that two digits differ in is the last one of their sum.
differ-parity : (x y : ℕ) → x < 2 → y < 2 → differ x y ≡ (x + y) % 2
differ-parity zero zero p q = refl
differ-parity zero (suc zero) p q = refl
differ-parity (suc zero) zero p q = refl
differ-parity (suc zero) (suc zero) p q = refl
differ-parity zero (suc (suc y)) p q = absurd (omega arith)
differ-parity (suc zero) (suc (suc y)) p q = absurd (omega arith)
differ-parity (suc (suc x)) y p q = absurd (omega arith)

pub bit_xor_step : (v w : ℕ) → bit_xor v w ≡ bit_xor (v / 2) (w / 2) * 2 + (v % 2 + w % 2) % 2
bit_xor_step v w =
    let digit = differ-parity (v % 2) (w % 2) (omega arith) (omega arith) in
    rw (← digit) (simp bit_xor-bitwise (lowest (λ y. y) differ (λ y. omega arith) v w))
