-- ===== src/Bits/Field.antt =====
-- The bits of shifted words and of masks of neighbouring bits: the fields of a register.
use native.Mathlib.Nat.{pow-suc, one-le-pow, mul_assoc}
use rep_vgg_acc.Base.{
  ℕ, zero, suc, ◌-◌, ◌*◌, ◌/◌, ◌^◌, ◌≤◌, ◌<◌, ◌≡◌, ◌∙◌, refl, sym, ltb, if◌then◌else◌, arith,
}
use rep_vgg_acc.Bits.{bit}

pub bit-zero : (i : ℕ) → bit 0 i ≡ 0
unfolding bit
bit-zero zero = refl
bit-zero (suc i) = bit-zero i

-- A number of `k` bits has no bit from `k` on.
pub bit-high : (k w i : ℕ) → w < 2 ^ k → k ≤ i → bit w i ≡ 0
unfolding bit
bit-high zero w i h p = let nothing : w ≡ 0 = omega arith in rw nothing (bit-zero i)
bit-high (suc k) w zero h p = absurd (omega arith)
bit-high (suc k) w (suc i) h p = bit-high k (w / 2) i (omega (arith, pow-suc 2 k)) (omega arith)

double : (k w : ℕ) → w * 2 ^ suc k ≡ w * 2 ^ k * 2
double k w = rw (pow-suc 2 k) (sym (mul_assoc w (2 ^ k) 2))

-- Shifting to the left by `k`.
pub bit-shift : (k w i : ℕ) → bit (w * 2 ^ k) i ≡ (if ltb i k then 0 else bit w (i - k))
unfolding bit
bit-shift zero w i =
    let same : w * 2 ^ 0 ≡ w = omega arith in
    let at : i - 0 ≡ i = omega arith in rw (same, at) (ground arith)
bit-shift (suc k) w zero = ground (arith, double k w)
bit-shift (suc k) w (suc i) =
    let half : w * 2 ^ suc k / 2 ≡ w * 2 ^ k = omega (arith, double k w) in
    rw half (bit-shift k w i ∙ ground arith)

-- The mask of the `k` low bits.
pub bit-ones : (k i : ℕ) → bit (2 ^ k - 1) i ≡ (if ltb i k then 1 else 0)
unfolding bit
bit-ones zero i = bit-zero i ∙ ground arith
bit-ones (suc k) zero = ground (arith, pow-suc 2 k, one-le-pow k 2 (omega arith))
bit-ones (suc k) (suc i) =
    let half : (2 ^ suc k - 1) / 2 ≡ 2 ^ k - 1 = omega (arith, pow-suc 2 k) in
    rw half (bit-ones k i ∙ ground arith)
