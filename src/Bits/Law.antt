-- ===== src/Bits/Law.antt =====
-- The bit laws, at every width.
use native.Mathlib.Nat.{pow-suc, one-le-pow, mod-lt, mod-eq_of_lt, div-add-mod'}
use rep_vgg_acc.Base.{
  ℕ, zero, suc, ◌+◌, ◌-◌, ◌*◌, ◌/◌, ◌%◌, ◌^◌, ◌≤◌, ◌<◌, min, max, bit_and, bit_or, bit_xor, ◌≡◌,
  arith, ap, ◌∙◌,
}
use rep_vgg_acc.Bits.{bit}
use rep_vgg_acc.Bits.Step.{bit_or_step, bit_and_step, bit_xor_step, zero-bit_and}

pub bit-lt : (w i : ℕ) → bit w i < 2
unfolding bit
bit-lt w zero = omega arith
bit-lt w (suc i) = bit-lt (w / 2) i

pub bit-or : (a b i : ℕ) → bit (bit_or a b) i ≡ max (bit a i) (bit b i)
unfolding bit
bit-or a b zero = omega (arith, bit_or_step a b)
bit-or a b (suc i) =
    let half : bit_or a b / 2 ≡ bit_or (a / 2) (b / 2) = omega (arith, bit_or_step a b) in
    rw half (bit-or (a / 2) (b / 2) i)

pub bit-and : (a b i : ℕ) → bit (bit_and a b) i ≡ min (bit a i) (bit b i)
unfolding bit
bit-and a b zero = omega (arith, bit_and_step a b)
bit-and a b (suc i) =
    let half : bit_and a b / 2 ≡ bit_and (a / 2) (b / 2) = omega (arith, bit_and_step a b) in
    rw half (bit-and (a / 2) (b / 2) i)

pub bit-xor : (a b i : ℕ) → bit (bit_xor a b) i ≡ (bit a i + bit b i) % 2
unfolding bit
bit-xor a b zero = omega (arith, bit_xor_step a b)
bit-xor a b (suc i) =
    let half : bit_xor a b / 2 ≡ bit_xor (a / 2) (b / 2) = omega (arith, bit_xor_step a b) in
    rw half (bit-xor (a / 2) (b / 2) i)

-- The complement within `n` bits flips each of them.
pub bit-not : (n w i : ℕ) → w < 2 ^ n → i < n → bit (2 ^ n - 1 - w) i ≡ 1 - bit w i
unfolding bit
bit-not zero w i h p = absurd (omega arith)
bit-not (suc n) w zero h p = omega (arith, pow-suc 2 n)
bit-not (suc n) w (suc i) h p =
    let half : (2 ^ suc n - 1 - w) / 2 ≡ 2 ^ n - 1 - w / 2 = omega (arith, pow-suc 2 n) in
    rw half (bit-not n (w / 2) i (omega (arith, pow-suc 2 n)) (omega arith))

-- Two words of `n` bits that agree in each bit are equal.
pub bit_ext : (n a b : ℕ) → a < 2 ^ n → b < 2 ^ n → ((i : ℕ) → i < n → bit a i ≡ bit b i) → a ≡ b
unfolding bit
bit_ext zero a b p q h = omega arith
bit_ext (suc n) a b p q h =
    let halves : a / 2 ≡ b / 2 =
      bit_ext n (a / 2) (b / 2) (omega (arith, pow-suc 2 n)) (omega (arith, pow-suc 2 n))
        (λ i k. h (suc i) (omega arith)) in
    let low : a % 2 ≡ b % 2 = h 0 (omega arith) in omega arith

pub or-lt : (n a b : ℕ) → a < 2 ^ n → b < 2 ^ n → bit_or a b < 2 ^ n
or-lt zero a b p q =
    let a0 : a ≡ 0 = omega arith in let b0 : b ≡ 0 = omega arith in rw (a0, b0) (omega arith)
or-lt (suc n) a b p q = omega (
  arith,
  pow-suc 2 n,
  bit_or_step a b,
  or-lt n (a / 2) (b / 2) (omega (arith, pow-suc 2 n)) (omega (arith, pow-suc 2 n)),
)

pub xor-lt : (n a b : ℕ) → a < 2 ^ n → b < 2 ^ n → bit_xor a b < 2 ^ n
xor-lt zero a b p q =
    let a0 : a ≡ 0 = omega arith in let b0 : b ≡ 0 = omega arith in rw (a0, b0) (omega arith)
xor-lt (suc n) a b p q = omega (
  arith,
  pow-suc 2 n,
  bit_xor_step a b,
  xor-lt n (a / 2) (b / 2) (omega (arith, pow-suc 2 n)) (omega (arith, pow-suc 2 n)),
)

pub and-le : (n a b : ℕ) → a < 2 ^ n → bit_and a b ≤ a
and-le zero a b p = let a0 : a ≡ 0 = omega arith in rw a0 (simp zero-bit_and (omega arith))
and-le (suc n) a b p =
    omega (arith, bit_and_step a b, and-le n (a / 2) (b / 2) (omega (arith, pow-suc 2 n)))

mod_unique : (q r m : ℕ) → r < m → (q * m + r) % m ≡ r
mod_unique q r m h = grind (arith, mod-eq_of_lt)

-- The remainder by `2 ^ suc n`, a binary digit at a time.
mod-two-pow : (n x : ℕ) → x % 2 ^ suc n ≡ 2 * ((x / 2) % 2 ^ n) + x % 2
mod-two-pow n x =
    let low : ℕ = (x / 2) % 2 ^ n in
    let high : ℕ = x / 2 / 2 ^ n in
    let bound : low < 2 ^ n = mod-lt (x / 2) (one-le-pow n 2 (omega arith)) in
    let split : x ≡ high * 2 ^ suc n + (2 * low + x % 2) =
      omega (
        arith,
        pow-suc 2 n,
        div-add-mod' (x / 2) (2 ^ n),
        ap (λ (t : ℕ). high * t) (pow-suc 2 n),
      ) in
    ap (λ t. t % 2 ^ suc n) split
    ∙ mod_unique high (2 * low + x % 2) (2 ^ suc n) (omega (arith, pow-suc 2 n))

pub bit-mod : (n w i : ℕ) → i < n → bit (w % 2 ^ n) i ≡ bit w i
unfolding bit
bit-mod zero w i p = absurd (omega arith)
bit-mod (suc n) w zero p = omega (arith, mod-two-pow n w)
bit-mod (suc n) w (suc i) p =
    let half : w % 2 ^ suc n / 2 ≡ (w / 2) % 2 ^ n = omega (arith, mod-two-pow n w) in
    rw half (bit-mod n (w / 2) i (omega arith))

and-zero_below : (n a : ℕ) → a < n → bit_and a 0 ≡ 0
and-zero_below zero a h = absurd (omega arith)
and-zero_below (suc n) zero h = zero-bit_and 0
and-zero_below (suc n) (suc a) h =
    omega (arith, bit_and_step (suc a) 0, and-zero_below n (suc a / 2) (omega arith))

and-zero : (a : ℕ) → bit_and a 0 ≡ 0
and-zero a = and-zero_below (suc a) a (omega arith)

-- A mask of `k` low bits is the remainder by `2 ^ k`.
pub and_mask : (k a : ℕ) → bit_and a (2 ^ k - 1) ≡ a % 2 ^ k
and_mask zero a = rw and-zero (omega arith)
and_mask (suc k) a =
    let half : (2 ^ suc k - 1) / 2 ≡ 2 ^ k - 1 = omega (arith, pow-suc 2 k) in
    let odd : (2 ^ suc k - 1) % 2 ≡ 1 = omega (arith, pow-suc 2 k, one-le-pow k 2 (omega arith)) in
    rw (bit_and_step a (2 ^ suc k - 1), half, odd, and_mask k (a / 2), mod-two-pow k a)
      (omega arith)

-- A mask of one bit selects it.
pub and_one_bit : (k a : ℕ) → bit_and a (2 ^ k) ≡ 2 ^ k * bit a k
unfolding bit
and_one_bit zero a = omega (arith, and_mask 1 a)
and_one_bit (suc k) a =
    let half : 2 ^ suc k / 2 ≡ 2 ^ k = omega (arith, pow-suc 2 k) in
    let even : 2 ^ suc k % 2 ≡ 0 = omega (arith, pow-suc 2 k) in
    rw (bit_and_step a (2 ^ suc k), half, even, and_one_bit k (a / 2), pow-suc 2 k) (omega arith)
