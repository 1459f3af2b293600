-- ===== src/Bits/Word32.antt =====
-- Read-modify-write of a 32-bit register, bit by bit.
use rep_vgg_acc.Base.{
  ℕ, ◌-◌, ◌^◌, ◌<◌, bit_and, bit_or, bit_xor, ◌≡◌, u32, not32, ◌==◌, if◌then◌else◌, arith,
}
use rep_vgg_acc.Bits.{bit}
use rep_vgg_acc.Bits.Law.{bit-lt, bit-or, bit-and, bit-xor, bit-not, bit-mod, bit_ext}

abbrev pub IsWord : ℕ → Type 0
IsWord w = w < 2 ^ 32

pub bit-u32 : (w i : ℕ) → i < 32 → bit (u32 w) i ≡ bit w i
bit-u32 w i h = bit-mod 32 w i h

-- `reg |= mask`
pub bit-set :
    (w mask i : ℕ) → i < 32 → bit (u32 (bit_or w mask)) i ≡ (if bit mask i == 0 then bit w i else 1)
bit-set w mask i h =
    ground (arith, bit-u32 (bit_or w mask) i h, bit-or w mask i, bit-lt w i, bit-lt mask i)

-- `reg &= ~mask`
pub bit-clear :
    (w mask i : ℕ)
    → IsWord mask
    → i < 32
    → bit (u32 (bit_and w (not32 mask))) i ≡ (if bit mask i == 0 then bit w i else 0)
bit-clear w mask i hm h = ground (
  arith,
  bit-u32 (bit_and w (not32 mask)) i h,
  bit-and w (not32 mask) i,
  bit-not 32 mask i hm h,
  bit-lt w i,
  bit-lt mask i,
)

-- `reg = mask ^ reg`
pub bit-toggle :
    (mask w i : ℕ)
    → i < 32
    → bit (u32 (bit_xor mask w)) i ≡ (if bit mask i == 0 then bit w i else 1 - bit w i)
bit-toggle mask w i h =
    ground (arith, bit-u32 (bit_xor mask w) i h, bit-xor mask w i, bit-lt w i, bit-lt mask i)

-- Two registers that agree in each bit are equal.
pub word_ext : (a b : ℕ) → IsWord a → IsWord b → ((i : ℕ) → i < 32 → bit a i ≡ bit b i) → a ≡ b
word_ext a b p q h = bit_ext 32 a b p q h

pub toggle_twice : (mask w : ℕ) → IsWord w → u32 (bit_xor mask (u32 (bit_xor mask w))) ≡ w
toggle_twice mask w h =
    word_ext (u32 (bit_xor mask (u32 (bit_xor mask w)))) w (omega arith) h λ i hi.
      ground
        (arith, bit-toggle mask (u32 (bit_xor mask w)) i hi, bit-toggle mask w i hi, bit-lt w i)
