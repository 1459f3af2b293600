-- ===== src/Spi/Setup.antt =====
-- The threshold field of the SPI driver.
use rep_vgg_acc.Base.{
  ℕ, zero, suc, ◌+◌, ◌/◌, ◌≤◌, ◌<◌, ◌≡◌, ◌≢◌, refl, some, u32, bit_and, bit_or, not32, ltb,
  if◌then◌else◌, arith,
}
use rep_vgg_acc.Bits.{bit}
use rep_vgg_acc.Bits.Law.{bit-or, bit-lt}
use rep_vgg_acc.Bits.Word32.{bit-u32, bit-clear}
use rep_vgg_acc.Machine.{Returns, ram}
use rep_vgg_acc.Spi.{offset, intcfg, clipped, spi_set_tx_th}

bit-zero : (i : ℕ) → bit 0 i ≡ 0
unfolding bit
bit-zero zero = refl
bit-zero (suc i) = bit-zero i

-- A number below 32 has no bits from bit 5 on.
bit-high : (w i : ℕ) → w < 32 → 5 ≤ i → bit w i ≡ 0
unfolding bit
bit-high w zero h p = absurd (omega arith)
bit-high w (suc zero) h p = absurd (omega arith)
bit-high w (suc (suc zero)) h p = absurd (omega arith)
bit-high w (suc (suc (suc zero))) h p = absurd (omega arith)
bit-high w (suc (suc (suc (suc zero)))) h p = absurd (omega arith)
bit-high w (suc (suc (suc (suc (suc i))))) h p =
    let none_left : w / 2 / 2 / 2 / 2 / 2 ≡ 0 = omega arith in rw none_left (bit-zero i)

bit-low : (i : ℕ) → i < 5 → bit 31 i ≡ 1
unfolding bit
bit-low zero h = refl
bit-low (suc zero) h = refl
bit-low (suc (suc zero)) h = refl
bit-low (suc (suc (suc zero))) h = refl
bit-low (suc (suc (suc (suc zero)))) h = refl
bit-low (suc (suc (suc (suc (suc i))))) h = absurd (omega arith)

clipped-lt : (th : ℕ) → clipped th < 32
clipped-lt th = ground arith

-- `spi_set_tx_th` on registers that hold what is written: the low five bits of INTCFG become the
-- threshold, or 31 when it is larger, and neither the other bits nor the other registers change.
spi_set_tx_th-bit :
    (p th i : ℕ) (m : ℕ → ℕ)
    → i < 32
    → Returns (spi_set_tx_th ram (some p) th m) λ r m'.
      (r ≡ 0)
      × (bit (m' (p + offset intcfg)) i
          ≡ (if ltb i 5 then bit (clipped th) i else bit (m (p + offset intcfg)) i))
      × ((a : ℕ) → a ≢ p + offset intcfg → m' a ≡ m a)
unfolding spi_set_tx_th
spi_set_tx_th-bit p th i m h =
    let old : ℕ = m (p + 36) in
    let kept : ℕ = u32 (bit_and old (not32 31)) in
    let cleared = bit-clear old 31 i (omega arith) h in
    let field : bit (u32 (bit_or kept (clipped th))) i
        ≡ (if ltb i 5 then bit (clipped th) i else bit old i) =
      ground (
        arith,
        cleared,
        bit-u32 (bit_or kept (clipped th)) i h,
        bit-or kept (clipped th) i,
        bit-low i,
        bit-high 31 i,
        bit-high (clipped th) i (clipped-lt th),
        bit-lt (clipped th) i,
      ) in
    (refl, ground (arith, field), λ a ne. ground arith)
