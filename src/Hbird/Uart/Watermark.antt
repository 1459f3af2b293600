-- ===== src/Hbird/Uart/Watermark.antt =====
-- The fields of TXCTRL and RXCTRL: what `&=` with the new value does to them.
use rep_vgg_acc.Base.{
  ℕ, ◌+◌, ◌-◌, ◌<◌, ◌≡◌, ◌≢◌, ◌&&◌, refl, some, u32, min, bit_and, bit_or, not32, ltb, leb,
  if◌then◌else◌, ◌<<<◌, arith,
}
use rep_vgg_acc.Bits.{bit}
use rep_vgg_acc.Bits.Law.{bit-and, bit-or, bit-not, bit-lt}
use rep_vgg_acc.Bits.Field.{bit-zero, bit-shift, bit-ones}
use rep_vgg_acc.Bits.Word32.{bit-u32}
use rep_vgg_acc.Machine.{Returns, ram}
use rep_vgg_acc.Uart.{UartStopBit, stop_code, uart_stop_bit_1, uart_stop_bit_2}
use rep_vgg_acc.Hbird.Uart.{
  offset, txctrl, rxctrl, uart_config_stopbit, uart_set_tx_watermark, uart_set_rx_watermark,
}

-- The mask of the watermark, bits 16 to 18.
bit-txcnt_mask : (i : ℕ) → bit 0x7_0000 i ≡ (if leb 16 i && ltb i 19 then 1 else 0)
bit-txcnt_mask i = ground (arith, bit-shift 16 7 i, bit-ones 3 (i - 16))

-- What is left of a control register after `reg &= v & mask | ~mask`.
masked :
    (old v i : ℕ)
    → i < 32
    → bit (u32 (bit_and old (bit_or (bit_and v 0x7_0000) (not32 0x7_0000)))) i
      ≡ (if leb 16 i && ltb i 19 then min (bit old i) (bit v i) else bit old i)
masked old v i h = ground (
  arith,
  bit-u32 (bit_and old (bit_or (bit_and v 0x7_0000) (not32 0x7_0000))) i h,
  bit-and old (bit_or (bit_and v 0x7_0000) (not32 0x7_0000)) i,
  bit-or (bit_and v 0x7_0000) (not32 0x7_0000) i,
  bit-and v 0x7_0000 i,
  bit-not 32 0x7_0000 i (omega arith) h,
  bit-txcnt_mask i,
  bit-lt old i,
  bit-lt v i,
)

-- The level that a control register has after a watermark was set, bit by bit: in the field the old
-- bit and the bit of the level, so a bit that was 0 stays 0; elsewhere the old bit.
abbrev pub Lowered : ℕ → ℕ → ℕ → ℕ → Type 0
Lowered level old new i =
    bit new i ≡ (if leb 16 i && ltb i 19 then min (bit old i) (bit level (i - 16)) else bit old i)

shifted :
    (level old i : ℕ)
    → i < 32
    → Lowered level old
        (u32 (bit_and old (bit_or (bit_and (u32 (level <<< 16)) 0x7_0000) (not32 0x7_0000))))
        i
shifted level old i h =
    ground
      (arith, masked old (u32 (level <<< 16)) i h, bit-u32 (level <<< 16) i h, bit-shift 16 level i)

-- `uart_set_tx_watermark` and `uart_set_rx_watermark` on registers that hold what is written: they
-- return 0, and can only lower the watermark: in its field, bits 16 to 18, each bit becomes the old bit
-- and the bit of the new level. No other bit and no other register changes.
pub uart_set_watermark-Lowered :
    (p level i : ℕ) (m : ℕ → ℕ)
    → i < 32
    → Returns (uart_set_tx_watermark ram (some p) level m) (λ r m'.
      (r ≡ 0)
      × Lowered level (m (p + offset txctrl)) (m' (p + offset txctrl)) i
      × ((a : ℕ) → a ≢ p + offset txctrl → m' a ≡ m a))
      × Returns (uart_set_rx_watermark ram (some p) level m) (λ r m'.
        (r ≡ 0)
        × Lowered level (m (p + offset rxctrl)) (m' (p + offset rxctrl)) i
        × ((a : ℕ) → a ≢ p + offset rxctrl → m' a ≡ m a))
unfolding uart_set_tx_watermark uart_set_rx_watermark
uart_set_watermark-Lowered p level i m h = (
  (refl, ground (arith, shifted level (m (p + 8)) i h), λ a ne. ground arith),
  (refl, ground (arith, shifted level (m (p + 12)) i h), λ a ne. ground arith),
)

stopval_zero : (stopbit : UartStopBit) → bit_and (stop_code stopbit <<< 1) 0x7_0000 ≡ 0
stopval_zero uart_stop_bit_1 = refl
stopval_zero uart_stop_bit_2 = refl

-- `uart_config_stopbit` on registers that hold what is written: for either number of stop bits it clears
-- the watermark, bits 16 to 18 of TXCTRL, and changes nothing else, so also not the stop bit, bit 1.
uart_config_stopbit-bit :
    (p i : ℕ) (stopbit : UartStopBit) (m : ℕ → ℕ)
    → i < 32
    → Returns (uart_config_stopbit ram (some p) stopbit m) λ r m'.
      (r ≡ 0)
      × (bit (m' (p + offset txctrl)) i
          ≡ (if leb 16 i && ltb i 19 then 0 else bit (m (p + offset txctrl)) i))
      × ((a : ℕ) → a ≢ p + offset txctrl → m' a ≡ m a)
unfolding uart_config_stopbit
uart_config_stopbit-bit p i stopbit m h =
    rw (stopval_zero stopbit)
      (refl, ground (arith, masked (m (p + 8)) 0 i h, bit-zero i), λ a ne. ground arith)
