-- ===== src/Gpio/Interrupt.antt =====
-- Which event of a pin raises an interrupt.
use rep_vgg_acc.Base.{ℕ, ◌+◌, ◌<◌, ◌≡◌, ◌≢◌, refl, some, ◌==◌, if◌then◌else◌, arith}
use rep_vgg_acc.Bits.{bit}
use rep_vgg_acc.Bits.Word32.{IsWord, bit-set, bit-clear}
use rep_vgg_acc.Machine.{Returns, ram}
use rep_vgg_acc.Gpio.{
  gpio_enable_interrupt, GpioIntType, gpio_int_rise, gpio_int_fall, gpio_int_high, gpio_int_low,
  inten, inttype0, inttype1, offset,
}

-- The two type bits of a pin: INTTYPE1 tells an edge from a level, INTTYPE0 the polarity.
abbrev pub edge_bit : GpioIntType → ℕ
edge_bit gpio_int_rise = 1
edge_bit gpio_int_fall = 1
edge_bit gpio_int_high = 0
edge_bit gpio_int_low = 0

abbrev pub falling_bit : GpioIntType → ℕ
falling_bit gpio_int_rise = 0
falling_bit gpio_int_fall = 1
falling_bit gpio_int_high = 0
falling_bit gpio_int_low = 1

-- What the type registers hold for pin `i` when only the pins of `mask` are changed.
abbrev pub Selected : ℕ → ℕ → ℕ → (ℕ → ℕ) → (ℕ → ℕ) → ℕ → Type 0
Selected mask i a m m' v = bit (m' a) i ≡ (if bit mask i == 0 then bit (m a) i else v)

-- `gpio_enable_interrupt` on a port whose registers hold what is written: each pin of the mask is
-- enabled and gets the two type bits of the event, every other pin keeps its three bits, and no
-- register but INTEN, INTTYPE0 and INTTYPE1 changes.
pub gpio_enable_interrupt-Selected :
    (p mask i : ℕ) (type : GpioIntType) (m : ℕ → ℕ)
    → IsWord mask
    → i < 32
    → Returns (gpio_enable_interrupt ram (some p) mask type m) λ r m'.
      (r ≡ 0)
      × Selected mask i (p + offset inten) m m' 1
      × Selected mask i (p + offset inttype0) m m' (falling_bit type)
      × Selected mask i (p + offset inttype1) m m' (edge_bit type)
      × ((a : ℕ)
          → a ≢ p + offset inten
          → a ≢ p + offset inttype0
          → a ≢ p + offset inttype1
          → m' a ≡ m a)
unfolding gpio_enable_interrupt
gpio_enable_interrupt-Selected p mask i gpio_int_rise m hm hi = (
  refl,
  ground (arith, bit-set (m (p + 12)) mask i hi),
  ground (arith, bit-clear (m (p + 16)) mask i hm hi),
  ground (arith, bit-set (m (p + 20)) mask i hi),
  λ a n12 n16 n20. ground arith,
)
gpio_enable_interrupt-Selected p mask i gpio_int_fall m hm hi = (
  refl,
  ground (arith, bit-set (m (p + 12)) mask i hi),
  ground (arith, bit-set (m (p + 16)) mask i hi),
  ground (arith, bit-set (m (p + 20)) mask i hi),
  λ a n12 n16 n20. ground arith,
)
gpio_enable_interrupt-Selected p mask i gpio_int_high m hm hi = (
  refl,
  ground (arith, bit-set (m (p + 12)) mask i hi),
  ground (arith, bit-clear (m (p + 16)) mask i hm hi),
  ground (arith, bit-clear (m (p + 20)) mask i hm hi),
  λ a n12 n16 n20. ground arith,
)
gpio_enable_interrupt-Selected p mask i gpio_int_low m hm hi = (
  refl,
  ground (arith, bit-set (m (p + 12)) mask i hi),
  ground (arith, bit-set (m (p + 16)) mask i hi),
  ground (arith, bit-clear (m (p + 20)) mask i hm hi),
  λ a n12 n16 n20. ground arith,
)
