-- ===== src/Gpio/Pins.antt =====
-- Direction and level of the pins.
use rep_vgg_acc.Base.{
  ℕ, ◌+◌, ◌<◌, ◌≡◌, ◌≢◌, inl, inr, refl, some, ◌==◌, if◌then◌else◌, Bool-cases, arith, u32, bit_or,
}
use rep_vgg_acc.Bits.{bit}
use rep_vgg_acc.Bits.Word32.{IsWord, bit-set, bit-clear, toggle_twice}
use rep_vgg_acc.Machine.Memory.{update_self, update_ne, update_back}
use rep_vgg_acc.Machine.{Returns, ram, ◌>>=◌}
use rep_vgg_acc.Gpio.{
  gpio_enable_output, gpio_enable_input, gpio_write, gpio_toggle, paddir, padout, offset,
}

-- `gpio_write` on a port whose registers hold what is written: each pin selected by the mask gets
-- the level, 0 for the value 0 and 1 for any other; the other pins and registers keep theirs.
gpio_write-bit :
    (p mask value i : ℕ) (m : ℕ → ℕ)
    → IsWord mask
    → i < 32
    → Returns (gpio_write ram (some p) mask value m) λ r m'.
      (r ≡ 0)
      × (bit (m' (p + offset padout)) i ≡ (
          if bit mask i == 0 then bit (m (p + offset padout)) i else if value == 0 then 0 else 1))
      × ((a : ℕ) → a ≢ p + offset padout → m' a ≡ m a)
unfolding gpio_write
gpio_write-bit p mask value i m hm hi = elim (Bool-cases (value == 0)) [
  | inl low ↦
      rw low
        (refl, rw update_self (bit-clear (m (p + 8)) mask i hm hi), λ a ne. update_ne m _ _ a ne)
  | inr high ↦
      rw high (refl, rw update_self (bit-set (m (p + 8)) mask i hi), λ a ne. update_ne m _ _ a ne)
]

-- The pins of `outs` are made outputs and then those of `ins` inputs: a pin in `ins` is an input,
-- another pin in `outs` an output, and any other pin keeps its direction.
gpio_enable_input-enable_output :
    (p outs ins i : ℕ) (m : ℕ → ℕ)
    → IsWord ins
    → i < 32
    → Returns
        ((gpio_enable_output ram (some p) outs >>= λ _. gpio_enable_input ram (some p) ins) m)
        λ r m'.
          (r ≡ 0)
          × (bit (m' (p + offset paddir)) i ≡ (
              if bit ins i == 0
              then (if bit outs i == 0 then bit (m (p + offset paddir)) i else 1)
              else 0))
          × ((a : ℕ) → a ≢ p + offset paddir → m' a ≡ m a)
unfolding gpio_enable_output gpio_enable_input
gpio_enable_input-enable_output p outs ins i m h hi = (
  refl,
  rw (update_self, update_self)
      (rw (bit-clear (u32 (bit_or (m (p + 0)) outs)) ins i h hi, bit-set (m (p + 0)) outs i hi)
        refl),
  λ a ne. ground arith,
)

-- Toggling the same pins twice gives the port back.
gpio_toggle-toggle :
    (p mask : ℕ) (m : ℕ → ℕ)
    → ((a : ℕ) → IsWord (m a))
    → Returns
        ((gpio_toggle ram (some p) mask >>= λ _. gpio_toggle ram (some p) mask) m)
        λ r m'. (r ≡ 0) × ((a : ℕ) → m' a ≡ m a)
unfolding gpio_toggle
gpio_toggle-toggle p mask m hw = (
  refl,
  λ a. update_back m (p + 8) _ _ a (rw update_self (toggle_twice mask (m (p + 8)) (hw (p + 8)))),
)
