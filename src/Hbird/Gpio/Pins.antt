-- ===== src/Hbird/Gpio/Pins.antt =====
-- Directions, functions and pulls of the pins.
use rep_vgg_acc.Base.{
  ℕ, ◌+◌, ◌<◌, ◌≡◌, ◌≢◌, refl, some, min, bit_and, bit_or, u32, not32, ◌==◌, if◌then◌else◌, arith,
}
use rep_vgg_acc.Bits.{bit}
use rep_vgg_acc.Bits.Law.{bit-and}
use rep_vgg_acc.Bits.Word32.{IsWord, bit-set, bit-clear}
use rep_vgg_acc.Machine.{Returns, ram, ◌>>=◌}
use rep_vgg_acc.Hbird.Gpio.{
  offset, input_en, output_en, pullup_en, iof_en, iof_sel, IofFunc, iof_sel_gpio, iof_sel_0,
  iof_sel_1, gpio_enable_output, gpio_enable_input, gpio_iof_config, gpio_set_pue,
}

-- The pins of `outs` are made outputs and then those of `ins` inputs: a pin in `ins` has its input on and
-- its output off, another pin in `outs` the other way round, and any other pin keeps both bits. No other
-- register changes.
gpio_enable_input-enable_output :
    (p outs ins i : ℕ) (m : ℕ → ℕ)
    → IsWord outs
    → IsWord ins
    → i < 32
    → Returns
        ((gpio_enable_output ram (some p) outs >>= λ _. gpio_enable_input ram (some p) ins) m)
        λ r m'.
          (r ≡ 0)
          × (bit (m' (p + offset input_en)) i ≡ (
              if bit ins i == 0
              then (if bit outs i == 0 then bit (m (p + offset input_en)) i else 0)
              else 1))
          × (bit (m' (p + offset output_en)) i ≡ (
              if bit ins i == 0
              then (if bit outs i == 0 then bit (m (p + offset output_en)) i else 1)
              else 0))
          × ((a : ℕ) → a ≢ p + offset input_en → a ≢ p + offset output_en → m' a ≡ m a)
unfolding gpio_enable_output gpio_enable_input
gpio_enable_input-enable_output p outs ins i m ho hi h =
    let inputs : ℕ = u32 (bit_and (m (p + 4)) (not32 outs)) in
    let outputs : ℕ = u32 (bit_or (m (p + 8)) outs) in
    (
      refl,
      ground (arith, bit-clear (m (p + 4)) outs i ho h, bit-set inputs ins i h),
      ground (arith, bit-set (m (p + 8)) outs i h, bit-clear outputs ins i hi h),
      λ a ni no. ground arith,
    )

-- The two IOF bits of a pin that is given a function: whether it leaves the GPIO port, and which of the
-- two functions it has then. `sel` is the bit from before.
abbrev en_bit : IofFunc → ℕ
en_bit iof_sel_gpio = 0
en_bit iof_sel_0 = 1
en_bit iof_sel_1 = 1

abbrev sel_bit : IofFunc → ℕ → ℕ
sel_bit iof_sel_gpio sel = sel
sel_bit iof_sel_0 sel = 0
sel_bit iof_sel_1 sel = 1

-- `gpio_iof_config` gives each pin of the mask the two bits of the function asked for. Every other pin
-- keeps its bits, and all registers but IOF_EN and IOF_SEL are kept.
gpio_iof_config-bit :
    (p mask i : ℕ) (func : IofFunc) (m : ℕ → ℕ)
    → IsWord mask
    → i < 32
    → Returns (gpio_iof_config ram (some p) mask func m) λ r m'.
      (r ≡ 0)
      × (bit (m' (p + offset iof_en)) i
          ≡ (if bit mask i == 0 then bit (m (p + offset iof_en)) i else en_bit func))
      × (bit (m' (p + offset iof_sel)) i ≡ (
          if bit mask i == 0
          then bit (m (p + offset iof_sel)) i
          else sel_bit func (bit (m (p + offset iof_sel)) i)))
      × ((a : ℕ) → a ≢ p + offset iof_en → a ≢ p + offset iof_sel → m' a ≡ m a)
unfolding gpio_iof_config
gpio_iof_config-bit p mask i iof_sel_gpio m hm h = (
  refl,
  ground (arith, bit-clear (m (p + 56)) mask i hm h),
  ground arith,
  λ a n1 n2. ground arith,
)
gpio_iof_config-bit p mask i iof_sel_0 m hm h = (
  refl,
  ground (arith, bit-set (m (p + 56)) mask i h),
  ground (arith, bit-clear (m (p + 60)) mask i hm h),
  λ a n1 n2. ground arith,
)
gpio_iof_config-bit p mask i iof_sel_1 m hm h = (
  refl,
  ground (arith, bit-set (m (p + 56)) mask i h),
  ground (arith, bit-set (m (p + 60)) mask i h),
  λ a n1 n2. ground arith,
)

-- `gpio_set_pue` can only switch pull-ups on: a pin keeps its pull-up unless both the mask and the value
-- have its bit, and then it gets one.
gpio_set_pue-bit :
    (p mask value i : ℕ) (m : ℕ → ℕ)
    → i < 32
    → Returns (gpio_set_pue ram (some p) mask value m) λ r m'.
      (r ≡ 0)
      × (bit (m' (p + offset pullup_en)) i
          ≡ (if min (bit mask i) (bit value i) == 0 then bit (m (p + offset pullup_en)) i else 1))
      × ((a : ℕ) → a ≢ p + offset pullup_en → m' a ≡ m a)
unfolding gpio_set_pue
gpio_set_pue-bit p mask value i m h = (
  refl,
  ground (arith, bit-set (m (p + 16)) (bit_and mask value) i h, bit-and mask value i),
  λ a ne. ground arith,
)
