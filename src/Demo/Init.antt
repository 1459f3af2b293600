-- ===== src/Demo/Init.antt =====
-- The pins after `board_gpio_init`.
use rep_vgg_acc.Base.{ℕ, ◌+◌, ◌<◌, ◌≡◌, ◌≢◌, some, u32, bit_and, not32, ◌==◌, if◌then◌else◌, arith}
use rep_vgg_acc.Bits.{bit}
use rep_vgg_acc.Bits.Word32.{bit-set, bit-clear}
use rep_vgg_acc.Machine.{Returns, ram}
use rep_vgg_acc.Gpio.{
  offset, paddir, padout, inten, inttype0, inttype1, gpio_enable_input, gpio_enable_output,
  gpio_write, gpio_enable_interrupt,
}
use rep_vgg_acc.Demo.{soc_button_gpio_mask, soc_led_gpio_mask, board_gpio_init}

-- `v` for the pins of the mask, and the bit from before for the other pins.
abbrev pub masked : ℕ → ℕ → ℕ → ℕ → ℕ
masked mask i old v = if bit mask i == 0 then bit old i else v

-- `board_gpio_init` on a port whose registers hold what is written: the buttons are inputs that raise an
-- interrupt at a rising edge, the LEDs are outputs and off, every other pin keeps its direction, level
-- and interrupt, and no other register changes.
board_gpio_init-pins :
    (p i : ℕ) (m : ℕ → ℕ)
    → i < 32
    → Returns (board_gpio_init ram (some p) m) λ r m'.
      (bit (m' (p + offset paddir)) i ≡ (
        if bit soc_led_gpio_mask i == 0
        then masked soc_button_gpio_mask i (m (p + offset paddir)) 0
        else 1))
      × (bit (m' (p + offset padout)) i ≡ masked soc_led_gpio_mask i (m (p + offset padout)) 0)
      × (bit (m' (p + offset inten)) i ≡ masked soc_button_gpio_mask i (m (p + offset inten)) 1)
      × (bit (m' (p + offset inttype0)) i
          ≡ masked soc_button_gpio_mask i (m (p + offset inttype0)) 0)
      × (bit (m' (p + offset inttype1)) i
          ≡ masked soc_button_gpio_mask i (m (p + offset inttype1)) 1)
      × ((a : ℕ)
          → a ≢ p + offset paddir
          → a ≢ p + offset padout
          → a ≢ p + offset inten
          → a ≢ p + offset inttype0
          → a ≢ p + offset inttype1
          → m' a ≡ m a)
unfolding board_gpio_init gpio_enable_input gpio_enable_output gpio_write gpio_enable_interrupt
board_gpio_init-pins p i m h =
    let inputs : ℕ = u32 (bit_and (m (p + 0)) (not32 soc_button_gpio_mask)) in
    (
      ground (
        arith,
        bit-set inputs soc_led_gpio_mask i h,
        bit-clear (m (p + 0)) soc_button_gpio_mask i (omega arith) h,
      ),
      ground (arith, bit-clear (m (p + 8)) soc_led_gpio_mask i (omega arith) h),
      ground (arith, bit-set (m (p + 12)) soc_button_gpio_mask i h),
      ground (arith, bit-clear (m (p + 16)) soc_button_gpio_mask i (omega arith) h),
      ground (arith, bit-set (m (p + 20)) soc_button_gpio_mask i h),
      λ a n0 n8 n12 n16 n20. ground arith,
    )
