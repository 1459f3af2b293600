-- ===== src/Demo/Examples.antt =====
-- The demo on GPIOA.
use rep_vgg_acc.Base.{ℕ, ◌+◌, ◌-◌, ◌≡◌, ◌≢◌, some, ◌==◌, if◌then◌else◌}
use rep_vgg_acc.Bits.{bit}
use rep_vgg_acc.Machine.{Returns}
use rep_vgg_acc.Gpio.Device.{port_bus}
use rep_vgg_acc.Gpio.{offset, padout, intstatus}
use rep_vgg_acc.Demo.{button_r, button_mask, led_ofs, plic_btn_handler}
use rep_vgg_acc.Demo.Press.{plic_btn_handler-led}

abbrev gpioa : ℕ
gpioa = 0x1001_2000

-- The right button is pressed.
abbrev pressed : ℕ → ℕ
pressed a = if a == gpioa + offset intstatus then 0x40 else 0x35

plic_btn_handler-led_example :
    Returns (plic_btn_handler (port_bus gpioa) (some gpioa) pressed) λ r m'.
      (bit (m' (gpioa + offset padout)) (led_ofs button_r) ≡ (
        if pressed (gpioa + offset intstatus) == button_mask button_r
        then 1 - bit (pressed (gpioa + offset padout)) (led_ofs button_r)
        else bit (pressed (gpioa + offset padout)) (led_ofs button_r)))
      × (m' (gpioa + offset intstatus) ≡ 0)
      × ((a : ℕ) → a ≢ gpioa + offset padout → a ≢ gpioa + offset intstatus → m' a ≡ pressed a)
plic_btn_handler-led_example = plic_btn_handler-led gpioa button_r pressed
