-- ===== src/Demo.antt =====
-- hbird-sdk/application/baremetal/demo_plic/main.c on the board of
-- hbird-sdk/SoC/hbirdv2/Board/ddr200t: a button toggles a LED. The printf calls are left out.
pub mod Init
pub mod Press
mod Examples
use rep_vgg_acc.Base.{ℕ, ◌^◌, Option, some, ◌==◌, if◌then◌else◌}
use rep_vgg_acc.Machine.{Bus, Prog, pure, ◌>>=◌, ◌>>◌}
use rep_vgg_acc.Gpio.{
  gpio_int_rise, gpio_enable_input, gpio_enable_output, gpio_write, gpio_toggle,
  gpio_enable_interrupt, gpio_clear_interrupt,
}

pub data Button : Type 0 where
  button_u button_d button_l button_r button_c : Button

-- SOC_BUTTON_U_GPIO_OFS and so on.
abbrev pub button_ofs : Button → ℕ
button_ofs button_u = 3
button_ofs button_d = 4
button_ofs button_l = 5
button_ofs button_r = 6
button_ofs button_c = 7

-- The offset of the LED that the handler toggles for a button, SOC_LED_0_GPIO_OFS and so on.
abbrev pub led_ofs : Button → ℕ
led_ofs button_u = 20
led_ofs button_d = 21
led_ofs button_l = 22
led_ofs button_r = 23
led_ofs button_c = 24

abbrev pub button_mask : Button → ℕ
button_mask b = 2 ^ button_ofs b

abbrev pub led_mask : Button → ℕ
led_mask b = 2 ^ led_ofs b

-- SOC_BUTTON_GPIO_MASK, and SOC_LED_GPIO_MASK with the sixth LED.
abbrev pub soc_button_gpio_mask : ℕ
soc_button_gpio_mask = 0xf8

abbrev pub soc_led_gpio_mask : ℕ
soc_led_gpio_mask = 0x3f0_0000

module _ {D : Type 0} (bus : Bus D) (gpioa : Option ℕ) where
  -- A case of the switch.
  pub toggle_led : Button → Prog D (Unit {0})
  toggle_led b = do r ← gpio_toggle bus gpioa (led_mask b); pure tt

  pub handle : ℕ → Prog D (Unit {0})
  unfolding toggle_led
  handle mask d =
      if mask == button_mask button_u
      then toggle_led button_u d
      else if mask == button_mask button_d
      then toggle_led button_d d
      else if mask == button_mask button_l
      then toggle_led button_l d
      else if mask == button_mask button_r
      then toggle_led button_r d
      else if mask == button_mask button_c
      then toggle_led button_c d
      else pure tt d

  pub plic_btn_handler : Prog D (Unit {0})
  unfolding handle
  plic_btn_handler = do mask ← gpio_clear_interrupt bus gpioa; handle mask

  pub board_gpio_init : Prog D ℕ
  board_gpio_init = do
    r1 ← gpio_enable_input bus gpioa soc_button_gpio_mask
    r2 ← gpio_enable_output bus gpioa soc_led_gpio_mask
    r3 ← gpio_write bus gpioa soc_led_gpio_mask 0x0
    gpio_enable_interrupt bus gpioa soc_button_gpio_mask gpio_int_rise
