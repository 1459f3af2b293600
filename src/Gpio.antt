-- ===== src/Gpio.antt =====
-- hbird-sdk/SoC/hbirdv2/Common/Source/Drivers/hbirdv2_gpio.c: the pins of a port, and the
-- interrupts that they raise.
pub mod Pins
pub mod Interrupt
pub mod Device
mod Examples
use rep_vgg_acc.Base.{
  ℕ, ◌+◌, Option, minus_one, not32, bit_and, bit_or, bit_xor, ◌==◌, if◌then◌else◌,
}
use rep_vgg_acc.Machine.{
  Bus, Prog, pure, ◌>>=◌, ◌>>◌, read, write, set_bits, keep_bits, unless_null,
}

-- The fields of `GPIO_TypeDef`, and where they stand in it.
pub data Reg : Type 0 where
  paddir padin padout inten inttype0 inttype1 intstatus iofcfg : Reg

abbrev pub offset : Reg → ℕ
offset paddir = 0x00
offset padin = 0x04
offset padout = 0x08
offset inten = 0x0c
offset inttype0 = 0x10
offset inttype1 = 0x14
offset intstatus = 0x18
offset iofcfg = 0x1c

pub data GpioIntType : Type 0 where
  gpio_int_rise gpio_int_fall gpio_int_high gpio_int_low : GpioIntType

module _ {D : Type 0} (bus : Bus D) (gpio : Option ℕ) where
  pub gpio_iof_config : ℕ → Prog D ℕ
  gpio_iof_config mask = unless_null gpio λ p. do set_bits bus (p + offset iofcfg) mask; pure 0

  unfoldable pub gpio_enable_output : ℕ → Prog D ℕ
  gpio_enable_output mask = unless_null gpio λ p. do set_bits bus (p + offset paddir) mask; pure 0

  unfoldable pub gpio_enable_input : ℕ → Prog D ℕ
  gpio_enable_input mask =
      unless_null gpio λ p. do keep_bits bus (p + offset paddir) (not32 mask); pure 0

  unfoldable pub gpio_write : ℕ → ℕ → Prog D ℕ
  gpio_write mask value = unless_null gpio λ p. do
    if value == 0
        then keep_bits bus (p + offset padout) (not32 mask)
        else set_bits bus (p + offset padout) mask
    pure 0

  unfoldable pub gpio_toggle : ℕ → Prog D ℕ
  gpio_toggle mask = unless_null gpio λ p. do
    v ← read bus (p + offset padout)
    write bus (p + offset padout) (bit_xor mask v)
    pure 0

  pub gpio_read : ℕ → Prog D ℕ
  gpio_read mask = unless_null gpio λ p. do v ← read bus (p + offset padin); pure (bit_and v mask)

  -- The cases of the switch; the C enum has no other value.
  int_type_config : ℕ → ℕ → GpioIntType → Prog D (Unit {0})
  int_type_config p mask gpio_int_rise = do
    keep_bits bus (p + offset inttype0) (not32 mask)
    set_bits bus (p + offset inttype1) mask
  int_type_config p mask gpio_int_fall = do
    set_bits bus (p + offset inttype0) mask
    set_bits bus (p + offset inttype1) mask
  int_type_config p mask gpio_int_high = do
    keep_bits bus (p + offset inttype0) (not32 mask)
    keep_bits bus (p + offset inttype1) (not32 mask)
  int_type_config p mask gpio_int_low = do
    set_bits bus (p + offset inttype0) mask
    keep_bits bus (p + offset inttype1) (not32 mask)

  unfoldable pub gpio_enable_interrupt : ℕ → GpioIntType → Prog D ℕ
  unfolding int_type_config
  gpio_enable_interrupt mask type =
      unless_null gpio
        λ p. do set_bits bus (p + offset inten) mask; int_type_config p mask type; pure 0

  pub gpio_disable_interrupt : ℕ → Prog D ℕ
  gpio_disable_interrupt mask =
      unless_null gpio λ p. do keep_bits bus (p + offset inten) (not32 mask); pure 0

  unfoldable pub gpio_clear_interrupt : Prog D ℕ
  gpio_clear_interrupt = unless_null gpio λ p. read bus (p + offset intstatus)
