-- ===== src/Hbird/Gpio.antt =====
-- hbird-sdk/SoC/hbird/Common/Source/Drivers/hbird_gpio.c.
mod Pins
use rep_vgg_acc.Base.{ℕ, ◌+◌, Option, not32, bit_and, bit_or, bit_xor, ◌==◌, if◌then◌else◌}
use rep_vgg_acc.Machine.{
  Bus, Prog, pure, ◌>>=◌, ◌>>◌, read, write, set_bits, keep_bits, unless_null,
}
use rep_vgg_acc.Gpio.{GpioIntType, gpio_int_rise, gpio_int_fall, gpio_int_high, gpio_int_low}

-- The fields of `GPIO_TypeDef`, and where they stand in it.
pub data Reg : Type 0 where
  input_val input_en output_en output_val pullup_en drive : Reg
  rise_ie rise_ip fall_ie fall_ip high_ie high_ip low_ie low_ip : Reg
  iof_en iof_sel output_xor : Reg

abbrev pub offset : Reg → ℕ
offset input_val = 0x00
offset input_en = 0x04
offset output_en = 0x08
offset output_val = 0x0c
offset pullup_en = 0x10
offset drive = 0x14
offset rise_ie = 0x18
offset rise_ip = 0x1c
offset fall_ie = 0x20
offset fall_ip = 0x24
offset high_ie = 0x28
offset high_ip = 0x2c
offset low_ie = 0x30
offset low_ip = 0x34
offset iof_en = 0x38
offset iof_sel = 0x3c
offset output_xor = 0x40

pub data IofFunc : Type 0 where
  iof_sel_gpio iof_sel_0 iof_sel_1 : IofFunc

-- The registers of an event: its enable bits and its pending bits.
abbrev pub ie_of : GpioIntType → Reg
ie_of gpio_int_rise = rise_ie
ie_of gpio_int_fall = fall_ie
ie_of gpio_int_high = high_ie
ie_of gpio_int_low = low_ie

abbrev pub ip_of : GpioIntType → Reg
ip_of gpio_int_rise = rise_ip
ip_of gpio_int_fall = fall_ip
ip_of gpio_int_high = high_ip
ip_of gpio_int_low = low_ip

module _ {D : Type 0} (bus : Bus D) (gpio : Option ℕ) where
  -- The cases of the switch; the C enum has no other value.
  iof_select : ℕ → ℕ → IofFunc → Prog D (Unit {0})
  iof_select p mask iof_sel_gpio = keep_bits bus (p + offset iof_en) (not32 mask)
  iof_select p mask iof_sel_0 = do
    keep_bits bus (p + offset iof_sel) (not32 mask)
    set_bits bus (p + offset iof_en) mask
  iof_select p mask iof_sel_1 = do
    set_bits bus (p + offset iof_sel) mask
    set_bits bus (p + offset iof_en) mask

  pub gpio_iof_config : ℕ → IofFunc → Prog D ℕ
  unfolding iof_select
  gpio_iof_config mask func = unless_null gpio λ p. do iof_select p mask func; pure 0

  pub gpio_enable_output : ℕ → Prog D ℕ
  gpio_enable_output mask = unless_null gpio λ p. do
    set_bits bus (p + offset output_en) mask
    keep_bits bus (p + offset input_en) (not32 mask)
    pure 0

  pub gpio_enable_input : ℕ → Prog D ℕ
  gpio_enable_input mask = unless_null gpio λ p. do
    set_bits bus (p + offset input_en) mask
    keep_bits bus (p + offset output_en) (not32 mask)
    pure 0

  pub gpio_write : ℕ → ℕ → Prog D ℕ
  gpio_write mask value = unless_null gpio λ p. do
    if value == 0
        then keep_bits bus (p + offset output_val) (not32 mask)
        else set_bits bus (p + offset output_val) mask
    pure 0

  pub gpio_toggle : ℕ → Prog D ℕ
  gpio_toggle mask = unless_null gpio λ p. do
    v ← read bus (p + offset output_val)
    write bus (p + offset output_val) (bit_xor mask v)
    pure 0

  pub gpio_read : ℕ → Prog D ℕ
  gpio_read mask =
      unless_null gpio λ p. do v ← read bus (p + offset input_val); pure (bit_and v mask)

  pub gpio_set_pue : ℕ → ℕ → Prog D ℕ
  gpio_set_pue mask value =
      unless_null gpio λ p. do set_bits bus (p + offset pullup_en) (bit_and mask value); pure 0

  pub gpio_set_ds : ℕ → ℕ → Prog D ℕ
  gpio_set_ds mask value =
      unless_null gpio λ p. do set_bits bus (p + offset drive) (bit_and mask value); pure 0

  pub gpio_set_outxor : ℕ → ℕ → Prog D ℕ
  gpio_set_outxor mask value =
      unless_null gpio λ p. do set_bits bus (p + offset output_xor) (bit_and mask value); pure 0

  -- The switch on the event picks the register.
  pub gpio_enable_interrupt : ℕ → GpioIntType → Prog D ℕ
  gpio_enable_interrupt mask type =
      unless_null gpio λ p. do set_bits bus (p + offset (ie_of type)) mask; pure 0

  pub gpio_disable_interrupt : ℕ → GpioIntType → Prog D ℕ
  gpio_disable_interrupt mask type =
      unless_null gpio λ p. do keep_bits bus (p + offset (ie_of type)) (not32 mask); pure 0

  pub gpio_clear_interrupt : ℕ → GpioIntType → Prog D ℕ
  gpio_clear_interrupt mask type =
      unless_null gpio λ p. do set_bits bus (p + offset (ip_of type)) mask; pure 0
