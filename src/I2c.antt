-- ===== src/I2c.antt =====
-- hbird-sdk/SoC/hbirdv2/Common/Source/Drivers/hbirdv2_i2c.c.
pub mod Ack
mod Examples
use rep_vgg_acc.Base.{ℕ, ◌+◌, Bool, Option, not, bit_and, ◌==◌, if◌then◌else◌}
use rep_vgg_acc.Machine.{Bus, Prog, pure, ◌>>=◌, ◌>>◌, read, write, spin_until, unless_null}

-- The fields of `I2C_TypeDef`, and where they stand in it.
pub data Reg : Type 0 where
  pre ctr rx status tx cmd : Reg

abbrev pub offset : Reg → ℕ
offset pre = 0x00
offset ctr = 0x04
offset rx = 0x08
offset status = 0x0c
offset tx = 0x10
offset cmd = 0x14

abbrev pub i2c_status_rxack : ℕ
i2c_status_rxack = 0x80

abbrev pub i2c_status_busy : ℕ
i2c_status_busy = 0x40

abbrev pub i2c_status_tip : ℕ
i2c_status_tip = 0x2

-- When the two waiting loops of `i2c_get_ack` end.
unfoldable pub in_progress : ℕ → Bool
in_progress v = not (bit_and v i2c_status_tip == 0)

unfoldable pub finished : ℕ → Bool
finished v = bit_and v i2c_status_tip == 0

module _ {D : Type 0} (bus : Bus D) (i2c : Option ℕ) where
  pub i2c_setup : ℕ → ℕ → Prog D ℕ
  i2c_setup prescaler enable =
      unless_null i2c
        λ p. do write bus (p + offset pre) prescaler; write bus (p + offset ctr) enable; pure 0

  -- Each of the two loops has its own fuel.
  pub i2c_get_ack : ℕ → ℕ → Prog D ℕ
  i2c_get_ack fuel fuel' = unless_null i2c λ p. do
    v ← spin_until bus (p + offset status) in_progress fuel
    w ← spin_until bus (p + offset status) finished fuel'
    ack ← read bus (p + offset status)
    pure (if bit_and ack i2c_status_rxack == 0 then 1 else 0)

  pub i2c_send_data : ℕ → Prog D ℕ
  i2c_send_data value = unless_null i2c λ p. do write bus (p + offset tx) value; pure 0

  pub i2c_send_command : ℕ → Prog D ℕ
  i2c_send_command value = unless_null i2c λ p. do write bus (p + offset cmd) value; pure 0

  pub i2c_get_status : Prog D ℕ
  i2c_get_status = unless_null i2c λ p. read bus (p + offset status)

  pub i2c_get_data : Prog D ℕ
  i2c_get_data = unless_null i2c λ p. read bus (p + offset rx)

  pub i2c_busy : Prog D ℕ
  i2c_busy = unless_null i2c λ p. do
    v ← read bus (p + offset status)
    pure (if bit_and v i2c_status_busy == i2c_status_busy then 1 else 0)
