-- ===== src/Acc.antt =====
-- hbird-sdk/SoC/hbirdv2/Common/Source/Drivers/hbirdv2_acc_cfg.c, and the configuration registers
-- of the accelerator that it talks to, rtl/acc/icb_slave.v.
pub mod Slave
pub mod Handshake
pub mod Fsm
pub mod Run
pub mod Pulse
mod Examples
use rep_vgg_acc.Base.{ℕ, ◌+◌, Option, none, some, minus_one, ◌==◌, if◌then◌else◌}
use rep_vgg_acc.Machine.{Bus, Prog, done, pure, ◌>>=◌, ◌>>◌, read, write, unless_null}

-- The fields of `ACC_CFG_TypeDef`, and where they stand in it.
pub data Reg : Type 0 where
  imap_addr w3_addr w1_addr omap_addr control map_size in_ch out_ch status : Reg

abbrev pub offset : Reg → ℕ
offset imap_addr = 0x00
offset w3_addr = 0x04
offset w1_addr = 0x08
offset omap_addr = 0x0c
offset control = 0x10
offset map_size = 0x14
offset in_ch = 0x18
offset out_ch = 0x1c
offset status = 0x20

-- ACC_CFG_BASE of hbirdv2.h.
abbrev pub acc_cfg_base : ℕ
acc_cfg_base = 0x1004_2000

-- The seven arguments of `acc_config` after the pointer.
pub record Config : Type 0 where
  pub imap : ℕ
  pub w3 : ℕ
  pub w1 : ℕ
  pub omap : ℕ
  pub size : ℕ
  pub ich : ℕ
  pub och : ℕ

module _ {D : Type 0} (bus : Bus D) (cfg : Option ℕ) where
  pub acc_config : Config → Prog D ℕ
  acc_config c = unless_null cfg λ p. do
    write bus (p + offset imap_addr) c.imap
    write bus (p + offset w3_addr) c.w3
    write bus (p + offset w1_addr) c.w1
    write bus (p + offset omap_addr) c.omap
    write bus (p + offset map_size) c.size
    write bus (p + offset in_ch) c.ich
    write bus (p + offset out_ch) c.och
    pure 0

  pub acc_start : Prog D ℕ
  acc_start = unless_null cfg λ p. do write bus (p + offset control) 0x1; pure 0

  -- `if (status) cfg->STATUS = 0x0;`
  acknowledge : ℕ → ℕ → Prog D (Unit {0})
  acknowledge p v d = done (tt, if v == 0 then d else bus.store (p + offset status) 0x0 d)

  pub check_acc_status : Prog D ℕ
  unfolding acknowledge
  check_acc_status =
      unless_null cfg λ p. do v ← read bus (p + offset status); acknowledge p v; pure v
