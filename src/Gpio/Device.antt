-- ===== src/Gpio/Device.antt =====
-- rtl/e203/perips/apb_gpio/apb_gpio.v: the registers of `GPIO_TypeDef` of a port at `p`, while the pins raise no new
-- interrupt.
use rep_vgg_acc.Base.{ℕ, ◌+◌, ◌||◌, u32, ◌==◌, if◌then◌else◌}
use rep_vgg_acc.Machine.{Bus, update}
use rep_vgg_acc.Gpio.{offset, padin, intstatus}

-- A read of the status clears it.
abbrev pub after_read : ℕ → ℕ → (ℕ → ℕ) → ℕ → ℕ
after_read p a m = if a == p + offset intstatus then update m a 0 else m

-- The inputs and the status cannot be written.
abbrev pub after_write : ℕ → ℕ → ℕ → (ℕ → ℕ) → ℕ → ℕ
after_write p a v m =
    if a == p + offset intstatus || a == p + offset padin then m else update m a (u32 v)

abbrev pub port_bus : ℕ → Bus (ℕ → ℕ)
port_bus p = record { load = λ a m. (m a, after_read p a m); store = after_write p }
