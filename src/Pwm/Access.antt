-- ===== src/Pwm/Access.antt =====
-- The registers of the timers, by the accesses of the header.
use rep_vgg_acc.Pwm.Device.{timer_bus}
use rep_vgg_acc.Base.{◌+◌, ◌*◌, ◌/◌, ◌%◌, ◌^◌, ℕ, ◌<◌, Bool, true, false, ◌==◌}
use rep_vgg_acc.Machine.{Prog}
use rep_vgg_acc.Pwm.{
  pwm_timer_config, pwm_timer_config_get, pwm_timer_threshold_set, pwm_timer_threshold_get,
  pwm_timer_th_channel_set, pwm_timer_th_channel_get, pwm_timer_config_addr,
  pwm_timer_threshold_addr, pwm_timer_th_channel_addr,
}

-- The registers of a timer that can be written and read.
pub data TimerReg : Type 0 where
  config threshold : TimerReg
  th_channel : ℕ → TimerReg

abbrev pub IsReg : TimerReg → Type 0
IsReg config = Unit
IsReg threshold = Unit
IsReg (th_channel c) = c < 4

abbrev pub same_reg : TimerReg → TimerReg → Bool
same_reg config config = true
same_reg config threshold = false
same_reg config (th_channel c) = false
same_reg threshold config = false
same_reg threshold threshold = true
same_reg threshold (th_channel c) = false
same_reg (th_channel b) config = false
same_reg (th_channel b) threshold = false
same_reg (th_channel b) (th_channel c) = b == c

abbrev pub address : TimerReg → ℕ → ℕ
address config timer = pwm_timer_config_addr timer
address threshold timer = pwm_timer_threshold_addr timer
address (th_channel c) timer = pwm_timer_th_channel_addr timer c

unfoldable pub set_reg : TimerReg → ℕ → ℕ → Prog (ℕ → ℕ) (Unit {0})
set_reg config timer v = pwm_timer_config timer_bus timer v
set_reg threshold timer v = pwm_timer_threshold_set timer_bus timer v
set_reg (th_channel c) timer v = pwm_timer_th_channel_set timer_bus timer c v

unfoldable pub get_reg : TimerReg → ℕ → Prog (ℕ → ℕ) ℕ
get_reg config timer = pwm_timer_config_get timer_bus timer
get_reg threshold timer = pwm_timer_threshold_get timer_bus timer
get_reg (th_channel c) timer = pwm_timer_th_channel_get timer_bus timer c

-- What a register can show of a word `v`.
abbrev pub fields : TimerReg → ℕ → ℕ
fields config v = v % 2 ^ 13 + v / 2 ^ 16 % 2 ^ 8 * 2 ^ 16
fields threshold v = v
fields (th_channel c) v = v % 2 ^ 19
