-- ===== src/Pwm.antt =====
-- hbird-sdk/SoC/hbirdv2/Common/Source/Drivers/hbirdv2_pwm.c, and the register accesses of
-- Include/hbirdv2_pwm.h.
pub mod Channels
pub mod Device
pub mod Access
mod Examples
use rep_vgg_acc.Base.{ℕ, ◌+◌, ◌-◌, ◌*◌, ◌/◌, ◌%◌, ◌^◌, not32, bit_and, bit_or, ◌<<<◌}
use rep_vgg_acc.Machine.{Bus, Prog, ◌>>=◌, ◌>>◌, read, write}

abbrev pub pwm_base : ℕ
pwm_base = 0x1001_5000

-- PWM_TIMER_BASE_ADDR and the addresses above it.
abbrev pub pwm_timer_base_addr : ℕ → ℕ
pwm_timer_base_addr timer = pwm_base + timer * 0x40

abbrev pub pwm_timer_cmd_addr : ℕ → ℕ
pwm_timer_cmd_addr timer = pwm_timer_base_addr timer + 0x00

abbrev pub pwm_timer_threshold_addr : ℕ → ℕ
pwm_timer_threshold_addr timer = pwm_timer_base_addr timer + 0x08

abbrev pub pwm_timer_counter_addr : ℕ → ℕ
pwm_timer_counter_addr timer = pwm_timer_base_addr timer + 0x2c

abbrev pub reg_event_cfg : ℕ
reg_event_cfg = pwm_base + 0x100

abbrev pub pwm_timer_config_addr : ℕ → ℕ
pwm_timer_config_addr timer = pwm_timer_base_addr timer + 0x04

abbrev pub pwm_timer_th_channel_addr : ℕ → ℕ → ℕ
pwm_timer_th_channel_addr timer channel = pwm_timer_base_addr timer + 0x0c + channel * 0x04

abbrev pub reg_pwm_timer_en : ℕ
reg_pwm_timer_en = pwm_base + 0x104

-- The bit fields of `PwmCounterConfig`. Its local is not initialised: `garbage` is what the padding
-- holds.
abbrev pub counter_config : ℕ → ℕ → ℕ → ℕ → ℕ → ℕ → ℕ
counter_config garbage input_source enable_in fll_or_rtc inc_then_dec pre_scaler =
    input_source % 2 ^ 8
    + enable_in % 2 ^ 3 * 2 ^ 8
    + fll_or_rtc % 2 * 2 ^ 11
    + inc_then_dec % 2 * 2 ^ 12
    + garbage / 2 ^ 13 % 2 ^ 3 * 2 ^ 13
    + pre_scaler % 2 ^ 8 * 2 ^ 16
    + garbage / 2 ^ 24 % 2 ^ 8 * 2 ^ 24

-- The bit fields of `PwmChannelThConfig`.
abbrev pub channel_th_config : ℕ → ℕ → ℕ → ℕ
channel_th_config garbage th_ch act_ch =
    th_ch % 2 ^ 16 + act_ch % 2 ^ 3 * 2 ^ 16 + garbage / 2 ^ 19 % 2 ^ 13 * 2 ^ 19

module _ {D : Type 0} (bus : Bus D) where
  pub pwm_timer_status : Prog D ℕ
  pwm_timer_status = read bus reg_pwm_timer_en

  pub pwm_timer_en_reg : ℕ → Prog D (Unit {0})
  pwm_timer_en_reg timer_en_val = write bus reg_pwm_timer_en timer_en_val

  pub pwm_timer_cmd : ℕ → ℕ → Prog D (Unit {0})
  pwm_timer_cmd timer cmd = write bus (pwm_timer_cmd_addr timer) cmd

  pub pwm_timer_config_get : ℕ → Prog D ℕ
  pwm_timer_config_get timer = read bus (pwm_timer_config_addr timer)

  pub pwm_timer_threshold_set : ℕ → ℕ → Prog D (Unit {0})
  pwm_timer_threshold_set timer value = write bus (pwm_timer_threshold_addr timer) value

  pub pwm_timer_threshold_get : ℕ → Prog D ℕ
  pwm_timer_threshold_get timer = read bus (pwm_timer_threshold_addr timer)

  pub pwm_timer_th_channel_get : ℕ → ℕ → Prog D ℕ
  pwm_timer_th_channel_get timer channel = read bus (pwm_timer_th_channel_addr timer channel)

  pub pwm_timer_read_counter : ℕ → Prog D ℕ
  pwm_timer_read_counter n_timer = read bus (pwm_timer_counter_addr n_timer)

  pub pwm_timer_evt_reg_cfg : ℕ → Prog D (Unit {0})
  pwm_timer_evt_reg_cfg cmd = write bus reg_event_cfg cmd

  pub pwm_timer_evt_reg_read : Prog D ℕ
  pwm_timer_evt_reg_read = read bus reg_event_cfg

  pub pwm_timer_config : ℕ → ℕ → Prog D (Unit {0})
  pwm_timer_config timer conf = write bus (pwm_timer_config_addr timer) conf

  pub pwm_timer_th_channel_set : ℕ → ℕ → ℕ → Prog D (Unit {0})
  pwm_timer_th_channel_set timer channel value =
      write bus (pwm_timer_th_channel_addr timer channel) value

  pub pwm_timer_en : ℕ → Prog D (Unit {0})
  unfolding pwm_timer_status pwm_timer_en_reg
  pwm_timer_en n_timer = do
    ch_en_val ← pwm_timer_status
    pwm_timer_en_reg (bit_or ch_en_val (1 <<< n_timer))

  pub pwm_timer_all_en : Prog D (Unit {0})
  unfolding pwm_timer_en_reg
  pwm_timer_all_en = pwm_timer_en_reg 0xf

  pub pwm_timer_disable : ℕ → Prog D (Unit {0})
  unfolding pwm_timer_status pwm_timer_en_reg
  pwm_timer_disable n_timer = do
    ch_en_val ← pwm_timer_status
    pwm_timer_en_reg (bit_and ch_en_val (bit_and (not32 (1 <<< n_timer)) 0xf))

  pub pwm_timer_all_disable : Prog D (Unit {0})
  unfolding pwm_timer_en_reg
  pwm_timer_all_disable = pwm_timer_en_reg 0x0

  pub pwm_timer_conf : ℕ → ℕ → ℕ → ℕ → ℕ → ℕ → ℕ → Prog D (Unit {0})
  unfolding pwm_timer_config
  pwm_timer_conf garbage n_timer input_source enable_in fll_or_rtc inc_then_dec pre_scaler =
      pwm_timer_config n_timer
        (counter_config garbage input_source enable_in fll_or_rtc inc_then_dec pre_scaler)

  pub pwm_timer_channel_config : ℕ → ℕ → ℕ → ℕ → ℕ → Prog D (Unit {0})
  unfolding pwm_timer_th_channel_set
  pwm_timer_channel_config garbage n_timer channel th_ch act_ch =
      pwm_timer_th_channel_set n_timer channel (channel_th_config garbage th_ch act_ch)

  -- The thresholds, the actions and the uninitialised locals of the four channels are functions.
  pub pwm_timer_all_channel_config : (ℕ → ℕ) → ℕ → (ℕ → ℕ) → (ℕ → ℕ) → Prog D (Unit {0})
  unfolding pwm_timer_channel_config
  pwm_timer_all_channel_config garbage n_timer th_ch act_ch = do
    pwm_timer_channel_config (garbage 0) n_timer 0 (th_ch 0) (act_ch 0)
    pwm_timer_channel_config (garbage 1) n_timer 1 (th_ch 1) (act_ch 1)
    pwm_timer_channel_config (garbage 2) n_timer 2 (th_ch 2) (act_ch 2)
    pwm_timer_channel_config (garbage 3) n_timer 3 (th_ch 3) (act_ch 3)
