-- ===== src/Pwm/Channels.antt =====
-- The channels of one timer.
use rep_vgg_acc.Base.{ℕ, zero, suc, ◌/◌, ◌%◌, ◌^◌, ◌<◌, ◌≡◌, ◌≢◌, arith}
use rep_vgg_acc.Machine.{Returns, ram}
use rep_vgg_acc.Pwm.{pwm_timer_th_channel_addr, pwm_timer_all_channel_config, channel_th_config}

channel_th_config-lt : (garbage th act : ℕ) → channel_th_config garbage th act < 2 ^ 32
channel_th_config-lt garbage th act = omega arith

-- `pwm_timer_all_channel_config` on registers that hold what is written: whatever the uninitialised
-- locals held, the register of each channel has its own threshold, cut to 16 bits, and above it its
-- own action, cut to 3 bits. No register but the four changes.
pwm_timer_all_channel_config-fields :
    (garbage th act : ℕ → ℕ) (timer channel : ℕ) (m : ℕ → ℕ)
    → channel < 4
    → Returns (pwm_timer_all_channel_config ram garbage timer th act m) λ r m'.
      (m' (pwm_timer_th_channel_addr timer channel) % 2 ^ 16 ≡ th channel % 2 ^ 16)
      × (m' (pwm_timer_th_channel_addr timer channel) / 2 ^ 16 % 2 ^ 3 ≡ act channel % 2 ^ 3)
      × ((a : ℕ) → ((c : ℕ) → c < 4 → a ≢ pwm_timer_th_channel_addr timer c) → m' a ≡ m a)
unfolding pwm_timer_all_channel_config
pwm_timer_all_channel_config-fields garbage th act timer zero m h =
    (ground arith, ground arith, λ a other. ground (arith, other 0, other 1, other 2, other 3))
pwm_timer_all_channel_config-fields garbage th act timer (suc zero) m h =
    (ground arith, ground arith, λ a other. ground (arith, other 0, other 1, other 2, other 3))
pwm_timer_all_channel_config-fields garbage th act timer (suc (suc zero)) m h =
    (ground arith, ground arith, λ a other. ground (arith, other 0, other 1, other 2, other 3))
pwm_timer_all_channel_config-fields garbage th act timer (suc (suc (suc zero))) m h =
    (ground arith, ground arith, λ a other. ground (arith, other 0, other 1, other 2, other 3))
pwm_timer_all_channel_config-fields garbage th act timer (suc (suc (suc (suc c)))) m h =
    absurd (omega arith)
