-- ===== src/Pwm/Device.antt =====
-- rtl/e203/perips/apb_adv_timer/adv_timer_apb_if.v: what the registers of the four timers show of the words that
-- were written.
use rep_vgg_acc.Base.{ℕ, ◌+◌, ◌-◌, ◌*◌, ◌/◌, ◌%◌, ◌^◌, ◌&&◌, u32, leb, ◌==◌, if◌then◌else◌}
use rep_vgg_acc.Machine.{Bus, update}
use rep_vgg_acc.Pwm.{pwm_base}

-- The register number `k` of a timer: CFG has the fields in its bits 0 to 12 and 16 to 23, CH0_TH to CH3_TH have them
-- in the bits 0 to 18.
abbrev pub field_bits : ℕ → ℕ → ℕ
field_bits k v =
    if k == 1
    then v % 2 ^ 13 + v / 2 ^ 16 % 2 ^ 8 * 2 ^ 16
    else if leb 3 k && leb k 6
    then v % 2 ^ 19
    else v

-- The timers are 64 bytes apart. A register keeps the written word, of which a load gives the fields; only
-- CFG, TH and the channel thresholds are used.
abbrev pub timer_bus : Bus (ℕ → ℕ)
timer_bus = record {
  load = λ a m. (field_bits ((a - pwm_base) / 4 % 16) (m a), m);
  store = λ a v m. update m a (u32 v);
}
