-- ===== src/Timer/Examples.antt =====
-- A delay of 2 ms with a timer of 32768 Hz, one tick every 488 cycles, that is read every 200 cycles, at
-- its wrap-around.
use rep_vgg_acc.Base.{ℕ, ◌+◌, ◌*◌, ◌/◌, ◌≤◌, ◌<◌, u64, arith}
use rep_vgg_acc.Machine.{Returns}
use rep_vgg_acc.Timer.{delay_1ms, get_cpu_freq}
use rep_vgg_acc.Timer.Delay.{clock_read, Runs, delay_1ms-bounds}
use rep_vgg_acc.Timer.Measure.{cycle_read}
use rep_vgg_acc.Timer.Accuracy.{get_cpu_freq-accuracy}

abbrev access : ℕ → ℕ
access t = t + 200

access-Runs : Runs access 200
access-Runs = record { later = λ t. omega arith; soon = λ t. omega arith }

-- The last cycle before the count of 2 ^ 64 ticks is full.
abbrev last_cycle : ℕ
last_cycle = 0xffff_ffff_ffff_ffff * 488 + 487

delay_1ms-bounds_example :
    Returns
      (delay_1ms (clock_read 488 access) (clock_read 1 access) 32768 40000 2 last_cycle)
      λ r end.
        (last_cycle / 488 + u64 (32768 * 2) / 1000 ≤ end / 488)
        × (end ≤ (last_cycle / 488 + (u64 (32768 * 2) / 1000 + 1)) * 488 + 2 * 200)
delay_1ms-bounds_example =
    delay_1ms-bounds 488 (omega arith) access 200 access-Runs (clock_read 1 access) 32768 40000 2
      last_cycle (omega arith) (omega arith)

-- A core of 15.99 MHz whose timer ticks every 488 cycles.
get_cpu_freq-accuracy_example :
    Returns
      (get_cpu_freq (clock_read 488 access) (cycle_read access) 32768 50000 last_cycle)
      λ f end.
        (f * 100 ≤ (100 * 488 + 3 * 200) * 32768)
        × (100 * 488 * 32768 < f * 100 + 100 + 3 * 200 * 32768)
get_cpu_freq-accuracy_example =
    get_cpu_freq-accuracy 488 access 200 access-Runs (omega arith) 32768 50000 last_cycle
      (omega arith) (omega arith) (omega arith) (omega arith)
