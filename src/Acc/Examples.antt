-- ===== src/Acc/Examples.antt =====
-- The properties of the accelerator's driver for the block that main.c runs.
use rep_vgg_acc.Base.{Bool, false, List, [], ◌∷◌, ◌⊎◌, ◌≡◌, some, true, refl}
use rep_vgg_acc.Machine.{Returns, ◌>>=◌}
use rep_vgg_acc.Acc.{Config, acc_cfg_base, acc_config, acc_start}
use rep_vgg_acc.Acc.Slave.{Slave, reset, clock, slave_bus}
use rep_vgg_acc.Acc.Handshake.{
  acc_start-acc_config, check_acc_status-finish, IsConfigured, idle, check_twice,
}
use rep_vgg_acc.Acc.Fsm
use rep_vgg_acc.Acc.Fsm.{Answers, MainFsm, Accelerator, fsm_reset, fsm_edge}
use rep_vgg_acc.Acc.Run.{Work, IsWork, In, run, run-finish}
use rep_vgg_acc.Acc.Pulse.{Inv, fsm_edges, fsm_edges-Inv}

-- The arguments of the call in `main`.
abbrev block : Config
block = record {
  imap = 0x4000_0000;
  w3 = 0x4004_0000;
  w1 = 0x4005_0000;
  omap = 0x4006_0000;
  size = 56;
  ich = 64;
  och = 64;
}

-- The start command has just been given.
abbrev started : Slave
started = record reset { start = 1 }

acc_start-acc_config_example :
    Returns
      ((acc_config slave_bus (some acc_cfg_base) block >>= λ _.
          acc_start slave_bus (some acc_cfg_base))
        reset)
      λ r d'. (r ≡ 0) × IsConfigured block d' × (d'.start ≡ 1)
acc_start-acc_config_example = acc_start-acc_config block reset

check_acc_status-finish_example :
    Returns (check_twice (idle 5 started)) (λ r d'. (r.0 ≡ 0) × (r.1 ≡ 0) × (d'.finished ≡ 0))
    × Returns
        (check_twice (clock true (idle 5 started)))
        (λ r d'. (r.0 ≡ 1) × (r.1 ≡ 0) × (d'.finished ≡ 0))
check_acc_status-finish_example = check_acc_status-finish 5 started refl

-- No unit answers.
abbrev quiet : Answers
quiet = record { weight_done = false; imap_done = false; conv_done = false; out_ch_cnt = 0 }

-- The weights take two edges, the map one and the convolution three.
abbrev short_work : Work
short_work = record {
  loading = quiet ∷ [];
  loaded = record quiet { weight_done = true };
  mapping = [];
  mapped = record quiet { imap_done = true };
  convolving = quiet ∷ record quiet { out_ch_cnt = 1 } ∷ [];
  convolved = record quiet { conv_done = true; out_ch_cnt = 1 };
}

short_work-IsWork : IsWork short_work
short_work-IsWork = record {
  loads = ((refl, refl), tt);
  has_loaded = (refl, refl);
  maps = tt;
  has_mapped = (refl, refl);
  convolves = (refl, (refl, tt));
  has_convolved = refl;
}

abbrev after_reset : Accelerator
after_reset = record { regs = reset; fsm = fsm_reset }

run-finish_example : Returns (run quiet short_work after_reset) λ r b. (r ≡ 1) × In Fsm.idle b
run-finish_example =
    run-finish quiet short_work after_reset refl short_work-IsWork
      (record { at_state = refl; not_done = refl; no_start = refl; unfinished = refl })

-- The weights have just been loaded, so that the map unit is started.
abbrev inputs : List (Bool × Answers)
inputs = (true, quiet) ∷ (false, record quiet { weight_done = true }) ∷ []

abbrev mapping_fsm : MainFsm
mapping_fsm = fsm_edges inputs fsm_reset

fsm_edges-Inv_example :
    Inv mapping_fsm
    × ((mapping_fsm.weight_start ≡ false)
        ⊎ ((fsm_edge false quiet mapping_fsm).weight_start ≡ false))
    × ((mapping_fsm.imap_start ≡ false) ⊎ ((fsm_edge false quiet mapping_fsm).imap_start ≡ false))
    × ((mapping_fsm.conv_start ≡ false) ⊎ ((fsm_edge false quiet mapping_fsm).conv_start ≡ false))
    × ((mapping_fsm.acc_done ≡ false) ⊎ ((fsm_edge false quiet mapping_fsm).acc_done ≡ false))
fsm_edges-Inv_example = fsm_edges-Inv inputs false quiet
