-- ===== src/Acc/Handshake.antt =====
-- The driver and the registers of the accelerator, from the configuration to the acknowledged end.
use rep_vgg_acc.Base.{ℕ, zero, suc, ◌<◌, ◌≡◌, refl, true, false, some, u32, arith, ◌∙◌}
use rep_vgg_acc.Machine.{Returns, ◌>>=◌, pure, done, Outcome, Prog}
use rep_vgg_acc.Machine.Logic.{>>=-done}
use rep_vgg_acc.Acc.{Config, acc_cfg_base, acc_config, acc_start, check_acc_status}
use rep_vgg_acc.Acc.Slave.{Slave, clock, slave_bus, slave_write, slave_read}

-- The values that the accelerator works with.
pub record IsConfigured (c : Config) (d : Slave) : Type 0 where
  pub in_addr_set : d.in_addr ≡ u32 c.imap
  pub w3_addr_set : d.w3_addr ≡ u32 c.w3
  pub w1_addr_set : d.w1_addr ≡ u32 c.w1
  pub out_addr_set : d.out_addr ≡ u32 c.omap
  pub mapsize_set : d.mapsize ≡ u32 c.size
  pub ich_set : d.ich ≡ u32 c.ich
  pub och_set : d.och ≡ u32 c.och

-- Clock edges without an access and without the finish signal.
abbrev pub idle : ℕ → Slave → Slave
idle zero d = d
idle (suc n) d = idle n (clock false d)

-- From any state of the registers `acc_config` and then `acc_start` leave each of the seven parameters
-- in the register that the accelerator reads it from, and START at 1.
pub acc_start-acc_config :
    (c : Config) (d : Slave)
    → Returns
        ((acc_config slave_bus (some acc_cfg_base) c >>= λ _.
            acc_start slave_bus (some acc_cfg_base))
          d)
        λ r d'. (r ≡ 0) × IsConfigured c d' × (d'.start ≡ 1)
unfolding acc_config acc_start slave_write clock
acc_start-acc_config c d = (
  refl,
  record {
    in_addr_set = refl;
    w3_addr_set = refl;
    w1_addr_set = refl;
    out_addr_set = refl;
    mapsize_set = refl;
    ich_set = refl;
    och_set = refl;
  },
  refl,
)

-- The start command is a pulse: one edge later START is 0, and stays 0 until the next command.
idle-start : (n : ℕ) (d : Slave) → d.start < 2 → (idle (suc n) d).start ≡ 0
unfolding clock
idle-start zero d h = ground arith
idle-start (suc n) d h = idle-start n (clock false d) (ground arith)

idle-finished : (n : ℕ) (d : Slave) → (idle n d).finished ≡ d.finished
unfolding clock
idle-finished zero d = refl
idle-finished (suc n) d = idle-finished n (clock false d)

-- Two calls of `check_acc_status` in a row.
abbrev pub check_twice : Slave → Outcome ((ℕ × ℕ) × Slave)
check_twice = do
  r ← check_acc_status slave_bus (some acc_cfg_base)
  s ← check_acc_status slave_bus (some acc_cfg_base)
  pure (r, s)

unfinished :
    (d : Slave)
    → d.finished ≡ 0
    → check_acc_status slave_bus (some acc_cfg_base) d ≡ done (0, clock false d)
unfolding check_acc_status slave_read clock
unfinished d h = ground arith

-- The first of two calls finds the register at 0, so does the second.
waits :
    (d : Slave)
    → d.finished ≡ 0
    → Returns (check_twice d) λ r d'. (r.0 ≡ 0) × (r.1 ≡ 0) × (d'.finished ≡ 0)
unfolding clock
waits d h =
    let check : Prog Slave ℕ = check_acc_status slave_bus (some acc_cfg_base) in
    let both : check_twice d ≡ done ((0, 0), clock false (clock false d)) =
      >>=-done check (λ r. check >>= λ s. pure (r, s)) d (unfinished d h)
      ∙ >>=-done check (λ s. pure (0, s)) (clock false d) (unfinished (clock false d) h) in
    rw both (refl, refl, h)

-- While the accelerator has not finished, however long that takes, `check_acc_status` returns 0, also
-- when it is called again. After the finish signal the next call returns 1 and acknowledges it, so
-- that the call after it returns 0.
pub check_acc_status-finish :
    (n : ℕ) (d : Slave)
    → d.finished ≡ 0
    → Returns (check_twice (idle n d)) (λ r d'. (r.0 ≡ 0) × (r.1 ≡ 0) × (d'.finished ≡ 0))
      × Returns
          (check_twice (clock true (idle n d)))
          (λ r d'. (r.0 ≡ 1) × (r.1 ≡ 0) × (d'.finished ≡ 0))
unfolding check_acc_status slave_read slave_write clock
check_acc_status-finish n d h =
    let waiting : (idle n d).finished ≡ 0 = idle-finished n d ∙ h in
    (waits (idle n d) waiting, (refl, refl, refl))
