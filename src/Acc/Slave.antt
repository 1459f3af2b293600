-- ===== src/Acc/Slave.antt =====
-- The registers of rtl/acc/icb_slave.v: what a bus access does to them, and what a clock edge
-- without an access does.
use rep_vgg_acc.Base.{ℕ, ◌%◌, ◌^◌, Bool, false, u32, ◌==◌, if◌then◌else◌}
use rep_vgg_acc.Machine.{Bus}

pub record Slave : Type 0 where
  pub in_addr : ℕ
  pub w3_addr : ℕ
  pub w1_addr : ℕ
  pub out_addr : ℕ
  pub start : ℕ
  pub mapsize : ℕ
  pub ich : ℕ
  pub och : ℕ
  pub finished : ℕ

-- Reset.
abbrev pub reset : Slave
reset = record {
  in_addr = 0;
  w3_addr = 0;
  w1_addr = 0;
  out_addr = 0;
  start = 0;
  mapsize = 0;
  ich = 0;
  och = 0;
  finished = 0;
}

-- An edge at which no write is accepted: START falls back after one cycle, and DONE is set by the
-- finish signal of the main state machine.
unfoldable pub clock : Bool → Slave → Slave
clock acc_done d = record d {
  start = if d.start == 1 then 0 else d.start;
  finished = if acc_done then 1 else d.finished;
}

-- The `case` over the low 12 bits of the address. At the edge of a write to another register START
-- falls back too.
write_case : ℕ → ℕ → Slave → Slave
write_case a v d =
    if a == 0x00
    then record d { in_addr = v }
    else if a == 0x04
    then record d { w3_addr = v }
    else if a == 0x08
    then record d { w1_addr = v }
    else if a == 0x0c
    then record d { out_addr = v }
    else if a == 0x14
    then record d { mapsize = v }
    else if a == 0x18
    then record d { ich = v }
    else if a == 0x1c
    then record d { och = v }
    else if a == 0x10
    then record d { start = v }
    else if a == 0x20
    then record d { finished = v }
    else d

unfoldable pub slave_write : Bool → ℕ → ℕ → Slave → Slave
unfolding write_case clock
slave_write acc_done address v d = write_case (address % 2 ^ 12) v (clock acc_done d)

unfoldable pub slave_read : ℕ → Slave → ℕ
slave_read address d =
    let a = address % 2 ^ 12 in
    if a == 0x00
    then d.in_addr
    else if a == 0x04
    then d.w3_addr
    else if a == 0x08
    then d.w1_addr
    else if a == 0x0c
    then d.out_addr
    else if a == 0x10
    then d.start
    else if a == 0x14
    then d.mapsize
    else if a == 0x18
    then d.ich
    else if a == 0x1c
    then d.och
    else if a == 0x20
    then d.finished
    else 0

-- Accesses while the accelerator does not finish.
abbrev pub slave_bus : Bus Slave
slave_bus = record {
  load = λ a d. (slave_read a d, clock false d);
  store = λ a v d. slave_write false a (u32 v) d;
}
