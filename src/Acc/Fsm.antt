-- ===== src/Acc/Fsm.antt =====
-- rtl/acc/main_fsm.v, and how rtl/acc/repvgg_acc_top.v connects it to the configuration registers. The
-- units that load weights, load the map and convolve are inputs.
use rep_vgg_acc.Base.{
  ℕ, ◌+◌, ◌%◌, Bool, true, false, ◌&&◌, ◌||◌, not, List, [], ◌∷◌, u8, u32, ltb, ◌==◌, if◌then◌else◌,
}
use rep_vgg_acc.Machine.{Bus}
use rep_vgg_acc.Acc.Slave.{Slave, clock, slave_write, slave_read}

pub data State : Type 0 where
  idle wsetup isetup conv : State

abbrev pub code : State → ℕ
code idle = 0
code wsetup = 1
code isetup = 2
code conv = 3

-- What the three units answer at an edge, and the output channel that is worked on.
pub record Answers : Type 0 where
  pub weight_done : Bool
  pub imap_done : Bool
  pub conv_done : Bool
  pub out_ch_cnt : ℕ

pub record MainFsm : Type 0 where
  pub state : State
  pub out_ch_cnt_d : ℕ
  pub weight_start : Bool
  pub imap_start : Bool
  pub conv_start : Bool
  pub acc_done : Bool

abbrev pub fsm_reset : MainFsm
fsm_reset = record {
  state = idle;
  out_ch_cnt_d = 0;
  weight_start = false;
  imap_start = false;
  conv_start = false;
  acc_done = false;
}

unfoldable pub next_state : State → Bool → Answers → State
next_state idle acc_start u = if acc_start then wsetup else idle
next_state wsetup acc_start u = if u.weight_done then isetup else wsetup
next_state isetup acc_start u = if u.imap_done then conv else isetup
next_state conv acc_start u = if u.conv_done then idle else conv

-- `(state == s) && (next_state == t)`.
abbrev pub goes : State → State → State → State → Bool
goes state next s t = code state == code s && code next == code t

-- A register that is set by its trigger and falls back after one cycle.
abbrev pub pulse : Bool → Bool → Bool
pulse old trigger = if old then false else if trigger then true else old

unfoldable pub fsm_edge : Bool → Answers → MainFsm → MainFsm
unfolding next_state
fsm_edge acc_start u f =
    let next : State = next_state f.state acc_start u in
    record {
      state = next;
      out_ch_cnt_d = u.out_ch_cnt;
      weight_start = pulse f.weight_start (
          goes f.state next idle wsetup
          || goes f.state next isetup conv
          || not (u.out_ch_cnt == f.out_ch_cnt_d) && ltb u.out_ch_cnt 63);
      imap_start = pulse f.imap_start (goes f.state next wsetup isetup);
      conv_start = pulse f.conv_start (goes f.state next isetup conv);
      acc_done = pulse f.acc_done u.conv_done;
    }

-- The output channel whose weights are to be loaded, an 8-bit output.
unfoldable pub weight_och_cnt : Answers → MainFsm → ℕ
weight_och_cnt u f = if code f.state == code wsetup then 0 else u8 (u.out_ch_cnt + 1)

pub record Accelerator : Type 0 where
  pub regs : Slave
  pub fsm : MainFsm

-- `assign acc_start = START;` keeps the lowest bit.
abbrev pub start_bit : Slave → Bool
start_bit d = d.start % 2 == 1

-- An edge without a write access, and one with.
unfoldable pub edge : Answers → Accelerator → Accelerator
edge u a = record { regs = clock a.fsm.acc_done a.regs; fsm = fsm_edge (start_bit a.regs) u a.fsm }

unfoldable pub edge_write : Answers → ℕ → ℕ → Accelerator → Accelerator
edge_write u address v a = record {
  regs = slave_write a.fsm.acc_done address v a.regs;
  fsm = fsm_edge (start_bit a.regs) u a.fsm;
}

unfoldable pub edges : List Answers → Accelerator → Accelerator
edges [] a = a
edges (u ∷ us) a = edges us (edge u a)

-- Accesses while the units answer `u`.
abbrev pub acc_bus : Answers → Bus Accelerator
acc_bus u = record {
  load = λ address a. (slave_read address a.regs, edge u a);
  store = λ address v a. edge_write u address (u32 v) a;
}
