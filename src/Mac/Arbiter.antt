-- ===== src/Mac/Arbiter.antt =====
-- rtl/acc/icb_master.v: the arbiter that gives the bus to the unit of the output map, of the weights or of the
-- map.
pub mod Grant
use rep_vgg_acc.Base.{ℕ, Bool, true, false, ◌&&◌, ◌||◌, List, [], ◌∷◌, if◌then◌else◌}

pub data State : Type 0 where
  idle omap weight imap : State

-- A unit's request lines.
pub record Request : Type 0 where
  pub req : Bool
  pub vld : Bool
  pub addr : ℕ

pub record ArbIn : Type 0 where
  pub omap_biu : Request
  pub weight_biu : Request
  pub imap_biu : Request
  pub omap_biu2arb_data : ℕ
  pub rsp_valid : Bool
  pub rsp_rdata : ℕ

-- Where no branch assigns `nextstate`, the latch keeps the state.
unfoldable pub next_state : ArbIn → State → State
next_state u idle =
    if u.omap_biu.req
    then omap
    else if u.weight_biu.req
    then weight
    else if u.imap_biu.req
    then imap
    else idle
next_state u omap = if u.omap_biu.req then omap else idle
next_state u weight = if u.weight_biu.req then weight else idle
next_state u imap = if u.imap_biu.req then imap else idle

abbrev pub omap_biu2arb_rdy : State → Bool
omap_biu2arb_rdy omap = true
omap_biu2arb_rdy s = false

abbrev pub weight_biu2arb_rdy : State → Bool
weight_biu2arb_rdy weight = true
weight_biu2arb_rdy s = false

abbrev pub imap_biu2arb_rdy : State → Bool
imap_biu2arb_rdy imap = true
imap_biu2arb_rdy s = false

abbrev pub rsp_ready : State → Bool
rsp_ready s = omap_biu2arb_rdy s || weight_biu2arb_rdy s || imap_biu2arb_rdy s

-- The answers that the units are given.
pub record Answers : Type 0 where
  pub arb2omap_biu_vld : Bool
  pub arb2weight_biu_vld : Bool
  pub arb2weight_biu_data : ℕ
  pub arb2imap_biu_vld : Bool
  pub arb2imap_biu_data : ℕ

unfoldable pub answers : ArbIn → State → Answers
answers u s =
    let vld : Bool → Bool = λ own. own && u.rsp_valid && rsp_ready s in
    record {
      arb2omap_biu_vld = vld (omap_biu2arb_rdy s);
      arb2weight_biu_vld = vld (weight_biu2arb_rdy s);
      arb2weight_biu_data = if vld (weight_biu2arb_rdy s) then u.rsp_rdata else 0;
      arb2imap_biu_vld = vld (imap_biu2arb_rdy s);
      arb2imap_biu_data = if vld (imap_biu2arb_rdy s) then u.rsp_rdata else 0;
    }

-- The command on the bus.
pub record Command : Type 0 where
  pub cmd_valid : Bool
  pub cmd_addr : ℕ
  pub cmd_read : Bool
  pub cmd_wdata : ℕ
  pub cmd_wmask : ℕ

unfoldable pub command : ArbIn → State → Command
command u idle = record {
  cmd_valid = false;
  cmd_addr = 0;
  cmd_read = false;
  cmd_wdata = 0;
  cmd_wmask = 0;
}
command u omap = record {
  cmd_valid = u.omap_biu.vld;
  cmd_addr = u.omap_biu.addr;
  cmd_read = false;
  cmd_wdata = u.omap_biu2arb_data;
  cmd_wmask = 15;
}
command u weight = record {
  cmd_valid = u.weight_biu.vld;
  cmd_addr = u.weight_biu.addr;
  cmd_read = true;
  cmd_wdata = 0;
  cmd_wmask = 0;
}
command u imap = record {
  cmd_valid = u.imap_biu.vld;
  cmd_addr = u.imap_biu.addr;
  cmd_read = true;
  cmd_wdata = 0;
  cmd_wmask = 0;
}

-- The state after some edges.
unfoldable pub grants : List ArbIn → State → State
grants [] s = s
grants (u ∷ us) s = grants us (next_state u s)
