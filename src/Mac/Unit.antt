-- ===== src/Mac/Unit.antt =====
-- rtl/acc/mac_array.v: the array, its state machine, and the unit that spreads the weights (mac_array_wlu.v).
pub mod Border
pub mod Conv
pub mod Hold
use rep_vgg_acc.Base.{
  ℕ, zero, suc, ◌+◌, ◌*◌, ◌/◌, ◌%◌, ◌^◌, Bool, ◌&&◌, not, ltb, ◌==◌, if◌then◌else◌,
}
use rep_vgg_acc.Base.Int.{ℤ}
use rep_vgg_acc.Bits.{bit}
use rep_vgg_acc.Mac.Core.{CoreIn, Core, core_edge}
use rep_vgg_acc.Mac.Control.{Control, control_edge, pipe_en, pe_en, weight_sel, identity_sel}

pub record MacIn : Type 0 where
  pub conv_start : Bool
  pub rdy : Bool
  pub weight_waddr : ℕ
  pub weight_wdata : ℕ
  pub weight_wen : Bool
  pub imap_rdata : ℕ → ℕ

pub record MacArray : Type 0 where
  pub core : Core
  pub control : Control
  pub weight_load_sel_base : ℕ

-- Bit `k` of `weight_load_en_base`.
unfoldable pub weight_load_en_base : MacIn → ℕ → Bool
weight_load_en_base u k =
    if k == 9
    then bit u.weight_waddr 31 == 1 && u.weight_wen
    else bit u.weight_waddr 31 == 0 && k == u.weight_waddr / 2 ^ 6 % 2 ^ 4 && u.weight_wen

unfoldable pub core_in : MacIn → MacArray → CoreIn
unfolding weight_load_en_base
core_in u s = record {
  pipe_en = pipe_en u.rdy s.control.state;
  pe_en = λ i. bit (pe_en s.control.state) i == 1;
  weight_load =
      λ ch. if u.weight_waddr % 8 == ch / 4 then u.weight_wdata / 2 ^ (8 * (ch % 4)) % 256 else 0;
  weight_load_en = λ ch k. u.weight_waddr % 8 == ch / 4 && weight_load_en_base u k;
  weight_load_sel = s.weight_load_sel_base * 2 + bit u.weight_waddr 3;
  weight_sel = weight_sel s.control;
  imap_in = u.imap_rdata;
  identity_sel = identity_sel s.control;
}

unfoldable pub mac_edge : MacIn → MacArray → MacArray
unfolding core_in core_edge control_edge
mac_edge u s = record {
  core = core_edge (core_in u s) s.core;
  control = control_edge u.conv_start u.rdy s.control;
  weight_load_sel_base =
      if u.weight_waddr % 16 == 15 && bit u.weight_waddr 31 == 1
      then (s.weight_load_sel_base + 1) % 2
      else s.weight_load_sel_base;
}

-- The unit after `t` edges, with the inputs `u 0`, `u 1` and so on.
unfoldable pub mac_at : (ℕ → MacIn) → MacArray → ℕ → MacArray
mac_at u s zero = s
mac_at u s (suc t) = mac_edge (u t) (mac_at u s t)

-- mac_array2psum_acc_data
pub record PsumData : Type 0 where
  pub identity : ℕ
  pub psum_1x1 : ℤ
  pub psum_3x3 : ℤ

unfoldable pub psum_data : MacArray → PsumData
psum_data s = record {
  identity = s.core.identity_d3;
  psum_1x1 = s.core.tree_1x1.psum_s5_r;
  psum_3x3 = s.core.tree_3x3.psum_s5_r;
}
