-- ===== src/Mac/Accumulate.antt =====
-- rtl/acc/psum_acc.v with the stage sirv_gnrl_pipe_stage behind it: the sums of the first group of input
-- channels wait in a buffer for those of the second.
pub mod Groups
use rep_vgg_acc.Base.{
  ℕ, ◌%◌, ◌^◌, Bool, true, false, ◌&&◌, ◌||◌, not, List, [], ◌∷◌, ◌==◌, if◌then◌else◌,
}
use rep_vgg_acc.Base.Int.{◌+ℤ◌}
use rep_vgg_acc.Base.Bound.{wrap}
use rep_vgg_acc.Bits.{bit}
use rep_vgg_acc.Mac.Unit.{PsumData}

-- The inputs; `o_rdy` is psum_acc2map_merger_rdy.
pub record AccIn : Type 0 where
  pub info : ℕ
  pub data_in : PsumData
  pub vld : Bool
  pub o_rdy : Bool

pub record PsumAcc : Type 0 where
  pub mem_r : ℕ → PsumData
  pub addr_r : ℕ
  pub data_d : PsumData
  pub identity_sel_d : Bool
  pub psum_acc_vld_out : Bool
  pub stage_vld : Bool
  pub stage_dat : PsumData

-- The second group of input channels.
abbrev pub second_group : AccIn → Bool
second_group u = bit u.info 12 == 1

abbrev pub stage_rdy : AccIn → PsumAcc → Bool
stage_rdy u s = not s.stage_vld || s.stage_vld && u.o_rdy

abbrev pub rdy_in : AccIn → PsumAcc → Bool
rdy_in u s = if second_group u then stage_rdy u s else true

abbrev pub hdshk_in : AccIn → PsumAcc → Bool
hdshk_in u s = u.vld && rdy_in u s

-- `psum_acc_data_out`, from the delayed input and the word that the buffer gives out.
unfoldable pub accumulate : Bool → PsumData → PsumData → PsumData
accumulate identity_sel_d data_d sram_dout = record {
  identity = if identity_sel_d then data_d.identity else sram_dout.identity;
  psum_1x1 = wrap (2 ^ 23) (data_d.psum_1x1 +ℤ sram_dout.psum_1x1);
  psum_3x3 = wrap (2 ^ 31) (data_d.psum_3x3 +ℤ sram_dout.psum_3x3);
}

abbrev pub store : (ℕ → PsumData) → ℕ → PsumData → ℕ → PsumData
store m a d x = if x == a then d else m x

unfoldable pub acc_edge : AccIn → PsumAcc → PsumAcc
unfolding accumulate
acc_edge u s =
    let addr : ℕ = u.info % 2 ^ 12 in
    let reads : Bool = hdshk_in u s && second_group u in
    let writes : Bool = hdshk_in u s && not (second_group u) in
    let vld_set : Bool = s.psum_acc_vld_out && stage_rdy u s in
    let vld_clr : Bool = s.stage_vld && u.o_rdy in
    record {
      mem_r = if writes then store s.mem_r addr u.data_in else s.mem_r;
      addr_r = if reads then addr else s.addr_r;
      data_d = if reads then u.data_in else s.data_d;
      identity_sel_d = if reads then bit u.info 13 == 1 else s.identity_sel_d;
      psum_acc_vld_out = if second_group u then hdshk_in u s else false;
      stage_vld = if vld_set || vld_clr then vld_set || not vld_clr else s.stage_vld;
      stage_dat =
          if vld_set then accumulate s.identity_sel_d s.data_d (s.mem_r s.addr_r) else s.stage_dat;
    }

unfoldable pub acc_edges : List AccIn → PsumAcc → PsumAcc
acc_edges [] s = s
acc_edges (u ∷ us) s = acc_edges us (acc_edge u s)
