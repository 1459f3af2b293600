-- ===== src/Mac/Output.antt =====
-- rtl/acc/map_merger.v with its output stage, and rtl/acc/omap_biu.v, which writes the words to memory.
pub mod Order
use rep_vgg_acc.Base.{
  ℕ, ◌+◌, ◌*◌, ◌%◌, ◌^◌, Bool, true, false, ◌&&◌, ◌||◌, not, List, [], ◌∷◌, u32, ◌==◌,
  if◌then◌else◌,
}
use rep_vgg_acc.Mac.Unit.{PsumData}
use rep_vgg_acc.Mac.Merge.{map_merger}

-- sirv_gnrl_pipe_stage of rtl/acc/gnrl_modules.v, one deep.
pub record Stage : Type 0 where
  pub vld : Bool
  pub dat : ℕ

-- Its `i_rdy`.
abbrev pub stage_ready : Bool → Stage → Bool
stage_ready o_rdy s = not s.vld || s.vld && o_rdy

unfoldable pub stage_edge : Bool → ℕ → Bool → Stage → Stage
stage_edge i_vld i_dat o_rdy s =
    let vld_set : Bool = i_vld && stage_ready o_rdy s in
    let vld_clr : Bool = s.vld && o_rdy in
    record {
      vld = if vld_set || vld_clr then vld_set || not vld_clr else s.vld;
      dat = if vld_set then i_dat else s.dat;
    }

-- The inputs: the sums from psum_acc, and the arbiter.
pub record OutputIn : Type 0 where
  pub vld : Bool
  pub data_in : PsumData
  pub in_ch_cnt : Bool
  pub omap_base_addr : ℕ
  pub rdy : Bool
  pub rsp_vld : Bool

pub record Output : Type 0 where
  pub merged : Stage
  pub queued : Stage
  pub omap_biu2arb_cnt : ℕ
  pub receive_cnt : ℕ
  pub req : Bool

-- map_merger2omap_biu_rdy, psum_acc2map_merger_rdy, and the handshake of the arbiter.
abbrev pub omap_rdy : OutputIn → Output → Bool
omap_rdy u s = stage_ready u.rdy s.queued

abbrev pub merger_rdy : OutputIn → Output → Bool
merger_rdy u s = stage_ready (omap_rdy u s) s.merged

abbrev pub writes_now : OutputIn → Output → Bool
writes_now u s = s.queued.vld && u.rdy

unfoldable pub omap_biu2arb_addr : OutputIn → Output → ℕ
omap_biu2arb_addr u s = u32 (u.omap_base_addr + s.omap_biu2arb_cnt * 2 ^ 2)

unfoldable pub output_edge : OutputIn → Output → Output
unfolding stage_edge
output_edge u s =
    let last : Bool = s.receive_cnt == 3135 && u.rsp_vld in
    record {
      merged = stage_edge (u.vld && merger_rdy u s) (map_merger u.data_in) (omap_rdy u s) s.merged;
      queued = stage_edge (omap_rdy u s && s.merged.vld) s.merged.dat u.rdy s.queued;
      omap_biu2arb_cnt =
          if writes_now u s
          then (if s.omap_biu2arb_cnt == 200703 then 0 else (s.omap_biu2arb_cnt + 1) % 2 ^ 20)
          else s.omap_biu2arb_cnt;
      receive_cnt =
          if last then 0 else if u.rsp_vld then (s.receive_cnt + 1) % 2 ^ 12 else s.receive_cnt;
      req = if last then false else if u.in_ch_cnt then true else s.req;
    }

unfoldable pub output_edges : List OutputIn → Output → Output
output_edges [] s = s
output_edges (u ∷ us) s = output_edges us (output_edge u s)

-- The sums that are taken from psum_acc.
unfoldable pub taken : List OutputIn → Output → List PsumData
taken [] s = []
taken (u ∷ us) s =
    let rest = taken us (output_edge u s) in
    if u.vld && merger_rdy u s then u.data_in ∷ rest else rest

-- The addresses and words that the arbiter takes.
unfoldable pub written : List OutputIn → Output → List (ℕ × ℕ)
written [] s = []
written (u ∷ us) s =
    let rest = written us (output_edge u s) in
    if writes_now u s then (omap_biu2arb_addr u s, s.queued.dat) ∷ rest else rest
