-- ===== src/Mac/Weights.antt =====
-- rtl/acc/weight_biu.v: the unit that loads the weights of an output channel, 144 words of the 3x3 kernels
-- and 16 words of the 1x1 kernels.
pub mod Request
use rep_vgg_acc.Base.{
  ℕ, ◌+◌, ◌*◌, ◌%◌, ◌^◌, Bool, true, false, ◌&&◌, List, [], ◌∷◌, u32, ltb, leb, ◌==◌, if◌then◌else◌,
}

pub data State : Type 0 where
  idle load_3x3 load_1x1 : State

pub record WeightIn : Type 0 where
  pub weight_start : Bool
  pub rdy : Bool
  pub rsp_vld : Bool
  pub weight3_base_addr : ℕ
  pub weight1_base_addr : ℕ
  pub weight_och_cnt : ℕ

pub record WeightBiu : Type 0 where
  pub state : State
  pub cnt : ℕ
  pub addr : ℕ
  pub vld : Bool
  pub req : Bool
  pub receive_cnt : ℕ
  pub receive_bit_cnt : ℕ
  pub receive_ch_cnt : ℕ
  pub weight_done : Bool

abbrev pub weight_reset : WeightBiu
weight_reset = record {
  state = idle;
  cnt = 0;
  addr = 0;
  vld = false;
  req = false;
  receive_cnt = 0;
  receive_bit_cnt = 0;
  receive_ch_cnt = 0;
  weight_done = false;
}

-- A request is taken.
abbrev pub fires : WeightIn → WeightBiu → Bool
fires u s = s.vld && u.rdy

-- Where no branch assigns `nextstate`, the latch keeps the state.
unfoldable pub next_state : WeightIn → WeightBiu → State → State
next_state u s idle = if u.weight_start then load_3x3 else idle
next_state u s load_3x3 = if s.cnt == 143 && fires u s then load_1x1 else load_3x3
next_state u s load_1x1 = if s.cnt == 15 && fires u s then idle else load_1x1

abbrev pub count_to : ℕ → WeightIn → WeightBiu → ℕ
count_to last u s =
    if s.cnt == last && fires u s then 0 else if fires u s then (s.cnt + 1) % 2 ^ 8 else s.cnt

unfoldable pub next_cnt : WeightIn → WeightBiu → State → ℕ
next_cnt u s idle = 0
next_cnt u s load_3x3 = count_to 143 u s
next_cnt u s load_1x1 = count_to 15 u s

unfoldable pub next_addr : WeightIn → WeightBiu → State → ℕ
next_addr u s idle =
    if u.weight_start then u32 (u.weight3_base_addr + u.weight_och_cnt * 0x90) else s.addr
next_addr u s load_3x3 =
    if s.cnt == 143 && fires u s
    then u32 (u.weight1_base_addr + u.weight_och_cnt * 0x10)
    else if fires u s
    then u32 (s.addr + 4)
    else s.addr
next_addr u s load_1x1 =
    if s.cnt == 15 && fires u s then 0 else if fires u s then u32 (s.addr + 4) else s.addr

abbrev pub loads_1x1 : State → Bool
loads_1x1 load_1x1 = true
loads_1x1 s = false

unfoldable pub weight_edge : WeightIn → WeightBiu → WeightBiu
unfolding next_state next_cnt next_addr
weight_edge u s =
    let last : Bool = s.receive_cnt == 159 && u.rsp_vld in
    record {
      state = next_state u s s.state;
      cnt = next_cnt u s s.state;
      addr = next_addr u s s.state;
      vld =
          if loads_1x1 s.state && s.cnt == 15 && fires u s
          then false
          else if u.weight_start
          then true
          else s.vld;
      req = if u.weight_start then true else if last then false else s.req;
      receive_cnt =
          if last then 0 else if u.rsp_vld then (s.receive_cnt + 1) % 2 ^ 8 else s.receive_cnt;
      receive_bit_cnt =
          if leb s.receive_cnt 143 && s.receive_ch_cnt == 15 && u.rsp_vld
          then (if s.receive_bit_cnt == 8 then 0 else (s.receive_bit_cnt + 1) % 2 ^ 6)
          else s.receive_bit_cnt;
      receive_ch_cnt = if u.rsp_vld then (s.receive_ch_cnt + 1) % 2 ^ 4 else s.receive_ch_cnt;
      weight_done = if s.weight_done then false else if last then true else s.weight_done;
    }

-- `weight_waddr`, where the element that is received now goes.
unfoldable pub weight_waddr : WeightIn → WeightBiu → ℕ
weight_waddr u s =
    (if ltb s.receive_cnt 0x90 then 0 else 2 ^ 31)
    + u.weight_och_cnt * 2 ^ 23
    + s.receive_bit_cnt * 2 ^ 6
    + s.receive_ch_cnt

unfoldable pub weight_edges : List WeightIn → WeightBiu → WeightBiu
weight_edges [] s = s
weight_edges (u ∷ us) s = weight_edges us (weight_edge u s)

-- The addresses of the requests that are taken.
unfoldable pub requests : List WeightIn → WeightBiu → List ℕ
requests [] s = []
requests (u ∷ us) s =
    let rest = requests us (weight_edge u s) in if fires u s then s.addr ∷ rest else rest
