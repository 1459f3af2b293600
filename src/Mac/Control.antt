-- ===== src/Mac/Control.antt =====
-- rtl/acc/mac_array_fsm.v: the state machine that steps the array through the map, for each pair of an
-- output channel and a group of input channels.
pub mod Position
pub mod Run
pub mod Read
use rep_vgg_acc.Base.{
  ℕ, zero, suc, ◌+◌, ◌*◌, ◌/◌, ◌%◌, ◌^◌, Bool, true, false, ◌&&◌, ◌||◌, not, ltb, ◌==◌,
  if◌then◌else◌,
}

pub data State : Type 0 where
  idle array_setup conv_s0 conv_s1 conv_s2 conv_s3 conv_s4 conv_s5 conv_s6 conv_s7 conv_s8
        array_cool_down :
      State

pub record Control : Type 0 where
  pub state : State
  pub setup_cnt : ℕ
  pub conv_col_cnt : ℕ
  pub conv_row_cnt : ℕ
  pub in_ch_cnt : ℕ
  pub out_ch_cnt : ℕ
  pub imap_cnt : ℕ
  pub omap_cnt : ℕ
  pub omap_ch_cnt : ℕ
  pub conv_done : Bool
  pub vld_d1 : Bool
  pub vld_d2 : Bool
  pub vld_d3 : Bool
  pub vld_d4 : Bool
  pub vld_d5 : Bool
  pub vld_d6 : Bool

abbrev pub control_reset : Control
control_reset = record {
  state = idle;
  setup_cnt = 0;
  conv_col_cnt = 0;
  conv_row_cnt = 0;
  in_ch_cnt = 0;
  out_ch_cnt = 0;
  imap_cnt = 0;
  omap_cnt = 0;
  omap_ch_cnt = 0;
  conv_done = false;
  vld_d1 = false;
  vld_d2 = false;
  vld_d3 = false;
  vld_d4 = false;
  vld_d5 = false;
  vld_d6 = false;
}

abbrev pub is_idle : State → Bool
is_idle idle = true
is_idle s = false

abbrev pub is_setup : State → Bool
is_setup array_setup = true
is_setup s = false

abbrev pub is_cool_down : State → Bool
is_cool_down array_cool_down = true
is_cool_down s = false

-- `array_en`
abbrev pub array_en : State → Bool
array_en s = not (is_idle s) && not (is_setup s) && not (is_cool_down s)

abbrev pub pipe_en : Bool → State → Bool
pipe_en rdy s = not (is_idle s) && rdy

abbrev pub imap_ren : Bool → State → Bool
imap_ren rdy s = not (is_idle s) && not (is_cool_down s) && pipe_en rdy s

unfoldable pub next_state : Bool → Bool → Control → State → State
next_state conv_start en f idle = if conv_start then array_setup else idle
next_state conv_start en f array_setup = if f.setup_cnt == 58 && en then conv_s0 else array_setup
next_state conv_start en f conv_s0 =
    if f.conv_col_cnt == 0 && f.conv_row_cnt == 0 && en then conv_s1 else conv_s0
next_state conv_start en f conv_s1 =
    if f.conv_col_cnt == 54 && f.conv_row_cnt == 0 && en then conv_s2 else conv_s1
next_state conv_start en f conv_s2 =
    if f.conv_col_cnt == 55 && f.conv_row_cnt == 0 && en then conv_s3 else conv_s2
next_state conv_start en f conv_s3 =
    if f.conv_col_cnt == 0 && ltb 0 f.conv_row_cnt && ltb f.conv_row_cnt 55 && en
    then conv_s4
    else conv_s3
next_state conv_start en f conv_s4 =
    if f.conv_col_cnt == 54 && ltb 0 f.conv_row_cnt && ltb f.conv_row_cnt 55 && en
    then conv_s5
    else conv_s4
next_state conv_start en f conv_s5 =
    if f.conv_col_cnt == 55 && ltb 0 f.conv_row_cnt && ltb f.conv_row_cnt 54 && en
    then conv_s3
    else if f.conv_col_cnt == 55 && f.conv_row_cnt == 54 && en
    then conv_s6
    else conv_s5
next_state conv_start en f conv_s6 =
    if f.conv_col_cnt == 0 && f.conv_row_cnt == 55 && en then conv_s7 else conv_s6
next_state conv_start en f conv_s7 =
    if f.conv_col_cnt == 54 && f.conv_row_cnt == 55 && en then conv_s8 else conv_s7
next_state conv_start en f conv_s8 =
    if f.conv_col_cnt == 55
      && f.conv_row_cnt == 55
      && (ltb f.out_ch_cnt 63 || f.out_ch_cnt == 63 && f.in_ch_cnt == 0)
      && en
    then conv_s0
    else if f.conv_col_cnt == 55
        && f.conv_row_cnt == 55
        && f.out_ch_cnt == 63
        && f.in_ch_cnt == 1
        && en
    then array_cool_down
    else conv_s8
next_state conv_start en f array_cool_down =
    if f.omap_cnt == 3135 && f.omap_ch_cnt == 127 && en then idle else array_cool_down

-- A counter of `width` bits that starts again after `last`.
abbrev pub count : ℕ → ℕ → ℕ → ℕ
count width last n = if n == last then 0 else (n + 1) % 2 ^ width

-- One clock edge, with the inputs conv_start and mac_array2psum_acc_rdy.
unfoldable pub control_edge : Bool → Bool → Control → Control
unfolding next_state
control_edge conv_start rdy f =
    let en : Bool = pipe_en rdy f.state in
    let next : State = next_state conv_start en f f.state in
    let moves : Bool = array_en f.state && en in
    let row_ends : Bool = f.conv_col_cnt == 55 && moves in
    let map_ends : Bool = f.conv_row_cnt == 55 && row_ends in
    let taken : Bool = f.vld_d6 && rdy in
    let step : Bool → Bool → Bool = λ old new. if en then new else old in
    record {
      state = next;
      setup_cnt = if is_setup f.state && en then count 6 58 f.setup_cnt else f.setup_cnt;
      conv_col_cnt = if moves then count 6 55 f.conv_col_cnt else f.conv_col_cnt;
      conv_row_cnt = if row_ends then count 6 55 f.conv_row_cnt else f.conv_row_cnt;
      in_ch_cnt = if map_ends then (f.in_ch_cnt + 1) % 2 else f.in_ch_cnt;
      out_ch_cnt = if f.in_ch_cnt == 1 && map_ends then count 8 63 f.out_ch_cnt else f.out_ch_cnt;
      imap_cnt = if imap_ren rdy f.state then count 12 3135 f.imap_cnt else f.imap_cnt;
      omap_cnt = if taken then count 12 3135 f.omap_cnt else f.omap_cnt;
      omap_ch_cnt =
          if taken && f.omap_cnt == 3135 then count 7 127 f.omap_ch_cnt else f.omap_ch_cnt;
      conv_done =
          if f.conv_done
          then false
          else if is_cool_down f.state && is_idle next
          then true
          else f.conv_done;
      vld_d1 = step f.vld_d1 (array_en f.state);
      vld_d2 = step f.vld_d2 f.vld_d1;
      vld_d3 = step f.vld_d3 f.vld_d2;
      vld_d4 = step f.vld_d4 f.vld_d3;
      vld_d5 = step f.vld_d5 f.vld_d4;
      vld_d6 = step f.vld_d6 f.vld_d5;
    }

-- The ten bits that switch the elements on.
abbrev pub pe_en : State → ℕ
pe_en conv_s0 = 0b10_0001_1011
pe_en conv_s1 = 0b10_0011_1111
pe_en conv_s2 = 0b10_0011_0110
pe_en conv_s3 = 0b10_1101_1011
pe_en conv_s4 = 0b11_1111_1111
pe_en conv_s5 = 0b11_1011_0110
pe_en conv_s6 = 0b10_1101_1000
pe_en conv_s7 = 0b11_1111_1000
pe_en conv_s8 = 0b11_1011_0000
pe_en s = 0

unfoldable pub weight_sel : Control → ℕ
weight_sel f = f.out_ch_cnt % 2 * 2 + f.in_ch_cnt

unfoldable pub imap_raddr : Control → ℕ
imap_raddr f = f.in_ch_cnt * 2 ^ 12 + f.imap_cnt

unfoldable pub mac_array2psum_acc_info : Control → ℕ
mac_array2psum_acc_info f = f.out_ch_cnt / 32 % 2 * 2 ^ 13 + f.omap_ch_cnt % 2 * 2 ^ 12 + f.omap_cnt

unfoldable pub identity_sel : Control → ℕ
identity_sel f = f.out_ch_cnt % 32

-- The machine after `t` edges, with the inputs `u 0`, `u 1` and so on.
unfoldable pub control_at : (ℕ → Bool × Bool) → Control → ℕ → Control
control_at u f zero = f
control_at u f (suc t) = control_edge (u t).0 (u t).1 (control_at u f t)
