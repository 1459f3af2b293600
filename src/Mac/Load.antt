-- ===== src/Mac/Load.antt =====
-- rtl/acc/imap_biu.v and imap_buf.v: the map is fetched word by word into seven memories of 4096 words of 64
-- bits, from which the array reads 32 channels of a pixel at once.
pub mod Write
pub mod Store
pub mod Gather
pub mod Read
use rep_vgg_acc.Base.{
  ℕ, zero, suc, ◌+◌, ◌*◌, ◌/◌, ◌%◌, ◌^◌, bit_or, Bool, true, false, ◌&&◌, ◌||◌, not, List, [], ◌∷◌,
  u32, ◌==◌, if◌then◌else◌,
}
use rep_vgg_acc.Bits.{bit}

pub data State : Type 0 where
  idle load : State

pub record ImapIn : Type 0 where
  pub imap_start : Bool
  pub rdy : Bool
  pub rsp_vld : Bool
  pub rsp_data : ℕ
  pub imap_base_addr : ℕ

pub record ImapBiu : Type 0 where
  pub state : State
  pub cnt : ℕ
  pub addr : ℕ
  pub req : Bool
  pub vld : Bool
  pub receive_cnt : ℕ
  pub former_bits : ℕ
  pub imap_done : Bool

abbrev pub imap_reset : ImapBiu
imap_reset = record {
  state = idle;
  cnt = 0;
  addr = 0;
  req = false;
  vld = false;
  receive_cnt = 0;
  former_bits = 0;
  imap_done = false;
}

-- A request is taken, and the last of them.
abbrev fires : ImapIn → ImapBiu → Bool
fires u s = s.vld && u.rdy

abbrev last_fires : ImapIn → ImapBiu → Bool
last_fires u s = s.cnt == 0xc3ff && fires u s

-- Where no branch assigns `nextstate`, the latch keeps the state.
unfoldable pub next_state : ImapIn → ImapBiu → State → State
next_state u s idle = if u.imap_start then load else idle
next_state u s load = if last_fires u s then idle else load

unfoldable pub next_cnt : ImapIn → ImapBiu → State → ℕ
next_cnt u s idle = 0
next_cnt u s load = if last_fires u s then 0 else if fires u s then (s.cnt + 1) % 2 ^ 16 else s.cnt

unfoldable pub next_addr : ImapIn → ImapBiu → State → ℕ
next_addr u s idle = if u.imap_start then u.imap_base_addr else s.addr
next_addr u s load = if last_fires u s then 0 else if fires u s then u32 (s.addr + 4) else s.addr

unfoldable pub imap_edge : ImapIn → ImapBiu → ImapBiu
unfolding next_state next_cnt next_addr
imap_edge u s =
    let last : Bool = s.receive_cnt == 0xc3ff && u.rsp_vld in
    record {
      state = next_state u s s.state;
      cnt = next_cnt u s s.state;
      addr = next_addr u s s.state;
      req = if u.imap_start then true else if last then false else s.req;
      vld = if last_fires u s then false else if u.imap_start then true else s.vld;
      receive_cnt =
          if last then 0 else if u.rsp_vld then (s.receive_cnt + 1) % 2 ^ 16 else s.receive_cnt;
      former_bits = if s.receive_cnt % 2 == 0 && u.rsp_vld then u.rsp_data else s.former_bits;
      imap_done = if s.imap_done then false else if last then true else s.imap_done;
    }

unfoldable pub imap_waddr : ImapBiu → ℕ
imap_waddr s =
    s.receive_cnt / 2 ^ 4 + (s.receive_cnt / 2 % 4 * 2 + s.receive_cnt / 2 ^ 3 % 2) * 0xc40

unfoldable pub imap_wdata : ImapIn → ImapBiu → ℕ
imap_wdata u s = s.former_bits * 2 ^ 32 + u.rsp_data

unfoldable pub imap_wen : ImapIn → ImapBiu → Bool
imap_wen u s = s.receive_cnt % 2 == 1 && u.rsp_vld

-- The inputs of imap_buf.
pub record BufIn : Type 0 where
  pub waddr : ℕ
  pub wdata : ℕ
  pub wen : Bool
  pub raddr : ℕ
  pub ren : Bool

-- The memories, the addresses of their last reads, and `sram_cs_d`.
pub record ImapBuf : Type 0 where
  pub mem_r : ℕ → ℕ → ℕ
  pub addr_r : ℕ → ℕ
  pub sram_cs_d : ℕ → Bool

unfoldable pub sram_raddr : BufIn → ℕ → ℕ
sram_raddr u j = (2 * j + bit u.raddr 12) * 3136 + u.raddr % 2 ^ 12

-- Memory `k` has the address `a`, and that address within it.
abbrev pub in_bank : ℕ → ℕ → Bool
in_bank a k = a / 2 ^ 12 % 8 == k

abbrev pub masked : ℕ → Bool → ℕ
masked a on = if on then a % 2 ^ 12 else 0

unfoldable pub sram_cs : BufIn → ℕ → Bool
sram_cs u k =
    in_bank u.waddr k && u.wen
    || in_bank (sram_raddr u 0) k && u.ren
    || in_bank (sram_raddr u 1) k && u.ren
    || in_bank (sram_raddr u 2) k && u.ren
    || in_bank (sram_raddr u 3) k && u.ren

unfoldable pub sram_addr : BufIn → ℕ → ℕ
sram_addr u i =
    let read : ℕ → ℕ = λ j. masked (sram_raddr u j) (in_bank (sram_raddr u j) i && u.ren) in
    bit_or (bit_or (bit_or (bit_or (masked u.waddr u.wen) (read 0)) (read 1)) (read 2)) (read 3)

unfoldable pub buf_edge : BufIn → ImapBuf → ImapBuf
unfolding sram_cs sram_addr
buf_edge u s = record {
  mem_r = λ i a. if sram_cs u i && u.wen && a == sram_addr u i then u.wdata else s.mem_r i a;
  addr_r = λ i. if sram_cs u i && not u.wen then sram_addr u i else s.addr_r i;
  sram_cs_d = sram_cs u;
}

-- A word of 256 bits by its parts of 64 bits, the lowest first, and the shift that puts a part below.
abbrev pub shift_in : ℕ → List ℕ → List ℕ
shift_in d [] = d ∷ []
shift_in d (a ∷ []) = d ∷ a ∷ []
shift_in d (a ∷ b ∷ []) = d ∷ a ∷ b ∷ []
shift_in d (a ∷ b ∷ c ∷ rest) = d ∷ a ∷ b ∷ c ∷ []

-- The loop over the memories from `k + n - 1` down to `k`.
unfoldable pub gather : (ℕ → Bool) → (ℕ → ℕ) → ℕ → ℕ → List ℕ
gather cs dout zero k = []
gather cs dout (suc n) k =
    let rest = gather cs dout n (suc k) in if cs k then shift_in (dout k) rest else rest

unfoldable pub imap_rdata : ImapBuf → List ℕ
imap_rdata s = gather s.sram_cs_d (λ m. s.mem_r m (s.addr_r m)) 7 0

-- The two units, with the read port of the array.
pub record PathIn : Type 0 where
  pub biu : ImapIn
  pub raddr : ℕ
  pub ren : Bool

pub record ImapPath : Type 0 where
  pub biu : ImapBiu
  pub buf : ImapBuf

abbrev pub buf_in : PathIn → ImapPath → BufIn
buf_in u s = record {
  waddr = imap_waddr s.biu;
  wdata = imap_wdata u.biu s.biu;
  wen = imap_wen u.biu s.biu;
  raddr = u.raddr;
  ren = u.ren;
}

unfoldable pub path_edge : PathIn → ImapPath → ImapPath
unfolding imap_edge buf_edge
path_edge u s = record { biu = imap_edge u.biu s.biu; buf = buf_edge (buf_in u s) s.buf }

unfoldable pub path_edges : List PathIn → ImapPath → ImapPath
path_edges [] s = s
path_edges (u ∷ us) s = path_edges us (path_edge u s)
