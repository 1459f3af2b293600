-- ===== src/Mac/Accumulate/Groups.antt =====
-- The sums of the two groups of input channels of a pixel.
use rep_vgg_acc.Base.{ℕ, ◌%◌, ◌^◌, ◌≡◌, ◌≢◌, Bool, true, false, List, [], ◌∷◌, ◌==◌, ◌⊎◌, arith}
use rep_vgg_acc.Bits.{bit}
use rep_vgg_acc.Mac.Unit.{PsumData}
use rep_vgg_acc.Mac.Accumulate.{AccIn, PsumAcc, acc_edge}

-- The sums of the first group for address `a`.
pub record Writes (a : ℕ) (d : PsumData) (u : AccIn) : Type 0 where
  pub valid : u.vld ≡ true
  pub group : bit u.info 12 ≡ 0
  pub address : u.info % 2 ^ 12 ≡ a
  pub data_is : u.data_in ≡ d

-- The sums of the second group for address `a`, while the next unit takes what it is given.
pub record Reads (a : ℕ) (second : Bool) (d : PsumData) (u : AccIn) : Type 0 where
  pub valid : u.vld ≡ true
  pub group : bit u.info 12 ≡ 1
  pub channel : (bit u.info 13 == 1) ≡ second
  pub address : u.info % 2 ^ 12 ≡ a
  pub data_is : u.data_in ≡ d
  pub taken : u.o_rdy ≡ true

-- No write to address `a` at these edges.
abbrev pub Leaves : ℕ → List AccIn → Type 0
Leaves a [] = Unit
Leaves a (u ∷ us) = ((u.vld ≡ false) ⊎ (bit u.info 12 ≡ 1) ⊎ (u.info % 2 ^ 12 ≢ a)) × Leaves a us

written :
    (a : ℕ) (d : PsumData) (u : AccIn) (s : PsumAcc) → Writes a d u → (acc_edge u s).mem_r a ≡ d
unfolding acc_edge
written a d u s h =
    let first : (bit u.info 12 == 1) ≡ false = ground (arith, h.group) in
    let same : (a == a) ≡ true = ground arith in rw (h.valid, first, h.address, same) h.data_is

-- What a read leaves for the next edge.
pub record Pending (second : Bool) (d e : PsumData) (s : PsumAcc) : Type 0 where
  pub out : s.psum_acc_vld_out ≡ true
  pub channel : s.identity_sel_d ≡ second
  pub delayed : s.data_d ≡ d
  pub dout : s.mem_r s.addr_r ≡ e
