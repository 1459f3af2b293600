-- ===== src/Mac/Array.antt =====
-- rtl/acc/systolic_array.v: ten processing elements and the line buffers of one input channel.
pub mod Shift
pub mod Conv
use rep_vgg_acc.Base.{ℕ, ◌+◌, ◌-◌, Bool, ltb, ◌==◌, if◌then◌else◌}
use rep_vgg_acc.Base.Int.{ℤ, pos}
use rep_vgg_acc.Mac.{PeIn, Pe, pe_reset, pe_edge}
use rep_vgg_acc.Mac.Tree.{Tree3x3, tree3x3_reset, tree3x3_edge}

-- `pe_en` and `weight_load_en` are given bit by bit.
pub record ArrayIn : Type 0 where
  pub pipe_en : Bool
  pub pe_en : ℕ → Bool
  pub weight_load : ℕ
  pub weight_load_en : ℕ → Bool
  pub weight_load_sel : ℕ
  pub weight_sel : ℕ
  pub imap_in : ℕ

-- The elements 0 to 8 of the 3x3 kernel and the element 9 of the 1x1 kernel; `line j` is the shift
-- register that drives `imap_pipe[j]`.
pub record SystolicArray : Type 0 where
  pub pes : ℕ → Pe
  pub line : ℕ → ℕ
  pub tree : Tree3x3
  pub product_1x1_d1 : ℤ
  pub product_1x1_d2 : ℤ
  pub identity_d1 : ℕ
  pub identity_d2 : ℕ
  pub identity_d3 : ℕ
  pub identity_d4 : ℕ

abbrev pub array_reset : SystolicArray
array_reset = record {
  pes = λ i. pe_reset;
  line = λ j. 0;
  tree = tree3x3_reset;
  product_1x1_d1 = pos 0;
  product_1x1_d2 = pos 0;
  identity_d1 = 0;
  identity_d2 = 0;
  identity_d3 = 0;
  identity_d4 = 0;
}

-- The wires `imap_pipe`, from 0 to 115: three elements stand at the head of each line of 56.
unfoldable pub imap_pipe : ArrayIn → SystolicArray → ℕ → ℕ
imap_pipe u s j =
    if j == 0
    then u.imap_in
    else if ltb j 4
    then (s.pes (j - 1)).imap_r
    else if ltb j 57
    then s.line j
    else if ltb j 60
    then (s.pes (j - 57 + 3)).imap_r
    else if ltb j 113
    then s.line j
    else (s.pes (j - 113 + 6)).imap_r

-- The wire that an element takes its input from.
unfoldable pub pe_wire : ℕ → ℕ
pe_wire i =
    if ltb i 3 then i else if ltb i 6 then i - 3 + 56 else if ltb i 9 then i - 6 + 112 else 57

unfoldable pub pe_in : ArrayIn → SystolicArray → ℕ → PeIn
unfolding imap_pipe pe_wire
pe_in u s i = record {
  pe_en = u.pe_en i;
  pipe_en = u.pipe_en;
  weight_load = u.weight_load;
  weight_load_en = u.weight_load_en (if ltb i 9 then 8 - i else i);
  weight_load_sel = u.weight_load_sel;
  weight_sel = u.weight_sel;
  imap_in = imap_pipe u s (pe_wire i);
}

unfoldable pub array_edge : ArrayIn → SystolicArray → SystolicArray
unfolding pe_in pe_edge imap_pipe tree3x3_edge
array_edge u s =
    let product : ℕ → ℤ = λ i. (s.pes i).product in
    let step : ℕ → ℕ → ℕ = λ old new. if u.pipe_en then new else old in
    record {
      pes = λ i. pe_edge (pe_in u s i) (s.pes i);
      line = λ j. step (s.line j) (imap_pipe u s (j - 1));
      tree = tree3x3_edge u.pipe_en product s.tree;
      product_1x1_d1 = if u.pipe_en then product 9 else s.product_1x1_d1;
      product_1x1_d2 = if u.pipe_en then s.product_1x1_d1 else s.product_1x1_d2;
      identity_d1 = step s.identity_d1 (imap_pipe u s 57);
      identity_d2 = step s.identity_d2 s.identity_d1;
      identity_d3 = step s.identity_d3 s.identity_d2;
      identity_d4 = step s.identity_d4 s.identity_d3;
    }
