-- ===== src/Mac/Array/Conv.antt =====
-- The sums of one systolic array.
use rep_vgg_acc.Base.{
  ℕ, suc, ◌+◌, ◌-◌, ◌*◌, ◌/◌, ◌%◌, ◌^◌, ◌<◌, ◌≤◌, ◌≡◌, refl, sym, ap, ◌∙◌, Bool, true, false, not,
  Bool-cases, inl, inr, if◌then◌else◌, arith,
}
use rep_vgg_acc.Base.Int.{ℤ, pos, ◌+ℤ◌, ◌*ℤ◌, +ℤ_parts, signed8}
use rep_vgg_acc.Base.Bound.{Within, wrap-eq_self, mul-Within, signed8-Within, *ℤ_comm, parts_ext}
use rep_vgg_acc.Base.Loop.{sum_range, sum_range_ext, zero-*ℤ}
use rep_vgg_acc.Mac.{Pe, PeIn, pe_edge}
use rep_vgg_acc.Mac.Spec.{border, padded, conv}
use rep_vgg_acc.Mac.Tree.Sum.{tree3x3_lem}
use rep_vgg_acc.Mac.Array.{ArrayIn, SystolicArray, pe_wire, pe_in, array_edge}
use rep_vgg_acc.Mac.Array.Shift.{array_at, imap_r-edge, imap_pipe-array_at}

-- The nine terms in the order of the elements and in the order of the kernel.
backwards :
    (a0 a1 a2 a3 a4 a5 a6 a7 a8 : ℤ)
    → a0 +ℤ (a1 +ℤ (a2 +ℤ (a3 +ℤ (a4 +ℤ (a5 +ℤ (a6 +ℤ (a7 +ℤ (a8 +ℤ pos 0))))))))
      ≡ (a8 +ℤ (a7 +ℤ (a6 +ℤ pos 0)))
        +ℤ ((a5 +ℤ (a4 +ℤ (a3 +ℤ pos 0))) +ℤ ((a2 +ℤ (a1 +ℤ (a0 +ℤ pos 0))) +ℤ pos 0))
backwards a0 a1 a2 a3 a4 a5 a6 a7 a8 = parts_ext _ _ (omega (arith, +ℤ_parts))

-- The product of an element that holds the weight `w` and the byte `x`, or of one that is switched off.
product-edge :
    (u : PeIn) (p : Pe) (w x : ℕ)
    → p.weights u.weight_sel ≡ w
    → w < 256
    → (u.pe_en ≡ true → p.imap_r ≡ x)
    → x < 256
    → (pe_edge u p).product ≡ (if u.pe_en then signed8 x else pos 0) *ℤ signed8 w
unfolding pe_edge
product-edge u p w x weight small value byte = elim (Bool-cases u.pe_en) [
  | inl on ↦
      rw (on, weight, value on)
        (wrap-eq_self (2 ^ 15) 16384 _ (omega arith)
            (mul-Within (signed8 w) (signed8 x) (signed8-Within w small) (signed8-Within x byte))
          ∙ *ℤ_comm (signed8 w) (signed8 x))
  | inr off ↦ rw off (sym (zero-*ℤ (signed8 w)))
]

pe_wire_lem : (e : ℕ) → e < 9 → pe_wire e ≡ 56 * (e / 3) + e % 3
unfolding pe_wire
pe_wire_lem e h = ground arith

pub padded-Within : (x : ℕ → ℕ) (r c : ℕ) → ((n : ℕ) → x n < 256) → Within 128 (padded x r c)
padded-Within x r c bytes = elim (Bool-cases (border r c)) [
  | inl out ↦ rw out (omega arith)
  | inr within ↦ rw within (signed8-Within _ (bytes _))
]

-- The map whose pixels come in from the edge `start` on, one at each edge.
abbrev pub map_of : (ℕ → ArrayIn) → ℕ → ℕ → ℕ
map_of u start n = (u (start + n)).imap_in

-- The edge before the one at which the centre of the kernel is at the pixel in row `i` and column `j`.
abbrev pub centre : ℕ → ℕ → ℕ → ℕ
centre start i j = start + (57 + (56 * i + j))

-- Kernel row and column of an element.
abbrev pub row_of : ℕ → ℕ
row_of e = 2 - e / 3

abbrev pub column_of : ℕ → ℕ
column_of e = 2 - e % 3

-- At the edge `suc (centre start i j)` the elements are switched on as the border of the map demands, and hold
-- the kernel `w` with the 1x1 weight `w1`, in the buffers that are selected.
pub record Set (u : ℕ → ArrayIn) (s : SystolicArray) (start i j : ℕ) (w : ℕ → ℕ) (w1 : ℕ)
    : Type 0 where
  pub enabled :
      (e : ℕ)
      → e < 9
      → (u (suc (centre start i j))).pe_en e ≡ not (border (i + row_of e) (j + column_of e))
  pub enabled_1x1 : (u (suc (centre start i j))).pe_en 9 ≡ true
  pub weight :
      (e : ℕ)
      → e < 9
      → ((array_at u s (suc (centre start i j))).pes e).weights
          (u (suc (centre start i j))).weight_sel
        ≡ w (8 - e)
  pub weight_1x1 :
      ((array_at u s (suc (centre start i j))).pes 9).weights
        (u (suc (centre start i j))).weight_sel
      ≡ w1
  pub small : (k : ℕ) → w k < 256
  pub small_1x1 : w1 < 256
  pub bytes : (n : ℕ) → map_of u start n < 256

module _ (u : ℕ → ArrayIn) (s : SystolicArray) (start stop : ℕ)
    (on : (k : ℕ) → start ≤ k → k < stop → (u k).pipe_en ≡ true) where
  held :
      (e t n : ℕ)
      → n + pe_wire e + start ≡ t
      → pe_wire e ≤ 115
      → t < stop
      → ((array_at u s (suc t)).pes e).imap_r ≡ map_of u start n
  unfolding array_at
  held e t n time near ends =
      let when : t ≡ pe_wire e + (start + n) = omega arith in
      imap_r-edge (u t) (array_at u s t) e (on t (omega arith) ends)
      ∙ rw when (
          imap_pipe-array_at u s stop (start + n) (pe_wire e) (λ k h g. on k (omega arith) g) near
            (omega arith))

  inside : (r c : ℕ) → border r c ≡ false → (0 < r) × (0 < c)
  inside r c h = ground arith

  held_3x3 :
      (e i j : ℕ)
      → e < 9
      → border (i + row_of e) (j + column_of e) ≡ false
      → centre start i j < stop
      → ((array_at u s (suc (centre start i j))).pes e).imap_r
        ≡ map_of u start ((i + row_of e - 1) * 56 + (j + column_of e - 1))
  held_3x3 e i j h within ends =
      let (low, left) = inside (i + row_of e) (j + column_of e) within in
      let wire = pe_wire_lem e h in
      held e (centre start i j) ((i + row_of e - 1) * 56 + (j + column_of e - 1)) (omega arith)
        (omega arith) ends

  module _ (i j : ℕ) (w : ℕ → ℕ) (w1 : ℕ) (h : Set u s start i j w w1)
      (ends : centre start i j + 4 ≤ stop) where
    -- What element `e` contributes.
    abbrev term : ℕ → ℤ
    term e = padded (map_of u start) (i + row_of e) (j + column_of e) *ℤ signed8 (w (8 - e))

    masked : (b c : Bool) (a : ℤ) → b ≡ not c → (if b then a else pos 0) ≡ (if c then pos 0 else a)
    masked true true a e = absurd (cc)
    masked true false a e = refl
    masked false true a e = refl
    masked false false a e = absurd (cc)

    product_3x3 :
        (e : ℕ) → e < 9 → ((array_at u s (suc (suc (centre start i j)))).pes e).product ≡ term e
    unfolding array_at array_edge pe_in
    product_3x3 e low =
        product-edge (pe_in (u (suc (centre start i j))) (array_at u s (suc (centre start i j))) e)
          ((array_at u s (suc (centre start i j))).pes e) (w (8 - e))
          (map_of u start ((i + row_of e - 1) * 56 + (j + column_of e - 1))) (h.weight e low)
          (h.small (8 - e))
          (λ active. held_3x3 e i j low (ground (arith, h.enabled e low)) (omega arith)) (h.bytes _)
        ∙ ap (λ a. a *ℤ signed8 (w (8 - e))) (masked _ _ _ (h.enabled e low))

    term-Within : (e : ℕ) → e < 9 → Within 16384 (term e)
    term-Within e low =
        mul-Within _ _ (padded-Within (map_of u start) (i + row_of e) (j + column_of e) h.bytes)
          (signed8-Within _ (h.small (8 - e)))

    terms : sum_range 9 0 term ≡ conv (map_of u start) w i j
    unfolding sum_range conv
    terms =
        backwards (term 0) (term 1) (term 2) (term 3) (term 4) (term 5) (term 6) (term 7) (term 8)

    pub psum_3x3_lem :
        (array_at u s (suc (suc (suc (suc (centre start i j)))))).tree.psum_s4_r
        ≡ conv (map_of u start) w i j
    unfolding array_at array_edge
    psum_3x3_lem =
        let c : ℕ = centre start i j in
        let now : SystolicArray = array_at u s (suc (suc c)) in
        let later : SystolicArray = array_at u s (suc (suc (suc c))) in
        rw
          (
            on (suc (suc c)) (omega arith) (omega arith),
            on (suc (suc (suc c))) (omega arith) (omega arith),
          )
          (tree3x3_lem (λ e. (now.pes e).product) (λ e. (later.pes e).product) now.tree
              (λ e low. rw (product_3x3 e low) (term-Within e low))
            ∙ sum_range_ext 9 0 9 _ term (omega arith) (λ e _ low. product_3x3 e low)
            ∙ terms)

    pub product_1x1_lem :
        (array_at u s (suc (suc (suc (suc (centre start i j)))))).product_1x1_d2
        ≡ signed8 (map_of u start (56 * i + j)) *ℤ signed8 w1
    unfolding array_at array_edge pe_in
    product_1x1_lem =
        let c : ℕ = centre start i j in
        let at_wire : pe_wire 9 ≡ 57 = unfold pe_wire in refl in
        let held_here =
          held 9 c (56 * i + j) (omega (arith, at_wire)) (omega (arith, at_wire)) (omega arith) in
        rw
          (
            on (suc (suc c)) (omega arith) (omega arith),
            on (suc (suc (suc c))) (omega arith) (omega arith),
          )
          (product-edge (pe_in (u (suc c)) (array_at u s (suc c)) 9) ((array_at u s (suc c)).pes 9)
              w1 (map_of u start (56 * i + j)) h.weight_1x1 h.small_1x1 (λ active. held_here)
              (h.bytes _)
            ∙ rw h.enabled_1x1 refl)

    pub identity_lem :
        (array_at u s (suc (suc (suc (suc (centre start i j)))))).identity_d4
        ≡ map_of u start (56 * i + j)
    unfolding array_at array_edge
    identity_lem =
        let c : ℕ = centre start i j in
        let when : c ≡ 57 + (start + (56 * i + j)) = omega arith in
        rw
          (
            on c (omega arith) (omega arith),
            on (suc c) (omega arith) (omega arith),
            on (suc (suc c)) (omega arith) (omega arith),
            on (suc (suc (suc c))) (omega arith) (omega arith),
          )
          (rw when (
            imap_pipe-array_at u s stop (start + (56 * i + j)) 57 (λ k h g. on k (omega arith) g)
              (omega arith) (omega arith)))
