-- ===== src/Mac/Output/Order.antt =====
-- The words reach the memory in the order of the sums.
use rep_vgg_acc.Base.{
  ℕ, suc, ◌+◌, ◌*◌, ◌%◌, Bool, true, false, ◌&&◌, List, [], ◌∷◌, ◌++◌, length, u32, ◌≡◌, refl, sym,
  ◌∙◌, ap, ap₂, if◌then◌else◌, Bool-cases, inl, inr, arith,
}
use rep_vgg_acc.Mac.Unit.{PsumData}
use rep_vgg_acc.Mac.Merge.{map_merger}
use rep_vgg_acc.Mac.Output.{
  Stage, stage_edge, OutputIn, Output, merger_rdy, writes_now, omap_biu2arb_addr, output_edge,
  output_edges, taken, written,
}

-- The words `ws` with their addresses, from word number `n` of the map on; the map has 64 * 3136 words.
abbrev pub numbered : ℕ → ℕ → List ℕ → List (ℕ × ℕ)
numbered base n [] = []
numbered base n (w ∷ ws) = (u32 (base + 4 * (n % 200704)), w) ∷ numbered base (suc n) ws

abbrev of_stage : Stage → List ℕ → List ℕ
of_stage s ws = if s.vld then s.dat ∷ ws else ws

-- The words in the two stages, the oldest first.
abbrev pub pending : Output → List ℕ → List ℕ
pending s ws = of_stage s.queued (of_stage s.merged ws)

abbrev pub merge : List PsumData → List ℕ
merge [] = []
merge (d ∷ ds) = map_merger d ∷ merge ds

abbrev pub HasBase : ℕ → List OutputIn → Type 0
HasBase base [] = Unit
HasBase base (u ∷ us) = (u.omap_base_addr ≡ base) × HasBase base us

-- One edge takes a word in at one end and gives one out at the other, or not.
output_edge-pending :
    (u : OutputIn) (s : Output) (ws : List ℕ)
    → pending s (if u.vld && merger_rdy u s then map_merger u.data_in ∷ ws else ws) ≡ (
        if writes_now u s
        then s.queued.dat ∷ pending (output_edge u s) ws
        else pending (output_edge u s) ws)
unfolding output_edge stage_edge
output_edge-pending u s ws = ground arith

merge-taken :
    (u : OutputIn) (us : List OutputIn) (s : Output)
    → merge (taken (u ∷ us) s) ≡ (
        if u.vld && merger_rdy u s
        then map_merger u.data_in ∷ merge (taken us (output_edge u s))
        else merge (taken us (output_edge u s)))
unfolding taken
merge-taken u us s = elim (Bool-cases (u.vld && merger_rdy u s)) [
  | inl on ↦ rw on refl
  | inr off ↦ rw off refl
]

written-on :
    (u : OutputIn) (us : List OutputIn) (s : Output)
    → writes_now u s ≡ true
    → written (u ∷ us) s ≡ (omap_biu2arb_addr u s, s.queued.dat) ∷ written us (output_edge u s)
unfolding written
written-on u us s on = rw on refl

written-off :
    (u : OutputIn) (us : List OutputIn) (s : Output)
    → writes_now u s ≡ false
    → written (u ∷ us) s ≡ written us (output_edge u s)
unfolding written
written-off u us s off = rw off refl

counted :
    (u : OutputIn) (s : Output) (n : ℕ)
    → s.omap_biu2arb_cnt ≡ n % 200704
    → (output_edge u s).omap_biu2arb_cnt ≡ (if writes_now u s then suc n else n) % 200704
unfolding output_edge
counted u s n e = ground (arith, e)

address :
    (base n : ℕ) (u : OutputIn) (s : Output)
    → u.omap_base_addr ≡ base
    → s.omap_biu2arb_cnt ≡ n % 200704
    → omap_biu2arb_addr u s ≡ u32 (base + 4 * (n % 200704))
unfolding omap_biu2arb_addr
address base n u s same e = ap u32 (omega (arith, same, e))

none_written :
    (base n : ℕ) (s : Output)
    → written [] s ++ numbered base (n + length (written [] s)) (pending s [])
      ≡ numbered base n (pending s (merge (taken [] s)))
unfolding written taken
none_written base n s = ap (λ k. numbered base k (pending s [])) (omega arith)

-- From any state of the two stages, and however psum_acc and the arbiter stall: what is written and then what
-- waits in the stages is what waited and then the sums that were taken, merged, in their order, none lost and
-- none twice, at the addresses base + 4 * n, where `n` starts again after the 200704 words of a map.
pub written-taken :
    (base : ℕ) (us : List OutputIn) (n : ℕ) (s : Output)
    → HasBase base us
    → s.omap_biu2arb_cnt ≡ n % 200704
    → written us s ++ numbered base (n + length (written us s)) (pending (output_edges us s) [])
      ≡ numbered base n (pending s (merge (taken us s)))
unfolding output_edges
written-taken base [] n s h e = none_written base n s
written-taken base (u ∷ us) n s h e =
    let rest : List ℕ = merge (taken us (output_edge u s)) in
    let through : pending s (merge (taken (u ∷ us) s)) ≡ (
        if writes_now u s
        then s.queued.dat ∷ pending (output_edge u s) rest
        else pending (output_edge u s) rest) =
      ap (pending s) (merge-taken u us s) ∙ output_edge-pending u s rest in
    let next : Output = output_edge u s in
    let out : List (ℕ × ℕ) = written us next in
    let waiting : List ℕ = pending (output_edges us next) [] in
    let count : (b : Bool)
        → writes_now u s ≡ b
        → next.omap_biu2arb_cnt ≡ (if b then suc n else n) % 200704 =
      λ b is. counted u s n e ∙ ap (λ x. (if x then suc n else n) % 200704) is in
    let given : (b : Bool)
        → writes_now u s ≡ b
        → (if b then s.queued.dat ∷ pending next rest else pending next rest)
          ≡ pending s (merge (taken (u ∷ us) s)) =
      λ b is. sym (
        through ∙ ap (λ x. if x then s.queued.dat ∷ pending next rest else pending next rest) is) in
    elim (Bool-cases (writes_now u s)) [
      | inl on ↦
          ap (λ x. x ++ numbered base (n + length x) waiting) (written-on u us s on)
          ∙ ap₂ ◌∷◌ (ap (λ a. (a, s.queued.dat)) (address base n u s h.0 e)) (
              ap (λ k. out ++ numbered base k waiting) (omega arith)
              ∙ written-taken base us (suc n) next h.1 (count true on))
          ∙ ap (numbered base n) (given true on)
      | inr off ↦
          ap (λ x. x ++ numbered base (n + length x) waiting) (written-off u us s off)
          ∙ written-taken base us n next h.1 (count false off)
          ∙ ap (numbered base n) (given false off)
    ]
