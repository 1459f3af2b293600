-- ===== src/Mac/Tree/Sum.antt =====
-- The trees give the sum of their inputs, three or two edges later.
use rep_vgg_acc.Base.{
  ℕ, zero, suc, ◌+◌, ◌*◌, ◌^◌, ◌<◌, ◌≡◌, ◌∙◌, refl, sym, ap, ap₂, true, if◌then◌else◌, ltb,
  Bool-cases, inl, inr, arith,
}
use mathlib.Core.Path.{fun_ext}
use rep_vgg_acc.Base.Int.{ℤ, pos, ◌+ℤ◌, +ℤ_assoc, +ℤ-zero}
use rep_vgg_acc.Base.Bound.{Within, add-Within, wrap-eq_self}
use rep_vgg_acc.Base.Loop.{sum_range, sum_range_ext, sum_range_group}
use rep_vgg_acc.Mac.Tree.{add, Tree3x3, tree3x3_edge, TreeIch, tree_ich_edge}

pub add-eq :
    (half x y : ℕ) (a b : ℤ) → x + y < half → Within x a → Within y b → add half a b ≡ a +ℤ b
add-eq half x y a b h p q = wrap-eq_self half (x + y) (a +ℤ b) h (add-Within x y a b p q)

-- Four inputs through two levels of the tree.
quad :
    (half b : ℕ) (a0 a1 a2 a3 : ℤ)
    → b + b + (b + b) < half
    → Within b a0
    → Within b a1
    → Within b a2
    → Within b a3
    → add half (add half a0 a1) (add half a2 a3) ≡ a0 +ℤ a1 +ℤ (a2 +ℤ a3)
quad half b a0 a1 a2 a3 h p0 p1 p2 p3 =
    rw (add-eq half b b a0 a1 (omega arith) p0 p1, add-eq half b b a2 a3 (omega arith) p2 p3)
      (add-eq half (b + b) (b + b) (a0 +ℤ a1) (a2 +ℤ a3) h (add-Within b b a0 a1 p0 p1)
        (add-Within b b a2 a3 p2 p3))

-- The sum of four elements, in the order of a loop.
four : (a0 a1 a2 a3 : ℤ) → a0 +ℤ a1 +ℤ (a2 +ℤ a3) ≡ a0 +ℤ (a1 +ℤ (a2 +ℤ (a3 +ℤ pos 0)))
four a0 a1 a2 a3 = rw (+ℤ-zero, +ℤ_assoc) refl

-- Two levels of the tree add groups of four.
quads :
    (half b : ℕ) (f : ℕ → ℤ)
    → b + b + (b + b) < half
    → ((x : ℕ) → Within b (f x))
    → (i : ℕ)
    → add half
        (add half (f (2 * (2 * i))) (f (2 * (2 * i) + 1)))
        (add half (f (2 * (2 * i + 1))) (f (2 * (2 * i + 1) + 1)))
      ≡ sum_range 4 0 (λ y. f (i * 4 + y))
unfolding sum_range
quads half b f h w i =
    let e0 : 2 * (2 * i) ≡ i * 4 + 0 = omega arith in
    let e1 : 2 * (2 * i) + 1 ≡ i * 4 + 1 = omega arith in
    let e2 : 2 * (2 * i + 1) ≡ i * 4 + 2 = omega arith in
    let e3 : 2 * (2 * i + 1) + 1 ≡ i * 4 + 3 = omega arith in
    rw (e1, e0, e3, e2)
      (quad half b (f (i * 4 + 0)) (f (i * 4 + 1)) (f (i * 4 + 2)) (f (i * 4 + 3)) h (w _) (w _)
          (w _) (w _)
        ∙ four _ _ _ _)

pub sum_range-Within :
    (b : ℕ) (f : ℕ → ℤ) → ((x : ℕ) → Within b (f x)) → (n i : ℕ) → Within (n * b) (sum_range n i f)
unfolding sum_range
sum_range-Within b f w zero i = omega arith
sum_range-Within b f w (suc n) i =
    let both =
      add-Within b (n * b) (f i) (sum_range n (i + 1) f) (w i) (sum_range-Within b f w n (i + 1)) in
    (grind (arith, both.0), grind (arith, both.1))

-- The sum of nine elements, in the order of a loop.
nine :
    (a0 a1 a2 a3 a4 a5 a6 a7 a8 : ℤ)
    → a0 +ℤ (a1 +ℤ (a2 +ℤ (a3 +ℤ pos 0))) +ℤ (a4 +ℤ (a5 +ℤ (a6 +ℤ (a7 +ℤ pos 0)))) +ℤ a8
      ≡ a0 +ℤ (a1 +ℤ (a2 +ℤ (a3 +ℤ (a4 +ℤ (a5 +ℤ (a6 +ℤ (a7 +ℤ (a8 +ℤ pos 0))))))))
nine a0 a1 a2 a3 a4 a5 a6 a7 a8 = simp (+ℤ-zero, +ℤ_assoc)

-- The inputs of a tree that has `n` of them.
abbrev first : ℕ → (ℕ → ℤ) → ℕ → ℤ
first n p x = if ltb x n then p x else pos 0

first-Within :
    (n b : ℕ) (p : ℕ → ℤ) → ((x : ℕ) → x < n → Within b (p x)) → (x : ℕ) → Within b (first n p x)
first-Within n b p w x = elim (Bool-cases (ltb x n)) [
  | inl low ↦ rw low (w x (ground arith))
  | inr high ↦ rw high (omega arith)
]

first_sum : (n : ℕ) (p : ℕ → ℤ) → sum_range n 0 (first n p) ≡ sum_range n 0 p
first_sum n p =
    sum_range_ext n 0 n (first n p) p (omega arith)
      λ x _ h. let low : ltb x n ≡ true = ground arith in rw low refl

tree3x3_all :
    (p q : ℕ → ℤ) (t : Tree3x3)
    → ((x : ℕ) → Within 16384 (p x))
    → (tree3x3_edge true q (tree3x3_edge true p t)).psum_s4_r ≡ sum_range 9 0 p
unfolding tree3x3_edge sum_range
tree3x3_all p q t w =
    let low = quads (2 ^ 31) 16384 p (omega arith) w 0 in
    let high = quads (2 ^ 31) 16384 p (omega arith) w 1 in
    let four_low = sum_range-Within 16384 (λ y. p (0 * 4 + y)) (λ x. w _) 4 0 in
    let four_high = sum_range-Within 16384 (λ y. p (1 * 4 + y)) (λ x. w _) 4 0 in
    ap₂ (λ a b. add (2 ^ 31) (add (2 ^ 31) a b) (p 8)) low high
    ∙ ap (λ a. add (2 ^ 31) a (p 8))
        (add-eq (2 ^ 31) 65536 65536 _ _ (omega arith) four_low four_high)
    ∙ add-eq (2 ^ 31) 131072 16384 _ (p 8) (omega arith)
        (add-Within 65536 65536 _ _ four_low four_high) (w 8)
    ∙ nine (p 0) (p 1) (p 2) (p 3) (p 4) (p 5) (p 6) (p 7) (p 8)

-- adder_tree_3x3: the sum of nine products, after two edges with `pipe_en`.
pub tree3x3_lem :
    (p q : ℕ → ℤ) (t : Tree3x3)
    → ((x : ℕ) → x < 9 → Within 16384 (p x))
    → (tree3x3_edge true q (tree3x3_edge true p t)).psum_s4_r ≡ sum_range 9 0 p
unfolding tree3x3_edge
tree3x3_lem p q t w = tree3x3_all (first 9 p) q t (first-Within 9 16384 p w) ∙ first_sum 9 p

-- The last three levels of adder_tree_ich.
abbrev eight : ℕ → (ℕ → ℤ) → ℤ
eight half s =
    add half (add half (add half (s 0) (s 1)) (add half (s 2) (s 3)))
      (add half (add half (s 4) (s 5)) (add half (s 6) (s 7)))

two :
    (g : ℕ → ℤ)
    → sum_range 4 0 (λ y. g (0 * 4 + y)) +ℤ sum_range 4 0 (λ y. g (1 * 4 + y))
      ≡ sum_range 2 0 (λ x. sum_range 4 0 (λ y. g (x * 4 + y)))
unfolding sum_range
two g = ap (λ z. sum_range 4 0 (λ y. g (0 * 4 + y)) +ℤ z) (sym (+ℤ-zero _))

tree_ich_all :
    (half b : ℕ) (p q r : ℕ → ℤ) (t : TreeIch)
    → 32 * b < half
    → ((x : ℕ) → Within b (p x))
    → (tree_ich_edge half true r
        (tree_ich_edge half true q (tree_ich_edge half true p t))).psum_s5_r
      ≡ sum_range 32 0 p
unfolding tree_ich_edge
tree_ich_all half b p q r t h w =
    let g : ℕ → ℤ = λ i. sum_range 4 0 (λ y. p (i * 4 + y)) in
    let g-Within : (i : ℕ) → Within (4 * b) (g i) = λ i. sum_range-Within b _ (λ x. w _) 4 0 in
    let low = quads half (4 * b) g (omega arith) g-Within 0 in
    let high = quads half (4 * b) g (omega arith) g-Within 1 in
    let side : (i : ℕ) → Within (4 * (4 * b)) (sum_range 4 0 (λ y. g (i * 4 + y))) =
      λ i. sum_range-Within (4 * b) _ (λ x. g-Within _) 4 0 in
    ap (λ s. eight half s) (fun_ext (quads half b p (omega arith) w))
    ∙ ap₂ (add half) low high
    ∙ add-eq half (4 * (4 * b)) (4 * (4 * b)) _ _ (omega arith) (side 0) (side 1)
    ∙ two g
    ∙ sum_range_group 2 0 g
    ∙ sum_range_group 8 0 p

-- adder_tree_ich: the sum over 32 channels, after three edges with `pipe_en`.
pub tree_ich_lem :
    (half b : ℕ) (p q r : ℕ → ℤ) (t : TreeIch)
    → 32 * b < half
    → ((x : ℕ) → x < 32 → Within b (p x))
    → (tree_ich_edge half true r
        (tree_ich_edge half true q (tree_ich_edge half true p t))).psum_s5_r
      ≡ sum_range 32 0 p
unfolding tree_ich_edge
tree_ich_lem half b p q r t h w =
    tree_ich_all half b (first 32 p) q r t h (first-Within 32 b p w) ∙ first_sum 32 p
