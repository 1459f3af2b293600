-- ===== src/Mac/Unit/Border.antt =====
-- The elements that a state switches on are those that lie on the map.
use rep_vgg_acc.Base.{
  ℕ, zero, suc, ◌+◌, ◌<◌, ◌≡◌, refl, ap, ◌∙◌, Bool, true, false, not, ◌&&◌, ◌||◌, ◌==◌,
  if◌then◌else◌, Bool-cases, inl, inr, arith,
}
use rep_vgg_acc.Bits.{bit}
use rep_vgg_acc.Mac.Spec.{border}
use rep_vgg_acc.Mac.Array.Conv.{row_of, column_of}
use rep_vgg_acc.Mac.Control.{
  State, conv_s0, conv_s1, conv_s2, conv_s3, conv_s4, conv_s5, conv_s6, conv_s7, conv_s8, pe_en,
}
use rep_vgg_acc.Mac.Control.Position.{region}

-- The first, a middle, or the last row or column.
data Third : Type 0 where
  low middle high : Third

third : ℕ → Third
third n = if n == 0 then low else if n == 55 then high else middle

state_of : Third → Third → State
state_of low low = conv_s0
state_of low middle = conv_s1
state_of low high = conv_s2
state_of middle low = conv_s3
state_of middle middle = conv_s4
state_of middle high = conv_s5
state_of high low = conv_s6
state_of high middle = conv_s7
state_of high high = conv_s8

region-state_of : (r c : ℕ) → region r c ≡ state_of (third r) (third c)
unfolding region third state_of
region-state_of r c = elim (Bool-cases (r == 0)) [
  | inl a ↦ rw a (columns conv_s0 conv_s1 conv_s2 low refl refl refl)
  | inr a ↦ elim (Bool-cases (r == 55)) [
    | inl b ↦ rw (a, b) (columns conv_s6 conv_s7 conv_s8 high refl refl refl)
    | inr b ↦ rw (a, b) (columns conv_s3 conv_s4 conv_s5 middle refl refl refl)
  ]
]
  where
    columns :
        (x y z : State) (a : Third)
        → x ≡ state_of a low
        → y ≡ state_of a middle
        → z ≡ state_of a high
        → (if c == 0 then x else if c == 55 then z else y) ≡ state_of a (third c)
    columns x y z a ex ey ez = elim (Bool-cases (c == 0)) [
      | inl p ↦ rw p ex
      | inr p ↦ elim (Bool-cases (c == 55)) [ inl q ↦ rw (p, q) ez | inr q ↦ rw (p, q) ey ]
    ]

-- Whether a tap with offset `k` is off the map.
off : ℕ → Third → Bool
off zero low = true
off (suc (suc k)) high = true
off k t = false

agrees : ℕ → Third → Third → Bool
agrees e a b =
    let out : Bool = off (row_of e) a || off (column_of e) b in
    if bit (pe_en (state_of a b)) e == 1 then not out else out

all_agree : ℕ → Third → Third → Bool
all_agree zero a b = true
all_agree (suc n) a b = agrees n a b && all_agree n a b

table : (a b : Third) → all_agree 9 a b ≡ true
unfolding all_agree agrees off state_of bit
table low low = refl
table low middle = refl
table low high = refl
table middle low = refl
table middle middle = refl
table middle high = refl
table high low = refl
table high middle = refl
table high high = refl

agrees_below : (n e : ℕ) (a b : Third) → all_agree n a b ≡ true → e < n → agrees e a b ≡ true
unfolding all_agree
agrees_below zero e a b all h = absurd (omega arith)
agrees_below (suc n) e a b all h = elim (Bool-cases (e == n)) [
  | inl last ↦ let same : e ≡ n = ground arith in rw same (ground arith)
  | inr before ↦ agrees_below n e a b (ground arith) (ground arith)
]

off_map : (k n : ℕ) → k < 3 → n < 56 → (n + k == 0 || n + k == 57) ≡ off k (third n)
unfolding off third
off_map zero n hk h = ground arith
off_map (suc zero) n hk h = ground arith
off_map (suc (suc zero)) n hk h = ground arith
off_map (suc (suc (suc k))) n hk h = absurd (omega arith)

choice : (b o : Bool) → (if b then not o else o) ≡ true → b ≡ not o
choice true true e = absurd (cc)
choice true false e = refl
choice false true e = refl
choice false false e = absurd (cc)

or_assoc : (a b c d : Bool) → ((a || b) || (c || d)) ≡ (a || b || c || d)
or_assoc true b c d = refl
or_assoc false true c d = refl
or_assoc false false c d = refl

pub on_map :
    (e r c : ℕ)
    → e < 9
    → r < 56
    → c < 56
    → (bit (pe_en (region r c)) e == 1) ≡ not (border (r + row_of e) (c + column_of e))
unfolding agrees
on_map e r c he hr hc =
    let o = choice _ _ (agrees_below 9 e (third r) (third c) (table (third r) (third c)) he) in
    let rows = off_map (row_of e) r (omega arith) hr in
    let columns = off_map (column_of e) c (omega arith) hc in
    rw (region-state_of r c) (
      o
      ∙ ap not (
          rw (← rows, ← columns)
            (or_assoc (r + row_of e == 0) (r + row_of e == 57) (c + column_of e == 0)
              (c + column_of e == 57))))

state_of-1x1 : (a b : Third) → (bit (pe_en (state_of a b)) 9 == 1) ≡ true
unfolding state_of bit
state_of-1x1 low low = refl
state_of-1x1 low middle = refl
state_of-1x1 low high = refl
state_of-1x1 middle low = refl
state_of-1x1 middle middle = refl
state_of-1x1 middle high = refl
state_of-1x1 high low = refl
state_of-1x1 high middle = refl
state_of-1x1 high high = refl

pub on_1x1 : (r c : ℕ) → (bit (pe_en (region r c)) 9 == 1) ≡ true
on_1x1 r c = rw (region-state_of r c) (state_of-1x1 (third r) (third c))
