-- ===== src/Mac/Array/Shift.antt =====
-- The map moves through the array by one wire at each edge with `pipe_en`.
use rep_vgg_acc.Base.{
  ℕ, zero, suc, ◌+◌, ◌-◌, ◌<◌, ◌≤◌, ◌≡◌, refl, ◌∙◌, ltb, true, false, ◌==◌, Bool-cases, inl, inr,
  arith,
}
use rep_vgg_acc.Mac.{pe_edge}
use rep_vgg_acc.Mac.Array.{ArrayIn, SystolicArray, imap_pipe, pe_wire, pe_in, array_edge}

-- The array after `t` edges, with the inputs `u 0`, `u 1` and so on.
unfoldable pub array_at : (ℕ → ArrayIn) → SystolicArray → ℕ → SystolicArray
array_at u s zero = s
array_at u s (suc t) = array_edge (u t) (array_at u s t)

-- Where every register has taken over the wire before it, each wire carries what the one before it did.
wire_moves :
    (v : ArrayIn) (s : SystolicArray) (old : ℕ → ℕ) (j : ℕ)
    → ((i : ℕ) → (s.pes i).imap_r ≡ old (pe_wire i))
    → ((k : ℕ) → s.line k ≡ old (k - 1))
    → j < 115
    → imap_pipe v s (suc j) ≡ old j
unfolding imap_pipe pe_wire
wire_moves v s old j pe line h =
    let here : suc j - 1 ≡ j = omega arith in
    let later : (suc j == 0) ≡ false = ground arith in
    elim (Bool-cases (ltb (suc j) 4)) [
      | inl a ↦
          let low : ltb (suc j - 1) 3 ≡ true = ground arith in
          rw (later, a) (pe (suc j - 1) ∙ rw (low, here) refl)
      | inr a ↦ elim (Bool-cases (ltb (suc j) 57)) [
        | inl b ↦ rw (later, a, b) (line (suc j) ∙ rw here refl)
        | inr b ↦ elim (Bool-cases (ltb (suc j) 60)) [
          | inl c ↦
              let low : ltb (suc j - 57 + 3) 3 ≡ false = ground arith in
              let mid : ltb (suc j - 57 + 3) 6 ≡ true = ground arith in
              let there : suc j - 57 + 3 - 3 + 56 ≡ j = ground arith in
              rw (later, a, b, c) (pe (suc j - 57 + 3) ∙ rw (low, mid, there) refl)
          | inr c ↦ elim (Bool-cases (ltb (suc j) 113)) [
            | inl d ↦ rw (later, a, b, c, d) (line (suc j) ∙ rw here refl)
            | inr d ↦
                let low : ltb (suc j - 113 + 6) 3 ≡ false = ground arith in
                let mid : ltb (suc j - 113 + 6) 6 ≡ false = ground arith in
                let high : ltb (suc j - 113 + 6) 9 ≡ true = ground arith in
                let there : suc j - 113 + 6 - 6 + 112 ≡ j = ground arith in
                rw (later, a, b, c, d) (pe (suc j - 113 + 6) ∙ rw (low, mid, high, there) refl)
          ]
        ]
      ]
    ]

pub imap_r-edge :
    (u : ArrayIn) (s : SystolicArray) (i : ℕ)
    → u.pipe_en ≡ true
    → ((array_edge u s).pes i).imap_r ≡ imap_pipe u s (pe_wire i)
unfolding array_edge pe_edge pe_in
imap_r-edge u s i on = rw on refl

line-edge :
    (u : ArrayIn) (s : SystolicArray) (k : ℕ)
    → u.pipe_en ≡ true
    → (array_edge u s).line k ≡ imap_pipe u s (k - 1)
unfolding array_edge
line-edge u s k on = rw on refl

imap_pipe-edge :
    (u v : ArrayIn) (s : SystolicArray) (j : ℕ)
    → u.pipe_en ≡ true
    → j < 115
    → imap_pipe v (array_edge u s) (suc j) ≡ imap_pipe u s j
imap_pipe-edge u v s j on h =
    wire_moves v (array_edge u s) (imap_pipe u s) j (λ i. imap_r-edge u s i on)
      (λ k. line-edge u s k on) h

imap_pipe-zero : (u : ArrayIn) (s : SystolicArray) → imap_pipe u s 0 ≡ u.imap_in
unfolding imap_pipe
imap_pipe-zero u s = refl

-- With `pipe_en` at the edges `t` to `t + j - 1`, wire `j` carries at time `t + j` what came in at time `t`.
pub imap_pipe-array_at :
    (u : ℕ → ArrayIn) (s : SystolicArray) (stop t j : ℕ)
    → ((k : ℕ) → t ≤ k → k < stop → (u k).pipe_en ≡ true)
    → j ≤ 115
    → j + t ≤ stop
    → imap_pipe (u (j + t)) (array_at u s (j + t)) j ≡ (u t).imap_in
unfolding array_at
imap_pipe-array_at u s stop t zero on h ends =
    let here : 0 + t ≡ t = omega arith in rw here (imap_pipe-zero (u t) (array_at u s t))
imap_pipe-array_at u s stop t (suc j) on h ends =
    let more : suc j + t ≡ suc (j + t) = omega arith in
    rw more (
      imap_pipe-edge (u (j + t)) (u (suc (j + t))) (array_at u s (j + t)) j
        (on (j + t) (omega arith) (omega arith)) (omega arith)
      ∙ imap_pipe-array_at u s stop t j on (omega arith) (omega arith))
