-- ===== src/Mac/Load/Gather.antt =====
-- The loop that gathers the parts of a word of 256 bits, and the joined addresses.
use rep_vgg_acc.Base.{
  ℕ, zero, suc, ◌+◌, ◌-◌, ◌≤◌, ◌<◌, bit_or, Bool, true, false, ◌||◌, [], ◌∷◌, ◌==◌, ◌≡◌, ◌≢◌, refl,
  ◌∙◌, ap, Bool-cases, inl, inr, arith,
}
use rep_vgg_acc.Mac.Load.{shift_in, gather}
use rep_vgg_acc.Mac.Load.Write.{zero_or, or_zero}

module _ (cs : ℕ → Bool) (dout : ℕ → ℕ) where
  gather_none : (n k : ℕ) → ((x : ℕ) → k ≤ x → x < k + n → cs x ≡ false) → gather cs dout n k ≡ []
  unfolding gather
  gather_none zero k off = refl
  gather_none (suc n) k off =
      rw (off k (omega arith) (omega arith))
        (gather_none n (suc k) λ x a b. off x (omega arith) (omega arith))

  gather_next :
      (n k b : ℕ)
      → k ≤ b
      → b < k + n
      → cs b ≡ true
      → ((x : ℕ) → k ≤ x → x < b → cs x ≡ false)
      → gather cs dout n k ≡ shift_in (dout b) (gather cs dout (k + n - suc b) (suc b))
  unfolding gather
  gather_next zero k b low high on off = absurd (omega arith)
  gather_next (suc n) k b low high on off = elim (Bool-cases (k == b)) [
    | inl test ↦
        let same : k ≡ b = ground (arith, test) in
        let rest : n ≡ k + suc n - suc b = omega arith in rw (← rest, same, on) refl
    | inr test ↦
        let below : k < b = ground (arith, test) in
        let rest : suc k + n ≡ k + suc n = omega arith in
        rw (off k (omega arith) below, ← rest)
          (gather_next n (suc k) b below (omega arith) on λ x l h. off x (omega arith) h)
  ]

  pub gather-four :
      (b0 b1 b2 b3 : ℕ)
      → b0 < b1
      → b1 < b2
      → b2 < b3
      → b3 < 7
      → ((k : ℕ) → cs k ≡ (b0 == k || b1 == k || b2 == k || b3 == k))
      → gather cs dout 7 0 ≡ dout b0 ∷ dout b1 ∷ dout b2 ∷ dout b3 ∷ []
  gather-four b0 b1 b2 b3 l0 l1 l2 l3 chosen =
      let on : (k : ℕ) → (b0 == k || b1 == k || b2 == k || b3 == k) ≡ true → cs k ≡ true =
        λ k e. chosen k ∙ e in
      let off : (k : ℕ) → (b0 == k || b1 == k || b2 == k || b3 == k) ≡ false → cs k ≡ false =
        λ k e. chosen k ∙ e in
      let n1 : ℕ = 0 + 7 - suc b0 in
      let n2 : ℕ = suc b0 + n1 - suc b1 in
      let n3 : ℕ = suc b1 + n2 - suc b2 in
      let n4 : ℕ = suc b2 + n3 - suc b3 in
      gather_next 7 0 b0 (omega arith) (omega arith) (on b0 (ground arith))
        (λ x l h. off x (ground arith))
      ∙ ap (shift_in (dout b0)) (
          gather_next n1 (suc b0) b1 (omega arith) (omega arith) (on b1 (ground arith))
            (λ x l h. off x (ground arith))
          ∙ ap (shift_in (dout b1)) (
              gather_next n2 (suc b1) b2 (omega arith) (omega arith) (on b2 (ground arith))
                (λ x l h. off x (ground arith))
              ∙ ap (shift_in (dout b2)) (
                  gather_next n3 (suc b2) b3 (omega arith) (omega arith) (on b3 (ground arith))
                    (λ x l h. off x (ground arith))
                  ∙ ap (shift_in (dout b3))
                      (gather_none n4 (suc b3) (λ x l h. off x (ground arith))))))

-- Of four masked addresses that are joined only one is not 0.
pub or_four :
    (x : ℕ → ℕ) (j : ℕ)
    → j < 4
    → x j < 4096
    → ((i : ℕ) → i < 4 → i ≢ j → x i ≡ 0)
    → bit_or (bit_or (bit_or (bit_or 0 (x 0)) (x 1)) (x 2)) (x 3) ≡ x j
or_four x zero l small off =
    rw
      (
        zero_or (x 0),
        off 1 (omega arith) (omega arith),
        off 2 (omega arith) (omega arith),
        off 3 (omega arith) (omega arith),
        or_zero (x 0) small,
        or_zero (x 0) small,
        or_zero (x 0) small,
      )
      refl
or_four x (suc zero) l small off =
    rw
      (
        off 0 (omega arith) (omega arith),
        zero_or 0,
        zero_or (x 1),
        off 2 (omega arith) (omega arith),
        off 3 (omega arith) (omega arith),
        or_zero (x 1) small,
        or_zero (x 1) small,
      )
      refl
or_four x (suc (suc zero)) l small off =
    rw
      (
        off 0 (omega arith) (omega arith),
        off 1 (omega arith) (omega arith),
        zero_or 0,
        zero_or 0,
        zero_or (x 2),
        off 3 (omega arith) (omega arith),
        or_zero (x 2) small,
      )
      refl
or_four x (suc (suc (suc zero))) l small off =
    rw
      (
        off 0 (omega arith) (omega arith),
        off 1 (omega arith) (omega arith),
        off 2 (omega arith) (omega arith),
        zero_or 0,
        zero_or (x 3),
      )
      refl
or_four x (suc (suc (suc (suc j)))) l small off = absurd (omega arith)

pub chosen_or :
    (f : ℕ → ℕ) (j : ℕ) → j < 4 → (f 0 == f j || f 1 == f j || f 2 == f j || f 3 == f j) ≡ true
chosen_or f zero l = ground arith
chosen_or f (suc zero) l = ground arith
chosen_or f (suc (suc zero)) l = ground arith
chosen_or f (suc (suc (suc zero))) l = ground arith
chosen_or f (suc (suc (suc (suc j)))) l = absurd (omega arith)
