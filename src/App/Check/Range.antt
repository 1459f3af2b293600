-- ===== src/App/Check/Range.antt =====
-- The sums of `check_result` fit into `int32_t`.
use rep_vgg_acc.Base.{ℕ, ◌+◌, ◌-◌, ◌*◌, ◌/◌, ◌^◌, ◌≤◌, ◌<◌, inl, inr, Bool-cases, arith}
use rep_vgg_acc.Base.Int.{ℤ, pos}
use rep_vgg_acc.Base.Bound.{Within, signed8-Within, mul-Within, add-Within}
use rep_vgg_acc.Base.Loop.{for_range, for_range_inv}
use rep_vgg_acc.Bits.Law.{and_mask}
use rep_vgg_acc.App.Check.{Memory, W3, byte_of, imap_word, add_tap, psum3x3, is_padding}

byte_of-lt : (word n : ℕ) → byte_of word n < 256
unfolding byte_of
byte_of-lt word n = omega (arith, and_mask 8 (word / 2 ^ (8 * n)))

wider : (d x y : ℕ) → x ≤ y → (a : ℤ) → Within (d + x) a → Within (d + y) a
wider d x y h a w = omega arith

-- Each round moves the sum by at most `c`.
loop-Within :
    (c n b : ℕ) (body : ℕ → ℤ → ℤ)
    → ((x : ℕ) (d : ℕ) (a : ℤ) → Within d a → Within (d + c) (body x a))
    → (a : ℤ) → Within b a
    → Within (b + n * c) (for_range n 0 body a)
loop-Within c n b body h a p =
    for_range_inv (λ x s. Within (b + x * c) s) body n 0 n
      (λ x s _ _ w. let next = h x (b + x * c) s w in (grind arith, grind arith)) a (omega arith)
      (omega arith)

module _ (mem : Memory) (w3 : W3) (bytes : (m c t : ℕ) → w3 m c t < 256) (och : ℕ) where
  add_tap-Within :
      (i j k m d : ℕ) (a : ℤ) → Within d a → Within (d + 1048576) (add_tap mem w3 och i j k m a)
  unfolding add_tap
  add_tap-Within i j k m d a p = elim (Bool-cases (is_padding (i + k) (j + m))) [
    | inl pad ↦
        rw pad (wider d 0 1048576 (omega arith) _ (add-Within d 0 a (pos 0) p (omega arith)))
    | inr inside ↦ rw inside (
        loop-Within 65536 16 d _
          (λ ich e b q.
            loop-Within 16384 4 e _
              (λ n f c r. add-Within f 16384 c _ r (
                mul-Within _ _
                  (signed8-Within _
                    (byte_of-lt (imap_word mem ((i + k - 1) * 56 + (j + m - 1)) ich) n))
                  (signed8-Within _ (bytes och (ich * 4 + n) (k * 3 + m)))))
              b q)
          a p)
  ]

  -- The 3x3 sum has a magnitude of at most 576 * 2 ^ 14, so it fits into an `int32_t`.
  pub psum3x3-Within : (i j : ℕ) → Within 9437184 (psum3x3 mem w3 och i j)
  unfolding psum3x3
  psum3x3-Within i j =
      loop-Within 3145728 3 0 _
        (λ k d a p. loop-Within 1048576 3 d _ (λ m e b q. add_tap-Within i j k m e b q) a p) (pos 0)
        (omega arith)
