-- ===== src/App/Check/Conv.antt =====
-- The loops of `check_result` compute the convolutions, as far as the padding test is right.
use rep_vgg_acc.Base.{
  ℕ, ◌+◌, ◌-◌, ◌*◌, ◌/◌, ◌%◌, ◌^◌, ◌<◌, ◌≡◌, Bool, true, false, refl, sym, ap, ◌∙◌, inl, inr,
  Bool-cases, ◌==◌, if◌then◌else◌, arith,
}
use rep_vgg_acc.Base.Int.{ℤ, pos, ◌+ℤ◌, ◌*ℤ◌, signed8, +ℤ-zero}
use rep_vgg_acc.Base.Loop.{
  for_range, sum_range, for_range-sum, sum_range_ext, sum_range_group, sum_range_zero, zero-+ℤ,
  zero-*ℤ,
}
use rep_vgg_acc.Bits.Law.{and_mask}
use rep_vgg_acc.App.Check.{Memory, W3, byte_of, imap_word, is_padding, add_tap, psum3x3}
use rep_vgg_acc.App.Check.Spec.{channel, padded, tap, conv3x3}

-- Byte `n` of word `ich` of a pixel is its channel `4 * ich + n`.
pub byte-channel :
    (mem : Memory) (x ich n : ℕ)
    → n < 4
    → signed8 (byte_of (imap_word mem x ich) n) ≡ channel mem x (ich * 4 + n)
unfolding byte_of imap_word channel
byte-channel mem x ich n h =
    let word : (ich * 4 + n) / 4 ≡ ich = omega arith in
    let place : (ich * 4 + n) % 4 ≡ n = omega arith in
    let addr : 0x4000_0000 + (0 + (x * 16 + ich) * 4) ≡ 0x4000_0000 + (x * 16 + ich) * 4 =
      omega arith in
    rw (word, place, and_mask 8 (mem (0x4000_0000 + (0 + (x * 16 + ich) * 4)) / 2 ^ (8 * n)), addr)
      refl

-- A tap over padding adds nothing.
padded_sum :
    (b : Bool) (f g : ℕ → ℤ)
    → (if b then pos 0 else sum_range 64 0 (λ c. f c *ℤ g c))
      ≡ sum_range 64 0 (λ c. (if b then pos 0 else f c) *ℤ g c)
padded_sum false f g = refl
padded_sum true f g = sym (sum_range_zero 64 0 (λ c. pos 0 *ℤ g c) (λ c. zero-*ℤ (g c)))

drop_last : (f g : ℕ → ℤ) → f 0 ≡ g 0 → f 1 ≡ g 1 → f 2 ≡ pos 0 → sum_range 3 0 f ≡ sum_range 2 0 g
unfolding sum_range
drop_last f g e0 e1 e2 = rw (e0, e1, e2, +ℤ-zero) refl

module _ (mem : Memory) (w3 : W3) (och : ℕ) where
  -- A tap that is not padding, over the pixel with the linear index `x`.
  abbrev pub pixel_sum : ℕ → ℕ → ℤ
  pixel_sum x t = sum_range 64 0 λ c. channel mem x c *ℤ signed8 (w3 och c t)

  -- What the tap adds, padding included.
  abbrev code_tap : ℕ → ℕ → ℕ → ℕ → ℤ
  code_tap i j k m =
      if is_padding (i + k) (j + m)
      then pos 0
      else pixel_sum ((i + k - 1) * 56 + (j + m - 1)) (k * 3 + m)

  pub channel_loop :
      (x t : ℕ) (psum : ℤ)
      → for_range 16 0
          (λ ich. for_range 4 0 λ n a.
            a +ℤ signed8 (byte_of (imap_word mem x ich) n) *ℤ signed8 (w3 och (ich * 4 + n) t))
          psum
        ≡ psum +ℤ pixel_sum x t
  channel_loop x t psum =
      let g : ℕ → ℤ = λ c. channel mem x c *ℤ signed8 (w3 och c t) in
      for_range-sum 16 0 16 (λ ich. sum_range 4 0 (λ n. g (ich * 4 + n))) _ refl
        (λ ich a p.
          for_range-sum 4 0 4 (λ n. g (ich * 4 + n)) _ refl
            (λ n b q.
              ap (λ v. b +ℤ v *ℤ signed8 (w3 och (ich * 4 + n) t)) (byte-channel mem x ich n q))
            a)
        psum
      ∙ ap (λ v. psum +ℤ v) (sum_range_group 16 0 g)

  add_tap_lem :
      (i j k m : ℕ) (psum : ℤ) → add_tap mem w3 och i j k m psum ≡ psum +ℤ code_tap i j k m
  unfolding add_tap
  add_tap_lem i j k m psum = elim (Bool-cases (is_padding (i + k) (j + m))) [
    | inl pad ↦ rw pad refl
    | inr inside ↦ rw inside (channel_loop ((i + k - 1) * 56 + (j + m - 1)) (k * 3 + m) psum)
  ]

  psum3x3_lem :
      (i j : ℕ)
      → psum3x3 mem w3 och i j ≡ sum_range 3 0 (λ k. sum_range 3 0 (λ m. code_tap i j k m))
  unfolding psum3x3
  psum3x3_lem i j =
      for_range-sum 3 0 3 (λ k. sum_range 3 0 (λ m. code_tap i j k m)) _ refl
        (λ k a p.
          for_range-sum 3 0 3 (λ m. code_tap i j k m) _ refl (λ m b q. add_tap_lem i j k m b) a)
        (pos 0)
      ∙ zero-+ℤ _

  -- The padding test is right at the columns 0 to 55 of the padded map.
  code_tap-eq-tap : (i j k m : ℕ) → j + m < 56 → code_tap i j k m ≡ tap mem w3 och i j k m
  unfolding is_padding tap padded
  code_tap-eq-tap i j k m h =
      let right : (j + m == 56) ≡ false = ground arith in
      let right' : (j + m == 57) ≡ false = ground arith in
      rw (right, right') (padded_sum _ _ (λ c. signed8 (w3 och c (k * 3 + m))))

  -- At column 56 the code takes the last column of the map for padding.
  code_tap_dropped : (i j k m : ℕ) → j + m ≡ 56 → code_tap i j k m ≡ pos 0
  unfolding is_padding
  code_tap_dropped i j k m h =
      let pad : is_padding (i + k) (j + m) ≡ true = ground arith in rw pad refl

  -- The 3x3 branch is the zero-padded convolution at every output pixel but those of the last two
  -- columns.
  pub psum3x3-eq-conv3x3 : (i j : ℕ) → j < 54 → psum3x3 mem w3 och i j ≡ conv3x3 mem w3 och i j
  unfolding conv3x3
  psum3x3-eq-conv3x3 i j h =
      psum3x3_lem i j
      ∙ sum_range_ext 3 0 3 _ _ refl
          λ k _ p. sum_range_ext 3 0 3 _ _ refl λ m _ q. code_tap-eq-tap i j k m (omega arith)

  -- In the last column but one the column of the kernel that meets the last column of the map is left
  -- out of the sum.
  pub psum3x3-column_54 :
      (i : ℕ)
      → psum3x3 mem w3 och i 54 ≡ sum_range 3 0 (λ k. sum_range 2 0 (λ m. tap mem w3 och i 54 k m))
  psum3x3-column_54 i =
      psum3x3_lem i 54
      ∙ sum_range_ext 3 0 3 _ _ refl λ k _ p.
        drop_last (λ m. code_tap i 54 k m) _ (code_tap-eq-tap i 54 k 0 (omega arith))
          (code_tap-eq-tap i 54 k 1 (omega arith)) (code_tap_dropped i 54 k 2 refl)
