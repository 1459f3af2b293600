-- ===== src/App/Check/Block.antt =====
-- The three branches of a RepVGG block together, for one output pixel.
use rep_vgg_acc.Base.{
  ℕ, ◌+◌, ◌*◌, ◌<◌, ◌≡◌, ◌∙◌, refl, ap, inl, inr, ◌==◌, if◌then◌else◌, Bool-cases, arith,
}
use rep_vgg_acc.Base.Int.{ℤ, pos, ◌+ℤ◌, signed8}
use rep_vgg_acc.Base.Loop.{for_range, for_range_inv, for_range_map, zero-+ℤ}
use rep_vgg_acc.App.Check.{
  Memory, W3, W1, Branches, Pixel, branches, byte_of, imap_word, relu, quantise, check_pixel,
}
use rep_vgg_acc.App.Check.Spec.{channel, conv3x3, conv1x1}
use rep_vgg_acc.App.Check.Conv.{byte-channel, channel_loop, psum3x3-eq-conv3x3}

module _ (mem : Memory) (w1 : W1) (och i j : ℕ) where
  branches-psum1x1 :
      (garbage : ℤ) → (branches mem w1 och i j garbage).psum1x1 ≡ conv1x1 mem w1 och i j
  unfolding branches conv1x1
  branches-psum1x1 garbage =
      for_range_map (λ (s : Branches). s.psum1x1) _ _
        (λ ich s. for_range_map (λ (s : Branches). s.psum1x1) _ _ (λ n t. refl) 4 0 s) 16 0 _
      ∙ channel_loop mem (λ m c t. w1 m c) och (i * 56 + j) 0 (pos 0)
      ∙ zero-+ℤ _

  -- One round of the search for the input of channel `och`.
  pick : ℕ → ℕ → ℤ → ℤ
  pick ich n v =
      if ich * 4 + n == och then signed8 (byte_of (imap_word mem (i * 56 + j) ich) n) else v

  abbrev Found : ℕ → ℤ → Type 0
  Found seen v = och < seen → v ≡ channel mem (i * 56 + j) och

  pick-Found :
      (ich n : ℕ) (v : ℤ) → n < 4 → Found (ich * 4 + n) v → Found (ich * 4 + (n + 1)) (pick ich n v)
  unfolding pick
  pick-Found ich n v small found h = elim (Bool-cases (ich * 4 + n == och)) [
    | inl here ↦
        let same : ich * 4 + n ≡ och = ground arith in
        rw here (byte-channel mem (i * 56 + j) ich n small ∙ ap (channel mem (i * 56 + j)) same)
    | inr other ↦ rw other (found (ground arith))
  ]

  four-Found :
      (ich : ℕ) (v : ℤ) → Found (ich * 4) v → Found ((ich + 1) * 4) (for_range 4 0 (pick ich) v)
  four-Found ich v found h =
      for_range_inv (λ n v. Found (ich * 4 + n) v) (pick ich) 4 0 4
        (λ n v p q keep. pick-Found ich n v q keep) v refl (λ lt. found (omega arith)) (omega arith)

  all-Found : (garbage : ℤ) → Found 64 (for_range 16 0 (λ ich. for_range 4 0 (pick ich)) garbage)
  all-Found garbage h =
      for_range_inv (λ ich v. Found (ich * 4) v) (λ ich. for_range 4 0 (pick ich)) 16 0 16
        (λ ich v p q keep. four-Found ich v keep) garbage refl (λ lt. absurd (omega arith)) h

  branches-identity :
      (garbage : ℤ)
      → och < 64
      → (branches mem w1 och i j garbage).identity ≡ channel mem (i * 56 + j) och
  unfolding branches pick
  branches-identity garbage h =
      for_range_map (λ (s : Branches). s.identity) _ _
        (λ ich s. for_range_map (λ (s : Branches). s.identity) _ (pick ich) (λ n t. refl) 4 0 s) 16
        0 _
      ∙ all-Found garbage h

-- The block: the sum of the 3x3 convolution, the 1x1 convolution and the input, with ReLU, quantised;
-- and the two convolutions quantised.
unfoldable pub repvgg_block : Memory → W3 → W1 → ℕ → ℕ → ℕ → Pixel
repvgg_block mem w3 w1 och i j =
    let c3 = conv3x3 mem w3 och i j in
    let c1 = conv1x1 mem w1 och i j in
    record {
      quan3x3 = quantise c3 17;
      quan1x1 = quantise c1 14;
      quan_map_sum = quantise (relu (c1 +ℤ c3 +ℤ channel mem (i * 56 + j) och)) 17;
    }

-- What `check_result` computes for an output pixel left of the last two columns is the RepVGG block,
-- whatever the uninitialised local for the identity branch held.
pub check_pixel-eq-repvgg_block :
    (mem : Memory) (w3 : W3) (w1 : W1) (och i j : ℕ) (garbage : ℤ)
    → och < 64
    → j < 54
    → check_pixel mem w3 w1 och i j garbage ≡ repvgg_block mem w3 w1 och i j
unfolding check_pixel repvgg_block
check_pixel-eq-repvgg_block mem w3 w1 och i j garbage channels columns =
    rw
      (
        psum3x3-eq-conv3x3 mem w3 och i j columns,
        branches-psum1x1 mem w1 och i j garbage,
        branches-identity mem w1 och i j garbage channels,
      )
      refl
