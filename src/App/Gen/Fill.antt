-- ===== src/App/Gen/Fill.antt =====
-- What the generators leave in the SRAM.
use mathlib.Core.Path.{fun_ext}
use rep_vgg_acc.Base.{
  ℕ, zero, suc, ◌+◌, ◌*◌, ◌/◌, ◌^◌, ◌≤◌, ◌<◌, ◌≡◌, ◌∙◌, refl, ap, arith, ◌⊎◌, inl,
}
use rep_vgg_acc.App.{sram_base, imap_offset, w3_offset, w1_offset, map_size, in_ch, out_ch}
use rep_vgg_acc.App.Gen.{
  GenState, repeat, shift_in, put_word, start, gen_imap, gen_w3, gen_w1, generate,
}

repeat_append {ℓ} :
    {S : Type ℓ} (m n : ℕ) (body : S → S) (s : S)
    → repeat (m + n) body s ≡ repeat n body (repeat m body s)
unfolding repeat
repeat_append zero n body s = let e : 0 + n ≡ n = omega arith in rw e refl
repeat_append (suc m) n body s =
    let e : suc m + n ≡ suc (m + n) = omega arith in rw e (repeat_append m n body (body s))

-- Nested loops run their body as often as the product says.
repeat-repeat {ℓ} :
    {S : Type ℓ} (m n : ℕ) (body : S → S) (s : S)
    → repeat m (repeat n body) s ≡ repeat (m * n) body s
unfolding repeat
repeat-repeat zero n body s = let e : 0 * n ≡ 0 = omega arith in rw e refl
repeat-repeat (suc m) n body s =
    let e : suc m * n ≡ n + m * n = omega arith in
    rw (e, repeat_append n (m * n) body s) (repeat-repeat m n body (repeat n body s))

-- Four shifts by a byte push out whatever `data` held.
four_shifts : (word : ℕ) → repeat 4 shift_in word ≡ 0x0c0c_0c0c
unfolding repeat
four_shifts word = omega arith

-- Address `a` is not in the `size` bytes from `base` of the SRAM.
abbrev pub IsOutside : ℕ → ℕ → ℕ → Type 0
IsOutside base size a = (a < sram_base + base) ⊎ (sram_base + base + size ≤ a)

-- The words at the byte offsets below `size` from `base` hold the pattern, the others are kept.
record Filled (base size : ℕ) (m m' : ℕ → ℕ) : Type 0 where
  inside : (k : ℕ) → 4 * k < size → m' (sram_base + (base + 4 * k)) ≡ 0x0c0c_0c0c
  outside : (a : ℕ) → IsOutside base size a → m' a ≡ m a

module _ (base : ℕ) where
  put_word-Filled :
      (k : ℕ) (g : GenState) (m : ℕ → ℕ)
      → g.offset ≡ 4 * k
      → Filled base (4 * k) m g.memory
      → Filled base (4 * (k + 1)) m (put_word base g).memory
  unfolding put_word
  put_word-Filled k g m e f = record {
    inside = λ j h. ground (arith, four_shifts g.word, f.inside j);
    outside = λ a h. ground (arith, f.outside a);
  }

  put_word_offset :
      (k : ℕ) (g : GenState)
      → g.offset ≡ 4 * k
      → 4 * (k + 1) < 2 ^ 32
      → (put_word base g).offset ≡ 4 * (k + 1)
  unfolding put_word
  put_word_offset k g e small = omega arith

  fill-Filled :
      (n k : ℕ) (g : GenState) (m : ℕ → ℕ)
      → g.offset ≡ 4 * k
      → 4 * (k + n) < 2 ^ 32
      → Filled base (4 * k) m g.memory
      → Filled base (4 * (k + n)) m (repeat n (put_word base) g).memory
  unfolding repeat
  fill-Filled zero k g m e small f = let same : k + 0 ≡ k = omega arith in rw same f
  fill-Filled (suc n) k g m e small f =
      let same : k + suc n ≡ k + 1 + n = omega arith in
      rw same (
        fill-Filled n (k + 1) (put_word base g) m (put_word_offset k g e (omega arith))
          (omega arith) (put_word-Filled k g m e f))

  fill_from_start :
      (n garbage : ℕ) (m : ℕ → ℕ)
      → 4 * n < 2 ^ 32
      → Filled base (4 * n) m (repeat n (put_word base) (start garbage m)).memory
  unfolding start
  fill_from_start n garbage m small =
      let f : Filled base (4 * 0) m m = record {
        inside = λ k h. absurd (omega arith);
        outside = λ a h. refl;
      } in
      let all : Filled base (4 * (0 + n)) m (repeat n (put_word base) (start garbage m)).memory =
        fill-Filled n 0 (start garbage m) m (omega arith) (omega arith) f in
      let same : 0 + n ≡ n = omega arith in rw same at all

gen_imap-Filled : (garbage : ℕ) (m : ℕ → ℕ) → Filled imap_offset 0x31000 m (gen_imap garbage m)
gen_imap-Filled garbage m = rw flat (fill_from_start imap_offset 50176 garbage m (omega arith))
  where
    flat : gen_imap garbage m ≡ (repeat 50176 (put_word imap_offset) (start garbage m)).memory
    flat =
        unfold gen_imap in
        ap (λ (g : GenState). g.memory)
          (repeat-repeat (map_size * map_size) (in_ch / 4) (put_word imap_offset) (start garbage m))

gen_w3-Filled : (garbage : ℕ) (m : ℕ → ℕ) → Filled w3_offset 0x9000 m (gen_w3 garbage m)
gen_w3-Filled garbage m = rw flat (fill_from_start w3_offset 9216 garbage m (omega arith))
  where
    rows : repeat 9 (repeat 16 (put_word w3_offset)) ≡ repeat 144 (put_word w3_offset)
    rows = fun_ext λ g. repeat-repeat 9 16 (put_word w3_offset) g

    flat : gen_w3 garbage m ≡ (repeat 9216 (put_word w3_offset) (start garbage m)).memory
    flat =
        unfold gen_w3 in
        ap (λ (f : GenState → GenState). (repeat out_ch f (start garbage m)).memory) rows
        ∙ ap (λ (g : GenState). g.memory)
            (repeat-repeat out_ch 144 (put_word w3_offset) (start garbage m))

gen_w1-Filled : (garbage : ℕ) (m : ℕ → ℕ) → Filled w1_offset 0x1000 m (gen_w1 garbage m)
gen_w1-Filled garbage m = rw flat (fill_from_start w1_offset 1024 garbage m (omega arith))
  where
    flat : gen_w1 garbage m ≡ (repeat 1024 (put_word w1_offset) (start garbage m)).memory
    flat =
        unfold gen_w1 in
        ap (λ (g : GenState). g.memory)
          (repeat-repeat out_ch 16 (put_word w1_offset) (start garbage m))

-- Whatever the uninitialised locals and the memory held, after the generators every word of the
-- feature map, of the 3x3 weights and of the 1x1 weights holds four bytes 12, and no address outside
-- of these three blocks has changed.
pub generate-Filled :
    (g1 g2 g3 : ℕ) (m : ℕ → ℕ)
    → let m' = generate g1 g2 g3 m in
      ((k : ℕ) → 4 * k < 0x31000 → m' (sram_base + (imap_offset + 4 * k)) ≡ 0x0c0c_0c0c)
      × ((k : ℕ) → 4 * k < 0x9000 → m' (sram_base + (w3_offset + 4 * k)) ≡ 0x0c0c_0c0c)
      × ((k : ℕ) → 4 * k < 0x1000 → m' (sram_base + (w1_offset + 4 * k)) ≡ 0x0c0c_0c0c)
      × ((a : ℕ)
          → IsOutside imap_offset 0x31000 a
          → IsOutside w3_offset 0x9000 a
          → IsOutside w1_offset 0x1000 a
          → m' a ≡ m a)
unfolding generate
generate-Filled g1 g2 g3 m =
    let m1 = gen_imap g1 m in
    let m2 = gen_w3 g2 m1 in
    let f1 = gen_imap-Filled g1 m in
    let f2 = gen_w3-Filled g2 m1 in
    let f3 = gen_w1-Filled g3 m2 in
    (
      λ k h. f3.outside _ (inl (omega arith)) ∙ f2.outside _ (inl (omega arith)) ∙ f1.inside k h,
      λ k h. f3.outside _ (inl (omega arith)) ∙ f2.inside k h,
      λ k h. f3.inside k h,
      λ a h1 h2 h3. f3.outside a h3 ∙ f2.outside a h2 ∙ f1.outside a h1,
    )
