-- ===== src/App/Check/Weights.antt =====
-- The loads of the weights: which byte of the SRAM each element of the global arrays gets.
use rep_vgg_acc.Base.{ℕ, ◌+◌, ◌*◌, ◌/◌, ◌%◌, ◌<◌, ◌≡◌, refl, u32, arith}
use rep_vgg_acc.Base.Loop.{for_range, for_range_inv}
use rep_vgg_acc.App.{sram_base, w3_offset, w1_offset}
use rep_vgg_acc.App.Check.{Memory, W3, W1, Load, byte_of, set_w3, set_w1, load_w3, load_w1}

module _ (mem : Memory) where
  -- Byte `c % 4` of the word that holds channel `c` of tap `t` for output channel `m`.
  abbrev pub w3_byte : ℕ → ℕ → ℕ → ℕ
  w3_byte m c t = byte_of (mem (sram_base + (w3_offset + ((m * 9 + t) * 16 + c / 4) * 4))) (c % 4)

  abbrev pub w1_byte : ℕ → ℕ → ℕ
  w1_byte m c = byte_of (mem (sram_base + (w1_offset + (m * 16 + c / 4) * 4))) (c % 4)

  -- The first `b` elements, in the order of the SRAM, are loaded.
  abbrev Loaded3 : ℕ → W3 → Type 0
  Loaded3 b w = (m c t : ℕ) → c < 64 → t < 9 → (m * 9 + t) * 64 + c < b → w m c t ≡ w3_byte m c t

  abbrev Loaded1 : ℕ → W1 → Type 0
  Loaded1 b w = (m c : ℕ) → c < 64 → m * 64 + c < b → w m c ≡ w1_byte m c

  set_w3-Loaded3 :
      (m t p q : ℕ) (w : W3)
      → t < 9
      → p < 16
      → q < 4
      → Loaded3 ((m * 9 + t) * 64 + p * 4 + q) w
      → Loaded3 ((m * 9 + t) * 64 + p * 4 + (q + 1)) (
          set_w3 w m
            (p * 4 + q)
            t
            (byte_of (mem (sram_base + (w3_offset + ((m * 9 + t) * 16 + p) * 4))) q))
  unfolding set_w3
  set_w3-Loaded3 m t p q w ht hp hq before = λ m' c' t' hc ht' h.
      let word : (p * 4 + q) / 4 ≡ p = omega arith in
      let place : (p * 4 + q) % 4 ≡ q = omega arith in ground (arith, before m' c' t' hc ht')

  set_w1-Loaded1 :
      (m p q : ℕ) (w : W1)
      → p < 16
      → q < 4
      → Loaded1 (m * 64 + p * 4 + q) w
      → Loaded1
          (m * 64 + p * 4 + (q + 1))
          (set_w1 w m (p * 4 + q) (byte_of (mem (sram_base + (w1_offset + (m * 16 + p) * 4))) q))
  unfolding set_w1
  set_w1-Loaded1 m p q w hp hq before = λ m' c' hc h.
      let word : (p * 4 + q) / 4 ≡ p = omega arith in
      let place : (p * 4 + q) % 4 ≡ q = omega arith in ground (arith, before m' c' hc)

  -- The four elements of a word.
  word-Loaded3 :
      (m t p off : ℕ) (w : W3)
      → t < 9
      → p < 16
      → off ≡ ((m * 9 + t) * 16 + p) * 4
      → Loaded3 ((m * 9 + t) * 64 + p * 4 + 0) w
      → Loaded3 ((m * 9 + t) * 64 + p * 4 + 4) (
          for_range 4 0
            (λ q a. set_w3 a m (p * 4 + q) t (byte_of (mem (sram_base + (w3_offset + off))) q))
            w)
  word-Loaded3 m t p off w ht hp e before = rw e (
      for_range_inv (λ q a. Loaded3 ((m * 9 + t) * 64 + p * 4 + q) a) _ 4 0 4
        (λ q a _ hq now. set_w3-Loaded3 m t p q a ht hp hq now) w refl before)

  word-Loaded1 :
      (m p off : ℕ) (w : W1)
      → p < 16
      → off ≡ (m * 16 + p) * 4
      → Loaded1 (m * 64 + p * 4 + 0) w
      → Loaded1 (m * 64 + p * 4 + 4) (
          for_range 4 0
            (λ q a. set_w1 a m (p * 4 + q) (byte_of (mem (sram_base + (w1_offset + off))) q))
            w)
  word-Loaded1 m p off w hp e before = rw e (
      for_range_inv (λ q a. Loaded1 (m * 64 + p * 4 + q) a) _ 4 0 4
        (λ q a _ hq now. set_w1-Loaded1 m p q a hp hq now) w refl before)

  -- Before word `k`: `offset` points to it, and all elements before it are loaded.
  abbrev At3 : ℕ → Load W3 → Type 0
  At3 k s = (s.offset ≡ k * 4) × Loaded3 (k * 4) s.array

  abbrev At1 : ℕ → Load W1 → Type 0
  At1 k s = (s.offset ≡ k * 4) × Loaded1 (k * 4) s.array

  abbrev round3 : ℕ → ℕ → ℕ → Load W3 → Load W3
  round3 m t p s =
      let word = mem (sram_base + (w3_offset + s.offset)) in
      record {
        offset = u32 (s.offset + 4);
        array = for_range 4 0 (λ q a. set_w3 a m (p * 4 + q) t (byte_of word q)) s.array;
      }

  abbrev round1 : ℕ → ℕ → Load W1 → Load W1
  round1 m p s =
      let word = mem (sram_base + (w1_offset + s.offset)) in
      record {
        offset = u32 (s.offset + 4);
        array = for_range 4 0 (λ q a. set_w1 a m (p * 4 + q) (byte_of word q)) s.array;
      }

  round3-At3 :
      (m t p : ℕ) (s : Load W3)
      → m < 64
      → t < 9
      → p < 16
      → At3 ((m * 9 + t) * 16 + p) s
      → At3 ((m * 9 + t) * 16 + (p + 1)) (round3 m t p s)
  round3-At3 m t p s hm ht hp (e, before) =
      let after =
        word-Loaded3 m t p s.offset s.array ht hp e
          (λ m' c' t' hc ht' h. before m' c' t' hc ht' (omega arith)) in
      (omega arith, λ m' c' t' hc ht' h. after m' c' t' hc ht' (omega arith))

  round1-At1 :
      (m p : ℕ) (s : Load W1)
      → m < 64
      → p < 16
      → At1 (m * 16 + p) s
      → At1 (m * 16 + (p + 1)) (round1 m p s)
  round1-At1 m p s hm hp (e, before) =
      let after =
        word-Loaded1 m p s.offset s.array hp e (λ m' c' hc h. before m' c' hc (omega arith)) in
      (omega arith, λ m' c' hc h. after m' c' hc (omega arith))

  tap-At3 :
      (m t : ℕ) (s : Load W3)
      → m < 64
      → t < 9
      → At3 ((m * 9 + t) * 16) s
      → At3 ((m * 9 + (t + 1)) * 16) (for_range 16 0 (round3 m t) s)
  tap-At3 m t s hm ht before =
      let first : (m * 9 + t) * 16 + 0 ≡ (m * 9 + t) * 16 = omega arith in
      let last : (m * 9 + (t + 1)) * 16 ≡ (m * 9 + t) * 16 + 16 = omega arith in
      rw last (
        for_range_inv (λ p s. At3 ((m * 9 + t) * 16 + p) s) (round3 m t) 16 0 16
          (λ p s _ hp now. round3-At3 m t p s hm ht hp now) s refl (rw first before))

  channel-At3 :
      (m : ℕ) (s : Load W3)
      → m < 64
      → At3 (m * 9 * 16) s
      → At3 ((m + 1) * 9 * 16) (for_range 9 0 (λ t. for_range 16 0 (round3 m t)) s)
  channel-At3 m s hm before =
      let first : (m * 9 + 0) * 16 ≡ m * 9 * 16 = omega arith in
      let last : (m + 1) * 9 * 16 ≡ (m * 9 + 9) * 16 = omega arith in
      rw last (
        for_range_inv (λ t s. At3 ((m * 9 + t) * 16) s) (λ t. for_range 16 0 (round3 m t)) 9 0 9
          (λ t s _ ht now. tap-At3 m t s hm ht now) s refl (rw first before))

  channel-At1 :
      (m : ℕ) (s : Load W1)
      → m < 64
      → At1 (m * 16) s
      → At1 ((m + 1) * 16) (for_range 16 0 (round1 m) s)
  channel-At1 m s hm before =
      let first : m * 16 + 0 ≡ m * 16 = omega arith in
      let last : (m + 1) * 16 ≡ m * 16 + 16 = omega arith in
      rw last (
        for_range_inv (λ p s. At1 (m * 16 + p) s) (round1 m) 16 0 16
          (λ p s _ hp now. round1-At1 m p s hm hp now) s refl (rw first before))

  load_w3-byte :
      (w : W3) (m c t : ℕ) → m < 64 → c < 64 → t < 9 → load_w3 mem w m c t ≡ w3_byte m c t
  unfolding load_w3
  load_w3-byte w m c t hm hc ht =
      let all =
        for_range_inv (λ m s. At3 (m * 9 * 16) s)
          (λ m. for_range 9 0 (λ t. for_range 16 0 (round3 m t))) 64 0 64
          (λ m s _ hm now. channel-At3 m s hm now) (record { offset = 0; array = w }) refl
          (refl, λ m' c' t' hc' ht' h. absurd (omega arith)) in
      all.1 m c t hc ht (omega arith)

  load_w1-byte : (w : W1) (m c : ℕ) → m < 64 → c < 64 → load_w1 mem w m c ≡ w1_byte m c
  unfolding load_w1
  load_w1-byte w m c hm hc =
      let all =
        for_range_inv (λ m s. At1 (m * 16) s) (λ m. for_range 16 0 (round1 m)) 64 0 64
          (λ m s _ hm now. channel-At1 m s hm now) (record { offset = 0; array = w }) refl
          (refl, λ m' c' hc' h. absurd (omega arith)) in
      all.1 m c hc (omega arith)

  -- After the two loading loops of `check_result` every element of `w3` and of `w1` is its byte of the
  -- SRAM, whatever the arrays held.
  pub load_w1-load_w3 :
      (a : W3) (b : W1) (m c t : ℕ)
      → m < 64
      → c < 64
      → t < 9
      → (load_w3 mem a m c t ≡ w3_byte m c t) × (load_w1 mem b m c ≡ w1_byte m c)
  load_w1-load_w3 a b m c t hm hc ht = (load_w3-byte a m c t hm hc ht, load_w1-byte b m c hm hc)
