-- ===== src/Mac/Weights/Request.antt =====
-- The addresses that the weights are read from.
use rep_vgg_acc.Base.{
  ℕ, zero, suc, ◌+◌, ◌-◌, ◌*◌, ◌<◌, ◌≤◌, ◌≡◌, refl, ap, ap₂, ◌∙◌, true, false, List, [], ◌∷◌, u32,
  ltb, if◌then◌else◌, Bool-cases, inl, inr, arith,
}
use mathlib.Core.Path.{subst}
use rep_vgg_acc.Mac.Weights.{
  idle, load_3x3, load_1x1, WeightIn, WeightBiu, fires, next_state, next_cnt, next_addr,
  weight_edge, requests,
}

-- The addresses for channel `m`, from request `k` on, for `n` requests.
abbrev pub address : ℕ → ℕ → ℕ → ℕ → ℕ
address base3 base1 m k =
    if ltb k 144 then u32 (base3 + m * 0x90 + 4 * k) else u32 (base1 + m * 0x10 + 4 * (k - 144))

abbrev pub addresses : ℕ → ℕ → ℕ → ℕ → ℕ → List ℕ
addresses base3 base1 m k zero = []
addresses base3 base1 m k (suc n) = address base3 base1 m k ∷ addresses base3 base1 m (suc k) n

-- Before request `k` of 160.
pub record Before (base3 base1 m k : ℕ) (s : WeightBiu) : Type 0 where
  pub state : s.state ≡ (if ltb k 144 then load_3x3 else load_1x1)
  pub cnt : s.cnt ≡ (if ltb k 144 then k else k - 144)
  pub addr : s.addr ≡ address base3 base1 m k
  pub vld : s.vld ≡ true

pub record Same (base3 base1 m : ℕ) (u : WeightIn) : Type 0 where
  pub kernels : u.weight3_base_addr ≡ base3
  pub kernels_1x1 : u.weight1_base_addr ≡ base1
  pub channel : u.weight_och_cnt ≡ m

waits :
    (base3 base1 m k : ℕ) (u : WeightIn) (s : WeightBiu)
    → u.rdy ≡ false
    → Before base3 base1 m k s
    → Before base3 base1 m k (weight_edge u s)
unfolding weight_edge next_state next_cnt next_addr
waits base3 base1 m k u s h b = record {
  state = ground arith;
  cnt = ground arith;
  addr = ground arith;
  vld = ground arith;
}

moves :
    (base3 base1 m k : ℕ) (u : WeightIn) (s : WeightBiu)
    → u.rdy ≡ true
    → Same base3 base1 m u
    → k < 159
    → Before base3 base1 m k s
    → Before base3 base1 m (suc k) (weight_edge u s)
unfolding weight_edge next_state next_cnt next_addr
moves base3 base1 m k u s h same last b = record {
  state = ground arith;
  cnt = ground arith;
  addr = ground arith;
  vld = ground arith;
}

-- After the last request.
pub record Done (s : WeightBiu) : Type 0 where
  pub state : s.state ≡ idle
  pub cnt : s.cnt ≡ 0
  pub vld : s.vld ≡ false

ends :
    (base3 base1 m : ℕ) (u : WeightIn) (s : WeightBiu)
    → u.rdy ≡ true
    → Before base3 base1 m 159 s
    → Done (weight_edge u s)
unfolding weight_edge next_state next_cnt next_addr
ends base3 base1 m u s h b = record { state = ground arith; cnt = ground arith; vld = ground arith }

starts :
    (base3 base1 m : ℕ) (u : WeightIn) (s : WeightBiu)
    → u.weight_start ≡ true
    → Same base3 base1 m u
    → s.state ≡ idle
    → Before base3 base1 m 0 (weight_edge u s)
unfolding weight_edge next_state next_cnt next_addr
starts base3 base1 m u s h same at = record {
  state = ground arith;
  cnt = ground arith;
  addr = ground arith;
  vld = ground arith;
}

-- The inputs while the unit loads: the same channel and bases, and no other start.
abbrev pub Steady : ℕ → ℕ → ℕ → List WeightIn → Type 0
Steady base3 base1 m [] = Unit
Steady base3 base1 m (u ∷ us) =
    (u.weight_start ≡ false) × Same base3 base1 m u × Steady base3 base1 m us

-- At how many edges the arbiter is ready.
abbrev pub ready_edges : List WeightIn → ℕ
ready_edges [] = 0
ready_edges (u ∷ us) = if u.rdy then suc (ready_edges us) else ready_edges us

stays-Done :
    (u : WeightIn) (s : WeightBiu) → u.weight_start ≡ false → Done s → Done (weight_edge u s)
unfolding weight_edge next_state next_cnt
stays-Done u s h d = record { state = ground arith; cnt = ground arith; vld = ground arith }

requests-fires :
    (u : WeightIn) (us : List WeightIn) (s : WeightBiu)
    → fires u s ≡ true
    → requests (u ∷ us) s ≡ s.addr ∷ requests us (weight_edge u s)
unfolding requests
requests-fires u us s e =
    ap (λ b. if b then s.addr ∷ requests us (weight_edge u s) else requests us (weight_edge u s)) e

requests-quiet :
    (u : WeightIn) (us : List WeightIn) (s : WeightBiu)
    → fires u s ≡ false
    → requests (u ∷ us) s ≡ requests us (weight_edge u s)
unfolding requests
requests-quiet u us s e =
    ap (λ b. if b then s.addr ∷ requests us (weight_edge u s) else requests us (weight_edge u s)) e

module _ (base3 base1 m : ℕ) where
  requests-Done :
      (us : List WeightIn) (s : WeightBiu) → Steady base3 base1 m us → Done s → requests us s ≡ []
  unfolding requests
  requests-Done [] s h d = refl
  requests-Done (u ∷ us) s h d =
      requests-quiet u us s (ground (arith, d.vld))
      ∙ requests-Done us (weight_edge u s) h.2 (stays-Done u s h.0 d)

  requests-Before :
      (us : List WeightIn) (k n : ℕ) (s : WeightBiu)
      → Steady base3 base1 m us
      → k + suc n ≡ 160
      → suc n ≤ ready_edges us
      → Before base3 base1 m k s
      → requests us s ≡ addresses base3 base1 m k (suc n)
  requests-Before [] k n s h e enough b = absurd (omega arith)
  requests-Before (u ∷ us) k zero s h e enough b = elim (Bool-cases u.rdy) [
    | inr waiting ↦
        requests-quiet u us s (ground (arith, waiting))
        ∙ requests-Before us k zero (weight_edge u s) h.2 e (ground (arith, enough, waiting))
            (waits base3 base1 m k u s waiting b)
    | inl taken ↦
        let last : k ≡ 159 = omega arith in
        requests-fires u us s (ground (arith, b.vld, taken))
        ∙ ap₂ ◌∷◌ b.addr (
            requests-Done us (weight_edge u s) h.2
              (ends base3 base1 m u s taken (subst (λ x. Before base3 base1 m x s) last b)))
  ]
  requests-Before (u ∷ us) k (suc n) s h e enough b = elim (Bool-cases u.rdy) [
    | inr waiting ↦
        requests-quiet u us s (ground (arith, waiting))
        ∙ requests-Before us k (suc n) (weight_edge u s) h.2 e (ground (arith, enough, waiting))
            (waits base3 base1 m k u s waiting b)
    | inl taken ↦
        requests-fires u us s (ground (arith, b.vld, taken))
        ∙ ap₂ ◌∷◌ b.addr (
            requests-Before us (suc k) n (weight_edge u s) h.2 (omega arith)
              (ground (arith, enough, taken)) (moves base3 base1 m k u s taken h.1 (omega arith) b))
  ]

  -- Whenever the arbiter is ready, after a start from idle, and however long it is not in between: the unit asks
  -- for the 144 words from the base of the 3x3 kernels plus 144 times the channel, and then for the 16 words from
  -- the base of the 1x1 kernels plus 16 times the channel, each once and in order, and for no more.
  pub requests-addresses :
      (u : WeightIn) (us : List WeightIn) (s : WeightBiu)
      → Done s
      → u.weight_start ≡ true
      → Same base3 base1 m u
      → Steady base3 base1 m us
      → 160 ≤ ready_edges us
      → requests (u ∷ us) s ≡ addresses base3 base1 m 0 160
  requests-addresses u us s d start same steady enough =
      requests-quiet u us s (ground (arith, d.vld))
      ∙ requests-Before us 0 159 (weight_edge u s) steady refl enough
          (starts base3 base1 m u s start same d.state)
