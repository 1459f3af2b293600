-- ===== src/Base/Loop.antt =====
-- Counted loops, with their invariant rule, and sums of integers.
use Prim.Native.Nat.{ℕ, zero, suc, ◌+◌, ◌*◌, ◌≤◌, ◌<◌}
use mathlib.Core.Path.{◌≡◌, refl, sym, ap, ap₂, ◌∙◌}
use native.Mathlib.Omega.{arith}
use rep_vgg_acc.Base.Int.{ℤ, pos, ◌+ℤ◌, ◌*ℤ◌, +ℤ_assoc, +ℤ-zero}

-- `for (x = i; x < i + n; x++) s = body(x, s);`
unfoldable pub for_range {ℓ} :
    {State : Type ℓ} → (n i : ℕ) → (body : ℕ → State → State) → State → State
for_range zero i body state = state
for_range (suc left) i body state = for_range left (i + 1) body (body i state)

-- What holds before the loop and is kept by each round holds at the end.
pub for_range_inv {ℓ κ} :
    {State : Type ℓ} (Holds : ℕ → State → Type κ) (body : ℕ → State → State) (n first last : ℕ)
    → ((x : ℕ) (now : State) → first ≤ x → x < last → Holds x now → Holds (x + 1) (body x now))
    → (before : State) → first + n ≡ last
    → Holds first before
    → Holds last (for_range n first body before)
unfolding for_range
for_range_inv Holds body zero first last keep before e h =
    let nothing_left : first ≡ last = omega arith in rw (← nothing_left) h
for_range_inv Holds body (suc n) first last keep before e h =
    let round : Holds (first + 1) (body first before) =
      keep first before (omega arith) (omega arith) h in
    for_range_inv Holds body n (first + 1) last (λ x now p q. keep x now (omega arith) q)
      (body first before) (omega arith) round

-- A function that carries the body of one loop to the body of another carries the whole loop.
pub for_range_map {ℓ κ} :
    {A : Type ℓ} {B : Type κ} (h : A → B) (body : ℕ → A → A) (image : ℕ → B → B)
    → ((x : ℕ) (a : A) → h (body x a) ≡ image x (h a))
    → (n i : ℕ) (a : A) → h (for_range n i body a) ≡ for_range n i image (h a)
unfolding for_range
for_range_map h body image step zero i a = refl
for_range_map h body image step (suc n) i a =
    for_range_map h body image step n (i + 1) (body i a) ∙ ap (for_range n (i + 1) image) (step i a)

-- The sum of `f x` for `i ≤ x < i + n`.
unfoldable pub sum_range : ℕ → ℕ → (ℕ → ℤ) → ℤ
sum_range zero i f = pos 0
sum_range (suc n) i f = f i +ℤ sum_range n (i + 1) f

pub zero-+ℤ : (a : ℤ) → pos 0 +ℤ a ≡ a
unfolding ◌+ℤ◌
zero-+ℤ a = ground arith

-- A loop that adds `f x` in each round adds the sum.
pub for_range-sum :
    (n i j : ℕ) (f : ℕ → ℤ) (body : ℕ → ℤ → ℤ)
    → i + n ≡ j
    → ((x : ℕ) (a : ℤ) → x < j → body x a ≡ a +ℤ f x)
    → (a : ℤ) → for_range n i body a ≡ a +ℤ sum_range n i f
unfolding for_range sum_range
for_range-sum zero i j f body e h a = sym (+ℤ-zero a)
for_range-sum (suc n) i j f body e h a =
    for_range-sum n (i + 1) j f body (omega arith) h (body i a)
    ∙ ap (λ b. b +ℤ sum_range n (i + 1) f) (h i a (omega arith))
    ∙ +ℤ_assoc a (f i) (sum_range n (i + 1) f)

pub sum_range_ext :
    (n i j : ℕ) (f g : ℕ → ℤ)
    → i + n ≡ j
    → ((x : ℕ) → i ≤ x → x < j → f x ≡ g x)
    → sum_range n i f ≡ sum_range n i g
unfolding sum_range
sum_range_ext zero i j f g e h = refl
sum_range_ext (suc n) i j f g e h =
    ap₂ ◌+ℤ◌ (h i (omega arith) (omega arith))
      (sum_range_ext n (i + 1) j f g (omega arith) (λ x p q. h x (omega arith) q))

pub sum_range_append :
    (m n i k : ℕ) (f : ℕ → ℤ)
    → i + m ≡ k
    → sum_range (m + n) i f ≡ sum_range m i f +ℤ sum_range n k f
unfolding sum_range
sum_range_append zero n i k f e =
    let n' : 0 + n ≡ n = omega arith in let k' : i ≡ k = omega arith in rw (n', k', zero-+ℤ) refl
sum_range_append (suc m) n i k f e =
    let more : suc m + n ≡ suc (m + n) = omega arith in
    rw more (
      ap (λ b. f i +ℤ b) (sum_range_append m n (i + 1) k f (omega arith))
      ∙ sym (+ℤ_assoc (f i) (sum_range m (i + 1) f) (sum_range n k f)))

four_from : (j : ℕ) (f : ℕ → ℤ) → sum_range 4 0 (λ y. f (j + y)) ≡ sum_range 4 j f
unfolding sum_range
four_from j f =
    let j0 : j + 0 ≡ j = omega arith in
    let j2 : j + 1 + 1 ≡ j + 2 = omega arith in
    let j3 : j + 2 + 1 ≡ j + 3 = omega arith in rw (j0, j2, j3) refl

-- A sum in groups of four.
pub sum_range_group :
    (m i : ℕ) (f : ℕ → ℤ)
    → sum_range m i (λ x. sum_range 4 0 (λ y. f (x * 4 + y))) ≡ sum_range (m * 4) (i * 4) f
unfolding sum_range
sum_range_group zero i f = refl
sum_range_group (suc m) i f =
    let more : suc m * 4 ≡ 4 + m * 4 = omega arith in
    rw more (
      ap₂ ◌+ℤ◌ (four_from (i * 4) f) (sum_range_group m (i + 1) f)
      ∙ sym (sum_range_append 4 (m * 4) (i * 4) ((i + 1) * 4) f (omega arith)))

pub zero-*ℤ : (a : ℤ) → pos 0 *ℤ a ≡ pos 0
unfolding ◌*ℤ◌
zero-*ℤ a = ground arith

pub sum_range_zero : (n i : ℕ) (f : ℕ → ℤ) → ((x : ℕ) → f x ≡ pos 0) → sum_range n i f ≡ pos 0
unfolding sum_range
sum_range_zero zero i f h = refl
sum_range_zero (suc n) i f h = rw (h i, sum_range_zero n (i + 1) f h, zero-+ℤ) refl
