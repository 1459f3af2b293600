-- ===== src/Base/Division.antt =====
-- A quotient of a product in two parts.
use native.Mathlib.Nat.{add-mul, add-mul-div_left, mod-add-div, mul_assoc}
use rep_vgg_acc.Base.{ℕ, ◌+◌, ◌*◌, ◌/◌, ◌%◌, ◌<◌, ◌≡◌, ap, arith}

pub two_parts : (a b f : ℕ) → 0 < b → a / b * f + a % b * f / b ≡ a * f / b
two_parts a b f pos =
    let split : a * f ≡ a % b * f + b * (a / b * f) = omega (
      arith,
      ap (λ x. x * f) (mod-add-div a b),
      add-mul (a % b) (b * (a / b)) f,
      mul_assoc b (a / b) f,
    ) in
    rw split (omega (arith, add-mul-div_left (a % b * f) (a / b * f) pos))
