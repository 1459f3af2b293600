-- ===== src/Base/Word.antt =====
-- The fixed-width unsigned types of C, as wrap-around on the native numbers.
use Prim.Native.Nat.{ℕ, ◌-◌, ◌*◌, ◌/◌, ◌%◌, ◌^◌}

abbrev pub u8 : ℕ → ℕ
u8 n = n % 2 ^ 8

abbrev pub u16 : ℕ → ℕ
u16 n = n % 2 ^ 16

abbrev pub u32 : ℕ → ℕ
u32 n = n % 2 ^ 32

abbrev pub u64 : ℕ → ℕ
u64 n = n % 2 ^ 64

-- `~w` of a `uint32_t`.
abbrev pub not32 : ℕ → ℕ
not32 w = 2 ^ 32 - 1 - w

-- The pattern of the `int32_t` -1, which the drivers return on a null pointer.
abbrev pub minus_one : ℕ
minus_one = 0xffff_ffff

infixl 75 ◌<<<◌ ◌>>>◌
abbrev pub ◌<<<◌ : ℕ → ℕ → ℕ
x <<< k = x * 2 ^ k

abbrev pub ◌>>>◌ : ℕ → ℕ → ℕ
x >>> k = x / 2 ^ k
