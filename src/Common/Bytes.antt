-- ===== src/Common/Bytes.antt =====
-- Words as little-endian bytes: `to_le_bytes`, `from_le_bytes`, and `to_ne_bytes` and
-- `from_ne_bytes` on the machines the program supports, which are little-endian.
use Prim.Native.Nat.{ℕ, ◌+◌, ◌*◌, ◌/◌, ◌%◌, ◌^◌, ◌<◌}
use mathlib.Core.Path.{◌≡◌, refl}
use mathlib.Core.List.{List, [], ◌∷◌}
use native.Mathlib.Omega.{arith}
use psbox.Common.Lists.{length, All}

abbrev pub IsByte : ℕ → Type 0
IsByte b = b < 256

abbrev pub IsU32 : ℕ → Type 0
IsU32 n = n < 2 ^ 32

-- `v.to_le_bytes()` for a word of four bytes.
unfoldable pub u32_bytes : ℕ → List ℕ
u32_bytes v = (v % 256) ∷ (v / 256 % 256) ∷ (v / 65536 % 256) ∷ (v / 16777216 % 256) ∷ []

unfoldable pub u32_of : ℕ → ℕ → ℕ → ℕ → ℕ
u32_of a b c d = a + 256 * b + 65536 * c + 16777216 * d

pub u32_of-bytes :
    (v : ℕ) → IsU32 v → u32_of (v % 256) (v / 256 % 256) (v / 65536 % 256) (v / 16777216 % 256) ≡ v
unfolding u32_of
u32_of-bytes v h = omega arith

pub length-u32_bytes : (v : ℕ) → length (u32_bytes v) ≡ 4
unfolding u32_bytes
length-u32_bytes v = refl

pub u32_bytes-IsByte : (v : ℕ) → All IsByte (u32_bytes v)
unfolding u32_bytes
u32_bytes-IsByte v = omega arith
