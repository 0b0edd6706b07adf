-- ===== src/Common/Words.antt =====
-- Words of any width as bytes, in either order: `to_le_bytes`, `from_le_bytes`, `from_be_bytes`.
use Prim.Native.Nat.{ℕ, zero, suc, ◌+◌, ◌*◌, ◌/◌, ◌%◌, ◌^◌, ◌<◌}
use mathlib.Core.Path.{◌≡◌, refl, ap}
use mathlib.Core.List.{List, [], ◌∷◌}
use native.Mathlib.Omega.{arith}
use native.Mathlib.Nat.{pow-suc}
use psbox.Common.Lists.{length}

-- The `n` low bytes of a word, the lowest first.
unfoldable pub le_bytes : ℕ → ℕ → List ℕ
le_bytes zero v = []
le_bytes (suc n) v = (v % 256) ∷ le_bytes n (v / 256)

unfoldable pub of_le_bytes : List ℕ → ℕ
of_le_bytes [] = 0
of_le_bytes (b ∷ bs) = b + 256 * of_le_bytes bs

unfoldable of_be : ℕ → List ℕ → ℕ
of_be high [] = high
of_be high (b ∷ bs) = of_be (high * 256 + b) bs

unfoldable pub of_be_bytes : List ℕ → ℕ
unfolding of_be
of_be_bytes bs = of_be 0 bs

pub length-le_bytes : (n v : ℕ) → length (le_bytes n v) ≡ n
unfolding le_bytes
length-le_bytes zero v = refl
length-le_bytes (suc n) v = ap suc (length-le_bytes n (v / 256))

pub of_le_bytes-le_bytes : (n v : ℕ) → v < 256 ^ n → of_le_bytes (le_bytes n v) ≡ v
unfolding le_bytes of_le_bytes
of_le_bytes-le_bytes zero v h = omega arith
of_le_bytes-le_bytes (suc n) v h =
    let rest = of_le_bytes-le_bytes n (v / 256) (omega (arith, pow-suc 256 n)) in
    omega (arith, rest)
