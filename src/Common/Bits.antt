-- ===== src/Common/Bits.antt =====
-- The bit operations as arithmetic: `w & 0xffff` for a mask of low bits, and `hi << k | lo` for a
-- word put together from fields. Both follow from the recursion on binary digits.
use Prim.Native.Nat.{
  ℕ, zero, suc, ◌+◌, ◌-◌, ◌*◌, ◌/◌, ◌%◌, ◌^◌, ◌≤◌, ◌<◌, min, max, bit_and, bit_or, digits,
  bit_and-bitwise, bit_or-bitwise,
}
use mathlib.Core.Path.{◌≡◌, refl, ap, ◌∙◌, sym}
use native.Mathlib.Omega.{arith}
use native.Mathlib.Nat.{pow-suc, div-add-mod, div-div-eq-div-mul, one-le-pow}

-- The count of digits to go does not matter once it is large enough.
module _ (last : ℕ → ℕ) (digit : ℕ → ℕ → ℕ) where
  digits-count : (a n m b : ℕ) → a ≤ n → a ≤ m → digits last digit n a b ≡ digits last digit m a b
  digits-count a zero zero b p q = refl
  digits-count zero zero (suc m) b p q = refl
  digits-count zero (suc n) zero b p q = refl
  digits-count zero (suc n) (suc m) b p q = refl
  digits-count (suc a) zero m b p q = elim p [ ]
  digits-count (suc a) (suc n) zero b p q = elim q [ ]
  digits-count (suc a) (suc n) (suc m) b p q =
      ap (λ d. d * 2 + digit (suc a % 2) (b % 2))
        (digits-count (suc a / 2) n m (b / 2) (omega arith) (omega arith))

zero-bit_or : (b : ℕ) → bit_or 0 b ≡ b
zero-bit_or b = bit_or-bitwise 0 b

zero-bit_and : (b : ℕ) → bit_and 0 b ≡ 0
zero-bit_and b = bit_and-bitwise 0 b

bit_or-halves : (a b : ℕ) → bit_or a b ≡ bit_or (a / 2) (b / 2) * 2 + max (a % 2) (b % 2)
bit_or-halves zero b = omega (arith, zero-bit_or b, zero-bit_or (b / 2))
bit_or-halves (suc a) b =
    bit_or-bitwise (suc a) b
    ∙ ap (λ d. d * 2 + max (suc a % 2) (b % 2))
        (digits-count (λ r. r) max (suc a / 2) a (suc a / 2) (b / 2) (omega arith) (omega arith)
          ∙ sym (bit_or-bitwise (suc a / 2) (b / 2)))

bit_and-halves : (a b : ℕ) → bit_and a b ≡ bit_and (a / 2) (b / 2) * 2 + min (a % 2) (b % 2)
bit_and-halves zero b = omega (arith, zero-bit_and b, zero-bit_and (b / 2))
bit_and-halves (suc a) b =
    bit_and-bitwise (suc a) b
    ∙ ap (λ d. d * 2 + min (suc a % 2) (b % 2))
        (digits-count (λ r. 0) min (suc a / 2) a (suc a / 2) (b / 2) (omega arith) (omega arith)
          ∙ sym (bit_and-bitwise (suc a / 2) (b / 2)))

-- With nothing in the second operand, by the number of digits of the first.
bit_or-nothing : (n a : ℕ) → a ≤ n → bit_or a 0 ≡ a
bit_or-nothing zero zero h = refl
bit_or-nothing zero (suc a) h = elim h [ ]
bit_or-nothing (suc n) zero h = refl
bit_or-nothing (suc n) (suc a) h =
    omega (arith, bit_or-halves (suc a) 0, bit_or-nothing n (suc a / 2) (omega arith))

bit_and-nothing : (n a : ℕ) → a ≤ n → bit_and a 0 ≡ 0
bit_and-nothing zero zero h = refl
bit_and-nothing zero (suc a) h = elim h [ ]
bit_and-nothing (suc n) zero h = refl
bit_and-nothing (suc n) (suc a) h =
    omega (arith, bit_and-halves (suc a) 0, bit_and-nothing n (suc a / 2) (omega arith))

bit_or-double : (a b : ℕ) → bit_or (a * 2) b ≡ bit_or a (b / 2) * 2 + b % 2
bit_or-double a b = omega (arith, rw half at (bit_or-halves (a * 2) b))
  where
    half : a * 2 / 2 ≡ a
    half = omega arith

bit_and-odd : (a m : ℕ) → bit_and a (m * 2 + 1) ≡ bit_and (a / 2) m * 2 + a % 2
bit_and-odd a m = omega (arith, rw half at (bit_and-halves a (m * 2 + 1)))
  where
    half : (m * 2 + 1) / 2 ≡ m
    half = omega arith

-- `hi << k | lo`
pub bit_or-shifted : (k hi lo : ℕ) → lo < 2 ^ k → bit_or (hi * 2 ^ k) lo ≡ hi * 2 ^ k + lo
bit_or-shifted zero hi zero h = bit_or-nothing (hi * 2 ^ 0) (hi * 2 ^ 0) (omega arith) ∙ omega arith
bit_or-shifted zero hi (suc lo) h = absurd (omega arith)
bit_or-shifted (suc k) hi lo h =
    let half = bit_or-shifted k hi (lo / 2) (omega (arith, pow-suc 2 k)) in
    let even : hi * 2 ^ suc k ≡ hi * 2 ^ k * 2 =
      omega (arith, ap (λ (p : ℕ). hi * p) (pow-suc 2 k)) in
    rw even (omega (arith, bit_or-double (hi * 2 ^ k) lo, half))

mod-double : (w k : ℕ) → w % (2 * k) ≡ w / 2 % k * 2 + w % 2
mod-double w k =
    let whole = div-add-mod w (2 * k) in
    let halved = rw (div-div-eq-div-mul w 2 k) at (div-add-mod (w / 2) k) in
    omega (arith, whole, halved)

-- `w & (2 ^ k - 1)`
pub bit_and-mask : (k w : ℕ) → bit_and w (2 ^ k - 1) ≡ w % 2 ^ k
bit_and-mask zero w = bit_and-nothing w w (omega arith) ∙ omega arith
bit_and-mask (suc k) w =
    let double : 2 ^ suc k ≡ 2 * 2 ^ k = omega (arith, pow-suc 2 k) in
    let mask : 2 * 2 ^ k - 1 ≡ (2 ^ k - 1) * 2 + 1 = omega (arith, one-le-pow k 2 (omega arith)) in
    rw (double, mask)
      (omega (arith, bit_and-odd w (2 ^ k - 1), bit_and-mask k (w / 2), mod-double w (2 ^ k)))
