-- ===== src/Common/Text.antt =====
-- Text as the list of its bytes, and the string functions of the standard library that the program
-- uses. A test on ASCII characters reads bytes and characters alike: no byte of a longer character
-- is ASCII.
use Prim.Native.Nat.{ℕ}
use Prim.Native.Char.{code}
use Prim.Native.String.{String}
use mathlib.Core.Path.{◌≡◌, refl, ap}
use mathlib.Core.Logic.{◌≢◌, inl, inr}
use mathlib.Core.Bool.{Bool, true, false, ◌&&◌, ◌||◌}
use mathlib.Core.Option.{Option, none, some}
use mathlib.Core.List.{List, [], ◌∷◌, ◌++◌}
use native.Mathlib.Omega.{arith}
use psbox.Common.Tests.{leb, ◌==◌, ==_iff, if◌then◌else◌, Bool-cases}

abbrev pub Text : Type 0
Text = List ℕ

-- The bytes of an ASCII literal.
abbrev pub codes : String → Text
codes String.[] = []
codes (String.◌∷◌ c s) = code c ∷ codes s

-- `a == b`
unfoldable pub eq : Text → Text → Bool
eq [] [] = true
eq [] (y ∷ ys) = false
eq (x ∷ xs) [] = false
eq (x ∷ xs) (y ∷ ys) = x == y && eq xs ys

pub eq_sound : (xs ys : Text) → eq xs ys ≡ true → xs ≡ ys
unfolding eq
eq_sound [] [] e = refl
eq_sound [] (y ∷ ys) e = cc
eq_sound (x ∷ xs) [] e = cc
eq_sound (x ∷ xs) (y ∷ ys) e = ground (arith, e, eq_sound xs ys)

pub eq_refl : (xs : Text) → eq xs xs ≡ true
unfolding eq
eq_refl [] = refl
eq_refl (x ∷ xs) = ground (arith, eq_refl xs)

pub eq_ne : (xs ys : Text) → eq xs ys ≡ false → xs ≢ ys
eq_ne xs ys e same = cc (e, ap (eq xs) same, eq_refl xs)

-- `s.strip_prefix(p)`, with the prefix first.
unfoldable pub strip_prefix : Text → Text → Option Text
strip_prefix [] s = some s
strip_prefix (p ∷ ps) [] = none
strip_prefix (p ∷ ps) (c ∷ s) = if c == p then strip_prefix ps s else none

pub strip_prefix-append : (p s : Text) → strip_prefix p (p ++ s) ≡ some s
unfolding strip_prefix
strip_prefix-append [] s = refl
strip_prefix-append (c ∷ p) s = ground (arith, strip_prefix-append p s)

pub strip_prefix-eq-some : (p s : Text) {r : Text} → strip_prefix p s ≡ some r → s ≡ p ++ r
unfolding strip_prefix
strip_prefix-eq-some [] s e = ground arith
strip_prefix-eq-some (c ∷ p) [] e = cc
strip_prefix-eq-some (c ∷ p) (d ∷ s) {r} e = elim (Bool-cases (d == c)) [
  | inl same ↦ ground (arith, same, strip_prefix-eq-some p s {r = r})
  | inr other ↦ absurd (ground (arith, e, other))
]

unfoldable pub contains : ℕ → Text → Bool
contains c [] = false
contains c (d ∷ s) = d == c || contains c s

abbrev in_front : ℕ → Option (Text × Text) → Option (Text × Text)
in_front d none = none
in_front d (some (a, b)) = some (d ∷ a, b)

-- `s.split_once(c)`, at a character.
unfoldable pub split_once : ℕ → Text → Option (Text × Text)
split_once c [] = none
split_once c (d ∷ s) = if d == c then some ([], s) else in_front d (split_once c s)

pub split_once-append :
    (c : ℕ) (a b : Text) → contains c a ≡ false → split_once c (a ++ (c ∷ b)) ≡ some (a, b)
unfolding split_once contains
split_once-append c [] b h = ground arith
split_once-append c (d ∷ a) b h = ground (arith, h, split_once-append c a b)

pub split_once-none : (c : ℕ) (s : Text) → contains c s ≡ false → split_once c s ≡ none
unfolding split_once contains
split_once-none c [] h = refl
split_once-none c (d ∷ s) h = ground (arith, h, split_once-none c s)

in_front-eq-some :
    (d : ℕ) (r : Option (Text × Text)) {a b : Text}
    → in_front d r ≡ some (a, b)
    → (a' : Text) × (r ≡ some (a', b)) × (a ≡ d ∷ a')
in_front-eq-some d none e = cc
in_front-eq-some d (some (a', b')) e = (a', ground (arith, e), ground (arith, e))

pub split_once-eq-some :
    (c : ℕ) (s : Text) {a b : Text} → split_once c s ≡ some (a, b) → s ≡ a ++ (c ∷ b)
unfolding split_once
split_once-eq-some c [] e = cc
split_once-eq-some c (d ∷ s) {a} {b} e = elim (Bool-cases (d == c)) [
  | inl same ↦ ground (arith, same, e)
  | inr other ↦
      let (a', q, w) =
        in_front-eq-some d (split_once c s) {a = a} {b = b} (ground (arith, other, e)) in
      rw w (ap (◌∷◌ d) (split_once-eq-some c s q))
]

-- `s.chars().all(p)`
unfoldable pub all : (ℕ → Bool) → Text → Bool
all p [] = true
all p (c ∷ s) = p c && all p s

-- A text whose characters all pass a test that `c` does not pass has no `c`.
pub contains-all :
    (p : ℕ → Bool) (c : ℕ) (s : Text) → p c ≡ false → all p s ≡ true → contains c s ≡ false
unfolding contains all
contains-all p c [] out h = refl
contains-all p c (d ∷ s) out h = elim (Bool-cases (d == c)) [
  | inl same ↦ cc (rw ((==_iff d c).0 same, out) at h)
  | inr other ↦ ground (arith, other, h, contains-all p c s)
]

unfoldable pub is_ascii_digit : ℕ → Bool
is_ascii_digit c = leb b'0' c && leb c b'9'

unfoldable pub is_ascii_lowercase : ℕ → Bool
is_ascii_lowercase c = leb b'a' c && leb c b'z'

unfoldable pub is_ascii_uppercase : ℕ → Bool
is_ascii_uppercase c = leb b'A' c && leb c b'Z'

unfoldable pub is_ascii_alphanumeric : ℕ → Bool
unfolding is_ascii_digit is_ascii_lowercase is_ascii_uppercase
is_ascii_alphanumeric c = is_ascii_digit c || is_ascii_lowercase c || is_ascii_uppercase c

unfoldable pub is_ascii_hexdigit : ℕ → Bool
unfolding is_ascii_digit
is_ascii_hexdigit c = is_ascii_digit c || (leb b'a' c && leb c b'f') || (leb b'A' c && leb c b'F')

-- Nor does such a text start with `c`.
pub strip_prefix-all :
    (p : ℕ → Bool) (c : ℕ) (q s : Text)
    → p c ≡ false
    → all p s ≡ true
    → strip_prefix (c ∷ q) s ≡ none
unfolding strip_prefix all
strip_prefix-all p c q [] out h = refl
strip_prefix-all p c q (d ∷ s) out h = elim (Bool-cases (d == c)) [
  | inl same ↦ cc (rw ((==_iff d c).0 same, out) at h)
  | inr other ↦ rw other
]

-- `s.starts_with(p)`, with the prefix first.
unfoldable pub has_prefix : Text → Text → Bool
has_prefix [] s = true
has_prefix (p ∷ ps) [] = false
has_prefix (p ∷ ps) (c ∷ s) = c == p && has_prefix ps s

-- `list.contains(&t)`
unfoldable pub among : Text → List Text → Bool
unfolding eq
among t [] = false
among t (u ∷ us) = eq t u || among t us

-- `option.unwrap_or_default()`
abbrev pub or_default : Option Text → Text
or_default none = []
or_default (some t) = t
