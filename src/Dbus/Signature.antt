-- ===== src/Dbus/Signature.antt =====
-- src/dbus/value.rs: signatures, and the errors of this file and of message.rs. A depth is counted down: `type_len` has as many levels left as the
-- source may still go down before it is past `MAX_DEPTH`.
pub mod Grammar
pub mod Complete
mod Sound
pub mod Splitting
pub mod Fuel
pub mod NoPanic
pub mod Types
mod Tests
use psbox.Common.{
  ℕ, zero, suc, ◌+◌, ◌-◌, Bool, true, false, ◌||◌, Option, none, some, List, [], ◌∷◌, ◌==◌,
  if◌then◌else◌, length, get_elem?, take, drop, Result, ok, err, ◌>>=◌, ◌>>◌, ensure,
}
use psbox.Common.Text.{Text}

-- One constructor for each message of a `DecodeError`. `panics` stands for an index out of
-- bounds, `out_of_fuel` for a loop that does not end.
pub data DecodeError : Type 0 where
  signature_too_deep unterminated_struct empty_struct bad_dict_entry : DecodeError
  bad_character : ℕ → DecodeError
  truncated_signature : DecodeError
  truncated_padding truncated_value not_nul_terminated invalid_utf8 value_too_deep : DecodeError
  bad_boolean cannot_read : ℕ → DecodeError
  variant_not_one_type array_overruns element_overruns trailing_bytes : DecodeError
  unknown_byte_order message_too_large short_header length_mismatch : DecodeError
  unsupported_version fields_mismatch : DecodeError
  panics out_of_fuel : DecodeError

abbrev pub Outcome {ℓ} : Type ℓ → Type ℓ
Outcome A = Result DecodeError A

-- Only a panic does not come back to the caller.
abbrev pub is_panic : DecodeError → Bool
is_panic panics = true
is_panic _ = false

abbrev pub max_depth : ℕ
max_depth = 64

-- The letters of the types that have no parts.
unfoldable pub is_basic : ℕ → Bool
is_basic c =
    c == b'y'
    || c == b'b'
    || c == b'n'
    || c == b'q'
    || c == b'i'
    || c == b'u'
    || c == b'x'
    || c == b't'
    || c == b'd'
    || c == b's'
    || c == b'o'
    || c == b'g'
    || c == b'h'
    || c == b'v'

abbrev is_at : Option ℕ → ℕ → Bool
is_at none c = false
is_at (some d) c = d == c

-- The loop over the fields of a struct. `rest` is `&sig[i..]`, and `one` measures a field.
unfoldable fields_len : (Text → Outcome ℕ) → ℕ → Text → ℕ → Outcome ℕ
fields_len one fuel [] i = err unterminated_struct
fields_len one zero (c ∷ rest) i = if c == b')' then ok i else err out_of_fuel
fields_len one (suc fuel) (c ∷ rest) i =
    if c == b')'
    then ok i
    else (do n ← one (c ∷ rest); fields_len one fuel (drop n (c ∷ rest)) (i + n))

-- `complete_type_len` with `levels` left.
unfoldable pub type_len : ℕ → Text → Outcome ℕ
unfolding is_basic fields_len
type_len zero sig = err signature_too_deep
type_len (suc levels) [] = err truncated_signature
type_len (suc levels) (c ∷ sig) =
    if is_basic c
    then ok 1
    else if c == b'a'
    then (do n ← type_len levels sig; ok (1 + n))
    else if c == b'('
    then (do
      i ← fields_len (type_len levels) (length sig) sig 1
      if i == 1 then err empty_struct else ok (i + 1))
    else if c == b'{'
    then (do
      k ← type_len levels sig
      v ← type_len levels (drop k sig)
      if is_at (get_elem? (c ∷ sig) (1 + k + v)) b'}' then ok (k + v + 2) else err bad_dict_entry)
    else err (bad_character c)

unfoldable pub complete_type_len : Text → ℕ → Outcome ℕ
unfolding type_len
complete_type_len sig depth = type_len (max_depth + 1 - depth) sig

unfoldable split_all : ℕ → Text → Outcome (List Text)
unfolding complete_type_len
split_all fuel [] = ok []
split_all zero (c ∷ rest) = err out_of_fuel
split_all (suc fuel) (c ∷ rest) = do
  len ← complete_type_len (c ∷ rest) 0
  more ← split_all fuel (drop len (c ∷ rest))
  ok (take len (c ∷ rest) ∷ more)

-- Every type has at least one letter, so there are at most as many turns as letters.
unfoldable pub split_signature : Text → Outcome (List Text)
unfolding split_all
split_signature sig = split_all (length sig) sig

-- The boundary that a type with this first letter starts at.
unfoldable pub alignment_of : ℕ → ℕ
alignment_of c =
    if c == b'y' || c == b'g' || c == b'v'
    then 1
    else if c == b'n' || c == b'q'
    then 2
    else if c == b'x' || c == b't' || c == b'd' || c == b'(' || c == b'{'
    then 8
    else 4

abbrev pub alignment : Text → Outcome ℕ
alignment [] = err panics
alignment (c ∷ sig) = ok (alignment_of c)
