-- ===== src/Portal/Uri.antt =====
-- The `file://` URIs of src/portal.rs.
pub mod Decoded
use psbox.Common.{
  ℕ, ◌+◌, ◌-◌, ◌*◌, ◌/◌, ◌%◌, Bool, true, false, ◌&&◌, ◌||◌, not, Option, none, some, List, [], ◌∷◌,
  ◌++◌, ◌==◌, ltb, leb, if◌then◌else◌,
}
use psbox.Common.Text.{
  Text, codes, strip_prefix, has_prefix, contains, is_ascii_alphanumeric, is_ascii_digit,
}

-- `char::to_digit(16)`
unfoldable pub hex_digit : ℕ → Option ℕ
unfolding is_ascii_digit
hex_digit c =
    if is_ascii_digit c
    then some (c - b'0')
    else if leb b'a' c && leb c b'f'
    then some (c - b'a' + 10)
    else if leb b'A' c && leb c b'F'
    then some (c - b'A' + 10)
    else none

abbrev pub two_digits : Option ℕ → Option ℕ → Option ℕ
two_digits (some high) (some low) = some (16 * high + low)
two_digits _ _ = none

-- `u8::from_str_radix(_, 16)` of two characters: a plus sign may stand before the digits. Bytes that
-- are not UTF-8 are not digits.
unfoldable pub from_hex : ℕ → ℕ → Option ℕ
unfolding hex_digit
from_hex c d = if c == b'+' then hex_digit d else two_digits (hex_digit c) (hex_digit d)

abbrev pub push : Option ℕ → Option Text → Option Text
push (some c) (some out) = some (c ∷ out)
push _ _ = none

-- The loop over the bytes from `i` on. A `%` with fewer than two bytes behind it stands for itself.
unfoldable pub decode : Text → Option Text
unfolding from_hex
decode [] = some []
decode (c ∷ []) = some (c ∷ [])
decode (c ∷ d ∷ []) = some (c ∷ d ∷ [])
decode (c ∷ d ∷ e ∷ rest) =
    let coded = push (from_hex d e) (decode rest) in
    let plain = push (some c) (decode (d ∷ e ∷ rest)) in if c == b'%' then coded else plain

abbrev pub without_host : Text → Option Text → Text
without_host rest none = rest
without_host rest (some path) = path

abbrev pub decode_absolute : Text → Option Text
decode_absolute path = if has_prefix (b'/' ∷ []) path then decode path else none

abbrev pub path_of : Option Text → Option Text
path_of none = none
path_of (some rest) = decode_absolute (without_host rest (strip_prefix (codes "localhost") rest))

unfoldable pub uri_to_path : Text → Option Text
unfolding strip_prefix has_prefix decode
uri_to_path uri = path_of (strip_prefix (codes "file://") uri)

-- `{:X}` of a number below sixteen.
abbrev pub hex_upper : ℕ → ℕ
hex_upper n = if ltb n 10 then b'0' + n else b'A' + (n - 10)

unfoldable pub unreserved : ℕ → Bool
unfolding is_ascii_alphanumeric contains
unreserved c = is_ascii_alphanumeric c || contains c (codes "/-_.~")

unfoldable pub encode : Text → Text
unfolding unreserved
encode [] = []
encode (c ∷ path) =
    if unreserved c
    then c ∷ encode path
    else b'%' ∷ hex_upper (c / 16) ∷ hex_upper (c % 16) ∷ encode path

unfoldable pub path_to_uri : Text → Text
unfolding encode
path_to_uri path = codes "file://" ++ encode path
