-- ===== src/Portal/Uri/Decoded.antt =====
-- The two functions on URIs of src/portal.rs, one after the other.
use psbox.Common.{
  ℕ, ◌/◌, ◌%◌, ◌<◌, ◌≡◌, refl, ap, ◌∙◌, true, false, Option, none, some, [], ◌∷◌, ◌==◌, ==_iff,
  &&-eq-true, some-injective, sym, All, if-cases, Bool-cases, inl, inr, arith,
}
use psbox.Common.Bytes.{IsByte}
use psbox.Common.Text.{
  Text, codes, strip_prefix, has_prefix, is_ascii_alphanumeric, contains, is_ascii_digit,
}
use psbox.Portal.Uri.{
  hex_digit, from_hex, push, decode, without_host, decode_absolute, path_of, uri_to_path, hex_upper,
  unreserved, encode, path_to_uri,
}

decode_plain : (c : ℕ) (s : Text) → (c == b'%') ≡ false → decode (c ∷ s) ≡ push (some c) (decode s)
unfolding decode
decode_plain c [] h = refl
decode_plain c (d ∷ []) h = refl
decode_plain c (d ∷ e ∷ s) h = rw h refl

decode_coded : (d e : ℕ) (s : Text) → decode (b'%' ∷ d ∷ e ∷ s) ≡ push (from_hex d e) (decode s)
unfolding decode
decode_coded d e s = refl

hex_digit-hex_upper : (n : ℕ) → n < 16 → hex_digit (hex_upper n) ≡ some n
unfolding hex_digit is_ascii_digit
hex_digit-hex_upper n h = ground arith

hex_upper_ne_plus : (n : ℕ) → (hex_upper n == b'+') ≡ false
hex_upper_ne_plus n = ground arith

from_hex-hex_upper : (c : ℕ) → c < 256 → from_hex (hex_upper (c / 16)) (hex_upper (c % 16)) ≡ some c
unfolding from_hex
from_hex-hex_upper c h =
    rw
      (
        hex_upper_ne_plus (c / 16),
        hex_digit-hex_upper (c / 16) (omega arith),
        hex_digit-hex_upper (c % 16) (omega arith),
      )
      (ap some (omega arith))

unreserved_ne : (c : ℕ) → unreserved c ≡ true → (c == b'%') ≡ false
unfolding unreserved is_ascii_alphanumeric is_ascii_digit contains
unreserved_ne c h = elim (Bool-cases (c == b'%')) [
  | inl percent ↦ cc (rw ((==_iff c b'%').0 percent) at h)
  | inr other ↦ other
]

decode-nil : decode [] ≡ some []
unfolding decode
decode-nil = refl

decode-encode : (path : Text) → All IsByte path → decode (encode path) ≡ some path
unfolding encode
decode-encode [] h = decode-nil
decode-encode (c ∷ path) h = elim (Bool-cases (unreserved c)) [
  | inl plain ↦
      rw (plain, decode_plain c (encode path) (unreserved_ne c plain), decode-encode path h.1) refl
  | inr coded ↦
      rw (coded, decode_coded _ _ (encode path), from_hex-hex_upper c h.0, decode-encode path h.1)
        refl
]

-- A path that starts with `/` is read back from its URI.
pub uri_to_path-path_to_uri :
    (path : Text) → All IsByte path → uri_to_path (path_to_uri (b'/' ∷ path)) ≡ some (b'/' ∷ path)
unfolding uri_to_path path_to_uri
uri_to_path-path_to_uri path h =
    rw (decode_plain b'/' (encode path) refl, decode-encode path h) refl

push-some :
    (c : ℕ) (out : Option Text) {p : Text}
    → push (some c) out ≡ some p
    → (rest : Text) × (p ≡ c ∷ rest)
push-some c none h = cc h
push-some c (some out) h = (out, sym (some-injective h))

decode-absolute :
    (path : Text) {p : Text}
    → has_prefix (b'/' ∷ []) path ≡ true
    → decode path ≡ some p
    → (rest : Text) × (p ≡ b'/' ∷ rest)
unfolding has_prefix
decode-absolute [] h e = cc h
decode-absolute (c ∷ s) h e =
    let slash = (==_iff c b'/').0 (&&-eq-true _ _ h).0 in
    push-some b'/' (decode s) (sym (decode_plain b'/' s refl) ∙ rw slash at e)

decode_absolute-some :
    (path : Text) {p : Text} → decode_absolute path ≡ some p → (rest : Text) × (p ≡ b'/' ∷ rest)
decode_absolute-some path h = elim (if-cases (has_prefix (b'/' ∷ []) path) h) [
  | inl (absolute, e) ↦ decode-absolute path absolute e
  | inr (_, e) ↦ cc e
]

path_of-some : (o : Option Text) {p : Text} → path_of o ≡ some p → (rest : Text) × (p ≡ b'/' ∷ rest)
path_of-some none h = cc h
path_of-some (some rest) h =
    decode_absolute-some (without_host rest (strip_prefix (codes "localhost") rest)) h

-- A URI that has a path has one that starts with `/`.
pub uri_to_path-absolute :
    (uri : Text) {p : Text} → uri_to_path uri ≡ some p → (rest : Text) × (p ≡ b'/' ∷ rest)
unfolding uri_to_path
uri_to_path-absolute uri h = path_of-some (strip_prefix (codes "file://") uri) h
