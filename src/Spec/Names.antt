-- ===== src/Spec/Names.antt =====
-- src/spec.rs: the names of sandboxes, apps, mounts and tasks. A text is the list of its bytes.
use psbox.Common.{
  ℕ, Bool, true, false, ◌&&◌, ◌||◌, not, [], ◌∷◌, ◌==◌, if◌then◌else◌, Result, ok, err,
}
use psbox.Common.Text.{Text, codes, eq, all, is_ascii_alphanumeric}

-- `UNNAMED` of src/plan.rs.
abbrev pub unnamed_name : Text
unnamed_name = codes "sandbox"

pub data NameError : Type 0 where
  invalid_name reserved_name : NameError

abbrev pub is_empty : Text → Bool
is_empty [] = true
is_empty (c ∷ s) = false

-- `s.starts_with(c)`
abbrev pub starts_with : ℕ → Text → Bool
starts_with c [] = false
starts_with c (d ∷ s) = d == c

unfoldable pub word_char : ℕ → Bool
unfolding is_ascii_alphanumeric
word_char c = is_ascii_alphanumeric c || c == b'_' || c == b'-'

unfoldable pub valid_word : Text → Bool
unfolding word_char
valid_word s = not (is_empty s) && all word_char s

unfoldable pub validate_sandbox_name : Text → Result NameError (Unit {0})
unfolding valid_word
validate_sandbox_name name =
    if not (valid_word name) || starts_with b'-' name
    then err invalid_name
    else if eq name unnamed_name
    then err reserved_name
    else ok tt

name_char : ℕ → Bool
unfolding is_ascii_alphanumeric
name_char c = is_ascii_alphanumeric c || c == b'.' || c == b'_' || c == b'-'

-- App, mount and task names.
unfoldable pub validate_name : Text → Result NameError (Unit {0})
unfolding name_char
validate_name name =
    if not (is_empty name)
      && not (eq name (codes "."))
      && not (eq name (codes ".."))
      && not (starts_with b'-' name)
      && all name_char name
    then ok tt
    else err invalid_name
