-- ===== src/Portal/Arguments.antt =====
-- The arguments of a call in src/portal.rs: how they are read and changed, and which file names are
-- plain.
use psbox.Common.{
  ℕ, zero, suc, Bool, true, false, ◌&&◌, not, Option, none, some, [], ◌∷◌, ◌==◌, if◌then◌else◌, ok,
  err,
}
use psbox.Common.Text.{Text, codes, eq, contains}
use psbox.Dbus.Signature.{Outcome}
use psbox.Dbus.Value.{Value, Values, as_str, dict_get, dict_remove}
use psbox.Dbus.Message.{args}

-- `args.get(i)`
unfoldable pub arg : ℕ → Values → Option Value
arg i Values.nothing = none
arg zero (Values.item v vs) = some v
arg (suc i) (Values.item v vs) = arg i vs

-- `if let Some(a) = args.get_mut(i)`, with what is done to `a`.
unfoldable pub update_arg : ℕ → (Value → Value) → Values → Values
update_arg i f Values.nothing = Values.nothing
update_arg zero f (Values.item v vs) = Values.item (f v) vs
update_arg (suc i) f (Values.item v vs) = Values.item v (update_arg i f vs)

abbrev pub str_of : Option Value → Option Text
str_of none = none
str_of (some v) = as_str v

abbrev pub is_dict : Option Value → Bool
is_dict (some (Value.dict _ _ _)) = true
is_dict _ = false

-- The bytes of an array, if all its elements are bytes.
unfoldable pub bytes_of : Values → Option Text
bytes_of Values.nothing = some []
bytes_of (Values.item (Value.byte b) vs) = elim (bytes_of vs) [
  | none ↦ none
  | some bs ↦ some (b ∷ bs)
]
bytes_of (Values.item _ vs) = none

-- `bytes.strip_suffix(b"\0").unwrap_or(&bytes)`
unfoldable pub strip_nul : Text → Text
strip_nul [] = []
strip_nul (b ∷ []) = if b == 0 then [] else b ∷ []
strip_nul (b ∷ c ∷ bs) = b ∷ strip_nul (c ∷ bs)

unfoldable pub plain_name : Text → Bool
unfolding eq contains
plain_name name =
    not (eq name [])
    && not (eq name (codes "."))
    && not (eq name (codes ".."))
    && not (contains b'/' name)
    && not (contains 0 name)

abbrev pub plain_bytes : Option Text → Bool
plain_bytes none = false
plain_bytes (some bytes) = plain_name (strip_nul bytes)

abbrev pub plain : Value → Bool
plain (Value.array _ bytes) = plain_bytes (bytes_of bytes)
plain _ = false

unfoldable pub all_plain : Values → Bool
unfolding bytes_of strip_nul plain_name
all_plain Values.nothing = true
all_plain (Values.item v vs) = plain v && all_plain vs

unfoldable pub plain_file_names : Value → Bool
unfolding all_plain eq
plain_file_names (Value.array elem names) = eq elem (codes "ay") && all_plain names
plain_file_names _ = false

abbrev pub read_hints : Value → Value
read_hints hints =
    dict_remove (dict_remove (dict_remove hints (codes "image-path")) (codes "image_path"))
      (codes "sound-file")

abbrev pub forget_selection : Value → Value
forget_selection opts =
    dict_remove (dict_remove opts (codes "persist_mode")) (codes "restore_token")

abbrev pub forget_folder : Value → Value
forget_folder opts = dict_remove (dict_remove opts (codes "current_folder")) (codes "current_file")

abbrev pub plain_or_absent : Option Value → Bool
plain_or_absent none = true
plain_or_absent (some files) = plain_file_names files

abbrev pub files_plain : Option Value → Bool
files_plain none = true
files_plain (some opts) = plain_or_absent (dict_get opts (codes "files"))

abbrev pub first_str : Outcome Values → Option Text
first_str (err _) = none
first_str (ok args) = str_of (arg 0 args)
