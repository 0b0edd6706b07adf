-- ===== src/Dbus/Reader.antt =====
-- src/dbus/value.rs: `Reader` and `decode_body`. The buffer and its byte order are parameters, and
-- the position is passed on; a depth is counted down, as for signatures.
use psbox.Common.{
  ℕ, zero, suc, ◌+◌, ◌-◌, ◌%◌, Bool, true, false, not, List, [], ◌∷◌, ◌==◌, ltb, if◌then◌else◌,
  length, take, drop, ok, err, ◌>>=◌, ◌>>◌, ensure,
}
use psbox.Common.Text.{Text}
use psbox.Common.Words.{of_le_bytes, of_be_bytes}
use psbox.Common.Utf8.{is_utf8}
use psbox.Dbus.Signature.{
  Outcome, truncated_padding, truncated_value, not_nul_terminated, invalid_utf8, value_too_deep,
  bad_boolean, cannot_read, variant_not_one_type, array_overruns, element_overruns, trailing_bytes,
  panics, out_of_fuel, max_depth, alignment_of, alignment, type_len, split_signature,
}
use psbox.Dbus.Value.{Value, Values, Entries}

-- The bytes from `pos` to the next multiple of `n`.
abbrev pub padding_to : ℕ → ℕ → ℕ
padding_to n pos = (n - pos % n) % n

abbrev first : List ℕ → Outcome ℕ
first [] = err panics
first (b ∷ _) = ok b

abbrev pub init : Text → Text
init [] = []
init (c ∷ []) = []
init (c ∷ d ∷ s) = c ∷ init (d ∷ s)

abbrev pub is_zero_byte : List ℕ → Bool
is_zero_byte (b ∷ []) = b == 0
is_zero_byte _ = false

module _ (buf : List ℕ) (big : Bool) where
  unfoldable pub align : ℕ → ℕ → Outcome ℕ
  align n pos =
      if ltb (length buf) (pos + padding_to n pos)
      then err truncated_padding
      else ok (pos + padding_to n pos)

  -- `Reader::take`
  unfoldable pub take_bytes : ℕ → ℕ → Outcome (List ℕ × ℕ)
  take_bytes n pos =
      if ltb (length buf) (pos + n)
      then err truncated_value
      else ok (take n (drop pos buf), pos + n)

  -- A word of `n` bytes in the order of the buffer.
  unfoldable pub read_word : ℕ → ℕ → Outcome (ℕ × ℕ)
  unfolding take_bytes
  read_word n pos = do
    (b, pos) ← take_bytes n pos
    ok (if big then of_be_bytes b else of_le_bytes b, pos)

  unfoldable pub read_u32 : ℕ → Outcome (ℕ × ℕ)
  unfolding align read_word
  read_u32 pos = do pos ← align 4 pos; read_word 4 pos

  unfoldable pub read_byte : ℕ → Outcome (ℕ × ℕ)
  unfolding take_bytes
  read_byte pos = do (bs, pos) ← take_bytes 1 pos; b ← first bs; ok (b, pos)

  unfoldable pub read_string : ℕ → ℕ → Outcome (Text × ℕ)
  unfolding take_bytes
  read_string len pos = do
    (s, pos) ← take_bytes len pos
    (last, pos) ← take_bytes 1 pos
    ensure (is_zero_byte last) not_nul_terminated
    ensure (is_utf8 s) invalid_utf8
    ok (s, pos)

  -- The loop over the fields of a struct.
  unfoldable pub read_fields :
      (Text → ℕ → Outcome (Value × ℕ)) → List Text → ℕ → Outcome (Values × ℕ)
  read_fields inner [] pos = ok (Values.nothing, pos)
  read_fields inner (t ∷ ts) pos = do
    (v, pos) ← inner t pos
    (vs, pos) ← read_fields inner ts pos
    ok (Values.item v vs, pos)

  -- The loop over the elements of an array: `while self.pos < end`.
  unfoldable pub read_items : (ℕ → Outcome (Value × ℕ)) → ℕ → ℕ → ℕ → Outcome (Values × ℕ)
  read_items inner zero end pos = if ltb pos end then err out_of_fuel else ok (Values.nothing, pos)
  read_items inner (suc fuel) end pos =
      if ltb pos end
      then (do
        (v, pos) ← inner pos
        (vs, pos) ← read_items inner fuel end pos
        ok (Values.item v vs, pos))
      else ok (Values.nothing, pos)

  -- The loop over the entries of a dictionary.
  unfoldable pub read_entries :
      (ℕ → Outcome (Value × ℕ)) → (ℕ → Outcome (Value × ℕ)) → ℕ → ℕ → ℕ → Outcome (Entries × ℕ)
  unfolding align
  read_entries key val zero end pos =
      if ltb pos end then err out_of_fuel else ok (Entries.no_pair, pos)
  read_entries key val (suc fuel) end pos =
      if ltb pos end
      then (do
        pos ← align 8 pos
        (k, pos) ← key pos
        (v, pos) ← val pos
        (rest, pos) ← read_entries key val fuel end pos
        ok (Entries.pair k v rest, pos))
      else ok (Entries.no_pair, pos)

  -- What stands after `elem.starts_with('{')`.
  unfoldable pub read_dict :
      ℕ → (Text → ℕ → Outcome (Value × ℕ)) → Text → ℕ → ℕ → ℕ → Outcome (Value × ℕ)
  unfolding read_entries type_len
  read_dict levels inner kinds len end pos = do
    k ← type_len levels kinds
    (entries, pos) ← read_entries (inner (take k kinds)) (inner (drop k kinds)) len end pos
    ensure (pos == end) element_overruns
    ok (Value.dict (take k kinds) (drop k kinds) entries, pos)

  unfoldable pub read_elements :
      ℕ → (Text → ℕ → Outcome (Value × ℕ)) → Text → ℕ → ℕ → Outcome (Value × ℕ)
  unfolding read_items read_dict
  read_elements levels inner [] len pos = err panics
  read_elements levels inner (c ∷ elem) len pos =
      if c == b'{' then read_dict levels inner (init elem) len (pos + len) pos else (do
        (items, pos') ← read_items (inner (c ∷ elem)) len (pos + len) pos
        ensure (pos' == pos + len) element_overruns
        ok (Value.array (c ∷ elem) items, pos'))

  unfoldable pub read_array : ℕ → (Text → ℕ → Outcome (Value × ℕ)) → Text → ℕ → Outcome (Value × ℕ)
  unfolding read_u32 align read_elements
  read_array levels inner elem pos = do
    (len, pos) ← read_u32 pos
    n ← alignment elem
    pos ← align n pos
    ensure (not (ltb (length buf) (pos + len))) array_overruns
    read_elements levels inner elem len pos

  unfoldable pub read_bool : ℕ → Outcome (Value × ℕ)
  unfolding read_u32
  read_bool pos = do
    (v, pos) ← read_u32 pos
    if v == 0
        then ok (Value.bool false, pos)
        else if v == 1
        then ok (Value.bool true, pos)
        else err (bad_boolean v)

  unfoldable pub read_variant : (Text → ℕ → Outcome (Value × ℕ)) → ℕ → Outcome (Value × ℕ)
  unfolding read_byte read_string split_signature
  read_variant inner pos = do
    (n, pos) ← read_byte pos
    (sig, pos) ← read_string n pos
    types ← split_signature sig
    ensure (length types == 1) variant_not_one_type
    (v, pos) ← inner sig pos
    ok (Value.variant v, pos)

  unfoldable pub read_struct : (Text → ℕ → Outcome (Value × ℕ)) → Text → ℕ → Outcome (Value × ℕ)
  unfolding split_signature read_fields
  read_struct inner fields pos = do
    types ← split_signature fields
    (vs, pos) ← read_fields inner types pos
    ok (Value.struct vs, pos)

  -- The `match` on the first letter, with the rest of the type. `inner` reads one level further down,
  -- and `levels` is what `complete_type_len` may use here.
  unfoldable pub read_letter :
      ℕ → (Text → ℕ → Outcome (Value × ℕ)) → ℕ → Text → ℕ → Outcome (Value × ℕ)
  unfolding read_word read_u32 read_byte read_string read_array read_bool read_variant read_struct
  read_letter levels inner c sig pos =
      if c == b'y'
      then (do (n, pos) ← read_byte pos; ok (Value.byte n, pos))
      else if c == b'b'
      then read_bool pos
      else if c == b'n'
      then (do (n, pos) ← read_word 2 pos; ok (Value.i16 n, pos))
      else if c == b'q'
      then (do (n, pos) ← read_word 2 pos; ok (Value.u16 n, pos))
      else if c == b'i'
      then (do (n, pos) ← read_u32 pos; ok (Value.i32 n, pos))
      else if c == b'u'
      then (do (n, pos) ← read_u32 pos; ok (Value.u32 n, pos))
      else if c == b'h'
      then (do (n, pos) ← read_u32 pos; ok (Value.fd n, pos))
      else if c == b'x'
      then (do (n, pos) ← read_word 8 pos; ok (Value.i64 n, pos))
      else if c == b't'
      then (do (n, pos) ← read_word 8 pos; ok (Value.u64 n, pos))
      else if c == b'd'
      then (do (n, pos) ← read_word 8 pos; ok (Value.double n, pos))
      else if c == b's'
      then (do (n, pos) ← read_u32 pos; (s, pos) ← read_string n pos; ok (Value.str s, pos))
      else if c == b'o'
      then (do (n, pos) ← read_u32 pos; (s, pos) ← read_string n pos; ok (Value.path s, pos))
      else if c == b'g'
      then (do (n, pos) ← read_byte pos; (s, pos) ← read_string n pos; ok (Value.sig s, pos))
      else if c == b'v'
      then read_variant inner pos
      else if c == b'('
      then read_struct inner (init sig) pos
      else if c == b'a'
      then read_array levels inner sig pos
      else err (cannot_read c)

  -- `Reader::read_depth` with `levels` left.
  unfoldable pub read_depth : ℕ → Text → ℕ → Outcome (Value × ℕ)
  unfolding align read_letter
  read_depth zero sig pos = err value_too_deep
  read_depth (suc levels) [] pos = err panics
  read_depth (suc levels) (c ∷ sig) pos = do
    pos ← align (alignment_of c) pos
    read_letter (suc levels) (read_depth levels) c sig pos

  unfoldable pub read : Text → ℕ → Outcome (Value × ℕ)
  unfolding read_depth
  read sig pos = read_depth (max_depth + 1) sig pos

unfoldable pub decode_body : Text → List ℕ → Bool → Outcome Values
unfolding read read_fields split_signature
decode_body sig body big = do
  types ← split_signature sig
  (vs, pos) ← read_fields body big (read body big) types 0
  ensure (pos == length body) trailing_bytes
  ok vs
