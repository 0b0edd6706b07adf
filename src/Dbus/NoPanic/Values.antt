-- ===== src/Dbus/NoPanic/Values.antt =====
-- Panics of `Reader::read_depth` and `decode_body` in src/dbus/value.rs.
use psbox.Common.{
  ℕ, zero, suc, ◌+◌, ◌≡◌, refl, Bool, true, false, not, List, [], ◌∷◌, take, drop, length, ◌==◌,
  ltb, if◌then◌else◌, ok, ◌>>=◌, ensure, All, ensure,
}
use psbox.Common.Text.{Text}
use psbox.Dbus.Signature.{
  Outcome, DecodeError, is_panic, type_len, split_signature, alignment_of, alignment,
  variant_not_one_type, array_overruns, element_overruns, trailing_bytes, max_depth,
}
use psbox.Dbus.Signature.NoPanic.{
  NoPanic, gives, fails, then-NoPanic, if-NoPanic, type_len-NoPanic, split_signature-NoPanic,
}
use psbox.Dbus.Signature.Types.{
  IsType, IsType-nil, Kinds, split_signature-IsType, split_signature-one, array-IsType, entry-Kinds,
  kinds-IsType,
}
use psbox.Dbus.Value.{Value}
use psbox.Dbus.Reader.{
  init, align, read_byte, read_word, read_u32, read_string, read_fields, read_items, read_entries,
  read_dict, read_elements, read_array, read_variant, read_struct, read_letter, read_depth, read,
  decode_body,
}
use psbox.Dbus.NoPanic.{
  align-NoPanic, read_word-NoPanic, read_u32-NoPanic, read_byte-NoPanic, read_string-NoPanic,
  read_bool-NoPanic,
}

-- The test with its outcome.
branch :
    {A : Type 0} (test : Bool) (x y : Outcome A)
    → (test ≡ true → NoPanic x)
    → NoPanic y
    → NoPanic (if test then x else y)
branch true x y hx hy = hx refl
branch false x y hx hy = hy

ensured :
    {A : Type 0} (test : Bool) (e : DecodeError) (next : Unit {0} → Outcome A)
    → is_panic e ≡ false
    → (test ≡ true → NoPanic (next tt))
    → NoPanic (ensure test e >>= next)
ensured true e next h n = n refl
ensured false e next h n = fails h

module _ (buf : List ℕ) (big : Bool) where
  read_fields-NoPanic :
      (inner : Text → ℕ → Outcome (Value × ℕ))
      → ((t : Text) (pos : ℕ) → IsType t → NoPanic (inner t pos))
      → (ts : List Text) (pos : ℕ) → All IsType ts
      → NoPanic (read_fields buf big inner ts pos)
  unfolding read_fields
  read_fields-NoPanic inner safe [] pos ws = gives
  read_fields-NoPanic inner safe (t ∷ ts) pos (w, ws) =
      then-NoPanic (inner t pos) _ (safe t pos w) λ v _.
        then-NoPanic (read_fields buf big inner ts v.1) _ (read_fields-NoPanic inner safe ts v.1 ws)
          (λ vs _. gives)

  read_items-NoPanic :
      (inner : ℕ → Outcome (Value × ℕ))
      → ((pos : ℕ) → NoPanic (inner pos))
      → (fuel end pos : ℕ) → NoPanic (read_items buf big inner fuel end pos)
  unfolding read_items
  read_items-NoPanic inner safe zero end pos = if-NoPanic (ltb pos end) _ _ (fails refl) gives
  read_items-NoPanic inner safe (suc fuel) end pos =
      if-NoPanic (ltb pos end) _ _
        (then-NoPanic (inner pos) _ (safe pos) λ v _.
          then-NoPanic (read_items buf big inner fuel end v.1) _
            (read_items-NoPanic inner safe fuel end v.1) (λ vs _. gives))
        gives

  read_entries-NoPanic :
      (key val : ℕ → Outcome (Value × ℕ))
      → ((pos : ℕ) → NoPanic (key pos))
      → ((pos : ℕ) → NoPanic (val pos))
      → (fuel end pos : ℕ) → NoPanic (read_entries buf big key val fuel end pos)
  unfolding read_entries
  read_entries-NoPanic key val sk sv zero end pos = if-NoPanic (ltb pos end) _ _ (fails refl) gives
  read_entries-NoPanic key val sk sv (suc fuel) end pos =
      if-NoPanic (ltb pos end) _ _
        (then-NoPanic (align buf big 8 pos) _ (align-NoPanic buf big 8 pos) λ pos _.
          then-NoPanic (key pos) _ (sk pos) λ k _. then-NoPanic (val k.1) _ (sv k.1) λ v _.
            then-NoPanic (read_entries buf big key val fuel end v.1) _
              (read_entries-NoPanic key val sk sv fuel end v.1) (λ rest _. gives))
        gives

  module _ (levels : ℕ) (inner : Text → ℕ → Outcome (Value × ℕ))
      (safe : (t : Text) (pos : ℕ) → IsType t → NoPanic (inner t pos)) where
    read_dict-NoPanic :
        (kinds : Text) (len end pos : ℕ)
        → Kinds kinds
        → NoPanic (read_dict buf big levels inner kinds len end pos)
    unfolding read_dict
    read_dict-NoPanic kinds len end pos w =
        then-NoPanic (type_len levels kinds) _ (type_len-NoPanic levels kinds) λ k e.
          let (key, val) =
            kinds-IsType levels k w.own w.key w.val w.key_within w.val_within (rw w.spelled at e) in
          then-NoPanic
            (read_entries buf big (inner (take k kinds)) (inner (drop k kinds)) len end pos) _
            (read_entries-NoPanic (inner (take k kinds)) (inner (drop k kinds))
              (λ p. safe (take k kinds) p (rw w.spelled key))
              (λ p. safe (drop k kinds) p (rw w.spelled val)) len end pos)
            (λ entries _. ensured (entries.1 == end) element_overruns _ refl (λ _. gives))

    read_elements-NoPanic :
        (elem : Text) (len pos : ℕ)
        → IsType elem
        → NoPanic (read_elements buf big levels inner elem len pos)
    unfolding read_elements
    read_elements-NoPanic [] len pos w = absurd (IsType-nil w)
    read_elements-NoPanic (c ∷ elem) len pos w =
        branch (c == b'{') _ _
          (λ a. read_dict-NoPanic (init elem) len (pos + len) pos (entry-Kinds c elem a w))
          (then-NoPanic (read_items buf big (inner (c ∷ elem)) len (pos + len) pos) _
            (read_items-NoPanic (inner (c ∷ elem)) (λ p. safe (c ∷ elem) p w) len (pos + len) pos)
            (λ items _. ensured (items.1 == pos + len) element_overruns _ refl (λ _. gives)))

    alignment-NoPanic : (elem : Text) → IsType elem → NoPanic (alignment elem)
    alignment-NoPanic [] w = absurd (IsType-nil w)
    alignment-NoPanic (c ∷ elem) w = gives

    read_array-NoPanic :
        (elem : Text) (pos : ℕ) → IsType elem → NoPanic (read_array buf big levels inner elem pos)
    unfolding read_array
    read_array-NoPanic elem pos w =
        then-NoPanic (read_u32 buf big pos) _ (read_u32-NoPanic buf big pos) λ len _.
          then-NoPanic (alignment elem) _ (alignment-NoPanic elem w) λ n _.
            then-NoPanic (align buf big n len.1) _ (align-NoPanic buf big n len.1) λ pos _.
              ensured (not (ltb (length buf) (pos + len.0))) array_overruns _ refl
                (λ _. read_elements-NoPanic elem len.0 pos w)

    read_variant-NoPanic : (pos : ℕ) → NoPanic (read_variant buf big inner pos)
    unfolding read_variant
    read_variant-NoPanic pos =
        then-NoPanic (read_byte buf big pos) _ (read_byte-NoPanic buf big pos) λ n _.
          then-NoPanic (read_string buf big n.0 n.1) _ (read_string-NoPanic buf big n.0 n.1)
            λ sig _.
              then-NoPanic (split_signature sig.0) _ (split_signature-NoPanic sig.0) λ types e.
                ensured (length types == 1) variant_not_one_type _ refl λ one.
                  then-NoPanic (inner sig.0 sig.1) _
                    (safe sig.0 sig.1 (split_signature-one sig.0 e one)) (λ v _. gives)

    read_struct-NoPanic : (fields : Text) (pos : ℕ) → NoPanic (read_struct buf big inner fields pos)
    unfolding read_struct
    read_struct-NoPanic fields pos =
        then-NoPanic (split_signature fields) _ (split_signature-NoPanic fields) λ types e.
          then-NoPanic (read_fields buf big inner types pos) _
            (read_fields-NoPanic inner safe types pos (split_signature-IsType fields e))
            (λ vs _. gives)

    word :
        (n pos : ℕ) (f : ℕ → Value)
        → NoPanic {A = Value × ℕ} (read_word buf big n pos >>= λ r. ok (f r.0, r.1))
    word n pos f =
        then-NoPanic (read_word buf big n pos) _ (read_word-NoPanic buf big n pos) (λ r _. gives)

    long :
        (pos : ℕ) (f : ℕ → Value)
        → NoPanic {A = Value × ℕ} (read_u32 buf big pos >>= λ r. ok (f r.0, r.1))
    long pos f = then-NoPanic (read_u32 buf big pos) _ (read_u32-NoPanic buf big pos) (λ r _. gives)

    text :
        (pos : ℕ) (f : Text → Value)
        → NoPanic {A = Value × ℕ}
            (read_u32 buf big pos >>= λ n. read_string buf big n.0 n.1 >>= λ s. ok (f s.0, s.1))
    text pos f = then-NoPanic (read_u32 buf big pos) _ (read_u32-NoPanic buf big pos) λ n _.
        then-NoPanic (read_string buf big n.0 n.1) _ (read_string-NoPanic buf big n.0 n.1)
          (λ s _. gives)

    read_letter-NoPanic :
        (c : ℕ) (sig : Text) (pos : ℕ)
        → IsType (c ∷ sig)
        → NoPanic (read_letter buf big levels inner c sig pos)
    unfolding read_letter
    read_letter-NoPanic c sig pos w =
        if-NoPanic (c == b'y') _ _
          (then-NoPanic (read_byte buf big pos) _ (read_byte-NoPanic buf big pos) (λ r _. gives))
          (if-NoPanic (c == b'b') _ _ (read_bool-NoPanic buf big pos) (
            if-NoPanic (c == b'n') _ _ (word 2 pos Value.i16) (
              if-NoPanic (c == b'q') _ _ (word 2 pos Value.u16) (
                if-NoPanic (c == b'i') _ _ (long pos Value.i32) (
                  if-NoPanic (c == b'u') _ _ (long pos Value.u32) (
                    if-NoPanic (c == b'h') _ _ (long pos Value.fd) (
                      if-NoPanic (c == b'x') _ _ (word 8 pos Value.i64) (
                        if-NoPanic (c == b't') _ _ (word 8 pos Value.u64) (
                          if-NoPanic (c == b'd') _ _ (word 8 pos Value.double) (
                            if-NoPanic (c == b's') _ _ (text pos Value.str) (
                              if-NoPanic (c == b'o') _ _ (text pos Value.path) (
                                if-NoPanic (c == b'g') _ _
                                  (then-NoPanic (read_byte buf big pos) _
                                    (read_byte-NoPanic buf big pos)
                                    λ n _.
                                      then-NoPanic (read_string buf big n.0 n.1) _
                                        (read_string-NoPanic buf big n.0 n.1) (λ s _. gives))
                                  (if-NoPanic (c == b'v') _ _ (read_variant-NoPanic pos) (
                                    if-NoPanic (c == b'(') _ _ (read_struct-NoPanic (init sig) pos)
                                      (branch (c == b'a') _ _
                                        (λ a. read_array-NoPanic sig pos (array-IsType c sig a w))
                                        (fails refl))))))))))))))))

  read_depth-NoPanic :
      (levels : ℕ) (sig : Text) (pos : ℕ) → IsType sig → NoPanic (read_depth buf big levels sig pos)
  unfolding read_depth
  read_depth-NoPanic zero sig pos w = fails refl
  read_depth-NoPanic (suc levels) [] pos w = absurd (IsType-nil w)
  read_depth-NoPanic (suc levels) (c ∷ sig) pos w =
      then-NoPanic (align buf big (alignment_of c) pos) _
        (align-NoPanic buf big (alignment_of c) pos)
        (λ pos _.
          read_letter-NoPanic (suc levels) (read_depth buf big levels) (read_depth-NoPanic levels) c
            sig pos w)

pub decode_body-NoPanic :
    (sig : Text) (body : List ℕ) (big : Bool) → NoPanic (decode_body sig body big)
unfolding decode_body read
decode_body-NoPanic sig body big =
    then-NoPanic (split_signature sig) _ (split_signature-NoPanic sig) λ types e.
      then-NoPanic (read_fields body big (read body big) types 0) _
        (read_fields-NoPanic body big (read body big) (read_depth-NoPanic body big (max_depth + 1))
          types 0 (split_signature-IsType sig e))
        (λ vs _. ensured (vs.1 == length body) trailing_bytes _ refl (λ _. gives))
