-- ===== src/Dbus/Writable/Decoded.antt =====
-- src/dbus/value.rs: the writing of what `Reader` gives.
use psbox.Common.{
  ℕ, zero, suc, ◌+◌, Bool, true, false, not, List, [], ◌∷◌, take, drop, length, ◌==◌, ltb,
  if◌then◌else◌, ok, err, ◌>>=◌, ensure,
}
use psbox.Common.Text.{Text}
use psbox.Dbus.Signature.{
  Outcome, type_len, split_signature, alignment_of, alignment, variant_not_one_type, array_overruns,
  element_overruns, trailing_bytes, max_depth,
}
use psbox.Dbus.Value.{Value, Values, Entries}
use psbox.Dbus.Reader.{
  init, align, read_byte, read_word, read_u32, read_string, read_bool, read_fields, read_items,
  read_entries, read_dict, read_elements, read_array, read_variant, read_struct, read_letter,
  read_depth, read, decode_body,
}
use psbox.Dbus.Writable.{Writable, AllWritable, WritableEntries}

-- What a computation gives, if anything, satisfies `P`.
abbrev pub Gives : {A : Type 0} → (A → Type 0) → Outcome A → Type 0
Gives P (ok a) = P a
Gives P (err _) = Unit

abbrev Any : {A : Type 0} → A → Type 0
Any a = Unit

Gives-Any : {A : Type 0} (result : Outcome A) → Gives Any result
Gives-Any (ok a) = tt
Gives-Any (err e) = tt

then-Gives :
    {A B : Type 0} (P : A → Type 0) (Q : B → Type 0) (result : Outcome A) (next : A → Outcome B)
    → Gives P result
    → ((a : A) → P a → Gives Q (next a))
    → Gives Q (result >>= next)
then-Gives P Q (ok a) next p h = h a p
then-Gives P Q (err e) next p h = tt

-- The same where nothing is asked of the first result.
after :
    {A B : Type 0} (Q : B → Type 0) (result : Outcome A) (next : A → Outcome B)
    → ((a : A) → Gives Q (next a))
    → Gives Q (result >>= next)
after Q result next h = then-Gives Any Q result next (Gives-Any result) (λ a _. h a)

if-Gives :
    {A : Type 0} (P : A → Type 0) (test : Bool) (x y : Outcome A)
    → Gives P x
    → Gives P y
    → Gives P (if test then x else y)
if-Gives P true x y hx hy = hx
if-Gives P false x y hx hy = hy

abbrev IsRead : Value × ℕ → Type 0
IsRead r = Writable r.0

abbrev AreRead : Values × ℕ → Type 0
AreRead r = AllWritable r.0

abbrev EntriesRead : Entries × ℕ → Type 0
EntriesRead r = WritableEntries r.0

module _ (buf : List ℕ) (big : Bool) where
  read_fields-Writable :
      (inner : Text → ℕ → Outcome (Value × ℕ))
      → ((t : Text) (pos : ℕ) → Gives IsRead (inner t pos))
      → (ts : List Text) (pos : ℕ) → Gives AreRead (read_fields buf big inner ts pos)
  unfolding read_fields Writable
  read_fields-Writable inner safe [] pos = tt
  read_fields-Writable inner safe (t ∷ ts) pos =
      then-Gives IsRead AreRead (inner t pos) _ (safe t pos) λ v w.
        then-Gives AreRead AreRead (read_fields buf big inner ts v.1) _
          (read_fields-Writable inner safe ts v.1) (λ vs ws. (w, ws))

  read_items-Writable :
      (inner : ℕ → Outcome (Value × ℕ))
      → ((pos : ℕ) → Gives IsRead (inner pos))
      → (fuel end pos : ℕ) → Gives AreRead (read_items buf big inner fuel end pos)
  unfolding read_items Writable
  read_items-Writable inner safe zero end pos = if-Gives AreRead (ltb pos end) _ _ tt tt
  read_items-Writable inner safe (suc fuel) end pos =
      if-Gives AreRead (ltb pos end) _ _
        (then-Gives IsRead AreRead (inner pos) _ (safe pos) λ v w.
          then-Gives AreRead AreRead (read_items buf big inner fuel end v.1) _
            (read_items-Writable inner safe fuel end v.1) (λ vs ws. (w, ws)))
        tt

  read_entries-Writable :
      (key val : ℕ → Outcome (Value × ℕ))
      → ((pos : ℕ) → Gives IsRead (key pos))
      → ((pos : ℕ) → Gives IsRead (val pos))
      → (fuel end pos : ℕ) → Gives EntriesRead (read_entries buf big key val fuel end pos)
  unfolding read_entries Writable
  read_entries-Writable key val sk sv zero end pos = if-Gives EntriesRead (ltb pos end) _ _ tt tt
  read_entries-Writable key val sk sv (suc fuel) end pos =
      if-Gives EntriesRead (ltb pos end) _ _
        (after EntriesRead (align buf big 8 pos) _ λ pos.
          then-Gives IsRead EntriesRead (key pos) _ (sk pos) λ k wk.
            then-Gives IsRead EntriesRead (val k.1) _ (sv k.1) λ v wv.
              then-Gives EntriesRead EntriesRead (read_entries buf big key val fuel end v.1) _
                (read_entries-Writable key val sk sv fuel end v.1) (λ rest w. (wk, wv, w)))
        tt

  module _ (levels : ℕ) (inner : Text → ℕ → Outcome (Value × ℕ))
      (safe : (t : Text) (pos : ℕ) → Gives IsRead (inner t pos)) where
    read_dict-Writable :
        (kinds : Text) (len end pos : ℕ)
        → Gives IsRead (read_dict buf big levels inner kinds len end pos)
    unfolding read_dict Writable
    read_dict-Writable kinds len end pos = after IsRead (type_len levels kinds) _ λ k.
        then-Gives EntriesRead IsRead
          (read_entries buf big (inner (take k kinds)) (inner (drop k kinds)) len end pos) _
          (read_entries-Writable (inner (take k kinds)) (inner (drop k kinds)) (safe (take k kinds))
            (safe (drop k kinds)) len end pos)
          (λ entries w. after IsRead (ensure (entries.1 == end) element_overruns) _ (λ _. w))

    read_elements-Writable :
        (elem : Text) (len pos : ℕ) → Gives IsRead (read_elements buf big levels inner elem len pos)
    unfolding read_elements Writable
    read_elements-Writable [] len pos = tt
    read_elements-Writable (c ∷ elem) len pos =
        if-Gives IsRead (c == b'{') _ _ (read_dict-Writable (init elem) len (pos + len) pos) (
          then-Gives AreRead IsRead (read_items buf big (inner (c ∷ elem)) len (pos + len) pos) _
            (read_items-Writable (inner (c ∷ elem)) (safe (c ∷ elem)) len (pos + len) pos)
            (λ items w.
              after IsRead (ensure (items.1 == pos + len) element_overruns) _ (λ _. (tt, w))))

    read_array-Writable :
        (elem : Text) (pos : ℕ) → Gives IsRead (read_array buf big levels inner elem pos)
    unfolding read_array
    read_array-Writable elem pos = after IsRead (read_u32 buf big pos) _ λ len.
        after IsRead (alignment elem) _ λ n. after IsRead (align buf big n len.1) _ λ pos.
          after IsRead (ensure (not (ltb (length buf) (pos + len.0))) array_overruns) _
            (λ _. read_elements-Writable elem len.0 pos)

    read_variant-Writable : (pos : ℕ) → Gives IsRead (read_variant buf big inner pos)
    unfolding read_variant Writable
    read_variant-Writable pos = after IsRead (read_byte buf big pos) _ λ n.
        after IsRead (read_string buf big n.0 n.1) _ λ sig.
          after IsRead (split_signature sig.0) _ λ types.
            after IsRead (ensure (length types == 1) variant_not_one_type) _
              λ _. then-Gives IsRead IsRead (inner sig.0 sig.1) _ (safe sig.0 sig.1) (λ v w. w)

    read_struct-Writable :
        (fields : Text) (pos : ℕ) → Gives IsRead (read_struct buf big inner fields pos)
    unfolding read_struct Writable
    read_struct-Writable fields pos = after IsRead (split_signature fields) _ λ types.
        then-Gives AreRead IsRead (read_fields buf big inner types pos) _
          (read_fields-Writable inner safe types pos) (λ vs w. w)

    read_bool-Writable : (pos : ℕ) → Gives IsRead (read_bool buf big pos)
    unfolding read_bool Writable
    read_bool-Writable pos =
        after IsRead (read_u32 buf big pos) _
          λ v. if-Gives IsRead (v.0 == 0) _ _ tt (if-Gives IsRead (v.0 == 1) _ _ tt tt)

    read_letter-Writable :
        (c : ℕ) (sig : Text) (pos : ℕ) → Gives IsRead (read_letter buf big levels inner c sig pos)
    unfolding read_letter Writable
    read_letter-Writable c sig pos =
        if-Gives IsRead (c == b'y') _ _ (after IsRead (read_byte buf big pos) _ (λ _. tt)) (
          if-Gives IsRead (c == b'b') _ _ (read_bool-Writable pos) (
            if-Gives IsRead (c == b'n') _ _ (after IsRead (read_word buf big 2 pos) _ (λ _. tt)) (
              if-Gives IsRead (c == b'q') _ _ (after IsRead (read_word buf big 2 pos) _ (λ _. tt)) (
                if-Gives IsRead (c == b'i') _ _ (after IsRead (read_u32 buf big pos) _ (λ _. tt)) (
                  if-Gives IsRead (c == b'u') _ _ (after IsRead (read_u32 buf big pos) _ (λ _. tt))
                    (if-Gives IsRead (c == b'h') _ _
                      (after IsRead (read_u32 buf big pos) _ (λ _. tt))
                      (if-Gives IsRead (c == b'x') _ _
                        (after IsRead (read_word buf big 8 pos) _ (λ _. tt))
                        (if-Gives IsRead (c == b't') _ _
                          (after IsRead (read_word buf big 8 pos) _ (λ _. tt))
                          (if-Gives IsRead (c == b'd') _ _
                            (after IsRead (read_word buf big 8 pos) _ (λ _. tt))
                            (if-Gives IsRead (c == b's') _ _
                              (after IsRead (read_u32 buf big pos) _
                                (λ n. after IsRead (read_string buf big n.0 n.1) _ (λ _. tt)))
                              (if-Gives IsRead (c == b'o') _ _
                                (after IsRead (read_u32 buf big pos) _
                                  (λ n. after IsRead (read_string buf big n.0 n.1) _ (λ _. tt)))
                                (if-Gives IsRead (c == b'g') _ _
                                  (after IsRead (read_byte buf big pos) _
                                    (λ n. after IsRead (read_string buf big n.0 n.1) _ (λ _. tt)))
                                  (if-Gives IsRead (c == b'v') _ _ (read_variant-Writable pos) (
                                    if-Gives IsRead (c == b'(') _ _
                                      (read_struct-Writable (init sig) pos)
                                      (if-Gives IsRead (c == b'a') _ _ (read_array-Writable sig pos)
                                        (tt))))))))))))))))

  read_depth-Writable :
      (levels : ℕ) (sig : Text) (pos : ℕ) → Gives IsRead (read_depth buf big levels sig pos)
  unfolding read_depth
  read_depth-Writable zero sig pos = tt
  read_depth-Writable (suc levels) [] pos = tt
  read_depth-Writable (suc levels) (c ∷ sig) pos =
      after IsRead (align buf big (alignment_of c) pos) _ (λ pos.
        read_letter-Writable (suc levels) (read_depth buf big levels) (read_depth-Writable levels) c
          sig pos)

-- What a body is read as can be written.
pub decode_body-Writable :
    (sig : Text) (body : List ℕ) (big : Bool) → Gives AllWritable (decode_body sig body big)
unfolding decode_body read
decode_body-Writable sig body big = after AllWritable (split_signature sig) _ λ types.
    then-Gives AreRead AllWritable (read_fields body big (read body big) types 0) _
      (read_fields-Writable body big (read body big) (read_depth-Writable body big (max_depth + 1))
        types 0)
      (λ vs w. after AllWritable (ensure (vs.1 == length body) trailing_bytes) _ (λ _. w))
