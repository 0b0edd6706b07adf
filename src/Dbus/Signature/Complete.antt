-- ===== src/Dbus/Signature/Complete.antt =====
-- `complete_type_len` of src/dbus/value.rs on what a tree spells.
use psbox.Common.{
  ℕ, zero, suc, ◌+◌, ◌≤◌, ◌≡◌, refl, ap, false, some, [], ◌∷◌, ◌++◌, append_assoc, ◌==◌, length,
  length-append, get_elem?, drop-append_length, arith, ok,
}
use psbox.Common.Text.{Text}
use psbox.Dbus.Signature.{Outcome, is_basic, fields_len, type_len}
use psbox.Dbus.Signature.Grammar.{
  SigType, Fields, spell, spell_all, Within, WithinAll, spell-first, length-first,
}

module _ (levels : ℕ) (one : Text → Outcome ℕ)
    (reads : (t : SigType) (rest : Text)
      → Within levels t
      → one (spell t ++ rest) ≡ ok (length (spell t))) where
  fields_len-field :
      (t : SigType) (fuel i : ℕ) (rest : Text)
      → Within levels t
      → length (spell t) ≤ suc fuel
      → fields_len one (suc fuel) (spell t ++ rest) i
        ≡ fields_len one fuel rest (i + length (spell t))
  unfolding fields_len
  fields_len-field t fuel i rest w enough =
      let (c, s, first, other) = spell-first levels t w in
      let read = rw first at (reads t rest w) in
      rw (first, other, read)
        (ap (λ xs. fields_len one fuel xs (i + suc (length s))) (drop-append_length s rest))

  fields_len-spell :
      (ts : Fields) (fuel i : ℕ) (rest : Text)
      → WithinAll levels ts
      → length (spell_all ts) ≤ fuel
      → fields_len one fuel (spell_all ts ++ b')' ∷ rest) i ≡ ok (i + length (spell_all ts))
  unfolding spell_all WithinAll fields_len
  fields_len-spell Fields.end zero i rest w enough = ap ok (omega arith)
  fields_len-spell Fields.end (suc fuel) i rest w enough = ap ok (omega arith)
  fields_len-spell (Fields.field t ts) zero i rest (w, ws) enough =
      absurd (omega (arith, length-first levels t (spell_all ts) w))
  fields_len-spell (Fields.field t ts) (suc fuel) i rest (w, ws) enough =
      let sizes = length-append (spell t) (spell_all ts) in
      rw
        (
          append_assoc (spell t) (spell_all ts) (b')' ∷ rest),
          fields_len-field t fuel i (spell_all ts ++ b')' ∷ rest) w (omega (arith, sizes)),
          fields_len-spell ts fuel (i + length (spell t)) rest ws
              (omega (arith, length-first levels t (spell_all ts) w)),
        )
        (ap ok (omega (arith, sizes)))

get_elem?-length :
    (xs : Text) (c : ℕ) (rest : Text) → get_elem? (xs ++ c ∷ rest) (length xs) ≡ some c
get_elem?-length [] c rest = refl
get_elem?-length (x ∷ xs) c rest = get_elem?-length xs c rest

-- The letter behind two parts of a text that starts with one more letter.
get_elem?-behind :
    (d : ℕ) (a b : Text) (c : ℕ) (rest : Text)
    → get_elem? (d ∷ (a ++ (b ++ c ∷ rest))) (1 + length a + length b) ≡ some c
get_elem?-behind d a b c rest =
    let at : 1 + length a + length b ≡ suc (length (a ++ b)) = omega (arith, length-append a b) in
    rw (at, ← append_assoc a b (c ∷ rest)) (get_elem?-length (a ++ b) c rest)

-- What a tree spells is measured as that, whatever stands behind it.
pub type_len-spell :
    (levels : ℕ) (t : SigType) (rest : Text)
    → Within levels t
    → type_len levels (spell t ++ rest) ≡ ok (length (spell t))
unfolding type_len spell Within is_basic
type_len-spell zero t rest w = absurd w
type_len-spell (suc levels) (SigType.basic c) rest w = rw w
type_len-spell (suc levels) (SigType.array t) rest w =
    rw (type_len-spell levels t rest w) (ap ok (omega arith))
type_len-spell (suc levels) (SigType.struct Fields.end) rest (one, ws) = absurd one
type_len-spell (suc levels) (SigType.struct (Fields.field t ts)) rest (one, ws) =
    let fields = Fields.field t ts in
    let sizes = length-append (spell_all fields) (b')' ∷ rest) in
    let w : WithinAll levels fields = ws in
    rw
      (
        append_assoc (spell_all fields) (b')' ∷ []) rest,
        fields_len-spell levels (type_len levels) (type_len-spell levels) fields
            (length (spell_all fields ++ b')' ∷ rest)) 1 rest w (omega (arith, sizes)),
        not_one (1 + length (spell_all fields))
            (omega (arith, length-first levels t (spell_all ts) ws.0)),
      )
      (ap ok (omega (arith, length-append (spell_all fields) (b')' ∷ []))))
  where
    not_one : (n : ℕ) → 2 ≤ n → (n == 1) ≡ false
    not_one n h = ground arith
type_len-spell (suc levels) (SigType.dict_entry k v) rest (wk, wv) =
    let sizes = length-append (spell k) (spell v ++ b'}' ∷ []) in
    let size = length-append (spell v) (b'}' ∷ []) in
    rw
      (
        append_assoc (spell k) (spell v ++ b'}' ∷ []) rest,
        append_assoc (spell v) (b'}' ∷ []) rest,
        type_len-spell levels k (spell v ++ b'}' ∷ rest) wk,
        drop-append_length (spell k) (spell v ++ b'}' ∷ rest),
        type_len-spell levels v (b'}' ∷ rest) wv,
        get_elem?-behind b'{' (spell k) (spell v) b'}' rest,
      )
      (ap ok (omega (arith, sizes, size)))
