-- ===== src/Dbus/Signature/Sound.antt =====
-- The trees of what `complete_type_len` of src/dbus/value.rs measures.
use psbox.Common.{
  ℕ, zero, suc, ◌+◌, ◌≡◌, ◌≢◌, refl, sym, ap, ◌∙◌, inl, inr, true, Option, none, some, [], ◌∷◌,
  ◌++◌, append_assoc, ◌==◌, ==_iff, length, length-append, get_elem?, drop, drop-append_length,
  drop-drop, Bool-cases, arith, ok, >>=-eq-ok, ok-injective,
}
use psbox.Common.Text.{Text}
use psbox.Dbus.Signature.{Outcome, is_basic, is_at, fields_len, type_len}
use psbox.Dbus.Signature.Grammar.{
  SigType, Fields, spell, spell_all, IsField, Within, WithinAll, StartsWithType,
}

module _ (levels : ℕ) (one : Text → Outcome ℕ)
    (finds : (sig : Text) (n : ℕ) → one sig ≡ ok n → StartsWithType levels sig n) where
  fields_len-eq-ok :
      (fuel : ℕ) (sig : Text) (i j : ℕ)
      → fields_len one fuel sig i ≡ ok j
      → (ts : Fields) × (rest : Text) × WithinAll levels ts
        × (j ≡ i + length (spell_all ts))
        × (sig ≡ spell_all ts ++ b')' ∷ rest)
  unfolding fields_len spell_all WithinAll
  fields_len-eq-ok fuel [] i j h = cc
  fields_len-eq-ok zero (c ∷ sig) i j h = elim (Bool-cases (c == b')')) [
    | inl same ↦ (
      Fields.end,
      sig,
      tt,
      omega (arith, ok-injective (rw same at h)),
      ap (λ d. d ∷ sig) ((==_iff c b')').0 same),
    )
    | inr other ↦ cc (rw other at h)
  ]
  fields_len-eq-ok (suc fuel) (c ∷ sig) i j h = elim (Bool-cases (c == b')')) [
    | inl same ↦ (
      Fields.end,
      sig,
      tt,
      omega (arith, ok-injective (rw same at h)),
      ap (λ d. d ∷ sig) ((==_iff c b')').0 same),
    )
    | inr other ↦
        let (n, read, more) = >>=-eq-ok (one (c ∷ sig)) _ (rw other at h) in
        let (t, w, size, split) = finds (c ∷ sig) n read in
        let (ts, rest, ws, stop, split') =
          fields_len-eq-ok fuel (drop n (c ∷ sig)) (i + n) j more in
        (
          Fields.field t ts,
          rest,
          (w, ws),
          omega (arith, stop, size, length-append (spell t) (spell_all ts)),
          split
              ∙ ap (◌++◌ (spell t)) split'
              ∙ sym (append_assoc (spell t) (spell_all ts) (b')' ∷ rest)),
        )
  ]

is_at-true : (o : Option ℕ) (c : ℕ) → is_at o c ≡ true → o ≡ some c
is_at-true none c h = cc
is_at-true (some d) c h = ap some ((==_iff d c).0 h)

get_elem?-drop :
    (n : ℕ) (xs : Text) {c : ℕ} → get_elem? xs n ≡ some c → drop n xs ≡ c ∷ drop (suc n) xs
get_elem?-drop n [] h = cc
get_elem?-drop zero (x ∷ xs) h = ground (arith, h)
get_elem?-drop (suc n) (x ∷ xs) h = get_elem?-drop n xs h

starts-spell :
    (levels : ℕ) (t : SigType) (rest sig : Text) (n : ℕ)
    → Within levels t
    → n ≡ length (spell t)
    → sig ≡ spell t ++ rest
    → StartsWithType levels sig n
starts-spell levels t rest sig n w size split =
    (t, w, size, rw (size, split) (sym (ap (◌++◌ (spell t)) (drop-append_length (spell t) rest))))

IsField-of_size : (ts : Fields) → 1 ≢ 1 + length (spell_all ts) → IsField ts
unfolding spell_all
IsField-of_size Fields.end h = h refl
IsField-of_size (Fields.field t ts) h = tt

entry-split :
    (a b sig after_a after_b rest : Text)
    → sig ≡ a ++ after_a
    → after_a ≡ b ++ after_b
    → after_b ≡ b'}' ∷ rest
    → sig ≡ (a ++ (b ++ b'}' ∷ [])) ++ rest
entry-split a b sig after_a after_b rest p q r =
    p
    ∙ ap (◌++◌ a) (q ∙ ap (◌++◌ b) r ∙ sym (append_assoc b (b'}' ∷ []) rest))
    ∙ sym (append_assoc a (b ++ b'}' ∷ []) rest)

module _ (levels : ℕ)
    (finds : (sig : Text) (n : ℕ) → type_len levels sig ≡ ok n → StartsWithType levels sig n) where
  array-eq-ok :
      (sig : Text) (n : ℕ)
      → type_len (suc levels) (b'a' ∷ sig) ≡ ok n
      → StartsWithType (suc levels) (b'a' ∷ sig) n
  unfolding type_len spell Within is_basic
  array-eq-ok sig n h =
      let (m, read, more) = >>=-eq-ok (type_len levels sig) _ h in
      let (t, w, size, split) = finds sig m read in
      let whole : 1 + m ≡ n = ok-injective more in
      starts-spell (suc levels) (SigType.array t) (drop m sig) (b'a' ∷ sig) n w
        (omega (arith, size, whole)) (ap (◌∷◌ b'a') split)

  struct-eq-ok :
      (sig : Text) (n : ℕ)
      → type_len (suc levels) (b'(' ∷ sig) ≡ ok n
      → StartsWithType (suc levels) (b'(' ∷ sig) n
  unfolding type_len spell Within is_basic
  struct-eq-ok sig n h =
      let (i, read, more) = >>=-eq-ok (fields_len (type_len levels) (length sig) sig 1) _ h in
      let (ts, rest, ws, stop, split) =
        fields_len-eq-ok levels (type_len levels) finds (length sig) sig 1 i read in
      elim (Bool-cases (i == 1)) [
        | inl empty ↦ cc (rw empty at more)
        | inr some_field ↦
            let last : i + 1 ≡ n = ok-injective (rw some_field at more) in
            let first : 1 ≢ 1 + length (spell_all ts) =
              λ e. cc ((==_iff i 1).1 (omega (arith, e, stop))) in
            starts-spell (suc levels) (SigType.struct ts) rest (b'(' ∷ sig) n
              (IsField-of_size ts first, ws)
              (omega (arith, last, stop, length-append (spell_all ts) (b')' ∷ [])))
              (ap (◌∷◌ b'(') (split ∙ sym (append_assoc (spell_all ts) (b')' ∷ []) rest)))
      ]

  entry-eq-ok :
      (sig : Text) (n : ℕ)
      → type_len (suc levels) (b'{' ∷ sig) ≡ ok n
      → StartsWithType (suc levels) (b'{' ∷ sig) n
  unfolding type_len spell Within is_basic
  entry-eq-ok sig n h =
      let (k, read_k, more) = >>=-eq-ok (type_len levels sig) _ h in
      let (v, read_v, last) = >>=-eq-ok (type_len levels (drop k sig)) _ more in
      let (tk, wk, size_k, split_k) = finds sig k read_k in
      let (tv, wv, size_v, split_v) = finds (drop k sig) v read_v in
      elim (Bool-cases (is_at (get_elem? (b'{' ∷ sig) (1 + k + v)) b'}')) [
        | inr other ↦ cc (rw other at last)
        | inl closed ↦
            let size : k + v + 2 ≡ n = ok-injective (rw closed at last) in
            let at : 1 + k + v ≡ suc (k + v) = omega arith in
            let brace : get_elem? sig (k + v) ≡ some b'}' =
              rw at at (is_at-true (get_elem? (b'{' ∷ sig) (1 + k + v)) b'}' closed) in
            let behind = drop-drop v k sig ∙ get_elem?-drop (k + v) sig brace in
            starts-spell (suc levels) (SigType.dict_entry tk tv) (drop (suc (k + v)) sig)
              (b'{' ∷ sig) n (wk, wv)
              (omega (
                arith,
                size,
                size_k,
                size_v,
                length-append (spell tk) (spell tv ++ b'}' ∷ []),
                length-append (spell tv) (b'}' ∷ []),
              ))
              (ap (◌∷◌ b'{') (
                entry-split (spell tk) (spell tv) sig (drop k sig) (drop v (drop k sig))
                  (drop (suc (k + v)) sig) split_k split_v behind))
      ]

-- What is measured is a type that a tree spells.
pub type_len-eq-ok :
    (levels : ℕ) (sig : Text) (n : ℕ) → type_len levels sig ≡ ok n → StartsWithType levels sig n
unfolding type_len spell Within
type_len-eq-ok zero sig n h = cc
type_len-eq-ok (suc levels) [] n h = cc
type_len-eq-ok (suc levels) (c ∷ sig) n h = elim (Bool-cases (is_basic c)) [
  | inl letter ↦
      let size : 1 ≡ n = ok-injective (rw letter at h) in
      (SigType.basic c, letter, sym size, ap (λ k. c ∷ drop k (c ∷ sig)) size)
  | inr other ↦ elim (Bool-cases (c == b'a')) [
    | inl is_array ↦ at_letter b'a' is_array (array-eq-ok levels (type_len-eq-ok levels) sig n)
    | inr not_array ↦ elim (Bool-cases (c == b'(')) [
      | inl is_struct ↦ at_letter b'(' is_struct (struct-eq-ok levels (type_len-eq-ok levels) sig n)
      | inr not_struct ↦ elim (Bool-cases (c == b'{')) [
        | inl is_entry ↦ at_letter b'{' is_entry (entry-eq-ok levels (type_len-eq-ok levels) sig n)
        | inr none_of ↦ cc (rw (other, not_array, not_struct, none_of) at h)
      ]
    ]
  ]
]
  where
    at_letter :
        (d : ℕ)
        → (c == d) ≡ true
        → (type_len (suc levels) (d ∷ sig) ≡ ok n → StartsWithType (suc levels) (d ∷ sig) n)
        → StartsWithType (suc levels) (c ∷ sig) n
    at_letter d same found = let e = (==_iff c d).0 same in rw e (found (rw e at h))
