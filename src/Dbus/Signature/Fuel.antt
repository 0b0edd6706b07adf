-- ===== src/Dbus/Signature/Fuel.antt =====
-- The turns of the loops over signatures in src/dbus/value.rs.
use psbox.Common.{
  ℕ, zero, suc, ◌+◌, ◌-◌, ◌≤◌, ◌≡◌, ◌≢◌, inl, inr, true, [], ◌∷◌, ◌==◌, ==_iff, length,
  length-append, get_elem?, drop, length-drop, Bool-cases, arith, ok, err, >>=-eq-err,
}
use psbox.Common.Text.{Text}
use psbox.Dbus.Signature.{
  Outcome, max_depth, is_basic, is_at, fields_len, type_len, complete_type_len, split_all,
  split_signature, out_of_fuel,
}
use psbox.Dbus.Signature.Grammar.{spell, length-first, StartsWithType}
use psbox.Dbus.Signature.Sound.{type_len-eq-ok}

-- A type has at least one letter.
starts-positive : (levels : ℕ) (sig : Text) (n : ℕ) → StartsWithType levels sig n → 1 ≤ n
starts-positive levels sig n (t, w, size, split) =
    omega (arith, size, length-first levels t [] w, length-append (spell t) [])

module _ (levels : ℕ) (one : Text → Outcome ℕ)
    (finds : (sig : Text) (n : ℕ) → one sig ≡ ok n → StartsWithType levels sig n)
    (ends : (sig : Text) → one sig ≢ err out_of_fuel) where
  fields_len-ends :
      (fuel : ℕ) (sig : Text) (i : ℕ)
      → length sig ≤ fuel
      → fields_len one fuel sig i ≢ err out_of_fuel
  unfolding fields_len
  fields_len-ends fuel [] i enough = λ h. cc
  fields_len-ends zero (c ∷ sig) i enough = absurd (omega arith)
  fields_len-ends (suc fuel) (c ∷ sig) i enough = λ h. elim (Bool-cases (c == b')')) [
    | inl same ↦ cc (rw same at h)
    | inr other ↦ elim (>>=-eq-err (one (c ∷ sig)) _ (rw other at h)) [
      | inl failed ↦ ends (c ∷ sig) failed
      | inr (n, read, more) ↦
          let some_letter = starts-positive levels (c ∷ sig) n (finds (c ∷ sig) n read) in
          fields_len-ends fuel (drop n (c ∷ sig)) (i + n)
            (omega (arith, some_letter, length-drop n (c ∷ sig))) more
    ]
  ]

module _ (levels : ℕ) (sig : Text)
    (ends : (sig : Text) → type_len levels sig ≢ err out_of_fuel) where
  array-ends : type_len (suc levels) (b'a' ∷ sig) ≢ err out_of_fuel
  unfolding type_len is_basic
  array-ends = λ h. elim (>>=-eq-err (type_len levels sig) _ h) [
    | inl failed ↦ ends sig failed
    | inr (n, read, more) ↦ cc
  ]

  struct-ends : type_len (suc levels) (b'(' ∷ sig) ≢ err out_of_fuel
  unfolding type_len is_basic
  struct-ends = λ h. elim (>>=-eq-err (fields_len (type_len levels) (length sig) sig 1) _ h) [
    | inl failed ↦
        fields_len-ends levels (type_len levels) (type_len-eq-ok levels) ends (length sig) sig 1
          (omega arith) failed
    | inr (i, read, more) ↦ ground (arith, more)
  ]

  entry-ends : type_len (suc levels) (b'{' ∷ sig) ≢ err out_of_fuel
  unfolding type_len is_basic
  entry-ends = λ h. elim (>>=-eq-err (type_len levels sig) _ h) [
    | inl failed ↦ ends sig failed
    | inr (k, read, more) ↦ elim (>>=-eq-err (type_len levels (drop k sig)) _ more) [
      | inl failed ↦ ends (drop k sig) failed
      | inr (v, read', last) ↦ elim (Bool-cases (is_at (get_elem? (b'{' ∷ sig) (1 + k + v)) b'}')) [
        | inl closed ↦ cc (rw closed at last)
        | inr other ↦ cc (rw other at last)
      ]
    ]
  ]

type_len-ends : (levels : ℕ) (sig : Text) → type_len levels sig ≢ err out_of_fuel
unfolding type_len
type_len-ends zero sig = λ h. cc
type_len-ends (suc levels) [] = λ h. cc
type_len-ends (suc levels) (c ∷ sig) = λ h. elim (Bool-cases (is_basic c)) [
  | inl letter ↦ cc (rw letter at h)
  | inr other ↦ elim (Bool-cases (c == b'a')) [
    | inl is_array ↦ at_letter b'a' is_array (array-ends levels sig (type_len-ends levels)) h
    | inr not_array ↦ elim (Bool-cases (c == b'(')) [
      | inl is_struct ↦ at_letter b'(' is_struct (struct-ends levels sig (type_len-ends levels)) h
      | inr not_struct ↦ elim (Bool-cases (c == b'{')) [
        | inl is_entry ↦ at_letter b'{' is_entry (entry-ends levels sig (type_len-ends levels)) h
        | inr none_of ↦ cc (rw (other, not_array, not_struct, none_of) at h)
      ]
    ]
  ]
]
  where
    at_letter :
        (d : ℕ)
        → (c == d) ≡ true
        → type_len (suc levels) (d ∷ sig) ≢ err out_of_fuel
        → type_len (suc levels) (c ∷ sig) ≢ err out_of_fuel
    at_letter d same ends = λ h. let e = (==_iff c d).0 same in ends (rw e at h)

split_all-ends : (fuel : ℕ) (sig : Text) → length sig ≤ fuel → split_all fuel sig ≢ err out_of_fuel
unfolding split_all complete_type_len
split_all-ends fuel [] enough = λ h. cc
split_all-ends zero (c ∷ sig) enough = absurd (omega arith)
split_all-ends (suc fuel) (c ∷ sig) enough = λ h.
    elim (>>=-eq-err (complete_type_len (c ∷ sig) 0) _ h) [
      | inl failed ↦ type_len-ends (max_depth + 1) (c ∷ sig) failed
      | inr (n, read, more) ↦ elim (>>=-eq-err (split_all fuel (drop n (c ∷ sig))) _ more) [
        | inl failed ↦
            let some_letter =
              starts-positive (max_depth + 1) (c ∷ sig) n
                (type_len-eq-ok (max_depth + 1) (c ∷ sig) n read) in
            split_all-ends fuel (drop n (c ∷ sig))
              (omega (arith, some_letter, length-drop n (c ∷ sig))) failed
        | inr (parts, reads, last) ↦ cc
      ]
    ]

-- The loops end for every text and depth: neither the measuring of a type nor the splitting of a
-- signature takes more turns than the text has letters.
pub split_signature-ends :
    (sig : Text) (depth : ℕ)
    → (complete_type_len sig depth ≢ err out_of_fuel) × (split_signature sig ≢ err out_of_fuel)
unfolding complete_type_len split_signature
split_signature-ends sig depth =
    (type_len-ends (max_depth + 1 - depth) sig, split_all-ends (length sig) sig (omega arith))
