-- ===== src/Dbus/Signature/Splitting.antt =====
-- `complete_type_len` and `split_signature` of src/dbus/value.rs against the trees of types.
use psbox.Common.{
  ℕ, zero, suc, ◌+◌, ◌-◌, ◌≤◌, ◌≡◌, ◌↔◌, refl, sym, ap, ap₂, ◌∙◌, List, [], ◌∷◌, ◌++◌, length, take,
  drop, take-append_length, drop-append_length, arith, ok, ◌>>=◌, >>=-eq-ok, ok-injective,
}
use psbox.Common.Text.{Text}
use psbox.Dbus.Signature.{max_depth, type_len, complete_type_len, split_all, split_signature}
use psbox.Dbus.Signature.Grammar.{
  SigType, Fields, spell, spell_all, Within, WithinAll, spell-first, length-first, StartsWithType,
}
use psbox.Dbus.Signature.Complete.{type_len-spell}
use psbox.Dbus.Signature.Sound.{type_len-eq-ok}

-- At any depth, a prefix of n letters is measured exactly when a type spells it that is no deeper
-- than the levels left below the limit of 64.
complete_type_len_lem :
    (sig : Text) (depth n : ℕ)
    → (complete_type_len sig depth ≡ ok n) ↔ StartsWithType (max_depth + 1 - depth) sig n
unfolding complete_type_len
complete_type_len_lem sig depth n = (
  type_len-eq-ok (max_depth + 1 - depth) sig n,
  λ (t, w, size, split).
      ap (type_len (max_depth + 1 - depth)) split
      ∙ type_len-spell (max_depth + 1 - depth) t (drop n sig) w
      ∙ ap ok (sym size),
)

abbrev pub spell_each : Fields → List Text
spell_each Fields.end = []
spell_each (Fields.field t ts) = spell t ∷ spell_each ts

-- The types that `parts` are, where `sig` is those one after another.
abbrev pub IsSplit : Text → List Text → Type 0
IsSplit sig parts =
    (ts : Fields) × WithinAll (max_depth + 1) ts × (sig ≡ spell_all ts) × (parts ≡ spell_each ts)

split_all-eq-ok :
    (fuel : ℕ) (sig : Text) (parts : List Text) → split_all fuel sig ≡ ok parts → IsSplit sig parts
unfolding split_all spell_all WithinAll complete_type_len
split_all-eq-ok fuel [] parts h = (Fields.end, tt, refl, sym (ok-injective h))
split_all-eq-ok zero (c ∷ sig) parts h = cc
split_all-eq-ok (suc fuel) (c ∷ sig) parts h =
    let (n, read, more) = >>=-eq-ok (complete_type_len (c ∷ sig) 0) _ h in
    let (rest, reads, last) = >>=-eq-ok (split_all fuel (drop n (c ∷ sig))) _ more in
    let (t, w, size, split) = (complete_type_len_lem (c ∷ sig) 0 n).0 read in
    let (ts, ws, whole, each) = split_all-eq-ok fuel (drop n (c ∷ sig)) rest reads in
    let first : take n (c ∷ sig) ≡ spell t =
      ap (take n) split
      ∙ ap (λ k. take k (spell t ++ drop n (c ∷ sig))) size
      ∙ take-append_length (spell t) (drop n (c ∷ sig)) in
    (
      Fields.field t ts,
      (w, ws),
      split ∙ ap (◌++◌ (spell t)) whole,
      sym (ok-injective last) ∙ ap₂ (◌∷◌) first each,
    )

split_all-type :
    (fuel : ℕ) (t : SigType) (rest : Text)
    → Within (max_depth + 1) t
    → split_all (suc fuel) (spell t ++ rest) ≡ (do more ← split_all fuel rest; ok (spell t ∷ more))
unfolding split_all complete_type_len
split_all-type fuel t rest w =
    let (c, s, first, _) = spell-first (max_depth + 1) t w in
    let read = rw first at (type_len-spell (max_depth + 1) t rest w) in
    rw (first, read)
      (ap₂ (λ xs front. do more ← split_all fuel xs; ok ((c ∷ front) ∷ more))
        (drop-append_length s rest) (take-append_length s rest))

split_all-spell :
    (fuel : ℕ) (ts : Fields)
    → WithinAll (max_depth + 1) ts
    → length (spell_all ts) ≤ fuel
    → split_all fuel (spell_all ts) ≡ ok (spell_each ts)
unfolding spell_all WithinAll
split_all-spell fuel Fields.end ws enough = unfold split_all in refl
split_all-spell zero (Fields.field t ts) (w, ws) enough =
    absurd (omega (arith, length-first (max_depth + 1) t (spell_all ts) w))
split_all-spell (suc fuel) (Fields.field t ts) (w, ws) enough =
    let shorter = length-first (max_depth + 1) t (spell_all ts) w in
    rw (split_all-type fuel t (spell_all ts) w, split_all-spell fuel ts ws (omega (arith, shorter)))

-- A signature is split exactly into the types whose spelling it is, none of them deeper than 64.
pub split_signature_lem :
    (sig : Text) (parts : List Text) → (split_signature sig ≡ ok parts) ↔ IsSplit sig parts
unfolding split_signature
split_signature_lem sig parts = (
  split_all-eq-ok (length sig) sig parts,
  λ (ts, ws, whole, each).
      rw (whole, each) (split_all-spell (length (spell_all ts)) ts ws (omega arith)),
)
