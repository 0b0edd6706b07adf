-- ===== src/Dbus/Writable.antt =====
-- src/dbus/value.rs: the arrays without an element type, at which `Writer` would panic. This file is
-- about the writer and the changes to values, Decoded about the reader.
pub mod Decoded
use psbox.Common.{
  ℕ, ◌≡◌, ◌≢◌, refl, Bool, true, false, Bool-cases, inl, inr, Option, none, some, List, [], ◌∷◌,
  ◌++◌, if◌then◌else◌, Result, ok, err, ◌>>=◌,
}
use psbox.Common.Text.{Text}
use psbox.Dbus.Signature.{Outcome, alignment_of, alignment}
use psbox.Dbus.Value.{
  Value, Values, Entries, signature, signatures, is_key, set_entry, dict_set, retain, dict_remove,
  map_paths, map_paths_all, map_paths_entries,
}
use psbox.Dbus.Writer.{align_value, write_aligned, write_all, write_entries, encode_body}

abbrev IsNonempty : Text → Type 0
IsNonempty [] = ⊥
IsNonempty (_ ∷ _) = Unit

-- Each array names the type of its elements.
unfoldable mutual
  pub Writable : Value → Type 0
  Writable (Value.array elem items) = IsNonempty elem × AllWritable items
  Writable (Value.dict k v entries) = WritableEntries entries
  Writable (Value.struct fields) = AllWritable fields
  Writable (Value.variant inner) = Writable inner
  Writable _ = Unit

  pub AllWritable : Values → Type 0
  AllWritable Values.nothing = Unit
  AllWritable (Values.item v vs) = Writable v × AllWritable vs

  pub WritableEntries : Entries → Type 0
  WritableEntries Entries.no_pair = Unit
  WritableEntries (Entries.pair k v rest) = Writable k × Writable v × WritableEntries rest

-- A result that is there.
abbrev pub Succeeds {ℓ} : {A : Type ℓ} → Outcome A → Type ℓ
Succeeds {A = A} result = (value : A) × (result ≡ ok value)

alignment-Succeeds : (sig : Text) → IsNonempty sig → Succeeds (alignment sig)
alignment-Succeeds [] h = elim h [ ]
alignment-Succeeds (c ∷ sig) h = (_, refl)

signature-IsNonempty : (v : Value) → IsNonempty (signature v)
unfolding signature
signature-IsNonempty (Value.array _ _) = tt
signature-IsNonempty _ = tt

pub then-Succeeds :
    {A B : Type 0} (result : Outcome A) (next : A → Outcome B)
    → Succeeds result
    → ((a : A) → Succeeds (next a))
    → Succeeds (result >>= next)
then-Succeeds result next (a, e) h = rw e (h a)

align_value-Succeeds : (v : Value) (out : List ℕ) → Succeeds (align_value v out)
unfolding align_value
align_value-Succeeds v out =
    then-Succeeds (alignment (signature v)) _
      (alignment-Succeeds (signature v) (signature-IsNonempty v)) (λ n. (_, refl))

mutual
  unfolding write_aligned Writable

  write_aligned-Succeeds : (v : Value) (out : List ℕ) → Writable v → Succeeds (write_aligned v out)
  write_aligned-Succeeds (Value.array elem items) out w =
      then-Succeeds (alignment elem) _ (alignment-Succeeds elem w.0) (λ n.
        then-Succeeds (write_all items _) _ (write_all-Succeeds items _ w.1) (λ done. (_, refl)))
  write_aligned-Succeeds (Value.dict k v entries) out w =
      then-Succeeds (write_entries entries _) _ (write_entries-Succeeds entries _ w)
        (λ done. (_, refl))
  write_aligned-Succeeds (Value.struct fields) out w = write_all-Succeeds fields out w
  write_aligned-Succeeds (Value.variant inner) out w =
      then-Succeeds (align_value inner _) _ (align_value-Succeeds inner _)
        (λ out. write_aligned-Succeeds inner out w)
  write_aligned-Succeeds v out w = (_, refl)

  write_all-Succeeds : (vs : Values) (out : List ℕ) → AllWritable vs → Succeeds (write_all vs out)
  write_all-Succeeds Values.nothing out w = (_, refl)
  write_all-Succeeds (Values.item v vs) out w =
      then-Succeeds (align_value v out) _ (align_value-Succeeds v out) (λ out.
        then-Succeeds (write_aligned v out) _ (write_aligned-Succeeds v out w.0)
          (λ out. write_all-Succeeds vs out w.1))

  write_entries-Succeeds :
      (es : Entries) (out : List ℕ) → WritableEntries es → Succeeds (write_entries es out)
  write_entries-Succeeds Entries.no_pair out w = (_, refl)
  write_entries-Succeeds (Entries.pair k v rest) out w =
      then-Succeeds (align_value k _) _ (align_value-Succeeds k _) (λ out.
        then-Succeeds (write_aligned k out) _ (write_aligned-Succeeds k out w.0) (λ out.
          then-Succeeds (align_value v out) _ (align_value-Succeeds v out) (λ out.
            then-Succeeds (write_aligned v out) _ (write_aligned-Succeeds v out w.1)
              (λ out. write_entries-Succeeds rest out w.2))))

pub encode_body-Succeeds : (vs : Values) → AllWritable vs → Succeeds (encode_body vs)
unfolding encode_body
encode_body-Succeeds vs w =
    then-Succeeds (write_all vs []) _ (write_all-Succeeds vs [] w) (λ out. (_, refl))

set_entry-Writable :
    (es : Entries) (key : Text) (v : Value)
    → Writable v
    → WritableEntries es
    → WritableEntries (set_entry es key v)
unfolding Writable set_entry
set_entry-Writable Entries.no_pair key v wv w = (tt, wv, tt)
set_entry-Writable (Entries.pair k old rest) key v wv w = elim (Bool-cases (is_key k key)) [
  | inl same ↦ rw same (w.0, wv, w.2)
  | inr other ↦ rw other (w.0, w.1, set_entry-Writable rest key v wv w.2)
]

pub dict_set-Writable :
    (opts : Value) (key : Text) (v : Value)
    → Writable v
    → Writable opts
    → Writable (dict_set opts key v)
unfolding Writable dict_set
dict_set-Writable (Value.dict _ _ entries) key v wv w =
    set_entry-Writable entries key (Value.variant v) wv w
dict_set-Writable _ key v wv w = w

retain-Writable : (es : Entries) (key : Text) → WritableEntries es → WritableEntries (retain es key)
unfolding Writable retain
retain-Writable Entries.no_pair key w = tt
retain-Writable (Entries.pair k v rest) key w = elim (Bool-cases (is_key k key)) [
  | inl same ↦ rw same (retain-Writable rest key w.2)
  | inr other ↦ rw other (w.0, w.1, retain-Writable rest key w.2)
]

pub dict_remove-Writable :
    (opts : Value) (key : Text) → Writable opts → Writable (dict_remove opts key)
unfolding Writable dict_remove
dict_remove-Writable (Value.dict _ _ entries) key w = retain-Writable entries key w
dict_remove-Writable _ key w = w

mutual
  unfolding Writable map_paths

  map_paths-Writable : (f : Text → Option Text) (v : Value) → Writable v → Writable (map_paths f v)
  map_paths-Writable f (Value.array elem items) w = (w.0, map_paths_all-Writable f items w.1)
  map_paths-Writable f (Value.struct fields) w = map_paths_all-Writable f fields w
  map_paths-Writable f (Value.dict k v entries) w = map_paths_entries-Writable f entries w
  map_paths-Writable f (Value.variant inner) w = map_paths-Writable f inner w
  map_paths-Writable f _ w = w

  pub map_paths_all-Writable :
      (f : Text → Option Text) (vs : Values) → AllWritable vs → AllWritable (map_paths_all f vs)
  map_paths_all-Writable f Values.nothing w = tt
  map_paths_all-Writable f (Values.item v vs) w =
      (map_paths-Writable f v w.0, map_paths_all-Writable f vs w.1)

  map_paths_entries-Writable :
      (f : Text → Option Text) (es : Entries)
      → WritableEntries es
      → WritableEntries (map_paths_entries f es)
  map_paths_entries-Writable f Entries.no_pair w = tt
  map_paths_entries-Writable f (Entries.pair k v rest) w = (
    map_paths-Writable f k w.0,
    map_paths-Writable f v w.1,
    map_paths_entries-Writable f rest w.2,
  )
