-- ===== src/Dbus/Value/Paths.antt =====
-- `Value::map_paths` of src/dbus/value.rs.
use psbox.Common.{◌≡◌, refl, ap, ap₂, ◌∙◌, Option, some, ◌∷◌, ◌++◌, []}
use psbox.Common.Text.{Text}
use psbox.Dbus.Value.{
  Value, Values, Entries, signature, signatures, or_else, map_paths, map_paths_all,
  map_paths_entries,
}

mutual
  unfolding signature map_paths

  keeps_signature : (f : Text → Option Text) (v : Value) → signature (map_paths f v) ≡ signature v
  keeps_signature f (Value.byte _) = refl
  keeps_signature f (Value.bool _) = refl
  keeps_signature f (Value.i16 _) = refl
  keeps_signature f (Value.u16 _) = refl
  keeps_signature f (Value.i32 _) = refl
  keeps_signature f (Value.u32 _) = refl
  keeps_signature f (Value.i64 _) = refl
  keeps_signature f (Value.u64 _) = refl
  keeps_signature f (Value.double _) = refl
  keeps_signature f (Value.str _) = refl
  keeps_signature f (Value.path _) = refl
  keeps_signature f (Value.sig _) = refl
  keeps_signature f (Value.fd _) = refl
  keeps_signature f (Value.array _ _) = refl
  keeps_signature f (Value.dict _ _ _) = refl
  keeps_signature f (Value.variant _) = refl
  keeps_signature f (Value.struct fields) =
      ap (λ s. b'(' ∷ (s ++ b')' ∷ [])) (keeps_signatures f fields)

  keeps_signatures :
      (f : Text → Option Text) (vs : Values) → signatures (map_paths_all f vs) ≡ signatures vs
  keeps_signatures f Values.nothing = refl
  keeps_signatures f (Values.item v vs) = ap₂ (◌++◌) (keeps_signature f v) (keeps_signatures f vs)

abbrev pub then_by : (Text → Option Text) → (Text → Option Text) → Text → Option Text
then_by f g p = some (or_else (g (or_else (f p) p)) (or_else (f p) p))

mutual
  unfolding map_paths

  twice :
      (f g : Text → Option Text) (v : Value)
      → map_paths g (map_paths f v) ≡ map_paths (then_by f g) v
  twice f g (Value.path p) = refl
  twice f g (Value.array elem items) = ap (Value.array elem) (twice_all f g items)
  twice f g (Value.struct fields) = ap Value.struct (twice_all f g fields)
  twice f g (Value.dict k v entries) = ap (Value.dict k v) (twice_entries f g entries)
  twice f g (Value.variant inner) = ap Value.variant (twice f g inner)
  twice f g other = refl

  twice_all :
      (f g : Text → Option Text) (vs : Values)
      → map_paths_all g (map_paths_all f vs) ≡ map_paths_all (then_by f g) vs
  twice_all f g Values.nothing = refl
  twice_all f g (Values.item v vs) = ap₂ Values.item (twice f g v) (twice_all f g vs)

  twice_entries :
      (f g : Text → Option Text) (es : Entries)
      → map_paths_entries g (map_paths_entries f es) ≡ map_paths_entries (then_by f g) es
  twice_entries f g Entries.no_pair = refl
  twice_entries f g (Entries.pair k v rest) =
      ap₂ (λ a r. Entries.pair a (map_paths g (map_paths f v)) r) (twice f g k)
        (twice_entries f g rest)
      ∙ ap (λ b. Entries.pair (map_paths (then_by f g) k) b (map_paths_entries (then_by f g) rest))
          (twice f g v)

-- Replacing the object paths in a value keeps its signature, and replacing them by two functions one
-- after the other is replacing each path once, by the second of the first.
signature-map_paths :
    (f g : Text → Option Text) (v : Value)
    → (signature (map_paths f v) ≡ signature v)
      × (map_paths g (map_paths f v) ≡ map_paths (then_by f g) v)
signature-map_paths f g v = (keeps_signature f v, twice f g v)
