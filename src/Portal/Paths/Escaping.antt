-- ===== src/Portal/Paths/Escaping.antt =====
-- `escape_unique` of src/portal.rs on the names of callers.
use psbox.Common.{
  ℕ, ◌≡◌, refl, ap, ap₂, ◌↔◌, Bool, true, false, ◌||◌, [], ◌∷◌, map, ◌==◌, &&-eq-true, arith,
}
use psbox.Common.Text.{Text, all, contains, is_ascii_digit}
use psbox.Portal.Paths.{trim_colons, dot_to_underscore, escape_unique}

-- What a bus puts behind the colon of a unique name.
abbrev pub digit_or_dot : ℕ → Bool
digit_or_dot c = is_ascii_digit c || c == b'.'

abbrev pub IsNumbered : Text → Type 0
IsNumbered name = all digit_or_dot name ≡ true

trim_colons-IsNumbered : (name : Text) → IsNumbered name → trim_colons name ≡ name
unfolding trim_colons all is_ascii_digit
trim_colons-IsNumbered [] h = refl
trim_colons-IsNumbered (c ∷ name) h = ground arith

dots_differ :
    (c d : ℕ)
    → digit_or_dot c ≡ true
    → digit_or_dot d ≡ true
    → dot_to_underscore c ≡ dot_to_underscore d
    → c ≡ d
unfolding is_ascii_digit
dots_differ c d hc hd e = ground arith

no_slashes : (c : ℕ) → digit_or_dot c ≡ true → (dot_to_underscore c == b'/') ≡ false
unfolding is_ascii_digit
no_slashes c h = ground arith

cons-injective : {c d : ℕ} {a b : Text} → c ∷ a ≡ d ∷ b → (c ≡ d) × (a ≡ b)
cons-injective e = (cc e, cc e)

contains-map : (a : Text) → IsNumbered a → contains b'/' (map dot_to_underscore a) ≡ false
unfolding contains all
contains-map [] h = refl
contains-map (c ∷ a) h = let (hc, ha) = &&-eq-true _ _ h in rw (no_slashes c hc) (contains-map a ha)

map-injective :
    (a b : Text)
    → IsNumbered a
    → IsNumbered b
    → map dot_to_underscore a ≡ map dot_to_underscore b
    → a ≡ b
unfolding all
map-injective [] [] ha hb e = refl
map-injective [] (d ∷ b) ha hb e = cc e
map-injective (c ∷ a) [] ha hb e = cc e
map-injective (c ∷ a) (d ∷ b) ha hb e =
    let (hc, ha) = &&-eq-true _ _ ha in
    let (hd, hb) = &&-eq-true _ _ hb in
    let (same, rest) = cons-injective e in
    ap₂ (λ x y. x ∷ y) (dots_differ c d hc hd same) (map-injective a b ha hb rest)

-- For two unique names of digits and dots behind their colons: the segment of the first has no `/`,
-- and the names are equal where the segments are.
pub escape_unique-injective :
    (a b : Text)
    → IsNumbered a
    → IsNumbered b
    → (contains b'/' (escape_unique (b':' ∷ a)) ≡ false)
      × ((escape_unique (b':' ∷ a) ≡ escape_unique (b':' ∷ b)) ↔ (a ≡ b))
unfolding escape_unique
escape_unique-injective a b ha hb = (
  rw (trim_colons-IsNumbered a ha) (contains-map a ha),
  (
    λ e.
        map-injective a b ha hb
          (rw (trim_colons-IsNumbered a ha, trim_colons-IsNumbered b hb) at e),
    λ e. ap (λ s. escape_unique (b':' ∷ s)) e,
  ),
)
