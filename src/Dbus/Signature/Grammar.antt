-- ===== src/Dbus/Signature/Grammar.antt =====
-- What a signature of src/dbus/value.rs may be: the trees that it spells.
use psbox.Common.{
  ℕ, zero, suc, ◌+◌, ◌≤◌, ◌≡◌, refl, true, false, [], ◌∷◌, ◌++◌, ◌==◌, length, length-append, drop,
  arith,
}
use psbox.Common.Text.{Text}
use psbox.Dbus.Signature.{is_basic}

mutual
  pub data SigType : Type 0 where
    basic : ℕ → SigType
    array : SigType → SigType
    struct : Fields → SigType
    dict_entry : SigType → SigType → SigType

  pub data Fields : Type 0 where
    end : Fields
    field : SigType → Fields → Fields

unfoldable mutual
  pub spell : SigType → Text
  spell (SigType.basic c) = c ∷ []
  spell (SigType.array t) = b'a' ∷ spell t
  spell (SigType.struct ts) = b'(' ∷ (spell_all ts ++ b')' ∷ [])
  spell (SigType.dict_entry k v) = b'{' ∷ (spell k ++ (spell v ++ b'}' ∷ []))

  pub spell_all : Fields → Text
  spell_all Fields.end = []
  spell_all (Fields.field t ts) = spell t ++ spell_all ts

abbrev pub IsField : Fields → Type 0
IsField Fields.end = ⊥
IsField (Fields.field t ts) = Unit

-- The letters are those of types, no struct is empty, and the type is at most `levels` deep.
unfoldable mutual
  unfolding is_basic

  pub Within : ℕ → SigType → Type 0
  Within zero t = ⊥
  Within (suc levels) (SigType.basic c) = is_basic c ≡ true
  Within (suc levels) (SigType.array t) = Within levels t
  Within (suc levels) (SigType.struct ts) = IsField ts × WithinAll levels ts
  Within (suc levels) (SigType.dict_entry k v) = Within levels k × Within levels v

  pub WithinAll : ℕ → Fields → Type 0
  WithinAll levels Fields.end = Unit
  WithinAll levels (Fields.field t ts) = Within levels t × WithinAll levels ts

-- A type starts with a letter that ends no struct.
pub spell-first :
    (levels : ℕ) (t : SigType)
    → Within levels t
    → (c : ℕ) × (s : Text) × (spell t ≡ c ∷ s) × ((c == b')') ≡ false)
unfolding spell Within is_basic
spell-first zero t w = absurd w
spell-first (suc levels) (SigType.basic c) w = (c, [], refl, ground (arith, w))
spell-first (suc levels) (SigType.array t) w = (b'a', spell t, refl, refl)
spell-first (suc levels) (SigType.struct ts) w = (b'(', spell_all ts ++ b')' ∷ [], refl, refl)
spell-first (suc levels) (SigType.dict_entry k v) w =
    (b'{', spell k ++ (spell v ++ b'}' ∷ []), refl, refl)

pub length-first :
    (levels : ℕ) (t : SigType) (rest : Text)
    → Within levels t
    → 1 + length rest ≤ length (spell t ++ rest)
length-first levels t rest w =
    let (c, s, first, other) = spell-first levels t w in
    rw first (omega (arith, length-append s rest))

-- The first `n` letters of `sig` spell a type.
abbrev pub StartsWithType : ℕ → Text → ℕ → Type 0
StartsWithType levels sig n =
    (t : SigType) × Within levels t × (n ≡ length (spell t)) × (sig ≡ spell t ++ drop n sig)
