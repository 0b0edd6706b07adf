-- ===== src/Dbus/Value.antt =====
-- src/dbus/value.rs: values. An integer is the word of its bits, so that `as` changes nothing, a
-- double is its bits, and a text is its bytes.
pub mod Dictionary
pub mod Paths
mod Tests
use psbox.Common.{ℕ, ◌≡◌, Bool, true, false, Option, none, some, List, [], ◌∷◌, ◌++◌, if◌then◌else◌}
use psbox.Common.Text.{Text, eq, codes}

mutual
  pub data Value : Type 0 where
    byte i16 u16 i32 u32 i64 u64 double : ℕ → Value
    bool : Bool → Value
    str path sig : Text → Value
    fd : ℕ → Value
    array : Text → Values → Value
    dict : Text → Text → Entries → Value
    struct : Values → Value
    variant : Value → Value

  -- `Vec<Value>`
  pub data Values : Type 0 where
    nothing : Values
    item : Value → Values → Values

  -- `Vec<(Value, Value)>`
  pub data Entries : Type 0 where
    no_pair : Entries
    pair : Value → Value → Entries → Entries

unfoldable mutual
  pub signature : Value → Text
  signature (Value.byte _) = codes "y"
  signature (Value.bool _) = codes "b"
  signature (Value.i16 _) = codes "n"
  signature (Value.u16 _) = codes "q"
  signature (Value.i32 _) = codes "i"
  signature (Value.u32 _) = codes "u"
  signature (Value.i64 _) = codes "x"
  signature (Value.u64 _) = codes "t"
  signature (Value.double _) = codes "d"
  signature (Value.str _) = codes "s"
  signature (Value.path _) = codes "o"
  signature (Value.sig _) = codes "g"
  signature (Value.fd _) = codes "h"
  signature (Value.array elem _) = b'a' ∷ elem
  signature (Value.dict k v _) = b'a' ∷ b'{' ∷ (k ++ (v ++ b'}' ∷ []))
  signature (Value.struct fields) = b'(' ∷ (signatures fields ++ b')' ∷ [])
  signature (Value.variant _) = codes "v"

  pub signatures : Values → Text
  signatures Values.nothing = []
  signatures (Values.item v vs) = signature v ++ signatures vs

abbrev pub as_str : Value → Option Text
as_str (Value.str s) = some s
as_str (Value.path s) = some s
as_str (Value.sig s) = some s
as_str _ = none

abbrev pub as_u32 : Value → Option ℕ
as_u32 (Value.u32 n) = some n
as_u32 _ = none

-- `k.as_str() == Some(key)`
abbrev same_key : Option Text → Text → Bool
same_key none key = false
same_key (some k) key = eq k key

abbrev pub is_key : Value → Text → Bool
is_key k key = same_key (as_str k) key

unfoldable pub find : Entries → Text → Option Value
find Entries.no_pair key = none
find (Entries.pair k v rest) key = if is_key k key then some v else find rest key

abbrev unwrap : Option Value → Option Value
unwrap (some (Value.variant inner)) = some inner
unwrap other = other

unfoldable pub dict_get : Value → Text → Option Value
unfolding find
dict_get (Value.dict _ _ entries) key = unwrap (find entries key)
dict_get _ key = none

unfoldable pub set_entry : Entries → Text → Value → Entries
set_entry Entries.no_pair key v = Entries.pair (Value.str key) v Entries.no_pair
set_entry (Entries.pair k old rest) key v =
    if is_key k key then Entries.pair k v rest else Entries.pair k old (set_entry rest key v)

unfoldable pub dict_set : Value → Text → Value → Value
unfolding set_entry
dict_set (Value.dict k v entries) key value =
    Value.dict k v (set_entry entries key (Value.variant value))
dict_set other key value = other

unfoldable pub retain : Entries → Text → Entries
retain Entries.no_pair key = Entries.no_pair
retain (Entries.pair k v rest) key =
    if is_key k key then retain rest key else Entries.pair k v (retain rest key)

unfoldable pub dict_remove : Value → Text → Value
unfolding retain
dict_remove (Value.dict k v entries) key = Value.dict k v (retain entries key)
dict_remove other key = other

abbrev pub or_else : Option Text → Text → Text
or_else none p = p
or_else (some new) p = new

unfoldable mutual
  pub map_paths : (Text → Option Text) → Value → Value
  map_paths f (Value.path p) = Value.path (or_else (f p) p)
  map_paths f (Value.array elem items) = Value.array elem (map_paths_all f items)
  map_paths f (Value.struct fields) = Value.struct (map_paths_all f fields)
  map_paths f (Value.dict k v entries) = Value.dict k v (map_paths_entries f entries)
  map_paths f (Value.variant inner) = Value.variant (map_paths f inner)
  map_paths f other = other

  pub map_paths_all : (Text → Option Text) → Values → Values
  map_paths_all f Values.nothing = Values.nothing
  map_paths_all f (Values.item v vs) = Values.item (map_paths f v) (map_paths_all f vs)

  pub map_paths_entries : (Text → Option Text) → Entries → Entries
  map_paths_entries f Entries.no_pair = Entries.no_pair
  map_paths_entries f (Entries.pair k v rest) =
      Entries.pair (map_paths f k) (map_paths f v) (map_paths_entries f rest)
