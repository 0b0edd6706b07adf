-- ===== src/Dbus/Value/Dictionary.antt =====
-- The `a{sv}` dictionaries of src/dbus/value.rs.
use psbox.Common.{
  ◌≡◌, ◌≢◌, refl, sym, ap, ◌∙◌, true, false, Option, none, some, Bool-cases, if-cases, inl, inr,
}
use psbox.Common.Text.{Text, eq, eq_sound, eq_refl}
use psbox.Dbus.Value.{
  Value, Entries, as_str, same_key, is_key, unwrap, find, set_entry, retain, dict_get, dict_set,
  dict_remove,
}

-- A value is the key of one text at most.
same_key-ne :
    (o : Option Text) (key other : Text)
    → key ≢ other
    → same_key o key ≡ true
    → same_key o other ≡ false
same_key-ne none key other ne h = cc
same_key-ne (some k) key other ne h = elim (Bool-cases (eq k other)) [
  | inl same ↦ absurd (ne (sym (eq_sound k key h) ∙ eq_sound k other same))
  | inr differ ↦ differ
]

find-set_entry : (es : Entries) (key : Text) (v : Value) → find (set_entry es key v) key ≡ some v
unfolding find set_entry
find-set_entry Entries.no_pair key v = rw (eq_refl key)
find-set_entry (Entries.pair k old rest) key v = elim (Bool-cases (is_key k key)) [
  | inl same ↦ rw (same, same)
  | inr other ↦ rw (other, other, find-set_entry rest key v)
]

find-set_entry_ne :
    (es : Entries) (key other : Text) (v : Value)
    → key ≢ other
    → find (set_entry es key v) other ≡ find es other
unfolding find set_entry
find-set_entry_ne Entries.no_pair key other v ne =
    rw (same_key-ne (some key) key other ne (eq_refl key))
find-set_entry_ne (Entries.pair k old rest) key other v ne = elim (Bool-cases (is_key k key)) [
  | inl same ↦ rw (same, same_key-ne (as_str k) key other ne same)
  | inr differ ↦ rw (differ, find-set_entry_ne rest key other v ne)
]

find-retain : (es : Entries) (key : Text) → find (retain es key) key ≡ none
unfolding find retain
find-retain Entries.no_pair key = refl
find-retain (Entries.pair k v rest) key = elim (Bool-cases (is_key k key)) [
  | inl same ↦ rw (same, find-retain rest key)
  | inr other ↦ rw (other, other, find-retain rest key)
]

find-retain_ne :
    (es : Entries) (key other : Text) → key ≢ other → find (retain es key) other ≡ find es other
unfolding find retain
find-retain_ne Entries.no_pair key other ne = refl
find-retain_ne (Entries.pair k v rest) key other ne = elim (Bool-cases (is_key k key)) [
  | inl same ↦ rw (same, same_key-ne (as_str k) key other ne same, find-retain_ne rest key other ne)
  | inr differ ↦ rw (differ, find-retain_ne rest key other ne)
]

module _ (kt vt : Text) (entries : Entries) (key other : Text) (v : Value) (ne : key ≢ other) where
  -- In a dictionary, for two different keys: after `dict_set` the first has the value that was set
  -- and the second what it had, and after `dict_remove` the first has none and the second what it
  -- had.
  pub dict_get-dict_set :
      (dict_get (dict_set (Value.dict kt vt entries) key v) key ≡ some v)
      × (dict_get (dict_set (Value.dict kt vt entries) key v) other
          ≡ dict_get (Value.dict kt vt entries) other)
      × (dict_get (dict_remove (Value.dict kt vt entries) key) key ≡ none)
      × (dict_get (dict_remove (Value.dict kt vt entries) key) other
          ≡ dict_get (Value.dict kt vt entries) other)
  unfolding dict_get dict_set dict_remove
  dict_get-dict_set = (
    ap unwrap (find-set_entry entries key (Value.variant v)),
    ap unwrap (find-set_entry_ne entries key other (Value.variant v) ne),
    ap unwrap (find-retain entries key),
    ap unwrap (find-retain_ne entries key other ne),
  )

find-retain_absent :
    (es : Entries) (key other : Text) → find es key ≡ none → find (retain es other) key ≡ none
unfolding find retain
find-retain_absent Entries.no_pair key other h = refl
find-retain_absent (Entries.pair k v rest) key other h = elim (if-cases (is_key k key) h) [
  | inl (_, h) ↦ cc h
  | inr (differs, h) ↦ elim (Bool-cases (is_key k other)) [
    | inl gone ↦ rw gone (find-retain_absent rest key other h)
    | inr kept ↦ rw (kept, differs) (find-retain_absent rest key other h)
  ]
]

pub dict_get-dict_set_self :
    (kt vt : Text) (entries : Entries) (key : Text) (v : Value)
    → dict_get (dict_set (Value.dict kt vt entries) key v) key ≡ some v
unfolding dict_get dict_set
dict_get-dict_set_self kt vt entries key v =
    ap unwrap (find-set_entry entries key (Value.variant v))

-- A key that is removed is absent, from a value that is no dictionary too.
pub dict_get-dict_remove : (v : Value) (key : Text) → dict_get (dict_remove v key) key ≡ none
unfolding dict_get dict_remove
dict_get-dict_remove (Value.dict kt vt entries) key = ap unwrap (find-retain entries key)
dict_get-dict_remove _ key = refl

unwrap_absent : (o : Option Value) → unwrap o ≡ none → o ≡ none
unwrap_absent none h = refl
unwrap_absent (some (Value.variant inner)) h = cc h
unwrap_absent (some _) h = cc h

pub dict_get-dict_remove_absent :
    (v : Value) (key other : Text)
    → dict_get v key ≡ none
    → dict_get (dict_remove v other) key ≡ none
unfolding dict_get dict_remove
dict_get-dict_remove_absent (Value.dict kt vt entries) key other h =
    ap unwrap (find-retain_absent entries key other (unwrap_absent (find entries key) h))
dict_get-dict_remove_absent _ key other h = refl
