-- ===== src/Desktop/Entry.antt =====
-- The entries of src/desktop.rs: an `Entry`, and what is read from and done to it.
pub mod Lines
pub mod Keys
pub mod Sections
use psbox.Common.{
  ℕ, zero, suc, Bool, true, false, ◌&&◌, ◌||◌, not, Option, none, some, List, [], ◌∷◌, ◌++◌, length,
  take, drop, if◌then◌else◌,
}
use psbox.Common.Text.{Text, codes, eq, has_prefix, strip_prefix}

-- Comments and blank lines, or a key with its value.
pub data Line : Type 0 where
  other : Text → Line
  key : Text → Text → Line

pub record Section : Type 0 where
  pub name : Text
  pub lines : List Line

pub record Entry : Type 0 where
  pub preamble : List Text
  pub sections : List Section

abbrev pub main : Text
main = codes "Desktop Entry"

abbrev pub action_prefix : Text
action_prefix = codes "Desktop Action "

-- `Entry::new`
abbrev pub new : Entry
new = record { preamble = []; sections = record { name = main; lines = [] } ∷ [] }

-- The lines of the first section of this name.
abbrev pub find_lines : Text → List Section → Option (List Line)
find_lines name [] = none
find_lines name (s ∷ rest) = if eq s.name name then some s.lines else find_lines name rest

abbrev pub find_key : Text → List Line → Option Text
find_key k [] = none
find_key k (other _ ∷ rest) = find_key k rest
find_key k (key name value ∷ rest) = if eq name k then some value else find_key k rest

abbrev pub key_in : Text → Option (List Line) → Option Text
key_in k none = none
key_in k (some lines) = find_key k lines

unfoldable pub get : Entry → Text → Text → Option Text
unfolding eq
get e section k = key_in k (find_lines section e.sections)

-- What is done to the lines of the first section of this name.
abbrev pub on_section : Text → (List Line → List Line) → List Section → List Section
on_section name f [] = []
on_section name f (s ∷ rest) =
    if eq s.name name then record s { lines = f s.lines } ∷ rest else s ∷ on_section name f rest

-- The `retain_mut` of `set`: the first value is replaced, and later ones are dropped.
abbrev pub replace_key : Bool → Text → Text → List Line → List Line
replace_key done k value [] = []
replace_key done k value (other t ∷ lines) = other t ∷ replace_key done k value lines
replace_key done k value (key name v ∷ lines) =
    let rest = replace_key (done || eq name k) k value lines in
    if eq name k then if done then rest else key name value ∷ rest else key name v ∷ rest

abbrev pub has_key : Text → List Line → Bool
has_key k [] = false
has_key k (other _ ∷ rest) = has_key k rest
has_key k (key name _ ∷ rest) = eq name k || has_key k rest

abbrev key_before : Line → ℕ
key_before (other _) = 0
key_before (key _ _) = 1

abbrev behind : Line → ℕ → ℕ
behind line zero = key_before line
behind line (suc i) = suc (suc i)

-- The place behind the last key, or the start.
abbrev pub after_last_key : List Line → ℕ
after_last_key [] = 0
after_last_key (line ∷ lines) = behind line (after_last_key lines)

abbrev pub insert : List Line → ℕ → Line → List Line
insert lines i line = take i lines ++ line ∷ drop i lines

abbrev pub set_lines : Text → Text → List Line → List Line
set_lines k value lines =
    if has_key k lines
    then replace_key false k value lines
    else insert lines (after_last_key lines) (key k value)

unfoldable pub set : Entry → Text → Text → Text → Entry
unfolding eq
set e section k value = record e { sections = on_section section (set_lines k value) e.sections }

-- `lines.retain(...)`, with the test of the keys that go.
abbrev pub drop_keys : (Text → Bool) → List Line → List Line
drop_keys p [] = []
drop_keys p (other t ∷ lines) = other t ∷ drop_keys p lines
drop_keys p (key name value ∷ lines) =
    let rest = drop_keys p lines in if p name then rest else key name value ∷ rest

unfoldable pub remove : Entry → Text → Text → Entry
unfolding eq
remove e section k = record e {
  sections = on_section section (drop_keys (λ name. eq name k)) e.sections;
}

-- Whether the key is `k` or a translation of it.
unfoldable pub is_translation : Text → Text → Bool
unfolding eq has_prefix
is_translation k name =
    eq name k || (has_prefix k name && has_prefix (codes "[") (drop (length k) name))

unfoldable pub remove_all : Entry → Text → Text → Entry
unfolding eq is_translation
remove_all e section k = record e {
  sections = on_section section (drop_keys (is_translation k)) e.sections;
}

abbrev pub any_named : Text → List Section → Bool
any_named name [] = false
any_named name (s ∷ rest) = eq s.name name || any_named name rest

unfoldable pub has_section : Entry → Text → Bool
unfolding eq
has_section e section = any_named section e.sections

unfoldable pub add_section : Entry → Text → Entry
unfolding has_section
add_section e section =
    if has_section e section
    then e
    else record e { sections = e.sections ++ record { name = section; lines = [] } ∷ [] }

abbrev pub drop_sections : Text → List Section → List Section
drop_sections name [] = []
drop_sections name (s ∷ rest) =
    let kept = drop_sections name rest in if eq s.name name then kept else s ∷ kept

unfoldable pub remove_section : Entry → Text → Entry
unfolding eq
remove_section e section = record e { sections = drop_sections section e.sections }

abbrev push_some : Option Text → List Text → List Text
push_some none rest = rest
push_some (some t) rest = t ∷ rest

abbrev pub action_names : List Section → List Text
action_names [] = []
action_names (s ∷ rest) = push_some (strip_prefix action_prefix s.name) (action_names rest)

unfoldable pub actions : Entry → List Text
unfolding strip_prefix
actions e = action_names e.sections

abbrev pub exec_names : List Section → List Text
exec_names [] = []
exec_names (s ∷ rest) =
    let names = exec_names rest in
    if eq s.name main || has_prefix action_prefix s.name then s.name ∷ names else names

unfoldable pub exec_sections : Entry → List Text
unfolding eq has_prefix
exec_sections e = exec_names e.sections
