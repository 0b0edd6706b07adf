-- ===== src/Desktop/Entry/Keys.antt =====
-- What `get` of src/desktop.rs finds after `set` and `remove`.
use psbox.Common.{
  some-injective, ◌≡◌, refl, sym, ap, ◌∙◌, true, false, Option, none, some, List, [], ◌∷◌,
  Bool-cases, inl, inr,
}
use psbox.Common.Text.{Text, eq, eq_sound}
use psbox.Desktop.Entry.{
  Line, Section, Entry, find_lines, find_key, key_in, get, on_section, set_lines, set, drop_keys,
  remove, has_section, any_named, exec_names, exec_sections,
}
use psbox.Desktop.Entry.Lines.{
  find_lines-on_section_ne, find_lines-on_section, map_lines, find_key-set_lines,
  find_key-set_lines_ne, find_key-drop_keys, find_key-drop_keys_ne,
}

-- What is read of a section in which a key was set or removed, given what that does to its lines.
key_in-map_lines :
    (m : Text) (f : List Line → List Line) (found : Option (List Line))
    → ((lines : List Line) → find_key m (f lines) ≡ find_key m lines)
    → key_in m (map_lines f found) ≡ key_in m found
key_in-map_lines m f none h = refl
key_in-map_lines m f (some lines) h = h lines

pub get-set_ne_section :
    (e : Entry) (n m k l value : Text) → eq n m ≡ false → get (set e n k value) m l ≡ get e m l
unfolding get set
get-set_ne_section e n m k l value ne =
    ap (key_in l) (find_lines-on_section_ne n m (set_lines k value) e.sections ne)

pub get-set_ne :
    (e : Entry) (n k m value : Text) → eq k m ≡ false → get (set e n k value) n m ≡ get e n m
unfolding get set
get-set_ne e n k m value ne =
    ap (key_in m) (find_lines-on_section n (set_lines k value) e.sections)
    ∙ key_in-map_lines m (set_lines k value) (find_lines n e.sections)
        (λ lines. find_key-set_lines_ne k m value lines ne)

set_in-section :
    (k value : Text) (found : Option (List Line)) {v : Text}
    → key_in k (map_lines (set_lines k value) found) ≡ some v
    → v ≡ value
set_in-section k value none h = cc
set_in-section k value (some lines) h = some-injective (sym h ∙ find_key-set_lines k value lines)

-- A value that is read where one was set is that one.
pub get-set-eq-some :
    (e : Entry) (n k value : Text) {v : Text} → get (set e n k value) n k ≡ some v → v ≡ value
unfolding get set
get-set-eq-some e n k value h =
    set_in-section k value (find_lines n e.sections)
      (sym (ap (key_in k) (find_lines-on_section n (set_lines k value) e.sections)) ∙ h)

find_lines-any_named :
    (n : Text) (ss : List Section)
    → any_named n ss ≡ true
    → (lines : List Line) × (find_lines n ss ≡ some lines)
find_lines-any_named n [] h = cc
find_lines-any_named n (s ∷ ss) h = elim (Bool-cases (eq s.name n)) [
  | inl same ↦ (s.lines, rw same refl)
  | inr differs ↦
      let (lines, e) = find_lines-any_named n ss (rw differs at h) in (lines, rw differs e)
]

pub get-set :
    (e : Entry) (n k value : Text) → has_section e n ≡ true → get (set e n k value) n k ≡ some value
unfolding get set has_section
get-set e n k value h =
    let (lines, found) = find_lines-any_named n e.sections h in
    ap (key_in k) (find_lines-on_section n (set_lines k value) e.sections)
    ∙ rw found (find_key-set_lines k value lines)

removed_in :
    (k : Text) (found : Option (List Line))
    → key_in k (map_lines (drop_keys (λ name. eq name k)) found) ≡ none
removed_in k none = refl
removed_in k (some lines) = find_key-drop_keys k lines

pub get-remove : (e : Entry) (n k : Text) → get (remove e n k) n k ≡ none
unfolding get remove
get-remove e n k =
    ap (key_in k) (find_lines-on_section n (drop_keys (λ name. eq name k)) e.sections)
    ∙ removed_in k (find_lines n e.sections)

pub get-remove_ne : (e : Entry) (n k m : Text) → eq k m ≡ false → get (remove e n k) n m ≡ get e n m
unfolding get remove
get-remove_ne e n k m ne =
    ap (key_in m) (find_lines-on_section n (drop_keys (λ name. eq name k)) e.sections)
    ∙ key_in-map_lines m (drop_keys (λ name. eq name k)) (find_lines n e.sections)
        (λ lines. find_key-drop_keys_ne k m lines ne)

pub get-remove_ne_section :
    (e : Entry) (n m k l : Text) → eq n m ≡ false → get (remove e n k) m l ≡ get e m l
unfolding get remove
get-remove_ne_section e n m k l ne =
    ap (key_in l) (find_lines-on_section_ne n m (drop_keys (λ name. eq name k)) e.sections ne)

-- Other keys keep their values, in every section.
pub get-set_other :
    (e : Entry) (n j value m k : Text) → eq j k ≡ false → get (set e n j value) m k ≡ get e m k
get-set_other e n j value m k ne = elim (Bool-cases (eq n m)) [
  | inl same ↦ rw (sym (eq_sound n m same)) (get-set_ne e n j k value ne)
  | inr differs ↦ get-set_ne_section e n m j k value differs
]

pub get-remove_other :
    (e : Entry) (n j m k : Text) → eq j k ≡ false → get (remove e n j) m k ≡ get e m k
get-remove_other e n j m k ne = elim (Bool-cases (eq n m)) [
  | inl same ↦ rw (sym (eq_sound n m same)) (get-remove_ne e n j k ne)
  | inr differs ↦ get-remove_ne_section e n m j k differs
]

-- The sections keep their names.
exec_names-on_section :
    (n : Text) (f : List Line → List Line) (ss : List Section)
    → exec_names (on_section n f ss) ≡ exec_names ss
exec_names-on_section n f [] = refl
exec_names-on_section n f (s ∷ ss) = elim (Bool-cases (eq s.name n)) [
  | inl same ↦ rw same refl
  | inr differs ↦ rw (differs, exec_names-on_section n f ss) refl
]

any_named-on_section :
    (n m : Text) (f : List Line → List Line) (ss : List Section)
    → any_named m (on_section n f ss) ≡ any_named m ss
any_named-on_section n m f [] = refl
any_named-on_section n m f (s ∷ ss) = elim (Bool-cases (eq s.name n)) [
  | inl same ↦ rw same refl
  | inr differs ↦ rw (differs, any_named-on_section n m f ss) refl
]

pub exec_sections-set :
    (e : Entry) (n k value : Text) → exec_sections (set e n k value) ≡ exec_sections e
unfolding exec_sections set
exec_sections-set e n k value = exec_names-on_section n (set_lines k value) e.sections

pub exec_sections-remove : (e : Entry) (n k : Text) → exec_sections (remove e n k) ≡ exec_sections e
unfolding exec_sections remove
exec_sections-remove e n k = exec_names-on_section n (drop_keys (λ name. eq name k)) e.sections

pub has_section-set :
    (e : Entry) (n m k value : Text) → has_section (set e n k value) m ≡ has_section e m
unfolding has_section set
has_section-set e n m k value = any_named-on_section n m (set_lines k value) e.sections

pub has_section-remove : (e : Entry) (n m k : Text) → has_section (remove e n k) m ≡ has_section e m
unfolding has_section remove
has_section-remove e n m k = any_named-on_section n m (drop_keys (λ name. eq name k)) e.sections
