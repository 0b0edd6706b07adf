-- ===== src/Desktop/Entry/Lines.antt =====
-- The lines of a section of src/desktop.rs, and what is found in them after a key was set or removed.
use psbox.Common.{
  ℕ, zero, suc, ||-eq-false, ◌≡◌, refl, Bool, true, false, ◌||◌, Option, none, some, List, [], ◌∷◌,
  Bool-cases, inl, inr,
}
use psbox.Common.Text.{Text, eq, eq_sound, eq_refl}
use psbox.Desktop.Entry.{
  Line, other, key, Section, find_lines, find_key, on_section, replace_key, has_key, after_last_key,
  insert, set_lines, drop_keys,
}

-- Sections of other names are left alone.
pub find_lines-on_section_ne :
    (name m : Text) (f : List Line → List Line) (ss : List Section)
    → eq name m ≡ false
    → find_lines m (on_section name f ss) ≡ find_lines m ss
find_lines-on_section_ne name m f [] ne = refl
find_lines-on_section_ne name m f (s ∷ ss) ne = elim (Bool-cases (eq s.name name)) [
  | inl same ↦ rw (same, eq_sound s.name name same, ne) refl
  | inr differs ↦ elim (Bool-cases (eq s.name m)) [
    | inl it ↦ rw (differs, it) refl
    | inr not_it ↦ rw (differs, not_it) (find_lines-on_section_ne name m f ss ne)
  ]
]

abbrev pub map_lines : (List Line → List Line) → Option (List Line) → Option (List Line)
map_lines f none = none
map_lines f (some lines) = some (f lines)

pub find_lines-on_section :
    (name : Text) (f : List Line → List Line) (ss : List Section)
    → find_lines name (on_section name f ss) ≡ map_lines f (find_lines name ss)
find_lines-on_section name f [] = refl
find_lines-on_section name f (s ∷ ss) = elim (Bool-cases (eq s.name name)) [
  | inl same ↦ rw (same, same) refl
  | inr differs ↦ rw (differs, differs) (find_lines-on_section name f ss)
]

find_key-replace_key_done :
    (k value : Text) (lines : List Line) → find_key k (replace_key true k value lines) ≡ none
find_key-replace_key_done k value [] = refl
find_key-replace_key_done k value (other t ∷ lines) = find_key-replace_key_done k value lines
find_key-replace_key_done k value (key name v ∷ lines) = elim (Bool-cases (eq name k)) [
  | inl same ↦ rw same (find_key-replace_key_done k value lines)
  | inr differs ↦ rw (differs, differs) (find_key-replace_key_done k value lines)
]

find_key-replace_key :
    (k value : Text) (lines : List Line)
    → has_key k lines ≡ true
    → find_key k (replace_key false k value lines) ≡ some value
find_key-replace_key k value [] h = cc
find_key-replace_key k value (other t ∷ lines) h = find_key-replace_key k value lines h
find_key-replace_key k value (key name v ∷ lines) h = elim (Bool-cases (eq name k)) [
  | inl same ↦ rw (same, same) refl
  | inr differs ↦ rw (differs, differs) (find_key-replace_key k value lines (rw differs at h))
]

find_key-replace_key_ne :
    (done : Bool) (k m value : Text) (lines : List Line)
    → eq k m ≡ false
    → find_key m (replace_key done k value lines) ≡ find_key m lines
find_key-replace_key_ne done k m value [] ne = refl
find_key-replace_key_ne done k m value (other t ∷ lines) ne =
    find_key-replace_key_ne done k m value lines ne
find_key-replace_key_ne done k m value (key name v ∷ lines) ne = elim (Bool-cases (eq name k)) [
  | inl same ↦ elim (Bool-cases done) [
    | inl d ↦
        rw (same, d, eq_sound name k same, ne) (find_key-replace_key_ne true k m value lines ne)
    | inr d ↦
        rw (same, d, eq_sound name k same, ne) (find_key-replace_key_ne true k m value lines ne)
  ]
  | inr differs ↦ elim (Bool-cases (eq name m)) [
    | inl it ↦ rw (differs, it) refl
    | inr not_it ↦ rw (differs, not_it) (find_key-replace_key_ne (done || false) k m value lines ne)
  ]
]

find_key-insert :
    (k value : Text) (lines : List Line) (i : ℕ)
    → has_key k lines ≡ false
    → find_key k (insert lines i (key k value)) ≡ some value
find_key-insert k value lines zero h = rw (eq_refl k) refl
find_key-insert k value [] (suc i) h = rw (eq_refl k) refl
find_key-insert k value (other t ∷ lines) (suc i) h = find_key-insert k value lines i h
find_key-insert k value (key name v ∷ lines) (suc i) h =
    let (differs, rest) = ||-eq-false (eq name k) (has_key k lines) h in
    rw differs (find_key-insert k value lines i rest)

find_key-insert_ne :
    (k m value : Text) (lines : List Line) (i : ℕ)
    → eq k m ≡ false
    → find_key m (insert lines i (key k value)) ≡ find_key m lines
find_key-insert_ne k m value lines zero ne = rw ne refl
find_key-insert_ne k m value [] (suc i) ne = rw ne refl
find_key-insert_ne k m value (other t ∷ lines) (suc i) ne = find_key-insert_ne k m value lines i ne
find_key-insert_ne k m value (key name v ∷ lines) (suc i) ne = elim (Bool-cases (eq name m)) [
  | inl it ↦ rw it refl
  | inr not_it ↦ rw not_it (find_key-insert_ne k m value lines i ne)
]

pub find_key-set_lines :
    (k value : Text) (lines : List Line) → find_key k (set_lines k value lines) ≡ some value
find_key-set_lines k value lines = elim (Bool-cases (has_key k lines)) [
  | inl there ↦ rw there (find_key-replace_key k value lines there)
  | inr not_there ↦ rw not_there (find_key-insert k value lines (after_last_key lines) not_there)
]

pub find_key-set_lines_ne :
    (k m value : Text) (lines : List Line)
    → eq k m ≡ false
    → find_key m (set_lines k value lines) ≡ find_key m lines
find_key-set_lines_ne k m value lines ne = elim (Bool-cases (has_key k lines)) [
  | inl there ↦ rw there (find_key-replace_key_ne false k m value lines ne)
  | inr not_there ↦ rw not_there (find_key-insert_ne k m value lines (after_last_key lines) ne)
]

pub find_key-drop_keys :
    (k : Text) (lines : List Line) → find_key k (drop_keys (λ name. eq name k) lines) ≡ none
find_key-drop_keys k [] = refl
find_key-drop_keys k (other t ∷ lines) = find_key-drop_keys k lines
find_key-drop_keys k (key name v ∷ lines) = elim (Bool-cases (eq name k)) [
  | inl same ↦ rw same (find_key-drop_keys k lines)
  | inr differs ↦ rw (differs, differs) (find_key-drop_keys k lines)
]

pub find_key-drop_keys_ne :
    (k m : Text) (lines : List Line)
    → eq k m ≡ false
    → find_key m (drop_keys (λ name. eq name k) lines) ≡ find_key m lines
find_key-drop_keys_ne k m [] ne = refl
find_key-drop_keys_ne k m (other t ∷ lines) ne = find_key-drop_keys_ne k m lines ne
find_key-drop_keys_ne k m (key name v ∷ lines) ne = elim (Bool-cases (eq name k)) [
  | inl same ↦ rw (same, eq_sound name k same, ne) (find_key-drop_keys_ne k m lines ne)
  | inr differs ↦ elim (Bool-cases (eq name m)) [
    | inl it ↦ rw (differs, it) refl
    | inr not_it ↦ rw (differs, not_it) (find_key-drop_keys_ne k m lines ne)
  ]
]
