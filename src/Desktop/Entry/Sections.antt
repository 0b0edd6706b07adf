-- ===== src/Desktop/Entry/Sections.antt =====
-- The sections of an entry of src/desktop.rs, against what is found by their names.
use psbox.Common.{
  ◌≡◌, refl, ap, ◌||◌, ◌&&◌, not, Bool, true, false, Option, some, List, [], ◌∷◌, All, Bool-cases,
  inl, inr, &&-eq-true, ||-eq-false,
}
use psbox.Common.Text.{Text, eq, eq_sound, eq_refl, among, has_prefix}
use psbox.Desktop.Entry.{
  Line, Section, Entry, main, action_prefix, find_lines, find_key, key_in, get, on_section,
  set_lines, set, drop_keys, remove, exec_names, exec_sections,
}

abbrev pub section_names : List Section → List Text
section_names [] = []
section_names (s ∷ ss) = s.name ∷ section_names ss

abbrev all_differ : List Text → Bool
all_differ [] = true
all_differ (t ∷ ts) = not (among t ts) && all_differ ts

-- No two sections have one name.
abbrev pub IsDistinct : List Section → Type 0
IsDistinct ss = all_differ (section_names ss) ≡ true

-- The main section or that of an action.
abbrev pub IsExec : Section → Type 0
IsExec s = (eq s.name main || has_prefix action_prefix s.name) ≡ true

pub All-zip :
    {A : Type 0} {P Q R : A → Type 0} (xs : List A)
    → ((x : A) → P x → Q x → R x)
    → All P xs
    → All Q xs
    → All R xs
All-zip [] f ps qs = tt
All-zip (x ∷ xs) f (p, ps) (q, qs) = (f x p q, All-zip xs f ps qs)

pub section_names-on_section :
    (n : Text) (f : List Line → List Line) (ss : List Section)
    → section_names (on_section n f ss) ≡ section_names ss
section_names-on_section n f [] = refl
section_names-on_section n f (s ∷ ss) = elim (Bool-cases (eq s.name n)) [
  | inl same ↦ rw same refl
  | inr differs ↦ rw (differs, section_names-on_section n f ss) refl
]

pub section_names-set :
    (e : Entry) (n k value : Text)
    → section_names (set e n k value).sections ≡ section_names e.sections
unfolding set
section_names-set e n k value = section_names-on_section n (set_lines k value) e.sections

pub section_names-remove :
    (e : Entry) (n k : Text) → section_names (remove e n k).sections ≡ section_names e.sections
unfolding remove
section_names-remove e n k = section_names-on_section n (drop_keys (λ name. eq name k)) e.sections

differs_back : (a b : Text) → eq a b ≡ false → eq b a ≡ false
differs_back a b h = elim (Bool-cases (eq b a)) [
  | inl same ↦ cc (rw (eq_sound b a same, eq_refl a) at h)
  | inr differs ↦ differs
]

not-eq-true : (b : Bool) → not b ≡ true → b ≡ false
not-eq-true true h = cc h
not-eq-true false h = refl

-- A section in front of others of other names does not hide them.
behind_other :
    (s : Section) (front ss : List Section)
    → among s.name (section_names ss) ≡ false
    → All (λ x. find_lines x.name front ≡ some x.lines) ss
    → All (λ x. find_lines x.name (s ∷ front) ≡ some x.lines) ss
unfolding among
behind_other s front [] h found = tt
behind_other s front (x ∷ ss) h (f, fs) =
    let (differs, rest) = ||-eq-false (eq s.name x.name) (among s.name (section_names ss)) h in
    (rw differs f, behind_other s front ss rest fs)

-- Where no two sections have one name, each is found by its own.
pub find_lines-own :
    (ss : List Section) → IsDistinct ss → All (λ s. find_lines s.name ss ≡ some s.lines) ss
find_lines-own [] h = tt
find_lines-own (s ∷ ss) h =
    let (alone, rest) = &&-eq-true (not (among s.name (section_names ss))) _ h in
    (rw (eq_refl s.name) refl, behind_other s ss ss (not-eq-true _ alone) (find_lines-own ss rest))

exec_names-All :
    (P : Text → Type 0) (ss : List Section)
    → All P (exec_names ss)
    → All (λ s. IsExec s → P s.name) ss
exec_names-All P [] ps = tt
exec_names-All P (s ∷ ss) ps =
    elim (Bool-cases (eq s.name main || has_prefix action_prefix s.name)) [
      | inl launches ↦ let (p, rest) = rw launches at ps in ((λ _. p), exec_names-All P ss rest)
      | inr other ↦ ((λ is. cc (other, is)), exec_names-All P ss (rw other at ps))
    ]

-- What is so of the value that a name gives is so of that of each section that can launch something.
pub sections-All :
    (e : Entry) (k : Text) (P : Option Text → Type 0)
    → IsDistinct e.sections
    → All (λ name. P (get e name k)) (exec_sections e)
    → All (λ s. IsExec s → P (find_key k s.lines)) e.sections
unfolding get exec_sections
sections-All e k P distinct ps =
    All-zip e.sections (λ s own p is. rw (ap (key_in k) own) at (p is))
      (find_lines-own e.sections distinct) (exec_names-All (λ name. P (get e name k)) e.sections ps)
