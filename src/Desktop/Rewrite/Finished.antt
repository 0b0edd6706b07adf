-- ===== src/Desktop/Rewrite/Finished.antt =====
-- `finish` of src/desktop.rs.
use psbox.Common.{
  ◌≡◌, refl, sym, ◌∙◌, true, false, Option, none, some, List, [], ◌∷◌, All, Bool-cases, inl, inr,
}
use psbox.Common.Text.{Text, codes, eq, eq_sound}
use psbox.Desktop.Entry.Sections.{
  section_names, IsDistinct, IsExec, section_names-set, section_names-remove, sections-All,
}
use psbox.Desktop.Entry.{
  find_key, Entry, main, get, set, remove, has_section, actions, exec_sections,
}
use psbox.Desktop.Entry.Keys.{
  get-set, get-set_other, get-remove_other, get-remove, get-remove_ne_section, exec_sections-set,
  exec_sections-remove, has_section-set, has_section-remove,
}
use psbox.Desktop.Rewrite.{
  Target, exec_key, exec_value, opened_args, with_exec, drop_try_exec, listed, with_actions, finish,
}

-- The value that an entry has for `Exec`, or the one that it gets.
abbrev pub exec_or : Target → Entry → Option Text → Text
exec_or t e (some value) = value
exec_or t e none = exec_value t (opened_args (get e main (codes "MimeType")))

-- What is said of an entry `d` that was made from `e`.
pub record IsFinished (t : Target) (e d : Entry) : Type 0 where
  pub exec : get d main (codes "Exec") ≡ some (exec_or t e (get e main (codes "Exec")))
  pub is_application : get d main (codes "Type") ≡ some (codes "Application")
  pub not_activatable : get d main (codes "DBusActivatable") ≡ some (codes "false")
  pub not_hidden : get d main (codes "Hidden") ≡ none
  pub no_try_exec : All (λ s. IsExec s → find_key (codes "TryExec") s.lines ≡ none) d.sections

-- The writes behind the loop of `finish`.
abbrev settled : Entry → Entry
settled e =
    set (remove (set e main (codes "Type") (codes "Application")) main (codes "Hidden")) main
      (codes "DBusActivatable") (codes "false")

abbrev last : Entry → Entry
last e = with_actions (actions (settled e)) (settled e)

with_actions-other :
    (names : List Text) (e : Entry) (m k : Text)
    → eq (codes "Actions") k ≡ false
    → get (with_actions names e) m k ≡ get e m k
with_actions-other [] e m k ne = get-remove_other e main (codes "Actions") m k ne
with_actions-other (a ∷ names) e m k ne =
    get-set_other e main (codes "Actions") (listed (a ∷ names)) m k ne

with_actions-exec_sections :
    (names : List Text) (e : Entry) → exec_sections (with_actions names e) ≡ exec_sections e
with_actions-exec_sections [] e = exec_sections-remove e main (codes "Actions")
with_actions-exec_sections (a ∷ names) e =
    exec_sections-set e main (codes "Actions") (listed (a ∷ names))

with_actions-names :
    (names : List Text) (e : Entry)
    → section_names (with_actions names e).sections ≡ section_names e.sections
with_actions-names [] e = section_names-remove e main (codes "Actions")
with_actions-names (a ∷ names) e = section_names-set e main (codes "Actions") (listed (a ∷ names))

module _ (e : Entry) where
  abbrev typed : Entry
  typed = set e main (codes "Type") (codes "Application")

  abbrev shown : Entry
  shown = remove typed main (codes "Hidden")

  last-other :
      (m k : Text)
      → eq (codes "Type") k ≡ false
      → eq (codes "Hidden") k ≡ false
      → eq (codes "DBusActivatable") k ≡ false
      → eq (codes "Actions") k ≡ false
      → get (last e) m k ≡ get e m k
  last-other m k t h d a =
      with_actions-other (actions (settled e)) (settled e) m k a
      ∙ get-set_other shown main (codes "DBusActivatable") (codes "false") m k d
      ∙ get-remove_other typed main (codes "Hidden") m k h
      ∙ get-set_other e main (codes "Type") (codes "Application") m k t

  last-names : section_names (last e).sections ≡ section_names e.sections
  last-names =
      with_actions-names (actions (settled e)) (settled e)
      ∙ section_names-set shown main (codes "DBusActivatable") (codes "false")
      ∙ section_names-remove typed main (codes "Hidden")
      ∙ section_names-set e main (codes "Type") (codes "Application")

  last-exec_sections : exec_sections (last e) ≡ exec_sections e
  last-exec_sections =
      with_actions-exec_sections (actions (settled e)) (settled e)
      ∙ exec_sections-set shown main (codes "DBusActivatable") (codes "false")
      ∙ exec_sections-remove typed main (codes "Hidden")
      ∙ exec_sections-set e main (codes "Type") (codes "Application")

  last-type :
      has_section e main ≡ true → get (last e) main (codes "Type") ≡ some (codes "Application")
  unfolding eq
  last-type s =
      with_actions-other (actions (settled e)) (settled e) main (codes "Type") refl
      ∙ get-set_other shown main (codes "DBusActivatable") (codes "false") main (codes "Type") refl
      ∙ get-remove_other typed main (codes "Hidden") main (codes "Type") refl
      ∙ get-set e main (codes "Type") (codes "Application") s

  last-hidden : get (last e) main (codes "Hidden") ≡ none
  unfolding eq
  last-hidden =
      with_actions-other (actions (settled e)) (settled e) main (codes "Hidden") refl
      ∙ get-set_other shown main (codes "DBusActivatable") (codes "false") main (codes "Hidden")
          refl
      ∙ get-remove typed main (codes "Hidden")

  last-activatable :
      has_section e main ≡ true → get (last e) main (codes "DBusActivatable") ≡ some (codes "false")
  unfolding eq
  last-activatable s =
      with_actions-other (actions (settled e)) (settled e) main (codes "DBusActivatable") refl
      ∙ get-set shown main (codes "DBusActivatable") (codes "false") (
          has_section-remove typed main main (codes "Hidden")
          ∙ has_section-set e main main (codes "Type") (codes "Application")
          ∙ s)

drop_try_exec-other :
    (sections : List Text) (e : Entry) (m k : Text)
    → eq (codes "TryExec") k ≡ false
    → get (drop_try_exec sections e) m k ≡ get e m k
drop_try_exec-other [] e m k ne = refl
drop_try_exec-other (s ∷ rest) e m k ne =
    drop_try_exec-other rest (remove e s (codes "TryExec")) m k ne
    ∙ get-remove_other e s (codes "TryExec") m k ne

drop_try_exec-names :
    (sections : List Text) (e : Entry)
    → section_names (drop_try_exec sections e).sections ≡ section_names e.sections
drop_try_exec-names [] e = refl
drop_try_exec-names (s ∷ rest) e =
    drop_try_exec-names rest (remove e s (codes "TryExec"))
    ∙ section_names-remove e s (codes "TryExec")

drop_try_exec-sections :
    (sections : List Text) (e : Entry)
    → (exec_sections (drop_try_exec sections e) ≡ exec_sections e)
      × (has_section (drop_try_exec sections e) main ≡ has_section e main)
drop_try_exec-sections [] e = (refl, refl)
drop_try_exec-sections (s ∷ rest) e =
    let (a, b) = drop_try_exec-sections rest (remove e s (codes "TryExec")) in
    (
      a ∙ exec_sections-remove e s (codes "TryExec"),
      b ∙ has_section-remove e s main (codes "TryExec"),
    )

-- What has no `TryExec` keeps none.
drop_try_exec-none :
    (sections : List Text) (e : Entry) (m : Text)
    → get e m (codes "TryExec") ≡ none
    → get (drop_try_exec sections e) m (codes "TryExec") ≡ none
drop_try_exec-none [] e m h = h
drop_try_exec-none (s ∷ rest) e m h =
    drop_try_exec-none rest (remove e s (codes "TryExec")) m (elim (Bool-cases (eq s m)) [
      | inl same ↦ rw (sym (eq_sound s m same)) (get-remove e s (codes "TryExec"))
      | inr differs ↦ get-remove_ne_section e s m (codes "TryExec") (codes "TryExec") differs ∙ h
    ])

drop_try_exec-All :
    (sections : List Text) (e : Entry)
    → All (λ section. get (drop_try_exec sections e) section (codes "TryExec") ≡ none) sections
drop_try_exec-All [] e = tt
drop_try_exec-All (s ∷ rest) e = (
  drop_try_exec-none rest (remove e s (codes "TryExec")) s (get-remove e s (codes "TryExec")),
  drop_try_exec-All rest (remove e s (codes "TryExec")),
)

All-same : {P Q : Text → Type 0} (xs : List Text) → ((x : Text) → P x → Q x) → All P xs → All Q xs
All-same [] f h = tt
All-same (x ∷ xs) f (h, hs) = (f x h, All-same xs f hs)

with_exec-main :
    (t : Target) (e : Entry) (found : Option Text)
    → get e main exec_key ≡ found
    → has_section e main ≡ true
    → (get (with_exec t e found) main exec_key ≡ some (exec_or t e found))
      × (has_section (with_exec t e found) main ≡ true)
with_exec-main t e (some value) f s = (f, s)
with_exec-main t e none f s =
    let value = exec_value t (opened_args (get e main (codes "MimeType"))) in
    (get-set e main exec_key value s, has_section-set e main main exec_key value ∙ s)

with_exec-names :
    (t : Target) (e : Entry) (found : Option Text)
    → section_names (with_exec t e found).sections ≡ section_names e.sections
with_exec-names t e (some value) = refl
with_exec-names t e none =
    section_names-set e main exec_key (exec_value t (opened_args (get e main (codes "MimeType"))))

-- For an entry with a main section, no two of whose sections have one name: `finish` leaves its `Exec`
-- if it has one and makes one that runs the app if not, with `%U` if it has a `MimeType`; it is an
-- application then, neither hidden nor activated over D-Bus, and no section of it that can launch
-- something, the main one or that of an action, has a `TryExec`.
pub finish-IsFinished :
    (e : Entry) (t : Target)
    → has_section e main ≡ true
    → IsDistinct e.sections
    → IsFinished t e (finish e t)
unfolding finish eq
finish-IsFinished e t s distinct =
    let c = with_exec t e (get e main exec_key) in
    let d = drop_try_exec (exec_sections c) c in
    let (exec, s) = with_exec-main t e (get e main exec_key) refl s in
    let (names, m) = drop_try_exec-sections (exec_sections c) c in
    let s = m ∙ s in
    let same =
      last-names d
      ∙ drop_try_exec-names (exec_sections c) c
      ∙ with_exec-names t e (get e main exec_key) in
    record {
      exec =
          last-other d main exec_key refl refl refl refl
          ∙ drop_try_exec-other (exec_sections c) c main exec_key refl
          ∙ exec;
      is_application = last-type d s;
      not_activatable = last-activatable d s;
      not_hidden = last-hidden d;
      no_try_exec =
          sections-All (last d) (codes "TryExec") (λ found. found ≡ none) (rw same distinct)
            (rw (last-exec_sections d ∙ names) (
              All-same (exec_sections c)
                (λ section h. last-other d section (codes "TryExec") refl refl refl refl ∙ h)
                (drop_try_exec-All (exec_sections c) c)));
    }
