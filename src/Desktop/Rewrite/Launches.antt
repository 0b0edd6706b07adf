-- ===== src/Desktop/Rewrite/Launches.antt =====
-- `rewrite` of src/desktop.rs, and the `Exec` values of an entry.
use psbox.Common.{
  ◌≡◌, refl, sym, ap, ◌∙◌, Option, none, some, List, [], ◌∷◌, ◌++◌, All, Bool-cases, inl, inr,
  Result, ok, err,
}
use psbox.Common.Text.{Text, codes, eq, eq_sound}
use psbox.Desktop.Exec.{ExecError, Launch, split_exec, join_exec, launch_for}
use psbox.Desktop.Exec.Quoting.{split_exec-join_exec}
use psbox.Desktop.Entry.Sections.{
  section_names, IsDistinct, IsExec, section_names-set, sections-All,
}
use psbox.Desktop.Entry.{Section, find_key, Entry, get, set, exec_sections}
use psbox.Desktop.Entry.Keys.{get-set-eq-some, get-set_ne_section, exec_sections-set}
use psbox.Desktop.Rewrite.{
  Target, exec_key, command, launched, rewrite_with, rewrite_exec, rewrite_section,
  rewrite_sections, rewrite,
}

-- The value starts the app through psbox: with further arguments for the app's command, or with a
-- command line of its own.
pub data Runs (t : Target) (value : Text) : Type 0 where
  arguments :
      (args : List Text) → split_exec value ≡ ok (command t ++ codes "--" ∷ args) → Runs t value
  line :
      (args : List Text)
      → split_exec value ≡ ok (command t ++ codes "--exec" ∷ codes "--" ∷ args)
      → Runs t value

-- So does a value, if there is one.
abbrev pub RunsIfAny : Target → Option Text → Type 0
RunsIfAny t found = (value : Text) → found ≡ some value → Runs t value

abbrev RunsIn : Target → Entry → Text → Type 0
RunsIn t e section = RunsIfAny t (get e section exec_key)

-- So does the `Exec` of a section that can launch something.
abbrev pub SectionRuns : Target → Section → Type 0
SectionRuns t s = IsExec s → RunsIfAny t (find_key exec_key s.lines)

launched-Runs : (t : Target) (launch : Launch) → Runs t (join_exec (launched t launch))
unfolding launched
launched-Runs t (Launch.command args) = Runs.arguments args (split_exec-join_exec _)
launched-Runs t (Launch.exec args) = Runs.line args (split_exec-join_exec _)

set-RunsIn :
    (t : Target) (e : Entry) (n m : Text) (launch : Launch)
    → RunsIn t e m
    → RunsIn t (set e n exec_key (join_exec (launched t launch))) m
set-RunsIn t e n m launch before value h = elim (Bool-cases (eq n m)) [
  | inl same ↦
      rw
        (get-set-eq-some e n exec_key (join_exec (launched t launch)) (
          ap (λ k. get (set e n exec_key (join_exec (launched t launch))) k exec_key)
            (eq_sound n m same)
          ∙ h))
        (launched-Runs t launch)
  | inr differs ↦
      before value (
        sym (get-set_ne_section e n m exec_key exec_key (join_exec (launched t launch)) differs)
        ∙ h)
]

set-RunsIn_self :
    (t : Target) (e : Entry) (n : Text) (launch : Launch)
    → RunsIn t (set e n exec_key (join_exec (launched t launch))) n
set-RunsIn_self t e n launch value h =
    rw (get-set-eq-some e n exec_key (join_exec (launched t launch)) h) (launched-Runs t launch)

-- What a turn of the loop does to an entry.
record Turned (t : Target) (e d : Entry) (section : Text) : Type 0 where
  pub runs : RunsIn t d section
  pub kept : (m : Text) → RunsIn t e m → RunsIn t d m
  pub names : exec_sections d ≡ exec_sections e
  pub all_names : section_names d.sections ≡ section_names e.sections

rewrite_with-Turned :
    (t : Target) (section : Text) (e : Entry) (launch : Result ExecError Launch) {d : Entry}
    → rewrite_with t section e launch ≡ (d, none)
    → Turned t e d section
rewrite_with-Turned t section e (err why) h = cc (ap (λ r. r.1) h)
rewrite_with-Turned t section e (ok launch) h = rw (sym (ap (λ r. r.0) h)) (record {
  runs = set-RunsIn_self t e section launch;
  kept = λ m before. set-RunsIn t e section m launch before;
  names = exec_sections-set e section exec_key (join_exec (launched t launch));
  all_names = section_names-set e section exec_key (join_exec (launched t launch));
})

rewrite_exec-Turned :
    (t : Target) (remove_args : List Text) (section : Text) (e : Entry) (found : Option Text)
    {d : Entry}
    → get e section exec_key ≡ found
    → rewrite_exec t remove_args section e found ≡ (d, none)
    → Turned t e d section
rewrite_exec-Turned t remove_args section e none f h = rw (sym (ap (λ r. r.0) h)) (record {
  runs = λ value g. cc (f, g);
  kept = λ m before. before;
  names = refl;
  all_names = refl;
})
rewrite_exec-Turned t remove_args section e (some value) f h =
    rewrite_with-Turned t section e (launch_for value remove_args) h

rewrite_section-Turned :
    (t : Target) (remove_args : List Text) (e : Entry) (section : Text) {d : Entry}
    → rewrite_section t remove_args e section ≡ (d, none)
    → Turned t e d section
unfolding rewrite_section
rewrite_section-Turned t remove_args e section h =
    rewrite_exec-Turned t remove_args section e (get e section exec_key) refl h

sections_err :
    (t : Target) (remove_args names : List Text) (e : Entry) (why : ExecError)
    → rewrite_sections t remove_args names (e, some why) ≡ (e, some why)
sections_err t remove_args [] e why = refl
sections_err t remove_args (n ∷ names) e why = sections_err t remove_args names e why

record Looped (t : Target) (e d : Entry) (sections : List Text) : Type 0 where
  pub run : All (RunsIn t d) sections
  pub kept : (m : Text) → RunsIn t e m → RunsIn t d m
  pub names : exec_sections d ≡ exec_sections e
  pub all_names : section_names d.sections ≡ section_names e.sections

behind_turn :
    (t : Target) (remove_args rest : List Text) (section : Text) (e : Entry)
    (r : Entry × Option ExecError) {d : Entry}
    → ((c : Entry) → rewrite_sections t remove_args rest (c, none) ≡ (d, none) → Looped t c d rest)
    → rewrite_section t remove_args e section ≡ r
    → rewrite_sections t remove_args rest r ≡ (d, none)
    → Looped t e d (section ∷ rest)
behind_turn t remove_args rest section e (c, some why) later turn h =
    cc (ap (λ r. r.1) (sym (sections_err t remove_args rest c why) ∙ h))
behind_turn t remove_args rest section e (c, none) later turn h =
    let a = rewrite_section-Turned t remove_args e section turn in
    let b = later c h in
    record {
      run = (b.kept section a.runs, b.run);
      kept = λ m before. b.kept m (a.kept m before);
      names = b.names ∙ a.names;
      all_names = b.all_names ∙ a.all_names;
    }

rewrite_sections-Looped :
    (t : Target) (remove_args sections : List Text) (e : Entry) {d : Entry}
    → rewrite_sections t remove_args sections (e, none) ≡ (d, none)
    → Looped t e d sections
rewrite_sections-Looped t remove_args [] e h =
    rw (sym (ap (λ r. r.0) h))
      (record { run = tt; kept = λ m before. before; names = refl; all_names = refl })
rewrite_sections-Looped t remove_args (section ∷ rest) e h =
    behind_turn t remove_args rest section e (rewrite_section t remove_args e section)
      (λ c. rewrite_sections-Looped t remove_args rest c) refl h

-- If no two sections of an entry have one name, and no `Exec` of it fails to be read: afterwards every
-- section that can launch something, the main one or that of an action, launches the app through psbox,
-- as far as it has an `Exec`.
pub rewrite-Runs :
    (e d : Entry) (t : Target) (remove_args : List Text)
    → IsDistinct e.sections
    → rewrite e t remove_args ≡ (d, none)
    → All (SectionRuns t) d.sections
unfolding rewrite
rewrite-Runs e d t remove_args distinct h =
    let l = rewrite_sections-Looped t remove_args (exec_sections e) e h in
    sections-All d exec_key (RunsIfAny t) (rw l.all_names distinct) (rw l.names l.run)
