-- ===== src/Desktop/Tests.antt =====
-- Runs of the functions of src/desktop.rs, with the entry of its own tests.
use psbox.Common.{Option, ◌≡◌, refl, true, none, some, List, [], ◌∷◌, All, ok, err}
use psbox.Common.Text.{Text, codes, eq, among}
use psbox.Desktop.Exec.{
  Launch, split_exec, join_exec, launch_for, unterminated_quote, unterminated_escape,
}
use psbox.Desktop.Exec.Quoting.{split_exec-join_exec}
use psbox.Desktop.Entry.{
  Section, Line, other, key, Entry, main, get, set, remove_all, has_section, add_section,
  remove_section, actions,
}
use psbox.Desktop.Rewrite.{Target, rewrite, finish, hidden}
use psbox.Desktop.Rewrite.Launches.{SectionRuns, rewrite-Runs}
use psbox.Desktop.Rewrite.Finished.{IsFinished, finish-IsFinished}

abbrev line : Text → Text → Line
line k v = key k v

abbrev firefox : Entry
firefox = record {
  preamble = codes "# vendor comment" ∷ [];
  sections =
      record {
        name = main;
        lines =
            line (codes "Name") (codes "Firefox")
            ∷ line (codes "Exec") (codes "firefox %u")
            ∷ line (codes "TryExec") (codes "firefox")
            ∷ line (codes "DBusActivatable") (codes "true")
            ∷ other []
            ∷ [];
      }
      ∷ record {
        name = codes "Desktop Action new-window";
        lines =
            line (codes "Name") (codes "New Window")
            ∷ line (codes "Exec") (codes "/opt/firefox --new-window %u")
            ∷ [];
      }
      ∷ [];
}

abbrev find_last : List Section → Option Section
find_last [] = none
find_last (s ∷ []) = some s
find_last (_ ∷ s ∷ ss) = find_last (s ∷ ss)

abbrev target : Target
target = record { psbox = codes "/usr/bin/psbox"; sandbox = codes "web"; app = codes "firefox" }

abbrev words : List Text
words = codes "a b" ∷ codes "$HOME" ∷ codes "plain" ∷ [] ∷ []

joined : join_exec words ≡ codes "\"a b\" \"\\$HOME\" plain \"\""
unfolding join_exec
joined = refl

split_exec-join_exec_example : split_exec (join_exec words) ≡ ok words
split_exec-join_exec_example = split_exec-join_exec words

open_quote :
    (split_exec (codes "\"open") ≡ err unterminated_quote)
    × (split_exec (codes "\"\\") ≡ err unterminated_escape)
unfolding split_exec
open_quote = (refl, refl)

launches :
    (launch_for (codes "env FOO=\"a b\" /opt/app/run --detach %F") (codes "--detach" ∷ [])
      ≡ ok (Launch.exec (codes "env" ∷ codes "FOO=a b" ∷ codes "/opt/app/run" ∷ codes "%F" ∷ [])))
    × (launch_for (codes "app %u") (codes "%u" ∷ []) ≡ ok (Launch.command (codes "%u" ∷ [])))
unfolding launch_for
launches = (refl, refl)

-- The lines that a key is set in: duplicates go, and a new key stands before trailing blank lines.
set_twice :
    let e =
      set
        (set
          (record {
            preamble = [];
            sections =
                record {
                  name = main;
                  lines =
                      line (codes "Name") (codes "A")
                      ∷ line (codes "Name") (codes "B")
                      ∷ other []
                      ∷ [];
                }
                ∷ [];
          })
          main
          (codes "Name")
          (codes "C"))
        main
        (codes "StartupWMClass")
        (codes "c") in
    e.sections
    ≡ record {
      name = main;
      lines =
          line (codes "Name") (codes "C")
          ∷ line (codes "StartupWMClass") (codes "c")
          ∷ other []
          ∷ [];
    }
      ∷ []
unfolding set
set_twice = refl

translations :
    let e =
      set (set firefox main (codes "Name[de]") (codes "B")) main (codes "NameX") (codes "C") in
    let e = remove_all e main (codes "Name") in
    (get e main (codes "Name") ≡ none)
    × (get e main (codes "Name[de]") ≡ none)
    × (get e main (codes "NameX") ≡ some (codes "C"))
unfolding set get remove_all
translations = (refl, refl, refl)

action_sections :
    let e =
      remove_section
        (add_section firefox (codes "Desktop Action y"))
        (codes "Desktop Action new-window") in
    (actions e ≡ codes "y" ∷ []) × (has_section e main ≡ true)
unfolding add_section remove_section actions has_section
action_sections = (refl, refl)

abbrev rewritten : Entry
unfolding rewrite
rewritten = (rewrite firefox target []).0

rewrites :
    (get rewritten main (codes "Exec") ≡ some (codes "/usr/bin/psbox run web --app firefox -- %u"))
    × (get rewritten (codes "Desktop Action new-window") (codes "Exec")
        ≡ some
            (codes "/usr/bin/psbox run web --app firefox --exec -- /opt/firefox --new-window %u"))
unfolding rewrite get
rewrites = (refl, refl)

rewrite-Runs_example : All (SectionRuns target) rewritten.sections
unfolding rewrite eq among
rewrite-Runs_example = rewrite-Runs firefox rewritten target [] refl refl

finish-IsFinished_example : IsFinished target firefox (finish firefox target)
unfolding has_section eq among
finish-IsFinished_example = finish-IsFinished firefox target refl refl

-- With two sections of one name, only the first is reached.
abbrev twice : Entry
twice = record {
  preamble = [];
  sections =
      record { name = main; lines = [] }
      ∷ record {
        name = main;
        lines = line (codes "Exec") (codes "app") ∷ line (codes "TryExec") (codes "app") ∷ [];
      }
      ∷ [];
}

reaches_the_first :
    (rewrite twice target [] ≡ (twice, none))
    × (find_last (finish twice target).sections ≡ find_last twice.sections)
unfolding rewrite finish eq
reaches_the_first = (refl, refl)

hides :
    (get (hidden (codes "a.desktop")) main (codes "Hidden") ≡ some (codes "true"))
    × (get (hidden (codes "a.desktop")) main (codes "Name") ≡ some (codes "a.desktop"))
unfolding hidden get
hides = (refl, refl)
