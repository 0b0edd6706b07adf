-- ===== src/Desktop/Rewrite.antt =====
-- How src/desktop.rs makes an entry launch through psbox: `Target`, `rewrite`, `finish` and `hidden`.
pub mod Launches
pub mod Finished
use psbox.Common.{Option, none, some, List, [], ◌∷◌, ◌++◌, Result, ok, err}
use psbox.Common.Text.{Text, codes}
use psbox.Desktop.Exec.{ExecError, Launch, join_exec, launch_for}
use psbox.Desktop.Entry.{Entry, main, new, get, set, remove, actions, exec_sections}

-- The path of psbox is given as text.
pub record Target : Type 0 where
  pub psbox : Text
  pub sandbox : Text
  pub app : Text

abbrev pub exec_key : Text
exec_key = codes "Exec"

unfoldable pub command : Target → List Text
command t = t.psbox ∷ codes "run" ∷ t.sandbox ∷ codes "--app" ∷ t.app ∷ []

abbrev pub behind_dashes : List Text → List Text
behind_dashes [] = []
behind_dashes (a ∷ args) = codes "--" ∷ a ∷ args

unfoldable pub exec_value : Target → List Text → Text
unfolding command join_exec
exec_value t args = join_exec (command t ++ behind_dashes args)

unfoldable pub launched : Target → Launch → List Text
unfolding command
launched t (Launch.command args) = command t ++ codes "--" ∷ args
launched t (Launch.exec args) = command t ++ codes "--exec" ∷ codes "--" ∷ args

abbrev pub rewrite_with : Target → Text → Entry → Result ExecError Launch → Entry × Option ExecError
rewrite_with t section e (err why) = (e, some why)
rewrite_with t section e (ok launch) =
    (set e section exec_key (join_exec (launched t launch)), none)

abbrev pub rewrite_exec : Target → List Text → Text → Entry → Option Text → Entry × Option ExecError
rewrite_exec t remove_args section e none = (e, none)
rewrite_exec t remove_args section e (some value) =
    rewrite_with t section e (launch_for value remove_args)

-- One turn of the loop of `rewrite`, for a section.
unfoldable pub rewrite_section : Target → List Text → Entry → Text → Entry × Option ExecError
unfolding get set launch_for join_exec launched
rewrite_section t remove_args e section =
    rewrite_exec t remove_args section e (get e section exec_key)

-- An error leaves the sections behind it as they were.
abbrev pub next_section :
    Target → List Text → Entry × Option ExecError → Text → Entry × Option ExecError
next_section t remove_args (e, some why) section = (e, some why)
next_section t remove_args (e, none) section = rewrite_section t remove_args e section

abbrev pub rewrite_sections :
    Target → List Text → List Text → Entry × Option ExecError → Entry × Option ExecError
rewrite_sections t remove_args [] r = r
rewrite_sections t remove_args (section ∷ rest) r =
    rewrite_sections t remove_args rest (next_section t remove_args r section)

-- The entry afterwards, and an error if there was one.
unfoldable pub rewrite : Entry → Target → List Text → Entry × Option ExecError
unfolding exec_sections rewrite_section
rewrite e t remove_args = rewrite_sections t remove_args (exec_sections e) (e, none)

abbrev pub opened_args : Option Text → List Text
opened_args none = []
opened_args (some _) = codes "%U" ∷ []

abbrev pub with_exec : Target → Entry → Option Text → Entry
with_exec t e (some _) = e
with_exec t e none =
    set e main exec_key (exec_value t (opened_args (get e main (codes "MimeType"))))

abbrev pub drop_try_exec : List Text → Entry → Entry
drop_try_exec [] e = e
drop_try_exec (section ∷ rest) e = drop_try_exec rest (remove e section (codes "TryExec"))

-- `format!("{};", actions.join(";"))`
abbrev pub listed : List Text → Text
listed [] = []
listed (a ∷ rest) = a ++ b';' ∷ listed rest

abbrev pub with_actions : List Text → Entry → Entry
with_actions [] e = remove e main (codes "Actions")
with_actions (a ∷ names) e = set e main (codes "Actions") (listed (a ∷ names))

unfoldable pub finish : Entry → Target → Entry
unfolding get set remove actions exec_sections exec_value
finish e t =
    let e = with_exec t e (get e main exec_key) in
    let e = drop_try_exec (exec_sections e) e in
    let e = set e main (codes "Type") (codes "Application") in
    let e = remove e main (codes "Hidden") in
    let e = set e main (codes "DBusActivatable") (codes "false") in with_actions (actions e) e

unfoldable pub hidden : Text → Entry
unfolding set
hidden id =
    let e = set new main (codes "Type") (codes "Application") in
    let e = set e main (codes "Name") id in set e main (codes "Hidden") (codes "true")
