-- ===== src/Desktop/Exec.antt =====
-- The command lines of src/desktop.rs: the splitting and joining of an `Exec` value, and what it runs
-- in a sandbox.
pub mod Quoting
use psbox.Common.{
  ℕ, Bool, true, false, ◌&&◌, ◌||◌, not, List, [], ◌∷◌, ◌++◌, ◌==◌, length, if◌then◌else◌, Result,
  ok, err, ◌>>=◌,
}
use psbox.Common.Text.{Text, codes, eq, contains, has_prefix, among}

pub data ExecError : Type 0 where
  unterminated_escape unterminated_quote empty_exec : ExecError

-- Where `split_exec` stands: in its outer loop, in the loop between quotes, or behind a backslash there.
pub data Place : Type 0 where
  outside quoted escaped : Place

pub record Split : Type 0 where
  pub args : List Text
  pub cur : Text
  pub have : Bool
  pub place : Place

-- The characters that a backslash between quotes stands before.
unfoldable pub is_special : ℕ → Bool
is_special c = c == b'"' || c == b'`' || c == b'$' || c == b'\\'

abbrev pub next_outside : Split → ℕ → Split
next_outside s c =
    if c == b'"'
    then record s { have = true; place = quoted }
    else if c == b' ' || c == b'\t'
    then if s.have then record s { args = s.args ++ s.cur ∷ []; cur = []; have = false } else s
    else record s { cur = s.cur ++ c ∷ []; have = true }

abbrev pub next_quoted : Split → ℕ → Split
next_quoted s c =
    if c == b'"'
    then record s { place = outside }
    else if c == b'\\'
    then record s { place = escaped }
    else record s { cur = s.cur ++ c ∷ [] }

abbrev pub next_escaped : Split → ℕ → Split
next_escaped s c =
    if is_special c
    then record s { cur = s.cur ++ c ∷ []; place = quoted }
    else record s { cur = s.cur ++ b'\\' ∷ c ∷ []; place = quoted }

abbrev pub next_at : Place → Split → ℕ → Split
next_at outside s c = next_outside s c
next_at quoted s c = next_quoted s c
next_at escaped s c = next_escaped s c

unfoldable pub next_char : Split → ℕ → Split
unfolding is_special
next_char s c = next_at s.place s c

unfoldable pub split_from : Split → Text → Split
unfolding next_char
split_from s [] = s
split_from s (c ∷ cs) = split_from (next_char s c) cs

-- The end of the value.
abbrev pub split_end : Place → Split → Result ExecError (List Text)
split_end outside s = ok (if s.have then s.args ++ s.cur ∷ [] else s.args)
split_end quoted s = err unterminated_quote
split_end escaped s = err unterminated_escape

abbrev pub finished : Split → Result ExecError (List Text)
finished s = split_end s.place s

abbrev pub start : List Text → Split
start args = record { args = args; cur = []; have = false; place = outside }

unfoldable pub split_exec : Text → Result ExecError (List Text)
unfolding split_from
split_exec value = finished (split_from (start []) value)

-- " \t\n\"'\\><~|&;$*?#()`"
abbrev pub quoted_chars : Text
quoted_chars = b' ' ∷ b'\t' ∷ b'\n' ∷ b'"' ∷ b'\'' ∷ b'\\' ∷ codes "><~|&;$*?#()`"

abbrev pub any_quoted : Text → Bool
any_quoted [] = false
any_quoted (c ∷ cs) = contains c quoted_chars || any_quoted cs

unfoldable pub needs_quotes : Text → Bool
unfolding contains
needs_quotes [] = true
needs_quotes (c ∷ cs) = any_quoted (c ∷ cs)

abbrev pub in_quotes : Text → Text
in_quotes [] = b'"' ∷ []
in_quotes (c ∷ cs) = (if is_special c then b'\\' ∷ c ∷ [] else c ∷ []) ++ in_quotes cs

unfoldable pub quote_arg : Text → Text
unfolding needs_quotes is_special
quote_arg a = if needs_quotes a then b'"' ∷ in_quotes a else a

unfoldable pub join_exec : List Text → Text
unfolding quote_arg
join_exec [] = []
join_exec (a ∷ []) = quote_arg a
join_exec (a ∷ b ∷ args) = quote_arg a ++ b' ' ∷ join_exec (b ∷ args)

unfoldable pub is_field_code : Text → Bool
unfolding has_prefix
is_field_code arg = length arg == 2 && has_prefix (codes "%") arg

-- What an `Exec` value runs inside the sandbox.
pub data Launch : Type 0 where
  command exec : List Text → Launch

unfoldable pub keep : List Text → List Text → List Text
unfolding is_field_code among
keep remove_args [] = []
keep remove_args (a ∷ args) =
    if is_field_code a || not (among a remove_args)
    then a ∷ keep remove_args args
    else keep remove_args args

abbrev pub launch_of : List Text → List Text → Result ExecError Launch
launch_of remove_args [] = err empty_exec
launch_of remove_args (program ∷ args) =
    if eq program (codes "env") || contains b'/' program
    then ok (Launch.exec (keep remove_args (program ∷ args)))
    else ok (Launch.command (keep remove_args args))

unfoldable pub launch_for : Text → List Text → Result ExecError Launch
unfolding split_exec eq contains keep
launch_for value remove_args = split_exec value >>= launch_of remove_args
