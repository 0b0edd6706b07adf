-- ===== src/Portal/Paths.antt =====
-- The paths of requests and sessions of src/portal.rs, which name their caller.
pub mod Swapping
pub mod Escaping
use psbox.Common.{
  ℕ, Bool, true, false, ◌||◌, not, Option, none, some, List, [], ◌∷◌, ◌++◌, map, ◌==◌,
  if◌then◌else◌, ok, err,
}
use psbox.Common.Text.{Text, eq, strip_prefix, split_once, contains}
use psbox.Dbus.Signature.{is_panic, Outcome}
use psbox.Dbus.Value.{Value, Values, Entries, map_paths_all}
use psbox.Dbus.Message.{Message, args, set_body}
use psbox.Portal.Names.{request_prefix, session_prefix}

-- `name.trim_start_matches(':')`
unfoldable pub trim_colons : Text → Text
trim_colons [] = []
trim_colons (c ∷ s) = if c == b':' then trim_colons s else c ∷ s

abbrev pub dot_to_underscore : ℕ → ℕ
dot_to_underscore c = if c == b'.' then b'_' else c

unfoldable pub escape_unique : Text → Text
unfolding trim_colons
escape_unique name = map dot_to_underscore (trim_colons name)

-- `rest.split_once('/').unwrap_or((rest, ""))`
abbrev pub segment : Text → Option (Text × Text) → Text × Text
segment rest none = (rest, [])
segment rest (some (seg, tail)) = (seg, tail)

abbrev pub rejoin : Text → Text → Text → Text
rejoin prefix to [] = prefix ++ to
rejoin prefix to (c ∷ tail) = prefix ++ (to ++ b'/' ∷ c ∷ tail)

-- One turn of the loop over the two prefixes.
abbrev pub swap_under : Text → Option Text → Text → Text → Option Text
swap_under prefix none from to = none
swap_under prefix (some rest) from to =
    let (seg, tail) = segment rest (split_once b'/' rest) in
    if eq seg from then some (rejoin prefix to tail) else none

abbrev pub or_else : Option Text → Option Text → Option Text
or_else none other = other
or_else (some p) other = some p

unfoldable pub swap_sender : Text → Text → Text → Option Text
unfolding strip_prefix split_once eq
swap_sender path from to =
    or_else (swap_under request_prefix (strip_prefix request_prefix path) from to)
      (swap_under session_prefix (strip_prefix session_prefix path) from to)

abbrev is_some : Option Text → Bool
is_some none = false
is_some (some _) = true

-- What `changed` is at the end.
unfoldable mutual
  pub any_path : (Text → Option Text) → Value → Bool
  any_path f (Value.path p) = is_some (f p)
  any_path f (Value.array elem items) = any_path_in f items
  any_path f (Value.struct fields) = any_path_in f fields
  any_path f (Value.dict k v entries) = any_path_of f entries
  any_path f (Value.variant inner) = any_path f inner
  any_path f other = false

  pub any_path_in : (Text → Option Text) → Values → Bool
  any_path_in f Values.nothing = false
  any_path_in f (Values.item v vs) = any_path f v || any_path_in f vs

  pub any_path_of : (Text → Option Text) → Entries → Bool
  any_path_of f Entries.no_pair = false
  any_path_of f (Entries.pair k v rest) = any_path f k || any_path f v || any_path_of f rest

abbrev swap_header : Option Text → Text → Text → Option Text
swap_header none from to = none
swap_header (some p) from to = elim (swap_sender p from to) [ none ↦ some p | some q ↦ some q ]

abbrev pub rewrite_args : Message → (Text → Option Text) → Outcome Values → Outcome Message
rewrite_args m f (err e) = if is_panic e then err e else ok m
rewrite_args m f (ok args) = if any_path_in f args then set_body m (map_paths_all f args) else ok m

unfoldable pub rewrite_paths : Message → Text → Text → Outcome Message
unfolding swap_sender contains any_path_in set_body map_paths_all
rewrite_paths msg from to =
    let msg = record msg { path = swap_header msg.path from to } in
    if not (contains b'o' msg.signature || contains b'v' msg.signature)
    then ok msg
    else rewrite_args msg (λ p. swap_sender p from to) (args msg)
