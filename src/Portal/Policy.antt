-- ===== src/Portal/Policy.antt =====
-- The policy of src/portal.rs: `check` and what it is made of. The reason of a refusal is a
-- constructor with the parts of its text.
pub mod Reach
pub mod Listed
pub mod Files
pub mod Rewritten
pub mod Options
pub mod Dropped
pub mod PlainNames
pub mod Unidentified
use psbox.Common.{
  ℕ, zero, suc, ◌+◌, Bool, true, false, ◌&&◌, ◌||◌, not, Option, none, some, List, [], ◌∷◌, map,
  ◌==◌, leb, if◌then◌else◌, ok, err,
}
use psbox.Common.Text.{
  Text, codes, eq, has_prefix, among, or_default, split_once, contains, is_ascii_uppercase,
}
use psbox.Dbus.Signature.{Outcome, DecodeError, is_panic}
use psbox.Dbus.Value.{Value, Values, as_str, dict_get, dict_set, dict_remove}
use psbox.Dbus.Message.{Message, args}
use psbox.Portal.Names.{
  portal_name, portal_path, notifications_name, notifications_path, open_uri_iface, request_prefix,
  session_prefix, camera_iface, realtime_iface, screenshot_iface, screen_cast_iface,
  file_chooser_iface, properties_iface, introspectable_iface, methods, unidentified,
  notifications_methods, introspection,
}
use psbox.Portal.Arguments.{
  arg, update_arg, str_of, is_dict, first_str, bytes_of, strip_nul, plain_name, plain_bytes, plain,
  all_plain, plain_file_names, read_hints, forget_selection, forget_folder, plain_or_absent,
  files_plain,
}

pub record Policy : Type 0 where
  pub camera : Bool
  pub realtime : Bool
  pub uri_schemes : List Text

-- `Policy::default()`
abbrev pub default_policy : Policy
default_policy = record {
  camera = false;
  realtime = false;
  uri_schemes = codes "http" ∷ codes "https" ∷ codes "mailto" ∷ [];
}

pub data FileRequest : Type 0 where
  open_file save_file screenshot : FileRequest

pub data Reason : Type 0 where
  only_close_requests only_close_sessions interface_not_allowed object_not_allowed : Reason
  property_access malformed_arguments plain_names_only : Reason
  no_interface not_forwarded scheme_not_allowed : Text → Reason
  method_not_forwarded : Text → Text → Reason

pub data Verdict : Type 0 where
  forward : Option Values → Option FileRequest → Verdict
  deny : Reason → Verdict
  missing : Reason → Verdict
  introspect : Verdict
  panics : Verdict

abbrev pub plainly : Verdict
plainly = Verdict.forward none none

unfoldable pub lookup : Text → List (Text × List Text) → Option (List Text)
unfolding eq
lookup iface [] = none
lookup iface ((name, listed) ∷ rest) = if eq iface name then some listed else lookup iface rest

unfoldable pub gated : Policy → Text → Bool
unfolding eq
gated policy iface =
    if eq iface camera_iface
    then policy.camera
    else if eq iface realtime_iface
    then policy.realtime
    else true

unfoldable pub portal_methods : Policy → Bool → Text → Option (List Text)
unfolding lookup gated methods unidentified
portal_methods policy identified iface =
    if gated policy iface then lookup iface (if identified then methods else unidentified) else none

-- What a body that cannot be read is answered with, unless the reading panics.
abbrev pub unread : DecodeError → Reason → Verdict
unread e why = if is_panic e then Verdict.panics else Verdict.deny why

abbrev pub strip_hints : Outcome Values → Verdict
strip_hints (err e) = unread e malformed_arguments
strip_hints (ok args) = Verdict.forward (some (update_arg 6 read_hints args)) none

unfoldable pub strip_notify_paths : Message → Verdict
unfolding update_arg dict_remove
strip_notify_paths msg = strip_hints (args msg)

abbrev pub to_ascii_lowercase : ℕ → ℕ
to_ascii_lowercase c = if is_ascii_uppercase c then c + 32 else c

abbrev scheme_of : Option (Text × Text) → Text
scheme_of none = []
scheme_of (some (scheme, _)) = map to_ascii_lowercase scheme

unfoldable pub uri_scheme : Values → Text
unfolding arg split_once is_ascii_uppercase
uri_scheme args = scheme_of (split_once b':' (or_default (str_of (arg 1 args))))

unfoldable pub open_uri : Policy → Values → Verdict
unfolding uri_scheme among
open_uri policy args =
    if among (uri_scheme args) policy.uri_schemes
    then plainly
    else Verdict.deny (scheme_not_allowed (uri_scheme args))

-- The arms that set a flag in the options, the argument `i` of a call with the signature `sig`.
unfoldable pub forced : Message → Values → ℕ → Text → Text → Option FileRequest → Verdict
unfolding arg update_arg dict_set eq
forced msg args i sig flag file =
    if is_dict (arg i args) && eq msg.signature sig
    then Verdict.forward (some (update_arg i (λ opts. dict_set opts flag (Value.bool true)) args))
        file
    else Verdict.deny malformed_arguments

unfoldable pub choose_file : Values → FileRequest → Verdict
unfolding arg update_arg dict_remove dict_get plain_file_names
choose_file args file =
    let args = update_arg 2 forget_folder args in
    if files_plain (arg 2 args)
    then Verdict.forward (some args) (some file)
    else Verdict.deny plain_names_only

-- The `match (iface, member)` at the end of `check_portal`.
unfoldable pub check_arguments : Policy → Message → Text → Text → Values → Verdict
unfolding eq open_uri forced update_arg dict_remove choose_file
check_arguments policy msg iface member args =
    if eq iface open_uri_iface && eq member (codes "OpenURI")
    then open_uri policy args
    else if eq iface screenshot_iface && eq member (codes "Screenshot")
    then forced msg args 1 (codes "sa{sv}") (codes "interactive") (some screenshot)
    else if eq iface open_uri_iface && eq member (codes "OpenFile")
    then forced msg args 2 (codes "sha{sv}") (codes "ask") none
    else if eq iface screen_cast_iface && eq member (codes "SelectSources")
    then Verdict.forward (some (update_arg 1 forget_selection args)) none
    else if eq iface realtime_iface
    then if eq member (codes "MakeThreadRealtimeWithPID") && eq msg.signature (codes "ttu")
      then plainly
      else if eq member (codes "MakeThreadHighPriorityWithPID") && eq msg.signature (codes "tti")
      then plainly
      else Verdict.deny malformed_arguments
    else if eq iface file_chooser_iface && eq member (codes "OpenFile")
    then choose_file args open_file
    else if eq iface file_chooser_iface
        && (eq member (codes "SaveFile") || eq member (codes "SaveFiles"))
    then choose_file args save_file
    else plainly

abbrev pub get_or_get_all : Text → Bool
get_or_get_all member = eq member (codes "Get") || eq member (codes "GetAll")

abbrev property_of : Bool → Text → Option (List Text) → Verdict
property_of identified target (some listed) = plainly
property_of true target none = Verdict.deny property_access
property_of false target none = Verdict.missing (no_interface target)

abbrev check_target : Policy → Bool → Option Text → Verdict
check_target policy identified none = Verdict.deny property_access
check_target policy identified (some target) =
    property_of identified target (portal_methods policy identified target)

abbrev with_target : Policy → Bool → Text → Outcome Values → Verdict
with_target policy identified member (err e) = unread e property_access
with_target policy identified member (ok args) =
    if get_or_get_all member
    then check_target policy identified (str_of (arg 0 args))
    else Verdict.deny property_access

unfoldable pub check_property : Policy → Bool → Message → Text → Verdict
unfolding arg portal_methods eq
check_property policy identified msg member = with_target policy identified member (args msg)

abbrev with_arguments : Policy → Message → Text → Text → Outcome Values → Verdict
with_arguments policy msg iface member (err e) = unread e malformed_arguments
with_arguments policy msg iface member (ok args) = check_arguments policy msg iface member args

abbrev check_listed : Policy → Bool → Message → Text → Text → Option (List Text) → Verdict
check_listed policy true msg iface member none = Verdict.deny (not_forwarded iface)
check_listed policy false msg iface member none = Verdict.missing (no_interface iface)
check_listed policy identified msg iface member (some listed) =
    if among member listed
    then with_arguments policy msg iface member (args msg)
    else Verdict.deny (method_not_forwarded iface member)

unfoldable pub check_portal : Policy → Bool → Message → Text → Text → Verdict
unfolding eq introspection check_property portal_methods among check_arguments
check_portal policy identified msg iface member =
    if eq iface introspectable_iface && not identified
    then Verdict.introspect
    else if introspection iface
    then plainly
    else if eq iface properties_iface
    then check_property policy identified msg member
    else check_listed policy identified msg iface member (portal_methods policy identified iface)

unfoldable pub check_request : Text → Text → Verdict
unfolding eq
check_request iface member =
    if eq iface (codes "org.freedesktop.portal.Request") && eq member (codes "Close")
    then plainly
    else Verdict.deny only_close_requests

unfoldable pub check_session : Text → Text → Verdict
unfolding eq
check_session iface member =
    if eq iface (codes "org.freedesktop.portal.Session") && eq member (codes "Close")
    then plainly
    else if eq iface properties_iface && get_or_get_all member
    then plainly
    else Verdict.deny only_close_sessions

unfoldable pub check_notification : Message → Text → Text → Verdict
unfolding eq among strip_notify_paths introspection
check_notification msg iface member =
    if eq iface notifications_name && eq member (codes "Notify")
    then strip_notify_paths msg
    else if eq iface notifications_name && among member notifications_methods
    then plainly
    else if eq iface properties_iface && get_or_get_all member
    then plainly
    else if introspection iface
    then plainly
    else Verdict.deny interface_not_allowed

unfoldable pub check : Policy → Bool → Message → Verdict
unfolding eq has_prefix check_portal check_request check_session check_notification
check policy identified msg =
    let dest = or_default msg.destination in
    let path = or_default msg.path in
    let iface = or_default msg.interface in
    let member = or_default msg.member in
    if eq dest portal_name && eq path portal_path
    then check_portal policy identified msg iface member
    else if eq dest portal_name && has_prefix request_prefix path
    then check_request iface member
    else if eq dest portal_name && has_prefix session_prefix path
    then check_session iface member
    else if eq dest notifications_name && eq path notifications_path
    then check_notification msg iface member
    else Verdict.deny object_not_allowed
