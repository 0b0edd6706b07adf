-- ===== src/Portal/Policy/Rewritten.antt =====
-- The arguments that `check` of src/portal.rs puts in place, and the writing of them.
use psbox.Common.{
  ◌≡◌, false, ℕ, zero, suc, Bool, true, false, ◌&&◌, ◌||◌, not, Option, none, some, List,
  if◌then◌else◌, ok, err,
}
use psbox.Common.Text.{Text, codes, eq, has_prefix, among, or_default}
use psbox.Dbus.Signature.{Outcome, DecodeError, is_panic}
use psbox.Dbus.Signature.NoPanic.{NoPanic}
use psbox.Dbus.NoPanic.Values.{decode_body-NoPanic}
use psbox.Dbus.Value.{Value, Values}
use psbox.Dbus.Message.{Message, args}
use psbox.Dbus.Writable.{Writable, AllWritable, dict_set-Writable, dict_remove-Writable}
use psbox.Dbus.Writable.Decoded.{Gives, decode_body-Writable}
use psbox.Portal.Names.{
  portal_name, portal_path, notifications_name, notifications_path, open_uri_iface, request_prefix,
  session_prefix, screenshot_iface, screen_cast_iface, realtime_iface, file_chooser_iface,
  properties_iface, introspectable_iface, notifications_methods, introspection,
}
use psbox.Portal.Arguments.{
  str_of, arg, update_arg, is_dict, forget_selection, forget_folder, read_hints, files_plain,
}
use psbox.Portal.Policy.{
  unread, with_target, Reason, property_access, Policy, FileRequest, Verdict, plainly,
  malformed_arguments, screenshot, open_file, save_file, uri_scheme, open_uri, forced, choose_file,
  check_arguments, get_or_get_all, property_of, check_target, check_property, with_arguments,
  portal_methods, check_listed, check_portal, check_request, check_session, check_notification,
  strip_notify_paths, strip_hints, check,
}
use psbox.Portal.Policy.Options.{flagged}

-- The arguments of a verdict can be written.
abbrev pub Sendable : Verdict → Type 0
Sendable (Verdict.forward (some vs) file) = AllWritable vs
Sendable Verdict.panics = ⊥
Sendable _ = Unit

unread-Sendable : (e : DecodeError) (why : Reason) → is_panic e ≡ false → Sendable (unread e why)
unread-Sendable e why calm = rw calm tt

if-Sendable :
    (test : Bool) (x y : Verdict) → Sendable x → Sendable y → Sendable (if test then x else y)
if-Sendable true x y hx hy = hx
if-Sendable false x y hx hy = hy

update_arg-Writable :
    (i : ℕ) (f : Value → Value) (vs : Values)
    → ((v : Value) → Writable v → Writable (f v))
    → AllWritable vs
    → AllWritable (update_arg i f vs)
unfolding update_arg Writable
update_arg-Writable i f Values.nothing h w = tt
update_arg-Writable zero f (Values.item v vs) h w = (h v w.0, w.1)
update_arg-Writable (suc i) f (Values.item v vs) h w = (w.0, update_arg-Writable i f vs h w.1)

flagged-Writable : (flag : Text) (v : Value) → Writable v → Writable (flagged flag v)
unfolding Writable
flagged-Writable flag v w = dict_set-Writable v flag (Value.bool true) tt w

forced-Sendable :
    (msg : Message) (vs : Values) (i : ℕ) (sig flag : Text) (file : Option FileRequest)
    → AllWritable vs
    → Sendable (forced msg vs i sig flag file)
unfolding forced
forced-Sendable msg vs i sig flag file w =
    if-Sendable (is_dict (arg i vs) && eq msg.signature sig) _ _
      (update_arg-Writable i (flagged flag) vs (flagged-Writable flag) w) tt

forget_folder-Writable : (v : Value) → Writable v → Writable (forget_folder v)
forget_folder-Writable v w =
    dict_remove-Writable _ (codes "current_file")
      (dict_remove-Writable v (codes "current_folder") w)

forget_selection-Writable : (v : Value) → Writable v → Writable (forget_selection v)
forget_selection-Writable v w =
    dict_remove-Writable _ (codes "restore_token") (dict_remove-Writable v (codes "persist_mode") w)

read_hints-Writable : (v : Value) → Writable v → Writable (read_hints v)
read_hints-Writable v w =
    dict_remove-Writable _ (codes "sound-file")
      (dict_remove-Writable _ (codes "image_path") (dict_remove-Writable v (codes "image-path") w))

choose_file-Sendable :
    (vs : Values) (file : FileRequest) → AllWritable vs → Sendable (choose_file vs file)
unfolding choose_file
choose_file-Sendable vs file w =
    if-Sendable (files_plain (arg 2 (update_arg 2 forget_folder vs))) _ _
      (update_arg-Writable 2 forget_folder vs forget_folder-Writable w) tt

open_uri-Sendable : (policy : Policy) (vs : Values) → Sendable (open_uri policy vs)
unfolding open_uri
open_uri-Sendable policy vs = if-Sendable (among (uri_scheme vs) policy.uri_schemes) _ _ tt tt

plainly-Sendable : (test : Bool) (y : Verdict) → Sendable y → Sendable (if test then plainly else y)
plainly-Sendable test y h = if-Sendable test plainly y tt h

-- The arms of the realtime interface.
realtime-Sendable :
    (msg : Message) (member : Text)
    → Sendable (
        if eq member (codes "MakeThreadRealtimeWithPID") && eq msg.signature (codes "ttu")
        then plainly
        else if eq member (codes "MakeThreadHighPriorityWithPID") && eq msg.signature (codes "tti")
        then plainly
        else Verdict.deny malformed_arguments)
realtime-Sendable msg member =
    plainly-Sendable
      (eq member (codes "MakeThreadRealtimeWithPID") && eq msg.signature (codes "ttu")) _
      (plainly-Sendable
        (eq member (codes "MakeThreadHighPriorityWithPID") && eq msg.signature (codes "tti")) _ tt)

check_arguments-Sendable :
    (policy : Policy) (msg : Message) (iface member : Text) (vs : Values)
    → AllWritable vs
    → Sendable (check_arguments policy msg iface member vs)
unfolding check_arguments
check_arguments-Sendable policy msg iface member vs w =
    if-Sendable (eq iface open_uri_iface && eq member (codes "OpenURI")) _ _
      (open_uri-Sendable policy vs)
      (if-Sendable (eq iface screenshot_iface && eq member (codes "Screenshot")) _ _
        (forced-Sendable msg vs 1 (codes "sa{sv}") (codes "interactive") (some screenshot) w)
        (if-Sendable (eq iface open_uri_iface && eq member (codes "OpenFile")) _ _
          (forced-Sendable msg vs 2 (codes "sha{sv}") (codes "ask") none w)
          (if-Sendable (eq iface screen_cast_iface && eq member (codes "SelectSources")) _ _
            (update_arg-Writable 1 forget_selection vs forget_selection-Writable w)
            (if-Sendable (eq iface realtime_iface) _ _ (realtime-Sendable msg member) (
              if-Sendable (eq iface file_chooser_iface && eq member (codes "OpenFile")) _ _
                (choose_file-Sendable vs open_file w)
                (if-Sendable
                  (eq iface file_chooser_iface
                    && (eq member (codes "SaveFile") || eq member (codes "SaveFiles")))
                  _ _ (choose_file-Sendable vs save_file w) tt))))))

with_arguments-Sendable :
    (policy : Policy) (msg : Message) (iface member : Text) (read : Outcome Values)
    → Gives AllWritable read
    → NoPanic read
    → Sendable (with_arguments policy msg iface member read)
with_arguments-Sendable policy msg iface member (err e) w n =
    unread-Sendable e malformed_arguments n.calm
with_arguments-Sendable policy msg iface member (ok vs) w n =
    check_arguments-Sendable policy msg iface member vs w

pub args-Writable : (msg : Message) → Gives AllWritable (args msg)
unfolding args
args-Writable msg = decode_body-Writable msg.signature msg.body false

pub args-NoPanic : (msg : Message) → NoPanic (args msg)
unfolding args
args-NoPanic msg = decode_body-NoPanic msg.signature msg.body false

check_listed-Sendable :
    (policy : Policy) (identified : Bool) (msg : Message) (iface member : Text)
    (offered : Option (List Text))
    → Sendable (check_listed policy identified msg iface member offered)
check_listed-Sendable policy true msg iface member none = tt
check_listed-Sendable policy false msg iface member none = tt
check_listed-Sendable policy true msg iface member (some listed) =
    if-Sendable (among member listed) _ _
      (with_arguments-Sendable policy msg iface member (args msg) (args-Writable msg)
        (args-NoPanic msg))
      tt
check_listed-Sendable policy false msg iface member (some listed) =
    if-Sendable (among member listed) _ _
      (with_arguments-Sendable policy msg iface member (args msg) (args-Writable msg)
        (args-NoPanic msg))
      tt

property_of-Sendable :
    (identified : Bool) (target : Text) (offered : Option (List Text))
    → Sendable (property_of identified target offered)
property_of-Sendable true target (some listed) = tt
property_of-Sendable false target (some listed) = tt
property_of-Sendable true target none = tt
property_of-Sendable false target none = tt

check_target-Sendable :
    (policy : Policy) (identified : Bool) (asked : Option Text)
    → Sendable (check_target policy identified asked)
check_target-Sendable policy identified none = tt
check_target-Sendable policy identified (some target) =
    property_of-Sendable identified target (portal_methods policy identified target)

with_target-Sendable :
    (policy : Policy) (identified : Bool) (member : Text) (read : Outcome Values)
    → NoPanic read
    → Sendable (with_target policy identified member read)
with_target-Sendable policy identified member (err e) n = unread-Sendable e property_access n.calm
with_target-Sendable policy identified member (ok vs) n =
    if-Sendable (get_or_get_all member) _ _
      (check_target-Sendable policy identified (str_of (arg 0 vs))) tt

check_portal-Sendable :
    (policy : Policy) (identified : Bool) (msg : Message) (iface member : Text)
    → Sendable (check_portal policy identified msg iface member)
unfolding check_portal check_property
check_portal-Sendable policy identified msg iface member =
    if-Sendable (eq iface introspectable_iface && not identified) _ _ tt (
      if-Sendable (introspection iface) _ _ tt (
        if-Sendable (eq iface properties_iface) _ _
          (with_target-Sendable policy identified member (args msg) (args-NoPanic msg))
          (check_listed-Sendable policy identified msg iface member
            (portal_methods policy identified iface))))

strip_hints-Sendable :
    (read : Outcome Values) → Gives AllWritable read → NoPanic read → Sendable (strip_hints read)
strip_hints-Sendable (err e) w n = unread-Sendable e malformed_arguments n.calm
strip_hints-Sendable (ok vs) w n = update_arg-Writable 6 read_hints vs read_hints-Writable w

check_notification-Sendable :
    (msg : Message) (iface member : Text) → Sendable (check_notification msg iface member)
unfolding check_notification strip_notify_paths
check_notification-Sendable msg iface member =
    if-Sendable (eq iface notifications_name && eq member (codes "Notify")) _ _
      (strip_hints-Sendable (args msg) (args-Writable msg) (args-NoPanic msg))
      (plainly-Sendable (eq iface notifications_name && among member notifications_methods) _ (
        plainly-Sendable (eq iface properties_iface && get_or_get_all member) _
          (plainly-Sendable (introspection iface) _ tt)))

check_request-Sendable : (iface member : Text) → Sendable (check_request iface member)
unfolding check_request
check_request-Sendable iface member =
    plainly-Sendable
      (eq iface (codes "org.freedesktop.portal.Request") && eq member (codes "Close")) _ tt

check_session-Sendable : (iface member : Text) → Sendable (check_session iface member)
unfolding check_session
check_session-Sendable iface member =
    plainly-Sendable
      (eq iface (codes "org.freedesktop.portal.Session") && eq member (codes "Close")) _
      (plainly-Sendable (eq iface properties_iface && get_or_get_all member) _ tt)

pub check-Sendable :
    (policy : Policy) (identified : Bool) (msg : Message) → Sendable (check policy identified msg)
unfolding check
check-Sendable policy identified msg =
    let dest = or_default msg.destination in
    let path = or_default msg.path in
    let iface = or_default msg.interface in
    let member = or_default msg.member in
    if-Sendable (eq dest portal_name && eq path portal_path) _ _
      (check_portal-Sendable policy identified msg iface member)
      (if-Sendable (eq dest portal_name && has_prefix request_prefix path) _ _
        (check_request-Sendable iface member)
        (if-Sendable (eq dest portal_name && has_prefix session_prefix path) _ _
          (check_session-Sendable iface member)
          (if-Sendable (eq dest notifications_name && eq path notifications_path) _ _
            (check_notification-Sendable msg iface member) tt)))
