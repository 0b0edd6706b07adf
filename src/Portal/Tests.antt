-- ===== src/Portal/Tests.antt =====
-- src/portal.rs at concrete calls, paths and URIs.
use psbox.Common.{
  ℕ, ◌≡◌, ◌≢◌, refl, ◌↔◌, inl, Bool, true, false, Option, none, some, List, [], ◌∷◌, ◌++◌,
  replicate, arith,
}
use psbox.Common.Text.{Text, codes, contains, all, among, eq, is_ascii_digit}
use psbox.Common.Utf8.{is_utf8}
use psbox.Common.Words.{of_le_bytes}
use psbox.Dbus.Signature.{alignment_of, is_basic}
use psbox.Dbus.Value.{Value, Values, Entries}
use psbox.Dbus.Message.{Message, default, args}
use psbox.Portal.Names.{
  portal_name, portal_path, open_uri_iface, screenshot_iface, file_chooser_iface, request_prefix,
  service_for, activation_allowed, signal_forwarded,
}
use psbox.Portal.Services.{service_for-check}
use psbox.Portal.Arguments.{first_str, plain_file_names, arg}
use psbox.Portal.Policy.{
  FileRequest, open_file, default_policy, screenshot, Verdict, object_not_allowed, not_forwarded,
  method_not_forwarded, no_interface, scheme_not_allowed, plainly, check,
}
use psbox.Portal.Policy.Reach.{Reaches}
use psbox.Portal.Policy.Listed.{check-Reaches}
use psbox.Portal.Policy.Unidentified.{check-unidentified}
use psbox.Portal.Policy.Options.{option_of, Asks, check-Asks}
use psbox.Portal.Policy.Dropped.{Drops, check-Drops}
use psbox.Portal.Policy.PlainNames.{PlainFiles, check-PlainFiles}
use psbox.Portal.Paths.{rejoin, escape_unique, swap_sender}
use psbox.Portal.Paths.Swapping.{Owned, swap_sender_lem, swap_sender-swap_sender}
use psbox.Portal.Paths.Escaping.{escape_unique-injective}
use psbox.Portal.Uri.{uri_to_path, path_to_uri}
use psbox.Portal.Uri.Decoded.{uri_to_path-path_to_uri}

abbrev call : Text → Text → Text → Text → Text → List ℕ → Message
call dest path iface member signature body = record default {
  kind = 1;
  destination = some dest;
  path = some path;
  interface = some iface;
  member = some member;
  signature = signature;
  body = body;
}

abbrev read_setting : Message
read_setting =
    call portal_name portal_path (codes "org.freedesktop.portal.Settings") (codes "ReadOne") [] []

-- As in the tests of the source: what is not listed is refused, and the camera wants the policy.
refuses :
    (check default_policy true
        (call portal_name portal_path open_uri_iface (codes "OpenEverything") [] [])
      ≡ Verdict.deny (method_not_forwarded open_uri_iface (codes "OpenEverything")))
    × (check default_policy true
          (call portal_name portal_path (codes "org.freedesktop.portal.Usb") (codes "Any") [] [])
        ≡ Verdict.deny (not_forwarded (codes "org.freedesktop.portal.Usb")))
    × (check default_policy true (
          call portal_name portal_path
            (codes "org.freedesktop.portal.Camera")
            (codes "AccessCamera")
            []
            [])
        ≡ Verdict.deny (not_forwarded (codes "org.freedesktop.portal.Camera")))
    × (check
          (record default_policy { camera = true })
          true
          (call portal_name portal_path
            (codes "org.freedesktop.portal.Camera")
            (codes "AccessCamera")
            []
            [])
        ≡ plainly)
    × (check default_policy false
          (call portal_name portal_path file_chooser_iface (codes "OpenFile") [] [])
        ≡ Verdict.missing (no_interface file_chooser_iface))
unfolding check args
refuses = (refl, refl, refl, refl, refl)

forwards : (identified : Bool) → check default_policy identified read_setting ≡ plainly
unfolding check args
forwards true = refl
forwards false = refl

-- OpenURI("", "MAILTO:x", {}) and OpenURI("", "file:x", {})
opens :
    (check default_policy false (
        call portal_name portal_path open_uri_iface
          (codes "OpenURI")
          (codes "ss")
          (replicate 8 0 ++ (8 ∷ 0 ∷ 0 ∷ 0 ∷ codes "MAILTO:x") ++ 0 ∷ []))
      ≡ plainly)
    × (check default_policy false (
          call portal_name portal_path open_uri_iface
            (codes "OpenURI")
            (codes "ss")
            (replicate 8 0 ++ (6 ∷ 0 ∷ 0 ∷ 0 ∷ codes "file:x") ++ 0 ∷ []))
        ≡ Verdict.deny (scheme_not_allowed (codes "file")))
unfolding check args alignment_of is_utf8 of_le_bytes is_basic
opens = (refl, refl)

check-Reaches_example :
    Reaches default_policy true
      (first_str (args read_setting))
      portal_name
      portal_path
      (codes "org.freedesktop.portal.Settings")
      (codes "ReadOne")
check-Reaches_example = check-Reaches default_policy true read_setting none none (forwards true)

check-unidentified_example :
    (check default_policy true read_setting ≡ plainly) × (◌≡◌ {A = Option FileRequest} none none)
check-unidentified_example = check-unidentified default_policy read_setting (forwards false)

abbrev take_screenshot : Message
take_screenshot =
    call portal_name portal_path screenshot_iface (codes "Screenshot") (codes "sa{sv}")
      (replicate 16 0)

abbrev asked : Values
asked = Values.item (Value.str []) (
    Values.item
      (Value.dict (codes "s") (codes "v") (
        Entries.pair (Value.str (codes "interactive")) (Value.variant (Value.bool true))
          Entries.no_pair))
      Values.nothing)

screenshot_checked :
    check default_policy true take_screenshot ≡ Verdict.forward (some asked) (some screenshot)
unfolding check args alignment_of is_utf8 of_le_bytes is_basic
screenshot_checked = refl

check-Asks_example :
    (ws : Values) × (some asked ≡ some ws)
    × (option_of (arg 1 ws) (codes "interactive") ≡ some (Value.bool true))
check-Asks_example =
    check-Asks default_policy true take_screenshot refl refl (Asks.screenshot refl refl refl refl)
      screenshot_checked

abbrev choose_open : Message
choose_open =
    call portal_name portal_path file_chooser_iface (codes "OpenFile") (codes "ssa{sv}")
      (replicate 24 0)

abbrev no_options : Values
no_options = Values.item (Value.str []) (
    Values.item (Value.str [])
      (Values.item (Value.dict (codes "s") (codes "v") Entries.no_pair) Values.nothing))

chooser_checked :
    check default_policy true choose_open ≡ Verdict.forward (some no_options) (some open_file)
unfolding check args alignment_of is_utf8 of_le_bytes is_basic
chooser_checked = refl

check-Drops_example :
    (ws : Values) × (some no_options ≡ some ws)
    × (option_of (arg 2 ws) (codes "current_folder") ≡ none)
check-Drops_example =
    check-Drops default_policy true choose_open
      (Drops.folder refl refl refl (inl refl) refl (inl refl)) chooser_checked

check-PlainFiles_example :
    (ws : Values) × (some no_options ≡ some ws) × PlainFiles (option_of (arg 2 ws) (codes "files"))
check-PlainFiles_example =
    check-PlainFiles default_policy true choose_open refl refl refl (inl refl) chooser_checked

abbrev bytes : Text → Values
bytes [] = Values.nothing
bytes (b ∷ bs) = Values.item (Value.byte b) (bytes bs)

abbrev name_of : Text → Value
name_of name = Value.array (codes "y") (bytes name)

-- A SaveFiles call with the names of `files`, NUL-terminated or not.
plain_or_not :
    (plain_file_names (
        Value.array (codes "ay") (
          Values.item
            (name_of (codes "a.txt"))
            (Values.item (name_of (codes "b" ++ 0 ∷ [])) Values.nothing)))
      ≡ true)
    × (plain_file_names
          (Value.array (codes "ay") (Values.item (name_of (codes "../b")) Values.nothing))
        ≡ false)
    × (plain_file_names
          (Value.array (codes "ay") (Values.item (name_of (codes ".." ++ 0 ∷ [])) Values.nothing))
        ≡ false)
unfolding plain_file_names
plain_or_not = (refl, refl, refl)

abbrev to_portal : Message
to_portal = record read_setting { destination = some (codes ":1.2") }

is_known :
    check default_policy true (record to_portal { destination = some portal_name })
    ≢ Verdict.deny object_not_allowed
is_known e = cc (e, forwards true)

service_for-check_example : service_for (codes ":1.2") (codes ":1.2") portal_path ≡ some portal_name
unfolding among eq
service_for-check_example =
    service_for-check default_policy true to_portal (codes ":1.2") portal_name refl refl is_known

-- As in the tests of the source.
attributes :
    (service_for (codes ":1.2") (codes ":1.2") (codes "/elsewhere") ≡ none)
    × (service_for (codes ":1.9") (codes ":1.2") portal_path ≡ none)
    × (activation_allowed (codes "org.freedesktop.impl.portal.X") ≡ false)
    × (activation_allowed (codes "org.gtk.vfs.Daemon") ≡ true)
    × (signal_forwarded portal_path (codes "org.freedesktop.portal.Settings") ≡ true)
    × (signal_forwarded (codes "/org/x") (codes "org.freedesktop.portal.Settings") ≡ false)
unfolding service_for activation_allowed signal_forwarded
attributes = (refl, refl, refl, refl, refl, refl)

abbrev own_request : Text
own_request = request_prefix ++ codes "1_5/token"

swap_sender_lem_example :
    (swap_sender own_request (codes "1_5") (codes "1_40")
      ≡ some (request_prefix ++ codes "1_40/token"))
    ↔ ((prefix : Text) × (tail : Text) × Owned own_request (codes "1_5") prefix tail
        × (request_prefix ++ codes "1_40/token" ≡ rejoin prefix (codes "1_40") tail))
unfolding contains
swap_sender_lem_example = swap_sender_lem (codes "1_5") (codes "1_40") own_request refl

swaps :
    swap_sender own_request (codes "1_5") (codes "1_40")
    ≡ some (request_prefix ++ codes "1_40/token")
unfolding swap_sender
swaps = refl

swap_sender-swap_sender_example :
    swap_sender (request_prefix ++ codes "1_40/token") (codes "1_40") (codes "1_5")
    ≡ some own_request
unfolding contains
swap_sender-swap_sender_example =
    swap_sender-swap_sender (codes "1_5") (codes "1_40") own_request refl refl refl swaps

escape_unique-injective_example :
    (contains b'/' (escape_unique (codes ":1.5")) ≡ false)
    × ((escape_unique (codes ":1.5") ≡ escape_unique (codes ":15")) ↔ (codes "1.5" ≡ codes "15"))
unfolding all is_ascii_digit
escape_unique-injective_example = escape_unique-injective (codes "1.5") (codes "15") refl refl

-- A space is escaped, and a plus sign passes for a digit.
uris :
    (path_to_uri (codes "/home/My Notes.txt") ≡ codes "file:///home/My%20Notes.txt")
    × (uri_to_path (codes "file://localhost/a%41b%4") ≡ some (codes "/aAb%4"))
    × (uri_to_path (codes "file:///%+5") ≡ some (b'/' ∷ 5 ∷ []))
    × (uri_to_path (codes "file:///%zz") ≡ none)
    × (uri_to_path (codes "file://host/a") ≡ none)
unfolding path_to_uri uri_to_path
uris = (refl, refl, refl, refl, refl)

uri_to_path-path_to_uri_example : uri_to_path (path_to_uri (codes "/a b")) ≡ some (codes "/a b")
uri_to_path-path_to_uri_example = uri_to_path-path_to_uri (codes "a b") (omega arith)
