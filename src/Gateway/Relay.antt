-- ===== src/Gateway/Relay.antt =====
-- What src/gateway.rs passes back from a client's host connection: replies and signals, and what it
-- says where none will come. A result is the client afterwards with what is sent; a message that
-- cannot be sent on is only logged.
use psbox.Common.{
  ℕ, Bool, true, false, ◌||◌, not, Option, none, some, List, [], ◌∷◌, ◌==◌, if◌then◌else◌, ok,
  ◌>>=◌,
}
use psbox.Common.Text.{Text, codes, eq, among, or_default}
use psbox.Dbus.Value.{Value, Values, Entries}
use psbox.Dbus.Signature.{Outcome}
use psbox.Dbus.Message.{
  Message, default, method_return_kind, signal_kind, flag_no_reply_expected, args, set_body, is,
}
use psbox.Portal.Names.{gateway_names, signal_forwarded}
use psbox.Portal.Arguments.{first_str, arg, str_of}
use psbox.Portal.Policy.{FileRequest}
use psbox.Portal.Paths.{rewrite_paths}
use psbox.Gateway.State.{
  Via, portal, Pending, Client, Action, host_closed, map_get, map_insert, map_remove, set_remove,
  set_insert, close_if_done,
}
use psbox.Gateway.Files.{map_file_results}

abbrev pub handle_of : Message → Option Text
handle_of msg = if msg.kind == method_return_kind then first_str (args msg) else none

-- A file request is remembered until its response.
abbrev pub note_file : Option FileRequest → Option Text → Client → Client
note_file (some kind) (some handle) c = record c {
  file_requests = map_insert eq c.file_requests handle kind;
}
note_file _ _ c = c

abbrev pub note_open : Bool → Option Text → Client → Client
note_open true (some handle) c = record c { open_requests = set_insert c.open_requests handle }
note_open _ _ c = c

abbrev pub noted : Client → ℕ → Pending → Option Text → Client
noted c serial p handle =
    note_open p.opens handle
      (note_file p.file handle (record c { pending = map_remove (◌==◌) c.pending serial }))

abbrev rewrite_via : Via → Message → Text → Text → Outcome Message
rewrite_via Via.portal out from to = rewrite_paths out from to
rewrite_via (Via.talk _) out from to = ok out

abbrev pub reply_message : Client → Message → Pending → Outcome Message
reply_message c msg p =
    rewrite_via p.via
      (record default {
        kind = msg.kind;
        flags = flag_no_reply_expected;
        error_name = msg.error_name;
        reply_serial = some p.caller_serial;
        destination = some c.name;
        signature = msg.signature;
        body = msg.body;
      })
      c.host_seg c.private_seg

abbrev pub relay_to : Client → Message → List ℕ → Pending → Client × Outcome (List Action)
relay_to c msg fds p =
    if c.gone
    then (c, ok (close_if_done c))
    else (c, do out ← reply_message c msg p; ok (Action.to_private p.via out fds ∷ []))

abbrev pub relay_found :
    Client → Message → List ℕ → ℕ → Option Pending → Client × Outcome (List Action)
relay_found c msg fds serial none = (c, ok [])
relay_found c msg fds serial (some p) = relay_to (noted c serial p (handle_of msg)) msg fds p

abbrev pub relay_serial : Client → Message → List ℕ → Option ℕ → Client × Outcome (List Action)
relay_serial c msg fds none = (c, ok [])
relay_serial c msg fds (some serial) =
    relay_found c msg fds serial (map_get (◌==◌) c.pending serial)

unfoldable pub relay_reply : Client → Message → List ℕ → Client × Outcome (List Action)
unfolding close_if_done rewrite_paths args eq
relay_reply c msg fds = relay_serial c msg fds msg.reply_serial

abbrev no_replies : List (ℕ × Pending) → List Action
no_replies [] = []
no_replies ((_, p) ∷ rest) = Action.no_reply p.via p.caller_serial host_closed ∷ no_replies rest

unfoldable pub fail_pending : Client → Client × List Action
fail_pending c = (record c { pending = [] }, if c.gone then [] else no_replies c.pending)

abbrev ends : List Text → List Action
ends [] = []
ends (path ∷ paths) = Action.end_request path ∷ ends paths

unfoldable pub end_open_requests : Client → Client × List Action
end_open_requests c = (record c { open_requests = [] }, if c.gone then [] else ends c.open_requests)

-- `end_request`: the message of the action of that name.
unfoldable pub end_request_message : Client → Text → Outcome Message
unfolding set_body rewrite_paths
end_request_message c path = do
  out ←
      set_body
        (record default {
          kind = signal_kind;
          flags = flag_no_reply_expected;
          path = some path;
          interface = some (codes "org.freedesktop.portal.Request");
          member = some (codes "Response");
          destination = some c.name;
        })
        (Values.item (Value.u32 2)
          (Values.item (Value.dict (codes "s") (codes "v") Entries.no_pair) Values.nothing))
  rewrite_paths out c.host_seg c.private_seg

abbrev pub owned_by : List (Text × Text) → Text → Bool
owned_by [] sender = false
owned_by ((_, owner) ∷ rest) sender = eq owner sender || owned_by rest sender

abbrev pub from_owner : Client → Option Text → Bool
from_owner c none = false
from_owner c (some sender) = owned_by c.owners sender

abbrev pub is_response : Message → Bool
is_response msg = is msg (codes "org.freedesktop.portal.Request") (codes "Response")

-- An answered request is no longer open.
abbrev pub close_request : Bool → Option Text → Client → Client
close_request true (some path) c = record c { open_requests = set_remove c.open_requests path }
close_request _ _ c = c

abbrev signal_message : Client → Message → Message
signal_message c msg = record default {
  kind = signal_kind;
  flags = flag_no_reply_expected;
  path = msg.path;
  interface = msg.interface;
  member = msg.member;
  destination = some c.name;
  signature = msg.signature;
  body = msg.body;
}

abbrev pub take_file : Bool → Option Text → Client → Client × Option FileRequest
take_file true (some path) c = (
  record c { file_requests = map_remove eq c.file_requests path },
  map_get eq c.file_requests path,
)
take_file _ _ c = (c, none)

module _ (expose : Text → Bool → Option Text) where
  abbrev signal_body : Client → Message → Option FileRequest → Outcome Message
  signal_body c msg none = ok (signal_message c msg)
  signal_body c msg (some kind) = do
    vs ← args msg
    set_body (signal_message c msg) (map_file_results expose vs kind)

  abbrev send_signal : Client → Message → List ℕ → Option FileRequest → Outcome (List Action)
  send_signal c msg fds kind = do
    out ← signal_body c msg kind
    out ← rewrite_paths out c.host_seg c.private_seg
    ok (Action.to_private portal out fds ∷ [])

  unfoldable pub relay_signal : Client → Message → List ℕ → Client × Outcome (List Action)
  unfolding signal_forwarded is eq close_if_done map_file_results set_body rewrite_paths args
  relay_signal c msg fds =
      if not (from_owner c msg.sender)
        || not (signal_forwarded (or_default msg.path) (or_default msg.interface))
      then (c, ok [])
      else let c = close_request (is_response msg) msg.path c in
        if c.gone
        then (c, ok (close_if_done c))
        else let (c, kind) = take_file (is_response msg) msg.path c in
          (c, send_signal c msg fds kind)

-- A `NameOwnerChanged(name, old, new)`.
abbrev owner_set : List (Text × Text) → Text → Text → List (Text × Text)
owner_set owners name [] = map_remove eq owners name
owner_set owners name (c ∷ new) = map_insert eq owners name (c ∷ new)

abbrev owner_of : List (Text × Text) → Option Text → Option Text → List (Text × Text)
owner_of owners (some name) (some new) =
    if among name gateway_names then owner_set owners name new else owners
owner_of owners _ _ = owners

unfoldable pub owner_changed : List (Text × Text) → Values → List (Text × Text)
unfolding arg among eq
owner_changed owners args = owner_of owners (str_of (arg 0 args)) (str_of (arg 2 args))
