-- ===== src/Gateway/Serve.antt =====
-- The handlers of src/gateway.rs: of the messages on a connection to the private bus, and of those on
-- a client's host connection. What is asked of the buses answers by arguments.
pub mod Silent
pub mod Signals
pub mod Once
use psbox.Common.{
  ℕ, Bool, true, false, ◌&&◌, ◌||◌, not, Option, none, some, List, [], ◌∷◌, ◌++◌, ◌==◌, get_elem?,
  if◌then◌else◌, Result, ok, err,
}
use psbox.Common.Text.{Text, codes, eq, has_prefix, or_default}
use psbox.Dbus.Value.{Value, Values, dict_get}
use psbox.Dbus.Signature.{Outcome}
use psbox.Dbus.Message.{
  Message, default, method_call_kind, method_return_kind, error_kind, signal_kind, args, is,
  expects_reply,
}
use psbox.Portal.Names.{portal_name, gateway_names, service_for}
use psbox.Portal.Paths.{escape_unique}
use psbox.Portal.Arguments.{arg, str_of}
use psbox.Portal.Policy.{Policy}
use psbox.Gateway.State.{
  Via, Held, PortalState, default_portal, Client, Action, Why, no_such_object, reply_error, map_get,
  map_insert, map_remove, close_if_done,
}
use psbox.Gateway.Forward.{
  Answers, Forwarded, done, failed, panics, hand_back, is_text, is_some, forward,
}
use psbox.Gateway.Queue.{is_reply, is_registration_reply, answered, Phase, idle, passing}
use psbox.Gateway.Relay.{relay_reply, relay_signal, fail_pending, end_open_requests, owner_changed}

abbrev pub bus_name : Text
bus_name = codes "org.freedesktop.DBus"

pub record Gateway : Type 0 where
  pub unique_name : Text
  pub talk : List Text
  pub clients : List (Text × Client)

-- What the buses and the host answer while a client's host connection is set up: the unique name on
-- it, the identity of the caller, the sender of the reply to its registration, whether the matches
-- could be added, the owners of the gateway names, whether the caller is still on its bus, and
-- whether a thread could be started.
pub record Connecting : Type 0 where
  pub host_unique : Option Text
  pub identity : Option Text
  pub registered : Option (Option Text)
  pub subscribed : Bool
  pub owners : List (Option Text)
  pub on_bus : Bool
  pub served : Bool

-- A registration that fails leaves the client without an identity.
abbrev pub registered_as : Option Text → Option (Option Text) → PortalState
registered_as (some app_id) (some sender) = record default_portal {
  app_id = some app_id;
  owner = sender;
}
registered_as _ _ = default_portal

abbrev pub known_owners : List Text → List (Option Text) → List (Text × Text)
known_owners (name ∷ names) (some owner ∷ found) =
    map_insert eq (known_owners names found) name owner
known_owners (name ∷ names) (none ∷ found) = known_owners names found
known_owners _ _ = []

unfoldable pub new_client : Text → Text → Connecting → Client
unfolding escape_unique eq
new_client sender host_unique answers = record {
  name = sender;
  private_seg = escape_unique sender;
  host_seg = escape_unique host_unique;
  pending = [];
  file_requests = [];
  open_requests = [];
  gone = false;
  owners = known_owners gateway_names answers.owners;
  portal = registered_as answers.identity answers.registered;
}

abbrev set_client : Gateway → Text → Client → Gateway
set_client gw name c = record gw { clients = map_insert eq gw.clients name c }

abbrev drop_client : Gateway → Text → Gateway
drop_client gw name = record gw { clients = map_remove eq gw.clients name }

abbrev connected : Gateway → Text → Connecting → Option Text → Gateway × Option Client
connected gw sender answers none = (gw, none)
connected gw sender answers (some host_unique) =
    let c = new_client sender host_unique answers in
    if not answers.subscribed
    then (gw, none)
    else if not answers.on_bus
    then (drop_client gw sender, none)
    else (set_client gw sender c, if answers.served then some c else none)

-- `client`: the client of a caller, made on its first call.
abbrev made : Gateway → Text → Connecting → Option Client → Gateway × Option Client
made gw sender answers (some c) = (gw, some c)
made gw sender answers none = connected gw sender answers answers.host_unique

unfoldable pub client : Gateway → Text → Connecting → Gateway × Option Client
unfolding eq new_client
client gw sender answers = made gw sender answers (map_get eq gw.clients sender)

-- An error is answered as such.
abbrev finish : Held → List Action × Forwarded → List Action
finish call (actions, failed) =
    actions ++ reply_error call.via call.msg (codes "org.freedesktop.DBus.Error.Failed") Why.failed
finish call (actions, _) = actions

abbrev forward_for :
    Policy → Answers → Text → Held → Gateway × Option Client → Gateway × List Action
forward_for policy answers sender call (gw, none) = (gw, finish call ([], failed))
forward_for policy answers sender call (gw, some c) =
    let (c', actions, end) = forward policy answers c call false in
    (set_client gw sender c', finish call (actions, end))

abbrev forward_call :
    Policy → Answers → Connecting → Gateway → Held → Option Text → Gateway × List Action
forward_call policy answers connecting gw call none = (gw, finish call ([], failed))
forward_call policy answers connecting gw call (some sender) =
    forward_for policy answers sender call (client gw sender connecting)

abbrev destination_of : Gateway → Via → Message → Option Text
destination_of gw Via.portal msg =
    service_for (or_default msg.destination) gw.unique_name (or_default msg.path)
destination_of gw (Via.talk i) msg = get_elem? gw.talk i

abbrev serve_to :
    Policy → Answers → Connecting → Gateway → Held → Option Text → Gateway × List Action
serve_to policy answers connecting gw call none = (
  gw,
  reply_error call.via call.msg (codes "org.freedesktop.DBus.Error.UnknownObject") no_such_object,
)
serve_to policy answers connecting gw call (some dest) =
    forward_call policy answers connecting gw
      (record call { msg = record call.msg { destination = some dest } }) call.msg.sender

-- The arm of `serve` for a method call.
unfoldable pub serve_call : Policy → Answers → Connecting → Gateway → Held → Gateway × List Action
unfolding service_for client forward reply_error
serve_call policy answers connecting gw call =
    serve_to policy answers connecting gw call (destination_of gw call.via call.msg)

abbrev leave : Gateway → Text → Option Client → Gateway × Option Client × List Action
leave gw name none = (gw, none, [])
leave gw name (some c) =
    let c = record c { gone = true } in (drop_client gw name, some c, close_if_done c)

abbrev left : Gateway → Option Text → Option Text → Gateway × Option Client × List Action
left gw (some name) (some []) =
    if has_prefix (codes ":") name
    then leave gw name (map_get eq gw.clients name)
    else (gw, none, [])
left gw _ _ = (gw, none, [])

-- `name_changed`: the gateway without the client that left, and that client, which lives on until its
-- host connection ends.
unfoldable pub name_changed : Gateway → Values → Gateway × Option Client × List Action
unfolding arg has_prefix eq close_if_done
name_changed gw args = left gw (str_of (arg 0 args)) (str_of (arg 2 args))

abbrev pub portal_changed : Bool → Client → Client × List Action
portal_changed false c = (c, [])
portal_changed true c = let (c', ended) = end_open_requests c in (c', ended ++ close_if_done c')

abbrev pub owners_changed : Client → Outcome Values → Client × List Action
owners_changed c (err _) = (c, [])
owners_changed c (ok args) =
    portal_changed (is_text (str_of (arg 0 args)) portal_name)
      (record c { owners = owner_changed c.owners args })

module _ (expose : Text → Bool → Option Text) where
  abbrev pub on_signal : Client → Message → List ℕ → Client × Outcome (List Action)
  on_signal c msg fds =
      if is_text msg.sender bus_name
      then if is msg bus_name (codes "NameOwnerChanged")
        then (let (c', actions) = owners_changed c (args msg) in (c', ok actions))
        else (c, ok [])
      else relay_signal expose c msg fds

  -- The arms of `serve_host` but for that of `registered`.
  unfoldable pub other_message : Client → Message → List ℕ → Client × Outcome (List Action)
  unfolding relay_reply relay_signal is eq arg owner_changed end_open_requests close_if_done
      expects_reply args
  other_message c msg fds =
      if is_reply msg
      then relay_reply c msg fds
      else if msg.kind == signal_kind
      then on_signal c msg fds
      else if msg.kind == method_call_kind && expects_reply msg
      then (c, ok (Action.host_error msg (codes "org.freedesktop.DBus.Error.UnknownMethod") ∷ []))
      else (c, ok [])

  -- The `match` of `serve_host`, up to the loop of `registered` over the held calls, which the phase
  -- that is given goes on with.
  unfoldable pub host_message : Client → Message → List ℕ → Client × Outcome (List Action) × Phase
  unfolding is_registration_reply answered other_message
  host_message c msg fds =
      if is_registration_reply c msg
      then (answered c msg, ok [], passing [])
      else let (c, result) = other_message c msg fds in (c, result, idle)

-- A message that cannot be decoded: a caller that waits for it as a reply gets an error.
abbrev pub on_undecodable : Client → Option ℕ → Client × Outcome (List Action)
on_undecodable c none = (c, ok [])
on_undecodable c (some serial) =
    relay_reply c
      (record default {
        kind = error_kind;
        error_name = some (codes "org.freedesktop.DBus.Error.Failed");
        reply_serial = some serial;
      })
      []

-- The end of the host connection.
unfoldable pub on_closed : Gateway → Client → Gateway × Client × List Action
unfolding eq fail_pending end_open_requests
on_closed gw c =
    let (c', failures) = fail_pending c in
    let (c'', ends) = end_open_requests c' in
    (drop_client gw c.name, c'', Action.shutdown ∷ (failures ++ ends))

-- The index, among the descriptors of a `GetConnectionCredentials` reply, of the `ProcessFD`.
abbrev fd_index : Option Value → Option ℕ
fd_index (some (Value.fd i)) = some i
fd_index _ = none

abbrev process_fd_of : Option Value → Option ℕ
process_fd_of none = none
process_fd_of (some creds) = fd_index (dict_get creds (codes "ProcessFD"))

unfoldable pub process_fd : Values → Option ℕ
unfolding arg dict_get
process_fd args = process_fd_of (arg 0 args)
