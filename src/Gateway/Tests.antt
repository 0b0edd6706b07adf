-- ===== src/Gateway/Tests.antt =====
-- src/gateway.rs at a concrete client, and the theorems about it there.
use psbox.Common.{
  List, arith, ◌≡◌, refl, ◌⊎◌, inl, Bool, true, false, Option, none, some, [], ◌∷◌, ◌++◌, ok,
  if◌then◌else◌, ◌==◌,
}
use psbox.Common.Text.{Text, codes, eq, has_prefix}
use psbox.Dbus.Value.{Value, Values, Entries}
use psbox.Dbus.Message.{Message, default, args}
use psbox.Portal.Names.{portal_name, portal_path}
use psbox.Portal.Arguments.{arg}
use psbox.Portal.Policy.{default_policy, save_file}
use psbox.Gateway.State.{
  Via, Why, Held, PortalState, default_portal, Client, Action, Pending, map_get,
}
use psbox.Gateway.Forward.{Answers, done, failed, hand_back, forward}
use psbox.Gateway.Queue.{
  Turn, drain_turns, answered, idle, passing, System, arrive, Step, Reach, idle,
  is_registration_reply,
}
use psbox.Gateway.Queue.Order.{InOrder}
use psbox.Gateway.Queue.Reached.{fresh, Reach-InOrder}
use psbox.Gateway.Queue.Drained.{Ended, answered-drains}
use psbox.Gateway.Files.{map_file_results}
use psbox.Gateway.Files.Exposed.{Exposes, map_file_results-Exposes}
use psbox.Gateway.Relay.{relay_reply, relay_signal, owner_changed}
use psbox.Gateway.Serve.{
  Gateway, Connecting, host_message, client, serve_call, name_changed, on_closed, process_fd,
}
use psbox.Gateway.Serve.Silent.{StaysSilent, host_message-StaysSilent}
use psbox.Gateway.Serve.Once.{relay_reply-once}
use psbox.Gateway.Serve.Signals.{FromOwner, ServiceSignal, relay_signal-FromOwner}

abbrev answers : Answers
answers = record { serial = some 7; replied = true }

abbrev waiting : Pending
waiting = record { caller_serial = 3; file = none; via = Via.portal; opens = false }

-- Registered with a portal that is gone since.
abbrev stale : Client
stale = record {
  name = codes ":1.5";
  private_seg = codes "1_5";
  host_seg = codes "1_40";
  pending = (9, waiting) ∷ [];
  file_requests = [];
  open_requests = [];
  gone = false;
  owners = (portal_name, codes ":1.8") ∷ [];
  portal = record default_portal {
    app_id = some (codes "org.example.App");
    owner = some (codes ":1.6");
  };
}

abbrev read_setting : Held
read_setting = record {
  msg = record default {
    kind = 1;
    serial = 4;
    path = some portal_path;
    interface = some (codes "org.freedesktop.portal.Settings");
    member = some (codes "ReadOne");
    destination = some portal_name;
  };
  fds = [];
  via = Via.portal;
}

abbrev registering : PortalState
registering = record stale.portal { registering = some 7; held = read_setting ∷ [] }

-- The call is held and the portal registered with again; one that is in front already is handed back.
registers_again :
    (forward default_policy answers stale read_setting false ≡ (
      record stale { portal = registering },
      Action.register (codes "org.example.App") ∷ [],
      done,
    ))
    × (forward default_policy answers stale read_setting true ≡ (
      record stale { portal = record registering { held = [] } },
      Action.register (codes "org.example.App") ∷ [],
      hand_back read_setting,
    ))
    × (forward default_policy (record { serial = none; replied = true }) stale read_setting false
        ≡ (stale, [], failed))
unfolding forward
registers_again = (refl, refl, refl)

abbrev current : Client
current = record stale { owners = (portal_name, codes ":1.6") ∷ [] }

-- The call goes to the portal that accepted the registration, and its reply is waited for.
passes_on :
    (forward default_policy answers current read_setting false ≡ (
      record current {
        pending =
            (7, record { caller_serial = 4; file = none; via = Via.portal; opens = false })
            ∷ (9, waiting)
            ∷ [];
      },
      Action.to_host
            (record default {
              kind = 1;
              path = some portal_path;
              interface = some (codes "org.freedesktop.portal.Settings");
              member = some (codes "ReadOne");
              destination = some (codes ":1.6");
            })
            []
          ∷ [],
      done,
    ))
unfolding forward args
passes_on = refl

abbrev held_state : System
held_state = arrive default_policy answers (fresh stale) read_setting

held_reached : Reach (fresh stale) held_state
unfolding eq
held_reached = Reach.next Reach.here (Step.calls default_policy answers read_setting refl)

Reach-InOrder_example : InOrder held_state
Reach-InOrder_example = Reach-InOrder stale refl refl held_reached

abbrev refusal : Message
refusal = record default { kind = 3; reply_serial = some 7; error_name = some (codes "e") }

-- The client is there in the first turn, and has left in the others.
abbrev turns : List Turn
turns =
    record { found = true; policy = default_policy; answers = answers }
    ∷ record { found = false; policy = default_policy; answers = answers }
    ∷ record { found = false; policy = default_policy; answers = answers }
    ∷ []

answered-drains_example :
    Ended
      (drain_turns turns
        (record held_state { client = answered held_state.client refusal; phase = passing [] }))
      held_state.arrived
      held_state.arrived
unfolding forward is_registration_reply
answered-drains_example =
    answered-drains turns held_state refusal (Reach-InOrder stale refl refl held_reached) refl refl
      (inl refl) (omega arith)

-- A host that exposes all but one folder.
abbrev expose : Text → Bool → Option Text
expose path create =
    if has_prefix (codes "/forbidden") path then none else some (codes "/run/doc" ++ path)

abbrev uri : Text → Value
uri t = Value.str (codes "file://" ++ t)

abbrev list_of : Values → Entries
list_of uris =
    Entries.pair (Value.str (codes "uris")) (Value.variant (Value.array (codes "s") uris))
      Entries.no_pair

abbrev response : Entries → Values
response entries =
    Values.item (Value.u32 0)
      (Values.item (Value.dict (codes "s") (codes "v") entries) Values.nothing)

abbrev chosen : Values
chosen = Values.item (uri (codes "/a")) (
    Values.item (uri (codes "/forbidden/x"))
      (Values.item (Value.str (codes "https://b")) Values.nothing))

-- As in the tests of the source.
maps_chosen_files :
    map_file_results expose (response (list_of chosen)) save_file
    ≡ response (list_of (Values.item (uri (codes "/run/doc/a")) Values.nothing))
unfolding map_file_results has_prefix eq
maps_chosen_files = refl

map_file_results-Exposes_example :
    (after : Value) × (arg 1 (map_file_results expose (response (list_of chosen)) save_file)
      ≡ some after)
    × Exposes expose save_file (Value.dict (codes "s") (codes "v") (list_of chosen)) after
unfolding arg
map_file_results-Exposes_example =
    map_file_results-Exposes expose save_file (response (list_of chosen)) (codes "s") (codes "v")
      (list_of chosen) refl refl

abbrev answer : Message
answer = record default { kind = 2; reply_serial = some 9 }

relays : relay_reply stale answer [] ≡ (
  record stale { pending = [] },
  ok (
      Action.to_private Via.portal
        (record default {
          kind = 2;
          flags = 1;
          reply_serial = some 3;
          destination = some (codes ":1.5");
        })
        []
      ∷ []),
)
unfolding relay_reply
relays = refl

relay_reply-once_example :
    let d = (relay_reply stale answer []).0 in
    (relay_reply d answer [] ≡ (d, ok []))
    × (map_get (◌==◌) d.pending 7 ≡ map_get (◌==◌) stale.pending 7)
relay_reply-once_example = relay_reply-once stale answer answer [] [] 9 7 refl refl refl

abbrev left_client : Client
left_client = record stale { gone = true }

host_message-StaysSilent_example :
    let (d, result, phase) = host_message expose left_client answer [] in
    StaysSilent (d, result)
    × ((phase ≡ idle) ⊎ ((is_registration_reply left_client answer ≡ true) × (phase ≡ passing [])))
host_message-StaysSilent_example = host_message-StaysSilent expose left_client answer [] refl

abbrev forged : Message
forged = record default {
  kind = 4;
  sender = some (codes ":1.66");
  path = some portal_path;
  interface = some (codes "org.freedesktop.portal.Settings");
}

relay_signal-FromOwner_example :
    (relay_signal expose stale forged [] ≡ (stale, ok []))
    ⊎ (FromOwner stale forged × ServiceSignal portal_path (codes "org.freedesktop.portal.Settings"))
relay_signal-FromOwner_example = relay_signal-FromOwner expose stale forged []

abbrev name_change : Text → Text → Values
name_change name new =
    Values.item (Value.str name)
      (Values.item (Value.str []) (Values.item (Value.str new) Values.nothing))

-- As in the tests of the source.
tracks_owners :
    (owner_changed [] (name_change portal_name (codes ":1.40")) ≡ (portal_name, codes ":1.40") ∷ [])
    × (owner_changed [] (name_change (codes "org.example.Other") (codes ":1.41")) ≡ [])
    × (owner_changed ((portal_name, codes ":1.40") ∷ []) (name_change portal_name []) ≡ [])
unfolding owner_changed
tracks_owners = (refl, refl, refl)

abbrev gateway : Gateway
gateway = record { unique_name = codes ":1.2"; talk = []; clients = (codes ":1.5", current) ∷ [] }

abbrev connecting : Connecting
connecting = record {
  host_unique = some (codes ":1.41");
  identity = some (codes "org.example.App");
  registered = some (some (codes ":1.6"));
  subscribed = true;
  owners = some (codes ":1.6") ∷ none ∷ [];
  on_bus = false;
  served = true;
}

-- A caller that has left meanwhile gets no client; one that leaves has its connection closed.
connects :
    (client gateway (codes ":1.9") connecting ≡ (gateway, none))
    × ((client gateway (codes ":1.9") (record connecting { on_bus = true })).0.clients
        ≡ (
          codes ":1.9",
          record {
            name = codes ":1.9";
            private_seg = codes "1_9";
            host_seg = codes "1_41";
            pending = [];
            file_requests = [];
            open_requests = [];
            gone = false;
            owners = (portal_name, codes ":1.6") ∷ [];
            portal = record default_portal {
              app_id = some (codes "org.example.App");
              owner = some (codes ":1.6");
            };
          },
        )
          ∷ gateway.clients)
    × (name_changed gateway (name_change (codes ":1.5") []) ≡ (
      record gateway { clients = [] },
      some (record current { gone = true }),
      Action.shutdown ∷ [],
    ))
unfolding client name_changed
connects = (refl, refl, refl)

closes_with_errors :
    (on_closed gateway current).2
    ≡ Action.shutdown ∷ Action.no_reply Via.portal 3 Why.host_closed ∷ []
unfolding on_closed
closes_with_errors = refl

refuses_unknown_objects :
    (serve_call default_policy answers connecting gateway (record read_setting {
      msg = record read_setting.msg { destination = some (codes ":1.3") };
    })).1
    ≡ Action.error_reply Via.portal
        (record read_setting.msg { destination = some (codes ":1.3") })
        (codes "org.freedesktop.DBus.Error.UnknownObject")
        Why.no_such_object
      ∷ []
unfolding serve_call
refuses_unknown_objects = refl

-- As in the tests of the source.
finds_the_process :
    process_fd (
      Values.item
        (Value.dict (codes "s") (codes "v") (
          Entries.pair
            (Value.str (codes "ProcessFD"))
            (Value.variant (Value.fd 1))
            Entries.no_pair))
        Values.nothing)
    ≡ some 1
unfolding process_fd eq
finds_the_process = refl
