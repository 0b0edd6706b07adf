-- ===== src/Gateway/State.antt =====
-- The state of src/gateway.rs: a client and its standing with the host portal, and what the gateway
-- sends. A map is the list of its entries, with one entry for a key that is inserted.
use psbox.Common.{
  ℕ, Bool, true, false, ◌&&◌, ◌||◌, not, Option, none, some, List, [], ◌∷◌, if◌then◌else◌,
}
use psbox.Common.Text.{Text, codes, eq}
use psbox.Dbus.Value.{Value, Values, Entries}
use psbox.Dbus.Signature.{Outcome}
use psbox.Dbus.Message.{Message, method_call, expects_reply}
use psbox.Portal.Names.{portal_name, portal_path, registry_iface}
use psbox.Portal.Policy.{FileRequest, Reason}

module _ {K V : Type 0} (same : K → K → Bool) where
  abbrev pub map_get : List (K × V) → K → Option V
  map_get [] key = none
  map_get ((k, v) ∷ rest) key = if same k key then some v else map_get rest key

  abbrev pub map_remove : List (K × V) → K → List (K × V)
  map_remove [] key = []
  map_remove ((k, v) ∷ rest) key =
      if same k key then map_remove rest key else (k, v) ∷ map_remove rest key

  abbrev pub map_insert : List (K × V) → K → V → List (K × V)
  map_insert m key v = (key, v) ∷ map_remove m key

abbrev pub set_remove : List Text → Text → List Text
set_remove [] t = []
set_remove (u ∷ us) t = if eq u t then set_remove us t else u ∷ set_remove us t

abbrev pub set_insert : List Text → Text → List Text
set_insert us t = t ∷ set_remove us t

pub data Via : Type 0 where
  portal : Via
  talk : ℕ → Via

abbrev pub is_portal : Via → Bool
is_portal portal = true
is_portal (talk _) = false

pub record Pending : Type 0 where
  pub caller_serial : ℕ
  pub file : Option FileRequest
  pub via : Via
  pub opens : Bool

-- `Held`: a call, its descriptors, and the connection that it came in on.
pub record Held : Type 0 where
  pub msg : Message
  pub fds : List ℕ
  pub via : Via

pub record PortalState : Type 0 where
  pub app_id : Option Text
  pub owner : Option Text
  pub registering : Option ℕ
  pub draining : Bool
  pub held : List Held

pub record Client : Type 0 where
  pub name : Text
  pub private_seg : Text
  pub host_seg : Text
  pub pending : List (ℕ × Pending)
  pub file_requests : List (Text × FileRequest)
  pub open_requests : List Text
  pub gone : Bool
  pub owners : List (Text × Text)
  pub portal : PortalState

-- Why a call is answered with an error.
pub data Why : Type 0 where
  refused : Reason → Why
  failed undecodable no_such_object host_closed : Why

-- What is done to the outside. An error or an introspection is the reply to the message that is
-- given; the texts of logs are left out.
pub data Action : Type 0 where
  register : Text → Action
  to_host : Message → List ℕ → Action
  to_private : Via → Message → List ℕ → Action
  host_error : Message → Text → Action
  error_reply : Via → Message → Text → Why → Action
  introspection_reply : Via → Message → Action
  no_reply : Via → ℕ → Why → Action
  end_request : Text → Action
  shutdown : Action

-- `PortalState::default()`
abbrev pub default_portal : PortalState
default_portal = record {
  app_id = none;
  owner = none;
  registering = none;
  draining = false;
  held = [];
}

-- `register`: the message of the action of that name.
unfoldable pub register_message : Text → Outcome Message
unfolding method_call
register_message app_id = method_call portal_name portal_path registry_iface (codes "Register") (
    Values.item (Value.str app_id)
      (Values.item (Value.dict (codes "s") (codes "v") Entries.no_pair) Values.nothing))

unfoldable pub reply_error : Via → Message → Text → Why → List Action
unfolding expects_reply
reply_error via to name why =
    if expects_reply to then Action.error_reply via to name why ∷ [] else []

abbrev pub any_opens : List (ℕ × Pending) → Bool
any_opens [] = false
any_opens ((_, p) ∷ rest) = p.opens || any_opens rest

abbrev pub is_empty : List Text → Bool
is_empty [] = true
is_empty (_ ∷ _) = false

unfoldable pub close_if_done : Client → List Action
close_if_done c =
    if c.gone && (not (any_opens c.pending) && is_empty c.open_requests)
    then Action.shutdown ∷ []
    else []
