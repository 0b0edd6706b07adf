-- ===== src/Gateway/Forward.antt =====
-- `forward` of src/gateway.rs: what is done with a call of a client whose host connection is open.
pub mod Writes
use psbox.Common.{
  ℕ, Bool, true, false, ◌&&◌, ◌||◌, not, Option, none, some, List, [], ◌∷◌, ◌++◌, ◌==◌,
  if◌then◌else◌, ok, err,
}
use psbox.Common.Text.{Text, codes, eq}
use psbox.Dbus.Value.{Values}
use psbox.Dbus.Signature.{Outcome}
use psbox.Dbus.Message.{Message, default, method_call_kind, set_body, expects_reply, is}
use psbox.Portal.Names.{portal_name, open_uri_iface}
use psbox.Portal.Policy.{Policy, FileRequest, Verdict, Reason, plainly, check}
use psbox.Portal.Paths.{rewrite_paths}
use psbox.Gateway.State.{
  Via, is_portal, Pending, Held, PortalState, Client, Action, Why, refused, reply_error, map_get,
  map_insert, set_remove,
}

-- What the two buses answer: the serial that a message to the host was sent with, or that sending
-- it failed, and whether a reply could be sent to the private bus.
pub record Answers : Type 0 where
  pub serial : Option ℕ
  pub replied : Bool

-- How a call ends: with `Ok(None)`, handed back with `Ok(Some(held))`, or with an error. A body that
-- cannot be written panics.
pub data Forwarded : Type 0 where
  done failed panics : Forwarded
  hand_back : Held → Forwarded

abbrev pub is_text : Option Text → Text → Bool
is_text none t = false
is_text (some s) t = eq s t

abbrev pub is_some {ℓ} : {A : Type ℓ} → Option A → Bool
is_some none = false
is_some (some _) = true

abbrev pub to_portal : Held → Bool
to_portal call = is_portal call.via && is_text call.msg.destination portal_name

-- `(Some(owner), Some(current)) if owner == current`
abbrev pub same_owner : Option Text → Option Text → Bool
same_owner (some owner) (some current) = eq owner current
same_owner _ _ = false

unfoldable pub current_owner : Client → Option Text
unfolding eq
current_owner c = map_get eq c.owners portal_name

-- What is decided while the portal state is locked: the call waits, the portal is registered with
-- again, or the call passes with this destination.
pub data Gate : Type 0 where
  wait : Gate
  again : Text → Gate
  pass : Option Text → Gate

abbrev pub gate_for : Option Text → Client → Held → Gate
gate_for none c call = pass call.msg.destination
gate_for (some app_id) c call =
    if same_owner c.portal.owner (current_owner c) then pass c.portal.owner else again app_id

unfoldable pub gate : Client → Held → Bool → Gate
unfolding eq current_owner
gate c call from_held =
    if not (to_portal call)
    then pass call.msg.destination
    else if not from_held && (is_some c.portal.registering || c.portal.draining)
    then wait
    else gate_for c.portal.app_id c call

-- `state.held.push(...)`
abbrev pub hold : Client → Held → Client
hold c call = record c { portal = record c.portal { held = c.portal.held ++ call ∷ [] } }

abbrev pub await : Client → ℕ → Client
await c serial = record c { portal = record c.portal { registering = some serial } }

abbrev pub register_again :
    Option ℕ → Client → Held → Bool → Text → Client × List Action × Forwarded
register_again none c call from_held app_id = (c, [], failed)
register_again (some serial) c call from_held app_id =
    if from_held
    then (await c serial, Action.register app_id ∷ [], hand_back call)
    else (hold (await c serial) call, Action.register app_id ∷ [], done)

-- The message that goes to the host, before and after the arguments of the verdict are put in.
abbrev pub addressed : Message → Option Text → Message
addressed msg dest = record default {
  kind = method_call_kind;
  flags = msg.flags;
  path = msg.path;
  interface = msg.interface;
  member = msg.member;
  destination = dest;
  signature = msg.signature;
  body = msg.body;
}

unfoldable pub outgoing : Message → Option Text → Option Values → Outcome Message
unfolding set_body
outgoing msg dest none = ok (addressed msg dest)
outgoing msg dest (some vs) = set_body (addressed msg dest) vs

abbrev pub swapped : Client → Via → Outcome Message → Outcome Message
swapped c Via.portal (ok out) = rewrite_paths out c.private_seg c.host_seg
swapped c _ out = out

abbrev pub forget : Option Text → Client → Client
forget none c = c
forget (some path) c = record c { open_requests = set_remove c.open_requests path }

-- A closed request gets no response.
unfoldable pub forget_closed : Client → Via → Message → Client
unfolding is eq
forget_closed c via out =
    if is_portal via && is out (codes "org.freedesktop.portal.Request") (codes "Close")
    then forget out.path c
    else c

abbrev pub record_pending : Client → ℕ → Held → Option FileRequest → Client
record_pending c serial call file =
    if expects_reply call.msg
    then record c {
      pending = map_insert (◌==◌) c.pending serial (record {
        caller_serial = call.msg.serial;
        file = file;
        via = call.via;
        opens = is_portal call.via && is_text call.msg.interface open_uri_iface;
      });
    }
    else c

abbrev pub send_on :
    Option ℕ
    → Client
    → Held
    → Option FileRequest
    → Outcome Message
    → Client × List Action × Forwarded
send_on serial c call file (err _) = (c, [], panics)
send_on none c call file (ok out) = (forget_closed c call.via out, [], failed)
send_on (some serial) c call file (ok out) = (
  record_pending (forget_closed c call.via out) serial call file,
  Action.to_host out call.fds ∷ [],
  done,
)

abbrev pub introspected : Bool → Bool → Client → Held → Client × List Action × Forwarded
introspected false replied c call = (c, [], done)
introspected true true c call = (c, Action.introspection_reply call.via call.msg ∷ [], done)
introspected true false c call = (c, [], failed)

abbrev pub by_verdict :
    Answers → Client → Held → Option Text → Verdict → Client × List Action × Forwarded
by_verdict answers c call dest (Verdict.forward args file) =
    send_on answers.serial c call file (swapped c call.via (outgoing call.msg dest args))
by_verdict answers c call dest (Verdict.deny why) = (
  c,
  reply_error call.via call.msg (codes "org.freedesktop.DBus.Error.AccessDenied") (refused why),
  done,
)
by_verdict answers c call dest (Verdict.missing why) = (
  c,
  reply_error call.via call.msg (codes "org.freedesktop.DBus.Error.UnknownInterface") (refused why),
  done,
)
by_verdict answers c call dest Verdict.panics = (c, [], panics)
by_verdict answers c call dest Verdict.introspect =
    introspected (expects_reply call.msg) answers.replied c call

-- A name that the user listed gets its calls unchanged.
abbrev pub verdict : Policy → Client → Held → Via → Verdict
verdict policy c call Via.portal = check policy (is_some c.portal.app_id) call.msg
verdict policy c call (Via.talk _) = plainly

abbrev pub through :
    Policy → Answers → Client → Held → Bool → Gate → Client × List Action × Forwarded
through policy answers c call from_held wait = (hold c call, [], done)
through policy answers c call from_held (again app_id) =
    register_again answers.serial c call from_held app_id
through policy answers c call from_held (pass dest) =
    by_verdict answers c call dest (verdict policy c call call.via)

unfoldable pub forward : Policy → Answers → Client → Held → Bool → Client × List Action × Forwarded
unfolding gate expects_reply reply_error check outgoing rewrite_paths forget_closed
forward policy answers c call from_held =
    through policy answers c call from_held (gate c call from_held)
