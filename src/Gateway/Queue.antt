-- ===== src/Gateway/Queue.antt =====
-- The calls held for a registration: `registered` of src/gateway.rs, and the system of its thread and
-- the thread that takes calls in.
pub mod Passed
pub mod Order
pub mod Reached
pub mod Drained
use psbox.Common.{
  ℕ, ◌≡◌, Bool, true, false, ◌&&◌, ◌||◌, not, Option, none, some, List, [], ◌∷◌, ◌++◌, ◌==◌,
  if◌then◌else◌,
}
use psbox.Common.Text.{Text, codes}
use psbox.Dbus.Message.{Message, method_return_kind, error_kind}
use psbox.Portal.Policy.{Policy}
use psbox.Gateway.State.{Held, PortalState, Client, Action, Why, reply_error, default_portal}
use psbox.Gateway.Forward.{
  Answers, Forwarded, done, failed, panics, hand_back, Gate, gate, to_portal, hold, forward,
}

abbrev pub is_reply : Message → Bool
is_reply msg = msg.kind == method_return_kind || msg.kind == error_kind

abbrev same_serial : Option ℕ → Option ℕ → Bool
same_serial (some a) (some b) = a == b
same_serial _ _ = false

-- Whether `registered` handles the message.
unfoldable pub is_registration_reply : Client → Message → Bool
is_registration_reply c msg = is_reply msg && same_serial c.portal.registering msg.reply_serial

-- The first block of `registered`.
unfoldable pub answered : Client → Message → Client
answered c reply =
    if reply.kind == method_return_kind
    then record c {
      portal = record c.portal { registering = none; draining = true; owner = reply.sender };
    }
    else record c {
      portal = record c.portal { registering = none; draining = true; app_id = none; owner = none };
    }

-- Where the thread of the host connection stands: outside `registered`; in its loop, with what is
-- left of the batch; before the lock that puts calls back in front of the later ones; or dead.
pub data Phase : Type 0 where
  idle : Phase
  passing : List Held → Phase
  handing : List Held → Phase
  dead : List Held → Phase

abbrev pub put_back : Client → List Held → Client
put_back c calls = record c {
  portal = record c.portal { held = calls ++ c.portal.held; draining = false };
}

-- The test of an empty batch.
abbrev pub next_batch : Client → List Held → Client × List Action × Phase
next_batch c [] = (record c { portal = record c.portal { held = []; draining = false } }, [], idle)
next_batch c (call ∷ batch) =
    (record c { portal = record c.portal { held = [] } }, [], passing (call ∷ batch))

-- The `match` on what became of a call, with the calls behind it.
abbrev pub after_call :
    Held → List Held → Client × List Action × Forwarded → Client × List Action × Phase
after_call call rest (c, actions, done) = (c, actions, passing rest)
after_call call rest (c, actions, hand_back back) = (c, actions, handing (back ∷ rest))
after_call call rest (c, actions, failed) = (
  c,
  actions ++ reply_error call.via call.msg (codes "org.freedesktop.DBus.Error.Failed") Why.failed,
  passing rest,
)
after_call call rest (c, actions, panics) = (c, actions, dead (call ∷ rest))

-- `forward` looks the client up again: it may have left meanwhile.
abbrev pub forward_held : Bool → Policy → Answers → Client → Held → Client × List Action × Forwarded
forward_held true policy answers c call = forward policy answers c call true
forward_held false policy answers c call = (c, [], failed)

-- One move of the loop of `registered`, between two locks of the portal state.
unfoldable pub drain_step : Bool → Policy → Answers → Client → Phase → Client × List Action × Phase
unfolding forward reply_error
drain_step found policy answers c idle = (c, [], idle)
drain_step found policy answers c (passing []) = next_batch c c.portal.held
drain_step found policy answers c (passing (call ∷ rest)) =
    after_call call rest (forward_held found policy answers c call)
drain_step found policy answers c (handing calls) = (put_back c calls, [], idle)
drain_step found policy answers c (dead calls) = (c, [], dead calls)

-- A client with the two threads, and the portal calls in the order in which they arrived and in which
-- they were passed on or answered.
pub record System : Type 0 where
  pub client : Client
  pub phase : Phase
  pub arrived : List Held
  pub settled : List Held

-- Whether a new call is held.
abbrev waits_at : Gate → Option ℕ → Bool
waits_at Gate.wait serial = true
waits_at (Gate.again _) (some _) = true
waits_at (Gate.again _) none = false
waits_at (Gate.pass _) serial = false

unfoldable pub waits : Client → Held → Answers → Bool
unfolding gate
waits c call answers = waits_at (gate c call false) answers.serial

abbrev pub arrive : Policy → Answers → System → Held → System
arrive policy answers s call = record s {
  client = (forward policy answers s.client call false).0;
  arrived = s.arrived ++ call ∷ [];
  settled = if waits s.client call answers then s.settled else s.settled ++ call ∷ [];
}

-- The call that a move of the loop is done with, if it is not handed back.
abbrev pub settled_by : Phase → Phase → List Held
settled_by (passing (call ∷ rest)) (passing later) = call ∷ []
settled_by _ _ = []

abbrev pub drain : Bool → Policy → Answers → System → System
drain found policy answers s =
    let (c, _, phase) = drain_step found policy answers s.client s.phase in
    record s { client = c; phase = phase; settled = s.settled ++ settled_by s.phase phase }

-- What a turn of the loop finds: whether the client is there still, the policy, and what the buses answer.
pub record Turn : Type 0 where
  pub found : Bool
  pub policy : Policy
  pub answers : Answers

-- Turns of the loop, one after another.
unfoldable pub drain_turns : List Turn → System → System
unfolding drain_step
drain_turns [] s = s
drain_turns (turn ∷ turns) s = drain_turns turns (drain turn.found turn.policy turn.answers s)

-- The moves of the system, in any order. Other handlers may change the client, but not its portal state.
pub data Step : System → System → Type 0 where
  calls :
      {s : System} (policy : Policy) (answers : Answers) (call : Held)
      → to_portal call ≡ true
      → Step s (arrive policy answers s call)
  replies :
      {s : System} (reply : Message)
      → s.phase ≡ idle
      → is_registration_reply s.client reply ≡ true
      → Step s (record s { client = answered s.client reply; phase = passing [] })
  drains :
      {s : System} (found : Bool) (policy : Policy) (answers : Answers)
      → Step s (drain found policy answers s)
  others : {s : System} (c : Client) → c.portal ≡ s.client.portal → Step s (record s { client = c })

pub data Reach (s : System) : System → Type 0 where
  here : Reach s s
  next : {t u : System} → Reach s t → Step t u → Reach s u
