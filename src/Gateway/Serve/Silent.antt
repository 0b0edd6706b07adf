-- ===== src/Gateway/Serve/Silent.antt =====
-- `serve_host` of src/gateway.rs for a client that has left the private bus.
use psbox.Common.{
  ℕ, ◌≡◌, refl, ◌∙◌, ◌⊎◌, Bool, true, false, ◌&&◌, ◌||◌, not, Option, none, some, List, [], ◌∷◌,
  ◌==◌, Bool-cases, inl, inr, if◌then◌else◌, ok, err,
}
use psbox.Common.Text.{Text, codes, or_default}
use psbox.Dbus.Signature.{Outcome}
use psbox.Dbus.Value.{Values}
use psbox.Dbus.Message.{
  Message, args, is, signal_kind, method_call_kind, method_return_kind, expects_reply,
}
use psbox.Dbus.Writable.Decoded.{Gives}
use psbox.Portal.Names.{portal_name, signal_forwarded}
use psbox.Portal.Arguments.{arg, str_of}
use psbox.Portal.Policy.{FileRequest}
use psbox.Gateway.State.{Pending, Client, Action, map_get, close_if_done, any_opens, is_empty}
use psbox.Gateway.Forward.{is_text}
use psbox.Gateway.Relay.{
  handle_of, note_file, note_open, noted, relay_to, relay_found, relay_serial, relay_reply,
  end_open_requests, from_owner, is_response, close_request, relay_signal, owner_changed,
}
use psbox.Gateway.Queue.{is_reply, is_registration_reply, answered, Phase, idle, passing}
use psbox.Gateway.Serve.{
  portal_changed, owners_changed, on_signal, other_message, host_message, bus_name,
}

-- Whether nothing is sent to the private bus.
abbrev pub is_quiet : Action → Bool
is_quiet (Action.register _) = true
is_quiet (Action.to_host _ _) = true
is_quiet (Action.host_error _ _) = true
is_quiet Action.shutdown = true
is_quiet _ = false

abbrev pub all_quiet : List Action → Bool
all_quiet [] = true
all_quiet (a ∷ actions) = is_quiet a && all_quiet actions

abbrev pub IsQuiet : List Action → Type 0
IsQuiet actions = all_quiet actions ≡ true

-- The client has left still, and what is sent, if anything, does not go to the private bus.
abbrev pub StaysSilent : Client × Outcome (List Action) → Type 0
StaysSilent (c, result) = (c.gone ≡ true) × Gives IsQuiet result

close_if_done-IsQuiet : (c : Client) → IsQuiet (close_if_done c)
unfolding close_if_done
close_if_done-IsQuiet c =
    elim (Bool-cases (c.gone && (not (any_opens c.pending) && is_empty c.open_requests))) [
      | inl closes ↦ rw closes refl
      | inr stays ↦ rw stays refl
    ]

note_file-gone :
    (kind : Option FileRequest) (handle : Option Text) (c : Client)
    → (note_file kind handle c).gone ≡ c.gone
note_file-gone (some kind) (some handle) c = refl
note_file-gone (some kind) none c = refl
note_file-gone none handle c = refl

note_open-gone :
    (opens : Bool) (handle : Option Text) (c : Client) → (note_open opens handle c).gone ≡ c.gone
note_open-gone true (some handle) c = refl
note_open-gone true none c = refl
note_open-gone false handle c = refl

noted-gone :
    (c : Client) (serial : ℕ) (p : Pending) (handle : Option Text)
    → (noted c serial p handle).gone ≡ c.gone
noted-gone c serial p handle = note_open-gone p.opens handle _ ∙ note_file-gone p.file handle _

if-StaysSilent :
    (test : Bool) (x y : Client × Outcome (List Action))
    → StaysSilent x
    → StaysSilent y
    → StaysSilent (if test then x else y)
if-StaysSilent true x y hx hy = hx
if-StaysSilent false x y hx hy = hy

taken :
    {A : Type 0} (P : A → Type 0) (test : Bool) (x y : A)
    → test ≡ true
    → P x
    → P (if test then x else y)
taken P true x y t h = h
taken P false x y t h = cc t

closes : (c : Client) → c.gone ≡ true → StaysSilent (c, ok (close_if_done c))
closes c g = (g, close_if_done-IsQuiet c)

relay_to-StaysSilent :
    (d : Client) (msg : Message) (fds : List ℕ) (p : Pending)
    → d.gone ≡ true
    → StaysSilent (relay_to d msg fds p)
relay_to-StaysSilent d msg fds p g = taken StaysSilent d.gone _ _ g (closes d g)

relay_found-StaysSilent :
    (c : Client) (msg : Message) (fds : List ℕ) (serial : ℕ) (found : Option Pending)
    → c.gone ≡ true
    → StaysSilent (relay_found c msg fds serial found)
relay_found-StaysSilent c msg fds serial none g = (g, refl)
relay_found-StaysSilent c msg fds serial (some p) g =
    relay_to-StaysSilent (noted c serial p (handle_of msg)) msg fds p
      (noted-gone c serial p (handle_of msg) ∙ g)

relay_serial-StaysSilent :
    (c : Client) (msg : Message) (fds : List ℕ) (serial : Option ℕ)
    → c.gone ≡ true
    → StaysSilent (relay_serial c msg fds serial)
relay_serial-StaysSilent c msg fds none g = (g, refl)
relay_serial-StaysSilent c msg fds (some serial) g =
    relay_found-StaysSilent c msg fds serial (map_get (◌==◌) c.pending serial) g

relay_reply-StaysSilent :
    (c : Client) (msg : Message) (fds : List ℕ)
    → c.gone ≡ true
    → StaysSilent (relay_reply c msg fds)
unfolding relay_reply
relay_reply-StaysSilent c msg fds g = relay_serial-StaysSilent c msg fds msg.reply_serial g

close_request-gone :
    (response : Bool) (path : Option Text) (c : Client)
    → (close_request response path c).gone ≡ c.gone
close_request-gone true (some path) c = refl
close_request-gone true none c = refl
close_request-gone false path c = refl

end_open_requests-quiet :
    (c : Client)
    → c.gone ≡ true
    → ((end_open_requests c).0.gone ≡ true) × ((end_open_requests c).1 ≡ [])
unfolding end_open_requests
end_open_requests-quiet c g = (g, rw g refl)

portal_changed-StaysSilent :
    (changed : Bool) (c : Client)
    → c.gone ≡ true
    → let (c', actions) = portal_changed changed c in StaysSilent (c', ok actions)
portal_changed-StaysSilent false c g = (g, refl)
portal_changed-StaysSilent true c g =
    let (g', none_ended) = end_open_requests-quiet c g in
    (g', rw none_ended (close_if_done-IsQuiet (end_open_requests c).0))

owners_changed-StaysSilent :
    (c : Client) (read : Outcome Values)
    → c.gone ≡ true
    → let (c', actions) = owners_changed c read in StaysSilent (c', ok actions)
owners_changed-StaysSilent c (err e) g = (g, refl)
owners_changed-StaysSilent c (ok vs) g =
    portal_changed-StaysSilent (is_text (str_of (arg 0 vs)) portal_name)
      (record c { owners = owner_changed c.owners vs }) g

answered-gone : (c : Client) (reply : Message) → (answered c reply).gone ≡ c.gone
unfolding answered
answered-gone c reply = elim (Bool-cases (reply.kind == method_return_kind)) [
  | inl accepted ↦ rw accepted refl
  | inr refused ↦ rw refused refl
]

module _ (expose : Text → Bool → Option Text) where
  relay_signal-StaysSilent :
      (c : Client) (msg : Message) (fds : List ℕ)
      → c.gone ≡ true
      → StaysSilent (relay_signal expose c msg fds)
  unfolding relay_signal
  relay_signal-StaysSilent c msg fds g =
      let d = close_request (is_response msg) msg.path c in
      let g' = close_request-gone (is_response msg) msg.path c ∙ g in
      if-StaysSilent
        (not (from_owner c msg.sender)
          || not (signal_forwarded (or_default msg.path) (or_default msg.interface)))
        _ _ (g, refl) (taken StaysSilent d.gone _ _ g' (closes d g'))

  on_signal-StaysSilent :
      (c : Client) (msg : Message) (fds : List ℕ)
      → c.gone ≡ true
      → StaysSilent (on_signal expose c msg fds)
  on_signal-StaysSilent c msg fds g =
      if-StaysSilent (is_text msg.sender bus_name) _ _
        (if-StaysSilent (is msg bus_name (codes "NameOwnerChanged")) _ _
          (owners_changed-StaysSilent c (args msg) g) (g, refl))
        (relay_signal-StaysSilent c msg fds g)

  other_message-StaysSilent :
      (c : Client) (msg : Message) (fds : List ℕ)
      → c.gone ≡ true
      → StaysSilent (other_message expose c msg fds)
  unfolding other_message
  other_message-StaysSilent c msg fds g =
      if-StaysSilent (is_reply msg) _ _ (relay_reply-StaysSilent c msg fds g) (
        if-StaysSilent (msg.kind == signal_kind) _ _ (on_signal-StaysSilent c msg fds g) (
          if-StaysSilent (msg.kind == method_call_kind && expects_reply msg) _ _ (g, refl)
            (g, refl)))

  by_arm :
      (arm : Bool) (d : Client) (other : Client × Outcome (List Action))
      → d.gone ≡ true
      → StaysSilent other
      → let (e, result, phase) =
          if◌then◌else◌ {A = Client × Outcome (List Action) × Phase} arm
            (d, ok [], passing [])
            (other.0, other.1, idle) in
        StaysSilent (e, result) × ((phase ≡ idle) ⊎ ((arm ≡ true) × (phase ≡ passing [])))
  by_arm true d other g h = ((g, refl), inr (refl, refl))
  by_arm false d other g h = (h, inl refl)

  -- For a client that has left: whatever message comes in on its host connection, the client has left
  -- still, and the handling of the message sends nothing to the private bus. Only where it answers a
  -- registration does the passing on of the held calls follow.
  pub host_message-StaysSilent :
      (c : Client) (msg : Message) (fds : List ℕ)
      → c.gone ≡ true
      → let (d, result, phase) = host_message expose c msg fds in
        StaysSilent (d, result)
        × ((phase ≡ idle) ⊎ ((is_registration_reply c msg ≡ true) × (phase ≡ passing [])))
  unfolding host_message
  host_message-StaysSilent c msg fds g =
      by_arm (is_registration_reply c msg) (answered c msg) (other_message expose c msg fds)
        (answered-gone c msg ∙ g) (other_message-StaysSilent c msg fds g)
