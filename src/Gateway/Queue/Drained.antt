-- ===== src/Gateway/Queue/Drained.antt =====
-- The loop of `registered` in src/gateway.rs over the held calls.
use psbox.Common.{
  ◌≡◌, ◌≢◌, refl, sym, ap, ◌∙◌, ◌⊎◌, inl, inr, true, false, Option, none, some, List, [], ◌∷◌, ◌++◌,
  length, ◌+◌, ◌<◌, arith, append-nil, append_assoc, ◌==◌, Bool-cases,
}
use psbox.Common.Text.{Text}
use psbox.Dbus.Message.{Message, method_return_kind}
use psbox.Portal.Policy.{Policy}
use psbox.Gateway.State.{Held, Client, Action}
use psbox.Gateway.Forward.{
  Answers, Forwarded, done, failed, panics, hand_back, Gate, gate, gate_for, to_portal, same_owner,
  current_owner, verdict, forward,
}
use psbox.Gateway.Forward.Writes.{forward-no_panic}
use psbox.Gateway.Queue.{
  is_registration_reply, answered, idle, passing, System, next_batch, after_call, forward_held,
  drain_step, drain, drain_turns, Turn, settled_by,
}
use psbox.Gateway.Queue.Passed.{by_verdict-Settles}
use psbox.Gateway.Queue.Order.{InOrder, of_parts}

-- No registration is needed before a portal call: there is none to keep, or the portal has it.
abbrev IsRegistered : Client → Type 0
IsRegistered c = (c.portal.app_id ≡ none) ⊎ (same_owner c.portal.owner (current_owner c) ≡ true)

data Passes (g : Gate) : Type 0 where
  pass : (dest : Option Text) → g ≡ Gate.pass dest → Passes g

gate_for-Passes :
    (app_id : Option Text) (c : Client) (call : Held)
    → (app_id ≡ none) ⊎ (same_owner c.portal.owner (current_owner c) ≡ true)
    → Passes (gate_for app_id c call)
gate_for-Passes none c call h = Passes.pass call.msg.destination refl
gate_for-Passes (some app_id) c call (inl e) = cc e
gate_for-Passes (some app_id) c call (inr same) = rw same (Passes.pass c.portal.owner refl)

gate-Passes : (c : Client) (call : Held) → IsRegistered c → Passes (gate c call true)
unfolding gate
gate-Passes c call h = elim (Bool-cases (to_portal call)) [
  | inl t ↦ rw t (gate_for-Passes c.portal.app_id c call h)
  | inr f ↦ rw f (Passes.pass call.msg.destination refl)
]

-- A held call that passes is done with, or fails, and leaves what the next one is decided by.
record Goes (c : Client) (r : Client × List Action × Forwarded) : Type 0 where
  portal_kept : r.0.portal ≡ c.portal
  owners_kept : r.0.owners ≡ c.owners
  ended : (r.2 ≡ done) ⊎ (r.2 ≡ failed)

no_panic :
    (f : Forwarded)
    → (f ≡ done) ⊎ ((f ≡ failed) ⊎ (f ≡ panics))
    → f ≢ panics
    → (f ≡ done) ⊎ (f ≡ failed)
no_panic f (inl e) n = inl e
no_panic f (inr (inl e)) n = inr e
no_panic f (inr (inr e)) n = absurd (n e)

module _ (policy : Policy) (answers : Answers) where
  passed-Goes :
      (c : Client) (call : Held) → IsRegistered c → Goes c (forward policy answers c call true)
  unfolding forward
  passed-Goes c call h = elim (gate-Passes c call h) [
    | Passes.pass dest e ↦
        let v = verdict policy c call call.via in
        let k = by_verdict-Settles answers c call dest v in
        rw e (record {
          portal_kept = k.portal_kept;
          owners_kept = k.owners_kept;
          ended = no_panic _ k.ended (rw e at (forward-no_panic policy answers c call true));
        })
  ]

-- The loop has ended, with no call held and these settled.
pub record Ended (t : System) (arrived settled : List Held) : Type 0 where
  pub is_idle : t.phase ≡ idle
  pub none_held : t.client.portal.held ≡ []
  pub arrived_kept : t.arrived ≡ arrived
  pub all_settled : t.settled ≡ settled

held-Goes :
    (turn : Turn) (c : Client) (call : Held)
    → IsRegistered c
    → Goes c (forward_held turn.found turn.policy turn.answers c call)
held-Goes turn c call h = elim (Bool-cases turn.found) [
  | inl there ↦ rw there (passed-Goes turn.policy turn.answers c call h)
  | inr left ↦ rw left (record { portal_kept = refl; owners_kept = refl; ended = inr refl })
]

after_Goes :
    (arrived settled : List Held) (call : Held) (rest : List Held)
    (r : Client × List Action × Forwarded)
    → (r.2 ≡ done) ⊎ (r.2 ≡ failed)
    → let (c', _, phase) = after_call call rest r in
      of_parts c' phase arrived (settled ++ settled_by (passing (call ∷ rest)) phase)
      ≡ of_parts r.0 (passing rest) arrived (settled ++ call ∷ [])
after_Goes arrived settled call rest (c', actions, done) e = refl
after_Goes arrived settled call rest (c', actions, failed) e = refl
after_Goes arrived settled call rest (c', actions, panics) (inl e) = cc e
after_Goes arrived settled call rest (c', actions, panics) (inr e) = cc e
after_Goes arrived settled call rest (c', actions, hand_back b) (inl e) = cc e
after_Goes arrived settled call rest (c', actions, hand_back b) (inr e) = cc e

one_passes :
    (turn : Turn) (c : Client) (arrived settled : List Held) (call : Held) (rest : List Held)
    → IsRegistered c
    → drain turn.found turn.policy turn.answers (of_parts c (passing (call ∷ rest)) arrived settled)
      ≡ of_parts
          (forward_held turn.found turn.policy turn.answers c call).0
          (passing rest)
          arrived
          (settled ++ call ∷ [])
unfolding drain_step
one_passes turn c arrived settled call rest h =
    after_Goes arrived settled call rest (forward_held turn.found turn.policy turn.answers c call)
      (held-Goes turn c call h).ended

kept-IsRegistered :
    (c d : Client) → d.portal ≡ c.portal → d.owners ≡ c.owners → IsRegistered c → IsRegistered d
unfolding current_owner
kept-IsRegistered c d p o h = rw (p, o) h

-- Outside the loop a turn does nothing.
idle_stays :
    (turns : List Turn) (c : Client) (arrived settled : List Held)
    → drain_turns turns (of_parts c idle arrived settled) ≡ of_parts c idle arrived settled
unfolding drain_turns drain_step
idle_stays [] c arrived settled = refl
idle_stays (turn ∷ turns) c arrived settled =
    rw (append-nil settled) (idle_stays turns c arrived settled)

next_batch-nil :
    (c : Client) (arrived settled held : List Held)
    → held ≡ []
    → let (c', _, phase) = next_batch c held in
      of_parts c' phase arrived (settled ++ []) ≡ of_parts (next_batch c []).0 idle arrived settled
next_batch-nil c arrived settled [] e = rw (append-nil settled) refl
next_batch-nil c arrived settled (call ∷ batch) e = cc e

-- The loop ends when it finds no call.
ends :
    (turn : Turn) (turns : List Turn) (c : Client) (arrived settled : List Held)
    → c.portal.held ≡ []
    → Ended (drain_turns (turn ∷ turns) (of_parts c (passing []) arrived settled)) arrived settled
unfolding drain_turns drain_step
ends turn turns c arrived settled e =
    rw
      (
        next_batch-nil c arrived settled c.portal.held e,
        idle_stays turns (next_batch c []).0 arrived settled,
      )
      (record { is_idle = refl; none_held = refl; arrived_kept = refl; all_settled = refl })

ends_nil :
    (turn : Turn) (turns : List Turn) (c : Client) (arrived settled : List Held)
    → c.portal.held ≡ []
    → Ended
        (drain_turns (turn ∷ turns) (of_parts c (passing []) arrived settled))
        arrived
        (settled ++ [])
ends_nil turn turns c arrived settled e =
    rw (append-nil settled) (ends turn turns c arrived settled e)

-- A batch is passed on call by call.
batch-Ended :
    (calls : List Held) (turns : List Turn) (c : Client) (arrived settled : List Held)
    → IsRegistered c
    → c.portal.held ≡ []
    → length calls < length turns
    → Ended
        (drain_turns turns (of_parts c (passing calls) arrived settled))
        arrived
        (settled ++ calls)
unfolding drain_turns
batch-Ended calls [] c arrived settled h e enough = absurd (omega arith)
batch-Ended [] (turn ∷ turns) c arrived settled h e enough = ends_nil turn turns c arrived settled e
batch-Ended (call ∷ calls) (turn ∷ turns) c arrived settled h e enough =
    let c' = (forward_held turn.found turn.policy turn.answers c call).0 in
    let g = held-Goes turn c call h in
    rw (one_passes turn c arrived settled call calls h) (
      rw (append_assoc settled (call ∷ []) calls) at (
        batch-Ended calls turns c' arrived (settled ++ call ∷ [])
          (kept-IsRegistered c c' g.portal_kept g.owners_kept h)
          (ap (λ p. p.held) g.portal_kept ∙ e) (omega arith)))

loop-Ended :
    (turns : List Turn) (c : Client) (arrived settled held : List Held)
    → c.portal.held ≡ held
    → IsRegistered c
    → length held + 1 < length turns
    → Ended (drain_turns turns (of_parts c (passing []) arrived settled)) arrived (settled ++ held)
unfolding drain_turns drain_step current_owner
loop-Ended [] c arrived settled held e h enough = absurd (omega arith)
loop-Ended (turn ∷ turns) c arrived settled [] e h enough = ends_nil turn turns c arrived settled e
loop-Ended (turn ∷ turns) c arrived settled (call ∷ batch) e h enough =
    rw (e, append-nil settled)
      (batch-Ended (call ∷ batch) turns (next_batch c (call ∷ batch)).0 arrived settled h refl
        (omega arith))

answered-held : (c : Client) (reply : Message) → (answered c reply).portal.held ≡ c.portal.held
unfolding answered
answered-held c reply = elim (Bool-cases (reply.kind == method_return_kind)) [
  | inl accepted ↦ rw accepted refl
  | inr refused ↦ rw refused refl
]

answered-IsRegistered :
    (c : Client) (reply : Message)
    → ((reply.kind == method_return_kind) ≡ false)
      ⊎ (same_owner reply.sender (current_owner c) ≡ true)
    → IsRegistered (answered c reply)
unfolding answered current_owner
answered-IsRegistered c reply (inl refused) = rw refused (inl refl)
answered-IsRegistered c reply (inr same) = elim (Bool-cases (reply.kind == method_return_kind)) [
  | inl accepted ↦ rw accepted (inr same)
  | inr refused ↦ rw refused (inl refl)
]

-- From a state in order, outside the loop, when the reply to its registration comes in and is an error,
-- or comes from the portal's current owner: whatever each turn of the loop finds of the client, the
-- policy and the answers of the buses, and no other call comes in, two turns more than there are held
-- calls end the loop, with no call held and all that arrived passed on or answered, in order.
pub answered-drains :
    (turns : List Turn) (s : System) (reply : Message)
    → InOrder s
    → s.phase ≡ idle
    → is_registration_reply s.client reply ≡ true
    → ((reply.kind == method_return_kind) ≡ false)
      ⊎ (same_owner reply.sender (current_owner s.client) ≡ true)
    → length s.client.portal.held + 1 < length turns
    → Ended
        (drain_turns turns (record s { client = answered s.client reply; phase = passing [] }))
        s.arrived
        s.arrived
answered-drains turns s reply i is_idle awaits final enough =
    let c = answered s.client reply in
    rw (sym (rw is_idle at i.ordered)) at (
      loop-Ended turns c s.arrived s.settled s.client.portal.held (answered-held s.client reply)
        (answered-IsRegistered s.client reply final) enough)
