-- ===== src/Gateway/Queue/Passed.antt =====
-- What `forward` of src/gateway.rs does to the portal state where a call is not held.
use psbox.Common.{
  ℕ, ◌≡◌, refl, ◌∙◌, ◌⊎◌, inl, inr, Bool, true, false, ◌&&◌, not, Option, none, some, List, [], ok,
  err, ◌≢◌, Bool-cases, if-cases,
}
use psbox.Common.Text.{Text, codes}
use psbox.Dbus.Signature.{Outcome}
use psbox.Dbus.Message.{Message, expects_reply, is}
use psbox.Portal.Policy.{Policy, Verdict, FileRequest}
use psbox.Gateway.State.{Via, is_portal, Held, Client, Action}
use psbox.Gateway.Forward.{
  Answers, Forwarded, done, failed, panics, hand_back, Gate, gate, gate_for, to_portal, same_owner,
  current_owner, by_verdict, register_again, forget, forget_closed, record_pending, swapped,
  outgoing, introspected, through, verdict, send_on, forward,
}
use psbox.Gateway.Queue.{forward_held}

-- The portal state and the owners of the names are left as they were.
record Kept (c d : Client) : Type 0 where
  pub portal_kept : d.portal ≡ c.portal
  pub owners_kept : d.owners ≡ c.owners

forget-Kept : (path : Option Text) (c : Client) → Kept c (forget path c)
forget-Kept none c = record { portal_kept = refl; owners_kept = refl }
forget-Kept (some path) c = record { portal_kept = refl; owners_kept = refl }

forget_closed-Kept : (c : Client) (via : Via) (out : Message) → Kept c (forget_closed c via out)
unfolding forget_closed
forget_closed-Kept c via out =
    elim (Bool-cases
      (is_portal via && is out (codes "org.freedesktop.portal.Request") (codes "Close"))) [
        | inl closes ↦ rw closes (forget-Kept out.path c)
        | inr other ↦ rw other (record { portal_kept = refl; owners_kept = refl })
      ]

record_pending-Kept :
    (c : Client) (serial : ℕ) (call : Held) (file : Option FileRequest)
    → Kept c (record_pending c serial call file)
record_pending-Kept c serial call file = elim (Bool-cases (expects_reply call.msg)) [
  | inl expects ↦ rw expects (record { portal_kept = refl; owners_kept = refl })
  | inr other ↦ rw other (record { portal_kept = refl; owners_kept = refl })
]

-- A result that keeps these, and hands nothing back.
pub record Settles (c : Client) (r : Client × List Action × Forwarded) : Type 0 where
  pub portal_kept : r.0.portal ≡ c.portal
  pub owners_kept : r.0.owners ≡ c.owners
  pub ended : (r.2 ≡ done) ⊎ ((r.2 ≡ failed) ⊎ (r.2 ≡ panics))

unchanged : (c : Client) (actions : List Action) → Settles c (c, actions, done)
unchanged c actions = record { portal_kept = refl; owners_kept = refl; ended = inl refl }

fails : (c : Client) → Settles c (c, [], failed)
fails c = record { portal_kept = refl; owners_kept = refl; ended = inr (inl refl) }

send_on-Settles :
    (serial : Option ℕ) (c : Client) (call : Held) (file : Option FileRequest)
    (out : Outcome Message)
    → Settles c (send_on serial c call file out)
send_on-Settles serial c call file (err e) = record {
  portal_kept = refl;
  owners_kept = refl;
  ended = inr (inr refl);
}
send_on-Settles none c call file (ok out) =
    let k = forget_closed-Kept c call.via out in
    record { portal_kept = k.portal_kept; owners_kept = k.owners_kept; ended = inr (inl refl) }
send_on-Settles (some serial) c call file (ok out) =
    let k = forget_closed-Kept c call.via out in
    let p = record_pending-Kept (forget_closed c call.via out) serial call file in
    record {
      portal_kept = p.portal_kept ∙ k.portal_kept;
      owners_kept = p.owners_kept ∙ k.owners_kept;
      ended = inl refl;
    }

introspected-Settles :
    (expects replied : Bool) (c : Client) (call : Held)
    → Settles c (introspected expects replied c call)
introspected-Settles false replied c call = unchanged c []
introspected-Settles true true c call = unchanged c _
introspected-Settles true false c call = fails c

pub by_verdict-Settles :
    (answers : Answers) (c : Client) (call : Held) (dest : Option Text) (v : Verdict)
    → Settles c (by_verdict answers c call dest v)
by_verdict-Settles answers c call dest (Verdict.forward args file) =
    send_on-Settles answers.serial c call file (swapped c call.via (outgoing call.msg dest args))
by_verdict-Settles answers c call dest (Verdict.deny why) = unchanged c _
by_verdict-Settles answers c call dest (Verdict.missing why) = unchanged c _
by_verdict-Settles answers c call dest Verdict.panics = record {
  portal_kept = refl;
  owners_kept = refl;
  ended = inr (inr refl);
}
by_verdict-Settles answers c call dest Verdict.introspect =
    introspected-Settles (expects_reply call.msg) answers.replied c call

-- The result of a held call: it is settled, or it is handed back and its portal is registered with.
pub data HeldResult (c : Client) (call : Held) (r : Client × List Action × Forwarded) : Type 0 where
  settles : Settles c r → HeldResult c call r
  back :
      (serial : ℕ)
      → r.0.portal ≡ record c.portal { registering = some serial }
      → r.2 ≡ hand_back call
      → HeldResult c call r

register_again-HeldResult :
    (serial : Option ℕ) (c : Client) (call : Held) (app_id : Text)
    → HeldResult c call (register_again serial c call true app_id)
register_again-HeldResult none c call app_id = HeldResult.settles (fails c)
register_again-HeldResult (some serial) c call app_id = HeldResult.back serial refl refl

pub gate_for-pass :
    (app_id : Option Text) (c : Client) (call : Held) → gate_for app_id c call ≢ Gate.wait
gate_for-pass none c call h = cc h
gate_for-pass (some app_id) c call h =
    elim (if-cases (same_owner c.portal.owner (current_owner c)) h) [
      | inl (_, h) ↦ cc h
      | inr (_, h) ↦ cc h
    ]

gate-held_passes : (c : Client) (call : Held) → gate c call true ≢ Gate.wait
unfolding gate
gate-held_passes c call h = elim (if-cases (not (to_portal call)) h) [
  | inl (_, h) ↦ cc h
  | inr (_, h) ↦ gate_for-pass c.portal.app_id c call h
]

through-HeldResult :
    (policy : Policy) (answers : Answers) (c : Client) (call : Held) (g : Gate)
    → g ≢ Gate.wait
    → HeldResult c call (through policy answers c call true g)
through-HeldResult policy answers c call Gate.wait h = absurd (h refl)
through-HeldResult policy answers c call (Gate.again app_id) h =
    register_again-HeldResult answers.serial c call app_id
through-HeldResult policy answers c call (Gate.pass dest) h =
    HeldResult.settles (by_verdict-Settles answers c call dest (verdict policy c call call.via))

pub forward_held-HeldResult :
    (found : Bool) (policy : Policy) (answers : Answers) (c : Client) (call : Held)
    → HeldResult c call (forward_held found policy answers c call)
unfolding forward
forward_held-HeldResult true policy answers c call =
    through-HeldResult policy answers c call (gate c call true) (gate-held_passes c call)
forward_held-HeldResult false policy answers c call = HeldResult.settles (fails c)
