-- ===== src/Gateway/Queue/Order.antt =====
-- The order of the portal calls of a client of src/gateway.rs, and what it means to be held.
use psbox.Common.{
  ◌≡◌, refl, sym, ap, ◌∙◌, ◌⊎◌, inl, inr, Bool, true, false, none, List, [], ◌∷◌, ◌++◌, append-nil,
  append_assoc,
}
use psbox.Portal.Policy.{Policy}
use psbox.Gateway.State.{Held, PortalState, Client, Action}
use psbox.Gateway.Forward.{Answers, Forwarded, done, failed, panics, hand_back, is_some}
use psbox.Gateway.Queue.{
  Phase, idle, passing, handing, dead, next_batch, after_call, forward_held, drain_step, System,
  settled_by, drain,
}
use psbox.Gateway.Queue.Passed.{HeldResult, forward_held-HeldResult}

-- The calls that the thread of the host connection has taken.
abbrev pub in_flight : Phase → List Held
in_flight idle = []
in_flight (passing calls) = calls
in_flight (handing calls) = calls
in_flight (dead calls) = calls

-- What the portal state says in each phase.
abbrev pub Agrees : Phase → PortalState → Type 0
Agrees idle p = (p.draining ≡ false) × ((p.held ≡ []) ⊎ (is_some p.registering ≡ true))
Agrees (passing _) p = (p.draining ≡ true) × (p.registering ≡ none)
Agrees (handing _) p = (p.draining ≡ true) × (is_some p.registering ≡ true)
Agrees (dead _) p = p.draining ≡ true

pub record InOrder (s : System) : Type 0 where
  pub ordered : s.arrived ≡ s.settled ++ (in_flight s.phase ++ s.client.portal.held)
  pub agrees : Agrees s.phase s.client.portal

abbrev pub of_parts : Client → Phase → List Held → List Held → System
of_parts client phase arrived settled = record {
  client = client;
  phase = phase;
  arrived = arrived;
  settled = settled;
}

-- A call joins the held ones.
pub joins :
    (arrived settled taken held : List Held) (call : Held)
    → arrived ≡ settled ++ (taken ++ held)
    → arrived ++ call ∷ [] ≡ settled ++ (taken ++ (held ++ call ∷ []))
joins arrived settled taken held call e =
    ap (λ l. l ++ call ∷ []) e
    ∙ append_assoc settled (taken ++ held) (call ∷ [])
    ∙ ap (◌++◌ settled) (append_assoc taken held (call ∷ []))

-- A call is settled before the ones behind it.
moves :
    (settled : List Held) (call : Held) (rest held : List Held)
    → settled ++ (call ∷ (rest ++ held)) ≡ (settled ++ call ∷ []) ++ (rest ++ held)
moves settled call rest held = sym (append_assoc settled (call ∷ []) (rest ++ held))

back_again : {b call : Held} → hand_back b ≡ hand_back call → b ≡ call
back_again e = cc e

module _ (found : Bool) (policy : Policy) (answers : Answers) (c : Client)
    (arrived settled : List Held) where
  next_batch-InOrder :
      (held : List Held)
      → c.portal.held ≡ held
      → InOrder (of_parts c (passing []) arrived settled)
      → let (c', _, phase) = next_batch c held in
        InOrder (of_parts c' phase arrived (settled ++ []))
  next_batch-InOrder [] e i = record {
    ordered = i.ordered ∙ rw (append-nil settled) (ap (◌++◌ settled) e);
    agrees = (refl, inl refl);
  }
  next_batch-InOrder (call ∷ batch) e i = record {
    ordered = i.ordered ∙ rw (append-nil settled, append-nil batch) (ap (◌++◌ settled) e);
    agrees = i.agrees;
  }

  goes_on :
      (call : Held) (rest : List Held) (c' : Client)
      → c'.portal ≡ c.portal
      → InOrder (of_parts c (passing (call ∷ rest)) arrived settled)
      → InOrder (of_parts c' (passing rest) arrived (settled ++ call ∷ []))
  goes_on call rest c' k i = record {
    ordered = rw k (i.ordered ∙ moves settled call rest c.portal.held);
    agrees = rw k i.agrees;
  }

  after_call-InOrder :
      (call : Held) (rest : List Held) (r : Client × List Action × Forwarded)
      → HeldResult c call r
      → InOrder (of_parts c (passing (call ∷ rest)) arrived settled)
      → let (c', _, phase) = after_call call rest r in
        InOrder (of_parts c' phase arrived (settled ++ settled_by (passing (call ∷ rest)) phase))
  after_call-InOrder call rest (c', actions, done) (HeldResult.settles k) i =
      goes_on call rest c' k.portal_kept i
  after_call-InOrder call rest (c', actions, failed) (HeldResult.settles k) i =
      goes_on call rest c' k.portal_kept i
  after_call-InOrder call rest (c', actions, panics) (HeldResult.settles k) i = record {
    ordered = rw (append-nil settled, k.portal_kept) i.ordered;
    agrees = rw k.portal_kept i.agrees.0;
  }
  after_call-InOrder call rest (c', actions, hand_back b) (HeldResult.settles k) i =
      absurd (elim k.ended [ inl e ↦ cc e | inr (inl e) ↦ cc e | inr (inr e) ↦ cc e ])
  after_call-InOrder call rest (c', actions, done) (HeldResult.back _ _ e) i = cc e
  after_call-InOrder call rest (c', actions, failed) (HeldResult.back _ _ e) i = cc e
  after_call-InOrder call rest (c', actions, panics) (HeldResult.back _ _ e) i = cc e
  after_call-InOrder call rest (c', actions, hand_back b) (HeldResult.back serial p e) i = record {
    ordered = rw (append-nil settled, p, back_again e) i.ordered;
    agrees = rw p (i.agrees.0, refl);
  }

  pub drain_step-InOrder :
      (phase : Phase)
      → InOrder (of_parts c phase arrived settled)
      → InOrder (drain found policy answers (of_parts c phase arrived settled))
  unfolding drain_step
  drain_step-InOrder idle i = record {
    ordered = rw (append-nil settled) i.ordered;
    agrees = i.agrees;
  }
  drain_step-InOrder (passing []) i = next_batch-InOrder c.portal.held refl i
  drain_step-InOrder (passing (call ∷ rest)) i =
      after_call-InOrder call rest (forward_held found policy answers c call)
        (forward_held-HeldResult found policy answers c call) i
  drain_step-InOrder (handing calls) i = record {
    ordered = rw (append-nil settled) i.ordered;
    agrees = (refl, inr i.agrees.1);
  }
  drain_step-InOrder (dead calls) i = record {
    ordered = rw (append-nil settled) i.ordered;
    agrees = i.agrees;
  }
