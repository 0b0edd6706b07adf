-- ===== src/Gateway/Queue/Reached.antt =====
-- What holds of every state that the system of src/gateway.rs reaches.
use psbox.Common.{
  ℕ, ◌≡◌, ◌≢◌, refl, sym, ap, ◌∙◌, inl, inr, Bool, true, false, ◌||◌, Option, none, some, List, [],
  ◌∷◌, ◌++◌, append-nil, ◌==◌, Bool-cases, if◌then◌else◌, ||-eq-false,
}
use psbox.Common.Text.{Text}
use psbox.Dbus.Message.{Message, method_return_kind}
use psbox.Portal.Policy.{Policy}
use psbox.Gateway.State.{Held, PortalState, Client}
use psbox.Gateway.Forward.{
  Answers, Gate, gate, gate_for, to_portal, is_some, through, verdict, register_again, forward,
}
use psbox.Gateway.Queue.{
  answered, Phase, idle, passing, handing, dead, System, waits_at, waits, arrive, Step, Reach,
}
use psbox.Gateway.Queue.Passed.{by_verdict-Settles, gate_for-pass}
use psbox.Gateway.Queue.Order.{in_flight, Agrees, InOrder, of_parts, joins, drain_step-InOrder}

abbrev busy : PortalState → Bool
busy p = is_some p.registering || p.draining

gate-busy :
    (c : Client) (call : Held)
    → to_portal call ≡ true
    → busy c.portal ≡ true
    → gate c call false ≡ Gate.wait
unfolding gate
gate-busy c call t b = rw (t, b) refl

gate-free :
    (c : Client) (call : Held)
    → to_portal call ≡ true
    → busy c.portal ≡ false
    → gate c call false ≡ gate_for c.portal.app_id c call
unfolding gate
gate-free c call t b = rw (t, b) refl

or-left : (a b : Bool) → (a || b) ≡ true → b ≡ false → a ≡ true
or-left true b h f = refl
or-left false b h f = cc (h, f)

hold-Agrees :
    (phase : Phase) (p : PortalState) (held : List Held)
    → busy p ≡ true
    → Agrees phase p
    → Agrees phase (record p { held = held })
hold-Agrees idle p held b a = (a.0, inr (or-left (is_some p.registering) p.draining b a.0))
hold-Agrees (passing _) p held b a = a
hold-Agrees (handing _) p held b a = a
hold-Agrees (dead _) p held b a = a

free-idle :
    (phase : Phase) (p : PortalState)
    → busy p ≡ false
    → Agrees phase p
    → (in_flight phase ≡ []) × (p.held ≡ []) × (p.draining ≡ false) × (phase ≡ idle)
free-idle idle p b (d, inl e) = (refl, e, d, refl)
free-idle idle p b (d, inr e) = cc (e, (||-eq-false (is_some p.registering) p.draining b).0)
free-idle (passing _) p b a = cc (a.0, (||-eq-false (is_some p.registering) p.draining b).1)
free-idle (handing _) p b a = cc (a.0, (||-eq-false (is_some p.registering) p.draining b).1)
free-idle (dead _) p b a = cc (a, (||-eq-false (is_some p.registering) p.draining b).1)

-- The state that an arrival leaves, by what was decided about it.
abbrev decided : Policy → Answers → Client → List Held → List Held → Held → Gate → System
decided policy answers c arrived settled call g =
    of_parts (through policy answers c call false g).0 idle (arrived ++ call ∷ [])
      (if waits_at g answers.serial then settled else settled ++ call ∷ [])

module _ (policy : Policy) (c : Client) (arrived settled : List Held) (call : Held) where
  passes-InOrder :
      (c' : Client)
      → c'.portal ≡ c.portal
      → c.portal.held ≡ []
      → InOrder (of_parts c idle arrived settled)
      → InOrder (of_parts c' idle (arrived ++ call ∷ []) (settled ++ call ∷ []))
  passes-InOrder c' k e i = record {
    ordered =
        rw (k, e)
          (ap (λ l. l ++ call ∷ []) (i.ordered ∙ ap (◌++◌ settled) e)
            ∙ rw (append-nil settled, append-nil (settled ++ call ∷ [])) refl);
    agrees = rw k i.agrees;
  }

  -- The portal is registered with again: the call is held for the answer, or fails with the sending.
  again-InOrder :
      (serial : Option ℕ) (app_id : Text)
      → c.portal.held ≡ []
      → InOrder (of_parts c idle arrived settled)
      → InOrder (
          of_parts
            (register_again serial c call false app_id).0
            idle
            (arrived ++ call ∷ [])
            (if waits_at (Gate.again app_id) serial then settled else settled ++ call ∷ []))
  again-InOrder none app_id e i = passes-InOrder c refl e i
  again-InOrder (some serial) app_id e i = record {
    ordered = joins arrived settled [] c.portal.held call i.ordered;
    agrees = (i.agrees.0, inr refl);
  }

  decided-InOrder :
      (answers : Answers) (g : Gate)
      → g ≢ Gate.wait
      → c.portal.held ≡ []
      → InOrder (of_parts c idle arrived settled)
      → InOrder (decided policy answers c arrived settled call g)
  decided-InOrder answers Gate.wait n e i = absurd (n refl)
  decided-InOrder answers (Gate.again app_id) n e i = again-InOrder answers.serial app_id e i
  decided-InOrder answers (Gate.pass dest) n e i =
      passes-InOrder _
        (by_verdict-Settles answers c call dest (verdict policy c call call.via)).portal_kept e i

arrive-InOrder :
    (policy : Policy) (answers : Answers) (c : Client) (phase : Phase) (arrived settled : List Held)
    (call : Held)
    → to_portal call ≡ true
    → InOrder (of_parts c phase arrived settled)
    → InOrder (arrive policy answers (of_parts c phase arrived settled) call)
unfolding forward waits
arrive-InOrder policy answers c phase arrived settled call t i = elim (Bool-cases (busy c.portal)) [
  | inl b ↦ rw (gate-busy c call t b) (record {
    ordered = joins arrived settled (in_flight phase) c.portal.held call i.ordered;
    agrees = hold-Agrees phase c.portal (c.portal.held ++ call ∷ []) b i.agrees;
  })
  | inr f ↦
      let (_, empty, _, is_idle) = free-idle phase c.portal f i.agrees in
      rw (is_idle, gate-free c call t f)
        (decided-InOrder policy c arrived settled call answers (gate_for c.portal.app_id c call)
          (gate_for-pass c.portal.app_id c call) empty (rw is_idle at i))
]

answered-InOrder :
    (c : Client) (reply : Message) (arrived settled : List Held)
    → InOrder (of_parts c idle arrived settled)
    → InOrder (of_parts (answered c reply) (passing []) arrived settled)
unfolding answered
answered-InOrder c reply arrived settled i = elim (Bool-cases (reply.kind == method_return_kind)) [
  | inl accepted ↦ rw accepted (record { ordered = i.ordered; agrees = (refl, refl) })
  | inr refused ↦ rw refused (record { ordered = i.ordered; agrees = (refl, refl) })
]

Step-InOrder : {s t : System} → Step s t → InOrder s → InOrder t
Step-InOrder {s = s} (Step.calls policy answers call t) i =
    arrive-InOrder policy answers s.client s.phase s.arrived s.settled call t i
Step-InOrder {s = s} (Step.replies reply is_idle r) i =
    answered-InOrder s.client reply s.arrived s.settled (rw is_idle at i)
Step-InOrder {s = s} (Step.drains found policy answers) i =
    drain_step-InOrder found policy answers s.client s.arrived s.settled s.phase i
Step-InOrder {s = s} (Step.others c k) i = record {
  ordered = rw k i.ordered;
  agrees = rw k i.agrees;
}

-- A client that nothing has been asked of.
abbrev pub fresh : Client → System
fresh c = of_parts c idle [] []

fresh-InOrder : (c : Client) → c.portal.held ≡ [] → c.portal.draining ≡ false → InOrder (fresh c)
fresh-InOrder c h d = record { ordered = sym h; agrees = (d, inl h) }

-- For a client whose portal state holds no call and is not being drained, whatever the calls, the
-- replies of the portal, the moves of the loop of `registered` and the other changes, and in any order: the
-- portal calls that arrived are those that were passed on or answered, then those that the loop has
-- taken, then the held ones, each in the order of their arrival; and outside the loop no call is held
-- unless a reply to a registration is awaited.
pub Reach-InOrder :
    (c : Client) {t : System}
    → c.portal.held ≡ []
    → c.portal.draining ≡ false
    → Reach (fresh c) t
    → InOrder t
Reach-InOrder c h d Reach.here = fresh-InOrder c h d
Reach-InOrder c h d (Reach.next r st) = Step-InOrder st (Reach-InOrder c h d r)
