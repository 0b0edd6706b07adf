-- ===== src/Portal/Policy/Listed.antt =====
-- `check` of src/portal.rs: which calls it forwards, and to whom.
use psbox.Common.{
  ap, ◌∙◌, ok, err, ◌≡◌, ◌≢◌, refl, sym, ◌∙◌, ap₂, ◌⊎◌, inl, inr, Bool, true, false, Option, none,
  some, List, [], ◌∷◌, ◌&&◌, some-injective, Bool-cases, if-cases, &&-eq-true, not, Option-cases,
  if◌then◌else◌,
}
use psbox.Common.Text.{Text, codes, eq, eq_sound, eq_refl, eq_ne, has_prefix, among, or_default}
use psbox.Dbus.Value.{Values}
use psbox.Dbus.Message.{Message, args}
use psbox.Portal.Names.{
  portal_name, portal_path, notifications_name, notifications_path, request_prefix, session_prefix,
  camera_iface, realtime_iface, properties_iface, introspectable_iface, peer_iface, methods,
  unidentified, notifications_methods, introspection,
}
use psbox.Dbus.Signature.{Outcome, DecodeError, is_panic}
use psbox.Portal.Arguments.{arg, str_of, first_str}
use psbox.Portal.Policy.{
  unread, with_target, Reason, property_access, Policy, FileRequest, Verdict, lookup, gated,
  portal_methods, get_or_get_all, check_listed, check_target, property_of, with_arguments,
  check_property, check_portal, check_request, check_session, check_notification, check,
}
use psbox.Portal.Policy.Reach.{
  table, IsGated, IsGet, PortalCall, SessionCall, NotificationCall, Reaches,
}
use mathlib.Core.List.{Memᴰ}

among-Memᴰ : (t : Text) (us : List Text) → among t us ≡ true → Memᴰ t us
unfolding among
among-Memᴰ t [] h = cc
among-Memᴰ t (u ∷ us) h = elim (Bool-cases (eq t u)) [
  | inl same ↦ Memᴰ.head (eq_sound t u same)
  | inr other ↦ Memᴰ.tail (among-Memᴰ t us (rw other at h))
]

lookup-Memᴰ :
    (iface : Text) (table : List (Text × List Text)) {listed : List Text}
    → lookup iface table ≡ some listed
    → Memᴰ (iface, listed) table
unfolding lookup
lookup-Memᴰ iface [] h = cc
lookup-Memᴰ iface ((name, ls) ∷ rest) {listed} h = elim (Bool-cases (eq iface name)) [
  | inl same ↦
      Memᴰ.head
        (ap₂ (λ i l. (i, l)) (eq_sound iface name same) (sym (some-injective (rw same at h))))
  | inr other ↦ Memᴰ.tail (lookup-Memᴰ iface rest (rw other at h))
]

gated-IsGated : (policy : Policy) (iface : Text) → gated policy iface ≡ true → IsGated policy iface
unfolding gated eq
gated-IsGated policy iface h = elim (Bool-cases (eq iface camera_iface)) [
  | inl cam ↦ record {
    camera = inr (rw cam at h);
    realtime =
        inl λ e. eq_ne camera_iface realtime_iface refl (sym (eq_sound iface camera_iface cam) ∙ e);
  }
  | inr other ↦ elim (Bool-cases (eq iface realtime_iface)) [
    | inl rt ↦ record {
      camera = inl (eq_ne iface camera_iface other);
      realtime = inr (rw (other, rt) at h);
    }
    | inr not_rt ↦ record {
      camera = inl (eq_ne iface camera_iface other);
      realtime = inl (eq_ne iface realtime_iface not_rt);
    }
  ]
]

found :
    (identified : Bool) {iface : Text} {listed : List Text}
    → lookup iface (if identified then methods else unidentified) ≡ some listed
    → Memᴰ (iface, listed) (table identified)
found true {iface} h = lookup-Memᴰ iface methods h
found false {iface} h = lookup-Memᴰ iface unidentified h

portal_methods-Has :
    (policy : Policy) (identified : Bool) (iface : Text) {listed : List Text}
    → portal_methods policy identified iface ≡ some listed
    → IsGated policy iface × Memᴰ (iface, listed) (table identified)
unfolding portal_methods
portal_methods-Has policy identified iface h = elim (Bool-cases (gated policy iface)) [
  | inl open_gate ↦ (gated-IsGated policy iface open_gate, found identified (rw open_gate at h))
  | inr shut ↦ cc (rw shut at h)
]

both : (a b c d : Text) → (eq a b && eq c d) ≡ true → (a ≡ b) × (c ≡ d)
both a b c d h = let (x, y) = &&-eq-true (eq a b) (eq c d) h in (eq_sound a b x, eq_sound c d y)

get_or_get_all-IsGet : (member : Text) → get_or_get_all member ≡ true → IsGet member
get_or_get_all-IsGet member h = elim (Bool-cases (eq member (codes "Get"))) [
  | inl get ↦ inl (eq_sound member _ get)
  | inr other ↦ inr (eq_sound member _ (rw other at h))
]

shown_identified :
    (iface : Text) (identified : Bool)
    → iface ≡ introspectable_iface
    → (eq iface introspectable_iface && not identified) ≡ false
    → identified ≡ true
shown_identified iface true i h = refl
shown_identified iface false i h = cc (rw (i, eq_refl introspectable_iface) at h)

introspection-cases :
    (iface : Text)
    → introspection iface ≡ true
    → (iface ≡ peer_iface) ⊎ (iface ≡ introspectable_iface)
unfolding introspection
introspection-cases iface h = elim (Bool-cases (eq iface introspectable_iface)) [
  | inl same ↦ inr (eq_sound iface _ same)
  | inr other ↦ inl (eq_sound iface _ (rw other at h))
]

module _ (a : Option Values) (f : Option FileRequest) where
  not_offered :
      (identified : Bool) (target : Text) → property_of identified target none ≢ Verdict.forward a f
  not_offered true target h = cc h
  not_offered false target h = cc h

  check_request-close :
      (iface member : Text)
      → check_request iface member ≡ Verdict.forward a f
      → (iface ≡ codes "org.freedesktop.portal.Request") × (member ≡ codes "Close")
  unfolding check_request
  check_request-close iface member h =
      elim (Bool-cases
        (eq iface (codes "org.freedesktop.portal.Request") && eq member (codes "Close"))) [
          | inl closes ↦ both iface _ member _ closes
          | inr other ↦ cc (rw other at h)
        ]

  check_session-SessionCall :
      (iface member : Text)
      → check_session iface member ≡ Verdict.forward a f
      → SessionCall iface member
  unfolding check_session
  check_session-SessionCall iface member h =
      elim (Bool-cases
        (eq iface (codes "org.freedesktop.portal.Session") && eq member (codes "Close"))) [
          | inl closes ↦ let (i, m) = both iface _ member _ closes in SessionCall.close i m
          | inr other ↦ elim (Bool-cases (eq iface properties_iface && get_or_get_all member)) [
            | inl gets ↦
                SessionCall.property (eq_sound iface _ (&&-eq-true _ _ gets).0)
                  (get_or_get_all-IsGet member (&&-eq-true _ _ gets).1)
            | inr refused ↦ cc (rw (other, refused) at h)
          ]
        ]

  check_notification-NotificationCall :
      (msg : Message) (iface member : Text)
      → check_notification msg iface member ≡ Verdict.forward a f
      → NotificationCall iface member
  unfolding check_notification
  check_notification-NotificationCall msg iface member h =
      elim (Bool-cases (eq iface notifications_name && eq member (codes "Notify"))) [
        | inl notify ↦
            let (i, m) = both iface _ member _ notify in NotificationCall.method i (Memᴰ.head m)
        | inr other ↦
            elim (Bool-cases (eq iface notifications_name && among member notifications_methods)) [
              | inl listed ↦
                  NotificationCall.method (eq_sound iface _ (&&-eq-true _ _ listed).0)
                    (among-Memᴰ member _ (&&-eq-true _ _ listed).1)
              | inr unlisted ↦
                  elim (Bool-cases (eq iface properties_iface && get_or_get_all member)) [
                    | inl gets ↦
                        NotificationCall.property (eq_sound iface _ (&&-eq-true _ _ gets).0)
                          (get_or_get_all-IsGet member (&&-eq-true _ _ gets).1)
                    | inr not_get ↦ elim (Bool-cases (introspection iface)) [
                      | inl looks ↦ NotificationCall.look (introspection-cases iface looks)
                      | inr refused ↦ cc (rw (other, unlisted, not_get, refused) at h)
                    ]
                  ]
            ]
      ]

  check_target-some :
      (policy : Policy) (identified : Bool) (asked : Option Text)
      → check_target policy identified asked ≡ Verdict.forward a f
      → (target : Text) × (listed : List Text) × (asked ≡ some target)
        × (portal_methods policy identified target ≡ some listed)
  check_target-some policy identified none h = cc h
  check_target-some policy identified (some target) h =
      elim (Option-cases (portal_methods policy identified target)) [
        | inl unlisted ↦ absurd (not_offered identified target (rw unlisted at h))
        | inr (listed, e) ↦ (target, listed, refl, e)
      ]

  pub check_listed-some :
      (policy : Policy) (identified : Bool) (msg : Message) (iface member : Text)
      (offered : Option (List Text))
      → check_listed policy identified msg iface member offered ≡ Verdict.forward a f
      → (listed : List Text) × (offered ≡ some listed)
        × (among member listed ≡ true)
        × (with_arguments policy msg iface member (args msg) ≡ Verdict.forward a f)
  check_listed-some policy true msg iface member none h = cc h
  check_listed-some policy false msg iface member none h = cc h
  check_listed-some policy true msg iface member (some listed) h =
      elim (if-cases (among member listed) h) [
        | inl (m, h) ↦ (listed, refl, m, h)
        | inr (_, h) ↦ cc h
      ]
  check_listed-some policy false msg iface member (some listed) h =
      elim (if-cases (among member listed) h) [
        | inl (m, h) ↦ (listed, refl, m, h)
        | inr (_, h) ↦ cc h
      ]

  pub unread-ne : (e : DecodeError) (why : Reason) → unread e why ≢ Verdict.forward a f
  unread-ne e why h = elim (if-cases (is_panic e) h) [ inl (_, h) ↦ cc h | inr (_, h) ↦ cc h ]

  pub with_target-some :
      (policy : Policy) (identified : Bool) (member : Text) (read : Outcome Values)
      → with_target policy identified member read ≡ Verdict.forward a f
      → (get_or_get_all member ≡ true)
        × (vs : Values) × (read ≡ ok vs)
        × (target : Text) × (listed : List Text) × (str_of (arg 0 vs) ≡ some target)
        × (portal_methods policy identified target ≡ some listed)
  with_target-some policy identified member (err e) h = absurd (unread-ne e property_access h)
  with_target-some policy identified member (ok vs) h = elim (if-cases (get_or_get_all member) h) [
    | inl (gets, h) ↦
        let (target, listed, asked, offered) =
          check_target-some policy identified (str_of (arg 0 vs)) h in
        (gets, vs, refl, target, listed, asked, offered)
    | inr (_, h) ↦ cc h
  ]

  check_property-PortalCall :
      (policy : Policy) (identified : Bool) (msg : Message) (iface member : Text)
      → iface ≡ properties_iface
      → check_property policy identified msg member ≡ Verdict.forward a f
      → PortalCall policy identified (first_str (args msg)) iface member
  unfolding check_property
  check_property-PortalCall policy identified msg iface member i h =
      let (gets, vs, read, target, listed, asked, offered) =
        with_target-some policy identified member (args msg) h in
      let (gate, row) = portal_methods-Has policy identified target offered in
      PortalCall.property target listed i (get_or_get_all-IsGet member gets)
        (ap first_str read ∙ asked) gate row

  check_portal-PortalCall :
      (policy : Policy) (identified : Bool) (msg : Message) (iface member : Text)
      → check_portal policy identified msg iface member ≡ Verdict.forward a f
      → PortalCall policy identified (first_str (args msg)) iface member
  unfolding check_portal
  check_portal-PortalCall policy identified msg iface member h =
      elim (if-cases (eq iface introspectable_iface && not identified) h) [
        | inl (hidden, h) ↦ cc h
        | inr (shown, h) ↦ elim (if-cases (introspection iface) h) [
          | inl (looks, h) ↦ PortalCall.look (elim (introspection-cases iface looks) [
            | inl p ↦ inl p
            | inr i ↦ inr (i, shown_identified iface identified i shown)
          ])
          | inr (_, h) ↦ elim (if-cases (eq iface properties_iface) h) [
            | inl (p, h) ↦
                check_property-PortalCall policy identified msg iface member (eq_sound iface _ p) h
            | inr (_, h) ↦
                let (listed, offered, allowed, _) =
                  check_listed-some policy identified msg iface member
                    (portal_methods policy identified iface) h in
                let (gate, row) = portal_methods-Has policy identified iface offered in
                PortalCall.method gate
                  (record { listed = listed; row = row; method = among-Memᴰ member listed allowed })
          ]
        ]
      ]

-- A call that `check` forwards is one of these: a listed method on the portal's object (of the short
-- list without an identity), its camera and realtime interfaces only where the policy opens them; a
-- read of the properties of an interface that is listed in the same way,
-- which its first argument names; an introspection, for an identified caller, or a ping;
-- the closing of a request or session, or a read of a session's properties; a listed method, a read of
-- properties or an introspection on the notification object.
pub check-Reaches :
    (policy : Policy) (identified : Bool) (m : Message) (a : Option Values) (f : Option FileRequest)
    → check policy identified m ≡ Verdict.forward a f
    → Reaches policy identified
        (first_str (args m))
        (or_default m.destination)
        (or_default m.path)
        (or_default m.interface)
        (or_default m.member)
unfolding check
check-Reaches policy identified m a f h =
    let dest = or_default m.destination in
    let path = or_default m.path in
    let iface = or_default m.interface in
    let member = or_default m.member in
    elim (if-cases (eq dest portal_name && eq path portal_path) h) [
      | inl (t, h) ↦
          let (d, p) = both dest _ path _ t in
          Reaches.portal d p (check_portal-PortalCall a f policy identified m iface member h)
      | inr (_, h) ↦ elim (if-cases (eq dest portal_name && has_prefix request_prefix path) h) [
        | inl (t, h) ↦
            let (i, w) = check_request-close a f iface member h in
            Reaches.request (eq_sound dest _ (&&-eq-true _ _ t).0) (&&-eq-true _ _ t).1 i w
        | inr (_, h) ↦ elim (if-cases (eq dest portal_name && has_prefix session_prefix path) h) [
          | inl (t, h) ↦
              Reaches.session (eq_sound dest _ (&&-eq-true _ _ t).0) (&&-eq-true _ _ t).1
                (check_session-SessionCall a f iface member h)
          | inr (_, h) ↦
              elim (if-cases (eq dest notifications_name && eq path notifications_path) h) [
                | inl (t, h) ↦
                    let (d, p) = both dest _ path _ t in
                    Reaches.notification d p
                      (check_notification-NotificationCall a f m iface member h)
                | inr (_, h) ↦ cc h
              ]
        ]
      ]
    ]
