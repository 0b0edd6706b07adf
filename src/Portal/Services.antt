-- ===== src/Portal/Services.antt =====
-- `service_for` of src/portal.rs against `check`.
use psbox.Common.{
  ◌≡◌, ◌≢◌, refl, ◌⊎◌, inl, inr, Bool, true, false, some, ◌||◌, Bool-cases, ||-eq-false,
}
use psbox.Common.Text.{Text, eq, eq_sound, eq_refl, has_prefix, among, or_default}
use psbox.Dbus.Message.{Message}
use psbox.Portal.Names.{
  portal_name, portal_path, notifications_name, notifications_path, gateway_names, request_prefix,
  session_prefix, service_for,
}
use psbox.Portal.Policy.{Policy, Verdict, object_not_allowed, check}

among-cases :
    (name : Text)
    → among name gateway_names ≡ true
    → (name ≡ portal_name) ⊎ (name ≡ notifications_name)
unfolding among
among-cases name h = elim (Bool-cases (eq name portal_name)) [
  | inl same ↦ inl (eq_sound name _ same)
  | inr other ↦ elim (Bool-cases (eq name notifications_name)) [
    | inl same ↦ inr (eq_sound name _ same)
    | inr neither ↦ cc (rw (other, neither) at h)
  ]
]

-- The objects of the portal.
abbrev portal_object : Text → Bool
portal_object path =
    eq path portal_path || has_prefix request_prefix path || has_prefix session_prefix path

module _ (unique : Text) (u : among unique gateway_names ≡ false) where
  service_for-portal :
      (path : Text) → portal_object path ≡ true → service_for unique unique path ≡ some portal_name
  unfolding service_for
  service_for-portal path t = rw (u, eq_refl unique, t) refl

  service_for-notifications : service_for unique unique notifications_path ≡ some notifications_name
  unfolding service_for
  service_for-notifications = rw (u, eq_refl unique) refl

module _ (policy : Policy) (identified : Bool) (m : Message) where
  check-no_portal_object :
      portal_object (or_default m.path) ≡ false
      → check policy identified (record m { destination = some portal_name })
        ≡ Verdict.deny object_not_allowed
  unfolding check
  check-no_portal_object h =
      let path = or_default m.path in
      let requests = has_prefix request_prefix path in
      let sessions = has_prefix session_prefix path in
      let (first, session) = ||-eq-false (eq path portal_path || requests) sessions h in
      let (own, request) = ||-eq-false (eq path portal_path) requests first in
      rw (own, request, session) refl

  check-no_notifications :
      eq (or_default m.path) notifications_path ≡ false
      → check policy identified (record m { destination = some notifications_name })
        ≡ Verdict.deny object_not_allowed
  unfolding check
  check-no_notifications h = rw h refl

-- For a name of the gateway's connection that is no service, and a call whose object `check` knows
-- at one of the services, `service_for` finds that service from the object alone.
pub service_for-check :
    (policy : Policy) (identified : Bool) (m : Message) (unique name : Text)
    → among unique gateway_names ≡ false
    → among name gateway_names ≡ true
    → check policy identified (record m { destination = some name })
      ≢ Verdict.deny object_not_allowed
    → service_for unique unique (or_default m.path) ≡ some name
service_for-check policy identified m unique name u n known =
    let path = or_default m.path in
    elim (among-cases name n) [
      | inl portal ↦ elim (Bool-cases (portal_object path)) [
        | inl t ↦ rw portal (service_for-portal unique u path t)
        | inr h ↦ absurd (known (rw portal (check-no_portal_object policy identified m h)))
      ]
      | inr notifications ↦ elim (Bool-cases (eq path notifications_path)) [
        | inl t ↦
            rw (eq_sound path notifications_path t, notifications)
              (service_for-notifications unique u)
        | inr h ↦ absurd (known (rw notifications (check-no_notifications policy identified m h)))
      ]
    ]
