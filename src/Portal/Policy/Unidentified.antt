-- ===== src/Portal/Policy/Unidentified.antt =====
-- `check` of src/portal.rs for a connection without a portal identity, against one that has it.
use psbox.Common.{
  ◌≡◌, refl, sym, inl, inr, Bool, true, false, Option, none, some, List, [], ◌∷◌, ◌&&◌, not,
  Bool-cases, if-cases, &&-eq-true, some-injective,
}
use psbox.Common.Text.{Text, eq, eq_sound, among, or_default}
use psbox.Dbus.Value.{Values}
use psbox.Dbus.Message.{Message, args}
use psbox.Portal.Names.{
  portal_name, portal_path, properties_iface, introspectable_iface, methods, unidentified,
  introspection,
}
use psbox.Portal.Policy.{
  Policy, FileRequest, Verdict, lookup, gated, portal_methods, check_listed, check_property,
  check_portal, check,
}
use psbox.Portal.Policy.Files.{check-no_file}
use psbox.Portal.Policy.Listed.{check_listed-some, with_target-some}

abbrev all_among : List Text → List Text → Bool
all_among [] us = true
all_among (t ∷ ts) us = among t us && all_among ts us

abbrev covered : Option (List Text) → List Text → Bool
covered none ts = false
covered (some us) ts = all_among ts us

-- Each row of the first table has all its methods in the second.
abbrev covers : List (Text × List Text) → List (Text × List Text) → Bool
covers [] wide = true
covers ((name, ts) ∷ rest) wide = covered (lookup name wide) ts && covers rest wide

among-all_among :
    (t : Text) (ts us : List Text) → all_among ts us ≡ true → among t ts ≡ true → among t us ≡ true
unfolding among
among-all_among t [] us c h = cc h
among-all_among t (u ∷ ts) us c h =
    let (here, there) = &&-eq-true _ _ c in
    elim (Bool-cases (eq t u)) [
      | inl same ↦ rw (eq_sound t u same) here
      | inr other ↦ among-all_among t ts us there (rw other at h)
    ]

covered-some :
    (offered : Option (List Text)) (ts : List Text)
    → covered offered ts ≡ true
    → (us : List Text) × (offered ≡ some us) × (all_among ts us ≡ true)
covered-some none ts h = cc h
covered-some (some us) ts h = (us, refl, h)

lookup-covers :
    (iface : Text) (narrow wide : List (Text × List Text)) {ts : List Text}
    → covers narrow wide ≡ true
    → lookup iface narrow ≡ some ts
    → (us : List Text) × (lookup iface wide ≡ some us) × (all_among ts us ≡ true)
unfolding lookup
lookup-covers iface [] wide c h = cc h
lookup-covers iface ((name, row) ∷ rest) wide {ts} c h =
    let (here, there) = &&-eq-true _ _ c in
    elim (if-cases (eq iface name) h) [
      | inl (same, e) ↦
          let (us, found, all) = covered-some (lookup name wide) row here in
          (us, rw (eq_sound iface name same) found, rw (sym (some-injective e)) all)
      | inr (_, later) ↦ lookup-covers iface rest wide there later
    ]

portal_methods-identified :
    (policy : Policy) (iface : Text) {ts : List Text}
    → portal_methods policy false iface ≡ some ts
    → (us : List Text) × (portal_methods policy true iface ≡ some us) × (all_among ts us ≡ true)
unfolding portal_methods lookup eq methods unidentified among
portal_methods-identified policy iface {ts} h = elim (if-cases (gated policy iface) h) [
  | inl (open_gate, found) ↦
      let (us, e, all) = lookup-covers iface unidentified methods refl found in
      (us, rw open_gate e, all)
  | inr (_, h) ↦ cc h
]

&&-false : (b : Bool) → (b && false) ≡ false
&&-false true = refl
&&-false false = refl

module _ (a : Option Values) (f : Option FileRequest) where
  check_property-identified :
      (policy : Policy) (msg : Message) (member : Text)
      → check_property policy false msg member ≡ Verdict.forward a f
      → check_property policy true msg member ≡ Verdict.forward a f
  unfolding check_property
  check_property-identified policy msg member h =
      let (gets, vs, read, target, ts, asked, offered) =
        with_target-some a f policy false member (args msg) h in
      let (us, wide, _) = portal_methods-identified policy target offered in
      rw (read, gets, asked, wide) (rw (read, gets, asked, offered) at h)

  check_listed-identified :
      (policy : Policy) (msg : Message) (iface member : Text)
      → check_listed policy false msg iface member (portal_methods policy false iface)
        ≡ Verdict.forward a f
      → check_listed policy true msg iface member (portal_methods policy true iface)
        ≡ Verdict.forward a f
  check_listed-identified policy msg iface member h =
      let (ts, offered, method, rest) =
        check_listed-some a f policy false msg iface member (portal_methods policy false iface) h in
      let (us, wide, all) = portal_methods-identified policy iface offered in
      rw (wide, among-all_among member ts us all method) rest

  check_portal-identified :
      (policy : Policy) (msg : Message) (iface member : Text)
      → check_portal policy false msg iface member ≡ Verdict.forward a f
      → check_portal policy true msg iface member ≡ Verdict.forward a f
  unfolding check_portal
  check_portal-identified policy msg iface member h =
      elim (if-cases (eq iface introspectable_iface && not false) h) [
        | inl (hidden, h) ↦ cc h
        | inr (_, h) ↦ elim (if-cases (introspection iface) h) [
          | inl (looks, h) ↦ rw (&&-false (eq iface introspectable_iface), looks) h
          | inr (not_look, h) ↦ elim (if-cases (eq iface properties_iface) h) [
            | inl (p, h) ↦
                rw (&&-false (eq iface introspectable_iface), not_look, p)
                  (check_property-identified policy msg member h)
            | inr (not_p, h) ↦
                rw (&&-false (eq iface introspectable_iface), not_look, not_p)
                  (check_listed-identified policy msg iface member h)
          ]
        ]
      ]

  -- Whatever is forwarded without an identity is forwarded with the same arguments with one.
  check-identified :
      (policy : Policy) (m : Message)
      → check policy false m ≡ Verdict.forward a f
      → check policy true m ≡ Verdict.forward a f
  unfolding check
  check-identified policy m h =
      let iface = or_default m.interface in
      let member = or_default m.member in
      elim (if-cases
        (eq (or_default m.destination) portal_name && eq (or_default m.path) portal_path) h) [
          | inl (on_portal, h) ↦ rw on_portal (check_portal-identified policy m iface member h)
          | inr (elsewhere, h) ↦ rw elsewhere h
        ]

-- What is forwarded for a caller without an identity is forwarded, with the same arguments, for one
-- that has an identity, and it returns no file of the host.
pub check-unidentified :
    (policy : Policy) (m : Message) {a : Option Values} {f : Option FileRequest}
    → check policy false m ≡ Verdict.forward a f
    → (check policy true m ≡ Verdict.forward a f) × (f ≡ none)
check-unidentified policy m {a} {f} h = (check-identified a f policy m h, check-no_file policy m h)
