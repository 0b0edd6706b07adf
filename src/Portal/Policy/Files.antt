-- ===== src/Portal/Policy/Files.antt =====
-- `check` of src/portal.rs for a connection without a portal identity, and the files that it returns.
use psbox.Common.{
  ℕ, ◌≡◌, refl, inl, inr, false, Option, none, some, List, ◌&&◌, not, Bool-cases, if-cases, ok, err,
}
use psbox.Common.Text.{Text, codes, eq, eq_sound, has_prefix, among, or_default}
use psbox.Dbus.Value.{Values}
use psbox.Dbus.Signature.{Outcome}
use psbox.Dbus.Message.{Message, args}
use psbox.Portal.Names.{
  portal_name, portal_path, notifications_name, notifications_path, open_uri_iface, request_prefix,
  session_prefix, screenshot_iface, screen_cast_iface, realtime_iface, file_chooser_iface,
  properties_iface, introspectable_iface, unidentified, notifications_methods, introspection,
}
use psbox.Portal.Arguments.{is_dict, arg}
use psbox.Portal.Policy.{
  malformed_arguments, Policy, FileRequest, Verdict, lookup, gated, portal_methods, check_arguments,
  forced, open_uri, uri_scheme, get_or_get_all, with_arguments, check_property, check_portal,
  check_request, check_session, check_notification, strip_notify_paths, strip_hints, check,
}
use psbox.Portal.Policy.Listed.{check_listed-some, with_target-some, unread-ne}

module _ {a : Option Values} {f : Option FileRequest} where
  no_file : {b : Option Values} → Verdict.forward b none ≡ Verdict.forward a f → f ≡ none
  no_file e = cc e

  open_uri-no_file :
      (policy : Policy) (args : Values) → open_uri policy args ≡ Verdict.forward a f → f ≡ none
  unfolding open_uri
  open_uri-no_file policy args h = elim (if-cases (among (uri_scheme args) policy.uri_schemes) h) [
    | inl (_, h) ↦ no_file h
    | inr (_, h) ↦ cc h
  ]

  forced-no_file :
      (msg : Message) (args : Values) (i : ℕ) (sig flag : Text)
      → forced msg args i sig flag none ≡ Verdict.forward a f
      → f ≡ none
  unfolding forced
  forced-no_file msg args i sig flag h =
      elim (if-cases (is_dict (arg i args) && eq msg.signature sig) h) [
        | inl (_, h) ↦ no_file h
        | inr (_, h) ↦ cc h
      ]

  -- Only screenshots and the file chooser return files.
  check_arguments-no_file :
      (policy : Policy) (msg : Message) (iface member : Text) (args : Values)
      → eq iface screenshot_iface ≡ false
      → eq iface file_chooser_iface ≡ false
      → check_arguments policy msg iface member args ≡ Verdict.forward a f
      → f ≡ none
  unfolding check_arguments
  check_arguments-no_file policy msg iface member args shot choose h =
      elim (if-cases (eq iface open_uri_iface && eq member (codes "OpenURI")) h) [
        | inl (_, h) ↦ open_uri-no_file policy args h
        | inr (_, h) ↦
            elim (if-cases (eq iface open_uri_iface && eq member (codes "OpenFile"))
              (rw shot at h)) [
                | inl (_, h) ↦ forced-no_file msg args 2 (codes "sha{sv}") (codes "ask") h
                | inr (_, h) ↦
                    elim (if-cases (eq iface screen_cast_iface && eq member (codes "SelectSources"))
                      h) [
                        | inl (_, h) ↦ no_file h
                        | inr (_, h) ↦ elim (if-cases (eq iface realtime_iface) h) [
                          | inl (_, h) ↦
                              elim (if-cases
                                (eq member (codes "MakeThreadRealtimeWithPID")
                                  && eq msg.signature (codes "ttu"))
                                h) [
                                  | inl (_, h) ↦ no_file h
                                  | inr (_, h) ↦
                                      elim (if-cases
                                        (eq member (codes "MakeThreadHighPriorityWithPID")
                                          && eq msg.signature (codes "tti"))
                                        h) [ inl (_, h) ↦ no_file h | inr (_, h) ↦ cc h ]
                                ]
                          | inr (_, h) ↦ no_file (rw choose at h)
                        ]
                      ]
              ]
      ]

no_screenshots : (policy : Policy) → portal_methods policy false screenshot_iface ≡ none
unfolding portal_methods lookup gated eq unidentified
no_screenshots policy = refl

no_chooser : (policy : Policy) → portal_methods policy false file_chooser_iface ≡ none
unfolding portal_methods lookup gated eq unidentified
no_chooser policy = refl

-- An interface that is offered is not one that is not.
offered-ne :
    (policy : Policy) (iface other : Text) {ts : List Text}
    → portal_methods policy false other ≡ none
    → portal_methods policy false iface ≡ some ts
    → eq iface other ≡ false
offered-ne policy iface other absent offered = elim (Bool-cases (eq iface other)) [
  | inl same ↦ cc (rw (eq_sound iface other same, absent) at offered)
  | inr differs ↦ differs
]

module _ {a : Option Values} {f : Option FileRequest} where
  pub with_arguments-ok :
      (policy : Policy) (msg : Message) (iface member : Text) (read : Outcome Values)
      → with_arguments policy msg iface member read ≡ Verdict.forward a f
      → (vs : Values) × (read ≡ ok vs)
        × (check_arguments policy msg iface member vs ≡ Verdict.forward a f)
  with_arguments-ok policy msg iface member (err e) h =
      absurd (unread-ne a f e malformed_arguments h)
  with_arguments-ok policy msg iface member (ok vs) h = (vs, refl, h)

  check_property-no_file :
      (policy : Policy) (msg : Message) (member : Text)
      → check_property policy false msg member ≡ Verdict.forward a f
      → f ≡ none
  unfolding check_property
  check_property-no_file policy msg member h =
      let (gets, vs, read, target, ts, asked, offered) =
        with_target-some a f policy false member (args msg) h in
      no_file (rw (read, gets, asked, offered) at h)

  check_portal-no_file :
      (policy : Policy) (msg : Message) (iface member : Text)
      → check_portal policy false msg iface member ≡ Verdict.forward a f
      → f ≡ none
  unfolding check_portal
  check_portal-no_file policy msg iface member h =
      elim (if-cases (eq iface introspectable_iface && not false) h) [
        | inl (_, h) ↦ cc h
        | inr (_, h) ↦ elim (if-cases (introspection iface) h) [
          | inl (_, h) ↦ no_file h
          | inr (_, h) ↦ elim (if-cases (eq iface properties_iface) h) [
            | inl (_, h) ↦ check_property-no_file policy msg member h
            | inr (_, h) ↦
                let (ts, offered, _, h) =
                  check_listed-some a f policy false msg iface member
                    (portal_methods policy false iface) h in
                let (vs, _, h) = with_arguments-ok policy msg iface member (args msg) h in
                check_arguments-no_file policy msg iface member vs
                  (offered-ne policy iface screenshot_iface (no_screenshots policy) offered)
                  (offered-ne policy iface file_chooser_iface (no_chooser policy) offered) h
          ]
        ]
      ]

  strip_hints-no_file : (read : Outcome Values) → strip_hints read ≡ Verdict.forward a f → f ≡ none
  strip_hints-no_file (err e) h = absurd (unread-ne a f e malformed_arguments h)
  strip_hints-no_file (ok vs) h = no_file h

  check_request-no_file :
      (iface member : Text) → check_request iface member ≡ Verdict.forward a f → f ≡ none
  unfolding check_request
  check_request-no_file iface member h =
      elim (if-cases
        (eq iface (codes "org.freedesktop.portal.Request") && eq member (codes "Close")) h) [
          | inl (_, h) ↦ no_file h
          | inr (_, h) ↦ cc h
        ]

  check_session-no_file :
      (iface member : Text) → check_session iface member ≡ Verdict.forward a f → f ≡ none
  unfolding check_session
  check_session-no_file iface member h =
      elim (if-cases
        (eq iface (codes "org.freedesktop.portal.Session") && eq member (codes "Close")) h) [
          | inl (_, h) ↦ no_file h
          | inr (_, h) ↦ elim (if-cases (eq iface properties_iface && get_or_get_all member) h) [
            | inl (_, h) ↦ no_file h
            | inr (_, h) ↦ cc h
          ]
        ]

  check_notification-no_file :
      (msg : Message) (iface member : Text)
      → check_notification msg iface member ≡ Verdict.forward a f
      → f ≡ none
  unfolding check_notification strip_notify_paths
  check_notification-no_file msg iface member h =
      elim (if-cases (eq iface notifications_name && eq member (codes "Notify")) h) [
        | inl (_, h) ↦ strip_hints-no_file (args msg) h
        | inr (_, h) ↦
            elim (if-cases (eq iface notifications_name && among member notifications_methods) h) [
              | inl (_, h) ↦ no_file h
              | inr (_, h) ↦
                  elim (if-cases (eq iface properties_iface && get_or_get_all member) h) [
                    | inl (_, h) ↦ no_file h
                    | inr (_, h) ↦ elim (if-cases (introspection iface) h) [
                      | inl (_, h) ↦ no_file h
                      | inr (_, h) ↦ cc h
                    ]
                  ]
            ]
      ]

  pub check-no_file :
      (policy : Policy) (m : Message) → check policy false m ≡ Verdict.forward a f → f ≡ none
  unfolding check
  check-no_file policy m h =
      let dest = or_default m.destination in
      let path = or_default m.path in
      let iface = or_default m.interface in
      let member = or_default m.member in
      elim (if-cases (eq dest portal_name && eq path portal_path) h) [
        | inl (_, h) ↦ check_portal-no_file policy m iface member h
        | inr (_, h) ↦ elim (if-cases (eq dest portal_name && has_prefix request_prefix path) h) [
          | inl (_, h) ↦ check_request-no_file iface member h
          | inr (_, h) ↦ elim (if-cases (eq dest portal_name && has_prefix session_prefix path) h) [
            | inl (_, h) ↦ check_session-no_file iface member h
            | inr (_, h) ↦
                elim (if-cases (eq dest notifications_name && eq path notifications_path) h) [
                  | inl (_, h) ↦ check_notification-no_file m iface member h
                  | inr (_, h) ↦ cc h
                ]
          ]
        ]
      ]
