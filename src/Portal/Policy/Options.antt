-- ===== src/Portal/Policy/Options.antt =====
-- `check` of src/portal.rs: what it does to the options of the calls that it forwards.
use psbox.Common.{
  ℕ, zero, suc, ◌≡◌, refl, inl, inr, Bool, true, false, Option, none, some, ◌&&◌, not, if-cases,
  &&-eq-true, ok,
}
use psbox.Common.Text.{Text, codes, eq, eq_refl, or_default}
use psbox.Dbus.Value.{Value, Values, dict_get, dict_set}
use psbox.Dbus.Value.Dictionary.{dict_get-dict_set_self}
use psbox.Dbus.Message.{Message, args}
use psbox.Portal.Names.{
  portal_name, portal_path, open_uri_iface, screenshot_iface, properties_iface,
  introspectable_iface, introspection,
}
use psbox.Portal.Arguments.{update_arg, arg, is_dict}
use psbox.Portal.Policy.{
  Policy, FileRequest, Verdict, check_arguments, forced, portal_methods, check_portal, check,
}
use psbox.Portal.Policy.Listed.{check_listed-some}
use psbox.Portal.Policy.Files.{with_arguments-ok}

abbrev pub option_map : (Value → Value) → Option Value → Option Value
option_map f none = none
option_map f (some v) = some (f v)

pub arg-update_arg :
    (i : ℕ) (f : Value → Value) (vs : Values) → arg i (update_arg i f vs) ≡ option_map f (arg i vs)
unfolding arg update_arg
arg-update_arg i f Values.nothing = refl
arg-update_arg zero f (Values.item v vs) = refl
arg-update_arg (suc i) f (Values.item v vs) = arg-update_arg i f vs

-- The option `key` of the argument `i`.
abbrev pub option_of : Option Value → Text → Option Value
option_of none key = none
option_of (some opts) key = dict_get opts key

abbrev pub flagged : Text → Value → Value
flagged flag opts = dict_set opts flag (Value.bool true)

is_dict-some :
    (o : Option Value)
    → is_dict o ≡ true
    → (opts : Value) × (o ≡ some opts)
      × ((flag : Text) → dict_get (flagged flag opts) flag ≡ some (Value.bool true))
is_dict-some none h = cc h
is_dict-some (some (Value.dict k v es)) h =
    (Value.dict k v es, refl, λ flag. dict_get-dict_set_self k v es flag (Value.bool true))
is_dict-some (some _) h = cc h

module _ {a : Option Values} {f : Option FileRequest} (m : Message) where
  portal_arguments :
      (policy : Policy) (identified : Bool) (iface member : Text)
      → introspection iface ≡ false
      → eq iface properties_iface ≡ false
      → check_portal policy identified m iface member ≡ Verdict.forward a f
      → (vs : Values) × (args m ≡ ok vs)
        × (check_arguments policy m iface member vs ≡ Verdict.forward a f)
  unfolding check_portal
  portal_arguments policy identified iface member looks prop h =
      elim (if-cases (eq iface introspectable_iface && not identified) h) [
        | inl (_, h) ↦ cc h
        | inr (_, h) ↦ elim (if-cases (introspection iface) h) [
          | inl (t, _) ↦ cc (t, looks)
          | inr (_, h) ↦
              let (_, _, _, h) =
                check_listed-some a f policy identified m iface member
                  (portal_methods policy identified iface) (rw prop at h) in
              with_arguments-ok policy m iface member (args m) h
        ]
      ]

  -- A forwarded call of an interface of the portal passed the test of its arguments.
  pub forwarded_arguments :
      (policy : Policy) (identified : Bool)
      → or_default m.destination ≡ portal_name
      → or_default m.path ≡ portal_path
      → introspection (or_default m.interface) ≡ false
      → eq (or_default m.interface) properties_iface ≡ false
      → check policy identified m ≡ Verdict.forward a f
      → (vs : Values) × (args m ≡ ok vs)
        × (check_arguments policy m (or_default m.interface) (or_default m.member) vs
            ≡ Verdict.forward a f)
  unfolding check
  forwarded_arguments policy identified d p looks prop h =
      portal_arguments policy identified (or_default m.interface) (or_default m.member) looks prop
        (rw (d, p, eq_refl portal_name, eq_refl portal_path) at h)

  forced-flag :
      (vs : Values) (i : ℕ) (sig flag : Text) (file : Option FileRequest)
      → forced m vs i sig flag file ≡ Verdict.forward a f
      → (ws : Values) × (a ≡ some ws) × (option_of (arg i ws) flag ≡ some (Value.bool true))
  unfolding forced
  forced-flag vs i sig flag file h = elim (if-cases (is_dict (arg i vs) && eq m.signature sig) h) [
    | inl (t, h) ↦
        let (opts, e, sets) = is_dict-some (arg i vs) (&&-eq-true _ _ t).0 in
        (
          update_arg i (flagged flag) vs,
          cc h,
          rw (arg-update_arg i (flagged flag) vs, e) (sets flag),
        )
    | inr (_, h) ↦ cc h
  ]

-- A call that is asked about: its interface and method, and the option that makes the host ask.
pub data Asks (iface member : Text) (i : ℕ) (flag : Text) : Type 0 where
  screenshot :
      iface ≡ screenshot_iface
      → member ≡ codes "Screenshot"
      → i ≡ 1
      → flag ≡ codes "interactive"
      → Asks iface member i flag
  file :
      iface ≡ open_uri_iface
      → member ≡ codes "OpenFile"
      → i ≡ 2
      → flag ≡ codes "ask"
      → Asks iface member i flag

module _ (policy : Policy) (identified : Bool) (m : Message) {a : Option Values}
    {f : Option FileRequest} where
  -- A screenshot, or a file to open, that is forwarded on the portal's object has the arguments
  -- replaced, with the option `interactive`, or `ask`, set to true.
  pub check-Asks :
      {i : ℕ} {flag : Text}
      → or_default m.destination ≡ portal_name
      → or_default m.path ≡ portal_path
      → Asks (or_default m.interface) (or_default m.member) i flag
      → check policy identified m ≡ Verdict.forward a f
      → (ws : Values) × (a ≡ some ws) × (option_of (arg i ws) flag ≡ some (Value.bool true))
  unfolding eq introspection check_arguments
  check-Asks d p (Asks.screenshot iface member i flag) h =
      let (vs, _, h) =
        forwarded_arguments m policy identified d p (rw iface refl) (rw iface refl) h in
      rw (i, flag) (forced-flag m vs 1 _ _ _ (rw (iface, member) at h))
  check-Asks d p (Asks.file iface member i flag) h =
      let (vs, _, h) =
        forwarded_arguments m policy identified d p (rw iface refl) (rw iface refl) h in
      rw (i, flag) (forced-flag m vs 2 _ _ _ (rw (iface, member) at h))
