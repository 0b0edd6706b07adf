-- ===== src/Gateway/Serve/Signals.antt =====
-- `relay_signal` of src/gateway.rs: the signals that are for a client.
use psbox.Common.{
  ℕ, ◌≡◌, refl, sym, ap, ◌⊎◌, inl, inr, Bool, true, false, ◌||◌, not, Option, none, some, List, [],
  ◌∷◌, ◌++◌, Bool-cases, if-cases, &&-eq-true, ||-eq-false, ok,
}
use psbox.Common.Text.{Text, codes, eq, eq_sound, has_prefix, or_default}
use psbox.Dbus.Message.{Message}
use psbox.Portal.Names.{
  portal_path, notifications_name, notifications_path, properties_iface, signal_forwarded,
}
use psbox.Gateway.State.{Client}
use psbox.Gateway.Relay.{owned_by, from_owner, relay_signal}
use mathlib.Core.List.{Memᴰ}

-- The portal's own object or one below it.
abbrev pub IsPortalObject : Text → Type 0
IsPortalObject path = (path ≡ portal_path) ⊎ (has_prefix (portal_path ++ b'/' ∷ []) path ≡ true)

-- A signal of the services that the gateway stands for.
pub data ServiceSignal (path iface : Text) : Type 0 where
  property :
      iface ≡ properties_iface
      → IsPortalObject path ⊎ (path ≡ notifications_path)
      → ServiceSignal path iface
  notification : iface ≡ notifications_name → path ≡ notifications_path → ServiceSignal path iface
  portal :
      IsPortalObject path
      → has_prefix (codes "org.freedesktop.portal.") iface ≡ true
      → ServiceSignal path iface

-- The sender owns one of the names that the gateway stands for.
pub record FromOwner (c : Client) (msg : Message) : Type 0 where
  pub name : Text
  pub sender : Text
  pub sender_is : msg.sender ≡ some sender
  pub owns : Memᴰ (name, sender) c.owners

object-IsPortalObject :
    (path : Text)
    → (eq path portal_path || has_prefix (portal_path ++ b'/' ∷ []) path) ≡ true
    → IsPortalObject path
object-IsPortalObject path h = elim (Bool-cases (eq path portal_path)) [
  | inl same ↦ inl (eq_sound path _ same)
  | inr other ↦ inr (rw other at h)
]

signal_forwarded-ServiceSignal :
    (path iface : Text) → signal_forwarded path iface ≡ true → ServiceSignal path iface
unfolding signal_forwarded
signal_forwarded-ServiceSignal path iface h =
    let object = eq path portal_path || has_prefix (portal_path ++ b'/' ∷ []) path in
    elim (if-cases (eq iface properties_iface) h) [
      | inl (i, h) ↦ elim (Bool-cases object) [
        | inl o ↦ ServiceSignal.property (eq_sound iface _ i) (inl (object-IsPortalObject path o))
        | inr other ↦
            ServiceSignal.property (eq_sound iface _ i) (inr (eq_sound path _ (rw other at h)))
      ]
      | inr (_, h) ↦ elim (if-cases (eq iface notifications_name) h) [
        | inl (i, h) ↦ ServiceSignal.notification (eq_sound iface _ i) (eq_sound path _ h)
        | inr (_, h) ↦
            let (o, i) = &&-eq-true object _ h in
            ServiceSignal.portal (object-IsPortalObject path o) i
      ]
    ]

owned_by-Memᴰ :
    (owners : List (Text × Text)) (sender : Text)
    → owned_by owners sender ≡ true
    → (name : Text) × Memᴰ (name, sender) owners
owned_by-Memᴰ [] sender h = cc h
owned_by-Memᴰ ((name, owner) ∷ rest) sender h = elim (Bool-cases (eq owner sender)) [
  | inl same ↦ (name, Memᴰ.head (ap (λ o. (name, o)) (sym (eq_sound owner sender same))))
  | inr other ↦ let (it, m) = owned_by-Memᴰ rest sender (rw other at h) in (it, Memᴰ.tail m)
]

from_owner-FromOwner :
    (c : Client) (msg : Message) (sender : Option Text)
    → msg.sender ≡ sender
    → from_owner c sender ≡ true
    → FromOwner c msg
from_owner-FromOwner c msg none e h = cc h
from_owner-FromOwner c msg (some sender) e h =
    let (name, m) = owned_by-Memᴰ c.owners sender h in
    record { name = name; sender = sender; sender_is = e; owns = m }

not-eq-false : (b : Bool) → not b ≡ false → b ≡ true
not-eq-false true h = refl
not-eq-false false h = cc h

module _ (expose : Text → Bool → Option Text) where
  -- Of the signals on a client's host connection, those that are not from the bus itself go to
  -- `relay_signal`. There a signal changes nothing and is not passed on, or its sender owns a name that
  -- the gateway stands for, and it is of an interface of the portal on an object of the portal, of
  -- notifications on theirs, or about the properties of one of these objects.
  pub relay_signal-FromOwner :
      (c : Client) (msg : Message) (fds : List ℕ)
      → (relay_signal expose c msg fds ≡ (c, ok []))
        ⊎ (FromOwner c msg × ServiceSignal (or_default msg.path) (or_default msg.interface))
  unfolding relay_signal
  relay_signal-FromOwner c msg fds =
      let path = or_default msg.path in
      let iface = or_default msg.interface in
      elim (Bool-cases (not (from_owner c msg.sender) || not (signal_forwarded path iface))) [
        | inl dropped ↦ inl (rw dropped refl)
        | inr passed ↦
            let (o, f) = ||-eq-false (not (from_owner c msg.sender)) _ passed in
            inr (
              from_owner-FromOwner c msg msg.sender refl (not-eq-false _ o),
              signal_forwarded-ServiceSignal path iface (not-eq-false _ f),
            )
      ]
