-- ===== src/Portal/Policy/Reach.antt =====
-- What a caller may reach through the gateway, as src/portal.rs promises it.
use psbox.Common.{Option, some, ◌≡◌, ◌≢◌, ◌⊎◌, Bool, true, false, List}
use psbox.Common.Text.{Text, codes, has_prefix}
use psbox.Portal.Names.{
  portal_name, portal_path, notifications_name, notifications_path, request_prefix, session_prefix,
  camera_iface, realtime_iface, properties_iface, introspectable_iface, peer_iface, methods,
  unidentified, notifications_methods,
}
use psbox.Portal.Policy.{Policy}
use mathlib.Core.List.{Memᴰ}

-- The interface is in the table with this method.
pub record Has (table : List (Text × List Text)) (iface member : Text) : Type 0 where
  pub listed : List Text
  pub row : Memᴰ (iface, listed) table
  pub method : Memᴰ member listed

abbrev pub table : Bool → List (Text × List Text)
table true = methods
table false = unidentified

-- The interfaces that the devices of the sandbox open.
pub record IsGated (policy : Policy) (iface : Text) : Type 0 where
  pub camera : (iface ≢ camera_iface) ⊎ (policy.camera ≡ true)
  pub realtime : (iface ≢ realtime_iface) ⊎ (policy.realtime ≡ true)

abbrev pub IsGet : Text → Type 0
IsGet member = (member ≡ codes "Get") ⊎ (member ≡ codes "GetAll")

-- What may be called on the portal's own object, with `asked` as the first argument, if that is text.
pub data PortalCall (policy : Policy) (identified : Bool) (asked : Option Text)
    (iface member : Text) : Type 0 where
  method :
      IsGated policy iface
      → Has (table identified) iface member
      → PortalCall policy identified asked iface member
  property :
      (target : Text) (listed : List Text)
      → iface ≡ properties_iface
      → IsGet member
      → asked ≡ some target
      → IsGated policy target
      → Memᴰ (target, listed) (table identified)
      → PortalCall policy identified asked iface member
  look :
      (iface ≡ peer_iface) ⊎ ((iface ≡ introspectable_iface) × (identified ≡ true))
      → PortalCall policy identified asked iface member

pub data SessionCall (iface member : Text) : Type 0 where
  close :
      iface ≡ codes "org.freedesktop.portal.Session"
      → member ≡ codes "Close"
      → SessionCall iface member
  property : iface ≡ properties_iface → IsGet member → SessionCall iface member

pub data NotificationCall (iface member : Text) : Type 0 where
  method :
      iface ≡ notifications_name → Memᴰ member notifications_methods → NotificationCall iface member
  property : iface ≡ properties_iface → IsGet member → NotificationCall iface member
  look : (iface ≡ peer_iface) ⊎ (iface ≡ introspectable_iface) → NotificationCall iface member

-- What may be called at all, by first argument, destination, object, interface and member.
pub data Reaches (policy : Policy) (identified : Bool) (asked : Option Text)
    (dest path iface member : Text) : Type 0 where
  portal :
      dest ≡ portal_name
      → path ≡ portal_path
      → PortalCall policy identified asked iface member
      → Reaches policy identified asked dest path iface member
  request :
      dest ≡ portal_name
      → has_prefix request_prefix path ≡ true
      → iface ≡ codes "org.freedesktop.portal.Request"
      → member ≡ codes "Close"
      → Reaches policy identified asked dest path iface member
  session :
      dest ≡ portal_name
      → has_prefix session_prefix path ≡ true
      → SessionCall iface member
      → Reaches policy identified asked dest path iface member
  notification :
      dest ≡ notifications_name
      → path ≡ notifications_path
      → NotificationCall iface member
      → Reaches policy identified asked dest path iface member
