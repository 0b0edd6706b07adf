-- ===== src/Portal/Names.antt =====
-- The names of src/portal.rs: the services and objects of the gateway, the interfaces with their
-- forwarded methods, and the tests on them alone.
use psbox.Common.{Bool, ◌&&◌, ◌||◌, not, Option, none, some, List, [], ◌∷◌, ◌++◌, if◌then◌else◌}
use psbox.Common.Text.{Text, codes, eq, has_prefix, among}

abbrev pub portal_name : Text
portal_name = codes "org.freedesktop.portal.Desktop"

abbrev pub portal_path : Text
portal_path = codes "/org/freedesktop/portal/desktop"

abbrev pub notifications_name : Text
notifications_name = codes "org.freedesktop.Notifications"

abbrev pub notifications_path : Text
notifications_path = codes "/org/freedesktop/Notifications"

abbrev pub registry_iface : Text
registry_iface = codes "org.freedesktop.host.portal.Registry"

abbrev pub open_uri_iface : Text
open_uri_iface = codes "org.freedesktop.portal.OpenURI"

abbrev pub gateway_names : List Text
gateway_names = portal_name ∷ notifications_name ∷ []

abbrev pub request_prefix : Text
request_prefix = codes "/org/freedesktop/portal/desktop/request/"

abbrev pub session_prefix : Text
session_prefix = codes "/org/freedesktop/portal/desktop/session/"

-- An interface of the portal, by the last part of its name.
abbrev portal_iface : Text → Text
portal_iface last = codes "org.freedesktop.portal." ++ last

abbrev pub camera_iface : Text
camera_iface = codes "org.freedesktop.portal.Camera"

abbrev pub realtime_iface : Text
realtime_iface = codes "org.freedesktop.portal.Realtime"

abbrev pub screenshot_iface : Text
screenshot_iface = codes "org.freedesktop.portal.Screenshot"

abbrev pub screen_cast_iface : Text
screen_cast_iface = codes "org.freedesktop.portal.ScreenCast"

abbrev pub file_chooser_iface : Text
file_chooser_iface = codes "org.freedesktop.portal.FileChooser"

abbrev pub properties_iface : Text
properties_iface = codes "org.freedesktop.DBus.Properties"

abbrev pub introspectable_iface : Text
introspectable_iface = codes "org.freedesktop.DBus.Introspectable"

abbrev pub peer_iface : Text
peer_iface = codes "org.freedesktop.DBus.Peer"

unfoldable pub methods : List (Text × List Text)
methods =
    (portal_iface (codes "Account"), codes "GetUserInformation" ∷ [])
    ∷ (portal_iface (codes "Email"), codes "ComposeEmail" ∷ [])
    ∷ (file_chooser_iface, codes "OpenFile" ∷ codes "SaveFile" ∷ codes "SaveFiles" ∷ [])
    ∷ (
      portal_iface (codes "GlobalShortcuts"),
      codes "CreateSession"
          ∷ codes "BindShortcuts"
          ∷ codes "ListShortcuts"
          ∷ codes "ConfigureShortcuts"
          ∷ [],
    )
    ∷ (
      portal_iface (codes "Inhibit"),
      codes "Inhibit" ∷ codes "CreateMonitor" ∷ codes "QueryEndResponse" ∷ [],
    )
    ∷ (portal_iface (codes "MemoryMonitor"), [])
    ∷ (
      portal_iface (codes "NetworkMonitor"),
      codes "GetAvailable"
          ∷ codes "GetMetered"
          ∷ codes "GetConnectivity"
          ∷ codes "GetStatus"
          ∷ codes "CanReach"
          ∷ [],
    )
    ∷ (
      portal_iface (codes "Notification"),
      codes "AddNotification" ∷ codes "RemoveNotification" ∷ [],
    )
    ∷ (portal_iface (codes "PowerProfileMonitor"), [])
    ∷ (portal_iface (codes "Print"), codes "PreparePrint" ∷ codes "Print" ∷ [])
    ∷ (portal_iface (codes "ProxyResolver"), codes "Lookup" ∷ [])
    ∷ (portal_iface (codes "Secret"), codes "RetrieveSecret" ∷ [])
    ∷ (portal_iface (codes "Settings"), codes "ReadAll" ∷ codes "Read" ∷ codes "ReadOne" ∷ [])
    ∷ (portal_iface (codes "Trash"), codes "TrashFile" ∷ [])
    ∷ (
      open_uri_iface,
      codes "OpenURI" ∷ codes "OpenFile" ∷ codes "OpenDirectory" ∷ codes "SchemeSupported" ∷ [],
    )
    ∷ (screenshot_iface, codes "Screenshot" ∷ codes "PickColor" ∷ [])
    ∷ (
      screen_cast_iface,
      codes "CreateSession"
          ∷ codes "SelectSources"
          ∷ codes "Start"
          ∷ codes "OpenPipeWireRemote"
          ∷ [],
    )
    ∷ (camera_iface, codes "AccessCamera" ∷ codes "OpenPipeWireRemote" ∷ [])
    ∷ (
      realtime_iface,
      codes "MakeThreadRealtimeWithPID" ∷ codes "MakeThreadHighPriorityWithPID" ∷ [],
    )
    ∷ []

unfoldable pub unidentified : List (Text × List Text)
unidentified =
    (portal_iface (codes "Settings"), codes "ReadAll" ∷ codes "Read" ∷ codes "ReadOne" ∷ [])
    ∷ (open_uri_iface, codes "OpenURI" ∷ codes "SchemeSupported" ∷ [])
    ∷ (
      realtime_iface,
      codes "MakeThreadRealtimeWithPID" ∷ codes "MakeThreadHighPriorityWithPID" ∷ [],
    )
    ∷ (
      portal_iface (codes "Inhibit"),
      codes "Inhibit" ∷ codes "CreateMonitor" ∷ codes "QueryEndResponse" ∷ [],
    )
    ∷ (
      portal_iface (codes "NetworkMonitor"),
      codes "GetAvailable"
          ∷ codes "GetMetered"
          ∷ codes "GetConnectivity"
          ∷ codes "GetStatus"
          ∷ codes "CanReach"
          ∷ [],
    )
    ∷ (portal_iface (codes "MemoryMonitor"), [])
    ∷ (portal_iface (codes "PowerProfileMonitor"), [])
    ∷ []

abbrev pub notifications_methods : List Text
notifications_methods =
    codes "Notify"
    ∷ codes "CloseNotification"
    ∷ codes "GetCapabilities"
    ∷ codes "GetServerInformation"
    ∷ []

unfoldable pub activation_allowed : Text → Bool
unfolding among eq has_prefix
activation_allowed name =
    not (among name gateway_names)
    && not (eq name (codes "org.freedesktop.systemd1"))
    && not (has_prefix (codes "org.freedesktop.portal.") name)
    && not (has_prefix (codes "org.freedesktop.impl.portal.") name)

-- The first test finds the name itself.
unfoldable pub service_for : Text → Text → Text → Option Text
unfolding among eq has_prefix
service_for dest gateway_unique path =
    if among dest gateway_names
    then some dest
    else if not (eq dest gateway_unique)
    then none
    else if eq path portal_path || has_prefix request_prefix path || has_prefix session_prefix path
    then some portal_name
    else if eq path notifications_path
    then some notifications_name
    else none

unfoldable pub signal_forwarded : Text → Text → Bool
unfolding eq has_prefix
signal_forwarded path iface =
    let portal_object = eq path portal_path || has_prefix (portal_path ++ b'/' ∷ []) path in
    let notifications_object = eq path notifications_path in
    if eq iface properties_iface
    then portal_object || notifications_object
    else if eq iface notifications_name
    then notifications_object
    else portal_object && has_prefix (codes "org.freedesktop.portal.") iface

unfoldable pub introspection : Text → Bool
unfolding eq
introspection iface = eq iface introspectable_iface || eq iface peer_iface
