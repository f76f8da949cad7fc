-- ===== src/App/Sessions.antt =====
-- The phones that are connected, blocked or to be disconnected: the device methods of
-- `DesktopRuntime` in app/runtime.py, each one step under the runtime's lock. The search of an IPv4
-- address in a text (`extract_ipv4_host`, a regular expression) is an argument, as are the clock
-- and whether the present Wi-Fi is allowed. Status texts and callbacks are not modelled.
use linkable.Prelude.{
  ℕ, ◌+◌, Bool, true, false, not, ◌||◌, ◌&&◌, Option, none, some, List, [], ◌∷◌, Text, codes,
  if◌then◌else◌, ◌==◌, nat_eq, list_eq, ltb,
}
use linkable.Prelude.Dict.{Dict}
use linkable.Prelude.Dict
use linkable.Prelude.Members.{is_in, add, discard}
use linkable.App.Devices.{ActiveDevice}
use linkable.Trust.{TrustStore, list_records}
use linkable.Trust
pub mod Blocking
pub mod Endpoints

pub record Sessions : Type 0 where
  pub active_devices : Dict Text ActiveDevice
  pub known_endpoints : Dict Text Text
  pub bluetooth_connected : List Text
  pub manual_disconnects : List Text
  pub disconnect_requests : List Text
  pub last_connected_id : Text
  pub trust_store : TrustStore
  pub new_pairing_allowed_until : ℕ

-- The last connected device, unless it is this one.
unfoldable pub forget_last : Text → Text → Text
forget_last last id = if last == id then [] else last

unfoldable pub disconnect_device : Text → Sessions → Sessions
unfolding forget_last
disconnect_device id s = record s {
  disconnect_requests = add s.disconnect_requests id;
  active_devices = Dict.remove s.active_devices id;
  known_endpoints = Dict.remove s.known_endpoints id;
  bluetooth_connected = discard s.bluetooth_connected id;
  last_connected_id = forget_last s.last_connected_id id;
}

unfoldable pub allow_reconnect : Text → Sessions → Sessions
allow_reconnect id s = record s {
  manual_disconnects = discard s.manual_disconnects id;
  disconnect_requests = discard s.disconnect_requests id;
}

unfoldable pub unpair_device : Text → Sessions → Sessions
unfolding forget_last
unpair_device id s = record s {
  manual_disconnects = add s.manual_disconnects id;
  disconnect_requests = add s.disconnect_requests id;
  active_devices = Dict.remove s.active_devices id;
  bluetooth_connected = discard s.bluetooth_connected id;
  last_connected_id = forget_last s.last_connected_id id;
}

-- The clock counts in seconds. The device's settings go too; they are in another store.
unfoldable pub forget_device : (lower : Text → Text) (now : ℕ) → Text → Sessions → Sessions
unfolding forget_last
forget_device lower now id s = record s {
  manual_disconnects = discard s.manual_disconnects id;
  disconnect_requests = discard s.disconnect_requests id;
  active_devices = Dict.remove s.active_devices id;
  known_endpoints = Dict.remove s.known_endpoints id;
  bluetooth_connected = discard s.bluetooth_connected id;
  last_connected_id = forget_last s.last_connected_id id;
  new_pairing_allowed_until = now + 120;
  trust_store = (Trust.remove lower s.trust_store id).1;
}

unfoldable pub allow_new_pairing : (now seconds : ℕ) → Sessions → Sessions
allow_new_pairing now seconds s = record s { new_pairing_allowed_until = now + seconds }

unfoldable pub new_pairing_allowed : (wifi_allowed : Bool) (now : ℕ) → Sessions → Bool
new_pairing_allowed wifi_allowed now s =
    if not wifi_allowed then false else elim (list_records s.trust_store) [
      | [] ↦ true
      | r ∷ rs ↦ ltb now s.new_pairing_allowed_until
    ]

unfoldable pub trusted_session_allowed : (wifi_allowed : Bool) → Text → Sessions → Bool
trusted_session_allowed wifi_allowed id s =
    if is_in id s.manual_disconnects then false else wifi_allowed

unfoldable pub disconnect_requested : Text → Sessions → Bool
disconnect_requested id s = is_in id s.manual_disconnects || is_in id s.disconnect_requests

-- The endpoint of a session whose address is not told again.
abbrev connected_word : Text
connected_word = codes "connected"

of_previous : Text → Option ActiveDevice → Text
of_previous endpoint none = endpoint
of_previous endpoint (some previous) =
    if endpoint == connected_word then previous.endpoint else endpoint

of_known : Text → Option Text → Text
of_known endpoint none = endpoint
of_known endpoint (some known) = if endpoint == connected_word then known else endpoint

unfoldable pub endpoint_of : ActiveDevice → Sessions → Text
unfolding of_previous of_known
endpoint_of device s =
    of_known (of_previous device.endpoint (Dict.get s.active_devices device.device_id))
      (Dict.get s.known_endpoints device.device_id)

is_changed : ActiveDevice → Text → Option ActiveDevice → Bool
is_changed device endpoint none = true
is_changed device endpoint (some previous) =
    not (previous.device_name == device.device_name) || not (previous.endpoint == endpoint)

module _ (ipv4_host : Text → Text) where
  has_host : Text → Bool
  has_host endpoint = not (ipv4_host endpoint == [])

  set_connected : ActiveDevice → Text → Sessions → Sessions
  unfolding has_host
  set_connected device endpoint s =
      let active = Dict.put s.active_devices device.device_id (record {
        device_id = device.device_id;
        device_name = device.device_name;
        endpoint = endpoint;
      }) in
      if has_host endpoint
      then (record s {
        known_endpoints = Dict.put s.known_endpoints device.device_id endpoint;
        last_connected_id = device.device_id;
        active_devices = active;
      })
      else record s { active_devices = active }

  unfoldable pub mark_device_connected : ActiveDevice → Sessions → Sessions
  unfolding set_connected endpoint_of
  mark_device_connected device s = set_connected device (endpoint_of device s) s

  -- Whether the contacts and the Bluetooth status are asked for after it.
  unfoldable pub asks_after_connect : ActiveDevice → Sessions → Bool × Bool
  unfolding is_changed endpoint_of has_host
  asks_after_connect device s =
      let endpoint = endpoint_of device s in
      let changed = is_changed device endpoint (Dict.get s.active_devices device.device_id) in
      (changed, changed && has_host endpoint)

  host_of_devices : Dict Text ActiveDevice → Text
  host_of_devices [] = []
  host_of_devices ((id, device) ∷ devices) =
      let rest = host_of_devices devices in
      elim (ipv4_host device.endpoint) [ [] ↦ rest | c ∷ host ↦ c ∷ host ]

  unfoldable pub active_phone_host : Sessions → Text
  unfolding host_of_devices
  active_phone_host s = elim (host_of_devices s.active_devices) [
    | c ∷ host ↦ c ∷ host
    | [] ↦ elim (Dict.get s.known_endpoints s.last_connected_id) [
      | none ↦ ipv4_host []
      | some known ↦ ipv4_host known
    ]
  ]

unfoldable pub mark_device_closed : Text → Sessions → Sessions
mark_device_closed id s = record s {
  active_devices = Dict.remove s.active_devices id;
  disconnect_requests = discard s.disconnect_requests id;
}

unfoldable pub record_bluetooth_status : Text → (desktop_connected : Bool) → Sessions → Sessions
record_bluetooth_status id desktop_connected s = record s {
  bluetooth_connected =
      if desktop_connected then add s.bluetooth_connected id else discard s.bluetooth_connected id;
}

unfoldable pub has_active_phone : Sessions → Bool
has_active_phone s = elim (s.active_devices) [ [] ↦ false | d ∷ ds ↦ true ]

any_connected : List Text → Dict Text ActiveDevice → Bool
any_connected bluetooth [] = false
any_connected bluetooth ((id, device) ∷ devices) =
    is_in id bluetooth || any_connected bluetooth devices

unfoldable pub active_phone_bluetooth_connected : Sessions → Bool
unfolding any_connected
active_phone_bluetooth_connected s = elim (s.last_connected_id) [
  | [] ↦ any_connected s.bluetooth_connected s.active_devices
  | c ∷ id ↦ is_in (c ∷ id) s.bluetooth_connected
]
