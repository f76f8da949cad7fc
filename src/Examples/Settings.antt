-- ===== src/Examples/Settings.antt =====
-- Blocked phones, settings and safe networks at concrete states.
use linkable.Prelude.{
  ◌≡◌, refl, true, false, none, some, List, [], ◌∷◌, Text, codes, nat_eq, list_eq, list_beq,
}
use linkable.Prelude.Dict
use linkable.App.Devices.{ActiveDevice}
use linkable.App.Sessions.{Sessions, unpair_device, trusted_session_allowed, disconnect_requested}
use linkable.App.Sessions.Blocking.{Operation, run_all, unpair_device-blocks}
use linkable.App.DeviceSettings.{SettingsFile, defaults, set_value}
use linkable.App.DeviceSettings.Laws.{Changes, set_value-Changes}
use linkable.App.SafeWifi.{PolicyFile, trust_current_wifi, is_current_wifi_allowed}
use linkable.App.SafeWifi.Scope.{trust_current_wifi-allows}

abbrev phone : Text
phone = codes "f"

abbrev device : ActiveDevice
device = record { device_id = phone; device_name = codes "z"; endpoint = codes "10.0.0.2" }

abbrev sessions : Sessions
sessions = record {
  active_devices = (phone, device) ∷ [];
  known_endpoints = [];
  bluetooth_connected = phone ∷ [];
  manual_disconnects = [];
  disconnect_requests = [];
  last_connected_id = phone;
  trust_store = none;
  new_pairing_allowed_until = 0;
}

-- The phone tries again, and another phone is allowed to reconnect.
abbrev operations : List Operation
operations = Operation.closes phone ∷ Operation.connects device ∷ Operation.allows (codes "g") ∷ []

unpair_device-blocks_example :
    let v = run_all (λ t. t) (λ t. t) operations (unpair_device phone sessions) in
    (Dict.get (unpair_device phone sessions).active_devices phone ≡ none)
    × (trusted_session_allowed true phone v ≡ false)
    × (disconnect_requested phone v ≡ true)
unfolding list_beq
unpair_device-blocks_example =
    unpair_device-blocks (λ t. t) (λ t. t) phone operations true sessions refl

abbrev settings : SettingsFile
settings = some ((phone, (codes "control_mouse_enabled", false) ∷ []) ∷ [])

set_value-Changes_example :
    Changes settings phone
      (codes "control_input_enabled")
      true
      (Dict.get defaults (codes "control_input_enabled"))
      (set_value phone (codes "control_input_enabled") true settings)
set_value-Changes_example = set_value-Changes settings phone (codes "control_input_enabled") true

abbrev policy : PolicyFile
policy = record {
  allow_all_wifi = false;
  networks = (codes "home", false) ∷ (codes "cafe", true) ∷ [];
}

trust_current_wifi-allows_example :
    is_current_wifi_allowed
      (λ t. t)
      (codes "home")
      (trust_current_wifi (λ t. t) (codes "home") (some policy)).1
    ≡ true
trust_current_wifi-allows_example =
    trust_current_wifi-allows (λ t. t) (codes "home") (some policy) refl refl
