-- ===== src/App/DeviceSettings.antt =====
-- The settings of each phone: app/device_settings.py. The JSON file is its "devices" object, or is
-- missing; each value stands for its truth, as `bool` reads it, and a settings object for its
-- `asdict`. The lock is left out: each method is one step.
use linkable.Prelude.{
  Bool, true, false, Option, none, some, List, [], ◌∷◌, Text, codes, ◌==◌, nat_eq, list_eq,
}
use linkable.Prelude.Dict.{Dict}
use linkable.Prelude.Dict
use linkable.Prelude.Exec.{Exec, Result, ok, err, key_error}
pub mod Laws

abbrev pub Settings : Type 0
Settings = Dict Text Bool

abbrev pub SettingsFile : Type 0
SettingsFile = Option (Dict Text Settings)

-- asdict(DesktopDeviceSettings())
abbrev pub defaults : Settings
defaults =
    (codes "camera_route_lan", true)
    ∷ (codes "control_input_enabled", false)
    ∷ (codes "control_keyboard_enabled", true)
    ∷ (codes "control_mouse_enabled", true)
    ∷ (codes "control_commands_enabled", false)
    ∷ []

abbrev or_value : Bool → Option Bool → Bool
or_value v none = v
or_value v (some w) = w

-- The loop of `_settings_from_json`.
unfoldable pub overlay : Settings → Settings → Settings
overlay [] raw = []
overlay ((key, v) ∷ values) raw = (key, or_value v (Dict.get raw key)) ∷ overlay values raw

unfoldable pub settings_from_json : Settings → Settings
unfolding overlay
settings_from_json raw = overlay defaults raw

unfoldable pub load : SettingsFile → Dict Text Settings
load none = []
load (some devices) = devices

abbrev or_empty : Option Settings → Settings
or_empty none = []
or_empty (some raw) = raw

unfoldable pub get : SettingsFile → Text → Settings
unfolding load settings_from_json
get file device_id = settings_from_json (or_empty (Dict.get (load file) device_id))

-- The settings of the device with the new value.
changed : SettingsFile → Text → Text → Bool → Settings
unfolding get
changed file device_id key value = Dict.put (get file device_id) key value

-- With the default of the field, if there is such a field.
set_known :
    SettingsFile
    → (device_id key : Text) (value : Bool) → Option Bool
    → Result Settings × SettingsFile
unfolding load settings_from_json changed
set_known file device_id key value none = (err key_error, file)
set_known file device_id key value (some field) = (
  ok (settings_from_json (changed file device_id key value)),
  some (Dict.put (load file) device_id (changed file device_id key value)),
)

unfoldable pub set_value : (device_id key : Text) (value : Bool) → Exec SettingsFile Settings
unfolding set_known
set_value device_id key value file = set_known file device_id key value (Dict.get defaults key)

remove_found : SettingsFile → Text → Option Settings → Bool × SettingsFile
unfolding load
remove_found file device_id none = (false, file)
remove_found file device_id (some raw) = (true, some (Dict.remove (load file) device_id))

unfoldable pub remove : SettingsFile → Text → Bool × SettingsFile
unfolding load remove_found
remove file device_id = remove_found file device_id (Dict.get (load file) device_id)
