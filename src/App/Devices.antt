-- ===== src/App/Devices.antt =====
-- The list of paired phones that the windows show: app/devices.py. The time of an active device is
-- not modelled.
use linkable.Prelude.{
  ℕ, Bool, true, false, ◌||◌, Option, none, some, List, [], ◌∷◌, Text, if◌then◌else◌, ◌==◌, nat_eq,
  list_eq,
}
use linkable.Prelude.Dict.{Dict}
use linkable.Prelude.Dict
use linkable.Prelude.Members.{is_in}
use linkable.Trust.{TrustedDeviceRecord, sort_by_name}
pub mod View

pub data DeviceAvailability : Type 0 where
  connected unavailable manually_disconnected : DeviceAvailability

pub record ActiveDevice : Type 0 where
  pub device_id : Text
  pub device_name : Text
  pub endpoint : Text

pub record DeviceViewModel : Type 0 where
  pub device_id : Text
  pub device_name : Text
  pub endpoint : Text
  pub paired_at_epoch_ms : ℕ
  pub availability : DeviceAvailability
  pub bluetooth_connected : Bool

unfoldable pub is_connected : DeviceViewModel → Bool
is_connected m = elim (m.availability) [ connected ↦ true | _ ↦ false ]

unfoldable pub can_disconnect : DeviceViewModel → Bool
can_disconnect m = elim (m.availability) [ connected ↦ true | _ ↦ false ]

unfoldable pub can_allow_reconnect : DeviceViewModel → Bool
can_allow_reconnect m = elim (m.availability) [ manually_disconnected ↦ true | _ ↦ false ]

availability_of : Option ActiveDevice → Bool → DeviceAvailability
availability_of (some active) blocked = connected
availability_of none true = manually_disconnected
availability_of none false = unavailable

endpoint_of : Option ActiveDevice → Text
endpoint_of (some active) = active.endpoint
endpoint_of none = []

module _ (active_devices : Dict Text ActiveDevice)
    (manually_disconnected_ids bluetooth_connected_ids : List Text) where
  -- One round of the loop.
  unfoldable pub view : TrustedDeviceRecord → DeviceViewModel
  unfolding availability_of endpoint_of is_in
  view r = record {
    device_id = r.device_id;
    device_name = r.device_name;
    endpoint = endpoint_of (Dict.get active_devices r.device_id);
    paired_at_epoch_ms = r.paired_at_epoch_ms;
    availability =
        availability_of (Dict.get active_devices r.device_id)
          (is_in r.device_id manually_disconnected_ids);
    bluetooth_connected = is_in r.device_id bluetooth_connected_ids;
  }

  views : List TrustedDeviceRecord → List DeviceViewModel
  unfolding view
  views [] = []
  views (r ∷ rs) = view r ∷ views rs

  -- A missing set of Bluetooth connections is the empty one.
  unfoldable pub build_device_models :
      (lower : Text → Text) → List TrustedDeviceRecord → List DeviceViewModel
  unfolding views sort_by_name
  build_device_models lower records = views (sort_by_name lower records)
