-- ===== src/Examples/Devices.antt =====
-- The shown phones at concrete records.
use linkable.Prelude.{refl, false, some, List, [], ◌∷◌, Text, codes, list_beq}
use linkable.Prelude.Dict
use linkable.Prelude.Members.{is_in}
use linkable.Trust.{TrustedDeviceRecord, text_leb}
use linkable.Trust.Records.{look}
use linkable.App.Devices.{DeviceAvailability, DeviceViewModel, build_device_models, view}
use linkable.App.Devices.View.{InOrder, ShownAs, build_device_models_lem}

abbrev phone : Text → Text → TrustedDeviceRecord
phone id name = record {
  device_id = id;
  device_name = name;
  public_key_b64 = [];
  paired_at_epoch_ms = 0;
}

abbrev phones : List TrustedDeviceRecord
phones = phone (codes "f") (codes "z") ∷ phone (codes "g") (codes "b") ∷ []

abbrev model : DeviceViewModel
model = record {
  device_id = codes "g";
  device_name = codes "b";
  endpoint = [];
  paired_at_epoch_ms = 0;
  availability = DeviceAvailability.manually_disconnected;
  bluetooth_connected = false;
}

build_device_models_lem_example :
    InOrder (λ t. t) (build_device_models [] (codes "g" ∷ []) [] (λ t. t) phones)
    × ShownAs [] (codes "g" ∷ []) [] (some (phone (codes "g") (codes "b"))) (some model)
unfolding look list_beq build_device_models view is_in Dict.get text_leb
build_device_models_lem_example =
    build_device_models_lem [] (codes "g" ∷ []) [] (λ t. t) phones (codes "g") (refl, (refl, tt))
