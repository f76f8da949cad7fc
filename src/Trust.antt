-- ===== src/Trust.antt =====
-- The paired phones and their keys, desktop/src/linkable_desktop/trust/. The JSON file is the list
-- of its "devices", or is missing; printing and reading JSON is not modelled, and neither are the
-- file's mode and the lock: each method is one step.
use linkable.Prelude.{
  ℕ, Bool, true, false, ◌≡◌, Option, none, some, List, [], ◌∷◌, Text, Bytes, if◌then◌else◌, ltb,
  ◌==◌, nat_eq, list_eq,
}
use linkable.Prelude.Dict.{Dict}
use linkable.Prelude.Dict
pub mod Records
pub mod Store
pub mod Order

-- base64.b64encode and b64decode
pub record Base64 : Type 0 where
  pub b64encode : Bytes → Text
  pub b64decode : Text → Bytes
  pub b64decode-b64encode : (bs : Bytes) → b64decode (b64encode bs) ≡ bs

pub record TrustedDeviceRecord : Type 0 where
  pub device_id : Text
  pub device_name : Text
  pub public_key_b64 : Text
  pub paired_at_epoch_ms : ℕ

module _ (b : Base64) where
  open b use {b64encode, b64decode}

  unfoldable pub public_key_bytes : TrustedDeviceRecord → Bytes
  public_key_bytes r = b64decode r.public_key_b64

  unfoldable pub from_public_key :
      (device_id device_name : Text) (key : Bytes) (paired_at_epoch_ms : ℕ) → TrustedDeviceRecord
  from_public_key device_id device_name key paired_at_epoch_ms = record {
    device_id = device_id;
    device_name = device_name;
    public_key_b64 = b64encode key;
    paired_at_epoch_ms = paired_at_epoch_ms;
  }

-- The file of the store, if it exists.
abbrev pub TrustStore : Type 0
TrustStore = Option (List TrustedDeviceRecord)

-- `{entry["device_id"]: … for entry in …}`: a later entry replaces an earlier one.
unfoldable pub by_id :
    Dict Text TrustedDeviceRecord → List TrustedDeviceRecord → Dict Text TrustedDeviceRecord
by_id d [] = d
by_id d (r ∷ rs) = by_id (Dict.put d r.device_id r) rs

unfoldable pub load : TrustStore → Dict Text TrustedDeviceRecord
unfolding by_id
load none = []
load (some entries) = by_id [] entries

unfoldable pub values : Dict Text TrustedDeviceRecord → List TrustedDeviceRecord
values [] = []
values ((k, r) ∷ d) = r ∷ values d

-- a <= b of two strings
unfoldable pub text_leb : Text → Text → Bool
text_leb [] b = true
text_leb (x ∷ a) [] = false
text_leb (x ∷ a) (y ∷ b) =
    let rest = text_leb a b in if ltb x y then true else if ltb y x then false else rest

module _ (lower : Text → Text) where
  insert_sorted : TrustedDeviceRecord → List TrustedDeviceRecord → List TrustedDeviceRecord
  insert_sorted r [] = r ∷ []
  insert_sorted r (x ∷ xs) =
      let rest = insert_sorted r xs in
      if text_leb (lower r.device_name) (lower x.device_name) then r ∷ x ∷ xs else x ∷ rest

  -- sorted(…, key=lambda item: item.device_name.lower()), which is stable
  unfoldable pub sort_by_name : List TrustedDeviceRecord → List TrustedDeviceRecord
  unfolding insert_sorted
  sort_by_name [] = []
  sort_by_name (r ∷ rs) = insert_sorted r (sort_by_name rs)

  unfoldable pub save : Dict Text TrustedDeviceRecord → TrustStore
  unfolding sort_by_name values
  save devices = some (sort_by_name (values devices))

  unfoldable pub upsert : TrustStore → TrustedDeviceRecord → TrustStore
  unfolding load save
  upsert s r = save (Dict.put (load s) r.device_id r)

  unfoldable pub remove : TrustStore → Text → Bool × TrustStore
  unfolding load save
  remove s device_id = elim (Dict.get (load s) device_id) [
    | none ↦ (false, s)
    | some removed ↦ (true, save (Dict.remove (load s) device_id))
  ]

unfoldable pub get : TrustStore → Text → Option TrustedDeviceRecord
unfolding load
get s device_id = Dict.get (load s) device_id

unfoldable pub list_records : TrustStore → List TrustedDeviceRecord
unfolding load values
list_records s = values (load s)
