-- ===== src/App/Devices/View.antt =====
-- What the windows show of the trusted phones.
use linkable.Prelude.{
  ◌≡◌, refl, subst, Bool, true, false, Option, none, some, List, [], ◌∷◌, Text, if◌then◌else◌, ◌==◌,
  nat_eq, list_eq, Bool-cases, inl, inr,
}
use linkable.Prelude.Dict.{Dict}
use linkable.Trust.{TrustedDeviceRecord, sort_by_name, text_leb}
use linkable.Trust.Order.{Sorted, sort_by_name-Sorted}
use linkable.Trust.Records.{Distinct, look, look-sort_by_name}
use linkable.Prelude.Dict
use linkable.Prelude.Members.{is_in}
use linkable.App.Devices.{
  ActiveDevice, DeviceViewModel, build_device_models, views, view, availability_of, endpoint_of,
  is_connected, can_disconnect, can_allow_reconnect, connected, unavailable, manually_disconnected,
}

-- Each shown name is at most the next one, in lower case.
abbrev pub InOrder : (Text → Text) → List DeviceViewModel → Type 0
InOrder lower [] = Unit
InOrder lower (r ∷ []) = Unit
InOrder lower (r ∷ q ∷ rs) =
    (text_leb (lower r.device_name) (lower q.device_name) ≡ true) × InOrder lower (q ∷ rs)

-- The shown phone with this identifier.
abbrev pub shown : List DeviceViewModel → Text → Option DeviceViewModel
shown [] k = none
shown (m ∷ ms) k = if m.device_id == k then some m else shown ms k

module _ (active_devices : Dict Text ActiveDevice)
    (manually_disconnected_ids bluetooth_connected_ids : List Text) where
  -- What a phone with this live session, if any, and this block shows and offers.
  abbrev pub State : Option ActiveDevice → Bool → DeviceViewModel → Type 0
  State (some active) blocked m =
      (m.availability ≡ connected)
      × (m.endpoint ≡ active.endpoint)
      × (is_connected m ≡ true)
      × (can_disconnect m ≡ true)
      × (can_allow_reconnect m ≡ false)
  State none true m =
      (m.availability ≡ manually_disconnected)
      × (m.endpoint ≡ [])
      × (is_connected m ≡ false)
      × (can_disconnect m ≡ false)
      × (can_allow_reconnect m ≡ true)
  State none false m =
      (m.availability ≡ unavailable)
      × (m.endpoint ≡ [])
      × (is_connected m ≡ false)
      × (can_disconnect m ≡ false)
      × (can_allow_reconnect m ≡ false)

  abbrev pub Shows : TrustedDeviceRecord → DeviceViewModel → Type 0
  Shows r m =
      (m.device_id ≡ r.device_id)
      × (m.device_name ≡ r.device_name)
      × (m.paired_at_epoch_ms ≡ r.paired_at_epoch_ms)
      × (m.bluetooth_connected ≡ is_in r.device_id bluetooth_connected_ids)
      × State (Dict.get active_devices r.device_id) (is_in r.device_id manually_disconnected_ids) m

  -- A phone is shown exactly if it has a record, and as that record says.
  abbrev pub ShownAs : Option TrustedDeviceRecord → Option DeviceViewModel → Type 0
  ShownAs none none = Unit
  ShownAs none (some m) = ⊥
  ShownAs (some r) none = ⊥
  ShownAs (some r) (some m) = Shows r m

  view-State :
      (o : Option ActiveDevice) (blocked : Bool) (m : DeviceViewModel)
      → m.availability ≡ availability_of o blocked
      → m.endpoint ≡ endpoint_of o
      → State o blocked m
  unfolding availability_of endpoint_of is_connected can_disconnect can_allow_reconnect
  view-State (some active) blocked m e f = (e, f, rw e refl, rw e refl, rw e refl)
  view-State none true m e f = (e, f, rw e refl, rw e refl, rw e refl)
  view-State none false m e f = (e, f, rw e refl, rw e refl, rw e refl)

  view-Shows :
      (r : TrustedDeviceRecord)
      → Shows r (view active_devices manually_disconnected_ids bluetooth_connected_ids r)
  unfolding view
  view-Shows r = (
    refl,
    refl,
    refl,
    refl,
    view-State (Dict.get active_devices r.device_id) (is_in r.device_id manually_disconnected_ids)
        (view active_devices manually_disconnected_ids bluetooth_connected_ids r) refl refl,
  )

  views-InOrder :
      (lower : Text → Text) (rs : List TrustedDeviceRecord)
      → Sorted lower rs
      → InOrder lower (views active_devices manually_disconnected_ids bluetooth_connected_ids rs)
  unfolding views
  views-InOrder lower [] h = tt
  views-InOrder lower (r ∷ []) h = tt
  views-InOrder lower (r ∷ q ∷ rs) h = (h.0, views-InOrder lower (q ∷ rs) h.1)

  shown-views :
      (rs : List TrustedDeviceRecord) (k : Text)
      → ShownAs
          (look rs k)
          (shown (views active_devices manually_disconnected_ids bluetooth_connected_ids rs) k)
  unfolding views look view
  shown-views [] k = tt
  shown-views (r ∷ rs) k = elim (Bool-cases (r.device_id == k)) [
    | inl same ↦ rw same (view-Shows r)
    | inr other ↦ rw other (shown-views rs k)
  ]

  -- The shown phones are in the order of their names in lower case, and if no two records have one
  -- identifier, an identifier is shown exactly if a record has it, with that record's data: as
  -- connected, with its endpoint and the offer to disconnect, if it has a live session; else as
  -- manually disconnected, with the offer to allow its reconnection, if it is blocked; else as
  -- unavailable, with neither offer.
  pub build_device_models_lem :
      (lower : Text → Text) (records : List TrustedDeviceRecord) (k : Text)
      → Distinct records
      → InOrder lower (
          build_device_models active_devices manually_disconnected_ids bluetooth_connected_ids lower
            records)
        × ShownAs (look records k) (
            shown
              (build_device_models active_devices manually_disconnected_ids bluetooth_connected_ids
                lower records)
              k)
  unfolding build_device_models
  build_device_models_lem lower records k h = (
    views-InOrder lower (sort_by_name lower records) (sort_by_name-Sorted lower records),
    subst
        (λ o. ShownAs o (
          shown
            (views active_devices manually_disconnected_ids bluetooth_connected_ids
              (sort_by_name lower records))
            k))
        (look-sort_by_name lower records k h) (shown-views (sort_by_name lower records) k),
  )
