-- ===== src/App/Sessions/Blocking.antt =====
-- How long a phone stays blocked.
use linkable.Prelude.{
  ℕ, ◌≡◌, refl, ap, ◌∙◌, Bool, true, false, ◌||◌, none, List, [], ◌∷◌, Text, ◌==◌, ==_refl, nat_eq,
  list_eq, arith, Bool-cases, inl, inr,
}
use linkable.Prelude.Dict.{get-remove_self}
use linkable.Prelude.Dict
use linkable.Prelude.Members.{is_in, discard, is_in-add, is_in-discard}
use linkable.App.Devices.{ActiveDevice}
use linkable.App.Sessions.{
  Sessions, disconnect_device, allow_reconnect, unpair_device, forget_device, allow_new_pairing,
  trusted_session_allowed, disconnect_requested, mark_device_connected, mark_device_closed,
  record_bluetooth_status, set_connected, endpoint_of, has_host,
}

-- The methods that change the sessions.
pub data Operation : Type 0 where
  disconnects allows unpairs closes : Text → Operation
  forgets : (now : ℕ) → Text → Operation
  pairs_new : (now seconds : ℕ) → Operation
  connects : ActiveDevice → Operation
  reports_bluetooth : Text → Bool → Operation

module _ (lower ipv4_host : Text → Text) where
  abbrev pub run : Operation → Sessions → Sessions
  run (disconnects id) = disconnect_device id
  run (allows id) = allow_reconnect id
  run (unpairs id) = unpair_device id
  run (closes id) = mark_device_closed id
  run (forgets now id) = forget_device lower now id
  run (pairs_new now seconds) = allow_new_pairing now seconds
  run (connects device) = mark_device_connected ipv4_host device
  run (reports_bluetooth id b) = record_bluetooth_status id b

  abbrev pub run_all : List Operation → Sessions → Sessions
  run_all [] s = s
  run_all (o ∷ os) s = run_all os (run o s)

  -- The operations that lift the block of a phone.
  abbrev pub lifts : Text → Operation → Bool
  lifts id (allows other) = id == other
  lifts id (forgets now other) = id == other
  lifts id _ = false

  abbrev pub lifts_any : Text → List Operation → Bool
  lifts_any id [] = false
  lifts_any id (o ∷ os) = lifts id o || lifts_any id os

  kept :
      (xs : List Text) (other id : Text)
      → is_in id xs ≡ true
      → (id == other) ≡ false
      → is_in id (discard xs other) ≡ true
  kept xs other id h e = is_in-discard xs other id ∙ rw (e, h) refl

  set_connected-manual :
      (device : ActiveDevice) (endpoint : Text) (s : Sessions)
      → (set_connected ipv4_host device endpoint s).manual_disconnects ≡ s.manual_disconnects
  unfolding set_connected
  set_connected-manual device endpoint s = elim (Bool-cases (has_host ipv4_host endpoint)) [
    | inl h ↦ rw h refl
    | inr h ↦ rw h refl
  ]

  run-blocked :
      (id : Text) (o : Operation) (s : Sessions)
      → is_in id s.manual_disconnects ≡ true
      → lifts id o ≡ false
      → is_in id (run o s).manual_disconnects ≡ true
  unfolding disconnect_device allow_reconnect unpair_device mark_device_closed forget_device
      allow_new_pairing mark_device_connected record_bluetooth_status
  run-blocked id (disconnects other) s h e = h
  run-blocked id (allows other) s h e = kept s.manual_disconnects other id h e
  run-blocked id (unpairs other) s h e = is_in-add s.manual_disconnects other id ∙ ground (arith, h)
  run-blocked id (closes other) s h e = h
  run-blocked id (forgets now other) s h e = kept s.manual_disconnects other id h e
  run-blocked id (pairs_new now seconds) s h e = h
  run-blocked id (connects device) s h e =
      ap (is_in id) (set_connected-manual device (endpoint_of device s) s) ∙ h
  run-blocked id (reports_bluetooth other b) s h e = h

  run_all-blocked :
      (id : Text) (os : List Operation) (s : Sessions)
      → is_in id s.manual_disconnects ≡ true
      → lifts_any id os ≡ false
      → is_in id (run_all os s).manual_disconnects ≡ true
  run_all-blocked id [] s h e = h
  run_all-blocked id (o ∷ os) s h e = elim (Bool-cases (lifts id o)) [
    | inl lifted ↦ absurd (ground (arith, lifted, e))
    | inr keeps ↦
        run_all-blocked id os (run o s) (run-blocked id o s h keeps) (ground (arith, keeps, e))
  ]

  -- Once a phone is unpaired it is not active, and after any further operations of which none allows
  -- it to reconnect or forgets it, a session with it is refused on every network, and one that is
  -- open is asked to end.
  pub unpair_device-blocks :
      (id : Text) (os : List Operation) (wifi_allowed : Bool) (s : Sessions)
      → lifts_any id os ≡ false
      → let v = run_all os (unpair_device id s) in
        (Dict.get (unpair_device id s).active_devices id ≡ none)
        × (trusted_session_allowed wifi_allowed id v ≡ false)
        × (disconnect_requested id v ≡ true)
  unfolding unpair_device trusted_session_allowed disconnect_requested
  unpair_device-blocks id os wifi_allowed s h =
      (get-remove_self s.active_devices id, rw blocked refl, rw blocked refl)
    where
      blocked : is_in id (run_all os (unpair_device id s)).manual_disconnects ≡ true
      blocked =
          run_all-blocked id os (unpair_device id s)
            (unfold unpair_device in is_in-add s.manual_disconnects id id ∙ rw (==_refl id) refl) h
