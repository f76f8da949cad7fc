-- ===== src/App/Sessions/Endpoints.antt =====
-- The address of a phone that connects again.
use linkable.Prelude.{
  ◌≡◌, refl, ap, ◌∙◌, true, false, Option, none, some, [], Text, ◌==◌, ==_refl, nat_eq, list_eq,
  Bool-cases, inl, inr,
}
use linkable.Prelude.Dict.{get-put_self, get-remove_self}
use linkable.Prelude.Dict
use linkable.App.Devices.{ActiveDevice}
use linkable.App.Sessions.{
  Sessions, mark_device_connected, mark_device_closed, set_connected, endpoint_of, of_previous,
  of_known, has_host, connected_word,
}

of_previous-told :
    (endpoint : Text) (o : Option ActiveDevice)
    → (endpoint == connected_word) ≡ false
    → of_previous endpoint o ≡ endpoint
unfolding of_previous
of_previous-told endpoint none h = refl
of_previous-told endpoint (some p) h = rw h refl

of_known-told :
    (endpoint : Text) (o : Option Text)
    → (endpoint == connected_word) ≡ false
    → of_known endpoint o ≡ endpoint
unfolding of_known
of_known-told endpoint none h = refl
of_known-told endpoint (some p) h = rw h refl

endpoint_of-told :
    (d : ActiveDevice) (s : Sessions)
    → (d.endpoint == connected_word) ≡ false
    → endpoint_of d s ≡ d.endpoint
unfolding endpoint_of
endpoint_of-told d s h =
    ap (λ e. of_known e (Dict.get s.known_endpoints d.device_id))
      (of_previous-told d.endpoint (Dict.get s.active_devices d.device_id) h)
    ∙ of_known-told d.endpoint (Dict.get s.known_endpoints d.device_id) h

-- The same phone, whose address is not told.
abbrev pub untold : ActiveDevice → ActiveDevice
untold d = record {
  device_id = d.device_id;
  device_name = d.device_name;
  endpoint = connected_word;
}

-- The state knows the phone's address, and the phone is not active.
endpoint_of-untold :
    (d : ActiveDevice) (s : Sessions)
    → Dict.get s.active_devices d.device_id ≡ none
    → Dict.get s.known_endpoints d.device_id ≡ some d.endpoint
    → endpoint_of (untold d) s ≡ d.endpoint
unfolding endpoint_of of_previous of_known
endpoint_of-untold d s a k = rw (a, k) (rw (==_refl connected_word) refl)

module _ (ipv4_host : Text → Text) where
  set_connected-active :
      (d : ActiveDevice) (endpoint : Text) (s : Sessions)
      → Dict.get (set_connected ipv4_host d endpoint s).active_devices d.device_id
        ≡ some
            (record { device_id = d.device_id; device_name = d.device_name; endpoint = endpoint })
  unfolding set_connected
  set_connected-active d endpoint s = elim (Bool-cases (has_host ipv4_host endpoint)) [
    | inl h ↦ rw h (get-put_self s.active_devices d.device_id _)
    | inr h ↦ rw h (get-put_self s.active_devices d.device_id _)
  ]

  set_connected-known :
      (d : ActiveDevice) (endpoint : Text) (s : Sessions)
      → has_host ipv4_host endpoint ≡ true
      → Dict.get (set_connected ipv4_host d endpoint s).known_endpoints d.device_id ≡ some endpoint
  unfolding set_connected
  set_connected-known d endpoint s h = rw h (get-put_self s.known_endpoints d.device_id endpoint)

  -- If a phone connects with an address, closes its session, and connects again without telling the
  -- address, then it is shown as active at the address of the first time, if that has an IPv4 host
  -- and is not the word for an untold address.
  pub mark_device_connected-again :
      (d : ActiveDevice) (s : Sessions)
      → (d.endpoint == connected_word) ≡ false
      → (ipv4_host d.endpoint == []) ≡ false
      → let v = mark_device_closed d.device_id (mark_device_connected ipv4_host d s) in
        Dict.get (mark_device_connected ipv4_host (untold d) v).active_devices d.device_id ≡ some d
  unfolding mark_device_connected
  mark_device_connected-again d s told host =
      set_connected-active (untold d) (endpoint_of (untold d) v) v
      ∙ ap
          (λ e.
            some (record { device_id = d.device_id; device_name = d.device_name; endpoint = e }))
          (endpoint_of-untold d v closed known)
    where
      u : Sessions
      u = mark_device_connected ipv4_host d s

      v : Sessions
      v = mark_device_closed d.device_id u

      closed : Dict.get v.active_devices d.device_id ≡ none
      closed = unfold mark_device_closed in get-remove_self u.active_devices d.device_id

      known : Dict.get v.known_endpoints d.device_id ≡ some d.endpoint
      known =
          unfold mark_device_closed in
          unfold mark_device_connected in
          unfold has_host in
          (set_connected-known d (endpoint_of d s) s (rw (endpoint_of-told d s told) (rw host refl))
            ∙ ap some (endpoint_of-told d s told))
