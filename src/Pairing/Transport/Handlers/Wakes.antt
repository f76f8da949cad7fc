-- ===== src/Pairing/Transport/Handlers/Wakes.antt =====
-- What handling a packet does to the permits of the outgoing thread.
use linkable.Prelude.{
  ℕ, ◌+◌, ◌≡◌, refl, sym, ◌||◌, Bool-cases, inl, inr, Bool, true, false, not, Option, none, some,
  List, [], ◌∷◌, Text, Bytes, if◌then◌else◌, arith,
}
use mathlib.Core.Bool.{true≢false}
use linkable.Prelude.Exec.{
  Exec, Keeps, bind-Keeps, raise_if-Keeps, lift, pure, raise_if, value_error, ◌>>=◌,
}
use linkable.Transfer.Receiver.{FileTransferResult, handle_offer, handle_chunk, handle_complete}
use linkable.Input.Control.{handle}
use linkable.Pairing.Server.{parts, split_dots}
use linkable.Pairing.Transport.{
  EventType, PacketType, Envelope, NotificationPosted, Reply, Record, ServeDesktop, ServeWorld,
  next_sequence, write_envelope, write_next, reply, record_call, with_receiver, with_log, parsed,
  ping, device_info_request, capabilities_request, heartbeat, notification_posted, file_offer,
  file_chunk, file_complete, desktop_input_request, event, other_type, event_recorded,
  notification_recorded, file_recorded,
}
use linkable.Pairing.Transport.Handlers.{
  handle_ping, handle_device_info, handle_heartbeat, wake_once, reply_to, prompt_for_reply,
  handle_notification, handle_file_offer, report_result, handle_file_chunk, handle_file_complete,
  handle_input, handle_event, dispatch, handle_packet, record_if, is_recorded, is_named,
}

-- The event and the permits are these.
abbrev pub Woken : Bool → ℕ → ServeWorld → Type 0
Woken b n w = (w.transport_ready ≡ b) × (w.wakeups ≡ n)

abbrev pub is_heartbeat : PacketType → Bool
is_heartbeat heartbeat = true
is_heartbeat _ = false

module _ (ready : Bool) (n : ℕ) where
  write_next-Keeps :
      (k : ℕ) (r : Reply) (fs : List Bool) → Keeps (Woken ready n) (write_next k r fs)
  unfolding write_next
  write_next-Keeps k r [] w h = h
  write_next-Keeps k r (false ∷ fs) w h = h
  write_next-Keeps k r (true ∷ fs) w h = h

  reply-Keeps : (r : Reply) → Keeps (Woken ready n) (reply r)
  unfolding reply next_sequence write_envelope
  reply-Keeps r w h = write_next-Keeps w.sequence_number r w.failures _ h

  record_call-Keeps : (r : Record) → Keeps (Woken ready n) (record_call r)
  unfolding record_call
  record_call-Keeps r w h = h

  record_if-Keeps : (b : Bool) (r : Record) → Keeps (Woken ready n) (record_if b r)
  unfolding record_if
  record_if-Keeps true r w h = record_call-Keeps r w h
  record_if-Keeps false r w h = h

  -- A step that has nothing to do with the permits, and what comes after it.
  after :
      {A B : Type 0} (m : Exec ServeWorld A) (f : A → Exec ServeWorld B)
      → Keeps (Woken ready n) m
      → ((a : A) → Keeps (Woken ready n) (f a))
      → Keeps (Woken ready n) (m >>= f)
  after m f = bind-Keeps (Woken ready n) m f

  module _ (d : ServeDesktop) where
    reply_to-Keeps :
        (p : NotificationPosted) (o : Option (Text × Text)) → Keeps (Woken ready n) (reply_to d p o)
    unfolding reply_to
    reply_to-Keeps p none w h = h
    reply_to-Keeps p (some (a, t)) w h = reply-Keeps _ w h

    prompted-Keeps :
        (b : Bool) (m : Exec ServeWorld (Unit {0}))
        → Keeps (Woken ready n) m
        → Keeps (Woken ready n) (if b then m else pure tt)
    prompted-Keeps true m keeps w h = keeps w h
    prompted-Keeps false m keeps w h = h

    prompt_for_reply-Keeps : (p : NotificationPosted) → Keeps (Woken ready n) (prompt_for_reply d p)
    unfolding prompt_for_reply
    prompt_for_reply-Keeps p =
        prompted-Keeps d.prompt_notification_replies (reply_to d p _) (reply_to-Keeps p _)

    report_result-Keeps :
        (o : Option FileTransferResult) → Keeps (Woken ready n) (report_result d o)
    unfolding report_result
    report_result-Keeps none w h = h
    report_result-Keeps (some r) w h =
        after (reply _) _ (reply-Keeps _) (λ _. record_call-Keeps (file_recorded r)) w h

    named-Keeps :
        (b named : Bool)
        → Keeps (Woken ready n) (if b then raise_if (not named) value_error else pure tt)
    named-Keeps true named w h = raise_if-Keeps (Woken ready n) (not named) value_error w h
    named-Keeps false named w h = h

    handle_notification-Keeps :
        (payload : Bytes) → Keeps (Woken ready n) (handle_notification d payload)
    unfolding handle_notification
    handle_notification-Keeps payload =
        after (parsed (d.parse_notification payload)) _ (λ w h. h)
          λ p.
            after (record_call (notification_recorded p)) (λ _. prompt_for_reply d p)
              (record_call-Keeps (notification_recorded p)) λ _. prompt_for_reply-Keeps p

    handle_event-Keeps :
        (e : EventType) (payload : Bytes) → Keeps (Woken ready n) (handle_event d e payload)
    unfolding handle_event
    handle_event-Keeps e payload =
        after (parsed (d.parse_event e payload)) _ (λ w h. h)
          λ named.
            after (record_if (is_recorded e) (event_recorded e payload)) _
              (record_if-Keeps (is_recorded e) (event_recorded e payload))
              λ _. named-Keeps (is_named e) named

    dispatch-Keeps :
        (t : PacketType) (k : ℕ) (payload : Bytes)
        → is_heartbeat t ≡ false
        → Keeps (Woken ready n) (dispatch d t k payload)
    unfolding dispatch handle_ping handle_device_info handle_file_offer handle_file_chunk
        handle_file_complete handle_input
    dispatch-Keeps ping k payload other =
        after (parsed (d.parse_ping payload)) _ (λ w h. h) λ p. reply-Keeps _
    dispatch-Keeps device_info_request k payload other =
        after (lift (parts d.int (split_dots d.protocol_version))) _ (λ w h. h) λ v. reply-Keeps _
    dispatch-Keeps capabilities_request k payload other = reply-Keeps _
    dispatch-Keeps heartbeat k payload beats = absurd (true≢false beats)
    dispatch-Keeps notification_posted k payload other = handle_notification-Keeps payload
    dispatch-Keeps file_offer k payload other =
        after (parsed (d.parse_offer payload)) _ (λ w h. h)
          λ o. after (with_receiver (handle_offer d.platform o)) _ (λ w h. h) λ r. reply-Keeps _
    dispatch-Keeps file_chunk k payload other =
        after (parsed (d.parse_chunk payload)) _ (λ w h. h)
          λ c. after (with_receiver (handle_chunk c)) _ (λ w h. h) report_result-Keeps
    dispatch-Keeps file_complete k payload other =
        after (parsed (d.parse_complete payload)) _ (λ w h. h)
          λ c.
            after (with_receiver (handle_complete d.platform d.sha256 c)) _ (λ w h. h)
              λ r. report_result-Keeps (some r)
    dispatch-Keeps desktop_input_request k payload other =
        after (parsed (d.parse_input payload)) _ (λ w h. h)
          λ r. after (with_log (handle d.controller r)) _ (λ w h. h) λ result. reply-Keeps _
    dispatch-Keeps (event e) k payload other = handle_event-Keeps e payload
    dispatch-Keeps (other_type j) k payload other = reply-Keeps _

    handle_packet-Keeps :
        (e : Envelope)
        → is_heartbeat e.packet_type ≡ false
        → Keeps (Woken ready n) (handle_packet d e)
    unfolding handle_packet
    handle_packet-Keeps e = dispatch-Keeps e.packet_type e.sequence_number e.payload

abbrev pub flag : Bool → ℕ
flag b = if b then 1 else 0

-- From w to v the event is set if this holds, and a permit is released if that is new.
abbrev pub Wakes : Bool → ServeWorld → ServeWorld → Type 0
Wakes beats w v =
    (v.transport_ready ≡ (w.transport_ready || beats))
    × (v.wakeups + flag w.transport_ready ≡ w.wakeups + flag v.transport_ready)

wake_once-Wakes :
    (b : Bool) (w : ServeWorld) → w.transport_ready ≡ b → Wakes true w (wake_once b w).1
unfolding wake_once
wake_once-Wakes true w e = ground (arith, e)
wake_once-Wakes false w e = ground (arith, e)

module _ (d : ServeDesktop) where
  beat-Wakes :
      (t : PacketType) (k : ℕ) (payload : Bytes) (w : ServeWorld)
      → is_heartbeat t ≡ true
      → Wakes true w (dispatch d t k payload w).1
  unfolding dispatch handle_heartbeat
  beat-Wakes heartbeat k payload w h = wake_once-Wakes w.transport_ready w refl
  beat-Wakes _ k payload w h = absurd (true≢false (sym h))

  -- A packet sets the event exactly if it is a heartbeat.
  pub handle_packet-Wakes :
      (e : Envelope) (w : ServeWorld) → Wakes (is_heartbeat e.packet_type) w (handle_packet d e w).1
  handle_packet-Wakes e w = elim (Bool-cases (is_heartbeat e.packet_type)) [
    | inl beats ↦
        rw beats
          (unfold handle_packet in beat-Wakes e.packet_type e.sequence_number e.payload w beats)
    | inr other ↦
        let (same, n) = handle_packet-Keeps w.transport_ready w.wakeups d e other w (refl, refl) in
        rw other (ground (arith, same, n))
  ]
