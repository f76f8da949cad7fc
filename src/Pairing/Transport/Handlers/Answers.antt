-- ===== src/Pairing/Transport/Handlers/Answers.antt =====
-- What a packet from the phone makes the desktop write.
use linkable.Prelude.{
  ℕ, refl, Bool, true, false, not, Option, none, some, Text, Bytes, if◌then◌else◌,
}
use linkable.Prelude.Exec.{Exec, lift, pure, raise_if, value_error}
use linkable.Transfer.Receiver.{FileTransferResult, handle_offer, handle_chunk, handle_complete}
use linkable.Input.Control.{handle}
use linkable.Pairing.Server.{parts, split_dots}
use linkable.Pairing.Transport.{
  EventType, PacketType, Envelope, NotificationPosted, ServeDesktop, ServeWorld, record_call,
  with_receiver, with_log, parsed, ping, device_info_request, capabilities_request, heartbeat,
  notification_posted, file_offer, file_chunk, file_complete, desktop_input_request, event,
  other_type, pong, device_info_response, capabilities_response, notification_reply_request,
  file_result, desktop_input_result, error_payload, event_recorded, file_recorded,
  notification_recorded,
}
use linkable.Pairing.Transport.Handlers.{
  handle_ping, handle_device_info, handle_heartbeat, wake_once, reply_to, prompt_for_reply,
  handle_notification, handle_file_offer, report_result, handle_file_chunk, handle_file_complete,
  handle_input, handle_event, dispatch, handle_packet, record_if, is_recorded, is_named,
  capabilities,
}
use linkable.Pairing.Transport.Handlers.Effects.{
  Effect, HasEffect, silent, bind-Effect, pure-Effect, reply-Effect, recorded-Effect, parsed-Quiet,
  record_call-Quiet, record_if-Quiet,
}

module _ (d : ServeDesktop) where
  handle_ping-Effect : (n : ℕ) (payload : Bytes) → HasEffect ping n (handle_ping d payload)
  unfolding handle_ping
  handle_ping-Effect n payload =
      bind-Effect ping n (parsed (d.parse_ping payload)) _ (parsed-Quiet (d.parse_ping payload))
        λ p. reply-Effect ping n (pong p.token p.sent_at) tt

  handle_device_info-Effect : (n : ℕ) → HasEffect device_info_request n (handle_device_info d)
  unfolding handle_device_info
  handle_device_info-Effect n =
      bind-Effect device_info_request n (lift (parts d.int (split_dots d.protocol_version))) _
        (λ w. (refl, refl)) λ v. reply-Effect device_info_request n (device_info_response _ _) tt

  wake_once-Effect : (n : ℕ) (b : Bool) → HasEffect heartbeat n (wake_once b)
  unfolding wake_once
  wake_once-Effect n true w = silent refl refl λ _. refl
  wake_once-Effect n false w = silent refl refl λ _. refl

  handle_heartbeat-Effect : (n : ℕ) → HasEffect heartbeat n (handle_heartbeat d)
  unfolding handle_heartbeat
  handle_heartbeat-Effect n w = wake_once-Effect n w.transport_ready w

  reply_to-Effect :
      (n : ℕ) (p : NotificationPosted) (o : Option (Text × Text))
      → HasEffect notification_posted n (reply_to d p o)
  unfolding reply_to
  reply_to-Effect n p none = pure-Effect notification_posted n refl
  reply_to-Effect n p (some (action_id, text)) =
      reply-Effect notification_posted n (notification_reply_request _ _ _) tt

  prompted :
      (n : ℕ) (b : Bool) (m : Exec ServeWorld (Unit {0}))
      → HasEffect notification_posted n m
      → HasEffect notification_posted n (if b then m else pure tt)
  prompted n true m h w = h w
  prompted n false m h w = silent refl refl λ _. refl

  prompt_for_reply-Effect :
      (n : ℕ) (p : NotificationPosted) → HasEffect notification_posted n (prompt_for_reply d p)
  unfolding prompt_for_reply
  prompt_for_reply-Effect n p =
      prompted n d.prompt_notification_replies (reply_to d p _) (reply_to-Effect n p _)

  handle_notification-Effect :
      (n : ℕ) (payload : Bytes) → HasEffect notification_posted n (handle_notification d payload)
  unfolding handle_notification
  handle_notification-Effect n payload =
      bind-Effect notification_posted n (parsed (d.parse_notification payload)) _
        (parsed-Quiet (d.parse_notification payload))
        λ p.
          bind-Effect notification_posted n (record_call (notification_recorded p)) _
            (record_call-Quiet (notification_recorded p)) λ _. prompt_for_reply-Effect n p

  handle_file_offer-Effect :
      (n : ℕ) (payload : Bytes) → HasEffect file_offer n (handle_file_offer d payload)
  unfolding handle_file_offer
  handle_file_offer-Effect n payload =
      bind-Effect file_offer n (parsed (d.parse_offer payload)) _
        (parsed-Quiet (d.parse_offer payload))
        λ offer.
          bind-Effect file_offer n (with_receiver (handle_offer d.platform offer)) _
            (λ w. (refl, refl)) λ r. reply-Effect file_offer n (file_result r) tt

  handle_file_chunk-Effect :
      (n : ℕ) (payload : Bytes) → HasEffect file_chunk n (handle_file_chunk d payload)
  unfolding handle_file_chunk report_result
  handle_file_chunk-Effect n payload =
      bind-Effect file_chunk n (parsed (d.parse_chunk payload)) _
        (parsed-Quiet (d.parse_chunk payload))
        λ chunk.
          bind-Effect file_chunk n (with_receiver (handle_chunk chunk)) _ (λ w. (refl, refl)) go
    where
      go : (o : Option FileTransferResult) → HasEffect file_chunk n (report_result d o)
      go none = unfold report_result in pure-Effect file_chunk n refl
      go (some r) =
          unfold report_result in recorded-Effect file_chunk n (file_result r) (file_recorded r) tt

  handle_file_complete-Effect :
      (n : ℕ) (payload : Bytes) → HasEffect file_complete n (handle_file_complete d payload)
  unfolding handle_file_complete report_result
  handle_file_complete-Effect n payload =
      bind-Effect file_complete n (parsed (d.parse_complete payload)) _
        (parsed-Quiet (d.parse_complete payload))
        λ complete.
          bind-Effect file_complete n (with_receiver (handle_complete d.platform d.sha256 complete))
            _ (λ w. (refl, refl))
            λ r. recorded-Effect file_complete n (file_result r) (file_recorded r) tt

  handle_input-Effect :
      (n : ℕ) (payload : Bytes) → HasEffect desktop_input_request n (handle_input d payload)
  unfolding handle_input
  handle_input-Effect n payload =
      bind-Effect desktop_input_request n (parsed (d.parse_input payload)) _
        (parsed-Quiet (d.parse_input payload))
        λ request.
          bind-Effect desktop_input_request n (with_log (handle d.controller request)) _
            (λ w. (refl, refl))
            λ r. reply-Effect desktop_input_request n (desktop_input_result r) tt

  handle_event-Effect :
      (n : ℕ) (e : EventType) (payload : Bytes) → HasEffect (event e) n (handle_event d e payload)
  unfolding handle_event
  handle_event-Effect n e payload =
      bind-Effect (event e) n (parsed (d.parse_event e payload)) _
        (parsed-Quiet (d.parse_event e payload))
        λ named.
          bind-Effect (event e) n (record_if (is_recorded e) (event_recorded e payload)) _
            (record_if-Quiet (is_recorded e) (event_recorded e payload))
            λ _. named_or_not (is_named e) named
    where
      named_or_not :
          (b named : Bool)
          → HasEffect (event e) n (if b then raise_if (not named) value_error else pure tt)
      named_or_not true true w = silent refl refl λ _. refl
      named_or_not true false w = silent refl refl λ _. refl
      named_or_not false named w = silent refl refl λ _. refl

  dispatch-Effect :
      (t : PacketType) (n : ℕ) (payload : Bytes) → HasEffect t n (dispatch d t n payload)
  unfolding dispatch
  dispatch-Effect ping n payload = handle_ping-Effect n payload
  dispatch-Effect device_info_request n payload = handle_device_info-Effect n
  dispatch-Effect capabilities_request n payload =
      reply-Effect capabilities_request n (capabilities_response capabilities) tt
  dispatch-Effect heartbeat n payload = handle_heartbeat-Effect n
  dispatch-Effect notification_posted n payload = handle_notification-Effect n payload
  dispatch-Effect file_offer n payload = handle_file_offer-Effect n payload
  dispatch-Effect file_chunk n payload = handle_file_chunk-Effect n payload
  dispatch-Effect file_complete n payload = handle_file_complete-Effect n payload
  dispatch-Effect desktop_input_request n payload = handle_input-Effect n payload
  dispatch-Effect (event e) n payload = handle_event-Effect n e payload
  dispatch-Effect (other_type k) n payload =
      reply-Effect (other_type k) n (error_payload (other_type k) n) (refl, refl)

  -- Handling a packet writes nothing, or one envelope under the next sequence number, which it then
  -- uses up, or it fails in that write. A ping, a request of the device's information or of its
  -- capabilities, a file's offer or completion, an input request and a packet of an unknown type are
  -- answered whenever no exception is raised; the reply is of the kind that fits the packet, and an
  -- error names the packet's type and number.
  pub handle_packet-Effect :
      (e : Envelope) (w : ServeWorld)
      → Effect e.packet_type e.sequence_number (handle_packet d e w).0 w (handle_packet d e w).1
  unfolding handle_packet
  handle_packet-Effect e w = dispatch-Effect e.packet_type e.sequence_number e.payload w
