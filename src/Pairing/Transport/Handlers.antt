-- ===== src/Pairing/Transport/Handlers.antt =====
-- What the loop over the encrypted transport does with one packet.
use linkable.Prelude.{
  ℕ, ◌+◌, Bool, true, false, not, Option, none, some, List, [], ◌∷◌, ◌++◌, Text, Bytes, codes,
  if◌then◌else◌,
}
use linkable.Prelude.Exec.{
  Exception, os_error, eof_error, timeout_error, file_not_found_error, decode_error, value_error,
  Result, ok, err, Exec, ◌>>=◌, ◌>>◌, lift, pure, or_raise, raise_if,
}
use linkable.Transfer.{FileOffer, FileChunk, FileComplete}
use linkable.Transfer.Names.{Platform}
use linkable.Transfer.Receiver.{
  FileReceiver, FileTransferResult, handle_offer, handle_chunk, handle_complete,
}
use linkable.Session.Auth.{PeerDescriptor, ProtocolVersion}
use linkable.Input.Control.{Controller, DesktopInputRequest, DesktopInputResult, Log, handle}
use linkable.Pairing.Server.{parts, split_dots}
use linkable.Pairing.Transport.{
  EventType, PacketType, Envelope, Ping, NotificationAction, NotificationPosted, Reply, Record,
  ServeDesktop, ServeWorld, next_sequence, write_envelope, reply, record_call, with_receiver,
  with_log, parsed, pong, device_info_response, capabilities_response, notification_reply_request,
  file_result, desktop_input_result, error_payload, notification_recorded, file_recorded,
  event_recorded, ping, device_info_request, capabilities_request, heartbeat, notification_posted,
  file_offer, file_chunk, file_complete, desktop_input_request, event, other_type,
  notification_removed, notification_reply_result, notification_action_result, file_transfer_result,
  ring_phone_result, call_state_event, call_metadata_event, phone_capability_snapshot,
  bluetooth_assist_phone_status, camera_stream_start_result, call_control_result, dial_result,
  telephony_diagnostics_result,
}
pub mod Effects
pub mod Answers
pub mod Wakes

-- The packets that a phone tells its state with: is the packet recorded, and is a value named.
abbrev is_recorded : EventType → Bool
is_recorded notification_reply_result = false
is_recorded notification_action_result = false
is_recorded file_transfer_result = false
is_recorded ring_phone_result = false
is_recorded call_state_event = false
is_recorded call_metadata_event = false
is_recorded phone_capability_snapshot = false
is_recorded call_control_result = false
is_recorded dial_result = false
is_recorded telephony_diagnostics_result = false
is_recorded _ = true

abbrev is_named : EventType → Bool
is_named call_state_event = true
is_named bluetooth_assist_phone_status = true
is_named camera_stream_start_result = true
is_named call_control_result = true
is_named _ = false

pub record_if : Bool → Record → Exec ServeWorld (Unit {0})
unfolding record_call
record_if true r = record_call r
record_if false r = pure tt

-- The actions of a notification that take a text.
abbrev reply_actions : List NotificationAction → List (Text × Text)
reply_actions [] = []
reply_actions (a ∷ actions) =
    let rest = reply_actions actions in
    if a.supports_remote_input then (a.action_id, a.title) ∷ rest else rest

abbrev capabilities : List Text
capabilities =
    codes "lan_transport"
    ∷ codes "encrypted_test_transport"
    ∷ codes "ring_phone"
    ∷ codes "call_event_mirroring"
    ∷ codes "call_metadata_events"
    ∷ codes "call_control_commands"
    ∷ codes "dial_from_desktop"
    ∷ codes "telephony_diagnostics"
    ∷ codes "notification_call_actions"
    ∷ codes "desktop_input_controls"
    ∷ codes "bluetooth_optional"
    ∷ []

wake_once : Bool → Exec ServeWorld (Unit {0})
wake_once true w = (ok tt, w)
wake_once false w = (ok tt, record w { transport_ready = true; wakeups = w.wakeups + 1 })

-- `a or b` of texts
abbrev or_text : Text → Text → Text
or_text [] b = b
or_text (c ∷ a) b = c ∷ a

module _ (d : ServeDesktop) where
  handle_ping : Bytes → Exec ServeWorld (Unit {0})
  unfolding reply
  handle_ping payload = do p ← parsed (d.parse_ping payload); reply (pong p.token p.sent_at)

  descriptor : ProtocolVersion → PeerDescriptor
  descriptor v = record {
    fingerprint = d.device_id;
    device_name = d.device_name;
    platform = codes "linux";
    protocol_version = v;
    identity_public_key = d.identity_public_key;
  }

  handle_device_info : Exec ServeWorld (Unit {0})
  unfolding reply descriptor
  handle_device_info = do
    v ← lift (parts d.int (split_dots d.protocol_version))
    reply
        (device_info_response (descriptor v) (codes "lan" ∷ (codes "tcp/" ++ d.service_port) ∷ []))

  -- The first heartbeat lets the outgoing thread begin.
  handle_heartbeat : Exec ServeWorld (Unit {0})
  unfolding wake_once
  handle_heartbeat w = wake_once w.transport_ready w

  reply_to : NotificationPosted → Option (Text × Text) → Exec ServeWorld (Unit {0})
  unfolding reply
  reply_to n none = pure tt
  reply_to n (some (action_id, text)) =
      reply (notification_reply_request n.notification_id action_id text)

  prompt_for_reply : NotificationPosted → Exec ServeWorld (Unit {0})
  unfolding reply_to
  prompt_for_reply n =
      if d.prompt_notification_replies
      then reply_to n
          (d.prompt_reply (or_text n.app_name n.package_name) n.title (reply_actions n.actions))
      else pure tt

  handle_notification : Bytes → Exec ServeWorld (Unit {0})
  unfolding record_call prompt_for_reply
  handle_notification payload = do
    n ← parsed (d.parse_notification payload)
    record_call (notification_recorded n)
    prompt_for_reply n

  handle_file_offer : Bytes → Exec ServeWorld (Unit {0})
  unfolding reply
  handle_file_offer payload = do
    offer ← parsed (d.parse_offer payload)
    result ← with_receiver (handle_offer d.platform offer)
    reply (file_result result)

  -- A result of a transfer that ended.
  report_result : Option FileTransferResult → Exec ServeWorld (Unit {0})
  unfolding reply record_call
  report_result none = pure tt
  report_result (some result) = do reply (file_result result); record_call (file_recorded result)

  handle_file_chunk : Bytes → Exec ServeWorld (Unit {0})
  unfolding report_result
  handle_file_chunk payload = do
    chunk ← parsed (d.parse_chunk payload)
    result ← with_receiver (handle_chunk chunk)
    report_result result

  handle_file_complete : Bytes → Exec ServeWorld (Unit {0})
  unfolding report_result
  handle_file_complete payload = do
    complete ← parsed (d.parse_complete payload)
    result ← with_receiver (handle_complete d.platform d.sha256 complete)
    report_result (some result)

  handle_input : Bytes → Exec ServeWorld (Unit {0})
  unfolding reply
  handle_input payload = do
    request ← parsed (d.parse_input payload)
    result ← with_log (handle d.controller request)
    reply (desktop_input_result result)

  handle_event : EventType → Bytes → Exec ServeWorld (Unit {0})
  unfolding record_if
  handle_event t payload = do
    named ← parsed (d.parse_event t payload)
    record_if (is_recorded t) (event_recorded t payload)
    (if is_named t then raise_if (not named) value_error else pure tt)

  -- The chain of tests on the packet's type.
  dispatch : PacketType → (sequence_number : ℕ) → Bytes → Exec ServeWorld (Unit {0})
  unfolding handle_ping handle_device_info handle_heartbeat handle_notification handle_file_offer
      handle_file_chunk handle_file_complete handle_input handle_event reply
  dispatch ping n payload = handle_ping payload
  dispatch device_info_request n payload = handle_device_info
  dispatch capabilities_request n payload = reply (capabilities_response capabilities)
  dispatch heartbeat n payload = handle_heartbeat
  dispatch notification_posted n payload = handle_notification payload
  dispatch file_offer n payload = handle_file_offer payload
  dispatch file_chunk n payload = handle_file_chunk payload
  dispatch file_complete n payload = handle_file_complete payload
  dispatch desktop_input_request n payload = handle_input payload
  dispatch (event t) n payload = handle_event t payload
  dispatch (other_type k) n payload = reply (error_payload (other_type k) n)

  unfoldable pub handle_packet : Envelope → Exec ServeWorld (Unit {0})
  unfolding dispatch
  handle_packet e = dispatch e.packet_type e.sequence_number e.payload
