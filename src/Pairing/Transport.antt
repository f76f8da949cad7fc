-- ===== src/Pairing/Transport.antt =====
-- The loop over the encrypted transport: `_serve_encrypted_transport` of pairing/pairing_server.py.
-- Protobuf and the version's `int` are parameters; what arrives, whether a disconnection is asked
-- for, and which writes fail is listed in advance. Notices to the user are not modelled, nor are
-- the times and the drawn identifiers in the messages.
use linkable.Prelude.{
  ℕ, ◌+◌, Bool, true, false, not, Option, none, some, List, [], ◌∷◌, ◌++◌, Text, Bytes, codes,
  if◌then◌else◌,
}
use linkable.Prelude.Exec.{
  Exception, os_error, eof_error, timeout_error, file_not_found_error, decode_error, value_error,
  Result, ok, err, Exec, ◌>>=◌, ◌>>◌, lift, pure, or_raise, raise_if,
}
use linkable.Transfer.{FileOffer, FileChunk, FileComplete}
use linkable.Transfer.Names.{Platform}
use linkable.Transfer.Receiver.{
  FileReceiver, FileTransferResult, handle_offer, handle_chunk, handle_complete,
}
use linkable.Session.Auth.{PeerDescriptor, ProtocolVersion}
use linkable.Input.Control.{Controller, DesktopInputRequest, DesktopInputResult, Log, handle}
use linkable.Pairing.Server.{parts, split_dots}
pub mod Handlers
pub mod Loop

-- The packets that the loop only parses and reports.
pub data EventType : Type 0 where
  notification_removed notification_reply_result notification_action_result : EventType
  file_transfer_result ring_phone_result call_state_event call_metadata_event : EventType
  phone_capability_snapshot bluetooth_assist_phone_status shared_apps_snapshot : EventType
  shared_app_launch_result phone_file_list_response phone_file_pull_result : EventType
  phone_contacts_response phone_recent_contacts_response camera_capability_response : EventType
  camera_stream_start_result camera_stream_stop_result camera_stream_status_event : EventType
  camera_frame clipboard_update call_control_result dial_result : EventType
  telephony_diagnostics_result : EventType

-- common_pb2.PacketType
pub data PacketType : Type 0 where
  ping device_info_request capabilities_request heartbeat notification_posted : PacketType
  file_offer file_chunk file_complete desktop_input_request : PacketType
  event : EventType → PacketType
  other_type : ℕ → PacketType

pub record Envelope : Type 0 where
  pub packet_type : PacketType
  pub sequence_number : ℕ
  pub payload : Bytes

-- transport_pb2.Ping
pub record Ping : Type 0 where
  pub token : Text
  pub sent_at : ℕ

-- notifications_pb2.NotificationAction and NotificationPosted, as far as the loop reads them
pub record NotificationAction : Type 0 where
  pub action_id : Text
  pub title : Text
  pub supports_remote_input : Bool

pub record NotificationPosted : Type 0 where
  pub notification_id : Text
  pub app_name : Text
  pub package_name : Text
  pub title : Text
  pub actions : List NotificationAction

-- The payloads that the loop writes.
pub data Reply : Type 0 where
  pong : (token : Text) (sent_at : ℕ) → Reply
  device_info_response : PeerDescriptor → List Text → Reply
  capabilities_response : List Text → Reply
  notification_reply_request : (notification_id action_id reply_text : Text) → Reply
  file_result : FileTransferResult → Reply
  desktop_input_result : DesktopInputResult → Reply
  error_payload : (related_packet_type : PacketType) (related_sequence_number : ℕ) → Reply

-- The calls of the prompts' `record_…` methods.
pub data Record : Type 0 where
  notification_recorded : NotificationPosted → Record
  file_recorded : FileTransferResult → Record
  event_recorded : EventType → Bytes → Record

-- `parse_event` gives whether each enumeration value that a notice looks up by `Name` has a name.
pub record ServeDesktop : Type 0 where
  pub int : Text → Option ℕ
  pub device_id : Text
  pub device_name : Text
  pub identity_public_key : Bytes
  pub protocol_version : Text
  pub service_port : Text
  pub platform : Platform
  pub sha256 : Bytes → Text
  pub controller : Controller
  pub parse_ping : Bytes → Option Ping
  pub parse_notification : Bytes → Option NotificationPosted
  pub parse_offer : Bytes → Option FileOffer
  pub parse_chunk : Bytes → Option FileChunk
  pub parse_complete : Bytes → Option FileComplete
  pub parse_input : Bytes → Option DesktopInputRequest
  pub parse_event : EventType → Bytes → Option Bool
  pub prompt_notification_replies : Bool
  pub prompt_reply : (app_name title : Text) → List (Text × Text) → Option (Text × Text)

-- `transport_ready` is the session's event; `sequence_number` is the counter that the loop shares
-- with the outgoing thread, whose numbers are passed over in each round; `wakeups` counts the permits that it
-- releases, and `stopped` is the stop event of the outgoing thread.
pub record ServeWorld : Type 0 where
  pub sent : List (ℕ × Reply)
  pub failures : List Bool
  pub sequence_number : ℕ
  pub receiver : FileReceiver
  pub log : Log
  pub records : List Record
  pub transport_ready : Bool
  pub wakeups : ℕ
  pub stopped : Bool

unfoldable pub next_sequence : Exec ServeWorld ℕ
next_sequence w = (ok w.sequence_number, record w { sequence_number = w.sequence_number + 1 })

abbrev pub written : ℕ → Reply → List Bool → ServeWorld → ServeWorld
written n r fs w = record w { sent = w.sent ++ (n, r) ∷ []; failures = fs }

unfoldable pub write_next : ℕ → Reply → List Bool → Exec ServeWorld (Unit {0})
write_next n r [] w = (ok tt, written n r [] w)
write_next n r (false ∷ fs) w = (ok tt, written n r fs w)
write_next n r (true ∷ fs) w = (err os_error, record w { failures = fs })

unfoldable pub write_envelope : ℕ → Reply → Exec ServeWorld (Unit {0})
unfolding write_next
write_envelope n r w = write_next n r w.failures w

-- Takes the next number and writes the envelope.
unfoldable pub reply : Reply → Exec ServeWorld (Unit {0})
unfolding next_sequence write_envelope
reply r = do n ← next_sequence; write_envelope n r

unfoldable pub record_call : Record → Exec ServeWorld (Unit {0})
record_call r w = (ok tt, record w { records = w.records ++ r ∷ [] })

abbrev pub with_receiver : {A : Type 0} → Exec FileReceiver A → Exec ServeWorld A
with_receiver m w = let (result, s) = m w.receiver in (result, record w { receiver = s })

abbrev pub with_log : {A : Type 0} → Exec Log A → Exec ServeWorld A
with_log m w = let (result, log) = m w.log in (result, record w { log = log })

-- ParseFromString
abbrev pub parsed : {A : Type 0} → Option A → Exec ServeWorld A
parsed o = lift (or_raise decode_error o)
