-- ===== src/App/Requests.antt =====
-- The methods of `DesktopRuntime` in app/runtime.py that make requests to the phone. The drawn
-- identifiers and the times of a request are not modelled, nor are the status texts; its encoding
-- and `str.strip` are arguments, and so is whether mirroring succeeds and a path is a file.
use linkable.Prelude.{
  ℕ, zero, suc, Bool, true, false, not, Option, none, some, List, [], ◌∷◌, ◌++◌, Text, Bytes,
  if◌then◌else◌, ◌==◌, nat_eq, list_eq,
}
use Prim.Native.Nat.{max}
use linkable.Prelude.Int.{ℤ, pos_part}
use linkable.Pairing.Outgoing.{
  CommandKind, enqueue_outgoing, ring_phone, call_control, notification_reply, notification_action,
  dial, telephony_diagnostics, shared_app_launch, phone_file_list, phone_file_pull, contacts,
  recent_contacts, wake_outgoing, SendFileRequest,
}
use linkable.App.Notifications.{Notifications, CallControlAction, app_call_action_for}
pub mod Permits

pub data Request : Type 0 where
  ring_request : (start : Bool) (duration_ms : ℕ) → Request
  call_request : CallControlAction → Request
  dial_request : (phone_number : Text) (sim_slot : ℕ) (direct_call : Bool) → Request
  diagnostics_request : Request
  reply_request : (notification_id action_id reply_text : Text) → Request
  action_request : (notification_id action_id : Text) → Request
  launch_request : (package_name : Text) → Request
  list_request : (path : Text) → Request
  pull_request : (path : Text) → Request
  contacts_request : (query : Text) (limit : ℕ) → Request
  recent_request : (limit : ℕ) → Request

-- The queue that a request goes to.
abbrev pub kind_of : Request → CommandKind
kind_of (ring_request start duration_ms) = ring_phone
kind_of (call_request action) = call_control
kind_of (dial_request phone_number sim_slot direct_call) = dial
kind_of diagnostics_request = telephony_diagnostics
kind_of (reply_request notification_id action_id reply_text) = notification_reply
kind_of (action_request notification_id action_id) = notification_action
kind_of (launch_request package_name) = shared_app_launch
kind_of (list_request path) = phone_file_list
kind_of (pull_request path) = phone_file_pull
kind_of (contacts_request query limit) = contacts
kind_of (recent_request limit) = recent_contacts

-- The queues, and the permits of the server if one runs.
pub record Outbox : Type 0 where
  pub send_files : List SendFileRequest
  pub queues : CommandKind → List Bytes
  pub server : Option ℕ

module _ (encode : Request → Bytes) where
  unfoldable pub enqueue : Request → Outbox → Outbox
  unfolding enqueue_outgoing
  enqueue r b =
      let (q, server) = enqueue_outgoing b.queues b.server (kind_of r) (encode r) in
      record b { queues = q; server = server }

  unfoldable pub queue_ring_phone : (start : Bool) → Outbox → Outbox
  unfolding enqueue
  queue_ring_phone start = enqueue (ring_request start 30000)

  unfoldable pub queue_telephony_diagnostics : Outbox → Outbox
  unfolding enqueue
  queue_telephony_diagnostics = enqueue diagnostics_request

  unfoldable pub queue_notification_action : (notification_id action_id : Text) → Outbox → Outbox
  unfolding enqueue
  queue_notification_action notification_id action_id =
      enqueue (action_request notification_id action_id)

  -- What the found action of an app's call does: the queued request, if there is one.
  queue_found : Text × (Text × Text) → Outbox → Bool × Outbox
  unfolding enqueue
  queue_found ([], (action_id, label)) b = (false, b)
  queue_found (c ∷ id, ([], label)) b = (false, b)
  queue_found (c ∷ id, (a ∷ action_id, label)) b =
      (true, enqueue (action_request (c ∷ id) (a ∷ action_id)) b)

  unfoldable pub queue_app_call_action_if_available :
      CallControlAction → Notifications → Outbox → Bool × Outbox
  unfolding queue_found
  queue_app_call_action_if_available action n b = queue_found (app_call_action_for action n) b

  unless_queued : CallControlAction → Bool × Outbox → Outbox
  unfolding enqueue
  unless_queued action (true, b) = b
  unless_queued action (false, b) = enqueue (call_request action) b

  unfoldable pub queue_call_control : CallControlAction → Notifications → Outbox → Outbox
  unfolding unless_queued queue_app_call_action_if_available
  queue_call_control action n b =
      unless_queued action (queue_app_call_action_if_available action n b)

  -- A request for which a phone has to be connected.
  if_active : Bool → Request → Outbox → Outbox
  unfolding enqueue
  if_active true r b = enqueue r b
  if_active false r b = b

  unfoldable pub request_phone_file_list : (active : Bool) (path : Text) → Outbox → Outbox
  unfolding if_active
  request_phone_file_list active path = if_active active (list_request path)

  unfoldable pub request_phone_file_pull : (active : Bool) (path : Text) → Outbox → Outbox
  unfolding if_active
  request_phone_file_pull active path = if_active active (pull_request path)

  unfoldable pub request_contacts : (active : Bool) (query : Text) (limit : ℕ) → Outbox → Outbox
  unfolding if_active
  request_contacts active query limit = if_active active (contacts_request query limit)

  unfoldable pub request_recent_contacts : (active : Bool) (limit : ℕ) → Outbox → Outbox
  unfolding if_active
  request_recent_contacts active limit = if_active active (recent_request limit)

  -- After the mirror was launched.
  unfoldable pub launch_shared_app : (mirrored : Bool) (package_name : Text) → Outbox → Outbox
  unfolding if_active
  launch_shared_app mirrored package_name = if_active mirrored (launch_request package_name)

  module _ (strip : Text → Text) where
    -- max(1, sim_slot)
    unfoldable pub queue_dial : (phone_number : Text) (sim_slot : ℤ) → Outbox → Bool × Outbox
    unfolding enqueue
    queue_dial phone_number sim_slot b =
        if strip phone_number == []
        then (false, b)
        else (true, enqueue (dial_request (strip phone_number) (max 1 (pos_part sim_slot)) true) b)

    unfoldable pub queue_notification_reply :
        (notification_id action_id reply_text : Text) → Outbox → Bool × Outbox
    unfolding enqueue
    queue_notification_reply notification_id action_id reply_text b =
        if strip reply_text == []
        then (false, b)
        else (true, enqueue (reply_request notification_id action_id (strip reply_text)) b)

-- `queue_send_file`, for the request that `SendFileRequest.from_path` makes of a path.
unfoldable pub queue_send_file : Option SendFileRequest → Outbox → Bool × Outbox
unfolding wake_outgoing
queue_send_file none b = (false, b)
queue_send_file (some r) b =
    (true, record b { send_files = b.send_files ++ r ∷ []; server = wake_outgoing b.server })
