-- ===== src/App/Requests/Permits.antt =====
-- Each request goes to its queue, with one permit.
use linkable.Prelude.{
  ℕ, ◌≡◌, Bool, true, false, Option, none, some, [], ◌∷◌, Text, Bytes, not, ◌==◌, ◌≢◌, ◌++◌, nat_eq,
  list_eq, ◌⊎◌,
}
use linkable.Prelude.Int.{ℤ}
use linkable.Pairing.Outgoing.{
  CommandKind, kind_eq, ring_phone, call_control, notification_reply, notification_action, dial,
  telephony_diagnostics, shared_app_launch, phone_file_list, phone_file_pull, contacts,
  recent_contacts, SendFileRequest, wake_outgoing,
}
use linkable.App.Notifications.{Notifications, CallControlAction}
use linkable.App.Requests.{
  Request, Outbox, queue_ring_phone, queue_telephony_diagnostics, queue_notification_action,
  queue_call_control, request_phone_file_list, request_phone_file_pull, request_contacts,
  request_recent_contacts, launch_shared_app, queue_dial, queue_notification_reply, queue_send_file,
}

-- The methods, with their arguments.
pub data Call : Type 0 where
  rings : Bool → Call
  diagnoses : Call
  acts : (notification_id action_id : Text) → Call
  controls : CallControlAction → Notifications → Call
  lists pulls : (active : Bool) (path : Text) → Call
  searches : (active : Bool) (query : Text) (limit : ℕ) → Call
  asks_recent : (active : Bool) (limit : ℕ) → Call
  launches : (mirrored : Bool) (package_name : Text) → Call
  dials : (phone_number : Text) (sim_slot : ℤ) → Call
  replies : (notification_id action_id reply_text : Text) → Call
  sends_file : Option SendFileRequest → Call

-- The queues that a method's request may go to.
abbrev pub Goes : Call → CommandKind → Type 0
Goes (rings start) k = k ≡ ring_phone
Goes diagnoses k = k ≡ telephony_diagnostics
Goes (acts id action) k = k ≡ notification_action
Goes (controls action n) k = (k ≡ call_control) ⊎ (k ≡ notification_action)
Goes (lists active path) k = k ≡ phone_file_list
Goes (pulls active path) k = k ≡ phone_file_pull
Goes (searches active query limit) k = k ≡ contacts
Goes (asks_recent active limit) k = k ≡ recent_contacts
Goes (launches mirrored name) k = k ≡ shared_app_launch
Goes (dials number sim) k = k ≡ dial
Goes (replies id action text) k = k ≡ notification_reply
Goes (sends_file r) k = ⊥

-- The files that a method may queue.
abbrev pub Sends : Call → SendFileRequest → Type 0
Sends (sends_file (some r)) f = f ≡ r
Sends _ f = ⊥

-- One request more, as the last one of this queue; each other queue is as before.
abbrev pub Queued : CommandKind → Outbox → Outbox → Type 0
Queued k b b' =
    ((x : Bytes) × (b'.queues k ≡ b.queues k ++ x ∷ []))
    × ((j : CommandKind) → j ≢ k → b'.queues j ≡ b.queues j)
    × (b'.send_files ≡ b.send_files)

-- When a method makes a request: without a phone, or for a blank text, it makes none.
abbrev pub is_made : (Text → Text) → Call → Bool
is_made strip (lists active path) = active
is_made strip (pulls active path) = active
is_made strip (searches active query limit) = active
is_made strip (asks_recent active limit) = active
is_made strip (launches mirrored name) = mirrored
is_made strip (dials number sim) = not (strip number == [])
is_made strip (replies id action text) = not (strip text == [])
is_made strip (sends_file none) = false
is_made strip _ = true

-- If no request is made nothing changes; else one more waits in a queue of the method, or a file
-- does, and the server that runs has one permit more.
abbrev pub Paired : (made : Bool) → Call → Outbox → Outbox → Type 0
Paired false c b b' = b' ≡ b
Paired true c b b' =
    (b'.server ≡ wake_outgoing b.server)
    × (((k : CommandKind) × Goes c k × Queued k b b')
        ⊎ ((f : SendFileRequest) × Sends c f
            × (b'.send_files ≡ b.send_files ++ f ∷ [])
            × (b'.queues ≡ b.queues)))

module _ (encode : Request → Bytes) (strip : Text → Text) where
  abbrev pub run : Call → Outbox → Outbox
  run (rings start) b = queue_ring_phone encode start b
  run diagnoses b = queue_telephony_diagnostics encode b
  run (acts id action) b = queue_notification_action encode id action b
  run (controls action n) b = queue_call_control encode action n b
  run (lists active path) b = request_phone_file_list encode active path b
  run (pulls active path) b = request_phone_file_pull encode active path b
  run (searches active query limit) b = request_contacts encode active query limit b
  run (asks_recent active limit) b = request_recent_contacts encode active limit b
  run (launches mirrored name) b = launch_shared_app encode mirrored name b
  run (dials number sim) b = (queue_dial encode strip number sim b).1
  run (replies id action text) b = (queue_notification_reply encode strip id action text b).1
  run (sends_file r) b = (queue_send_file r b).1
