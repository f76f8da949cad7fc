-- ===== src/Pairing/Outgoing.antt =====
-- Requests to the phone: the runtime's queues (`_enqueue_outgoing`, the `_next_…` methods and
-- `_queue_get` of app/runtime.py), and the thread that sends them (`_pump_outgoing_commands`, the
-- `_next_…` methods and `wake_outgoing` of pairing/pairing_server.py). A request stands for its
-- encoding; which writes fail is listed in advance, and what a file holds comes from a parameter.
-- Notices to the user are not modelled, nor are the numbers that the reading loop takes from the
-- common counter in between.
use linkable.Prelude.{
  ℕ, zero, suc, ◌+◌, ◌≡◌, refl, sym, ap, ◌∙◌, Bool, true, false, Option, none, some, List, [], ◌∷◌,
  ◌++◌, Text, Bytes, if◌then◌else◌, Eq, ◌==◌, nat_eqb, nat_eqb_iff, Bool-cases, inl, inr, ==_iff,
}
use linkable.Prelude.Exec.{
  Exception, os_error, file_not_found_error, Result, ok, err, Exec, ◌>>=◌, ◌>>◌, lift, pure,
  or_raise,
}
use linkable.Transfer.Sender.{Message, file_messages}
pub mod Order
pub mod Fewer
pub mod Progress
pub mod Wakeups

-- The queues of requests that are one packet each, in the order in which the thread looks at them.
pub data CommandKind : Type 0 where
  ring_phone call_control notification_reply notification_action dial : CommandKind
  telephony_diagnostics bluetooth_status shared_app_launch phone_file_list : CommandKind
  phone_file_pull contacts recent_contacts camera_capability camera_start camera_ack : CommandKind
  camera_stop : CommandKind

abbrev index : CommandKind → ℕ
index ring_phone = 0
index call_control = 1
index notification_reply = 2
index notification_action = 3
index dial = 4
index telephony_diagnostics = 5
index bluetooth_status = 6
index shared_app_launch = 7
index phone_file_list = 8
index phone_file_pull = 9
index contacts = 10
index recent_contacts = 11
index camera_capability = 12
index camera_start = 13
index camera_ack = 14
index camera_stop = 15

-- What stands at an index of the list, and the last kind from its end on.
at : List CommandKind → ℕ → CommandKind
at [] n = camera_stop
at (k ∷ ks) zero = k
at (k ∷ ks) (suc n) = at ks n

abbrev calls : List CommandKind
calls =
    ring_phone ∷ call_control ∷ notification_reply ∷ notification_action ∷ dial
    ∷ telephony_diagnostics ∷ bluetooth_status ∷ []

abbrev browsing : List CommandKind
browsing = shared_app_launch ∷ phone_file_list ∷ phone_file_pull ∷ contacts ∷ recent_contacts ∷ []

abbrev camera : List CommandKind
camera = camera_capability ∷ camera_start ∷ camera_ack ∷ camera_stop ∷ []

abbrev pub kinds : List CommandKind
kinds = calls ++ browsing ++ camera

at-index : (k : CommandKind) → at kinds (index k) ≡ k
unfolding at
at-index ring_phone = refl
at-index call_control = refl
at-index notification_reply = refl
at-index notification_action = refl
at-index dial = refl
at-index telephony_diagnostics = refl
at-index bluetooth_status = refl
at-index shared_app_launch = refl
at-index phone_file_list = refl
at-index phone_file_pull = refl
at-index contacts = refl
at-index recent_contacts = refl
at-index camera_capability = refl
at-index camera_start = refl
at-index camera_ack = refl
at-index camera_stop = refl

pub index_injective : (j k : CommandKind) → index j ≡ index k → j ≡ k
index_injective j k e = sym (at-index j) ∙ ap (at kinds) e ∙ at-index k

instance abbrev pub kind_eq : Eq CommandKind
kind_eq = record {
  equal = λ j k. nat_eqb (index j) (index k);
  equal_sound = λ j k h. index_injective j k ((nat_eqb_iff (index j) (index k)).0 h);
  equal_self = λ k. (nat_eqb_iff (index k) (index k)).1 refl;
}

-- SendFileRequest
pub record SendFileRequest : Type 0 where
  pub path : Text
  pub chunk_size : ℕ

-- What a file is, when it is sent.
pub record FileSource : Type 0 where
  pub transfer_id : Text
  pub file_name : Text
  pub mime_type : Text
  pub content : Bytes

pub data Packet : Type 0 where
  command : CommandKind → Bytes → Packet
  file : Message → Packet

-- Which providers the server was given, the one request that may be given in place of the provider
-- of files, and the files.
pub record Providers : Type 0 where
  pub provided : CommandKind → Bool
  pub file_provided : Bool
  pub send_file_request : Option SendFileRequest
  pub read_file : Text → Option FileSource
  pub sha256 : Bytes → Text

-- The providers that the runtime gives its server: one for each queue.
unfoldable pub runtime_providers :
    (read_file : Text → Option FileSource) (sha256 : Bytes → Text) → Providers
runtime_providers read_file sha256 = record {
  provided = λ k. true;
  file_provided = true;
  send_file_request = none;
  read_file = read_file;
  sha256 = sha256;
}

-- `file_sent` is the thread's own; the sequence number is shared with the loop that reads.
pub record PumpWorld : Type 0 where
  pub send_files : List SendFileRequest
  pub queues : CommandKind → List Bytes
  pub file_sent : Bool
  pub sequence_number : ℕ
  pub failures : List Bool
  pub sent : List (ℕ × Packet)

-- Queue.put
unfoldable pub put : (CommandKind → List Bytes) → CommandKind → Bytes → CommandKind → List Bytes
put q k r j = if j == k then q j ++ r ∷ [] else q j

-- `_queue_get`: the first request and the rest, without waiting.
unfoldable pub queue_get : {A : Type 0} → List A → Option A × List A
queue_get [] = (none, [])
queue_get (x ∷ xs) = (some x, xs)

-- The queue of a kind after a request was taken from it.
unfoldable pub set_queue :
    (CommandKind → List Bytes) → CommandKind → List Bytes → CommandKind → List Bytes
set_queue q k rest j = if j == k then rest else q j

pub set_queue-empty :
    (q : CommandKind → List Bytes) (k j : CommandKind) → q k ≡ [] → set_queue q k [] j ≡ q j
unfolding set_queue
set_queue-empty q k j h = elim (Bool-cases (j == k)) [
  | inl same ↦ rw same (sym (ap q ((==_iff j k).0 same) ∙ h))
  | inr other ↦ rw other refl
]

-- The permits of the server that runs, if one does; `wake_outgoing` releases one.
unfoldable pub wake_outgoing : Option ℕ → Option ℕ
wake_outgoing none = none
wake_outgoing (some permits) = some (permits + 1)

unfoldable pub enqueue_outgoing :
    (CommandKind → List Bytes)
    → Option ℕ
    → CommandKind
    → Bytes
    → (CommandKind → List Bytes) × Option ℕ
unfolding put wake_outgoing
enqueue_outgoing q server k r = (put q k r, wake_outgoing server)

write_next : ℕ → Packet → List Bool → Exec PumpWorld (Unit {0})
write_next n p [] w = (ok tt, record w { sent = w.sent ++ (n, p) ∷ [] })
write_next n p (false ∷ fs) w = (ok tt, record w { sent = w.sent ++ (n, p) ∷ []; failures = fs })
write_next n p (true ∷ fs) w = (err os_error, record w { failures = fs })

-- An envelope under the next sequence number.
write_packet : Packet → Exec PumpWorld (Unit {0})
unfolding write_next
write_packet p w =
    write_next w.sequence_number p w.failures (record w { sequence_number = w.sequence_number + 1 })

write_messages : List Message → Exec PumpWorld (Unit {0})
unfolding write_packet
write_messages [] = pure tt
write_messages (m ∷ ms) = write_packet (file m) >> write_messages ms

module _ (p : Providers) where
  take_from : Bool → CommandKind → Exec PumpWorld (Option Bytes)
  unfolding queue_get set_queue
  take_from false k w = (ok none, w)
  take_from true k w =
      let (r, rest) = queue_get (w.queues k) in
      (ok r, record w { queues = set_queue w.queues k rest })

  -- The `_next_…` method of a kind, with the runtime's provider.
  next_request : CommandKind → Exec PumpWorld (Option Bytes)
  unfolding take_from
  next_request k = take_from (p.provided k) k

  take_file : Bool → Exec PumpWorld (Option SendFileRequest)
  unfolding queue_get
  take_file true w =
      let (r, rest) = queue_get w.send_files in (ok r, record w { send_files = rest })
  take_file false w = (ok (if w.file_sent then none else p.send_file_request), w)

  next_send_file_request : Exec PumpWorld (Option SendFileRequest)
  unfolding take_file
  next_send_file_request = take_file p.file_provided

  mark_sent : Exec PumpWorld (Unit {0})
  mark_sent w = (ok tt, record w { file_sent = true })

  messages_of : SendFileRequest → FileSource → List Message
  messages_of r s =
      file_messages s.transfer_id s.file_name s.mime_type (p.sha256 s.content) r.chunk_size
        s.content

  pub send_one_file : Option SendFileRequest → Exec PumpWorld (Unit {0})
  unfolding write_messages messages_of mark_sent
  send_one_file none = pure tt
  send_one_file (some r) = do
    source ← lift (or_raise file_not_found_error (p.read_file r.path))
    write_messages (messages_of r source)
    mark_sent

  -- The part of a round about files.
  pump_file : Exec PumpWorld (Unit {0})
  unfolding next_send_file_request send_one_file
  pump_file = next_send_file_request >>= send_one_file

  pub send_request : CommandKind → Option Bytes → Exec PumpWorld (Unit {0})
  unfolding write_packet
  send_request k none = pure tt
  send_request k (some r) = write_packet (command k r)

  -- The part of a round about one kind: what the `except` clause catches ends the thread.
  pump_kind : CommandKind → Exec PumpWorld (Unit {0})
  unfolding next_request send_request
  pump_kind k = next_request k >>= send_request k

  pub pump_kinds : List CommandKind → Exec PumpWorld (Unit {0})
  unfolding pump_kind
  pump_kinds [] = pure tt
  pump_kinds (k ∷ ks) = pump_kind k >> pump_kinds ks

  pump_calls : Exec PumpWorld (Unit {0})
  unfolding pump_kinds
  pump_calls = pump_kinds calls

  pump_browsing : Exec PumpWorld (Unit {0})
  unfolding pump_kinds
  pump_browsing = pump_kinds browsing

  pump_camera : Exec PumpWorld (Unit {0})
  unfolding pump_kinds
  pump_camera = pump_kinds camera

  -- A round of the thread after it was woken; it goes on exactly if the round returns.
  unfoldable pub pump_round : Exec PumpWorld (Unit {0})
  unfolding pump_file pump_calls pump_browsing pump_camera
  pump_round = do pump_file; pump_calls; pump_browsing; pump_camera
