-- ===== src/Pairing/Outgoing/Wakeups.antt =====
-- The semaphore between the threads that queue requests and the thread that sends them.
use linkable.Prelude.{
  ◌∙◌, ℕ, suc, ◌+◌, ◌≤◌, ◌≡◌, refl, ap, Bool, true, false, Option, List, [], ◌∷◌, ◌++◌, Text, Bytes,
  if◌then◌else◌, ◌==◌, arith, Bool-cases, inl, inr, length-append, ltb, ltb→lt, ltb_false→le,
}
use linkable.Prelude.Exec.{Result, ok, err}
use linkable.Pairing.Outgoing.{
  CommandKind, kind_eq, kinds, SendFileRequest, FileSource, PumpWorld, put, pump_round,
  runtime_providers, ring_phone, call_control, notification_reply, notification_action, dial,
  telephony_diagnostics, bluetooth_status, shared_app_launch, phone_file_list, phone_file_pull,
  contacts, recent_contacts, camera_capability, camera_start, camera_ack, camera_stop,
}
use linkable.Pairing.Outgoing.Fewer.{sum, total}
use linkable.Pairing.Outgoing.Progress.{pump_round-shrinks, pump_round-total}
pub mod Covered

-- Where the sending thread is: before `acquire`, after it, or returned.
pub data Thread : Type 0 where
  waiting woken gone : Thread

-- `putting` counts the requests that are queued and whose permit is still to be released, and
-- `releasing` tells that the session's end has still to release its permit.
pub record Wakeup : Type 0 where
  pub world : PumpWorld
  pub permits : ℕ
  pub putting : ℕ
  pub ready : Bool
  pub stopping : Bool
  pub releasing : Bool
  pub thread : Thread

abbrev goes_on : Result (Unit {0}) → Thread
goes_on (ok u) = waiting
goes_on (err x) = gone

module _ (read_file : Text → Option FileSource) (sha256 : Bytes → Text) where
  -- One step of a thread. A session opens after the previous one's thread is gone: `join` waits
  -- one second for it, and a thread that is still in a write then is not modelled.
  pub data Step : Wakeup → Wakeup → Type 0 where
    puts :
        (s : Wakeup) (k : CommandKind) (r : Bytes)
        → Step s (record s {
          world = record s.world { queues = put s.world.queues k r };
          putting = suc s.putting;
        })
    puts_file :
        (s : Wakeup) (f : SendFileRequest)
        → Step s (record s {
          world = record s.world { send_files = s.world.send_files ++ f ∷ [] };
          putting = suc s.putting;
        })
    wakes :
        (s : Wakeup) (n : ℕ)
        → s.putting ≡ suc n
        → Step s (record s { putting = n; permits = suc s.permits })
    becomes_ready :
        (s : Wakeup)
        → s.ready ≡ false
        → s.stopping ≡ false
        → Step s (record s { ready = true; permits = suc s.permits })
    acquires :
        (s : Wakeup) (n : ℕ)
        → s.thread ≡ waiting
        → s.permits ≡ suc n
        → s.stopping ≡ false
        → Step s (record s { permits = n; thread = woken })
    rounds :
        (s : Wakeup)
        → s.thread ≡ woken
        → s.ready ≡ true
        → Step s (record s {
          world = (pump_round (runtime_providers read_file sha256) s.world).1;
          thread = goes_on (pump_round (runtime_providers read_file sha256) s.world).0;
        })
    stops :
        (s : Wakeup) → s.stopping ≡ false → Step s (record s { stopping = true; releasing = true })
    releases :
        (s : Wakeup)
        → s.releasing ≡ true
        → Step s (record s { releasing = false; permits = suc s.permits })
    leaves :
        (s : Wakeup) (n : ℕ)
        → s.thread ≡ waiting
        → s.permits ≡ suc n
        → s.stopping ≡ true
        → Step s (record s { permits = n; thread = gone })
    gives_up :
        (s : Wakeup)
        → s.thread ≡ woken
        → s.ready ≡ false
        → s.stopping ≡ true
        → Step s (record s { thread = gone })
    opens :
        (s : Wakeup) (failures : List Bool)
        → s.thread ≡ gone
        → s.stopping ≡ true
        → s.releasing ≡ false
        → Step s (record s {
          world = record s.world {
            file_sent = false;
            sequence_number = 100;
            failures = failures;
            sent = [];
          };
          ready = false;
          stopping = false;
          thread = waiting;
        })

  -- A server's first session begins without a permit, whatever the queues of the runtime hold.
  abbrev pub IsFirst : Wakeup → Type 0
  IsFirst s =
      (s.permits ≡ 0)
      × (s.putting ≡ 0)
      × (s.ready ≡ false)
      × (s.stopping ≡ false)
      × (s.releasing ≡ false)
      × (s.thread ≡ waiting)

  -- The states of one server, which found so many requests in the queues when it was made: the
  -- next server, with a semaphore of its own, begins with what this one left.
  pub data Reachable : ℕ → Wakeup → Type 0 where
    first : (s : Wakeup) → IsFirst s → Reachable (total s.world) s
    next : (n : ℕ) (s s' : Wakeup) → Reachable n s → Step s s' → Reachable n s'
    restarts :
        (n : ℕ) (s s' : Wakeup)
        → Reachable n s
        → s'.world ≡ s.world
        → IsFirst s'
        → Reachable (total s'.world) s'
