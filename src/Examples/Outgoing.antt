-- ===== src/Examples/Outgoing.antt =====
-- The sending thread at two queued requests.
use linkable.Prelude.{◌<◌, ◌≤◌, refl, true, false, none, [], ◌∷◌, arith}
use linkable.Pairing.Outgoing.{
  kind_eq, ring_phone, dial, Providers, PumpWorld, runtime_providers, put, pump_round,
}
use linkable.Pairing.Outgoing.Order.{Ordered, pump_round-Ordered}
use linkable.Pairing.Outgoing.Fewer.{total}
use linkable.Pairing.Outgoing.Progress.{pump_round-shrinks}
use linkable.Pairing.Outgoing.Wakeups.{Wakeup, Thread, Step, Reachable}
use linkable.Pairing.Outgoing.Wakeups.Covered.{Reachable-idle}

abbrev providers : Providers
unfolding runtime_providers
providers = runtime_providers (λ path. none) (λ content. [])

abbrev empty_world : PumpWorld
empty_world = record {
  send_files = [];
  queues = λ k. [];
  file_sent = false;
  sequence_number = 100;
  failures = [];
  sent = [];
}

-- Two requests to ring and one to dial; the first write fails.
abbrev busy_world : PumpWorld
unfolding put
busy_world = record empty_world {
  queues = put (put (put empty_world.queues ring_phone (1 ∷ [])) dial (2 ∷ [])) ring_phone (3 ∷ []);
  failures = true ∷ [];
}

pump_round-Ordered_example :
    Ordered (pump_round providers busy_world).0 busy_world (pump_round providers busy_world).1
pump_round-Ordered_example = pump_round-Ordered providers busy_world

pump_round-shrinks_example : total (pump_round providers busy_world).1 < total busy_world
unfolding put providers runtime_providers
pump_round-shrinks_example =
    pump_round-shrinks (λ path. none) (λ content. []) busy_world (omega arith)

abbrev start : Wakeup
start = record {
  world = empty_world;
  permits = 0;
  putting = 0;
  ready = false;
  stopping = false;
  releasing = false;
  thread = Thread.waiting;
}

-- A request is queued, the phone's heartbeat comes, and the thread makes two rounds.
abbrev queued : Wakeup
queued = record start {
  world = record start.world { queues = put start.world.queues ring_phone (1 ∷ []) };
  putting = 1;
}

abbrev released : Wakeup
released = record queued { putting = 0; permits = 1 }

abbrev at_heartbeat : Wakeup
at_heartbeat = record released { ready = true; permits = 2 }

abbrev first_wake : Wakeup
first_wake = record at_heartbeat { permits = 1; thread = Thread.woken }

abbrev first_round : Wakeup
first_round = record first_wake {
  world = (pump_round providers first_wake.world).1;
  thread = Thread.waiting;
}

abbrev second_wake : Wakeup
second_wake = record first_round { permits = 0; thread = Thread.woken }

abbrev second_round : Wakeup
second_round = record second_wake {
  world = (pump_round providers second_wake.world).1;
  thread = Thread.waiting;
}

abbrev Reaches : Wakeup → Type 0
Reaches = Reachable (λ path. none) (λ content. []) 0

start_reached : Reaches start
start_reached = Reachable.first start (refl, refl, refl, refl, refl, refl)

released_reached : Reaches released
released_reached =
    Reachable.next 0 _ _ (Reachable.next 0 _ _ start_reached (Step.puts start ring_phone (1 ∷ [])))
      (Step.wakes queued 0 refl)

first_reached : Reaches first_wake
first_reached =
    Reachable.next 0 _ _
      (Reachable.next 0 _ _ released_reached (Step.becomes_ready released refl refl))
      (Step.acquires at_heartbeat 1 refl refl refl)

second_reached : Reaches second_round
unfolding providers runtime_providers pump_round put
second_reached =
    Reachable.next 0 _ _
      (Reachable.next 0 _ _ (Reachable.next 0 _ _ first_reached (Step.rounds first_wake refl refl))
        (Step.acquires first_round 0 refl refl refl))
      (Step.rounds second_wake refl refl)

Reachable-idle_example : total second_round.world ≤ 0
Reachable-idle_example =
    Reachable-idle (λ path. none) (λ content. []) 0 second_round second_reached refl refl refl refl
