-- ===== src/Pairing/Outgoing/Wakeups/Covered.antt =====
-- Every request that waits, but for those of an earlier server, is covered by a permit.
use linkable.Prelude.{
  ◌∙◌, ℕ, ◌+◌, ◌≤◌, ◌≡◌, refl, ap, Bool, true, false, Option, List, [], ◌∷◌, Text, Bytes,
  if◌then◌else◌, ◌==◌, arith, Bool-cases, inl, inr, length-append, ltb, ltb→lt, ltb_false→le,
}
use linkable.Prelude.Exec.{Result, ok, err}
use linkable.Pairing.Outgoing.{
  CommandKind, kind_eq, kinds, FileSource, put, pump_round, runtime_providers, ring_phone,
  call_control, notification_reply, notification_action, dial, telephony_diagnostics,
  bluetooth_status, shared_app_launch, phone_file_list, phone_file_pull, contacts, recent_contacts,
  camera_capability, camera_start, camera_ack, camera_stop,
}
use linkable.Pairing.Outgoing.Fewer.{sum, total}
use linkable.Pairing.Outgoing.Progress.{pump_round-shrinks, pump_round-total}
use linkable.Pairing.Outgoing.Wakeups.{
  Thread, waiting, woken, gone, Wakeup, goes_on, Step, IsFirst, Reachable,
}

abbrev flag : Bool → ℕ
flag b = if b then 1 else 0

abbrev holding : Thread → ℕ
holding waiting = 0
holding woken = 1
holding gone = 0

-- The permit that a thread takes along when it stops.
abbrev leaving : Bool → Thread → ℕ
leaving true waiting = 1
leaving true woken = 1
leaving true gone = 0
leaving false t = 0

-- The first n requests need no permit.
pub record Covered (n : ℕ) (s : Wakeup) : Type 0 where
  pub enough :
      total s.world + leaving s.stopping s.thread
      ≤ n + s.permits + s.putting + holding s.thread + flag s.releasing
  pub left : leaving s.stopping s.thread ≤ s.permits + flag s.releasing
  pub at_end : flag s.releasing ≤ flag s.stopping

abbrev count : CommandKind → List CommandKind → ℕ
count k [] = 0
count k (j ∷ ks) = flag (j == k) + count k ks

sum-put :
    (q : CommandKind → List Bytes) (k : CommandKind) (r : Bytes) (ks : List CommandKind)
    → sum ks (put q k r) ≡ sum ks q + count k ks
unfolding put
sum-put q k r [] = omega arith
sum-put q k r (j ∷ ks) = elim (Bool-cases (j == k)) [
  | inl same ↦ rw same (omega (arith, length-append (q j) (r ∷ []), sum-put q k r ks))
  | inr other ↦ rw other (omega (arith, sum-put q k r ks))
]

count-kinds : (k : CommandKind) → count k kinds ≡ 1
count-kinds ring_phone = refl
count-kinds call_control = refl
count-kinds notification_reply = refl
count-kinds notification_action = refl
count-kinds dial = refl
count-kinds telephony_diagnostics = refl
count-kinds bluetooth_status = refl
count-kinds shared_app_launch = refl
count-kinds phone_file_list = refl
count-kinds phone_file_pull = refl
count-kinds contacts = refl
count-kinds recent_contacts = refl
count-kinds camera_capability = refl
count-kinds camera_start = refl
count-kinds camera_ack = refl
count-kinds camera_stop = refl

pub sum-put-kinds :
    (q : CommandKind → List Bytes) (k : CommandKind) (r : Bytes)
    → sum kinds (put q k r) ≡ sum kinds q + 1
sum-put-kinds q k r = sum-put q k r kinds ∙ ap (λ n. sum kinds q + n) (count-kinds k)

leaving-small : (b : Bool) (t : Thread) → leaving b t ≤ 1
leaving-small true waiting = omega arith
leaving-small true woken = omega arith
leaving-small true gone = omega arith
leaving-small false t = omega arith

module _ (read_file : Text → Option FileSource) (sha256 : Bytes → Text) where
  stays :
      (s : Wakeup) (t : Thread)
      → s.stopping ≡ true
      → s.thread ≡ t
      → leaving s.stopping s.thread ≡ leaving true t
  stays s t g e = rw (g, e) refl

  goes_on-holding : (x : Result (Unit {0})) → holding (goes_on x) ≡ 0
  goes_on-holding (ok u) = refl
  goes_on-holding (err x) = refl

  goes_on-leaving : (b : Bool) (x : Result (Unit {0})) → leaving b (goes_on x) ≤ leaving b woken
  goes_on-leaving true (ok u) = omega arith
  goes_on-leaving true (err x) = omega arith
  goes_on-leaving false x = omega arith

  rounds-Covered :
      (n : ℕ) (s : Wakeup)
      → s.thread ≡ woken
      → Covered n s
      → Covered n (record s {
        world = (pump_round (runtime_providers read_file sha256) s.world).1;
        thread = goes_on (pump_round (runtime_providers read_file sha256) s.world).0;
      })
  rounds-Covered n s t c = record {
    enough = elim (Bool-cases (ltb 0 (total s.world))) [
      | inl some_left ↦
          omega (arith, facts, pump_round-shrinks read_file sha256 s.world (ltb→lt 0 _ some_left))
      | inr none_left ↦
          omega
            (arith, facts, ltb_false→le 0 _ none_left, pump_round-total read_file sha256 s.world)
    ];
    left = omega (arith, facts);
    at_end = c.at_end;
  }
    where
      x : Result (Unit {0})
      x = (pump_round (runtime_providers read_file sha256) s.world).0

      facts :
          (total s.world + leaving s.stopping woken
            ≤ n + s.permits + s.putting + 1 + flag s.releasing)
          × (leaving s.stopping woken ≤ s.permits + flag s.releasing)
          × (holding (goes_on x) ≡ 0)
          × (leaving s.stopping (goes_on x) ≤ leaving s.stopping woken)
      facts = (
        omega (arith, c.enough, ap holding t, ap (leaving s.stopping) t),
        omega (arith, c.left, ap (leaving s.stopping) t),
        goes_on-holding x,
        goes_on-leaving s.stopping x,
      )

  Step-Covered : (n : ℕ) {s s' : Wakeup} → Step read_file sha256 s s' → Covered n s → Covered n s'
  Step-Covered m (Step.puts s k r) c = record {
    enough = omega (arith, c.enough, sum-put-kinds s.world.queues k r);
    left = c.left;
    at_end = c.at_end;
  }
  Step-Covered m (Step.puts_file s f) c = record {
    enough = omega (arith, c.enough, length-append s.world.send_files (f ∷ []));
    left = c.left;
    at_end = c.at_end;
  }
  Step-Covered m (Step.wakes s n e) c = record {
    enough = omega (arith, c.enough, e);
    left = omega (arith, c.left);
    at_end = c.at_end;
  }
  Step-Covered m (Step.becomes_ready s e g) c = record {
    enough = omega (arith, c.enough);
    left = omega (arith, c.left);
    at_end = c.at_end;
  }
  Step-Covered m (Step.acquires s n t e g) c = record {
    enough = rw g (omega (arith, c.enough, e, ap holding t));
    left = rw g (omega arith);
    at_end = c.at_end;
  }
  Step-Covered m (Step.rounds s t e) c = rounds-Covered m s t c
  Step-Covered m (Step.stops s g) c = record {
    enough = omega (
      arith,
      c.enough,
      ap (λ b. leaving b s.thread) g,
      leaving-small true s.thread,
      ap flag g,
      c.at_end,
    );
    left = omega (arith, leaving-small true s.thread);
    at_end = omega arith;
  }
  Step-Covered m (Step.releases s e) c = record {
    enough = omega (arith, c.enough, ap flag e);
    left = omega (arith, c.left, ap flag e);
    at_end = omega arith;
  }
  Step-Covered m (Step.leaves s n t e g) c = record {
    enough = rw g (omega (arith, c.enough, e, ap holding t, stays s waiting g t));
    left = rw g (omega arith);
    at_end = c.at_end;
  }
  Step-Covered m (Step.gives_up s t e g) c = record {
    enough = rw g (omega (arith, c.enough, ap holding t, stays s woken g t));
    left = rw g (omega arith);
    at_end = c.at_end;
  }
  Step-Covered m (Step.opens s fs t g e) c = record {
    enough = omega (arith, c.enough, ap holding t);
    left = omega arith;
    at_end = omega (arith, ap flag e);
  }

  first-Covered : (s : Wakeup) → IsFirst read_file sha256 s → Covered (total s.world) s
  first-Covered s (_, _, _, going, settled, t) = record {
    enough = omega (arith, ap (λ b. leaving b s.thread) going);
    left = omega (arith, ap (λ b. leaving b s.thread) going);
    at_end = omega (arith, ap flag settled);
  }

  Reachable-Covered : {n : ℕ} {s : Wakeup} → Reachable read_file sha256 n s → Covered n s
  Reachable-Covered (Reachable.first s h) = first-Covered s h
  Reachable-Covered (Reachable.next n s s' r step) = Step-Covered n step (Reachable-Covered r)
  Reachable-Covered (Reachable.restarts n s s' r same h) = first-Covered s' h

  -- In every state that a server's threads reach, if the sending thread waits, the session is not
  -- ending, no permit is left and each request has its permit released, then no more requests wait
  -- than waited when that server was made, and so none if none did, whichever writes failed and
  -- whichever sessions of the server ended before. It is assumed that a session's thread has ended
  -- before the next session begins.
  pub Reachable-idle :
      (n : ℕ) (s : Wakeup)
      → Reachable read_file sha256 n s
      → s.thread ≡ waiting
      → s.stopping ≡ false
      → s.permits ≡ 0
      → s.putting ≡ 0
      → total s.world ≤ n
  Reachable-idle n s r t g e f =
      let c = Reachable-Covered r in
      omega (arith, c.enough, c.at_end, e, f, ap holding t, ap flag g)
