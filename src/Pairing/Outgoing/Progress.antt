-- ===== src/Pairing/Outgoing/Progress.antt =====
-- A round of the sending thread leaves fewer requests, if there were any.
use linkable.Prelude.{
  ◌≤◌, ◌<◌, ◌≡◌, refl, sym, ap, ◌∙◌, Option, some, List, [], ◌∷◌, ◌++◌, Text, Bytes, ==_refl, arith,
  length,
}
use linkable.Prelude.Exec.{Result, ok, err, Exec, ◌>>◌, bind_result, bind-Keeps}
use linkable.Pairing.Outgoing.{
  CommandKind, kind_eq, kinds, SendFileRequest, FileSource, Providers, PumpWorld, queue_get,
  set_queue, set_queue-empty, take_from, next_request, take_file, next_send_file_request,
  send_one_file, pump_file, send_request, pump_kind, pump_kinds, pump_calls, pump_browsing,
  pump_camera, pump_round, calls, browsing, camera, runtime_providers,
}
use linkable.Pairing.Outgoing.Fewer.{
  sum, total, Fewer, sum-le, set_queue-Fewer, send_one_file-Fewer, send_request-Fewer,
  pump_kinds-Fewer,
}

set_queue-same :
    (q : CommandKind → List Bytes) (k : CommandKind) (rest : List Bytes)
    → set_queue q k rest k ≡ rest
unfolding set_queue
set_queue-same q k rest = rw (==_refl k) refl

module _ (read_file : Text → Option FileSource) (sha256 : Bytes → Text) where
  abbrev p : Providers
  p = runtime_providers read_file sha256

  refl-Fewer : (w : PumpWorld) → Fewer w w
  refl-Fewer w = (omega arith, λ k. omega arith)

  -- The state after a request of the kind was looked for.
  abbrev taken : CommandKind → List Bytes → PumpWorld → PumpWorld
  taken k qs w = record w { queues = set_queue w.queues k (queue_get qs).1 }

  taken-Fewer : (k : CommandKind) (w : PumpWorld) → Fewer w (taken k (w.queues k) w)
  taken-Fewer k w = (omega arith, λ j. set_queue-Fewer w.queues k j)

  -- The rest of a round leaves fewer requests than there were before one was taken.
  taken-shrinks :
      (k : CommandKind) (ks : List CommandKind) (r : Bytes) (rest : List Bytes) (w v : PumpWorld)
      → w.queues k ≡ r ∷ rest
      → Fewer (taken k (r ∷ rest) w) v
      → sum (k ∷ ks) v.queues < sum (k ∷ ks) w.queues
  unfolding queue_get
  taken-shrinks k ks r rest w v q h = omega (
    arith,
    ap length q,
    h.1 k,
    ap length (set_queue-same w.queues k rest),
    sum-le ks v.queues (set_queue w.queues k rest) h.1,
    sum-le ks (set_queue w.queues k rest) w.queues
        (λ j. rw (sym (ap (λ l. (queue_get l).1) q)) (set_queue-Fewer w.queues k j)),
  )

  -- An empty queue is left as it is.
  still-Fewer : (k : CommandKind) (w : PumpWorld) → w.queues k ≡ [] → Fewer (taken k [] w) w
  unfolding queue_get
  still-Fewer k w q = (omega arith, λ j. omega (arith, ap length (set_queue-empty w.queues k j q)))

  -- The part of a round about one kind, and what the next kinds do.
  one-shrinks :
      (k : CommandKind) (ks : List CommandKind) (qs : List Bytes) (w : PumpWorld)
      → ((v : PumpWorld)
          → 0 < sum ks v.queues
          → sum ks (pump_kinds p ks v).1.queues < sum ks v.queues)
      → w.queues k ≡ qs
      → 0 < sum (k ∷ ks) w.queues
      → let x = send_request p k (queue_get qs).0 (taken k qs w) in
        sum (k ∷ ks) (bind_result (λ _. pump_kinds p ks) x).1.queues < sum (k ∷ ks) w.queues
  unfolding queue_get send_request
  one-shrinks k ks [] w ih q h = omega (
    arith,
    ap length q,
    (pump_kinds-Fewer w p ks v (taken-Fewer-empty)).1 k,
    ih v (omega (arith, ap length q, sum-le ks w.queues v.queues (still-Fewer k w q).1)),
    sum-le ks v.queues w.queues taken-Fewer-empty.1,
  )
    where
      v : PumpWorld
      v = taken k [] w

      taken-Fewer-empty : Fewer w v
      taken-Fewer-empty = (
        omega arith,
        λ j. unfold queue_get in omega (arith, ap length (set_queue-empty w.queues k j q)),
      )
  one-shrinks k ks (r ∷ rest) w ih q h =
      taken-shrinks k ks r rest w
        (bind_result (λ _. pump_kinds p ks) (send_request p k (some r) v)).1 q
        (bind-Keeps (Fewer v) (send_request p k (some r)) (λ _. pump_kinds p ks)
          (send_request-Fewer v p k (some r)) (λ _. pump_kinds-Fewer v p ks) v (refl-Fewer v))
    where
      v : PumpWorld
      v = taken k (r ∷ rest) w

  pump_kinds-shrinks :
      (ks : List CommandKind) (w : PumpWorld)
      → 0 < sum ks w.queues
      → sum ks (pump_kinds p ks w).1.queues < sum ks w.queues
  unfolding pump_kinds pump_kind next_request take_from runtime_providers
  pump_kinds-shrinks [] w h = absurd (omega arith)
  pump_kinds-shrinks (k ∷ ks) w h = one-shrinks k ks (w.queues k) w (pump_kinds-shrinks ks) refl h

  -- The three parts about commands are one pass over all kinds.
  bind_result_assoc :
      (m n : Exec PumpWorld (Unit {0})) (k : Exec PumpWorld (Unit {0}))
      → ((v : PumpWorld) → k v ≡ (m >> n) v)
      → (x : Result (Unit {0}) × PumpWorld)
      → bind_result (λ _. k) x ≡ bind_result (λ _. n) (bind_result (λ _. m) x)
  bind_result_assoc m n k h (ok u, v) = h v
  bind_result_assoc m n k h (err e, v) = refl

  pump_kinds-append :
      (xs ys : List CommandKind) (w : PumpWorld)
      → pump_kinds p (xs ++ ys) w ≡ (pump_kinds p xs >> pump_kinds p ys) w
  unfolding pump_kinds
  pump_kinds-append [] ys w = refl
  pump_kinds-append (k ∷ xs) ys w =
      bind_result_assoc (pump_kinds p xs) (pump_kinds p ys) (pump_kinds p (xs ++ ys))
        (pump_kinds-append xs ys) (pump_kind p k w)

  commands : Exec PumpWorld (Unit {0})
  commands = do pump_calls p; pump_browsing p; pump_camera p

  commands-kinds : (w : PumpWorld) → pump_kinds p kinds w ≡ commands w
  unfolding commands pump_calls pump_browsing pump_camera
  commands-kinds w = pump_kinds-append calls (browsing ++ camera) w ∙ go (pump_kinds p calls w)
    where
      go :
          (x : Result (Unit {0}) × PumpWorld)
          → bind_result (λ _. pump_kinds p (browsing ++ camera)) x
            ≡ bind_result (λ _. pump_browsing p >> pump_camera p) x
      go (ok u, v) =
          unfold pump_browsing in unfold pump_camera in pump_kinds-append browsing camera v
      go (err e, v) = refl

  pump_round-kinds : (w : PumpWorld) → pump_round p w ≡ (pump_file p >> pump_kinds p kinds) w
  unfolding pump_round commands
  pump_round-kinds w = go (pump_file p w)
    where
      go :
          (x : Result (Unit {0}) × PumpWorld)
          → bind_result (λ _. commands) x ≡ bind_result (λ _. pump_kinds p kinds) x
      go (ok u, v) = sym (commands-kinds v)
      go (err e, v) = refl

  -- A round leaves fewer requests.
  file-shrinks :
      (fs : List SendFileRequest) (w : PumpWorld)
      → w.send_files ≡ fs
      → 0 < total w
      → let x = send_one_file p (queue_get fs).0 (record w { send_files = (queue_get fs).1 }) in
        total (bind_result (λ _. pump_kinds p kinds) x).1 < total w
  unfolding queue_get send_one_file
  file-shrinks [] w e h = omega (
    arith,
    ap length e,
    (pump_kinds-Fewer v p kinds v (refl-Fewer v)).0,
    pump_kinds-shrinks kinds v (omega (arith, ap length e)),
  )
    where
      v : PumpWorld
      v = record w { send_files = [] }
  file-shrinks (f ∷ fs) w e h = omega (arith, ap length e, final.0, sum-le kinds _ w.queues final.1)
    where
      v : PumpWorld
      v = record w { send_files = fs }

      final : Fewer v (bind_result (λ _. pump_kinds p kinds) (send_one_file p (some f) v)).1
      final =
          bind-Keeps (Fewer v) (send_one_file p (some f)) (λ _. pump_kinds p kinds)
            (send_one_file-Fewer v p (some f)) (λ _. pump_kinds-Fewer v p kinds) v (refl-Fewer v)

  -- If a file or a request waits, then a round with the providers of the runtime leaves fewer of
  -- them, whether its writes fail or not.
  pub pump_round-shrinks : (w : PumpWorld) → 0 < total w → total (pump_round p w).1 < total w
  unfolding pump_file next_send_file_request take_file runtime_providers
  pump_round-shrinks w h = rw (pump_round-kinds w) (file-shrinks w.send_files w refl h)

  idle :
      (fs : List SendFileRequest) (w : PumpWorld)
      → w.send_files ≡ fs
      → let x = send_one_file p (queue_get fs).0 (record w { send_files = (queue_get fs).1 }) in
        total (bind_result (λ _. pump_kinds p kinds) x).1 ≤ total w
  unfolding queue_get send_one_file
  idle [] w e =
      let v : PumpWorld = record w { send_files = [] } in
      let final = pump_kinds-Fewer v p kinds v (refl-Fewer v) in
      omega (arith, ap length e, final.0, sum-le kinds _ w.queues final.1)
  idle (f ∷ fs) w e = omega (arith, file-shrinks (f ∷ fs) w e (omega (arith, ap length e)))

  pub pump_round-total : (w : PumpWorld) → total (pump_round p w).1 ≤ total w
  unfolding pump_file next_send_file_request take_file runtime_providers
  pump_round-total w = rw (pump_round-kinds w) (idle w.send_files w refl)
