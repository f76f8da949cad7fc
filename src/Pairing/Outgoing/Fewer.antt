-- ===== src/Pairing/Outgoing/Fewer.antt =====
-- What the sending thread does lengthens no queue.
use linkable.Prelude.{
  ℕ, ◌+◌, ◌≤◌, ◌≡◌, sym, ap, Bool, true, false, Option, none, some, List, [], ◌∷◌, Bytes, ◌==◌,
  ==_iff, arith, Bool-cases, inl, inr, length,
}
use linkable.Prelude.Exec.{lift, or_raise, file_not_found_error, Keeps, bind-Keeps}
use linkable.Transfer.Sender.{Message}
use linkable.Pairing.Outgoing.{
  CommandKind, kind_eq, kinds, SendFileRequest, Packet, command, file, Providers, PumpWorld,
  queue_get, set_queue, write_next, write_packet, write_messages, take_from, next_request,
  mark_sent, messages_of, send_one_file, send_request, pump_kind, pump_kinds,
}

-- How many requests wait in the queues of a list of kinds, and in all.
abbrev pub sum : List CommandKind → (CommandKind → List Bytes) → ℕ
sum [] q = 0
sum (k ∷ ks) q = length (q k) + sum ks q

abbrev pub total : PumpWorld → ℕ
total w = length w.send_files + sum kinds w.queues

-- No queue is longer.
abbrev pub Fewer : PumpWorld → PumpWorld → Type 0
Fewer w v =
    (length v.send_files ≤ length w.send_files)
    × ((k : CommandKind) → length (v.queues k) ≤ length (w.queues k))

pub sum-le :
    (ks : List CommandKind) (q r : CommandKind → List Bytes)
    → ((k : CommandKind) → length (q k) ≤ length (r k))
    → sum ks q ≤ sum ks r
sum-le [] q r h = omega arith
sum-le (k ∷ ks) q r h = omega (arith, h k, sum-le ks q r h)

pub set_queue-Fewer :
    (q : CommandKind → List Bytes) (k j : CommandKind)
    → length (set_queue q k (queue_get (q k)).1 j) ≤ length (q j)
unfolding set_queue
set_queue-Fewer q k j = elim (Bool-cases (j == k)) [
  | inl same ↦ rw same (shorter (q k) (q j) (ap q (sym ((==_iff j k).0 same))))
  | inr other ↦ rw other (omega arith)
]
  where
    shorter : (xs ys : List Bytes) → xs ≡ ys → length (queue_get xs).1 ≤ length ys
    shorter [] ys e = unfold queue_get in omega arith
    shorter (x ∷ xs) ys e = unfold queue_get in rw (sym e) (omega arith)

module _ (w : PumpWorld) where
  write_next-Fewer : (n : ℕ) (p : Packet) (fs : List Bool) → Keeps (Fewer w) (write_next n p fs)
  unfolding write_next
  write_next-Fewer n p [] v h = h
  write_next-Fewer n p (false ∷ fs) v h = h
  write_next-Fewer n p (true ∷ fs) v h = h

  write_packet-Fewer : (p : Packet) → Keeps (Fewer w) (write_packet p)
  unfolding write_packet
  write_packet-Fewer p v h = write_next-Fewer v.sequence_number p v.failures _ h

  write_messages-Fewer : (ms : List Message) → Keeps (Fewer w) (write_messages ms)
  unfolding write_messages
  write_messages-Fewer [] v h = h
  write_messages-Fewer (m ∷ ms) v h =
      bind-Keeps (Fewer w) (write_packet (file m)) (λ _. write_messages ms)
        (write_packet-Fewer (file m)) (λ _. write_messages-Fewer ms) v h

  module _ (p : Providers) where
    pub send_one_file-Fewer : (o : Option SendFileRequest) → Keeps (Fewer w) (send_one_file p o)
    unfolding send_one_file mark_sent
    send_one_file-Fewer none v h = h
    send_one_file-Fewer (some r) v h =
        bind-Keeps (Fewer w) (lift (or_raise file_not_found_error (p.read_file r.path))) _
          (λ u k. k)
          (λ s.
            bind-Keeps (Fewer w) (write_messages (messages_of p r s)) (λ _. mark_sent p)
              (write_messages-Fewer (messages_of p r s)) λ _ u k. k)
          v h

    pub send_request-Fewer :
        (k : CommandKind) (o : Option Bytes) → Keeps (Fewer w) (send_request p k o)
    unfolding send_request
    send_request-Fewer k none v h = h
    send_request-Fewer k (some r) v h = write_packet-Fewer (command k r) v h

    take_from-Fewer : (b : Bool) (k : CommandKind) → Keeps (Fewer w) (take_from p b k)
    unfolding take_from
    take_from-Fewer false k v h = h
    take_from-Fewer true k v h = (h.0, λ j. omega (arith, h.1 j, set_queue-Fewer v.queues k j))

    pub pump_kinds-Fewer : (ks : List CommandKind) → Keeps (Fewer w) (pump_kinds p ks)
    unfolding pump_kinds pump_kind next_request
    pump_kinds-Fewer [] v h = h
    pump_kinds-Fewer (k ∷ ks) v h =
        bind-Keeps (Fewer w) (pump_kind p k) (λ _. pump_kinds p ks)
          (bind-Keeps (Fewer w) (take_from p (p.provided k) k) (send_request p k)
            (take_from-Fewer (p.provided k) k) (send_request-Fewer k))
          (λ _. pump_kinds-Fewer ks) v h
