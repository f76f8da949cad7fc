-- ===== src/Pairing/Outgoing/Order.antt =====
-- The order in which requests to the phone are sent.
use linkable.Prelude.{
  ℕ, ◌≡◌, refl, sym, ap, ◌∙◌, Bool, true, false, Option, none, some, List, [], ◌∷◌, ◌++◌, Bytes,
  if◌then◌else◌, ◌==◌, ==_iff, append_assoc, append-nil, Bool-cases, inl, inr,
}
use linkable.Prelude.Exec.{
  Result, ok, err, Exec, ◌>>=◌, ◌>>◌, lift, pure, or_raise, bind_result, file_not_found_error,
}
use linkable.Transfer.Sender.{Message}
use linkable.Pairing.Outgoing.{
  CommandKind, kind_eq, SendFileRequest, Packet, command, file, Providers, PumpWorld, queue_get,
  set_queue, set_queue-empty, write_next, write_packet, write_messages, take_from, next_request,
  take_file, next_send_file_request, mark_sent, messages_of, send_one_file, pump_file, send_request,
  pump_kind, pump_kinds, pump_calls, pump_browsing, pump_camera, pump_round, calls, browsing,
  camera,
}

-- The sent requests of a kind, in order.
abbrev pub of_kind : CommandKind → List (ℕ × Packet) → List Bytes
of_kind k [] = []
of_kind k ((n, command j r) ∷ sent) = let rest = of_kind k sent in if k == j then r ∷ rest else rest
of_kind k ((n, file m) ∷ sent) = of_kind k sent

-- The request that was taken but not sent, if there is one.
abbrev pub lost_of : CommandKind → Option (CommandKind × Bytes) → List Bytes
lost_of k none = []
lost_of k (some (j, r)) = if k == j then r ∷ [] else []

-- What was sent of each kind, then the request whose write failed, then what is queued, make up
-- what was sent and queued before.
abbrev pub Ordered : Result (Unit {0}) → PumpWorld → PumpWorld → Type 0
Ordered res w w' =
    (lost : Option (CommandKind × Bytes)) × (res ≡ ok tt → lost ≡ none)
    × ((k : CommandKind)
        → of_kind k w'.sent ++ (lost_of k lost ++ w'.queues k) ≡ of_kind k w.sent ++ w.queues k)

of_kind-append :
    (k : CommandKind) (xs ys : List (ℕ × Packet))
    → of_kind k (xs ++ ys) ≡ of_kind k xs ++ of_kind k ys
of_kind-append k [] ys = refl
of_kind-append k ((n, command j r) ∷ xs) ys = elim (Bool-cases (k == j)) [
  | inl same ↦ rw (same, of_kind-append k xs ys) refl
  | inr other ↦ rw other (of_kind-append k xs ys)
]
of_kind-append k ((n, file m) ∷ xs) ys = of_kind-append k xs ys

-- An action under which every kind keeps its requests, at most the one that was taken excepted.
abbrev pub KeepsOrder : Exec PumpWorld (Unit {0}) → Type 0
KeepsOrder m = (w : PumpWorld) → Ordered (m w).0 w (m w).1

pure-KeepsOrder : KeepsOrder (pure tt)
pure-KeepsOrder w = (none, (λ _. refl), λ k. refl)

then-Ordered :
    (n : Exec PumpWorld (Unit {0})) (w : PumpWorld) (x : Result (Unit {0}) × PumpWorld)
    → KeepsOrder n
    → Ordered x.0 w x.1
    → Ordered (bind_result (λ _. n) x).0 w (bind_result (λ _. n) x).1
then-Ordered n w (ok u, v) keeps (lost, h, e) =
    let (lost', h', e') = keeps v in
    (
      lost',
      h',
      λ k. e' k ∙ ap (λ l. of_kind k v.sent ++ (lost_of k l ++ v.queues k)) (sym (h refl)) ∙ e k,
    )
then-Ordered n w (err x, v) keeps h = h

then-KeepsOrder :
    (m n : Exec PumpWorld (Unit {0})) → KeepsOrder m → KeepsOrder n → KeepsOrder (m >> n)
then-KeepsOrder m n hm hn w = then-Ordered n w (m w) hn (hm w)

-- Files have nothing to do with the queues of commands.
abbrev Apart : {A : Type 0} → Exec PumpWorld A → Type 0
Apart m =
    (w : PumpWorld)
    → ((k : CommandKind) → of_kind k (m w).1.sent ≡ of_kind k w.sent) × ((m w).1.queues ≡ w.queues)

bind_result-Apart :
    {A B : Type 0} (f : A → Exec PumpWorld B) (w : PumpWorld) (x : Result A × PumpWorld)
    → ((k : CommandKind) → of_kind k x.1.sent ≡ of_kind k w.sent)
    → x.1.queues ≡ w.queues
    → ((a : A) → Apart (f a))
    → ((k : CommandKind) → of_kind k (bind_result f x).1.sent ≡ of_kind k w.sent)
      × ((bind_result f x).1.queues ≡ w.queues)
bind_result-Apart f w (ok a, v) h q each = ((λ k. (each a v).0 k ∙ h k), (each a v).1 ∙ q)
bind_result-Apart f w (err x, v) h q each = (h, q)

bind-Apart :
    {A B : Type 0} (m : Exec PumpWorld A) (f : A → Exec PumpWorld B)
    → Apart m
    → ((a : A) → Apart (f a))
    → Apart (m >>= f)
bind-Apart m f hm hf w = bind_result-Apart f w (m w) (hm w).0 (hm w).1 hf

write_next-Apart : (n : ℕ) (m : Message) (fs : List Bool) → Apart (write_next n (file m) fs)
unfolding write_next
write_next-Apart n m [] w = ((λ k. of_kind-append k w.sent ((n, file m) ∷ []) ∙ append-nil _), refl)
write_next-Apart n m (false ∷ fs) w =
    ((λ k. of_kind-append k w.sent ((n, file m) ∷ []) ∙ append-nil _), refl)
write_next-Apart n m (true ∷ fs) w = ((λ k. refl), refl)

write_messages-Apart : (ms : List Message) → Apart (write_messages ms)
unfolding write_messages write_packet
write_messages-Apart [] w = ((λ k. refl), refl)
write_messages-Apart (m ∷ ms) w =
    bind-Apart (write_packet (file m)) (λ _. write_messages ms)
      (λ v. write_next-Apart v.sequence_number m v.failures _) (λ _. write_messages-Apart ms) w

module _ (p : Providers) where
  take_file-Apart : (b : Bool) → Apart (take_file p b)
  unfolding take_file
  take_file-Apart true w = ((λ k. refl), refl)
  take_file-Apart false w = ((λ k. refl), refl)

  send_one_file-Apart : (o : Option SendFileRequest) → Apart (send_one_file p o)
  unfolding send_one_file mark_sent
  send_one_file-Apart none w = ((λ k. refl), refl)
  send_one_file-Apart (some r) w =
      bind-Apart (lift (or_raise file_not_found_error (p.read_file r.path))) _
        (λ v. ((λ k. refl), refl))
        (λ s.
          bind-Apart (write_messages (messages_of p r s)) (λ _. mark_sent p)
            (write_messages-Apart (messages_of p r s)) λ _ v. ((λ k. refl), refl))
        w

  pump_file-Apart : Apart (pump_file p)
  unfolding pump_file next_send_file_request
  pump_file-Apart =
      bind-Apart (take_file p p.file_provided) (send_one_file p) (take_file-Apart p.file_provided)
        send_one_file-Apart

  pump_file-KeepsOrder : KeepsOrder (pump_file p)
  pump_file-KeepsOrder w =
      let (h, q) = pump_file-Apart w in (none, (λ _. refl), λ k. rw (h k, q) refl)

  -- One request of the kind was taken.
  took :
      (k : CommandKind) (r : Bytes) (rest : List Bytes) (w : PumpWorld)
      → w.queues k ≡ r ∷ rest
      → (j : CommandKind) → lost_of j (some (k, r)) ++ set_queue w.queues k rest j ≡ w.queues j
  unfolding set_queue
  took k r rest w q j = elim (Bool-cases (j == k)) [
    | inl same ↦ rw same (sym (ap w.queues ((==_iff j k).0 same) ∙ q))
    | inr other ↦ rw other refl
  ]

  sent_one :
      (k : CommandKind) (n : ℕ) (r : Bytes) (rest : List Bytes) (w v : PumpWorld)
      → w.queues k ≡ r ∷ rest
      → v.sent ≡ w.sent
      → v.queues ≡ set_queue w.queues k rest
      → (j : CommandKind)
      → of_kind j (v.sent ++ (n, command k r) ∷ []) ++ v.queues j ≡ of_kind j w.sent ++ w.queues j
  sent_one k n r rest w v q s e j =
      rw (s, e)
        (ap (λ l. l ++ set_queue w.queues k rest j)
            (of_kind-append j w.sent ((n, command k r) ∷ []))
          ∙ append_assoc (of_kind j w.sent) (lost_of j (some (k, r))) (set_queue w.queues k rest j)
          ∙ ap (◌++◌ (of_kind j w.sent)) (took k r rest w q j))

  send_request-Ordered :
      (k : CommandKind) (n : ℕ) (r : Bytes) (rest : List Bytes) (fs : List Bool) (w v : PumpWorld)
      → w.queues k ≡ r ∷ rest
      → v.sent ≡ w.sent
      → v.queues ≡ set_queue w.queues k rest
      → Ordered (write_next n (command k r) fs v).0 w (write_next n (command k r) fs v).1
  unfolding write_next
  send_request-Ordered k n r rest [] w v q s e = (none, (λ _. refl), sent_one k n r rest w v q s e)
  send_request-Ordered k n r rest (false ∷ fs) w v q s e =
      (none, (λ _. refl), sent_one k n r rest w v q s e)
  send_request-Ordered k n r rest (true ∷ fs) w v q s e = (
    some (k, r),
    (λ no. absurd (cc)),
    λ j. rw (s, e) (ap (◌++◌ (of_kind j w.sent)) (took k r rest w q j)),
  )

  -- A request that was taken from the queue, or none, and what is done with it.
  taken-Ordered :
      (k : CommandKind) (w : PumpWorld) (qs : List Bytes)
      → w.queues k ≡ qs
      → let (r, rest) = queue_get qs in
        let x = send_request p k r (record w { queues = set_queue w.queues k rest }) in
        Ordered x.0 w x.1
  unfolding queue_get send_request write_packet
  taken-Ordered k w [] q =
      (none, (λ _. refl), λ j. ap (◌++◌ (of_kind j w.sent)) (set_queue-empty w.queues k j q))
  taken-Ordered k w (r ∷ rest) q =
      send_request-Ordered k w.sequence_number r rest w.failures w _ q refl refl

  pump_one-KeepsOrder :
      (b : Bool) (k : CommandKind) → KeepsOrder (take_from p b k >>= send_request p k)
  unfolding take_from send_request
  pump_one-KeepsOrder true k w = taken-Ordered k w (w.queues k) refl
  pump_one-KeepsOrder false k w = pure-KeepsOrder w

  pump_kinds-KeepsOrder : (ks : List CommandKind) → KeepsOrder (pump_kinds p ks)
  unfolding pump_kinds pump_kind next_request
  pump_kinds-KeepsOrder [] = pure-KeepsOrder
  pump_kinds-KeepsOrder (k ∷ ks) =
      then-KeepsOrder (pump_kind p k) (pump_kinds p ks) (pump_one-KeepsOrder (p.provided k) k)
        (pump_kinds-KeepsOrder ks)

  -- A round sends the requests of each kind in the order in which they were queued, none twice and
  -- none left out: what was sent of a kind, followed by what is still queued, is what it was before
  -- the round. If the round ends with an exception, one request at most, of one kind, was taken and
  -- not sent.
  pub pump_round-Ordered : (w : PumpWorld) → Ordered (pump_round p w).0 w (pump_round p w).1
  unfolding pump_round pump_calls pump_browsing pump_camera
  pump_round-Ordered = then-KeepsOrder (pump_file p) _ pump_file-KeepsOrder (
      then-KeepsOrder (pump_calls p) _ (pump_kinds-KeepsOrder calls) (
        then-KeepsOrder (pump_browsing p) (pump_camera p) (pump_kinds-KeepsOrder browsing)
          (pump_kinds-KeepsOrder camera)))
