-- ===== src/Pairing/Transport/Handlers/Effects.antt =====
-- The effects that a packet from the phone may have.
use linkable.Prelude.{ℕ, ◌+◌, ◌≡◌, refl, ◌∙◌, Bool, true, false, Option, List, [], ◌∷◌, ◌++◌}
use linkable.Prelude.Exec.{Exception, Result, ok, err, Exec, ◌>>=◌, ◌>>◌, pure, bind_result}
use linkable.Pairing.Transport.{
  PacketType, Reply, Record, ServeWorld, next_sequence, write_envelope, write_next, reply,
  record_call, parsed, ping, device_info_request, capabilities_request, heartbeat,
  notification_posted, file_offer, file_chunk, file_complete, desktop_input_request, event,
  other_type, pong, device_info_response, capabilities_response, notification_reply_request,
  file_result, desktop_input_result, error_payload,
}
use linkable.Pairing.Transport.Handlers.{record_if}

-- Which packets are answered whenever they are handled without an exception.
abbrev pub is_answered : PacketType → Bool
is_answered heartbeat = false
is_answered notification_posted = false
is_answered file_chunk = false
is_answered (event t) = false
is_answered _ = true

-- Which reply fits which packet with which sequence number.
abbrev pub Fits : PacketType → ℕ → Reply → Type 0
Fits ping n (pong token sent_at) = Unit
Fits device_info_request n (device_info_response p interfaces) = Unit
Fits capabilities_request n (capabilities_response names) = Unit
Fits notification_posted n (notification_reply_request a b c) = Unit
Fits file_offer n (file_result r) = Unit
Fits file_chunk n (file_result r) = Unit
Fits file_complete n (file_result r) = Unit
Fits desktop_input_request n (desktop_input_result r) = Unit
Fits (other_type k) n (error_payload t m) = (t ≡ other_type k) × (m ≡ n)
Fits _ n r = ⊥

-- What handling a packet may do to the written envelopes and to the next number.
pub data Effect (t : PacketType) (n : ℕ) (res : Result (Unit {0})) (w w' : ServeWorld)
    : Type 0 where
  silent :
      w'.sent ≡ w.sent
      → w'.sequence_number ≡ w.sequence_number
      → (res ≡ ok tt → is_answered t ≡ false)
      → Effect t n res w w'
  answered :
      (r : Reply)
      → Fits t n r
      → w'.sent ≡ w.sent ++ (w.sequence_number, r) ∷ []
      → w'.sequence_number ≡ w.sequence_number + 1
      → Effect t n res w w'
  lost :
      (x : Exception)
      → res ≡ err x
      → w'.sent ≡ w.sent
      → w'.sequence_number ≡ w.sequence_number + 1
      → Effect t n res w w'

abbrev pub Quiet : {A : Type 0} → Exec ServeWorld A → Type 0
Quiet m = (w : ServeWorld) → ((m w).1.sent ≡ w.sent) × ((m w).1.sequence_number ≡ w.sequence_number)

module _ (t : PacketType) (n : ℕ) where
  abbrev pub HasEffect : Exec ServeWorld (Unit {0}) → Type 0
  HasEffect m = (w : ServeWorld) → Effect t n (m w).0 w (m w).1

  -- From a state with the same envelopes and number.
  pub moved :
      (res : Result (Unit {0})) (w v w' : ServeWorld)
      → v.sent ≡ w.sent
      → v.sequence_number ≡ w.sequence_number
      → Effect t n res v w'
      → Effect t n res w w'
  moved res w v w' e f (silent h k l) = silent (h ∙ e) (k ∙ f) l
  moved res w v w' e f (answered r fits h k) = answered r fits (cc) (cc)
  moved res w v w' e f (lost x h k l) = lost x h (k ∙ e) (cc)

  pub bind_result-Effect :
      {A : Type 0} (f : A → Exec ServeWorld (Unit {0})) (w : ServeWorld) (x : Result A × ServeWorld)
      → x.1.sent ≡ w.sent
      → x.1.sequence_number ≡ w.sequence_number
      → ((a : A) → HasEffect (f a))
      → Effect t n (bind_result f x).0 w (bind_result f x).1
  bind_result-Effect f w (ok a, v) h k each = moved (f a v).0 w v (f a v).1 h k (each a v)
  bind_result-Effect f w (err e, v) h k each = silent h k λ no. absurd (cc)

  pub bind-Effect :
      {A : Type 0} (m : Exec ServeWorld A) (f : A → Exec ServeWorld (Unit {0}))
      → Quiet m
      → ((a : A) → HasEffect (f a))
      → HasEffect (m >>= f)
  bind-Effect m f quiet each w = bind_result-Effect f w (m w) (quiet w).0 (quiet w).1 each

  pub pure-Effect : is_answered t ≡ false → HasEffect (pure tt)
  pure-Effect h w = silent refl refl λ _. h

  write_next-Effect :
      (r : Reply) (fs : List Bool) (w v : ServeWorld)
      → Fits t n r
      → v.sent ≡ w.sent
      → v.sequence_number ≡ w.sequence_number + 1
      → Effect t n (write_next w.sequence_number r fs v).0 w (write_next w.sequence_number r fs v).1
  unfolding write_next
  write_next-Effect r [] w v fits h k = answered r fits (cc) k
  write_next-Effect r (false ∷ fs) w v fits h k = answered r fits (cc) k
  write_next-Effect r (true ∷ fs) w v fits h k = lost _ refl h k

  pub reply-Effect : (r : Reply) → Fits t n r → HasEffect (reply r)
  unfolding reply next_sequence write_envelope
  reply-Effect r fits w = write_next-Effect r w.failures w _ fits refl refl

  -- A write, and a record after it.
  pub recorded-Effect : (r : Reply) (c : Record) → Fits t n r → HasEffect (reply r >> record_call c)
  unfolding record_call
  recorded-Effect r c fits w = go (reply r w) (reply-Effect r fits w)
    where
      go :
          (x : Result (Unit {0}) × ServeWorld)
          → Effect t n x.0 w x.1
          → Effect t n
              (bind_result (λ _. record_call c) x).0
              w
              (bind_result (λ _. record_call c) x).1
      go (ok u, v) (silent h k l) = silent h k λ _. l refl
      go (ok u, v) (answered s g h k) = answered s g h k
      go (ok u, v) (lost x h k l) = absurd (cc)
      go (err e, v) h = h

pub parsed-Quiet : {A : Type 0} (o : Option A) → Quiet (parsed o)
parsed-Quiet o w = (refl, refl)

pub record_call-Quiet : (r : Record) → Quiet (record_call r)
unfolding record_call
record_call-Quiet r w = (refl, refl)

pub record_if-Quiet : (b : Bool) (r : Record) → Quiet (record_if b r)
unfolding record_if
record_if-Quiet true r w = record_call-Quiet r w
record_if-Quiet false r w = (refl, refl)
