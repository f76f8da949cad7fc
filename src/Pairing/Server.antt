-- ===== src/Pairing/Server.antt =====
-- Pairing with a new phone: `_handle_pairing_request` of pairing/pairing_server.py. Protobuf, the
-- signatures, the user's answers and the drawn nonce are parameters; a write may fail at any
-- point, as the list `failures` of the world says. Notices to the user are not modelled.
use linkable.Prelude.{
  ℕ, ◌≡◌, refl, Bool, true, false, not, Option, none, some, List, [], ◌∷◌, ◌++◌, Text, Bytes, codes,
  if◌then◌else◌, ◌==◌, nat_eq, list_eq, nat_eqb,
}
use linkable.Prelude.Exec.{
  Result, ok, err, Exec, ◌>>=◌, ◌>>◌, lift, or_raise, eof_error, os_error, value_error,
  decode_error,
}
use linkable.Session.Auth.{PeerDescriptor, ProtocolVersion}
use linkable.Trust.{Base64, TrustStore, TrustedDeviceRecord, from_public_key, upsert}
use linkable.Pairing.Code.{Hashes, PairingChallengeMaterial, pairing_code, transcript_hash}
pub mod Authority
pub mod Completion

pub record Envelope : Type 0 where
  pub packet_type : ℕ
  pub payload : Bytes

pub record PairingRequest : Type 0 where
  pub initiator : PeerDescriptor
  pub pairing_nonce : Bytes

pub record PairingConfirm : Type 0 where
  pub transcript_hash : Bytes
  pub transcript_signature : Bytes

pub data RejectReason : Type 0 where
  user_declined code_mismatch protocol_mismatch internal_error : RejectReason

pub data Reply : Type 0 where
  reject : RejectReason → Reply
  challenge : PeerDescriptor → (challenge_nonce : Bytes) → (verification_code_length : ℕ) → Reply
  confirm : PeerDescriptor → (transcript_hash transcript_signature : Bytes) → Reply
  complete : PeerDescriptor → (paired_at : ℕ) → Reply

-- What the process has: its identity and settings, the libraries it calls, and what the user and
-- the clock answer during this request. `int` is that of a text that is a number of 32 bits;
-- `verify` fails where the key does not load.
pub record Desktop : Type 0 where
  pub base64 : Base64
  pub hashes : Hashes
  pub lower : Text → Text
  pub parse_request : Bytes → Option PairingRequest
  pub parse_confirm : Bytes → Option PairingConfirm
  pub int : Text → Option ℕ
  pub verify : (key payload signature : Bytes) → Option Bool
  pub device_id : Text
  pub device_name : Text
  pub public_key_bytes : Bytes
  pub sign : Bytes → Bytes
  pub protocol_version : Text
  pub confirm_type : ℕ
  pub allow_new_pairing : Option Bool
  pub confirm_pairing : Bool
  pub token_bytes : Bytes
  pub prompt_code : Text
  pub timestamp_ms : ℕ

-- What comes from the phone, what was sent to it with the sequence numbers, whether each coming
-- write fails, and the trust store.
pub record World : Type 0 where
  pub incoming : List Envelope
  pub sent : List (ℕ × Reply)
  pub failures : List Bool
  pub trust : TrustStore

unfoldable pub receive : Exec World Envelope
receive w = elim (w.incoming) [
  | [] ↦ (err eof_error, w)
  | e ∷ es ↦ (ok e, record { incoming = es; sent = w.sent; failures = w.failures; trust = w.trust })
]

deliver : ℕ → Reply → World → World
deliver n reply w = record {
  incoming = w.incoming;
  sent = w.sent ++ (n, reply) ∷ [];
  failures = w.failures;
  trust = w.trust;
}

unfoldable pub send : ℕ → Reply → Exec World (Unit {0})
unfolding deliver
send n reply w = elim (w.failures) [
  | [] ↦ (ok tt, deliver n reply w)
  | false ∷ fs ↦ (
    ok tt,
    deliver n reply record { incoming = w.incoming; sent = w.sent; failures = fs; trust = w.trust },
  )
  | true ∷ fs ↦ (
    err os_error,
    record { incoming = w.incoming; sent = w.sent; failures = fs; trust = w.trust },
  )
]

upsert_trust : (Text → Text) → TrustedDeviceRecord → Exec World (Unit {0})
upsert_trust lower r w = (
  ok tt,
  record {
    incoming = w.incoming;
    sent = w.sent;
    failures = w.failures;
    trust = upsert lower w.trust r;
  },
)

cons_head : ℕ → List Text → List Text
cons_head c [] = (c ∷ []) ∷ []
cons_head c (p ∷ ps) = (c ∷ p) ∷ ps

-- text.split(".")
unfoldable pub split_dots : Text → List Text
unfolding cons_head
split_dots [] = [] ∷ []
split_dots (c ∷ cs) =
    let rest = split_dots cs in if nat_eqb c b'.' then [] ∷ rest else cons_head c rest

version : Option ℕ → Option ℕ → Option ℕ → Result ProtocolVersion
version (some a) (some b) (some c) = ok record { major = a; minor = b; patch = c }
version _ _ _ = err value_error

-- Three parts, each a number.
unfoldable pub parts : (Text → Option ℕ) → List Text → Result ProtocolVersion
unfolding version
parts int (a ∷ b ∷ c ∷ []) = version (int a) (int b) (int c)
parts int _ = err value_error

-- A desktop without the setting pairs at any time.
abbrev pub is_blocked : Option Bool → Bool
is_blocked none = false
is_blocked (some allowed) = not allowed

module _ (d : Desktop) where
  describe : ProtocolVersion → Exec World PeerDescriptor
  describe v w = (
    ok record {
      fingerprint = d.device_id;
      device_name = d.device_name;
      platform = codes "linux";
      protocol_version = v;
      identity_public_key = d.public_key_bytes;
    },
    w,
  )

  unfoldable pub descriptor_from_identity : Exec World PeerDescriptor
  unfolding split_dots parts describe
  descriptor_from_identity = lift (parts d.int (split_dots d.protocol_version)) >>= describe

  unfoldable pub material : PairingRequest → PairingChallengeMaterial
  material request = record {
    pairing_nonce = request.pairing_nonce;
    challenge_nonce = d.token_bytes;
    initiator_public_key = request.initiator.identity_public_key;
    acceptor_public_key = d.public_key_bytes;
    initiator_device_id = request.initiator.fingerprint;
    acceptor_device_id = d.device_id;
    code_length = 6;
  }

  unfoldable pub record_of : PairingRequest → TrustedDeviceRecord
  record_of request =
      from_public_key d.base64 request.initiator.fingerprint request.initiator.device_name
        request.initiator.identity_public_key d.timestamp_ms

  -- From the signature's check on: the desktop's own confirmation, the trust, the completion.
  conclude : PairingRequest → (transcript_hash : Bytes) → Bool → Exec World (Unit {0})
  unfolding descriptor_from_identity upsert_trust record_of send
  conclude request hash false = send 5 (reject internal_error)
  conclude request hash true = do
    confirmer ← descriptor_from_identity
    send 6 (confirm confirmer hash (d.sign hash))
    upsert_trust d.lower (record_of request)
    trusted_peer ← descriptor_from_identity
    send 7 (complete trusted_peer d.timestamp_ms)

  -- The initiator's confirmation.
  check_confirm : PairingRequest → PairingConfirm → Exec World (Unit {0})
  unfolding conclude material send
  check_confirm request c =
      let hash = transcript_hash d.hashes (material request) in
      if c.transcript_hash == hash
      then lift (
          or_raise value_error
            (d.verify request.initiator.identity_public_key hash c.transcript_signature))
        >>= conclude request hash
      else send 5 (reject internal_error)

  await_confirm : PairingRequest → Exec World (Unit {0})
  unfolding receive check_confirm send
  await_confirm request = do
    envelope ← receive
    (if nat_eqb envelope.packet_type d.confirm_type
        then lift (or_raise decode_error (d.parse_confirm envelope.payload))
          >>= check_confirm request
        else send 4 (reject protocol_mismatch))

  -- The code on the phone's screen, typed in by the user.
  check_code : PairingRequest → Exec World (Unit {0})
  unfolding await_confirm material send
  check_code request =
      if d.prompt_code == pairing_code d.hashes (material request)
      then await_confirm request
      else send 3 (reject code_mismatch)

  ask : PairingRequest → Bool → Exec World (Unit {0})
  unfolding check_code descriptor_from_identity send
  ask request false = send 2 (reject user_declined)
  ask request true = do
    acceptor ← descriptor_from_identity
    send 2 (challenge acceptor d.token_bytes 6)
    check_code request

  unfoldable pub handle_pairing_request : Envelope → Exec World (Unit {0})
  unfolding ask send
  handle_pairing_request envelope = do
    request ← lift (or_raise decode_error (d.parse_request envelope.payload))
    (if is_blocked d.allow_new_pairing
        then send 2 (reject user_declined)
        else ask request d.confirm_pairing)
