-- ===== src/Pairing/Session.antt =====
-- Opening a session with a trusted phone: `_handle_session_init` of pairing/pairing_server.py.
-- Protobuf, the signatures, the drawn values and the clock are parameters, and so is how the loop
-- over the encrypted transport ends; a write may fail at any point, as `failures` says. The prompts
-- are called when a session is opened and when it is closed, and may raise there; their other
-- notices are not modelled, nor is the sequence number of a reply, which is 2.
use linkable.Prelude.{
  ℕ, Bool, true, false, Option, none, some, List, [], ◌∷◌, ◌++◌, Text, Bytes, codes, if◌then◌else◌,
  ◌==◌, nat_eq, list_eq,
}
use linkable.Prelude.Int.{ℤ}
use linkable.Prelude.Exec.{
  Exception, Result, ok, err, Exec, ◌>>=◌, ◌>>◌, lift, or_raise, os_error, value_error,
  decode_error,
}
use linkable.Session.Auth.{
  PeerDescriptor, ProtocolVersion, session_init_label, session_ack_label,
  build_session_signature_payload, is_timestamp_fresh,
}
use linkable.Trust.{Base64, TrustStore, TrustedDeviceRecord, get, public_key_bytes}
use linkable.Crypto.Keys.{KeyExchange, DirectionalSessionKeys, derive_directional_keys}
use linkable.Pairing.Registry.{ActiveSessionRegistry, acquire, release}
use linkable.Pairing.Server.{is_blocked, parts, split_dots}
pub mod Admission
pub mod Release

pub record SessionInit : Type 0 where
  pub initiator : PeerDescriptor
  pub ephemeral_public_key : Bytes
  pub issued_at_ms : ℤ
  pub identity_signature : Bytes

pub data CloseReason : Type 0 where
  revoked normal timeout protocol_error : CloseReason

pub data SessionReply : Type 0 where
  close : CloseReason → SessionReply
  ack :
      PeerDescriptor
      → (ephemeral_public_key identity_signature : Bytes) → (issued_at_ms : ℤ) → SessionReply

-- What the process has, what it draws, and what the user and the clock answer during this request.
pub record SessionDesktop : Type 0 where
  pub base64 : Base64
  pub key_exchange : KeyExchange
  pub trust_store : TrustStore
  pub parse_init : Bytes → Option SessionInit
  pub int : Text → Option ℕ
  pub verify : (key payload signature : Bytes) → Option Bool
  pub sign : Bytes → Bytes
  pub device_id : Text
  pub device_name : Text
  pub identity_public_key : Bytes
  pub protocol_version : Text
  pub max_skew_ms : ℕ
  pub session_allowed : Option Bool
  pub now_ms : ℤ
  pub drawn_token : Text
  pub ack_issued_at_ms : ℤ
  pub ephemeral_private_key : Bytes
  pub ephemeral_public_key : Bytes
  pub transport_ends : Result (Unit {0})
  pub started_raises : Option Exception
  pub closed_raises : Option Exception

-- An encrypted channel that was served: with which phone, and under which keys.
abbrev pub Served : Type 0
Served = Text × DirectionalSessionKeys

pub record SessionWorld : Type 0 where
  pub sent : List SessionReply
  pub failures : List Bool
  pub registry : ActiveSessionRegistry
  pub served : List Served

unfoldable pub send : SessionReply → Exec SessionWorld (Unit {0})
send reply w = elim (w.failures) [
  | [] ↦ (
    ok tt,
    record { sent = w.sent ++ reply ∷ []; failures = []; registry = w.registry; served = w.served },
  )
  | false ∷ fs ↦ (
    ok tt,
    record { sent = w.sent ++ reply ∷ []; failures = fs; registry = w.registry; served = w.served },
  )
  | true ∷ fs ↦ (
    err os_error,
    record { sent = w.sent; failures = fs; registry = w.registry; served = w.served },
  )
]

-- What is raised at the end of a `finally` block: its own exception, or that of the `try` block.
abbrev pub at_end : Result (Unit {0}) → Result (Unit {0}) → Result (Unit {0})
at_end result (ok u) = result
at_end result (err x) = err x

-- `try: m finally: clean`
abbrev pub finally :
    Exec SessionWorld (Unit {0}) → Exec SessionWorld (Unit {0}) → Exec SessionWorld (Unit {0})
finally m clean w =
    let (result, w') = m w in let (cleaned, w'') = clean w' in (at_end result cleaned, w'')

-- The calls of the prompts at a session's start or end: `record_trusted_session_…` and `notify`.
abbrev pub call_prompts : Option Exception → Exec SessionWorld (Unit {0})
call_prompts none w = (ok tt, w)
call_prompts (some x) w = (err x, w)

set_registry : ActiveSessionRegistry → SessionWorld → SessionWorld
set_registry r w = record { sent = w.sent; failures = w.failures; registry = r; served = w.served }

release_token : Text → Exec SessionWorld (Unit {0})
unfolding set_registry
release_token token w = (ok tt, set_registry (release w.registry token) w)

serve : Served → Result (Unit {0}) → Exec SessionWorld (Unit {0})
serve channel ends w = (
  ends,
  record {
    sent = w.sent;
    failures = w.failures;
    registry = w.registry;
    served = w.served ++ channel ∷ [];
  },
)

module _ (d : SessionDesktop) where
  describe : ProtocolVersion → PeerDescriptor
  describe v = record {
    fingerprint = d.device_id;
    device_name = d.device_name;
    platform = codes "linux";
    protocol_version = v;
    identity_public_key = d.identity_public_key;
  }

  -- The keys that the two ends derive.
  pub session_keys : SessionInit → Result DirectionalSessionKeys
  session_keys init =
      derive_directional_keys d.key_exchange d.ephemeral_private_key init.ephemeral_public_key
        init.ephemeral_public_key d.ephemeral_public_key

  -- The keys, and the loop over the encrypted transport.
  serve_keys : SessionInit → Exec SessionWorld (Unit {0})
  unfolding session_keys serve
  serve_keys init = do
    keys ← lift (session_keys init)
    serve (init.initiator.fingerprint, keys) d.transport_ends

  -- The body of the `try` block.
  greet : SessionInit → PeerDescriptor → Exec SessionWorld (Unit {0})
  unfolding send serve_keys
  greet init acceptor = do
    payload ← lift (
        build_session_signature_payload session_ack_label acceptor d.ephemeral_public_key
          d.ack_issued_at_ms)
    send (ack acceptor d.ephemeral_public_key (d.sign payload) d.ack_issued_at_ms)
    call_prompts d.started_raises
    serve_keys init

  -- The `finally` block: the session is released after the prompts were told.
  close_session : (token : Text) → Exec SessionWorld (Unit {0})
  unfolding release_token
  close_session token = do call_prompts d.closed_raises; release_token token

  -- From the token on: the descriptor is built before the `try`.
  open_session : SessionInit → (token : Text) → Exec SessionWorld (Unit {0})
  unfolding greet describe close_session
  open_session init token = do
    v ← lift (parts d.int (split_dots d.protocol_version))
    finally (greet init (describe v)) (close_session token)

  with_token : SessionInit → Option Text → Exec SessionWorld (Unit {0})
  unfolding open_session send
  with_token init none = send (close protocol_error)
  with_token init (some token) = open_session init token

  take_session : SessionInit → Exec SessionWorld (Unit {0})
  unfolding with_token set_registry
  take_session init w =
      let (granted, r) = acquire w.registry init.initiator.fingerprint d.drawn_token in
      with_token init granted (set_registry r w)

  admit : SessionInit → Bool → Exec SessionWorld (Unit {0})
  unfolding take_session send
  admit init false = send (close protocol_error)
  admit init true = take_session init

  -- What the phone signs.
  unfoldable pub init_payload : SessionInit → Result Bytes
  init_payload init =
      build_session_signature_payload session_init_label init.initiator init.ephemeral_public_key
        init.issued_at_ms

  check_proof : SessionInit → TrustedDeviceRecord → Exec SessionWorld (Unit {0})
  unfolding init_payload admit
  check_proof init r = do
    payload ← lift (init_payload init)
    valid ← lift (
        or_raise value_error
          (d.verify (public_key_bytes d.base64 r) payload init.identity_signature))
    admit init valid

  check_fresh : SessionInit → TrustedDeviceRecord → Exec SessionWorld (Unit {0})
  unfolding check_proof send
  check_fresh init r =
      if is_timestamp_fresh init.issued_at_ms d.max_skew_ms d.now_ms
      then check_proof init r
      else send (close timeout)

  check_allowed : SessionInit → TrustedDeviceRecord → Exec SessionWorld (Unit {0})
  unfolding check_fresh send
  check_allowed init r =
      if is_blocked d.session_allowed then send (close normal) else check_fresh init r

  check_trust : SessionInit → Option TrustedDeviceRecord → Exec SessionWorld (Unit {0})
  unfolding check_allowed send
  check_trust init none = send (close revoked)
  check_trust init (some r) =
      if public_key_bytes d.base64 r == init.initiator.identity_public_key
      then check_allowed init r
      else send (close revoked)

  unfoldable pub handle_session_init : (payload : Bytes) → Exec SessionWorld (Unit {0})
  unfolding check_trust
  handle_session_init payload = do
    init ← lift (or_raise decode_error (d.parse_init payload))
    check_trust init (get d.trust_store init.initiator.fingerprint)
