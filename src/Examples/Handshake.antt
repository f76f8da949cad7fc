-- ===== src/Examples/Handshake.antt =====
-- A session request at concrete inputs.
use linkable.Prelude.{none, ◌≡◌, ◌⊎◌, refl, inl, true, some, [], ◌∷◌, Text, codes, list_beq}
use linkable.Prelude.Dict
use linkable.Prelude.Decimal.{value}
use linkable.Prelude.Int.{pos}
use linkable.Prelude.Encoding.{to_bytes, utf8}
use linkable.Prelude.Exec.{ok, err, value_error}
use linkable.Session.Auth.{build_session_signature_payload, is_timestamp_fresh}
use linkable.Trust.{TrustedDeviceRecord, get, public_key_bytes}
use linkable.Crypto.Keys.{DirectionalSessionKeys}
use linkable.Pairing.Registry.{free}
use linkable.Pairing.Server.{parts, split_dots}
use linkable.Pairing.Session.{
  SessionDesktop, SessionWorld, SessionInit, handle_session_init, session_keys, init_payload,
}
use linkable.Pairing.Session.Admission.{Admitted, handle_session_init-Admitted}
use linkable.Pairing.Session.Release.{taken, handle_session_init-registry, session_never_released}
use linkable.Examples.Fixtures.{raw64, digit}
use linkable.Examples.Session.{phone, payload, session_key}

abbrev asked : SessionInit
asked = record {
  initiator = phone;
  ephemeral_public_key = session_key;
  issued_at_ms = pos 1000;
  identity_signature = 4 ∷ [];
}

abbrev known : TrustedDeviceRecord
known = record {
  device_id = codes "f";
  device_name = codes "n";
  public_key_b64 = 7 ∷ [];
  paired_at_epoch_ms = 3;
}

-- A desktop with this configured protocol version.
abbrev host : Text → SessionDesktop
host protocol_version = record {
  base64 = raw64;
  key_exchange = record { hkdf = λ n salt info key. info; exchange = λ k p. some k };
  trust_store = some (known ∷ []);
  parse_init = λ b. some asked;
  int = digit;
  verify = λ key message signature. some true;
  sign = λ b. b;
  device_id = codes "d";
  device_name = codes "desk";
  identity_public_key = 9 ∷ [];
  protocol_version = protocol_version;
  max_skew_ms = 120000;
  session_allowed = some true;
  now_ms = pos 2000;
  drawn_token = codes "k";
  ack_issued_at_ms = pos 2000;
  ephemeral_private_key = 5 ∷ [];
  ephemeral_public_key = 6 ∷ [];
  transport_ends = ok tt;
  started_raises = none;
  closed_raises = none;
}

abbrev idle : SessionWorld
idle = record { sent = []; failures = []; registry = free; served = [] }

handle_session_init-Admitted_example :
    ((handle_session_init (host (codes "1.0.0")) [] idle).1.served ≡ [])
    ⊎ ((init : SessionInit) × (keys : DirectionalSessionKeys) × (some asked ≡ some init)
        × (session_keys (host (codes "1.0.0")) init ≡ ok keys)
        × ((handle_session_init (host (codes "1.0.0")) [] idle).1.served
            ≡ (init.initiator.fingerprint, keys) ∷ [])
        × Admitted (host (codes "1.0.0")) init)
handle_session_init-Admitted_example = handle_session_init-Admitted (host (codes "1.0.0")) [] idle

handle_session_init-registry_example :
    (handle_session_init (host (codes "1.0.0")) [] idle).1.registry ≡ free
unfolding split_dots parts value
handle_session_init-registry_example =
    handle_session_init-registry (host (codes "1.0.0")) []
      (record { major = 1; minor = 0; patch = 0 }) idle refl refl (inl refl)

asked-Admitted : Admitted (host (codes "1.0")) asked
unfolding init_payload get list_beq public_key_bytes is_timestamp_fresh
    build_session_signature_payload utf8 to_bytes Dict.get Dict.put
asked-Admitted = record {
  device = known;
  payload = payload;
  trusted = refl;
  same_key = refl;
  not_blocked = refl;
  fresh = refl;
  built = refl;
  signed = refl;
}

session_never_released_example :
    ((handle_session_init (host (codes "1.0")) [] idle).0 ≡ err value_error)
    × ((handle_session_init (host (codes "1.0")) [] idle).1.registry
        ≡ taken (codes "f") (codes "k"))
unfolding split_dots parts value
session_never_released_example =
    session_never_released (host (codes "1.0")) [] asked value_error idle refl asked-Admitted refl
      refl
