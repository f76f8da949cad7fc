-- ===== src/Examples/Pairing.antt =====
-- A pairing, the registry and the trust store at concrete inputs.
use linkable.Prelude.{
  ℕ, ◌≡◌, ◌⊎◌, refl, true, none, some, [], ◌∷◌, ◌++◌, Bytes, Text, codes, arith, length, All,
  nat_eq, list_eq, list_beq, ◌%◌, ◌^◌,
}
use linkable.Prelude.Decimal.{IsDigit, value, to_text, zfill}
use linkable.Prelude.Encoding.{from_bytes, utf8}
use linkable.Prelude.Exec.{ok}
use linkable.Session.Auth.{PeerDescriptor}
use linkable.Trust.{TrustedDeviceRecord, get, upsert}
use linkable.Trust.Store.{get-upsert}
use linkable.Pairing.Registry.{
  System, Reachable, Agrees, acquired, refused, start, next, free, acquire, Reachable-Agrees,
}
use linkable.Pairing.Code.{
  derive_pairing_code, raw, transcript_hash, pairing_code, derive_pairing_code_lem,
  transcript_injective,
}
use linkable.Pairing.Server.{
  Desktop, World, Envelope, PairingRequest, Reply, handle_pairing_request, material, record_of,
  parts, split_dots,
}
use linkable.Pairing.Server.Authority.{Authorised, handle_pairing_request-Authorised}
use linkable.Pairing.Server.Completion.{own, handle_pairing_request-completes}
use linkable.Examples.Fixtures.{digit, constant, raw64}

abbrev entry : Text → Bytes → TrustedDeviceRecord
entry id key = record {
  device_id = id;
  device_name = codes "n";
  public_key_b64 = key;
  paired_at_epoch_ms = 3;
}

get-upsert_example :
    get
      (upsert (λ t. t) (some (entry (codes "f") [] ∷ [])) (entry (codes "f") (7 ∷ [])))
      (codes "f")
    ≡ some (entry (codes "f") (7 ∷ []))
unfolding list_beq
get-upsert_example =
    get-upsert (λ t. t) (some (entry (codes "f") [] ∷ [])) (entry (codes "f") (7 ∷ [])) (codes "f")

-- One session has begun, and a second phone was refused.
abbrev one_session : System
one_session = record {
  registry = record { device = some (codes "f"); token = some (codes "k") };
  held = (codes "f", codes "k") ∷ [];
}

one_session-Reachable : Reachable one_session
unfolding acquire
one_session-Reachable = next (next start (acquired free [] (codes "f") (codes "k") refl)) (
    refused (record { device = some (codes "f"); token = some (codes "k") })
      ((codes "f", codes "k") ∷ []) (codes "g") (codes "l") refl)

Reachable-Agrees_example : Agrees one_session
Reachable-Agrees_example = Reachable-Agrees one_session-Reachable

derive_pairing_code_lem_example :
    (length (derive_pairing_code constant [] [] [] [] 6) ≡ 6)
    × All IsDigit (derive_pairing_code constant [] [] [] [] 6)
    × (value (derive_pairing_code constant [] [] [] [] 6)
        ≡ from_bytes (raw constant [] [] [] []) % 10 ^ 6)
derive_pairing_code_lem_example = derive_pairing_code_lem constant [] [] [] [] 6 (omega arith)

abbrev nonce : ℕ → Bytes
nonce n = n ∷ []

six : All IsDigit (codes "123456")
six = (
  (omega arith, omega arith),
  (
    (omega arith, omega arith),
    (
      (omega arith, omega arith),
      ((omega arith, omega arith), ((omega arith, omega arith), ((omega arith, omega arith), tt))),
    ),
  ),
)

transcript_injective_example :
    (nonce 1 ≡ nonce 1)
    × (nonce 2 ≡ nonce 2)
    × (utf8 (codes "f") ≡ utf8 (codes "f"))
    × (codes "123456" ≡ codes "123456")
transcript_injective_example =
    transcript_injective (nonce 1) (nonce 2) (nonce 1) (nonce 2) (codes "f") (codes "f") (codes "d")
      (codes "123456") (codes "123456") refl refl refl six six refl

abbrev phone : PeerDescriptor
phone = record {
  fingerprint = codes "f";
  device_name = codes "n";
  platform = codes "a";
  protocol_version = record { major = 1; minor = 0; patch = 0 };
  identity_public_key = 7 ∷ [];
}

abbrev request : PairingRequest
request = record { initiator = phone; pairing_nonce = 1 ∷ [] }

-- The user typed the code that the constant derivation gives.
abbrev desktop : Desktop
desktop = record {
  base64 = raw64;
  hashes = constant;
  lower = λ t. t;
  parse_request = λ b. some request;
  parse_confirm = λ b. some (record { transcript_hash = b; transcript_signature = 4 ∷ [] });
  int = digit;
  verify = λ key payload signature. some true;
  device_id = codes "d";
  device_name = codes "desk";
  public_key_bytes = 9 ∷ [];
  sign = λ b. b;
  protocol_version = codes "1.0.0";
  confirm_type = 3;
  allow_new_pairing = some true;
  confirm_pairing = true;
  token_bytes = 2 ∷ [];
  prompt_code = codes "123456";
  timestamp_ms = 100;
}

abbrev asking : Envelope
asking = record { packet_type = 1; payload = [] }

abbrev confirming : Envelope
confirming = record {
  packet_type = 3;
  payload = codes "PAIR_CONFIRM_V1" ++ (1 ∷ 2 ∷ codes "fd123456");
}

abbrev world : World
world = record { incoming = confirming ∷ []; sent = []; failures = []; trust = none }

handle_pairing_request-Authorised_example :
    ((handle_pairing_request desktop asking world).1.trust ≡ none)
    ⊎ ((request' : PairingRequest) × (some request ≡ some request')
        × ((handle_pairing_request desktop asking world).1.trust
            ≡ upsert (λ t. t) none (record_of desktop request'))
        × Authorised desktop request' world.incoming)
handle_pairing_request-Authorised_example = handle_pairing_request-Authorised desktop asking world

right_answer : Authorised desktop request world.incoming
unfolding pairing_code zfill material to_text from_bytes transcript_hash utf8
right_answer = record {
  not_blocked = refl;
  allowed = refl;
  code_typed = refl;
  confirmed = record {
    envelope = confirming;
    rest = [];
    confirmation = record { transcript_hash = confirming.payload; transcript_signature = 4 ∷ [] };
    arrived = refl;
    is_confirm = refl;
    parsed = refl;
    same_hash = refl;
    signed = refl;
  };
}

handle_pairing_request-completes_example : handle_pairing_request desktop asking world ≡ (
  ok tt,
  record {
    incoming = right_answer.confirmed.rest;
    sent =
        (2, Reply.challenge (own desktop (record { major = 1; minor = 0; patch = 0 })) (2 ∷ []) 6)
        ∷ (
          6,
          Reply.confirm
              (own desktop (record { major = 1; minor = 0; patch = 0 }))
              (transcript_hash constant (material desktop request))
              (transcript_hash constant (material desktop request)),
        )
        ∷ (7, Reply.complete (own desktop (record { major = 1; minor = 0; patch = 0 })) 100)
        ∷ [];
    failures = [];
    trust = upsert (λ t. t) none (record_of desktop request);
  },
)
unfolding split_dots parts value
handle_pairing_request-completes_example =
    handle_pairing_request-completes desktop asking world request
      (record { major = 1; minor = 0; patch = 0 }) refl refl refl right_answer
