-- ===== src/Examples/Session.antt =====
-- Signed payloads and time stamps at concrete descriptors.
use linkable.Prelude.{◌≡◌, refl, [], ◌∷◌, ◌++◌, Bytes, codes}
use linkable.Prelude.Int.{pos}
use linkable.Prelude.Encoding.{utf8, to_bytes}
use linkable.Session.Auth.{PeerDescriptor, session_init_label, build_session_signature_payload}
use linkable.Session.Auth.Binding.{payload_injective}

abbrev pub phone : PeerDescriptor
phone = record {
  fingerprint = codes "f";
  device_name = codes "n";
  platform = codes "a";
  protocol_version = record { major = 1; minor = 0; patch = 0 };
  identity_public_key = 7 ∷ [];
}

abbrev pub session_key : Bytes
session_key = 8 ∷ []

abbrev pub payload : Bytes
payload =
    (0 ∷ 0 ∷ 0 ∷ 24 ∷ session_init_label)
    ++ (0 ∷ 0 ∷ 0 ∷ 1 ∷ codes "f")
    ++ (0 ∷ 0 ∷ 0 ∷ 1 ∷ codes "n")
    ++ (0 ∷ 0 ∷ 0 ∷ 1 ∷ codes "a")
    ++ (0 ∷ 0 ∷ 0 ∷ 1 ∷ 7 ∷ [])
    ++ (0 ∷ 0 ∷ 0 ∷ 1 ∷ 8 ∷ [])
    ++ (0 ∷ 0 ∷ 0 ∷ 0 ∷ 0 ∷ 0 ∷ 0 ∷ 1 ∷ [])
    ++ (0 ∷ 0 ∷ 0 ∷ 0 ∷ 0 ∷ 0 ∷ 0 ∷ 0 ∷ [])
    ++ (0 ∷ 0 ∷ 0 ∷ 0 ∷ 0 ∷ 0 ∷ 0 ∷ 0 ∷ [])
    ++ (0 ∷ 0 ∷ 0 ∷ 0 ∷ 0 ∷ 0 ∷ 3 ∷ 232 ∷ [])

payload_injective_example :
    (session_init_label ≡ session_init_label)
    × (utf8 (codes "f") ≡ utf8 (codes "f"))
    × (utf8 (codes "n") ≡ utf8 (codes "n"))
    × (utf8 (codes "a") ≡ utf8 (codes "a"))
    × (phone.identity_public_key ≡ 7 ∷ [])
    × (session_key ≡ session_key)
    × (phone.protocol_version ≡ record { major = 1; minor = 0; patch = 0 })
    × (pos 1000 ≡ pos 1000)
unfolding build_session_signature_payload utf8 to_bytes
payload_injective_example =
    payload_injective session_init_label session_init_label phone phone session_key session_key
      (pos 1000) (pos 1000) payload refl refl
