-- ===== src/Crypto/Keys.antt =====
-- The keys of a session: `derive_directional_keys` of
-- desktop/src/linkable_desktop/crypto/session_cipher.py. The key exchange and HKDF are parameters.
use linkable.Prelude.{ℕ, Option, none, some, ◌++◌, Bytes, codes}
use linkable.Prelude.Exec.{Result, ok, err, value_error}

-- HKDF with SHA-256 as `hkdf length salt info key`; and the exchange of a private key with a peer's
-- encoded public key, which fails where that does not load as a key of the curve.
pub record KeyExchange : Type 0 where
  pub hkdf : ℕ → Bytes → Bytes → Bytes → Bytes
  pub exchange : (private_key peer_public_key : Bytes) → Option Bytes

abbrev pub session_key_salt_label : Bytes
session_key_salt_label = codes "linkable-session-keys-v1"

abbrev pub client_to_server_info : Bytes
client_to_server_info = codes "linkable-c2s-v1"

abbrev pub server_to_client_info : Bytes
server_to_client_info = codes "linkable-s2c-v1"

pub record DirectionalSessionKeys : Type 0 where
  pub client_to_server : Bytes
  pub server_to_client : Bytes

module _ (x : KeyExchange) where
  derive_key : (shared_secret salt info : Bytes) → Bytes
  derive_key shared_secret salt info = x.hkdf 32 salt info shared_secret

  -- The keys from the shared secret.
  keys_from : (initiator acceptor : Bytes) → Option Bytes → Result DirectionalSessionKeys
  unfolding derive_key
  keys_from initiator acceptor none = err value_error
  keys_from initiator acceptor (some shared_secret) = ok record {
    client_to_server =
        derive_key shared_secret (session_key_salt_label ++ initiator ++ acceptor)
          client_to_server_info;
    server_to_client =
        derive_key shared_secret (session_key_salt_label ++ initiator ++ acceptor)
          server_to_client_info;
  }

  unfoldable pub derive_directional_keys :
      (private_key peer_public_key initiator_public_key acceptor_public_key : Bytes)
      → Result DirectionalSessionKeys
  unfolding keys_from
  derive_directional_keys private_key peer_public_key initiator_public_key acceptor_public_key =
      keys_from initiator_public_key acceptor_public_key (x.exchange private_key peer_public_key)
