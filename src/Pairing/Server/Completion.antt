-- ===== src/Pairing/Server/Completion.antt =====
-- A pairing in which both users and both programs do their part comes to its end.
use linkable.Prelude.{
  ◌≡◌, refl, ◌∙◌, true, some, [], ◌∷◌, ◌++◌, ◌==◌, nat_eq, list_eq, nat_eqb, ==_iff, ==_refl, codes,
}
use linkable.Prelude.Exec.{ok}
use linkable.Session.Auth.{PeerDescriptor, ProtocolVersion}
use linkable.Trust.{upsert, get, TrustStore, from_public_key, public_key_bytes}
use linkable.Trust.Store.{get-upsert}
use linkable.Pairing.Code.{pairing_code, transcript_hash}
use linkable.Pairing.Server.{
  Desktop, World, Envelope, PairingRequest, Reply, handle_pairing_request, material, record_of,
  send, receive, conclude, check_confirm, await_confirm, check_code, ask, descriptor_from_identity,
  upsert_trust, parts, split_dots, deliver,
}
use linkable.Pairing.Server.Authority.{Authorised}

module _ (d : Desktop) where
  -- The desktop's own descriptor at a protocol version.
  abbrev pub own : ProtocolVersion → PeerDescriptor
  own v = record {
    fingerprint = d.device_id;
    device_name = d.device_name;
    platform = codes "linux";
    protocol_version = v;
    identity_public_key = d.public_key_bytes;
  }

  -- If pairing is open, the user agrees and types the right code, the phone's confirmation is
  -- right, the configured version is well formed and no write fails, then the request is answered
  -- with a challenge, a confirmation and a completion, numbered 2, 6 and 7, and nothing raises.
  pub handle_pairing_request-completes :
      (envelope : Envelope) (w : World) (request : PairingRequest) (v : ProtocolVersion)
      → d.parse_request envelope.payload ≡ some request
      → parts d.int (split_dots d.protocol_version) ≡ ok v
      → w.failures ≡ []
      → (a : Authorised d request w.incoming)
      → handle_pairing_request d envelope w ≡ (
        ok tt,
        record {
          incoming = a.confirmed.rest;
          sent =
              w.sent
              ++ (2, Reply.challenge (own v) d.token_bytes 6) ∷ []
              ++ (
                6,
                Reply.confirm
                    (own v)
                    (transcript_hash d.hashes (material d request))
                    (d.sign (transcript_hash d.hashes (material d request))),
              )
                ∷ []
              ++ (7, Reply.complete (own v) d.timestamp_ms) ∷ [];
          failures = [];
          trust = upsert d.lower w.trust (record_of d request);
        },
      )
  unfolding handle_pairing_request ask check_code await_confirm check_confirm conclude send receive
      upsert_trust deliver descriptor_from_identity
  handle_pairing_request-completes envelope w request v parsed version works a = simp (
    parsed,
    a.not_blocked,
    a.allowed,
    version,
    works,
    typed,
    a.confirmed.arrived,
    type,
    a.confirmed.parsed,
    a.confirmed.same_hash,
    ==_refl (transcript_hash d.hashes (material d request)),
    a.confirmed.signed,
  )
    where
      typed : (d.prompt_code == pairing_code d.hashes (material d request)) ≡ true
      typed = (==_iff d.prompt_code (pairing_code d.hashes (material d request))).1 a.code_typed

      type : nat_eqb a.confirmed.envelope.packet_type d.confirm_type ≡ true
      type = (==_iff a.confirmed.envelope.packet_type d.confirm_type).1 a.confirmed.is_confirm

  -- After the record of a pairing request is put in any trust store, the store finds it under the
  -- phone's identifier, and its key is the one that the request had.
  pub paired_key :
      (t : TrustStore) (request : PairingRequest)
      → (get (upsert d.lower t (record_of d request)) request.initiator.fingerprint
          ≡ some (record_of d request))
        × (public_key_bytes d.base64 (record_of d request) ≡ request.initiator.identity_public_key)
  unfolding record_of from_public_key public_key_bytes
  paired_key t request = (
    get-upsert d.lower t (record_of d request) request.initiator.fingerprint
        ∙ (rw (==_refl request.initiator.fingerprint) refl),
    d.base64.b64decode-b64encode request.initiator.identity_public_key,
  )
