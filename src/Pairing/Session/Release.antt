-- ===== src/Pairing/Session/Release.antt =====
-- What a session request leaves in the registry.
use linkable.Prelude.{
  ◌≡◌, refl, sym, ap, ◌∙◌, Bool, true, false, Option, none, some, List, [], ◌∷◌, Text, Bytes, ◌==◌,
  nat_eq, list_eq, ==_iff, ==_refl, Bool-cases, Option-cases, ◌⊎◌, inl, inr,
}
use linkable.Prelude.Exec.{◌>>=◌, Exception, ok, err, bind_result-Post, Result-cases}
use linkable.Trust.{TrustedDeviceRecord, get, public_key_bytes}
use linkable.Session.Auth.{
  PeerDescriptor, ProtocolVersion, is_timestamp_fresh, build_session_signature_payload,
  session_ack_label,
}
use linkable.Pairing.Registry.{acquire, release, ActiveSessionRegistry, free}
use linkable.Pairing.Server.{is_blocked, parts, split_dots}
use linkable.Pairing.Session.{
  SessionDesktop, SessionWorld, SessionInit, SessionReply, CloseReason, send, handle_session_init,
  check_trust, check_allowed, check_fresh, check_proof, admit, take_session, with_token,
  open_session, greet, serve_keys, session_keys, init_payload, describe, release_token,
  call_prompts, close_session, set_registry, serve,
}
use linkable.Pairing.Session.Admission.{Admitted}

send-registry : (r : SessionReply) (w : SessionWorld) → (send r w).1.registry ≡ w.registry
unfolding send
send-registry r w = go w.failures refl
  where
    go : (fs : List Bool) → w.failures ≡ fs → (send r w).1.registry ≡ w.registry
    go [] e = rw e refl
    go (false ∷ fs) e = rw e refl
    go (true ∷ fs) e = rw e refl

abbrev pub taken : Text → Text → ActiveSessionRegistry
taken device token = record { device = some device; token = some token }

-- A registry as every reachable one is: free, or taken by a device.
abbrev pub Settled : ActiveSessionRegistry → Type 0
Settled r = (r ≡ free) ⊎ ((device : Text) × (token : Text) × (r ≡ taken device token))

module _ (d : SessionDesktop) where
  serve_keys-registry :
      (init : SessionInit) (w : SessionWorld) → (serve_keys d init w).1.registry ≡ w.registry
  unfolding serve_keys serve
  serve_keys-registry init w = elim (Result-cases (session_keys d init)) [
    | inl (x, e) ↦ rw e refl
    | inr (keys, e) ↦ rw e refl
  ]

  told-registry :
      (init : SessionInit) (o : Option Exception) (w : SessionWorld)
      → ((call_prompts o >>= λ _. serve_keys d init) w).1.registry ≡ w.registry
  told-registry init none w = serve_keys-registry init w
  told-registry init (some x) w = refl

  greet-registry :
      (init : SessionInit) (acceptor : PeerDescriptor) (w : SessionWorld)
      → (greet d init acceptor w).1.registry ≡ w.registry
  unfolding greet
  greet-registry init acceptor w =
      elim (Result-cases (
        build_session_signature_payload session_ack_label acceptor d.ephemeral_public_key
          d.ack_issued_at_ms)) [
            | inl (x, e) ↦ rw e refl
            | inr (payload, e) ↦ rw e (
                bind_result-Post (λ v. v.registry ≡ w.registry) (λ v. v.registry ≡ w.registry) _
                  (send (reply payload) w) (send-registry (reply payload) w) (λ v h. h)
                  λ _ v h. told-registry init d.started_raises v ∙ h)
          ]
    where
      reply : Bytes → SessionReply
      reply payload =
          SessionReply.ack acceptor d.ephemeral_public_key (d.sign payload) d.ack_issued_at_ms

  release-taken : (device token : Text) → release (taken device token) token ≡ free
  unfolding release
  release-taken device token = rw (==_refl token) refl

  close_session-registry :
      (token : Text) (w : SessionWorld)
      → d.closed_raises ≡ none
      → (close_session d token w).1.registry ≡ release w.registry token
  unfolding close_session release_token set_registry
  close_session-registry token w quiet = rw quiet refl

  open_session-registry :
      (init : SessionInit) (token device : Text) (v : ProtocolVersion) (w : SessionWorld)
      → parts d.int (split_dots d.protocol_version) ≡ ok v
      → d.closed_raises ≡ none
      → w.registry ≡ taken device token
      → (open_session d init token w).1.registry ≡ free
  unfolding open_session
  open_session-registry init token device v w version quiet r = rw version (
      close_session-registry token (greet d init (describe d v) w).1 quiet
      ∙ ap (λ r. release r token) (greet-registry init (describe d v) w ∙ r)
      ∙ release-taken device token)

  -- What is left of a registry r.
  left_of : SessionInit → SessionWorld → ActiveSessionRegistry → ActiveSessionRegistry
  left_of init w r =
      (with_token d init (acquire r init.initiator.fingerprint d.drawn_token).0
        (set_registry (acquire r init.initiator.fingerprint d.drawn_token).1 w)).1.registry

  take_session-registry :
      (init : SessionInit) (v : ProtocolVersion) (w : SessionWorld)
      → parts d.int (split_dots d.protocol_version) ≡ ok v
      → d.closed_raises ≡ none
      → Settled w.registry
      → (take_session d init w).1.registry ≡ w.registry
  unfolding take_session with_token set_registry acquire left_of
  take_session-registry init v w version quiet (inl e) =
      ap (left_of init w) e
      ∙ open_session-registry init d.drawn_token init.initiator.fingerprint v
          (set_registry (taken init.initiator.fingerprint d.drawn_token) w) version quiet refl
      ∙ sym e
  take_session-registry init v w version quiet (inr (device, token, e)) =
      ap (left_of init w) e
      ∙ send-registry (SessionReply.close CloseReason.protocol_error)
          (set_registry (taken device token) w)
      ∙ sym e

  admit-registry :
      (init : SessionInit) (valid : Bool) (v : ProtocolVersion) (w : SessionWorld)
      → parts d.int (split_dots d.protocol_version) ≡ ok v
      → d.closed_raises ≡ none
      → Settled w.registry
      → (admit d init valid w).1.registry ≡ w.registry
  unfolding admit
  admit-registry init false v w version quiet h = send-registry _ w
  admit-registry init true v w version quiet h = take_session-registry init v w version quiet h

  check_proof-registry :
      (init : SessionInit) (r : TrustedDeviceRecord) (v : ProtocolVersion) (w : SessionWorld)
      → parts d.int (split_dots d.protocol_version) ≡ ok v
      → d.closed_raises ≡ none
      → Settled w.registry
      → (check_proof d init r w).1.registry ≡ w.registry
  unfolding check_proof
  check_proof-registry init r v w version quiet h = elim (Result-cases (init_payload d init)) [
    | inl (x, e) ↦ rw e refl
    | inr (payload, e) ↦
        elim (Option-cases
          (d.verify (public_key_bytes d.base64 r) payload init.identity_signature)) [
            | inl f ↦ rw (e, f) refl
            | inr (valid, f) ↦ rw (e, f) (admit-registry init valid v w version quiet h)
          ]
  ]

  check_trust-registry :
      (init : SessionInit) (o : Option TrustedDeviceRecord) (v : ProtocolVersion) (w : SessionWorld)
      → parts d.int (split_dots d.protocol_version) ≡ ok v
      → d.closed_raises ≡ none
      → Settled w.registry
      → (check_trust d init o w).1.registry ≡ w.registry
  unfolding check_trust check_allowed check_fresh
  check_trust-registry init none v w version quiet h = send-registry _ w
  check_trust-registry init (some r) v w version quiet h =
      elim (Bool-cases (public_key_bytes d.base64 r == init.initiator.identity_public_key)) [
        | inr other ↦ rw other (send-registry _ w)
        | inl same ↦ elim (Bool-cases (is_blocked d.session_allowed)) [
          | inl blocked ↦ rw (same, blocked) (send-registry _ w)
          | inr allowed ↦
              elim (Bool-cases (is_timestamp_fresh init.issued_at_ms d.max_skew_ms d.now_ms)) [
                | inr old ↦ rw (same, allowed, old) (send-registry _ w)
                | inl fresh ↦
                    rw (same, allowed, fresh) (check_proof-registry init r v w version quiet h)
              ]
        ]
      ]

  -- If the configured protocol version is well formed, and what the prompts are told at the end of
  -- a session raises nothing, then a session request that finds the registry free, or taken by a
  -- device with its token, leaves it so: whatever it was answered, whatever raised before the end
  -- of the session, and however the encrypted transport ended.
  pub handle_session_init-registry :
      (payload : Bytes) (v : ProtocolVersion) (w : SessionWorld)
      → parts d.int (split_dots d.protocol_version) ≡ ok v
      → d.closed_raises ≡ none
      → Settled w.registry
      → (handle_session_init d payload w).1.registry ≡ w.registry
  unfolding handle_session_init
  handle_session_init-registry payload v w version quiet h =
      elim (Option-cases (d.parse_init payload)) [
        | inl e ↦ rw e refl
        | inr (init, e) ↦ rw e (
            check_trust-registry init (get d.trust_store init.initiator.fingerprint) v w version
              quiet h)
      ]

  stuck :
      (init : SessionInit) (x : Exception) (w : SessionWorld)
      → parts d.int (split_dots d.protocol_version) ≡ err x
      → w.registry ≡ free
      → ((take_session d init w).0 ≡ err x)
        × ((take_session d init w).1.registry ≡ taken init.initiator.fingerprint d.drawn_token)
  unfolding take_session with_token open_session set_registry acquire
  stuck init x w version e = simp (e, version) (refl, refl)

  -- If the configured protocol version is malformed, then a request that passes every check finds
  -- the free registry and raises, and the registry stays taken by that phone.
  pub session_never_released :
      (payload : Bytes) (init : SessionInit) (x : Exception) (w : SessionWorld)
      → d.parse_init payload ≡ some init
      → Admitted d init
      → parts d.int (split_dots d.protocol_version) ≡ err x
      → w.registry ≡ free
      → ((handle_session_init d payload w).0 ≡ err x)
        × ((handle_session_init d payload w).1.registry
            ≡ taken init.initiator.fingerprint d.drawn_token)
  unfolding handle_session_init check_trust check_allowed check_fresh check_proof admit
  session_never_released payload init x w parsed a version e =
      rw
        (
          parsed,
          a.trusted,
          (==_iff (public_key_bytes d.base64 a.device) init.initiator.identity_public_key).1
              a.same_key,
          a.not_blocked,
          a.fresh,
          a.built,
          a.signed,
        )
        (stuck init x w version e)
