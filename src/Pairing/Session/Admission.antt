-- ===== src/Pairing/Session/Admission.antt =====
-- Which requests open a session.
use linkable.Prelude.{
  ◌≡◌, refl, ap, ◌∙◌, Bool, true, false, Option, none, some, List, [], Text, ◌∷◌, ◌++◌, Bytes, ◌==◌,
  nat_eq, list_eq, ==_iff, Bool-cases, Option-cases, ◌⊎◌, inl, inr,
}
use linkable.Prelude.Exec.{Exception, ◌>>=◌, ok, bind_result-Post, Result-cases}
use linkable.Trust.{TrustedDeviceRecord, get, public_key_bytes}
use linkable.Session.Auth.{
  PeerDescriptor, is_timestamp_fresh, build_session_signature_payload, session_ack_label,
}
use linkable.Crypto.Keys.{DirectionalSessionKeys}
use linkable.Pairing.Registry.{acquire}
use linkable.Pairing.Server.{is_blocked, parts, split_dots}
use linkable.Pairing.Session.{
  SessionDesktop, SessionWorld, SessionInit, SessionReply, send, handle_session_init, check_trust,
  check_allowed, check_fresh, check_proof, admit, take_session, with_token, open_session, greet,
  serve_keys, session_keys, init_payload, describe, release_token, set_registry, serve,
  call_prompts, close_session,
}

send-served : (r : SessionReply) (w : SessionWorld) → (send r w).1.served ≡ w.served
unfolding send
send-served r w = go w.failures refl
  where
    go : (fs : List Bool) → w.failures ≡ fs → (send r w).1.served ≡ w.served
    go [] e = rw e refl
    go (false ∷ fs) e = rw e refl
    go (true ∷ fs) e = rw e refl

module _ (d : SessionDesktop) where
  -- Nothing was served, or one channel with this phone under the keys that both ends derive.
  abbrev pub Opens : SessionInit → SessionWorld → SessionWorld → Type 0
  Opens init w w' =
      (w'.served ≡ w.served)
      ⊎ ((keys : DirectionalSessionKeys) × (session_keys d init ≡ ok keys)
          × (w'.served ≡ w.served ++ (init.initiator.fingerprint, keys) ∷ []))

  serve_keys-Opens :
      (init : SessionInit) (w v : SessionWorld)
      → v.served ≡ w.served
      → Opens init w (serve_keys d init v).1
  unfolding serve_keys serve
  serve_keys-Opens init w v h = elim (Result-cases (session_keys d init)) [
    | inl (x, e) ↦ rw e (inl h)
    | inr (keys, e) ↦
        rw e (inr (keys, refl, ap (λ s. s ++ (init.initiator.fingerprint, keys) ∷ []) h))
  ]

  -- Serving after the prompts were told.
  told-Opens :
      (init : SessionInit) (o : Option Exception) (w v : SessionWorld)
      → v.served ≡ w.served
      → Opens init w ((call_prompts o >>= λ _. serve_keys d init) v).1
  told-Opens init none w v h = serve_keys-Opens init w v h
  told-Opens init (some x) w v h = inl h

  greet-Opens :
      (init : SessionInit) (acceptor : PeerDescriptor) (w : SessionWorld)
      → Opens init w (greet d init acceptor w).1
  unfolding greet
  greet-Opens init acceptor w =
      elim (Result-cases (
        build_session_signature_payload session_ack_label acceptor d.ephemeral_public_key
          d.ack_issued_at_ms)) [
            | inl (x, e) ↦ rw e (inl refl)
            | inr (payload, e) ↦ rw e (
                bind_result-Post (λ v. v.served ≡ w.served) (Opens init w) _
                  (send (reply payload) w) (send-served (reply payload) w) (λ v h. inl h)
                  λ _ v h. told-Opens init d.started_raises w v h)
          ]
    where
      reply : Bytes → SessionReply
      reply payload =
          SessionReply.ack acceptor d.ephemeral_public_key (d.sign payload) d.ack_issued_at_ms

  close_session-Opens :
      (init : SessionInit) (token : Text) (w v : SessionWorld)
      → Opens init w v
      → Opens init w (close_session d token v).1
  unfolding close_session release_token set_registry
  close_session-Opens init token w v h = go d.closed_raises
    where
      go : (o : Option Exception) → Opens init w ((call_prompts o >>= λ _. release_token token) v).1
      go none = h
      go (some x) = h

  take_session-Opens :
      (init : SessionInit) (w : SessionWorld) → Opens init w (take_session d init w).1
  unfolding take_session with_token open_session set_registry
  take_session-Opens init w =
      elim (Option-cases (acquire w.registry init.initiator.fingerprint d.drawn_token).0) [
        | inl e ↦ rw e (inl (send-served _ _))
        | inr (token, e) ↦ elim (Result-cases (parts d.int (split_dots d.protocol_version))) [
          | inl (x, v) ↦ rw (e, v) (inl refl)
          | inr (version, v) ↦
              rw (e, v)
                (close_session-Opens init token w (greet d init (describe d version) _).1
                  (greet-Opens init (describe d version) _))
        ]
      ]

  -- What a request that opened a session had: a trusted record with its own key, no block by the
  -- user, a fresh time stamp, and a signature that the key verifies.
  pub record Admitted (init : SessionInit) : Type 0 where
    pub device : TrustedDeviceRecord
    pub payload : Bytes
    pub trusted : get d.trust_store init.initiator.fingerprint ≡ some device
    pub same_key : public_key_bytes d.base64 device ≡ init.initiator.identity_public_key
    pub not_blocked : is_blocked d.session_allowed ≡ false
    pub fresh : is_timestamp_fresh init.issued_at_ms d.max_skew_ms d.now_ms ≡ true
    pub built : init_payload d init ≡ ok payload
    pub signed :
        d.verify (public_key_bytes d.base64 device) payload init.identity_signature ≡ some true

  admit-Opens :
      (init : SessionInit) (valid : Bool) (w : SessionWorld)
      → ((admit d init valid w).1.served ≡ w.served)
        ⊎ (Opens init w (admit d init valid w).1 × (valid ≡ true))
  unfolding admit
  admit-Opens init false w = inl (send-served _ w)
  admit-Opens init true w = inr (take_session-Opens init w, refl)

  check_proof-Opens :
      (init : SessionInit) (r : TrustedDeviceRecord) (w : SessionWorld)
      → ((check_proof d init r w).1.served ≡ w.served)
        ⊎ (Opens init w (check_proof d init r w).1
            × (payload : Bytes) × (init_payload d init ≡ ok payload)
            × (d.verify (public_key_bytes d.base64 r) payload init.identity_signature ≡ some true))
  unfolding check_proof
  check_proof-Opens init r w = elim (Result-cases (init_payload d init)) [
    | inl (x, e) ↦ rw e (inl refl)
    | inr (payload, e) ↦
        elim (Option-cases
          (d.verify (public_key_bytes d.base64 r) payload init.identity_signature)) [
            | inl f ↦ rw (e, f) (inl refl)
            | inr (valid, f) ↦
                rw (e, f)
                  (elim (admit-Opens init valid w) [
                    | inl k ↦ inl k
                    | inr (o, v) ↦ inr (o, payload, refl, f ∙ ap some v)
                  ])
          ]
  ]

  check_trust-Opens :
      (init : SessionInit) (w : SessionWorld)
      → ((check_trust d init (get d.trust_store init.initiator.fingerprint) w).1.served ≡ w.served)
        ⊎ (Opens init w (check_trust d init (get d.trust_store init.initiator.fingerprint) w).1
            × Admitted init)
  unfolding check_trust check_allowed check_fresh
  check_trust-Opens init w = elim (Option-cases (get d.trust_store init.initiator.fingerprint)) [
    | inl e ↦ rw e (inl (send-served _ w))
    | inr (r, e) ↦
        elim (Bool-cases (public_key_bytes d.base64 r == init.initiator.identity_public_key)) [
          | inr other ↦ rw (e, other) (inl (send-served _ w))
          | inl same ↦ elim (Bool-cases (is_blocked d.session_allowed)) [
            | inl blocked ↦ rw (e, same, blocked) (inl (send-served _ w))
            | inr allowed ↦
                elim (Bool-cases (is_timestamp_fresh init.issued_at_ms d.max_skew_ms d.now_ms)) [
                  | inr old ↦ rw (e, same, allowed, old) (inl (send-served _ w))
                  | inl fresh ↦ elim (check_proof-Opens init r w) [
                    | inl k ↦ rw (e, same, allowed, fresh) (inl k)
                    | inr (o, payload, built, signed) ↦ inr (
                      (rw (e, same, allowed, fresh) o),
                      record {
                        device = r;
                        payload = payload;
                        trusted = e;
                        same_key =
                            (==_iff (public_key_bytes d.base64 r)
                                init.initiator.identity_public_key).0
                              same;
                        not_blocked = allowed;
                        fresh = fresh;
                        built = built;
                        signed = signed;
                      },
                    )
                  ]
                ]
          ]
        ]
  ]

  -- A session request serves no encrypted channel, or it serves one, with the phone that asked and
  -- under the keys derived from both session keys, and then the phone has a trusted record with the
  -- key that it asked with, the user has not blocked it, its time stamp is fresh, and its signature
  -- of the session's payload is valid under the trusted key.
  pub handle_session_init-Admitted :
      (payload : Bytes) (w : SessionWorld)
      → ((handle_session_init d payload w).1.served ≡ w.served)
        ⊎ ((init : SessionInit) × (keys : DirectionalSessionKeys) × (d.parse_init payload
              ≡ some init)
            × (session_keys d init ≡ ok keys)
            × ((handle_session_init d payload w).1.served
                ≡ w.served ++ (init.initiator.fingerprint, keys) ∷ [])
            × Admitted init)
  unfolding handle_session_init
  handle_session_init-Admitted payload w = elim (Option-cases (d.parse_init payload)) [
    | inl e ↦ rw e (inl refl)
    | inr (init, e) ↦ elim (check_trust-Opens init w) [
      | inl k ↦ rw e (inl k)
      | inr (inl k, a) ↦ rw e (inl k)
      | inr (inr (keys, derived, k), a) ↦ inr (init, keys, e, derived, (rw e k), a)
    ]
  ]
