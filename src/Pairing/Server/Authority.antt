-- ===== src/Pairing/Server/Authority.antt =====
-- Which pairing requests change the trust store.
use linkable.Prelude.{
  ℕ, ◌≡◌, refl, ap, subst, ◌∙◌, Bool, true, false, some, List, [], ◌∷◌, Bytes, ◌==◌, nat_eq,
  list_eq, nat_eqb, ==_iff, Bool-cases, Option-cases, ◌⊎◌, inl, inr,
}
use linkable.Prelude.Exec.{Exec, ◌>>=◌, bind_result-Post, Result-cases}
use linkable.Trust.{upsert, TrustStore}
use linkable.Pairing.Code.{pairing_code, transcript_hash}
use linkable.Pairing.Server.{
  Desktop, World, Envelope, PairingRequest, PairingConfirm, Reply, handle_pairing_request, material,
  record_of, send, receive, conclude, check_confirm, await_confirm, check_code, ask,
  descriptor_from_identity, is_blocked, upsert_trust, parts, split_dots,
}

abbrev Same : TrustStore → List Envelope → World → Type 0
Same t i w = (w.trust ≡ t) × (w.incoming ≡ i)

send-Same : (n : ℕ) (r : Reply) (w : World) → Same w.trust w.incoming (send n r w).1
unfolding send
send-Same n r w = go w.failures refl
  where
    go : (fs : List Bool) → w.failures ≡ fs → Same w.trust w.incoming (send n r w).1
    go [] e = rw e (refl, refl)
    go (false ∷ fs) e = rw e (refl, refl)
    go (true ∷ fs) e = rw e (refl, refl)

module _ (d : Desktop) where
  -- The phone's answer to the challenge: a confirmation that has the transcript's hash and a valid
  -- signature of it.
  pub record Confirmed (request : PairingRequest) (incoming : List Envelope) : Type 0 where
    pub envelope : Envelope
    pub rest : List Envelope
    pub confirmation : PairingConfirm
    pub arrived : incoming ≡ envelope ∷ rest
    pub is_confirm : envelope.packet_type ≡ d.confirm_type
    pub parsed : d.parse_confirm envelope.payload ≡ some confirmation
    pub same_hash : confirmation.transcript_hash ≡ transcript_hash d.hashes (material d request)
    pub signed :
        d.verify request.initiator.identity_public_key
          (transcript_hash d.hashes (material d request))
          confirmation.transcript_signature
        ≡ some true

  abbrev pub Kept : PairingRequest → TrustStore → TrustStore → Type 0
  Kept request before after =
      (after ≡ before) ⊎ (after ≡ upsert d.lower before (record_of d request))

  descriptor-Same : (w : World) → Same w.trust w.incoming (descriptor_from_identity d w).1
  unfolding descriptor_from_identity
  descriptor-Same w = elim (Result-cases (parts d.int (split_dots d.protocol_version))) [
    | inl (x, e) ↦ rw e (refl, refl)
    | inr (v, e) ↦ rw e (refl, refl)
  ]

  Same-trans :
      {t : TrustStore} {i : List Envelope} (u v : World)
      → Same t i u
      → Same u.trust u.incoming v
      → Same t i v
  Same-trans u v h g = (g.0 ∙ h.0, g.1 ∙ h.1)

  complete_with : Exec World (Unit {0})
  complete_with = descriptor_from_identity d >>= λ trusted_peer.
      send 7 (Reply.complete trusted_peer d.timestamp_ms)

  complete_with-trust : (w : World) → (complete_with w).1.trust ≡ w.trust
  unfolding complete_with
  complete_with-trust w =
      bind_result-Post (Same w.trust w.incoming) (λ v. v.trust ≡ w.trust) _
        (descriptor_from_identity d w) (descriptor-Same w) (λ v h. h.0)
        (λ a v h. (send-Same 7 _ v).0 ∙ h.0)

  conclude-Kept :
      (request : PairingRequest) (hash : Bytes) (w : World)
      → Kept request w.trust (conclude d request hash true w).1.trust
  unfolding conclude complete_with upsert_trust
  conclude-Kept request hash w =
      bind_result-Post I P _ (descriptor_from_identity d w) (descriptor-Same w) (λ v h. inl h.0)
        λ confirmer v h.
          bind_result-Post I P _ (send 6 (Reply.confirm confirmer hash (d.sign hash)) v)
            (Same-trans v (send 6 (Reply.confirm confirmer hash (d.sign hash)) v).1 h
              (send-Same 6 _ v))
            (λ u g. inl g.0)
            λ _ u g. inr (
              complete_with-trust (upsert_trust d.lower (record_of d request) u).1
              ∙ ap (λ t. upsert d.lower t (record_of d request)) g.0)
    where
      I : World → Type 0
      I = Same w.trust w.incoming

      P : World → Type 0
      P v = Kept request w.trust v.trust

  conclude_any-Kept :
      (request : PairingRequest) (hash : Bytes) (valid : Bool) (w : World)
      → ((conclude d request hash valid w).1.trust ≡ w.trust)
        ⊎ (((conclude d request hash valid w).1.trust
              ≡ upsert d.lower w.trust (record_of d request))
            × (valid ≡ true))
  unfolding conclude
  conclude_any-Kept request hash false w = inl (send-Same 5 _ w).0
  conclude_any-Kept request hash true w = elim (conclude-Kept request hash w) [
    | inl e ↦ inl e
    | inr e ↦ inr (e, refl)
  ]

  check_confirm-Kept :
      (request : PairingRequest) (c : PairingConfirm) (w : World)
      → ((check_confirm d request c w).1.trust ≡ w.trust)
        ⊎ (((check_confirm d request c w).1.trust ≡ upsert d.lower w.trust (record_of d request))
            × (c.transcript_hash ≡ transcript_hash d.hashes (material d request))
            × (d.verify request.initiator.identity_public_key
                  (transcript_hash d.hashes (material d request))
                  c.transcript_signature
                ≡ some true))
  unfolding check_confirm
  check_confirm-Kept request c w =
      let hash = transcript_hash d.hashes (material d request) in
      elim (Bool-cases (c.transcript_hash == hash)) [
        | inr other ↦ rw other (inl (send-Same 5 _ w).0)
        | inl same ↦
            elim (Option-cases
              (d.verify request.initiator.identity_public_key hash c.transcript_signature)) [
                | inl e ↦ rw (same, e) (inl refl)
                | inr (valid, e) ↦
                    rw (same, e)
                      (elim (conclude_any-Kept request hash valid w) [
                        | inl k ↦ inl k
                        | inr (k, v) ↦ inr (k, (==_iff c.transcript_hash hash).0 same, ap some v)
                      ])
              ]
      ]

  await_confirm-Kept :
      (request : PairingRequest) (w : World)
      → ((await_confirm d request w).1.trust ≡ w.trust)
        ⊎ (((await_confirm d request w).1.trust ≡ upsert d.lower w.trust (record_of d request))
            × Confirmed request w.incoming)
  unfolding await_confirm receive
  await_confirm-Kept request w = go w.incoming refl
    where
      after : List Envelope → World
      after es = record { incoming = es; sent = w.sent; failures = w.failures; trust = w.trust }

      go :
          (es : List Envelope)
          → w.incoming ≡ es
          → ((await_confirm d request w).1.trust ≡ w.trust)
            ⊎ (((await_confirm d request w).1.trust ≡ upsert d.lower w.trust (record_of d request))
                × Confirmed request w.incoming)
      go [] i = rw i (inl refl)
      go (e ∷ es) i = elim (Bool-cases (nat_eqb e.packet_type d.confirm_type)) [
        | inr other ↦ rw (i, other) (inl (send-Same 4 _ (after es)).0)
        | inl is_confirm ↦ elim (Option-cases (d.parse_confirm e.payload)) [
          | inl bad ↦ rw (i, is_confirm, bad) (inl refl)
          | inr (c, parsed) ↦
              rw (i, is_confirm, parsed)
                (elim (check_confirm-Kept request c (after es)) [
                  | inl k ↦ inl k
                  | inr (k, same, signed) ↦ inr (
                    k,
                    record {
                      envelope = e;
                      rest = es;
                      confirmation = c;
                      arrived = refl;
                      is_confirm = (==_iff e.packet_type d.confirm_type).0 is_confirm;
                      parsed = parsed;
                      same_hash = same;
                      signed = signed;
                    },
                  )
                ])
        ]
      ]

  -- What the user and the phone did for a request that made its phone trusted.
  pub record Authorised (request : PairingRequest) (incoming : List Envelope) : Type 0 where
    pub not_blocked : is_blocked d.allow_new_pairing ≡ false
    pub allowed : d.confirm_pairing ≡ true
    pub code_typed : d.prompt_code ≡ pairing_code d.hashes (material d request)
    pub confirmed : Confirmed request incoming

  check_code-Kept :
      (request : PairingRequest) (t : TrustStore) (i : List Envelope) (w : World)
      → Same t i w
      → ((check_code d request w).1.trust ≡ t)
        ⊎ (((check_code d request w).1.trust ≡ upsert d.lower t (record_of d request))
            × (d.prompt_code ≡ pairing_code d.hashes (material d request))
            × Confirmed request i)
  unfolding check_code
  check_code-Kept request t i w h =
      elim (Bool-cases (d.prompt_code == pairing_code d.hashes (material d request))) [
        | inr other ↦ rw other (inl ((send-Same 3 _ w).0 ∙ h.0))
        | inl typed ↦ rw typed (elim (await_confirm-Kept request w) [
          | inl k ↦ inl (k ∙ h.0)
          | inr (k, c) ↦ inr (
            k ∙ ap (λ t. upsert d.lower t (record_of d request)) h.0,
            (==_iff d.prompt_code (pairing_code d.hashes (material d request))).0 typed,
            subst (Confirmed request) h.1 c,
          )
        ])
      ]

  asked :
      (request : PairingRequest) (w : World)
      → ((ask d request true w).1.trust ≡ w.trust)
        ⊎ (((ask d request true w).1.trust ≡ upsert d.lower w.trust (record_of d request))
            × (d.prompt_code ≡ pairing_code d.hashes (material d request))
            × Confirmed request w.incoming)
  unfolding ask
  asked request w =
      bind_result-Post I P _ (descriptor_from_identity d w) (descriptor-Same w) (λ v h. inl h.0)
        λ acceptor v h.
          bind_result-Post I P _ (send 2 (Reply.challenge acceptor d.token_bytes 6) v)
            (Same-trans v (send 2 (Reply.challenge acceptor d.token_bytes 6) v).1 h
              (send-Same 2 _ v))
            (λ u g. inl g.0) λ _ u g. check_code-Kept request w.trust w.incoming u g
    where
      I : World → Type 0
      I = Same w.trust w.incoming

      P : World → Type 0
      P v =
          (v.trust ≡ w.trust)
          ⊎ ((v.trust ≡ upsert d.lower w.trust (record_of d request))
              × (d.prompt_code ≡ pairing_code d.hashes (material d request))
              × Confirmed request w.incoming)

  -- A pairing request leaves the trust store as it was, or adds the record of the phone that asked,
  -- and then pairing was open, the user agreed, typed the code derived from both keys and nonces,
  -- and the phone's next message was a confirmation with the transcript's hash and a signature of
  -- it that the phone's own key verifies. It holds whatever writes fail.
  pub handle_pairing_request-Authorised :
      (envelope : Envelope) (w : World)
      → ((handle_pairing_request d envelope w).1.trust ≡ w.trust)
        ⊎ ((request : PairingRequest) × (d.parse_request envelope.payload ≡ some request)
            × ((handle_pairing_request d envelope w).1.trust
                ≡ upsert d.lower w.trust (record_of d request))
            × Authorised request w.incoming)
  unfolding handle_pairing_request ask
  handle_pairing_request-Authorised envelope w =
      elim (Option-cases (d.parse_request envelope.payload)) [
        | inl bad ↦ rw bad (inl refl)
        | inr (request, parsed) ↦ elim (Bool-cases (is_blocked d.allow_new_pairing)) [
          | inl blocked ↦ rw (parsed, blocked) (inl (send-Same 2 _ w).0)
          | inr not_blocked ↦ elim (Bool-cases d.confirm_pairing) [
            | inr declined ↦ rw (parsed, not_blocked, declined) (inl (send-Same 2 _ w).0)
            | inl allowed ↦ elim (asked request w) [
              | inl k ↦ rw (parsed, not_blocked, allowed) (inl k)
              | inr (k, typed, c) ↦ inr (
                request,
                parsed,
                rw (parsed, not_blocked, allowed) k,
                record {
                  not_blocked = not_blocked;
                  allowed = allowed;
                  code_typed = typed;
                  confirmed = c;
                },
              )
            ]
          ]
        ]
      ]
