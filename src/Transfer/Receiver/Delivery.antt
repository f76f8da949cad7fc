-- ===== src/Transfer/Receiver/Delivery.antt =====
-- From the sender's messages to the saved file.
use linkable.Prelude.{
  ℕ, suc, ◌<◌, ◌≡◌, refl, sym, ap, subst, ◌∙◌, true, false, Option, none, some, List, [], ◌∷◌, ◌++◌,
  Text, Bytes, length, nat_eqb, ◌==◌, nat_eq, list_eq, arith, length-append, append_assoc,
  append-nil, ==_refl,
}
use linkable.Prelude.Dict.{get, put, remove, get-put_self, get-remove_self}
use linkable.Prelude.Exec.{Result, ok, err, Exec, ◌>>=◌, pure, bind_result}
use linkable.Transfer.{FileOffer, FileChunk, FileComplete}
use linkable.Transfer.Paths.{FilePath, file, exists, read_file, replace}
use linkable.Transfer.Names.{Platform}
use linkable.Transfer.Names.Free.{unique_path-free}
use linkable.Transfer.Sender.{
  Message, offers, sends, completes, file_messages, chunk_messages, file_chunks,
}
use linkable.Transfer.Sender.Chunks.{Follow, contents, file_chunks-Follow}
use linkable.Transfer.Receiver.{
  FileReceiver, ActiveReceive, FileTransferResult, received, about, handle_offer, handle_chunk,
  handle_complete,
}
use linkable.Transfer.Receiver.Offer.{Accepted, entry_of, handle_offer-Accepted, saved_path-reply}
use linkable.Transfer.Receiver.Parts.{
  Progress, part_file-nonempty, with_chunk, handle_chunk-good, with_chunk-Progress, unlink_if-none,
  unlink_if-other, exists_false, with_name-ne,
}

-- What the server does with a file message: the results are those that it sends back.
abbrev some_result : FileTransferResult → List FileTransferResult
some_result x = x ∷ []

abbrev optional : Option FileTransferResult → List FileTransferResult
optional none = []
optional (some x) = x ∷ []

module _ (p : Platform) (sha256 : Bytes → Text) where
  -- The offer with which `send_file` begins.
  abbrev pub offer_of : Text → Text → Text → ℕ → Bytes → FileOffer
  offer_of id file_name mime_type size content = record {
    transfer_id = id;
    file_name = file_name;
    size_bytes = length content;
    sha256_hex = sha256 content;
    mime_type = mime_type;
    chunk_size = size;
  }

  unfoldable pub receive : Message → Exec FileReceiver (List FileTransferResult)
  receive (offers offer) = do result ← handle_offer p offer; pure (result ∷ [])
  receive (sends chunk) = do result ← handle_chunk chunk; pure (optional result)
  receive (completes complete) = do result ← handle_complete p sha256 complete; pure (result ∷ [])

  unfoldable pub receive_all : List Message → Exec FileReceiver (List FileTransferResult)
  receive_all [] s = (ok [], s)
  receive_all (m ∷ ms) s = (do xs ← receive m; ys ← receive_all ms; pure (xs ++ ys)) s

  bind_result-pure : {A : Type 0} (x : Result A × FileReceiver) → bind_result (λ a. pure a) x ≡ x
  bind_result-pure (ok a, s) = refl
  bind_result-pure (err y, s) = refl

  receive_chunks :
      (s : FileReceiver) (id : Text) (entry : ActiveReceive) (before : Bytes) (most : ℕ)
      (cs : List FileChunk) (ms : List Message)
      → Progress s id entry before
      → Follow id most (length before) cs
      → (s' : FileReceiver) × Progress s' id entry (before ++ contents cs)
        × (receive_all (chunk_messages cs ++ ms) s ≡ receive_all ms s')
  unfolding receive_all receive
  receive_chunks s id entry before most [] ms h f = (s, rw append-nil h, refl)
  receive_chunks s id entry before most (c ∷ cs) ms h (i, o, l, _, f) =
      let h' : Progress s c.transfer_id entry before =
        subst (λ x. Progress s x entry before) (sym i) h in
      let next : Progress (with_chunk s entry before c) id entry (before ++ c.content) =
        subst (λ x. Progress (with_chunk s entry before c) x entry (before ++ c.content)) i
          (with_chunk-Progress s entry before c h' l) in
      let (s', done, e) =
        receive_chunks (with_chunk s entry before c) id entry (before ++ c.content) most cs ms next
          (subst (λ n. Follow id most n cs) (sym (length-append before c.content)) f) in
      (
        s',
        subst (Progress s' id entry) (append_assoc before c.content (contents cs)) done,
        rw (handle_chunk-good s entry before c h'.listed h'.partial o) (
            bind_result-pure (receive_all (chunk_messages cs ++ ms) (with_chunk s entry before c))
            ∙ e),
      )

  handle_complete-good :
      (s : FileReceiver) (id : Text) (entry : ActiveReceive) (content : Bytes)
      → Progress s id entry content
      → 0 < length content
      → entry.offer.size_bytes ≡ length content
      → handle_complete p sha256 (record { transfer_id = id; sha256_hex = sha256 content }) s ≡ (
        ok (
            about id
              (record entry { bytes_received = length content })
              true
              (received entry.offer.file_name)),
        record s {
          files = put (remove s.files entry.temp_path) entry.final_path (file content);
          active = remove s.active id;
        },
      )
  unfolding handle_complete read_file replace
  handle_complete-good s id entry content h l size =
      let there : get s.files entry.temp_path ≡ some (file content) =
        h.partial ∙ part_file-nonempty content l in
      let counted : nat_eqb (length content) entry.offer.size_bytes ≡ true = ground arith in
      let hashed : (p.lower (sha256 content) == p.lower (sha256 content)) ≡ true =
        ==_refl (p.lower (sha256 content)) in
      rw (h.listed, counted, there, read_file) (rw (hashed, there, h.target, replace) refl)

  handle_offer-Progress :
      (s : FileReceiver) (offer : FileOffer) (temp final : FilePath)
      → Accepted p s offer temp final
      → Progress (handle_offer p offer s).1 offer.transfer_id (entry_of p offer temp final) []
  handle_offer-Progress s offer temp final a =
      subst (λ x. Progress x.1 offer.transfer_id (entry_of p offer temp final) []) (sym a.after)
        (record {
          listed = get-put_self s.active offer.transfer_id _;
          partial = unlink_if-none s.files temp a.cleared;
          target =
              unlink_if-other s.files temp final
                (exists_false s.files final (unique_path-free p s.files _ final a.found));
          apart = with_name-ne final offer.transfer_id temp a.part;
        })

  whole_run :
      (s s₁ s' s'' : FileReceiver) (offer : FileOffer) (cs : List FileChunk)
      (complete : FileComplete) (reply last : FileTransferResult)
      → handle_offer p offer s ≡ (ok reply, s₁)
      → receive_all (chunk_messages cs ++ completes complete ∷ []) s₁
        ≡ receive_all (completes complete ∷ []) s'
      → handle_complete p sha256 complete s' ≡ (ok last, s'')
      → receive_all (offers offer ∷ (chunk_messages cs ++ completes complete ∷ [])) s
        ≡ (ok (reply ∷ last ∷ []), s'')
  unfolding receive_all receive
  whole_run s s₁ s' s'' offer cs complete reply last first chunks end =
      rw first (rw chunks (rw end refl))

  -- If the receiver accepts the offer of a file with one byte at least, then the sender's messages
  -- for it, in chunks of any positive size, are answered twice: with the acceptance and with a
  -- success that names the promised path. That path did not exist before, has the whole file
  -- after, and the transfer is closed.
  pub send-receive :
      (s : FileReceiver) (id file_name mime_type : Text) (size : ℕ) (content : Bytes)
      (reply : FileTransferResult)
      → 0 < size
      → 0 < length content
      → (handle_offer p (offer_of id file_name mime_type size content) s).0 ≡ ok reply
      → let out =
          receive_all (file_messages id file_name mime_type (sha256 content) size content) s in
        (path : FilePath) × (last : FileTransferResult) × (reply.saved_path ≡ some path)
        × (exists s.files path ≡ false)
        × (out.0 ≡ ok (reply ∷ last ∷ []))
        × (last.success ≡ true)
        × (last.saved_path ≡ some path)
        × (get out.1.files path ≡ some (file content))
        × (get out.1.active id ≡ none)
  unfolding file_messages about
  send-receive s id file_name mime_type size content reply hs hl accepts =
      let offer = offer_of id file_name mime_type size content in
      let (temp, final, a) = handle_offer-Accepted p s offer reply accepts in
      let (chained, joined) =
        file_chunks-Follow (suc (length content)) id size 0 content (omega arith) hs in
      let cs = file_chunks (suc (length content)) id size 0 content in
      let entry = entry_of p offer temp final in
      let complete : FileComplete = record { transfer_id = id; sha256_hex = sha256 content } in
      let (s', came, e) =
        receive_chunks (handle_offer p offer s).1 id entry [] size cs (completes complete ∷ [])
          (handle_offer-Progress s offer temp final a) chained in
      let came' : Progress s' id entry content = subst (Progress s' id entry) joined came in
      let last =
        about id (record entry { bytes_received = length content }) true (received file_name) in
      let run =
        whole_run s (handle_offer p offer s).1 s' _ offer cs complete reply last
          (λ i. (accepts i, (handle_offer p offer s).1)) e
          (handle_complete-good s' id entry content came' hl refl) in
      (
        final,
        last,
        saved_path-reply p s offer reply temp final a accepts,
        unique_path-free p s.files _ final a.found,
        ap (λ x. x.0) run,
        refl,
        refl,
        ap (λ x. get x.1.files final) run
            ∙ get-put_self (remove s'.files temp) final (file content),
        ap (λ x. get x.1.active id) run ∙ get-remove_self s'.active id,
      )
