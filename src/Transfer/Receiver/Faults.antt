-- ===== src/Transfer/Receiver/Faults.antt =====
-- Transfers that go wrong: a chunk at another offset, an empty file, and two offers of one name.
use linkable.Prelude.{
  ◌≡◌, ◌≢◌, refl, sym, ap, ◌∙◌, false, none, some, Text, Bytes, nat_eqb, nat_eq, list_eq,
  Option-cases, Option, if◌then◌else◌, ◌==◌, inl, inr, arith, ==_iff,
}
use linkable.Prelude.Dict.{get, remove, get-put, get-put_self, get-remove, get-remove_self}
use linkable.Prelude.Exec.{ok, err, file_not_found_error}
use linkable.Transfer.{FileOffer, FileChunk, FileComplete}
use linkable.Transfer.Paths.{FilePath, FileSystem, file, dir, unlink, read_file, exists}
use linkable.Transfer.Names.{Platform, unique_path}
use linkable.Transfer.Names.Free.{unique_path-free}
use linkable.Transfer.Receiver.{
  FileReceiver, ActiveReceive, FileTransferResult, unexpected_offset, about, unknown, handle_offer,
  handle_chunk, handle_complete,
}
use linkable.Transfer.Receiver.Offer.{entry_of, handle_offer-Accepted, saved_path-reply, wanted}
use linkable.Transfer.Receiver.Parts.{unlink_if-none}

unlink-plain :
    (fs : FileSystem) (q : FilePath)
    → get fs q ≢ some dir
    → (fs' : FileSystem) × (unlink q fs ≡ (ok tt, fs'))
      × (get fs' q ≡ none)
      × ((r : FilePath) → r ≢ q → get fs' r ≡ get fs r)
unfolding unlink
unlink-plain fs q plain = elim (Option-cases (get fs q)) [
  | inl e ↦ (fs, rw (e, unlink) refl, e, λ r _. refl)
  | inr (dir, e) ↦ absurd (plain e)
  | inr (file content, e) ↦ (
    remove fs q,
    rw (e, unlink) refl,
    get-remove_self fs q,
    λ r ne. ground (arith, get-remove fs q r, ==_iff q r, ne),
  )
]

-- If a chunk of an active transfer comes at another offset than the bytes received, and the part
-- file's path is not a directory, then the reply is a failure with both numbers, the part file is
-- gone, any other file is as before, and a later chunk of that transfer is refused as unknown and
-- changes nothing.
pub chunk_at_wrong_offset :
    (s : FileReceiver) (entry : ActiveReceive) (chunk later : FileChunk) (other : FilePath)
    → get s.active chunk.transfer_id ≡ some entry
    → chunk.offset ≢ entry.bytes_received
    → get s.files entry.temp_path ≢ some dir
    → later.transfer_id ≡ chunk.transfer_id
    → other ≢ entry.temp_path
    → let out = handle_chunk chunk s in
      (out.0
        ≡ ok (
            some (
              about chunk.transfer_id entry false
                (unexpected_offset chunk.offset entry.bytes_received))))
      × (get out.1.files entry.temp_path ≡ none)
      × (get out.1.files other ≡ get s.files other)
      × (handle_chunk later out.1 ≡ (ok (some (unknown later.transfer_id)), out.1))
unfolding handle_chunk
chunk_at_wrong_offset s entry chunk later other listed off plain same ne =
    let (fs', e, gone, rest) = unlink-plain s.files entry.temp_path plain in
    let moved : nat_eqb chunk.offset entry.bytes_received ≡ false = ground arith in
    let s' : FileReceiver = record s { files = fs'; active = remove s.active chunk.transfer_id } in
    let run : handle_chunk chunk s ≡ (
      ok (
          some (
            about chunk.transfer_id entry false
              (unexpected_offset chunk.offset entry.bytes_received))),
      s',
    ) =
      rw (listed, handle_chunk) (rw (moved, e) refl) in
    let closed : get s'.active later.transfer_id ≡ none =
      ap (get s'.active) same ∙ get-remove_self s.active chunk.transfer_id in
    rw run (refl, gone, rest other ne, rw (closed, handle_chunk) refl)

skipped :
    (k j : Text) (e : ActiveReceive) (o : Option ActiveReceive)
    → k ≢ j
    → (if k == j then some e else o) ≡ o
skipped k j e o ne = ground (arith, ==_iff k j, ne)

module _ (p : Platform) (sha256 : Bytes → Text) where
  -- If an offer of a file of no bytes is accepted, then the completion that comes next for that
  -- transfer raises `FileNotFoundError`.
  pub empty_file_raises :
      (s : FileReceiver) (offer : FileOffer) (reply : FileTransferResult) (complete : FileComplete)
      → offer.size_bytes ≡ 0
      → (handle_offer p offer s).0 ≡ ok reply
      → complete.transfer_id ≡ offer.transfer_id
      → (handle_complete p sha256 complete (handle_offer p offer s).1).0 ≡ err file_not_found_error
  unfolding handle_complete read_file
  empty_file_raises s offer reply complete empty h same =
      let (temp, final, a) = handle_offer-Accepted p s offer reply h in
      rw
        (
          ap (λ x. x.1) a.after,
          same,
          get-put_self s.active offer.transfer_id (entry_of p offer temp final),
          empty,
          unlink_if-none s.files temp a.cleared,
          read_file,
        )
        refl

  -- If two offers of one file name, under different identifiers, are accepted one after the other,
  -- and the first changed no file, then one path that does not exist is promised to both, and both
  -- transfers are open with it as their target.
  pub same_path_twice :
      (s : FileReceiver) (first second : FileOffer) (reply reply' : FileTransferResult)
      → first.file_name ≡ second.file_name
      → first.transfer_id ≢ second.transfer_id
      → (handle_offer p first s).0 ≡ ok reply
      → (handle_offer p first s).1.files ≡ s.files
      → (handle_offer p second (handle_offer p first s).1).0 ≡ ok reply'
      → let active = (handle_offer p second (handle_offer p first s).1).1.active in
        (path : FilePath) × (exists s.files path ≡ false)
        × (reply.saved_path ≡ some path)
        × (reply'.saved_path ≡ some path)
        × ((temp : FilePath) × (get active first.transfer_id ≡ some (entry_of p first temp path)))
        × ((temp : FilePath) × (get active second.transfer_id ≡ some (entry_of p second temp path)))
  same_path_twice s first second reply reply' name apart h quiet h' =
      let (temp, final, a) = handle_offer-Accepted p s first reply h in
      let s₁ = (handle_offer p first s).1 in
      let (temp', final', a') = handle_offer-Accepted p s₁ second reply' h' in
      let home : s₁.download_dir ≡ s.download_dir = ap (λ x. x.1.download_dir) a.after in
      let asked : unique_path p s₁.files (wanted p s₁ second)
          ≡ unique_path p s.files (wanted p s first) =
        cc in
      let one : final' ≡ final = cc (a'.found, a.found, asked) in
      (
        final,
        unique_path-free p s.files _ final a.found,
        saved_path-reply p s first reply temp final a h,
        saved_path-reply p s₁ second reply' temp' final' a' h' ∙ ap some one,
        (
          temp,
          ap (λ x. get x.1.active first.transfer_id) a'.after
              ∙ get-put s₁.active second.transfer_id first.transfer_id
                  (entry_of p second temp' final')
              ∙ skipped second.transfer_id first.transfer_id (entry_of p second temp' final')
                  (get s₁.active first.transfer_id) (λ e. apart (sym e))
              ∙ ap (λ x. get x.1.active first.transfer_id) a.after
              ∙ get-put_self s.active first.transfer_id (entry_of p first temp final),
        ),
        (
          temp',
          ap (λ x. get x.1.active second.transfer_id) a'.after
              ∙ get-put_self s₁.active second.transfer_id (entry_of p second temp' final')
              ∙ ap (λ q. some (entry_of p second temp' q)) one,
        ),
      )
