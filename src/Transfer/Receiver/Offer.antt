-- ===== src/Transfer/Receiver/Offer.antt =====
-- What an accepted offer has done.
use linkable.Prelude.{◌≡◌, refl, sym, ap, true, some, nat_eq, list_eq, inl, inr}
use linkable.Prelude.Dict.{put}
use linkable.Prelude.Exec.{Result-cases, ok}
use linkable.Transfer.{FileOffer}
use linkable.Transfer.Paths.{FilePath, name, with_name, join, exists}
use linkable.Transfer.Names.{Platform, safe_file_name, unique_path}
use linkable.Transfer.Receiver.{
  FileReceiver, ActiveReceive, FileTransferResult, accepted, unlink_if, part_name, about,
  handle_offer,
}

module _ (p : Platform) where
  -- The path under which an offer asks to be saved.
  abbrev pub wanted : FileReceiver → FileOffer → FilePath
  wanted s offer = join s.download_dir (safe_file_name p offer.file_name)

  abbrev pub entry_of : FileOffer → FilePath → FilePath → ActiveReceive
  entry_of offer temp final = record {
    offer = offer;
    temp_path = temp;
    final_path = final;
    bytes_received = 0;
  }

  pub record Accepted (s : FileReceiver) (offer : FileOffer) (temp final : FilePath) : Type 0 where
    pub found : unique_path p s.files (wanted s offer) ≡ ok final
    pub part : with_name final (part_name (name final) offer.transfer_id) ≡ ok temp
    pub cleared : (unlink_if (exists s.files temp) temp s.files).0 ≡ ok tt
    pub after : handle_offer p offer s ≡ (
      ok (about offer.transfer_id (entry_of offer temp final) true (accepted offer.file_name)),
      record s {
        files = (unlink_if (exists s.files temp) temp s.files).1;
        active = put s.active offer.transfer_id (entry_of offer temp final);
      },
    )

  pub handle_offer-Accepted :
      (s : FileReceiver) (offer : FileOffer) (reply : FileTransferResult)
      → (handle_offer p offer s).0 ≡ ok reply
      → (temp : FilePath) × (final : FilePath) × Accepted s offer temp final
  unfolding handle_offer
  handle_offer-Accepted s offer reply h =
      elim (Result-cases (unique_path p s.files (wanted s offer))) [
        | inl (x, e) ↦ absurd (cc (rw (e, handle_offer) at h))
        | inr (final, e) ↦
            elim (Result-cases (with_name final (part_name (name final) offer.transfer_id))) [
              | inl (x, f) ↦ absurd (cc (rw (e, f, handle_offer) at h))
              | inr (temp, f) ↦
                  elim (Result-cases (unlink_if (exists s.files temp) temp s.files).0) [
                    | inl (x, g) ↦ absurd (cc (rw (e, f, g, handle_offer) at h))
                    | inr (_, g) ↦ (
                      temp,
                      final,
                      record {
                        found = e;
                        part = f;
                        cleared = g;
                        after = rw (e, f, g, handle_offer) refl;
                      },
                    )
                  ]
            ]
      ]

  pub reply-eq :
      (s : FileReceiver) (offer : FileOffer) (reply : FileTransferResult) (temp final : FilePath)
      → Accepted s offer temp final
      → (handle_offer p offer s).0 ≡ ok reply
      → about offer.transfer_id (entry_of offer temp final) true (accepted offer.file_name) ≡ reply
  reply-eq s offer reply temp final a h = cc (ap (λ x. x.0) a.after)

  pub saved_path-reply :
      (s : FileReceiver) (offer : FileOffer) (reply : FileTransferResult) (temp final : FilePath)
      → Accepted s offer temp final
      → (handle_offer p offer s).0 ≡ ok reply
      → reply.saved_path ≡ some final
  unfolding about
  saved_path-reply s offer reply temp final a h =
      ap (λ x. x.saved_path) (sym (reply-eq s offer reply temp final a h))
