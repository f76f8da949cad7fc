-- ===== src/Transfer/Receiver/Inside.antt =====
-- Where received files are saved.
use linkable.Prelude.{
  ℕ, suc, ◌≡◌, ◌≢◌, refl, sym, ap, ◌∙◌, true, false, some, List, [], ◌∷◌, ◌++◌, Text, codes, length,
  nat_eqb, ◌==◌, nat_eq, list_eq, list_beq, ==_iff, Bool-cases, inl, inr, ◌⊎◌, arith,
}
use linkable.Prelude.Dict.{get}
use linkable.Prelude.Exec.{ok}
use linkable.Transfer.{FileOffer}
use linkable.Transfer.Paths.{
  FilePath, FileSystem, Node, dir, slash, has_slash, bad_name, name, with_name, join, exists,
}
use linkable.Transfer.Names.{
  Platform, safe_char, safe_chars, or_default, safe_file_name, candidate_name, unique_path, strip,
  path_name,
}
use linkable.Transfer.Names.Free.{next_free-candidate, unique_path-free}
use linkable.Transfer.Receiver.{FileReceiver, FileTransferResult, handle_offer}
use linkable.Transfer.Receiver.Offer.{handle_offer-Accepted, wanted, saved_path-reply}

module _ (p : Platform) where
  open p use {is_alnum, slash_not_alnum, stem, suffix}

  safe_char-ne-slash : (c : ℕ) → nat_eqb (safe_char p c) slash ≡ false
  unfolding safe_char
  safe_char-ne-slash c = elim (Bool-cases (nat_eqb c slash)) [
    | inl e ↦ let q : c ≡ slash = ground arith in rw (q, slash_not_alnum) refl
    | inr e ↦ ground arith
  ]

  safe_chars-no_slash : (t : Text) → has_slash (safe_chars p t) ≡ false
  unfolding safe_chars has_slash
  safe_chars-no_slash [] = refl
  safe_chars-no_slash (c ∷ t) = ground (arith, safe_char-ne-slash c, safe_chars-no_slash t)

  or_default-no_slash : (t : Text) → has_slash t ≡ false → has_slash (or_default p t) ≡ false
  unfolding or_default has_slash
  or_default-no_slash [] h = refl
  or_default-no_slash (c ∷ t) h = h

  or_default-nonempty : (t : Text) → (or_default p t == []) ≡ false
  unfolding or_default list_beq
  or_default-nonempty [] = refl
  or_default-nonempty (c ∷ t) = refl

  -- A saved name has no slash and is not empty, whatever the peer calls the file.
  pub safe_file_name-no_slash : (t : Text) → has_slash (safe_file_name p t) ≡ false
  unfolding safe_file_name
  safe_file_name-no_slash t = or_default-no_slash _ (safe_chars-no_slash (strip p (path_name t)))

  pub safe_file_name-nonempty : (t : Text) → (safe_file_name p t == []) ≡ false
  unfolding safe_file_name
  safe_file_name-nonempty t = or_default-nonempty (safe_chars p (strip p (path_name t)))

  -- A candidate's name is longer than "..": it has a dash.
  candidate-ne-dots : (path : FilePath) (i : ℕ) → candidate_name p path i ≢ codes ".."
  unfolding candidate_name
  candidate-ne-dots path i = dashed_ne_dots (stem (name path)) _
    where
      dashed_ne_dots : (a b : Text) → a ++ b'-' ∷ b ≢ codes ".."
      dashed_ne_dots [] b = λ e. ground arith
      dashed_ne_dots (c ∷ []) b = λ e. ground arith
      dashed_ne_dots (c ∷ d ∷ []) b = λ e. ground arith
      dashed_ne_dots (c ∷ d ∷ f ∷ a) b = λ e. ground arith

  with_name-eq-ok :
      (m n : Text) (parents : List Text) (q : FilePath)
      → with_name (m ∷ parents) n ≡ ok q
      → (q ≡ n ∷ parents) × (bad_name n ≡ false)
  unfolding with_name
  with_name-eq-ok m n parents q h = ground arith

  -- Where `unique_path` puts a file that is asked for under the name n.
  unique_path-place :
      (fs : FileSystem) (n : Text) (parents : List Text) (q : FilePath)
      → unique_path p fs (n ∷ parents) ≡ ok q
      → (m : Text) × (q ≡ m ∷ parents) × ((m ≡ n) ⊎ ((bad_name m ≡ false) × (m ≢ codes "..")))
  unfolding unique_path
  unique_path-place fs n parents q h = elim (Bool-cases (exists fs (n ∷ parents))) [
    | inl taken ↦
        let (i, e) =
          next_free-candidate p (suc (length fs)) fs (n ∷ parents) 1 q
            (rw (taken, unique_path) at h) in
        let (place, good) = with_name-eq-ok n (candidate_name p (n ∷ parents) i) parents q e in
        (candidate_name p (n ∷ parents) i, place, inr (good, candidate-ne-dots (n ∷ parents) i))
    | inr free ↦ (n, ground arith, inl refl)
  ]

  wanted_plain :
      (s : FileReceiver) (offer : FileOffer)
      → safe_file_name p offer.file_name ≢ codes "."
      → wanted p s offer ≡ safe_file_name p offer.file_name ∷ s.download_dir
  unfolding join
  wanted_plain s offer plain = ground (
    arith,
    safe_file_name-nonempty offer.file_name,
    ==_iff (safe_file_name p offer.file_name) (codes "."),
  )

  wanted_dot :
      (s : FileReceiver) (offer : FileOffer)
      → safe_file_name p offer.file_name ≡ codes "."
      → wanted p s offer ≡ s.download_dir
  unfolding join list_beq
  wanted_dot s offer dot = rw dot refl

  exists-eq : (fs : FileSystem) (q : FilePath) (n : Node) → get fs q ≡ some n → exists fs q ≡ true
  unfolding exists
  exists-eq fs q n h = rw (h, exists) refl

  taken_not_free :
      (fs : FileSystem) (q found : FilePath)
      → get fs q ≡ some dir
      → exists fs found ≡ false
      → found ≢ q
  taken_not_free fs q found h free e = cc (exists-eq fs q dir h, ap (exists fs) e)

  up_taken :
      (s : FileReceiver) (m : Text) (final q : FilePath)
      → unique_path p s.files q ≡ ok final
      → final ≡ m ∷ s.download_dir
      → get s.files (codes ".." ∷ s.download_dir) ≡ some dir
      → m ≢ codes ".."
  up_taken s m final q found place up dots =
      taken_not_free s.files (codes ".." ∷ s.download_dir) final up
        (unique_path-free p s.files q final found) (place ∙ ap (λ x. x ∷ s.download_dir) dots)

  plain_name :
      (s : FileReceiver) (offer : FileOffer)
      → safe_file_name p offer.file_name ≢ codes "."
      → bad_name (safe_file_name p offer.file_name) ≡ false
  unfolding bad_name
  plain_name s offer plain = ground (
    arith,
    safe_file_name-nonempty offer.file_name,
    safe_file_name-no_slash offer.file_name,
    ==_iff (safe_file_name p offer.file_name) (codes "."),
  )

  -- If an offer is accepted, its file name is not cleaned to "." and the entry ".." of the
  -- download directory is a directory, then the promised path is a name in the download directory,
  -- and that name has no slash and is neither empty nor "." nor "..".
  pub offer_inside :
      (s : FileReceiver) (offer : FileOffer) (reply : FileTransferResult)
      → safe_file_name p offer.file_name ≢ codes "."
      → get s.files (codes ".." ∷ s.download_dir) ≡ some dir
      → (handle_offer p offer s).0 ≡ ok reply
      → (m : Text) × (reply.saved_path ≡ some (m ∷ s.download_dir))
        × (bad_name m ≡ false)
        × (m ≢ codes "..")
  offer_inside s offer reply plain up h =
      let (temp, final, a) = handle_offer-Accepted p s offer reply h in
      let n = safe_file_name p offer.file_name in
      let there : wanted p s offer ≡ n ∷ s.download_dir = wanted_plain s offer plain in
      let (m, place, kind) =
        unique_path-place s.files n s.download_dir final (rw there at a.found) in
      let saved : reply.saved_path ≡ some (m ∷ s.download_dir) =
        saved_path-reply p s offer reply temp final a h ∙ ap some place in
      elim kind [
        | inl e ↦ (
          m,
          saved,
          rw e (plain_name s offer plain),
          λ dots. up_taken s m final _ (rw there at a.found) place up dots,
        )
        | inr (good, ne) ↦ (m, saved, good, ne)
      ]

  -- If the download directory exists, and an offer whose file name is cleaned to "." is accepted,
  -- then the promised path is not in the download directory: it is beside it, in its parent, under
  -- another name.
  pub offer_outside :
      (s : FileReceiver) (offer : FileOffer) (reply : FileTransferResult) (n : Text)
      (parents : List Text)
      → s.download_dir ≡ n ∷ parents
      → get s.files s.download_dir ≡ some dir
      → safe_file_name p offer.file_name ≡ codes "."
      → (handle_offer p offer s).0 ≡ ok reply
      → (m : Text) × (reply.saved_path ≡ some (m ∷ parents)) × (m ≢ n)
  offer_outside s offer reply n parents place made dot h =
      let (temp, final, a) = handle_offer-Accepted p s offer reply h in
      let found : unique_path p s.files (n ∷ parents) ≡ ok final =
        (rw (wanted_dot s offer dot, place) at a.found) in
      let (m, at, kind) = unique_path-place s.files n parents final found in
      (
        m,
        saved_path-reply p s offer reply temp final a h ∙ ap some at,
        λ same.
            taken_not_free s.files s.download_dir final made
              (unique_path-free p s.files (n ∷ parents) final found)
              (at ∙ ap (λ x. x ∷ parents) same ∙ sym place),
      )
