-- ===== src/Transfer/Names/Free.antt =====
-- The loop of `_unique_path`: it ends, and it finds a path that does not exist yet.
use linkable.Prelude.{
  ℕ, zero, suc, ◌+◌, ◌≤◌, ◌<◌, ◌≡◌, ◌≢◌, refl, sym, ap, ◌∙◌, false, ◌||◌, none, List, [], ◌∷◌, ◌++◌,
  Text, codes, length, ◌==◌, nat_eq, list_eq, arith, append_cancel, length-append, All,
  Option-cases, Bool-cases, inl, inr, list_beq, ==_iff,
}
use linkable.Prelude.Dict.{get, remove, get-remove, length-remove-lt}
use linkable.Prelude.Decimal.{to_text, to_text_injective, IsDigit, to_text-All}
use linkable.Prelude.Exec.{Result-cases, ok}
use linkable.Transfer.Paths.{FilePath, FileSystem, has_slash, bad_name, name, with_name, exists}
use linkable.Transfer.Names.{Platform, candidate_name, next_free, unique_path}

-- Every slash of a concatenation is in one of its parts.
pub has_slash-append : (a b : Text) → has_slash (a ++ b) ≡ (has_slash a || has_slash b)
unfolding has_slash
has_slash-append [] b = refl
has_slash-append (c ∷ cs) b = ground (arith, has_slash-append cs b)

no_slash_between :
    (s d t : Text)
    → (has_slash s || has_slash t) ≡ false
    → has_slash d ≡ false
    → has_slash (s ++ b'-' ∷ (d ++ t)) ≡ false
unfolding has_slash
no_slash_between s d t h k = rw (has_slash-append s (b'-' ∷ (d ++ t)), has_slash-append d t, k) h

-- A text with a dash and something before or after it is neither empty nor ".".
pub dashed_not_dot : (s t : Text) → ((s ++ b'-' ∷ t == []) || (s ++ b'-' ∷ t == codes ".")) ≡ false
unfolding list_beq
dashed_not_dot [] t = refl
dashed_not_dot (c ∷ []) t = ground arith
dashed_not_dot (c ∷ d ∷ s) t = ground arith

digits_no_slash : (t : Text) → All IsDigit t → has_slash t ≡ false
unfolding has_slash
digits_no_slash [] h = refl
digits_no_slash (c ∷ t) h = ground (arith, digits_no_slash t h.1)

module _ {A : Type 0} where
  -- What is put after a text can be taken off again.
  pub append_cancel_right : (xs ys t : List A) → length xs ≡ length ys → xs ++ t ≡ ys ++ t → xs ≡ ys
  append_cancel_right xs ys t h e = (append_cancel xs t ys t h e).0

module _ (p : Platform) where
  open p use {stem, suffix, stem-suffix}

  next_free-free :
      (f : ℕ) (fs : FileSystem) (path : FilePath) (index : ℕ) (found : FilePath)
      → next_free p f fs path index ≡ ok found
      → exists fs found ≡ false
  unfolding next_free
  next_free-free zero fs path index found h = cc
  next_free-free (suc f) fs path index found h =
      ground (arith, next_free-free f fs path (index + 1) found)

  -- What the loop finds is next to the path that was asked for, under its name with an index put in.
  pub next_free-candidate :
      (f : ℕ) (fs : FileSystem) (path : FilePath) (index : ℕ) (found : FilePath)
      → next_free p f fs path index ≡ ok found
      → (i : ℕ) × (with_name path (candidate_name p path i) ≡ ok found)
  unfolding next_free
  next_free-candidate zero fs path index found h = cc
  next_free-candidate (suc f) fs path index found h =
      elim (Result-cases (with_name path (candidate_name p path index))) [
        | inl (x, e) ↦ absurd (cc (rw (e, next_free) at h))
        | inr (c, e) ↦ elim (Bool-cases (exists fs c)) [
          | inl taken ↦
              next_free-candidate f fs path (index + 1) found (rw (e, taken, next_free) at h)
          | inr free ↦ (index, e ∙ (rw (e, free, next_free) at h))
        ]
      ]

  -- A path that `_unique_path` returns does not exist.
  pub unique_path-free :
      (fs : FileSystem) (path found : FilePath)
      → unique_path p fs path ≡ ok found
      → exists fs found ≡ false
  unfolding unique_path
  unique_path-free fs path found h =
      ground (arith, next_free-free (suc (length fs)) fs path 1 found)

  abbrev candidate : Text → List Text → ℕ → FilePath
  candidate n parents i = candidate_name p (n ∷ parents) i ∷ parents

  candidate_injective :
      (n : Text) (parents : List Text) (i j : ℕ)
      → candidate n parents i ≡ candidate n parents j
      → i ≡ j
  unfolding candidate_name name
  candidate_injective n parents i j e =
      let s = stem n in
      let same : s ++ b'-' ∷ (to_text i ++ suffix n) ≡ s ++ b'-' ∷ (to_text j ++ suffix n) = cc in
      let rest : to_text i ++ suffix n ≡ to_text j ++ suffix n =
        cc ((append_cancel s _ s _ refl same).1) in
      to_text_injective i j (
        append_cancel_right (to_text i) (to_text j) (suffix n)
          (omega (
            arith,
            ap length rest,
            length-append (to_text i) (suffix n),
            length-append (to_text j) (suffix n),
          ))
          rest)

  candidate-valid :
      (n : Text) (parents : List Text) (i : ℕ)
      → has_slash n ≡ false
      → with_name (n ∷ parents) (candidate_name p (n ∷ parents) i) ≡ ok (candidate n parents i)
  unfolding with_name bad_name candidate_name name
  candidate-valid n parents i h = rw valid
    where
      s : Text
      s = stem n

      t : Text
      t = suffix n

      no_slash : (has_slash s || has_slash t) ≡ false
      no_slash = sym (has_slash-append s t) ∙ ap has_slash (stem-suffix n) ∙ h

      inner : has_slash (s ++ b'-' ∷ (to_text i ++ t)) ≡ false
      inner =
          no_slash_between s (to_text i) t no_slash (digits_no_slash (to_text i) (to_text-All i))

      valid :
          (s ++ b'-' ∷ (to_text i ++ t) == []
            || s ++ b'-' ∷ (to_text i ++ t) == codes "."
            || has_slash (s ++ b'-' ∷ (to_text i ++ t)))
          ≡ false
      valid = ground (arith, dashed_not_dot s (to_text i ++ t), inner)

  -- `left` still holds every entry that a later candidate could meet.
  next_free-ends :
      (f : ℕ) (fs : FileSystem) (n : Text) (parents : List Text) (index : ℕ) (left : FileSystem)
      → has_slash n ≡ false
      → length left < f
      → ((j : ℕ)
          → index ≤ j
          → get fs (candidate n parents j) ≢ none
          → get left (candidate n parents j) ≢ none)
      → (found : FilePath) × (next_free p f fs (n ∷ parents) index ≡ ok found)
  unfolding next_free exists
  next_free-ends zero fs n parents index left hs hl keep = absurd (omega arith)
  next_free-ends (suc f) fs n parents index left hs hl keep =
      let c = candidate n parents index in
      elim (Option-cases (get fs c)) [
        | inl free ↦ (c, rw (candidate-valid n parents index hs, free, next_free, exists) refl)
        | inr (node, taken) ↦
            let there : get left c ≢ none = keep index (omega arith) (λ e. cc) in
            let (found, e) =
              next_free-ends f fs n parents (index + 1) (remove left c) hs
                (omega (arith, length-remove-lt left c there))
                (λ j hj held gone. keep j (omega arith) held (keep_other j hj gone)) in
            (found, rw (candidate-valid n parents index hs, taken, next_free, exists) e)
      ]
    where
      keep_other :
          (j : ℕ)
          → index + 1 ≤ j
          → get (remove left (candidate n parents index)) (candidate n parents j) ≡ none
          → get left (candidate n parents j) ≡ none
      keep_other j hj gone = ground (
        arith,
        get-remove left (candidate n parents index) (candidate n parents j),
        ==_iff (candidate n parents index) (candidate n parents j),
        candidate_injective n parents index j,
      )

  -- For every file system and every path whose name has no slash, the search for a free path ends
  -- with a path.
  pub unique_path-ends :
      (fs : FileSystem) (n : Text) (parents : List Text)
      → has_slash n ≡ false
      → (found : FilePath) × (unique_path p fs (n ∷ parents) ≡ ok found)
  unfolding unique_path
  unique_path-ends fs n parents h = elim (Bool-cases (exists fs (n ∷ parents))) [
    | inl taken ↦
        rw taken
          (next_free-ends (suc (length fs)) fs n parents 1 fs h (omega arith) (λ j _ held. held))
    | inr free ↦ (n ∷ parents, rw free)
  ]
