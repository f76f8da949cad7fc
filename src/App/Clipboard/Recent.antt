-- ===== src/App/Clipboard/Recent.antt =====
-- The clipboard as the list of its recent updates.
use linkable.Prelude.{
  ltb_false→le, suc, ◌≤◌, ◌≡◌, refl, sym, ap, ◌∙◌, Bool, false, ◌||◌, none, some, List, [], ◌∷◌,
  ◌++◌, Text, if◌then◌else◌, ◌==◌, ==_iff, ==_refl, nat_eq, list_eq, ltb, length, arith, Bool-cases,
  Option-cases, inl, inr,
}
use mathlib.Core.List.{reverse, reverse-cons}
use linkable.Prelude.Dict.{Dict, get-put, get-remove}
use linkable.Prelude.Dict
use linkable.Prelude.Members.{is_in, add, discard, is_in-append, is_in-discard_head, is_in-last}
use linkable.App.Clipboard.{
  ClipboardUpdate, Clipboard, empty, has_update, fingerprint, key, trim, append,
  record_clipboard_update, found, clipboard_updates,
}
pub mod View

||-eq-false : (a b : Bool) → (a || b) ≡ false → (a ≡ false) × (b ≡ false)
||-eq-false a b h = ground arith

module _ (digest : Text → Text) where
  -- The specification: at most thirty updates, the oldest first.
  abbrev pub same_as : ClipboardUpdate → List ClipboardUpdate → Bool
  same_as u [] = false
  same_as u (v ∷ vs) =
      key digest u == key digest v || fingerprint digest u == fingerprint digest v || same_as u vs

  abbrev pub last_thirty : List ClipboardUpdate → List ClipboardUpdate
  last_thirty [] = []
  last_thirty (v ∷ vs) = if ltb 30 (length (v ∷ vs)) then last_thirty vs else v ∷ vs

  abbrev pub remember : List ClipboardUpdate → ClipboardUpdate → List ClipboardUpdate
  remember vs u =
      if u.text == [] then vs else if same_as u vs then vs else last_thirty (vs ++ u ∷ [])

  -- The state that stands for a list of updates.
  abbrev pub pairs : List ClipboardUpdate → Dict Text ClipboardUpdate
  pairs [] = []
  pairs (v ∷ vs) = (key digest v, v) ∷ pairs vs

  abbrev pub keys : List ClipboardUpdate → List Text
  keys [] = []
  keys (v ∷ vs) = key digest v ∷ keys vs

  abbrev prints : List ClipboardUpdate → List Text
  prints [] = []
  prints (v ∷ vs) = fingerprint digest v ∷ prints vs

  abbrev pub Distinct : List ClipboardUpdate → Type 0
  Distinct [] = Unit
  Distinct (v ∷ vs) =
      (is_in (key digest v) (keys vs) ≡ false)
      × (is_in (fingerprint digest v) (prints vs) ≡ false)
      × Distinct vs

  pub record Holds (s : Clipboard) (vs : List ClipboardUpdate) : Type 0 where
    pub stored : s.updates ≡ pairs vs
    pub ordered : s.update_order ≡ keys vs
    pub marked : (f : Text) → is_in f s.fingerprints ≡ is_in f (prints vs)
    pub distinct : Distinct vs

  pub empty-Holds : Holds empty []
  empty-Holds = record { stored = refl; ordered = refl; marked = λ f. refl; distinct = tt }

  has_update-pairs :
      (vs : List ClipboardUpdate) (k : Text) → has_update (pairs vs) k ≡ is_in k (keys vs)
  unfolding has_update Dict.get is_in
  has_update-pairs [] k = refl
  has_update-pairs (v ∷ vs) k =
      ground (arith, has_update-pairs vs k, ==_iff (key digest v) k, ==_iff k (key digest v))

  same_as_lem :
      (u : ClipboardUpdate) (vs : List ClipboardUpdate)
      → same_as u vs ≡ (is_in (key digest u) (keys vs) || is_in (fingerprint digest u) (prints vs))
  unfolding is_in
  same_as_lem u [] = refl
  same_as_lem u (v ∷ vs) = ground (arith, same_as_lem u vs)

  get-pairs :
      (vs : List ClipboardUpdate) (k : Text)
      → is_in k (keys vs) ≡ false
      → Dict.get (pairs vs) k ≡ none
  unfolding Dict.get is_in
  get-pairs [] k h = refl
  get-pairs (v ∷ vs) k h =
      ground (arith, get-pairs vs k, ==_iff (key digest v) k, ==_iff k (key digest v))

  put-pairs :
      (vs : List ClipboardUpdate) (u : ClipboardUpdate)
      → is_in (key digest u) (keys vs) ≡ false
      → Dict.put (pairs vs) (key digest u) u ≡ pairs (vs ++ u ∷ [])
  unfolding Dict.put is_in
  put-pairs [] u h = refl
  put-pairs (v ∷ vs) u h = ground (
    arith,
    put-pairs vs u,
    ==_iff (key digest v) (key digest u),
    ==_iff (key digest u) (key digest v),
  )

  remove-pairs :
      (vs : List ClipboardUpdate) (k : Text)
      → is_in k (keys vs) ≡ false
      → Dict.remove (pairs vs) k ≡ pairs vs
  unfolding Dict.remove is_in
  remove-pairs [] k h = refl
  remove-pairs (v ∷ vs) k h =
      ground (arith, remove-pairs vs k, ==_iff (key digest v) k, ==_iff k (key digest v))

  length-keys : (vs : List ClipboardUpdate) → length (keys vs) ≡ length vs
  length-keys [] = refl
  length-keys (v ∷ vs) = ap suc (length-keys vs)

  trim-Holds :
      (vs : List ClipboardUpdate) (marks : List Text)
      → ((f : Text) → is_in f marks ≡ is_in f (prints vs))
      → Distinct vs
      → Holds (trim digest (keys vs) (pairs vs) marks) (last_thirty vs)
  unfolding trim
  trim-Holds [] marks m d = record { stored = refl; ordered = refl; marked = m; distinct = tt }
  trim-Holds (v ∷ vs) marks m d = elim (Bool-cases (ltb 30 (length (v ∷ vs)))) [
    | inr few ↦
        rw (length-keys vs, few)
          (record { stored = refl; ordered = refl; marked = m; distinct = d })
    | inl many ↦
        rw (length-keys vs, many, first, rest)
          (trim-Holds vs (discard marks (fingerprint digest v)) unmarked d.2)
  ]
    where
      first : Dict.get (pairs (v ∷ vs)) (key digest v) ≡ some v
      first = unfold Dict.get in rw (==_refl (key digest v)) refl

      rest : Dict.remove (pairs (v ∷ vs)) (key digest v) ≡ pairs vs
      rest = unfold Dict.remove in rw (==_refl (key digest v)) (remove-pairs vs (key digest v) d.0)

      unmarked : (f : Text) → is_in f (discard marks (fingerprint digest v)) ≡ is_in f (prints vs)
      unmarked f = is_in-discard_head marks (prints vs) (fingerprint digest v) f (m f) d.1

  keys-append :
      (vs : List ClipboardUpdate) (u : ClipboardUpdate)
      → keys (vs ++ u ∷ []) ≡ keys vs ++ key digest u ∷ []
  keys-append [] u = refl
  keys-append (v ∷ vs) u = ap (◌∷◌ (key digest v)) (keys-append vs u)

  prints-append :
      (vs : List ClipboardUpdate) (u : ClipboardUpdate)
      → prints (vs ++ u ∷ []) ≡ prints vs ++ fingerprint digest u ∷ []
  prints-append [] u = refl
  prints-append (v ∷ vs) u = ap (◌∷◌ (fingerprint digest v)) (prints-append vs u)

  append-Distinct :
      (vs : List ClipboardUpdate) (u : ClipboardUpdate)
      → is_in (key digest u) (keys vs) ≡ false
      → is_in (fingerprint digest u) (prints vs) ≡ false
      → Distinct vs
      → Distinct (vs ++ u ∷ [])
  unfolding is_in
  append-Distinct [] u k f d = (refl, refl, tt)
  append-Distinct (v ∷ vs) u k f d = (
    rw (keys-append vs u) (is_in-last (keys vs) (key digest v) (key digest u) k d.0),
    rw (prints-append vs u)
        (is_in-last (prints vs) (fingerprint digest v) (fingerprint digest u) f d.1),
    append-Distinct vs u (ground arith) (ground arith) d.2,
  )

  marks_with :
      (vs : List ClipboardUpdate) (u : ClipboardUpdate) (marks : List Text) (f : Text)
      → is_in f marks ≡ is_in f (prints vs)
      → is_in f (add marks (fingerprint digest u)) ≡ is_in f (prints (vs ++ u ∷ []))
  unfolding is_in add
  marks_with vs u marks f m =
      rw (prints-append vs u)
        (ground (arith, is_in-append (prints vs) (fingerprint digest u ∷ []) f, m))

  append-Holds :
      (s : Clipboard) (vs : List ClipboardUpdate) (u : ClipboardUpdate)
      → Holds s vs
      → is_in (key digest u) (keys vs) ≡ false
      → is_in (fingerprint digest u) (prints vs) ≡ false
      → Holds (append digest s u) (last_thirty (vs ++ u ∷ []))
  unfolding append
  append-Holds s vs u h k f =
      rw (h.ordered, h.stored, ← keys-append vs u, put-pairs vs u k)
        (trim-Holds (vs ++ u ∷ []) (add s.fingerprints (fingerprint digest u))
          (λ g. marks_with vs u s.fingerprints g (h.marked g))
          (append-Distinct vs u k f h.distinct))

  -- Recording an update keeps the state that of a list, and does to the list what `remember` does:
  -- an empty text and an update that is there already change nothing, and of more than thirty
  -- updates the oldest go.
  pub record_clipboard_update-Holds :
      (s : Clipboard) (vs : List ClipboardUpdate) (u : ClipboardUpdate)
      → Holds s vs
      → Holds (record_clipboard_update digest s u) (remember vs u)
  unfolding record_clipboard_update
  record_clipboard_update-Holds s vs u h = elim (Bool-cases (u.text == [])) [
    | inl blank ↦ rw blank h
    | inr text ↦ elim (Bool-cases (same_as u vs)) [
      | inl old ↦ rw (text, known, old) h
      | inr new ↦ let (k, f) = apart new in rw (text, known, new) (append-Holds s vs u h k f)
    ]
  ]
    where
      known :
          (has_update s.updates (key digest u) || is_in (fingerprint digest u) s.fingerprints)
          ≡ same_as u vs
      known =
          rw (h.stored, has_update-pairs vs (key digest u), h.marked (fingerprint digest u))
            (sym (same_as_lem u vs))

      apart :
          same_as u vs ≡ false
          → (is_in (key digest u) (keys vs) ≡ false)
            × (is_in (fingerprint digest u) (prints vs) ≡ false)
      apart new = ||-eq-false _ _ (sym (same_as_lem u vs) ∙ new)
