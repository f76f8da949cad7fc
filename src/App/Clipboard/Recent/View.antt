-- ===== src/App/Clipboard/Recent/View.antt =====
-- What the windows show of the clipboard after any updates.
use linkable.Prelude.{
  ltb_false→le, ◌≤◌, ◌≡◌, refl, ap, false, some, List, [], ◌∷◌, ◌++◌, Text, ◌==◌, ==_refl, nat_eq,
  list_eq, ltb, length, arith, Bool-cases, Option-cases, inl, inr,
}
use mathlib.Core.List.{reverse, reverse-cons}
use linkable.Prelude.Dict.{Dict, get-put, get-remove}
use linkable.Prelude.Dict
use linkable.Prelude.Members.{is_in}
use linkable.App.Clipboard.{
  ClipboardUpdate, Clipboard, empty, key, record_clipboard_update, found, clipboard_updates,
}
use linkable.App.Clipboard.Recent.{
  Distinct, Holds, empty-Holds, keys, last_thirty, pairs, record_clipboard_update-Holds, remember,
  same_as,
}

module _ (digest : Text → Text) where
  -- The windows show the newest first.
  get_self :
      (v : ClipboardUpdate) (vs : List ClipboardUpdate)
      → Dict.get (pairs digest (v ∷ vs)) (key digest v) ≡ some v
  unfolding Dict.get
  get_self v vs = rw (==_refl (key digest v)) refl

  abbrev AllFound : Dict Text ClipboardUpdate → List ClipboardUpdate → Type 0
  AllFound d [] = Unit
  AllFound d (v ∷ vs) = (Dict.get d (key digest v) ≡ some v) × AllFound d vs

  cons-AllFound :
      (w : ClipboardUpdate) (d : Dict Text ClipboardUpdate) (vs : List ClipboardUpdate)
      → is_in (key digest w) (keys digest vs) ≡ false
      → AllFound d vs
      → AllFound ((key digest w, w) ∷ d) vs
  unfolding Dict.get is_in
  cons-AllFound w d [] h a = tt
  cons-AllFound w d (v ∷ vs) h a = (ground (arith, h, a.0), cons-AllFound w d vs (ground arith) a.1)

  pairs-AllFound : (vs : List ClipboardUpdate) → Distinct digest vs → AllFound (pairs digest vs) vs
  pairs-AllFound [] d = tt
  pairs-AllFound (v ∷ vs) d =
      (get_self v vs, cons-AllFound v (pairs digest vs) vs d.0 (pairs-AllFound vs d.2))

  found-append :
      (d : Dict Text ClipboardUpdate) (a b : List Text) → found d (a ++ b) ≡ found d a ++ found d b
  unfolding found
  found-append d [] b = refl
  found-append d (k ∷ a) b = elim (Option-cases (Dict.get d k)) [
    | inl e ↦ rw (e, found) (found-append d a b)
    | inr (v, e) ↦ rw (e, found) (ap (◌∷◌ v) (found-append d a b))
  ]

  found-reverse :
      (d : Dict Text ClipboardUpdate) (vs : List ClipboardUpdate)
      → AllFound d vs
      → found d (reverse (keys digest vs)) ≡ reverse vs
  unfolding found
  found-reverse d [] a = refl
  found-reverse d (v ∷ vs) a =
      rw (reverse-cons, reverse-cons, found-append, found-reverse d vs a.1) (rw (a.0, found) refl)

  clipboard_updates-Holds :
      (s : Clipboard) (vs : List ClipboardUpdate)
      → Holds digest s vs
      → clipboard_updates s ≡ reverse vs
  unfolding clipboard_updates
  clipboard_updates-Holds s vs h =
      rw (h.stored, h.ordered) (found-reverse (pairs digest vs) vs (pairs-AllFound vs h.distinct))

  abbrev pub record_all : Clipboard → List ClipboardUpdate → Clipboard
  record_all s [] = s
  record_all s (u ∷ us) = record_all (record_clipboard_update digest s u) us

  abbrev pub remember_all : List ClipboardUpdate → List ClipboardUpdate → List ClipboardUpdate
  remember_all vs [] = vs
  remember_all vs (u ∷ us) = remember_all (remember digest vs u) us

  record_all-Holds :
      (s : Clipboard) (vs us : List ClipboardUpdate)
      → Holds digest s vs
      → Holds digest (record_all s us) (remember_all vs us)
  record_all-Holds s vs [] h = h
  record_all-Holds s vs (u ∷ us) h =
      record_all-Holds (record_clipboard_update digest s u) (remember digest vs u) us
        (record_clipboard_update-Holds digest s vs u h)

  length-last_thirty : (vs : List ClipboardUpdate) → length (last_thirty digest vs) ≤ 30
  length-last_thirty [] = omega arith
  length-last_thirty (v ∷ vs) = elim (Bool-cases (ltb 30 (length (v ∷ vs)))) [
    | inl many ↦ rw many (length-last_thirty vs)
    | inr few ↦ rw few (ltb_false→le 30 (length (v ∷ vs)) few)
  ]

  length-remember :
      (vs : List ClipboardUpdate) (u : ClipboardUpdate)
      → length vs ≤ 30
      → length (remember digest vs u) ≤ 30
  length-remember vs u h = elim (Bool-cases (u.text == [])) [
    | inl e ↦ rw e h
    | inr e ↦ elim (Bool-cases (same_as digest u vs)) [
      | inl old ↦ rw (e, old) h
      | inr new ↦ rw (e, new) (length-last_thirty (vs ++ u ∷ []))
    ]
  ]

  length-remember_all :
      (vs us : List ClipboardUpdate) → length vs ≤ 30 → length (remember_all vs us) ≤ 30
  length-remember_all vs [] h = h
  length-remember_all vs (u ∷ us) h =
      length-remember_all (remember digest vs u) us (length-remember vs u h)

  -- After any updates on an empty clipboard the windows show, the newest first, what the
  -- specification `remember` keeps of them: no empty text, no update whose identifier or fingerprint is
  -- already there, and of the others the last thirty.
  pub record_all_refines :
      (us : List ClipboardUpdate)
      → (clipboard_updates (record_all empty us) ≡ reverse (remember_all [] us))
        × (length (remember_all [] us) ≤ 30)
  record_all_refines us = (
    clipboard_updates-Holds (record_all empty us) (remember_all [] us)
        (record_all-Holds empty [] us (empty-Holds digest)),
    length-remember_all [] us (omega arith),
  )
