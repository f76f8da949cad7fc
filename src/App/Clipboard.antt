-- ===== src/App/Clipboard.antt =====
-- The phone's clipboard on the desktop: `_record_clipboard_update` and `clipboard_updates` of
-- app/runtime.py. Each is one step, under the runtime's lock. `digest` is the SHA-256 text of an
-- encoded text; the callback to the windows is not modelled.
use linkable.Prelude.{
  ℕ, Bool, true, false, ◌||◌, Option, none, some, List, [], ◌∷◌, ◌++◌, Text, if◌then◌else◌, ◌==◌,
  nat_eq, list_eq, ltb, length, take,
}
use mathlib.Core.List.{reverse}
use linkable.Prelude.Dict.{Dict}
use linkable.Prelude.Dict
use linkable.Prelude.Members.{is_in, add, discard}
pub mod Recent

-- clipboard_pb2.ClipboardUpdate, as far as the runtime reads it.
pub record ClipboardUpdate : Type 0 where
  pub update_id : Text
  pub source_device_id : Text
  pub text : Text

pub record Clipboard : Type 0 where
  pub updates : Dict Text ClipboardUpdate
  pub update_order : List Text
  pub fingerprints : List Text

abbrev pub empty : Clipboard
empty = record { updates = []; update_order = []; fingerprints = [] }

unfoldable pub has_update : Dict Text ClipboardUpdate → Text → Bool
has_update d id = elim (Dict.get d id) [ none ↦ false | some u ↦ true ]

-- `a or b` of texts
unfoldable pub or_text : Text → Text → Text
or_text [] b = b
or_text (c ∷ a) b = c ∷ a

module _ (digest : Text → Text) where
  unfoldable pub fingerprint : ClipboardUpdate → Text
  fingerprint u = digest (u.source_device_id ++ b':' ∷ take 8192 u.text)

  unfoldable pub key : ClipboardUpdate → Text
  unfolding fingerprint or_text
  key u = or_text u.update_id (fingerprint u)

  unmark : List Text → Option ClipboardUpdate → List Text
  unfolding fingerprint
  unmark fingerprints none = fingerprints
  unmark fingerprints (some old) = discard fingerprints (fingerprint old)

  -- The `while` loop, on the order that is left.
  trim : List Text → Dict Text ClipboardUpdate → List Text → Clipboard
  unfolding unmark
  trim [] updates fingerprints = record {
    updates = updates;
    update_order = [];
    fingerprints = fingerprints;
  }
  trim (old_id ∷ order) updates fingerprints =
      let rest =
        trim order (Dict.remove updates old_id) (unmark fingerprints (Dict.get updates old_id)) in
      if ltb 30 (length (old_id ∷ order))
      then rest
      else record { updates = updates; update_order = old_id ∷ order; fingerprints = fingerprints }

  append : Clipboard → ClipboardUpdate → Clipboard
  unfolding trim key
  append s u =
      trim (s.update_order ++ key u ∷ []) (Dict.put s.updates (key u) u)
        (add s.fingerprints (fingerprint u))

  unfoldable pub record_clipboard_update : Clipboard → ClipboardUpdate → Clipboard
  unfolding append has_update
  record_clipboard_update s u =
      if u.text == []
      then s
      else if has_update s.updates (key u) || is_in (fingerprint u) s.fingerprints
      then s
      else append s u

found : Dict Text ClipboardUpdate → List Text → List ClipboardUpdate
found updates [] = []
found updates (id ∷ ids) = elim (Dict.get updates id) [
  | none ↦ found updates ids
  | some u ↦ u ∷ found updates ids
]

unfoldable pub clipboard_updates : Clipboard → List ClipboardUpdate
unfolding found
clipboard_updates s = found s.updates (reverse s.update_order)
