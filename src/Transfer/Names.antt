-- ===== src/Transfer/Names.antt =====
-- The name under which a received file is saved: `_safe_file_name` and `_unique_path` of
-- desktop/src/linkable_desktop/transfer/file_receiver.py.
use mathlib.Core.List.{reverse}
use linkable.Prelude.{
  ℕ, zero, suc, ◌+◌, ◌≡◌, Bool, true, false, ◌&&◌, ◌||◌, Option, none, some, List, [], ◌∷◌, ◌++◌,
  Text, Bytes, codes, length, nat_eqb, if◌then◌else◌, ◌==◌, Eq, nat_eq, list_eq,
}
use linkable.Prelude.Decimal.{to_text}
use linkable.Prelude.Exec.{Result, ok, err, no_fuel}
use linkable.Transfer.Paths.{FilePath, FileSystem, slash, name, with_name, exists}
pub mod Free

-- What Python knows of characters and names. `stem` and `suffix` differ between its versions.
pub record Platform : Type 0 where
  pub is_alnum : ℕ → Bool
  pub is_space : ℕ → Bool
  pub lower : Text → Text
  pub stem : Text → Text
  pub suffix : Text → Text
  pub slash_not_alnum : is_alnum slash ≡ false
  pub stem-suffix : (n : Text) → stem n ++ suffix n ≡ n

cons_head : ℕ → List Text → List Text
cons_head c [] = (c ∷ []) ∷ []
cons_head c (w ∷ ws) = (c ∷ w) ∷ ws

-- text.split("/")
unfoldable pub split_slash : Text → List Text
unfolding cons_head
split_slash [] = [] ∷ []
split_slash (c ∷ cs) =
    let rest = split_slash cs in if nat_eqb c slash then [] ∷ rest else cons_head c rest

-- The last component that is neither empty nor ".", or the one before.
unfoldable pub last_component : Text → List Text → Text
last_component found [] = found
last_component found (w ∷ ws) = last_component (if w == [] || w == codes "." then found else w) ws

-- Path(text).name
unfoldable pub path_name : Text → Text
unfolding split_slash last_component
path_name t = last_component [] (split_slash t)

module _ (p : Platform) where
  open p use {is_alnum, is_space, stem, suffix}

  unfoldable pub lstrip : Text → Text
  lstrip [] = []
  lstrip (c ∷ cs) = let rest = lstrip cs in if is_space c then rest else c ∷ cs

  -- text.strip()
  unfoldable pub strip : Text → Text
  unfolding lstrip
  strip t = reverse (lstrip (reverse (lstrip t)))

  unfoldable pub safe_char : ℕ → ℕ
  safe_char c =
      if is_alnum c || nat_eqb c b'.' || nat_eqb c b'_' || nat_eqb c b'-' || nat_eqb c b' '
      then c
      else b'_'

  unfoldable pub safe_chars : Text → Text
  unfolding safe_char
  safe_chars [] = []
  safe_chars (c ∷ cs) = safe_char c ∷ safe_chars cs

  -- `safe or "linkable-transfer.bin"`
  unfoldable pub or_default : Text → Text
  or_default [] = codes "linkable-transfer.bin"
  or_default (c ∷ cs) = c ∷ cs

  unfoldable pub safe_file_name : Text → Text
  unfolding path_name strip safe_chars or_default
  safe_file_name file_name = or_default (safe_chars (strip (path_name file_name)))

  -- f"{stem}-{index}{suffix}" of the path's name
  unfoldable pub candidate_name : FilePath → ℕ → Text
  candidate_name path index = stem (name path) ++ b'-' ∷ (to_text index ++ suffix (name path))

  -- The `while True` loop.
  unfoldable pub next_free : ℕ → FileSystem → FilePath → ℕ → Result FilePath
  unfolding candidate_name
  next_free zero fs path index = err no_fuel
  next_free (suc f) fs path index =
      let more = next_free f fs path (index + 1) in
      elim (with_name path (candidate_name path index)) [
        | err x ↦ err x
        | ok candidate ↦ if exists fs candidate then more else ok candidate
      ]

  -- The loop ends before it has tried one candidate more than there are entries.
  unfoldable pub unique_path : FileSystem → FilePath → Result FilePath
  unfolding next_free
  unique_path fs path = if exists fs path then next_free (suc (length fs)) fs path 1 else ok path
