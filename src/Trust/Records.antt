-- ===== src/Trust/Records.antt =====
-- Lists of records with distinct identifiers: what a dictionary of records saves and loads.
use linkable.Prelude.{
  ◌≡◌, refl, sym, ap, ◌∙◌, Option, none, some, List, [], ◌∷◌, Text, if◌then◌else◌, ◌==◌, nat_eq,
  list_eq, arith, ==_iff, Bool-cases, inl, inr,
}
use linkable.Prelude.Dict.{Dict, put, get, get-put, get-remove}
use linkable.Prelude.Dict
use linkable.Trust.{TrustedDeviceRecord, by_id, values, insert_sorted, sort_by_name}

-- The first record with this identifier.
unfoldable pub look : List TrustedDeviceRecord → Text → Option TrustedDeviceRecord
look [] k = none
look (r ∷ rs) k = if r.device_id == k then some r else look rs k

abbrev pub Distinct : List TrustedDeviceRecord → Type 0
Distinct [] = Unit
Distinct (r ∷ rs) = (look rs r.device_id ≡ none) × Distinct rs

-- A dictionary in which each record stands once, under its identifier.
abbrev pub Sound : Dict Text TrustedDeviceRecord → Type 0
Sound [] = Unit
Sound ((k, r) ∷ d) = (r.device_id ≡ k) × (get d k ≡ none) × Sound d

pub put-Sound :
    (d : Dict Text TrustedDeviceRecord) (r : TrustedDeviceRecord)
    → Sound d
    → Sound (put d r.device_id r)
unfolding put get
put-Sound [] r h = (refl, refl, tt)
put-Sound ((k, x) ∷ d) r h = elim (Bool-cases (k == r.device_id)) [
  | inl same ↦ rw same (refl, ap (get d) (sym ((==_iff k r.device_id).0 same)) ∙ h.1, h.2)
  | inr other ↦ rw other (
    h.0,
    ground (arith, get-put d r.device_id k r, ==_iff r.device_id k, ==_iff k r.device_id, h.1),
    put-Sound d r h.2,
  )
]

pub remove-Sound :
    (d : Dict Text TrustedDeviceRecord) (k : Text) → Sound d → Sound (Dict.remove d k)
unfolding Dict.remove
remove-Sound [] k h = tt
remove-Sound ((j, x) ∷ d) k h = elim (Bool-cases (j == k)) [
  | inl same ↦ rw same (remove-Sound d k h.2)
  | inr other ↦ rw other (h.0, ground (arith, get-remove d k j, h.1), remove-Sound d k h.2)
]

pub by_id-Sound :
    (d : Dict Text TrustedDeviceRecord) (rs : List TrustedDeviceRecord)
    → Sound d
    → Sound (by_id d rs)
unfolding by_id
by_id-Sound d [] h = h
by_id-Sound d (r ∷ rs) h = by_id-Sound (put d r.device_id r) rs (put-Sound d r h)

look-values : (d : Dict Text TrustedDeviceRecord) (k : Text) → Sound d → look (values d) k ≡ get d k
unfolding look values get
look-values [] k h = refl
look-values ((j, x) ∷ d) k h = rw (h.0, look-values d k h.2) refl

values-Distinct : (d : Dict Text TrustedDeviceRecord) → Sound d → Distinct (values d)
unfolding values
values-Distinct [] h = tt
values-Distinct ((j, x) ∷ d) h =
    (look-values d x.device_id h.2 ∙ ap (get d) h.0 ∙ h.1, values-Distinct d h.2)

module _ (lower : Text → Text) where
  look-insert_sorted :
      (r : TrustedDeviceRecord) (xs : List TrustedDeviceRecord) (k : Text)
      → look xs r.device_id ≡ none
      → look (insert_sorted lower r xs) k ≡ (if r.device_id == k then some r else look xs k)
  unfolding look insert_sorted
  look-insert_sorted r [] k h = refl
  look-insert_sorted r (x ∷ xs) k h = ground (
    arith,
    look-insert_sorted r xs k,
    ==_iff x.device_id r.device_id,
    ==_iff x.device_id k,
    ==_iff r.device_id k,
  )

  insert_sorted-Distinct :
      (r : TrustedDeviceRecord) (xs : List TrustedDeviceRecord)
      → look xs r.device_id ≡ none
      → Distinct xs
      → Distinct (insert_sorted lower r xs)
  unfolding look insert_sorted
  insert_sorted-Distinct r [] h g = (refl, tt)
  insert_sorted-Distinct r (x ∷ xs) h g = ground (
    arith,
    look-insert_sorted r xs x.device_id,
    insert_sorted-Distinct r xs,
    ==_iff x.device_id r.device_id,
    ==_iff r.device_id x.device_id,
  )

  pub look-sort_by_name :
      (rs : List TrustedDeviceRecord) (k : Text)
      → Distinct rs
      → look (sort_by_name lower rs) k ≡ look rs k
  unfolding look sort_by_name
  look-sort_by_name [] k h = refl
  look-sort_by_name (r ∷ rs) k h =
      look-insert_sorted r (sort_by_name lower rs) k (look-sort_by_name rs r.device_id h.1 ∙ h.0)
      ∙ ap (λ o. if r.device_id == k then some r else o) (look-sort_by_name rs k h.1)

  sort_by_name-Distinct :
      (rs : List TrustedDeviceRecord) → Distinct rs → Distinct (sort_by_name lower rs)
  unfolding sort_by_name
  sort_by_name-Distinct [] h = tt
  sort_by_name-Distinct (r ∷ rs) h =
      insert_sorted-Distinct r (sort_by_name lower rs) (look-sort_by_name rs r.device_id h.1 ∙ h.0)
        (sort_by_name-Distinct rs h.1)

  abbrev or_else :
      Option TrustedDeviceRecord → Option TrustedDeviceRecord → Option TrustedDeviceRecord
  or_else none o = o
  or_else (some x) o = some x

  or_else-none : (o : Option TrustedDeviceRecord) → or_else o none ≡ o
  or_else-none none = refl
  or_else-none (some x) = refl

  get-by_id :
      (d : Dict Text TrustedDeviceRecord) (rs : List TrustedDeviceRecord) (k : Text)
      → Distinct rs
      → get (by_id d rs) k ≡ or_else (look rs k) (get d k)
  unfolding by_id look
  get-by_id d [] k h = refl
  get-by_id d (r ∷ rs) k h = ground (
    arith,
    get-by_id (put d r.device_id r) rs k,
    get-put d r.device_id k r,
    ==_iff r.device_id k,
    h.0,
    h.1,
  )

  -- Loading what was saved gives the dictionary back, as a map.
  pub get-load-save :
      (d : Dict Text TrustedDeviceRecord) (k : Text)
      → Sound d
      → get (by_id [] (sort_by_name lower (values d))) k ≡ get d k
  unfolding get
  get-load-save d k h =
      get-by_id [] (sort_by_name lower (values d)) k
        (sort_by_name-Distinct (values d) (values-Distinct d h))
      ∙ or_else-none (look (sort_by_name lower (values d)) k)
      ∙ look-sort_by_name (values d) k (values-Distinct d h)
      ∙ look-values d k h
