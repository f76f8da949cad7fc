-- ===== src/Trust/Order.antt =====
-- The order of the saved and shown records.
use linkable.Prelude.{◌≡◌, refl, true, false, List, [], ◌∷◌, Text, arith, Bool-cases, inl, inr}
use linkable.Trust.{TrustedDeviceRecord, sort_by_name, insert_sorted, text_leb}

text_leb_total : (a b : Text) → text_leb a b ≡ false → text_leb b a ≡ true
unfolding text_leb
text_leb_total [] b h = cc
text_leb_total (x ∷ a) [] h = refl
text_leb_total (x ∷ a) (y ∷ b) h = ground (arith, text_leb_total a b)

module _ (lower : Text → Text) where
  -- Each name is at most the next one, in lower case.
  abbrev pub Sorted : List TrustedDeviceRecord → Type 0
  Sorted [] = Unit
  Sorted (r ∷ []) = Unit
  Sorted (r ∷ q ∷ rs) =
      (text_leb (lower r.device_name) (lower q.device_name) ≡ true) × Sorted (q ∷ rs)

  insert_sorted-Sorted :
      (r : TrustedDeviceRecord) (xs : List TrustedDeviceRecord)
      → Sorted xs
      → Sorted (insert_sorted lower r xs)
  unfolding insert_sorted
  insert_sorted-Sorted r [] h = tt
  insert_sorted-Sorted r (x ∷ []) h =
      elim (Bool-cases (text_leb (lower r.device_name) (lower x.device_name))) [
        | inl le ↦ rw le (le, tt)
        | inr gt ↦ rw gt (text_leb_total _ _ gt, tt)
      ]
  insert_sorted-Sorted r (x ∷ y ∷ xs) h =
      elim (Bool-cases (text_leb (lower r.device_name) (lower x.device_name))) [
        | inl le ↦ rw le (le, h)
        | inr gt ↦ elim (Bool-cases (text_leb (lower r.device_name) (lower y.device_name))) [
          | inl le ↦ rw (gt, le) (text_leb_total _ _ gt, (le, h.1))
          | inr gt' ↦
              rw (gt, gt') (h.0, (rw (gt', insert_sorted) at (insert_sorted-Sorted r (y ∷ xs) h.1)))
        ]
      ]

  pub sort_by_name-Sorted : (rs : List TrustedDeviceRecord) → Sorted (sort_by_name lower rs)
  unfolding sort_by_name
  sort_by_name-Sorted [] = tt
  sort_by_name-Sorted (r ∷ rs) =
      insert_sorted-Sorted r (sort_by_name lower rs) (sort_by_name-Sorted rs)
