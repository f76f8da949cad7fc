-- ===== src/Trust/Store.antt =====
-- The laws of the trust store.
use linkable.Prelude.{
  Bool, true, false, ◌≡◌, refl, ◌∙◌, Option, none, some, [], Text, if◌then◌else◌, ◌==◌, nat_eq,
  list_eq, arith, ==_iff, Option-cases, inl, inr,
}
use linkable.Prelude.Dict
use linkable.Prelude.Dict.{Dict}
use linkable.Trust.{TrustStore, TrustedDeviceRecord, load, get, upsert, remove, save}
use linkable.Trust.Records.{Sound, put-Sound, remove-Sound, by_id-Sound, get-load-save}

load-Sound : (s : TrustStore) → Sound (load s)
unfolding load
load-Sound none = tt
load-Sound (some entries) = by_id-Sound [] entries tt

abbrev pub is_some : Option TrustedDeviceRecord → Bool
is_some none = false
is_some (some r) = true

module _ (lower : Text → Text) where
  get-save :
      (d : Dict Text TrustedDeviceRecord) (k : Text) → Sound d → get (save lower d) k ≡ Dict.get d k
  unfolding get save
  get-save d k h = get-load-save lower d k h

  -- After `upsert` the store has the record under its identifier, and what it had under every
  -- other, whatever the file held before.
  pub get-upsert :
      (s : TrustStore) (r : TrustedDeviceRecord) (k : Text)
      → get (upsert lower s r) k ≡ (if r.device_id == k then some r else get s k)
  unfolding upsert
  get-upsert s r k =
      get-save (Dict.put (load s) r.device_id r) k (put-Sound (load s) r (load-Sound s))
      ∙ (unfold get in Dict.get-put (load s) r.device_id k r)

  -- `remove` answers whether the store had a record under the identifier, and after it the store
  -- has none under that one and what it had under every other.
  pub get-remove :
      (s : TrustStore) (device_id k : Text)
      → ((remove lower s device_id).0 ≡ is_some (get s device_id))
        × (get (remove lower s device_id).1 k ≡ (if device_id == k then none else get s k))
  unfolding remove get
  get-remove s device_id k = elim (Option-cases (Dict.get (load s) device_id)) [
    | inl gone ↦ rw (gone, remove) (refl, ground (arith, gone, ==_iff device_id k))
    | inr (r, there) ↦
        rw (there, remove)
          (
            refl,
            get-save (Dict.remove (load s) device_id) k
                  (remove-Sound (load s) device_id (load-Sound s))
                ∙ Dict.get-remove (load s) device_id k,
          )
  ]
