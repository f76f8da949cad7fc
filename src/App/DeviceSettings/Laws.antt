-- ===== src/App/DeviceSettings/Laws.antt =====
-- What the settings are after each method.
use linkable.Prelude.{
  ◌≡◌, ◌↔◌, refl, sym, ap, ◌∙◌, Bool, false, ◌&&◌, Option, none, some, [], ◌∷◌, Text, ◌==◌, ==_iff,
  nat_eq, list_eq, if◌then◌else◌, Bool-cases, inl, inr,
}
use linkable.Prelude.Dict.{Dict, get-put, get-put_self, get-remove}
use linkable.Prelude.Dict
use linkable.Prelude.Exec.{Result, ok, err, key_error}
use linkable.App.DeviceSettings.{
  Settings, SettingsFile, defaults, or_value, overlay, settings_from_json, load, or_empty, get,
  changed, set_known, set_value, remove_found, remove,
}

-- A field with its default, and what the file says of it.
abbrev merge : Option Bool → Option Bool → Option Bool
merge none o = none
merge (some v) o = some (or_value v o)

get-overlay :
    (values raw : Settings) (key : Text)
    → Dict.get (overlay values raw) key ≡ merge (Dict.get values key) (Dict.get raw key)
unfolding overlay Dict.get
get-overlay [] raw key = refl
get-overlay ((j, v) ∷ values) raw key = elim (Bool-cases (j == key)) [
  | inl same ↦ rw same (ap (λ k. some (or_value v (Dict.get raw k))) ((==_iff j key).0 same))
  | inr other ↦ rw other (get-overlay values raw key)
]

-- Reading a setting of a device.
abbrev pub setting : SettingsFile → Text → Text → Option Bool
setting file device_id key = Dict.get (get file device_id) key

setting-merge :
    (file : SettingsFile) (id key : Text)
    → setting file id key
      ≡ merge (Dict.get defaults key) (Dict.get (or_empty (Dict.get (load file) id)) key)
unfolding get settings_from_json
setting-merge file id key = get-overlay defaults (or_empty (Dict.get (load file) id)) key

merge-twice : (d o : Option Bool) → merge d (merge d o) ≡ merge d o
merge-twice none o = refl
merge-twice (some v) none = refl
merge-twice (some v) (some w) = refl

merge-some : (d : Option Bool) (v w : Bool) → d ≡ some w → merge d (some v) ≡ some v
merge-some d v w h = rw h refl

-- The changed settings, read as the file's.
changed-lem :
    (file : SettingsFile) (id key other : Text) (value field : Bool)
    → Dict.get defaults key ≡ some field
    → merge (Dict.get defaults other) (Dict.get (changed file id key value) other)
      ≡ (if key == other then some value else setting file id other)
unfolding changed
changed-lem file id key other value field known = elim (Bool-cases (key == other)) [
  | inl same ↦
      ap (merge (Dict.get defaults other)) (get-put (get file id) key other value ∙ rw same refl)
      ∙ merge-some (Dict.get defaults other) value field
          (sym (ap (Dict.get defaults) ((==_iff key other).0 same)) ∙ known)
      ∙ rw same refl
  | inr differs ↦
      ap (merge (Dict.get defaults other))
        (get-put (get file id) key other value ∙ rw differs (setting-merge file id other))
      ∙ merge-twice (Dict.get defaults other) (Dict.get (or_empty (Dict.get (load file) id)) other)
      ∙ rw differs (sym (setting-merge file id other))
]

-- What a change of a known setting writes.
abbrev written : SettingsFile → Text → Text → Bool → SettingsFile
written file id key value = some (Dict.put (load file) id (changed file id key value))

of_device :
    (file : SettingsFile) (raw : Option Settings) (j other : Text)
    → Dict.get (load file) j ≡ raw
    → setting file j other ≡ merge (Dict.get defaults other) (Dict.get (or_empty raw) other)
of_device file raw j other h =
    setting-merge file j other
    ∙ ap (λ r. merge (Dict.get defaults other) (Dict.get (or_empty r) other)) h

written-setting :
    (file : SettingsFile) (id key j other : Text) (value field : Bool)
    → Dict.get defaults key ≡ some field
    → setting (written file id key value) j other
      ≡ (if id == j && key == other then some value else setting file j other)
unfolding load
written-setting file id key j other value field known = elim (Bool-cases (id == j)) [
  | inl same ↦
      of_device (written file id key value) (some (changed file id key value)) j other
        (get-put (load file) id j (changed file id key value) ∙ rw same refl)
      ∙ changed-lem file id key other value field known
      ∙ rw (same, (==_iff id j).0 same) refl
  | inr differs ↦
      of_device (written file id key value) (Dict.get (load file) j) j other
        (get-put (load file) id j (changed file id key value) ∙ rw differs refl)
      ∙ rw differs (sym (setting-merge file j other))
]

-- A device's settings come from its part of the file alone.
get-load :
    (file : SettingsFile) (raw : Option Settings) (j : Text)
    → Dict.get (load file) j ≡ raw
    → get file j ≡ settings_from_json (or_empty raw)
unfolding get
get-load file raw j h = ap (λ r. settings_from_json (or_empty r)) h

returned :
    (file : SettingsFile) (id key : Text) (value : Bool)
    → Result.ok (settings_from_json (changed file id key value))
      ≡ ok (get (written file id key value) id)
returned file id key value = sym (
    ap Result.ok (
      get-load (written file id key value) (some (changed file id key value)) id
        (unfold load in get-put_self (load file) id (changed file id key value))))

-- What is to hold of a change, with the default of the field.
abbrev pub Changes :
    SettingsFile
    → (id key : Text) (value : Bool) → Option Bool
    → Result Settings × SettingsFile
    → Type 0
Changes file id key value none x = (x.0 ≡ err key_error) × (x.1 ≡ file)
Changes file id key value (some field) x =
    (x.0 ≡ ok (get x.1 id))
    × ((j other : Text)
        → setting x.1 j other
          ≡ (if id == j && key == other then some value else setting file j other))

set_known-Changes :
    (file : SettingsFile) (id key : Text) (value : Bool) (o : Option Bool)
    → Dict.get defaults key ≡ o
    → Changes file id key value o (set_known file id key value o)
unfolding set_known
set_known-Changes file id key value none h = (refl, refl)
set_known-Changes file id key value (some field) h =
    (returned file id key value, λ j other. written-setting file id key j other value field h)

-- A change of a known setting returns the new settings of the device, and sets that setting of that
-- device and no other; an unknown one raises `KeyError` and leaves the file as it is.
pub set_value-Changes :
    (file : SettingsFile) (id key : Text) (value : Bool)
    → Changes file id key value (Dict.get defaults key) (set_value id key value file)
unfolding set_value
set_value-Changes file id key value =
    set_known-Changes file id key value (Dict.get defaults key) refl

no_file : (j : Text) → settings_from_json [] ≡ get none j
no_file j = sym (get-load none none j (unfold load in unfold Dict.get in refl))

removed-get :
    (file : SettingsFile) (id j : Text)
    → get (some (Dict.remove (load file) id)) j ≡ (if id == j then get none j else get file j)
unfolding load
removed-get file id j = elim (Bool-cases (id == j)) [
  | inl same ↦
      get-load (some (Dict.remove (load file) id)) none j
        (get-remove (load file) id j ∙ rw same refl)
      ∙ no_file j
      ∙ rw same refl
  | inr differs ↦
      get-load (some (Dict.remove (load file) id)) (Dict.get (load file) j) j
        (get-remove (load file) id j ∙ rw differs refl)
      ∙ sym (get-load file (Dict.get (load file) j) j refl)
      ∙ rw differs refl
]

kept-get :
    (file : SettingsFile) (id j : Text)
    → Dict.get (load file) id ≡ none
    → get file j ≡ (if id == j then get none j else get file j)
kept-get file id j missing = elim (Bool-cases (id == j)) [
  | inl same ↦
      get-load file none j (ap (Dict.get (load file)) (sym ((==_iff id j).0 same)) ∙ missing)
      ∙ no_file j
      ∙ rw same refl
  | inr differs ↦ rw differs refl
]

remove_found-get :
    (file : SettingsFile) (id j : Text) (o : Option Settings)
    → Dict.get (load file) id ≡ o
    → (get (remove_found file id o).1 j ≡ (if id == j then get none j else get file j))
      × (((remove_found file id o).0 ≡ false) ↔ (o ≡ none))
unfolding remove_found
remove_found-get file id j none h = (kept-get file id j h, ((λ e. refl), λ e. refl))
remove_found-get file id j (some raw) h =
    (removed-get file id j, ((λ e. absurd (cc)), λ e. absurd (cc)))

-- After a device's settings are removed it has the defaults, and every other device what it had;
-- the answer is no exactly if the file had none of them.
pub remove_lem :
    (file : SettingsFile) (id j : Text)
    → (get (remove file id).1 j ≡ (if id == j then get none j else get file j))
      × (((remove file id).0 ≡ false) ↔ (Dict.get (load file) id ≡ none))
unfolding remove
remove_lem file id j = remove_found-get file id j (Dict.get (load file) id) refl
