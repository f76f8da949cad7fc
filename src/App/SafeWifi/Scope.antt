-- ===== src/App/SafeWifi/Scope.antt =====
-- What the safe networks are after each method.
use linkable.Prelude.{
  ◌≡◌, refl, sym, ap, ◌∙◌, Bool, true, false, ◌&&◌, ◌||◌, Option, some, [], ◌∷◌, Text, ◌==◌, ==_iff,
  nat_eq, list_eq, if◌then◌else◌, arith, Bool-cases, inl, inr,
}
use mathlib.Core.Bool.{true≢false}
use linkable.Prelude.Dict.{Dict, get-put, get-put_self}
use linkable.Prelude.Dict
use linkable.App.SafeWifi.{
  Networks, PolicyFile, read_file, is_empty, insert_network, sort_networks, by_name, enable,
  is_trusted, any_allowed, set_network_enabled, named, trust_named, trust_current_wifi,
  is_current_wifi_allowed,
}

-- An item that is enabled under the present name.
abbrev allows : Text → Text → Bool → Bool
allows current ssid enabled = enabled && ssid == current

any_allowed-insert :
    (current ssid : Text) (enabled : Bool) (networks : Networks)
    → any_allowed current (insert_network ssid enabled networks)
      ≡ (allows current ssid enabled || any_allowed current networks)
unfolding any_allowed insert_network
any_allowed-insert current ssid enabled [] = refl
any_allowed-insert current ssid enabled ((other, e) ∷ networks) =
    ground (arith, any_allowed-insert current ssid enabled networks)

any_allowed-sort :
    (current : Text) (networks : Networks)
    → any_allowed current (sort_networks networks) ≡ any_allowed current networks
unfolding sort_networks any_allowed
any_allowed-sort current [] = refl
any_allowed-sort current ((ssid, enabled) ∷ networks) =
    any_allowed-insert current ssid enabled (sort_networks networks)
    ∙ ap (λ b. allows current ssid enabled || b) (any_allowed-sort current networks)

any_allowed-get :
    (current : Text) (networks : Networks)
    → Dict.get networks current ≡ some true
    → any_allowed current networks ≡ true
unfolding any_allowed Dict.get
any_allowed-get current [] h = absurd (cc)
any_allowed-get current ((ssid, enabled) ∷ networks) h =
    ground (arith, any_allowed-get current networks, h)

-- What is found after an assignment was there before, or is what was assigned.
by_put :
    (found : Option Bool) (equal enabled rest : Bool)
    → (is_trusted (if equal then some enabled else found) || rest) ≡ true
    → (is_trusted found || ((enabled && equal) || rest)) ≡ true
unfolding is_trusted
by_put found true true rest h = ground arith
by_put found true false rest h = ground (arith, h)
by_put found false true rest h = h
by_put found false false rest h = h

any_allowed-by_name :
    (current : Text) (d networks : Networks)
    → is_trusted (Dict.get (by_name d networks) current) ≡ true
    → (is_trusted (Dict.get d current) || any_allowed current networks) ≡ true
unfolding any_allowed by_name
any_allowed-by_name current d [] h = ground (arith, h)
any_allowed-by_name current d ((ssid, enabled) ∷ networks) h =
    by_put (Dict.get d current) (ssid == current) enabled (any_allowed current networks) (
      sym (ap (λ o. is_trusted o || any_allowed current networks) (get-put d ssid current enabled))
      ∙ any_allowed-by_name current (Dict.put d ssid enabled) networks h)

module _ (strip : Text → Text) where
  blank_differs :
      (current ssid : Text)
      → is_empty (strip current) ≡ false
      → is_empty (strip ssid) ≡ true
      → (ssid == current) ≡ false
  blank_differs current ssid h blank = elim (Bool-cases (ssid == current)) [
    | inl equal ↦
        absurd (
          true≢false (sym blank ∙ ap (λ t. is_empty (strip t)) ((==_iff ssid current).0 equal) ∙ h))
    | inr differs ↦ differs
  ]

  -- The reading of a file does not lose an item under a name that is not blank.
  any_allowed-named :
      (current : Text) (networks : Networks)
      → is_empty (strip current) ≡ false
      → any_allowed current (named strip networks) ≡ any_allowed current networks
  unfolding any_allowed named
  any_allowed-named current [] h = refl
  any_allowed-named current ((ssid, enabled) ∷ networks) h =
      elim (Bool-cases (is_empty (strip ssid))) [
        | inl blank ↦
            rw (blank, blank_differs current ssid h blank)
              (ground (arith, any_allowed-named current networks h))
        | inr has_name ↦
            rw has_name
              (ap (λ b. allows current ssid enabled || b) (any_allowed-named current networks h))
      ]

  any_allowed-named-false :
      (current : Text) (networks : Networks)
      → any_allowed current networks ≡ false
      → any_allowed current (named strip networks) ≡ false
  unfolding any_allowed named
  any_allowed-named-false current [] h = refl
  any_allowed-named-false current ((ssid, enabled) ∷ networks) h =
      ground (arith, any_allowed-named-false current networks, h)

  allowed-if : (all : Bool) (b : Bool) → b ≡ true → (if all then true else b) ≡ true
  allowed-if true b h = refl
  allowed-if false b h = h

  -- The networks of a file allow the present one.
  allowed-networks :
      (current : Text) (file : Option PolicyFile) (networks : Networks)
      → is_empty (strip current) ≡ false
      → any_allowed current networks ≡ true
      → is_current_wifi_allowed strip current
          (some (record (read_file file) { networks = networks }))
        ≡ true
  unfolding is_current_wifi_allowed read_file
  allowed-networks current file networks named_so h =
      allowed-if (read_file file).allow_all_wifi (any_allowed current (named strip networks))
        (any_allowed-named current networks named_so ∙ h)

  already-allowed :
      (current : Text) (file : Option PolicyFile)
      → is_trusted (Dict.get (by_name [] (named strip (read_file file).networks)) current) ≡ true
      → is_current_wifi_allowed strip current file ≡ true
  unfolding is_current_wifi_allowed Dict.get is_trusted
  already-allowed current file h =
      allowed-if (read_file file).allow_all_wifi
        (any_allowed current (named strip (read_file file).networks))
        (any_allowed-by_name current [] (named strip (read_file file).networks) h)

  -- If the present network's name is neither empty nor blank, then the file that trusting it leaves
  -- allows that network, whatever the file held before and whether or not it had to be changed.
  pub trust_current_wifi-allows :
      (current : Text) (file : Option PolicyFile)
      → is_empty current ≡ false
      → is_empty (strip current) ≡ false
      → is_current_wifi_allowed strip current (trust_current_wifi strip current file).1 ≡ true
  unfolding trust_current_wifi trust_named
  trust_current_wifi-allows current file h named_so =
      rw h (elim (Bool-cases (is_trusted (Dict.get d current))) [
        | inl old ↦ rw old (already-allowed current file old)
        | inr new ↦ rw new (
            allowed-networks current file (sort_networks (Dict.put d current true)) named_so (
              any_allowed-sort current (Dict.put d current true)
              ∙ any_allowed-get current (Dict.put d current true) (get-put_self d current true)))
      ])
    where
      d : Networks
      d = by_name [] (named strip (read_file file).networks)

any_allowed-enable :
    (ssid : Text) (networks : Networks) → any_allowed ssid (enable ssid false networks).1 ≡ false
unfolding any_allowed enable
any_allowed-enable ssid [] = refl
any_allowed-enable ssid ((other, e) ∷ networks) = ground (arith, any_allowed-enable ssid networks)

unchanged-disabled :
    (ssid : Text) (networks : Networks)
    → (enable ssid false networks).0 ≡ false
    → any_allowed ssid networks ≡ false
unfolding any_allowed enable
unchanged-disabled ssid [] h = refl
unchanged-disabled ssid ((other, e) ∷ networks) h =
    ground (arith, h, unchanged-disabled ssid networks)

-- After a network was disabled it is not allowed, unless every network is.
pub set_network_enabled-blocks :
    (strip : Text → Text) (ssid : Text) (file : Option PolicyFile)
    → (read_file file).allow_all_wifi ≡ false
    → is_current_wifi_allowed strip ssid (set_network_enabled ssid false file).1 ≡ false
unfolding set_network_enabled is_current_wifi_allowed
set_network_enabled-blocks strip ssid file h =
    elim (Bool-cases ((enable ssid false (read_file file).networks).0)) [
      | inl changed ↦ rw changed (
          unfold read_file in
          rw h (
            any_allowed-named-false strip ssid (enable ssid false (read_file file).networks).1
              (any_allowed-enable ssid (read_file file).networks)))
      | inr same_file ↦ rw same_file (
          rw h (
            any_allowed-named-false strip ssid (read_file file).networks
              (unchanged-disabled ssid (read_file file).networks same_file)))
    ]
