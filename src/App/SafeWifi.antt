-- ===== src/App/SafeWifi.antt =====
-- Which Wi-Fi networks the desktop serves on: app/safe_wifi.py. The JSON file is its switch and its
-- networks, or is missing, with each value as `str` and `bool` read it. `str.strip` and
-- `str.splitlines` are arguments, and so is what the two commands print.
use linkable.Prelude.{
  ℕ, Bool, true, false, not, ◌&&◌, ◌||◌, Option, none, some, List, [], ◌∷◌, ◌++◌, Text, codes,
  if◌then◌else◌, ◌==◌, nat_eq, list_eq, nat_eqb,
}
use linkable.Prelude.Dict.{Dict}
use linkable.Prelude.Dict
use linkable.Trust.{text_leb}
use linkable.Discovery.Endpoint.{partition}
pub mod Scope

abbrev pub Networks : Type 0
Networks = Dict Text Bool

pub record PolicyFile : Type 0 where
  pub allow_all_wifi : Bool
  pub networks : Networks

-- _read
unfoldable pub read_file : Option PolicyFile → PolicyFile
read_file none = record { allow_all_wifi = false; networks = [] }
read_file (some file) = file

abbrev same : Bool → Bool → Bool
same true b = b
same false b = not b

abbrev is_empty : Text → Bool
is_empty [] = true
is_empty (c ∷ t) = false

-- sorted(networks.items()): no two items have one name.
insert_network : Text → Bool → Networks → Networks
insert_network ssid enabled [] = (ssid, enabled) ∷ []
insert_network ssid enabled ((other, e) ∷ networks) =
    let rest = insert_network ssid enabled networks in
    if text_leb ssid other then (ssid, enabled) ∷ (other, e) ∷ networks else (other, e) ∷ rest

sort_networks : Networks → Networks
unfolding insert_network
sort_networks [] = []
sort_networks ((ssid, enabled) ∷ networks) = insert_network ssid enabled (sort_networks networks)

-- `{name: enabled for …}`: a later item replaces an earlier one.
by_name : Networks → Networks → Networks
by_name d [] = d
by_name d ((ssid, enabled) ∷ networks) = by_name (Dict.put d ssid enabled) networks

-- The loop of `set_network_enabled`: whether an item changed, and the items.
enable : Text → Bool → Networks → Bool × Networks
enable ssid enabled [] = (false, [])
enable ssid enabled ((other, e) ∷ networks) =
    let (changed, rest) = enable ssid enabled networks in
    if other == ssid && not (same e enabled)
    then (true, (other, enabled) ∷ rest)
    else (changed, (other, e) ∷ rest)

is_trusted : Option Bool → Bool
is_trusted (some true) = true
is_trusted _ = false

-- any(network.enabled and network.ssid == current_ssid for …)
unfoldable pub any_allowed : Text → Networks → Bool
any_allowed current [] = false
any_allowed current ((ssid, enabled) ∷ networks) =
    (enabled && ssid == current) || any_allowed current networks

unfoldable pub set_allow_all_wifi : Bool → Option PolicyFile → Bool × Option PolicyFile
unfolding read_file
set_allow_all_wifi allow_all file =
    let stored = read_file file in
    if same stored.allow_all_wifi allow_all
    then (false, file)
    else (true, some (record stored { allow_all_wifi = allow_all }))

unfoldable pub set_network_enabled : Text → Bool → Option PolicyFile → Bool × Option PolicyFile
unfolding enable read_file
set_network_enabled ssid enabled file =
    let stored = read_file file in
    let (changed, networks) = enable ssid enabled stored.networks in
    if changed then (true, some (record stored { networks = networks })) else (false, file)

module _ (strip : Text → Text) where
  -- The items whose name is not blank.
  named : Networks → Networks
  named [] = []
  named ((ssid, enabled) ∷ networks) =
      let rest = named networks in if is_empty (strip ssid) then rest else (ssid, enabled) ∷ rest

  trust_named : Text → Option PolicyFile → Networks → Bool × Option PolicyFile
  unfolding is_trusted sort_networks read_file
  trust_named ssid file networks = if is_trusted (Dict.get networks ssid) then (false, file) else (
    true,
    some (record (read_file file) { networks = sort_networks (Dict.put networks ssid true) }),
  )

  -- The present network's name comes from `current_wifi_ssid`.
  unfoldable pub trust_current_wifi :
      (current : Text) → Option PolicyFile → Bool × Option PolicyFile
  unfolding trust_named by_name named read_file
  trust_current_wifi current file =
      if is_empty current
      then (false, file)
      else trust_named current file (by_name [] (named (read_file file).networks))

  -- With the networks of `load`.
  unfoldable pub is_current_wifi_allowed : (current : Text) → Option PolicyFile → Bool
  unfolding named any_allowed read_file
  is_current_wifi_allowed current file =
      if (read_file file).allow_all_wifi
      then true
      else any_allowed current (named (read_file file).networks)

abbrev starts_with : ℕ → Text → Bool
starts_with c [] = false
starts_with c (x ∷ t) = nat_eqb x c

-- text.replace("\\:", ":"): a backslash (92) before a colon is dropped.
unescape : Text → Text
unescape [] = []
unescape (c ∷ t) =
    let rest = unescape t in if nat_eqb c 92 && starts_with b':' t then rest else c ∷ rest

-- The first line of an active network with a name.
active_line : List Text → Text
unfolding partition unescape
active_line [] = []
active_line (line ∷ lines) =
    let rest = active_line lines in
    let (active, ssid) = partition b':' line in
    if active == codes "yes" && not (is_empty ssid) then unescape ssid else rest

-- What `iwgetid` and `nmcli` print, if they run and succeed.
unfoldable pub current_wifi_ssid :
    (strip : Text → Text) (splitlines : Text → List Text) (iwgetid nmcli : Option Text) → Text
unfolding active_line
current_wifi_ssid strip splitlines iwgetid nmcli =
    let lines : Text = elim nmcli [ none ↦ [] | some out ↦ active_line (splitlines out) ] in
    elim iwgetid [ none ↦ lines | some out ↦ if is_empty (strip out) then lines else strip out ]
