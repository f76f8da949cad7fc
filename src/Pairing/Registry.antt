-- ===== src/Pairing/Registry.antt =====
-- ActiveSessionRegistry, pairing/pairing_server.py: at most one session at a time. Each method
-- runs under the registry's lock, so it is one step, and the threads' interleavings are the
-- sequences of steps.
use linkable.Prelude.{
  Bool, false, ◌≡◌, ◌≢◌, refl, sym, ap, ◌∙◌, Option, none, some, List, [], ◌∷◌, Text, if◌then◌else◌,
  ◌==◌, nat_eq, list_eq, ==_refl, inl, inr, ◌⊎◌,
}

pub record ActiveSessionRegistry : Type 0 where
  pub device : Option Text
  pub token : Option Text

abbrev pub free : ActiveSessionRegistry
free = record { device = none; token = none }

-- The token that token_hex(8) drew is an argument.
unfoldable pub acquire :
    ActiveSessionRegistry → (device_id drawn : Text) → Option Text × ActiveSessionRegistry
acquire r device_id drawn = elim (r.device) [
  | some other ↦ (none, r)
  | none ↦ (some drawn, record { device = some device_id; token = some drawn })
]

abbrev is_token : Option Text → Text → Bool
is_token none token = false
is_token (some t) token = t == token

unfoldable pub release : ActiveSessionRegistry → Text → ActiveSessionRegistry
release r token = if is_token r.token token then free else r

-- The registry, and the sessions whose handler has got a token and not yet released it.
pub record System : Type 0 where
  pub registry : ActiveSessionRegistry
  pub held : List (Text × Text)

-- Any thread may take the next step: one whose acquire is refused gives up, one that has a token
-- ends with its release, and a release of another token may come at any time.
pub data Step : System → System → Type 0 where
  acquired :
      (r : ActiveSessionRegistry) (h : List (Text × Text)) (device_id drawn : Text)
      → (acquire r device_id drawn).0 ≡ some drawn
      → Step
          (record { registry = r; held = h })
          (record { registry = (acquire r device_id drawn).1; held = (device_id, drawn) ∷ h })
  refused :
      (r : ActiveSessionRegistry) (h : List (Text × Text)) (device_id drawn : Text)
      → (acquire r device_id drawn).0 ≡ none
      → Step
          (record { registry = r; held = h })
          (record { registry = (acquire r device_id drawn).1; held = h })
  released :
      (r : ActiveSessionRegistry) (h : List (Text × Text)) (device_id token : Text)
      → Step
          (record { registry = r; held = (device_id, token) ∷ h })
          (record { registry = release r token; held = h })
  stale :
      (r : ActiveSessionRegistry) (h : List (Text × Text)) (token : Text)
      → is_token r.token token ≡ false
      → Step (record { registry = r; held = h }) (record { registry = release r token; held = h })

pub data Reachable : System → Type 0 where
  start : Reachable (record { registry = free; held = [] })
  next : {s t : System} → Reachable s → Step s t → Reachable t

-- The registry says who has the session: no one, or the one holder of its token.
unfoldable pub Agrees : System → Type 0
Agrees s =
    ((s.registry ≡ free) × (s.held ≡ []))
    ⊎ ((device_id : Text) × (token : Text) × (s.registry
          ≡ record { device = some device_id; token = some token })
        × (s.held ≡ (device_id, token) ∷ []))

none-some : (t : Text) → none ≢ some t
none-some t e = cc

start-Agrees : Agrees (record { registry = free; held = [] })
unfolding Agrees
start-Agrees = inl (refl, refl)

release_own :
    (device_id token : Text)
    → release (record { device = some device_id; token = some token }) token ≡ free
unfolding release
release_own device_id token = rw (==_refl token) refl

Step-Agrees : {s t : System} → Step s t → Agrees s → Agrees t
unfolding Agrees acquire release
Step-Agrees (acquired r h device_id drawn e) (inl (i, j)) =
    inr (device_id, drawn, ap (λ r. (acquire r device_id drawn).1) i, ap (◌∷◌ (device_id, drawn)) j)
Step-Agrees (acquired r h device_id drawn e) (inr (d, k, i, j)) =
    absurd (none-some drawn (sym (ap (λ r. (acquire r device_id drawn).0) i) ∙ e))
Step-Agrees (refused r h device_id drawn e) (inl (i, j)) =
    absurd (none-some drawn (sym e ∙ ap (λ r. (acquire r device_id drawn).0) i))
Step-Agrees (refused r h device_id drawn e) (inr (d, k, i, j)) =
    inr (d, k, ap (λ r. (acquire r device_id drawn).1) i, j)
Step-Agrees (released r h device_id token) (inl (i, j)) = absurd (cc)
Step-Agrees (released r h device_id token) (inr (d, k, i, j)) = inl (
  ap (λ r. release r token) i
      ∙ ap (λ t. release (record { device = some d; token = some k }) t) (cc)
      ∙ release_own d k,
  cc,
)
Step-Agrees (stale r h token e) (inl (i, j)) = inl (ap (λ r. release r token) i, j)
Step-Agrees (stale r h token e) (inr (d, k, i, j)) = inr (d, k, rw e i, j)

-- In every state that any sequence of steps reaches, the registry is free and no session is held,
-- or one session is held and the registry has its device and its token.
pub Reachable-Agrees : {s : System} → Reachable s → Agrees s
Reachable-Agrees start = start-Agrees
Reachable-Agrees (next r x) = Step-Agrees x (Reachable-Agrees r)

abbrev pub unless_held : List (Text × Text) → Text → Option Text
unless_held [] drawn = some drawn
unless_held (x ∷ xs) drawn = none

-- In every reachable state `acquire` gives out a token if no session is held, and none if one is:
-- the registry neither admits a second session nor stays taken after the release of the first.
pub acquire-Reachable :
    {s : System} (device_id drawn : Text)
    → Reachable s
    → (acquire s.registry device_id drawn).0 ≡ unless_held s.held drawn
unfolding acquire
acquire-Reachable {s} device_id drawn r = go (unfold Agrees in Reachable-Agrees r)
  where
    go :
        ((s.registry ≡ free) × (s.held ≡ []))
          ⊎ ((d : Text) × (token : Text) × (s.registry
                ≡ record { device = some d; token = some token })
              × (s.held ≡ (d, token) ∷ []))
        → (acquire s.registry device_id drawn).0 ≡ unless_held s.held drawn
    go (inl (i, j)) = rw (i, j) refl
    go (inr (d, k, i, j)) = rw (i, j) refl
