-- ===== src/App/CallHistory/Window.antt =====
-- The bounds that the call history keeps, and which entries it refuses.
use linkable.Prelude.{
  ℕ, zero, suc, ◌≤◌, ◌≡◌, ◌≢◌, refl, Bool, true, false, List, [], ◌∷◌, Text, Bytes, nat_eq, list_eq,
  ◌==◌, ==_iff, length, take, length-take, arith, Bool-cases, ◌⊎◌, inl, inr,
}
use linkable.App.CallHistory.{
  CallHistoryEntry, call_history_fingerprint, is_repeated, append_call_history,
}

module _ (sha256 : Bytes → Text) where
  -- No listed entry has the fingerprint of this one.
  abbrev pub Differs : CallHistoryEntry → List CallHistoryEntry → Type 0
  Differs e [] = Unit
  Differs e (x ∷ es) =
      (call_history_fingerprint sha256 x ≢ call_history_fingerprint sha256 e) × Differs e es

  -- A listed entry has the fingerprint of this one.
  abbrev pub Repeats : CallHistoryEntry → List CallHistoryEntry → Type 0
  Repeats e [] = ⊥
  Repeats e (x ∷ es) =
      (call_history_fingerprint sha256 x ≡ call_history_fingerprint sha256 e) ⊎ Repeats e es

  -- Each entry differs from the twelve entries after it, which are older.
  abbrev pub Apart : List CallHistoryEntry → Type 0
  Apart [] = Unit
  Apart (e ∷ es) = Differs e (take 12 es) × Apart es

  is_repeated-Differs :
      (e : CallHistoryEntry) (es : List CallHistoryEntry)
      → is_repeated sha256 (call_history_fingerprint sha256 e) es ≡ false
      → Differs e es
  unfolding is_repeated
  is_repeated-Differs e [] h = tt
  is_repeated-Differs e (x ∷ es) h = (
    ground
        (arith, h, ==_iff (call_history_fingerprint sha256 x) (call_history_fingerprint sha256 e)),
    is_repeated-Differs e es (ground (arith, h)),
  )

  is_repeated-Repeats :
      (e : CallHistoryEntry) (es : List CallHistoryEntry)
      → is_repeated sha256 (call_history_fingerprint sha256 e) es ≡ true
      → Repeats e es
  unfolding is_repeated
  is_repeated-Repeats e [] h = absurd (cc)
  is_repeated-Repeats e (x ∷ es) h =
      elim (Bool-cases (call_history_fingerprint sha256 x == call_history_fingerprint sha256 e)) [
        | inl same ↦ inl ((==_iff (call_history_fingerprint sha256 x) _).0 same)
        | inr other ↦ inr (is_repeated-Repeats e es (ground (arith, h, other)))
      ]

  Differs-take :
      (e : CallHistoryEntry) (m n : ℕ) (es : List CallHistoryEntry)
      → Differs e (take m es)
      → Differs e (take m (take n es))
  Differs-take e zero n es h = tt
  Differs-take e (suc m) zero es h = tt
  Differs-take e (suc m) (suc n) [] h = tt
  Differs-take e (suc m) (suc n) (x ∷ es) h = (h.0, Differs-take e m n es h.1)

  take-Apart : (n : ℕ) (es : List CallHistoryEntry) → Apart es → Apart (take n es)
  take-Apart zero es h = tt
  take-Apart (suc n) [] h = tt
  take-Apart (suc n) (e ∷ es) h = (Differs-take e 12 n es h.0, take-Apart n es h.1)

  -- A history of at most 160 entries, each different from the twelve before it.
  abbrev pub IsHistory : List CallHistoryEntry → Type 0
  IsHistory es = (length es ≤ 160) × Apart es

  -- What appending an entry gives: a refusal of an entry that repeats one of the newest twelve, or
  -- the entry on top.
  abbrev pub Appended :
      CallHistoryEntry → List CallHistoryEntry → Bool × List CallHistoryEntry → Type 0
  Appended e es x =
      ((x.0 ≡ false) × (x.1 ≡ es) × Repeats e (take 12 es))
      ⊎ ((x.0 ≡ true) × (x.1 ≡ e ∷ take 159 es) × Differs e (take 12 es))

  -- The history stays a list of at most 160 entries in which no entry has the fingerprint of one of
  -- the twelve that came before it. An entry with the fingerprint of one of the newest twelve is
  -- refused and changes nothing; any other is put in front, and the oldest beyond 160 is dropped.
  pub append_call_history-IsHistory :
      (es : List CallHistoryEntry) (e : CallHistoryEntry)
      → IsHistory es
      → IsHistory (append_call_history sha256 es e).1
        × Appended e es (append_call_history sha256 es e)
  unfolding append_call_history
  append_call_history-IsHistory es e h =
      elim (Bool-cases (is_repeated sha256 (call_history_fingerprint sha256 e) (take 12 es))) [
        | inl old ↦ rw old (h, inl (refl, refl, is_repeated-Repeats e (take 12 es) old))
        | inr new ↦
            let differs = is_repeated-Differs e (take 12 es) new in
            rw new (
              (omega (arith, length-take 160 (e ∷ es)), take-Apart 160 (e ∷ es) (differs, h.1)),
              inr (refl, refl, differs),
            )
      ]
