-- ===== src/Pairing/Transport/Loop/Ending.antt =====
-- The numbers of a session's envelopes, and what is left when it ends.
use linkable.Prelude.{
  ℕ, suc, ◌+◌, ◌≤◌, ◌≡◌, refl, sym, ap, ◌∙◌, Bool, true, false, List, [], ◌∷◌, ◌++◌, if◌then◌else◌,
  arith, ◌≢◌, ◌||◌, Bool-cases, inl, inr,
}
use mathlib.Core.Bool.{true≢false}
use linkable.Prelude.Exec.{
  Exception, os_error, file_not_found_error, eof_error, timeout_error, Result, ◌>>◌, bind_result,
  ok, err, Exec, Keeps, bind-Keeps, pure,
}
use linkable.Pairing.Transport.{Envelope, Reply, ServeDesktop, ServeWorld, PacketType}
use linkable.Pairing.Transport.Handlers.{handle_packet}
use linkable.Pairing.Transport.Handlers.Effects.{Effect}
use linkable.Pairing.Transport.Handlers.Answers.{handle_packet-Effect}
use linkable.Pairing.Transport.Handlers.Wakes.{is_heartbeat, Wakes, handle_packet-Wakes}
use linkable.Pairing.Transport.Loop.{
  Round, is_requested, is_dropped, catch_dropped, opened, after_read, serve_rounds, stop_pump,
  others_draw, serve_transport,
}

-- The numbers rise, from lo on and below hi.
abbrev pub Rising : ℕ → List (ℕ × Reply) → ℕ → Type 0
Rising lo [] hi = lo ≤ hi
Rising lo ((n, r) ∷ sent) hi = (lo ≤ n) × Rising (suc n) sent hi

Rising-plus : (lo hi n : ℕ) (sent : List (ℕ × Reply)) → Rising lo sent hi → Rising lo sent (hi + n)
Rising-plus lo hi n [] h = omega arith
Rising-plus lo hi n ((k, r) ∷ sent) h = (h.0, Rising-plus (suc k) hi n sent h.1)

Rising-append :
    (lo hi : ℕ) (sent : List (ℕ × Reply)) (r : Reply)
    → Rising lo sent hi
    → Rising lo (sent ++ (hi, r) ∷ []) (hi + 1)
Rising-append lo hi [] r h = (h, omega arith)
Rising-append lo hi ((n, s) ∷ sent) r h = (h.0, Rising-append (suc n) hi sent r h.1)

abbrev Numbered : ServeWorld → Type 0
Numbered w = Rising 100 w.sent w.sequence_number

Effect-Numbered :
    (t : PacketType) (n : ℕ) (res : Result (Unit {0})) (w w' : ServeWorld)
    → Effect t n res w w'
    → Numbered w
    → Numbered w'
Effect-Numbered t n res w w' (Effect.silent e k _) h = rw (e, k) h
Effect-Numbered t n res w w' (Effect.answered r _ e k) h =
    rw (e, k) (Rising-append 100 w.sequence_number w.sent r h)
Effect-Numbered t n res w w' (Effect.lost x _ e k) h =
    rw (e, k) (Rising-plus 100 w.sequence_number 1 w.sent h)

escapes :
    (b : Bool) (y x : Exception)
    → if◌then◌else◌ {A = Result (Unit {0})} b (ok tt) (err y) ≡ err x
    → (b ≡ false) × (y ≡ x)
escapes true y x h = absurd (cc)
escapes false y x h = (refl, cc)

catch_dropped-stops :
    (res : Result (Unit {0})) (x : Exception) → is_dropped x ≡ true → catch_dropped res ≢ err x
unfolding catch_dropped
catch_dropped-stops (ok u) x d h = absurd (cc)
catch_dropped-stops (err y) x d h =
    let (out, same) = escapes (is_dropped y) y x h in
    true≢false (sym d ∙ ap is_dropped (sym same) ∙ out)

-- Nothing happens.
silent : (w : ServeWorld) → Wakes false w w
silent w = ground arith

module _ (d : ServeDesktop) where
  handle_packet-Numbered : (e : Envelope) → Keeps Numbered (handle_packet d e)
  handle_packet-Numbered e w h =
      Effect-Numbered e.packet_type e.sequence_number (handle_packet d e w).0 w
        (handle_packet d e w).1 (handle_packet-Effect d e w) h

  module _ (P : ServeWorld → Type 0) (each : (e : Envelope) → Keeps P (handle_packet d e))
      (drawing : (n : ℕ) → Keeps P (others_draw n)) where
    after_read-Keeps :
        (x : Result Envelope) (rest : Exec ServeWorld (Unit {0}))
        → Keeps P rest
        → Keeps P (after_read d x rest)
    unfolding after_read
    after_read-Keeps (ok e) rest h = bind-Keeps P (handle_packet d e) (λ _. rest) (each e) λ _. h
    after_read-Keeps (err timeout_error) rest h = h
    after_read-Keeps (err eof_error) rest h = λ w k. k
    after_read-Keeps (err _) rest h = λ w k. k

    if-Keeps :
        (b : Bool) (m : Exec ServeWorld (Unit {0})) → Keeps P m → Keeps P (if b then pure tt else m)
    if-Keeps true m h w k = k
    if-Keeps false m h w k = h w k

    -- What each packet keeps, the loop keeps.
    serve_rounds-Keeps : (rounds : List Round) → Keeps P (serve_rounds d rounds)
    unfolding serve_rounds
    serve_rounds-Keeps [] w h = h
    serve_rounds-Keeps (r ∷ rounds) w h =
        if-Keeps (is_requested r.disconnect_requested)
          (others_draw r.drawn >> after_read d r.read (serve_rounds d rounds))
          (bind-Keeps P (others_draw r.drawn) (λ _. after_read d r.read (serve_rounds d rounds))
            (drawing r.drawn)
            λ _. after_read-Keeps r.read (serve_rounds d rounds) (serve_rounds-Keeps rounds))
          w h

  draw-Numbered : (n : ℕ) → Keeps Numbered (others_draw n)
  unfolding others_draw
  draw-Numbered n w h = Rising-plus 100 w.sequence_number n w.sent h

  -- The replies that the read loop of a session writes are numbered from 100 on, each number above
  -- the one before, and the session's counter is above all of them, whatever arrives, whichever
  -- writes fail, and however many numbers the outgoing thread takes in each round.
  pub serve_transport-Rising :
      (rounds : List Round) (w : ServeWorld)
      → let v = (serve_transport d rounds w).1 in Rising 100 v.sent v.sequence_number
  unfolding serve_transport stop_pump
  serve_transport-Rising rounds w =
      serve_rounds-Keeps Numbered handle_packet-Numbered draw-Numbered rounds (opened w) start
    where
      start : Numbered (opened w)
      start = unfold opened in omega arith

  -- Whether a heartbeat is handled before the session ends.
  then_heard : (ServeWorld → Bool) → Result (Unit {0}) × ServeWorld → Bool
  then_heard rest (ok u, w) = rest w
  then_heard rest (err x, w) = false

  read_heard : Result Envelope → (ServeWorld → Bool) → ServeWorld → Bool
  unfolding then_heard
  read_heard (ok e) rest w = is_heartbeat e.packet_type || then_heard rest (handle_packet d e w)
  read_heard (err timeout_error) rest w = rest w
  read_heard (err _) rest w = false

  unfoldable pub heard : List Round → ServeWorld → Bool
  unfolding read_heard others_draw
  heard [] w = false
  heard (r ∷ rounds) w =
      let rest = heard rounds in
      if is_requested r.disconnect_requested
      then false
      else read_heard r.read rest (others_draw r.drawn w).1

  module _ (rest : Exec ServeWorld (Unit {0})) (heard_later : ServeWorld → Bool)
      (later : (w : ServeWorld) → Wakes (heard_later w) w (rest w).1) where
    then-Wakes :
        (beats : Bool) (w : ServeWorld) (x : Result (Unit {0}) × ServeWorld)
        → Wakes beats w x.1
        → Wakes (beats || then_heard heard_later x) w (bind_result (λ _. rest) x).1
    unfolding then_heard
    then-Wakes beats w (ok u, v) h = ground (arith, h, later v)
    then-Wakes beats w (err x, v) h = ground (arith, h)

    after_read-Wakes :
        (x : Result Envelope) (w : ServeWorld)
        → Wakes (read_heard x heard_later w) w (after_read d x rest w).1
    unfolding after_read read_heard
    after_read-Wakes (ok e) w =
        then-Wakes (is_heartbeat e.packet_type) w (handle_packet d e w) (handle_packet-Wakes d e w)
    after_read-Wakes (err timeout_error) w = later w
    after_read-Wakes (err eof_error) w = silent w
    after_read-Wakes (err _) w = silent w

  serve_rounds-Wakes :
      (rounds : List Round) (w : ServeWorld) → Wakes (heard rounds w) w (serve_rounds d rounds w).1
  unfolding serve_rounds heard others_draw
  serve_rounds-Wakes [] w = silent w
  serve_rounds-Wakes (r ∷ rounds) w = elim (Bool-cases (is_requested r.disconnect_requested)) [
    | inl asked ↦ rw asked (silent w)
    | inr stays ↦ rw stays (
        after_read-Wakes (serve_rounds d rounds) (heard rounds) (serve_rounds-Wakes rounds) r.read
          (others_draw r.drawn w).1)
  ]

  -- However a session ends, the stop event is set, and the loop has released one permit for the
  -- end, after one more exactly if a heartbeat was handled. None of OSError, TimeoutError,
  -- FileNotFoundError and EOFError escapes.
  pub serve_transport-Ended :
      (rounds : List Round) (w : ServeWorld)
      → let (res, v) = serve_transport d rounds w in
        (v.stopped ≡ true)
        × (v.wakeups ≡ w.wakeups + (if heard rounds (opened w) then 2 else 1))
        × (res ≢ err os_error)
        × (res ≢ err timeout_error)
        × (res ≢ err file_not_found_error)
        × (res ≢ err eof_error)
  unfolding serve_transport stop_pump
  serve_transport-Ended rounds w = (
    refl,
    counted,
    catch_dropped-stops (serve_rounds d rounds (opened w)).0 os_error refl,
    catch_dropped-stops (serve_rounds d rounds (opened w)).0 timeout_error refl,
    catch_dropped-stops (serve_rounds d rounds (opened w)).0 file_not_found_error refl,
    catch_dropped-stops (serve_rounds d rounds (opened w)).0 eof_error refl,
  )
    where
      counted :
          (serve_rounds d rounds (opened w)).1.wakeups + 1
          ≡ w.wakeups + (if heard rounds (opened w) then 2 else 1)
      counted = unfold opened in ground (arith, serve_rounds-Wakes rounds (opened w))
