-- ===== src/Examples/Transport.antt =====
-- The transport at concrete streams.
use linkable.Prelude.{◌≡◌, ◌≢◌, refl, [], ◌∷◌, ◌++◌, Bytes, arith}
use linkable.Prelude.Exec.{ok, err, no_fuel}
use linkable.Transport.Framing.{frame, read_envelope, read_envelope-frame, read_envelope-Terminates}
use linkable.Examples.Fixtures.{drip, plain}

read_envelope-frame_example :
    (s' : Bytes) × (read_envelope plain drip 100 (frame plain (7 ∷ 8 ∷ 9 ∷ []) ++ 1 ∷ [])
      ≡ (ok (7 ∷ 8 ∷ 9 ∷ []), s'))
    × (s' ≡ 1 ∷ [])
read_envelope-frame_example =
    read_envelope-frame plain drip 100 (7 ∷ 8 ∷ 9 ∷ []) (frame plain (7 ∷ 8 ∷ 9 ∷ []) ++ 1 ∷ [])
      (1 ∷ []) (omega arith) (omega arith, omega arith) refl

read_envelope-Terminates_example : (read_envelope plain drip 100 (0 ∷ 0 ∷ [])).0 ≢ err no_fuel
read_envelope-Terminates_example = read_envelope-Terminates plain drip 100 (0 ∷ 0 ∷ [])
