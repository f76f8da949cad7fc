-- ===== src/Examples/Crypto.antt =====
-- The encrypted channel at concrete envelopes.
use linkable.Prelude.{ℕ, ◌≡◌, ◌≢◌, refl, List, [], ◌∷◌, ◌++◌, Bytes, arith}
use linkable.Prelude.Encoding.{to_bytes, from_bytes}
use linkable.Transport.Stream.{read_exact}
use linkable.Prelude.Exec.{ok, err, value_error}
use linkable.Crypto.Channel.{
  Channel, nonce, check_and_mark, is_seen, write_envelope, read_envelope, write_all, read_many,
}
use linkable.Crypto.Channel.RoundTrip.{read_many-write_all}
use linkable.Crypto.Channel.Replay.{replay-refused, nonce_never_reused}
use linkable.Examples.Fixtures.{drip, plain, tagging}

abbrev writer : Channel drip
writer = record {
  stream = [];
  written = [];
  send_key = 5 ∷ [];
  receive_key = 6 ∷ [];
  max_frame_size = 100;
  send_counter = 0;
  seen = [];
}

abbrev two : List Bytes
two = (1 ∷ 2 ∷ []) ∷ (3 ∷ []) ∷ []

-- The other end, to which these bytes come.
abbrev reader : Bytes → Channel drip
reader bytes = record {
  stream = bytes;
  written = [];
  send_key = 6 ∷ [];
  receive_key = 5 ∷ [];
  max_frame_size = 100;
  send_counter = 0;
  seen = [];
}

read_many-write_all_example :
    ((write_all plain tagging two writer).0 ≡ ok tt)
    × ((read_many plain tagging 2 (reader (write_all plain tagging two writer).1.written)).0
        ≡ ok two)
unfolding write_all write_envelope to_bytes
read_many-write_all_example =
    read_many-write_all plain tagging writer (reader (write_all plain tagging two writer).1.written)
      two [] refl refl (omega arith) (omega arith, (omega arith, tt)) (omega arith) tt refl

-- A frame with the counter 0.
abbrev one_frame : Bytes
one_frame =
    (0 ∷ 0 ∷ 0 ∷ 0 ∷ 0 ∷ 0 ∷ 0 ∷ 0 ∷ [])
    ++ (7 ∷ 9 ∷ 9 ∷ 9 ∷ 9 ∷ 9 ∷ 9 ∷ 9 ∷ 9 ∷ 9 ∷ 9 ∷ 9 ∷ 9 ∷ 9 ∷ 9 ∷ 9 ∷ 9 ∷ [])

abbrev twice : Channel drip
twice = reader ((to_bytes 4 25 ++ one_frame) ++ (to_bytes 4 25 ++ one_frame))

replay-refused_example :
    (read_envelope plain tagging
      (read_many plain tagging 0 (read_envelope plain tagging twice).1).1).0
    ≡ err value_error
unfolding read_envelope read_many to_bytes read_exact from_bytes check_and_mark is_seen
replay-refused_example =
    replay-refused plain tagging twice one_frame (to_bytes 4 25 ++ one_frame) 0 one_frame []
      (7 ∷ []) (refl, omega arith, omega arith, omega arith) refl
      (refl, omega arith, omega arith, omega arith) refl

abbrev nonce_bytes : ℕ → Bytes
nonce_bytes n = 0 ∷ 0 ∷ 0 ∷ 0 ∷ to_bytes 8 n

nonce_never_reused_example : nonce_bytes 0 ≢ nonce_bytes 3
unfolding write_all nonce write_envelope to_bytes
nonce_never_reused_example =
    nonce_never_reused plain tagging writer (4 ∷ []) two (nonce_bytes 0) (nonce_bytes 3) refl refl
      refl
