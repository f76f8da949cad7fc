-- ===== src/Discovery/Endpoint.antt =====
-- The endpoint that a user types in: discovery/fallback.py. `str.strip` and `int` are parameters;
-- `int` fails where Python's raises `ValueError`.
use linkable.Prelude.{
  ℕ, suc, ◌+◌, ◌<◌, ◌≡◌, ◌≢◌, refl, ◌∙◌, false, not, ◌&&◌, Option, none, some, [], ◌∷◌, ◌++◌, Text,
  if◌then◌else◌, nat_eqb, ◌==◌, nat_eq, list_eq, list_beq, arith, All, length,
}
use linkable.Prelude.Int.{ℤ, pos, negsuc}
use linkable.Prelude.Decimal.{to_text, IsDigit, to_text-All, length-to_text_pos}
use linkable.Prelude.Exec.{Result, ok, err, value_error}

pub record DirectConnectCandidate : Type 0 where
  pub host : Text
  pub port : ℤ

-- str(port)
unfoldable pub port_text : ℤ → Text
port_text (pos n) = to_text n
port_text (negsuc n) = b'-' ∷ to_text (suc n)

unfoldable pub endpoint : DirectConnectCandidate → Text
unfolding port_text
endpoint c = c.host ++ b':' ∷ port_text c.port

-- text.count(c) of one character
unfoldable pub count : ℕ → Text → ℕ
count c [] = 0
count c (x ∷ xs) = let rest = count c xs in if nat_eqb x c then suc rest else rest

-- text.partition(c): what stands before the first c and after it. A text with one c is cut at the
-- same place by rsplit(c, 1).
unfoldable pub partition : ℕ → Text → Text × Text
partition c [] = ([], [])
partition c (x ∷ xs) =
    let (before, after) = partition c xs in if nat_eqb x c then ([], xs) else (x ∷ before, after)

module _ (strip : Text → Text) (int : Text → Option ℤ) (default_port : ℤ) where
  candidate : Text → Option ℤ → Result DirectConnectCandidate
  candidate host none = err value_error
  candidate host (some port) = ok record { host = host; port = port }

  -- The part after "]".
  bracketed : Text → Text → Result DirectConnectCandidate
  unfolding candidate
  bracketed [] tail = err value_error
  bracketed (h ∷ host) [] = candidate (h ∷ host) (some default_port)
  bracketed (h ∷ host) (c ∷ tail) =
      if nat_eqb c b':' then candidate (h ∷ host) (int tail) else err value_error

  -- A text that does not start with "[" or has no "]".
  unbracketed : Text → Result DirectConnectCandidate
  unfolding candidate count partition
  unbracketed value =
      let (host, port) = partition b':' value in
      if nat_eqb (count b':' value) 1 && not (host == []) && not (port == [])
      then candidate host (int port)
      else candidate value (some default_port)

  of_stripped : Text → Result DirectConnectCandidate
  unfolding bracketed unbracketed count partition
  of_stripped [] = err value_error
  of_stripped (c ∷ value) =
      let (host, tail) = partition b']' value in
      if nat_eqb c b'[' && not (nat_eqb (count b']' value) 0)
      then bracketed host tail
      else unbracketed (c ∷ value)

  unfoldable pub parse_direct_connect_endpoint : Text → Result DirectConnectCandidate
  unfolding of_stripped
  parse_direct_connect_endpoint raw = of_stripped (strip raw)

count-append : (c : ℕ) (xs ys : Text) → count c (xs ++ ys) ≡ count c xs + count c ys
unfolding count
count-append c [] ys = omega arith
count-append c (x ∷ xs) ys = ground (arith, count-append c xs ys)

partition-append : (c : ℕ) (xs ys : Text) → count c xs ≡ 0 → partition c (xs ++ c ∷ ys) ≡ (xs, ys)
unfolding partition count
partition-append c [] ys h = ground arith
partition-append c (x ∷ xs) ys h = ground (arith, partition-append c xs ys)

count-digits : (c : ℕ) (t : Text) → b'9' < c → All IsDigit t → count c t ≡ 0
unfolding count
count-digits c [] h d = refl
count-digits c (x ∷ t) h d = ground (arith, count-digits c t h d.1, d.0.1)

to_text-nonempty : (n : ℕ) → (to_text n == []) ≡ false
unfolding list_beq
to_text-nonempty n = go (to_text n) (length-to_text_pos n)
  where
    go : (t : Text) → 0 < length t → (t == []) ≡ false
    go [] h = absurd (omega arith)
    go (x ∷ t) h = refl

-- The endpoint of a candidate whose host is not empty, has no ":" and does not begin with "[", and
-- whose port is not negative, parses back to the candidate, if `strip` leaves it as it is and `int`
-- reads the port's digits.
pub parse-endpoint :
    (strip : Text → Text) (int : Text → Option ℤ) (default_port : ℤ) (h : ℕ) (host : Text) (n : ℕ)
    → h ≢ b'['
    → count b':' (h ∷ host) ≡ 0
    → int (to_text n) ≡ some (pos n)
    → strip (endpoint (record { host = h ∷ host; port = pos n }))
      ≡ endpoint (record { host = h ∷ host; port = pos n })
    → parse_direct_connect_endpoint strip int default_port
        (endpoint (record { host = h ∷ host; port = pos n }))
      ≡ ok (record { host = h ∷ host; port = pos n })
unfolding parse_direct_connect_endpoint endpoint of_stripped unbracketed candidate list_beq
parse-endpoint strip int default_port h host n bracket colon reads stays =
    rw (stays, not_bracket, cut, one, to_text-nonempty n, reads) refl
  where
    not_bracket : nat_eqb h b'[' ≡ false
    not_bracket = ground arith

    cut : partition b':' (h ∷ (host ++ b':' ∷ to_text n)) ≡ (h ∷ host, to_text n)
    cut = partition-append b':' (h ∷ host) (to_text n) colon

    one : count b':' (h ∷ (host ++ b':' ∷ to_text n)) ≡ 1
    one =
        count-append b':' (h ∷ host) (b':' ∷ to_text n)
        ∙ (unfold count in
            omega (arith, colon, count-digits b':' (to_text n) (omega arith) (to_text-All n)))
