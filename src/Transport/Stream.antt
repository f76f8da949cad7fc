-- ===== src/Transport/Stream.antt =====
-- Reading an exact number of bytes from a stream: the loop `_read_exact` of
-- desktop/src/linkable_desktop/transport/framing.py.
use linkable.Prelude.{
  ℕ, zero, suc, ◌+◌, ◌-◌, ◌≤◌, ◌<◌, ◌≡◌, refl, sym, ap, ◌∙◌, true, false, [], ◌∷◌, ◌++◌,
  append_assoc, arith, Bytes, length, take, drop, length-append, take-append_exact,
  drop-append_exact, ltb, leb, ltb→lt, lt→ltb, ltb_false→le, leb→le, leb_false→lt, Bool-cases, inl,
  inr, subst,
}
use linkable.Prelude.Exec.{Result, ok, err, Exec, eof_error, no_fuel, Terminates}

-- What the program relies on of a buffered binary stream: `read n` returns some of the next bytes
-- of the stream, at most n of them, and none only at the end (or where n is 0). `pending` is what
-- the stream will still deliver before its end.
pub record Reader : Type 1 where
  pub Stream : Type 0
  pub read : ℕ → Stream → Bytes × Stream
  pub pending : Stream → Bytes
  pub read_splits : (n : ℕ) (s : Stream) → pending s ≡ (read n s).0 ++ pending (read n s).1
  pub read_bounded : (n : ℕ) (s : Stream) → length (read n s).0 ≤ n
  pub read_progress : (n : ℕ) (s : Stream) → 0 < n → (read n s).0 ≡ [] → pending s ≡ []

module _ (r : Reader) where
  open r use {Stream, read, pending, read_splits, read_bounded, read_progress}

  -- `if not chunk: raise EOFError`, or the rest of the loop on the chunk.
  or_eof : (Bytes → Stream → Result Bytes × Stream) → Bytes → Stream → Result Bytes × Stream
  or_eof k [] s = (err eof_error, s)
  or_eof k (b ∷ bs) s = k (b ∷ bs) s

  -- The `while` loop over the bytes read so far. Each round reads a byte at least.
  read_loop : ℕ → ℕ → Bytes → Exec Stream Bytes
  read_loop zero n got s = (err no_fuel, s)
  read_loop (suc f) n got s = elim (ltb (length got) n) [
    | true ↦
        let (chunk, s') = read (n - length got) s in or_eof (λ c. read_loop f n (got ++ c)) chunk s'
    | false ↦ (ok got, s)
  ]

  unfoldable pub read_exact : ℕ → Exec Stream Bytes
  unfolding read_loop or_eof
  read_exact n = read_loop (suc n) n []

  or_eof-cases :
      (P : Result Bytes × Stream → Type 0) (k : Bytes → Stream → Result Bytes × Stream)
      (chunk : Bytes) (s : Stream)
      → (chunk ≡ [] → P (err eof_error, s))
      → (0 < length chunk → P (k chunk s))
      → P (or_eof k chunk s)
  unfolding or_eof
  or_eof-cases P k [] s ended more = ended refl
  or_eof-cases P k (b ∷ bs) s ended more = more (omega arith)

  abbrev Reads : ℕ → Bytes → Result Bytes × Stream → Type 0
  Reads n whole (res, s) = (res ≡ ok (take n whole)) × (pending s ≡ drop n whole)

  -- What a round has read, put before what is left, is what was there.
  regroup :
      (n : ℕ) (got : Bytes) (s : Stream)
      → got ++ pending s ≡ (got ++ (read n s).0) ++ pending (read n s).1
  regroup n got s = rw append_assoc (ap (◌++◌ got) (read_splits n s))

  read_loop_enough :
      (f n : ℕ) (got : Bytes) (s : Stream)
      → n < f + length got
      → length got ≤ n
      → n ≤ length (got ++ pending s)
      → Reads n (got ++ pending s) (read_loop f n got s)
  unfolding read_loop
  read_loop_enough zero n got s hf hg hp = absurd (omega arith)
  read_loop_enough (suc f) n got s hf hg hp = elim (Bool-cases (ltb (length got) n)) [
    | inl more ↦
        rw (more, read_loop)
          (or_eof-cases (Reads n (got ++ pending s)) (λ c. read_loop f n (got ++ c)) chunk s'
            (λ ended. absurd (
              omega (
                arith,
                ltb→lt _ _ more,
                length-append got (pending s),
                ap length (read_progress k s (omega (arith, ltb→lt _ _ more)) ended),
              )))
            (λ some_read.
              subst (λ w. Reads n w (read_loop f n (got ++ chunk) s')) (sym (regroup k got s))
                (read_loop_enough f n (got ++ chunk) s' (omega (arith, length-append got chunk))
                  (omega (arith, length-append got chunk, read_bounded k s, ltb→lt _ _ more))
                  (omega (arith, ap length (regroup k got s))))))
    | inr full ↦
        rw (full, read_loop)
          (
            ap ok
                (sym (take-append_exact n got (pending s) (omega (arith, ltb_false→le _ _ full)))),
            sym (drop-append_exact n got (pending s) (omega (arith, ltb_false→le _ _ full))),
          )
  ]
    where
      k : ℕ
      k = n - length got

      chunk : Bytes
      chunk = (read k s).0

      s' : Stream
      s' = (read k s).1

  read_loop_short :
      (f n : ℕ) (got : Bytes) (s : Stream)
      → n < f + length got
      → length (got ++ pending s) < n
      → (read_loop f n got s).0 ≡ err eof_error
  unfolding read_loop
  read_loop_short zero n got s hf hp = absurd (omega (arith, length-append got (pending s)))
  read_loop_short (suc f) n got s hf hp =
      rw (lt→ltb (length got) n (omega (arith, length-append got (pending s))), read_loop)
        (or_eof-cases (λ (x : Result Bytes × Stream). x.0 ≡ err eof_error)
          (λ c. read_loop f n (got ++ c)) chunk s' (λ _. refl)
          (λ some_read.
            read_loop_short f n (got ++ chunk) s' (omega (arith, length-append got chunk))
              (omega (arith, ap length (regroup k got s)))))
    where
      k : ℕ
      k = n - length got

      chunk : Bytes
      chunk = (read k s).0

      s' : Stream
      s' = (read k s).1

  -- If the stream still holds n bytes, `read_exact n` returns exactly the next n of them, however
  -- the stream cuts its chunks, and leaves the rest.
  pub read_exact-enough :
      (n : ℕ) (s : Stream)
      → n ≤ length (pending s)
      → ((read_exact n s).0 ≡ ok (take n (pending s)))
        × (pending (read_exact n s).1 ≡ drop n (pending s))
  unfolding read_exact
  read_exact-enough n s h = read_loop_enough (suc n) n [] s (omega arith) (omega arith) h

  -- If it holds fewer, the call raises `EOFError`.
  pub read_exact-short :
      (n : ℕ) (s : Stream) → length (pending s) < n → (read_exact n s).0 ≡ err eof_error
  unfolding read_exact
  read_exact-short n s h = read_loop_short (suc n) n [] s (omega arith) h

  -- If the stream still delivers the bytes xs and then more, a read of exactly as many bytes as xs
  -- has returns xs and leaves the rest, however the stream cuts its chunks.
  pub read_exact-append :
      (n : ℕ) (s : Stream) (xs rest : Bytes)
      → length xs ≡ n
      → pending s ≡ xs ++ rest
      → (s' : Stream) × (read_exact n s ≡ (ok xs, s')) × (pending s' ≡ rest)
  read_exact-append n s xs rest h e =
      let (p, q) = read_exact-enough n s (omega (arith, ap length e, length-append xs rest)) in
      (
        (read_exact n s).1,
        (λ i. (first p i, (read_exact n s).1)),
        q ∙ ap (drop n) e ∙ drop-append_exact n xs rest h,
      )
    where
      first : (read_exact n s).0 ≡ ok (take n (pending s)) → (read_exact n s).0 ≡ ok xs
      first p = p ∙ ap ok (ap (take n) e ∙ take-append_exact n xs rest h)

  -- The loop always ends.
  pub read_exact-Terminates : (n : ℕ) → Terminates (read_exact n)
  read_exact-Terminates n s e = elim (Bool-cases (leb n (length (pending s)))) [
    | inl enough ↦ cc ((read_exact-enough n s (leb→le _ _ enough)).0)
    | inr short ↦ cc (read_exact-short n s (leb_false→lt _ _ short))
  ]
