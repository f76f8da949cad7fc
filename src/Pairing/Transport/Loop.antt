-- ===== src/Pairing/Transport/Loop.antt =====
-- The loop over the encrypted transport, its `except` and its `finally`.
use linkable.Prelude.{
  ℕ, ◌+◌, Bool, true, false, not, Option, none, some, List, [], ◌∷◌, ◌++◌, Text, Bytes, codes,
  if◌then◌else◌,
}
use linkable.Prelude.Exec.{
  Exception, os_error, eof_error, timeout_error, file_not_found_error, decode_error, value_error,
  Result, ok, err, Exec, ◌>>=◌, ◌>>◌, lift, pure, raise, or_raise, raise_if,
}
use linkable.Transfer.{FileOffer, FileChunk, FileComplete}
use linkable.Transfer.Names.{Platform}
use linkable.Transfer.Receiver.{
  FileReceiver, FileTransferResult, handle_offer, handle_chunk, handle_complete,
}
use linkable.Session.Auth.{PeerDescriptor, ProtocolVersion}
use linkable.Input.Control.{Controller, DesktopInputRequest, DesktopInputResult, Log, handle}
use linkable.Pairing.Server.{parts, split_dots}
use linkable.Pairing.Transport.{Envelope, ServeDesktop, ServeWorld}
use linkable.Pairing.Transport.Handlers.{handle_packet}
pub mod Ending

-- One round: what the provider answers, if there is one, how many sequence numbers the outgoing
-- thread takes since the round before, and how the read ends. What the outgoing thread takes while
-- a packet is handled counts for this round or the next one, since handling takes one number at
-- most.
pub record Round : Type 0 where
  pub disconnect_requested : Option Bool
  pub drawn : ℕ
  pub read : Result Envelope

abbrev is_requested : Option Bool → Bool
is_requested none = false
is_requested (some b) = b

-- The exceptions that the `except` clause names: OSError with its subclasses, and EOFError.
unfoldable pub is_dropped : Exception → Bool
is_dropped os_error = true
is_dropped eof_error = true
is_dropped timeout_error = true
is_dropped file_not_found_error = true
is_dropped _ = false

catch_dropped : Result (Unit {0}) → Result (Unit {0})
unfolding is_dropped
catch_dropped (ok u) = ok u
catch_dropped (err x) = if is_dropped x then ok tt else err x

-- The locals at the start of a session, on the state of the process.
unfoldable pub opened : ServeWorld → ServeWorld
opened w = record w {
  sent = [];
  sequence_number = 100;
  receiver = record w.receiver { active = [] };
  transport_ready = false;
  stopped = false;
}

-- The outgoing thread calls `next_sequence`, which is common to both threads, n times.
others_draw : ℕ → Exec ServeWorld (Unit {0})
others_draw n w = (ok tt, record w { sequence_number = w.sequence_number + n })

module _ (d : ServeDesktop) where
  -- What follows a read: the packet's branch and the next rounds, or an `except` clause.
  after_read : Result Envelope → (rest : Exec ServeWorld (Unit {0})) → Exec ServeWorld (Unit {0})
  unfolding handle_packet
  after_read (ok e) rest = handle_packet d e >> rest
  after_read (err timeout_error) rest = rest
  after_read (err eof_error) rest = pure tt
  after_read (err x) rest = raise x

  -- The `while` loop; after the listed rounds the phone closes the connection.
  serve_rounds : List Round → Exec ServeWorld (Unit {0})
  unfolding after_read others_draw
  serve_rounds [] = pure tt
  serve_rounds (r ∷ rounds) =
      let rest = serve_rounds rounds in
      if is_requested r.disconnect_requested
      then pure tt
      else (others_draw r.drawn >> after_read r.read rest)

  -- stop_outgoing.set() and outgoing_wakeup.release()
  stop_pump : ServeWorld → ServeWorld
  stop_pump w = record w { stopped = true; wakeups = w.wakeups + 1 }

  unfoldable pub serve_transport : List Round → Exec ServeWorld (Unit {0})
  unfolding opened serve_rounds catch_dropped stop_pump
  serve_transport rounds w =
      let (result, w') = serve_rounds rounds (opened w) in (catch_dropped result, stop_pump w')
