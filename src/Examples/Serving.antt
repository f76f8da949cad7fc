-- ===== src/Examples/Serving.antt =====
-- A session in which a ping, a heartbeat and an unknown packet arrive.
use linkable.Prelude.{◌≡◌, ◌≢◌, true, false, none, some, List, [], ◌∷◌, codes}
use linkable.Prelude.Exec.{ok, err, os_error, eof_error, file_not_found_error, timeout_error}
use linkable.Pairing.Transport.{Envelope, PacketType, ServeDesktop, ServeWorld}
use linkable.Pairing.Transport.Handlers.{handle_packet}
use linkable.Pairing.Transport.Handlers.Effects.{Effect}
use linkable.Pairing.Transport.Handlers.Answers.{handle_packet-Effect}
use linkable.Pairing.Transport.Loop.{Round, serve_transport, opened}
use linkable.Pairing.Transport.Loop.Ending.{
  Rising, heard, serve_transport-Rising, serve_transport-Ended,
}
use linkable.Examples.Fixtures.{ascii, digit}
use linkable.Examples.Input.{tools, scrolling}

abbrev desktop : ServeDesktop
desktop = record {
  int = digit;
  device_id = codes "d";
  device_name = codes "pc";
  identity_public_key = [];
  protocol_version = codes "1.0.0";
  service_port = codes "4001";
  platform = ascii;
  sha256 = λ b. b;
  controller = tools;
  parse_ping = λ b. some (record { token = b; sent_at = 5 });
  parse_notification = λ b. none;
  parse_offer = λ b. none;
  parse_chunk = λ b. none;
  parse_complete = λ b. none;
  parse_input = λ b. some scrolling;
  parse_event = λ t b. some false;
  prompt_notification_replies = false;
  prompt_reply = λ app title actions. none;
}

abbrev fresh : ServeWorld
fresh = record {
  sent = [];
  failures = [];
  sequence_number = 0;
  receiver = record { files = []; download_dir = []; active = [] };
  log = [];
  records = [];
  transport_ready = false;
  wakeups = 0;
  stopped = false;
}

abbrev arrives : PacketType → Round
arrives t = record {
  disconnect_requested = some false;
  drawn = 2;
  read = ok (record { packet_type = t; sequence_number = 7; payload = 1 ∷ [] });
}

abbrev session : List Round
session =
    arrives PacketType.ping
    ∷ record { disconnect_requested = none; drawn = 0; read = err timeout_error }
    ∷ arrives PacketType.heartbeat
    ∷ arrives (PacketType.other_type 99)
    ∷ []

abbrev unknown_packet : Envelope
unknown_packet = record {
  packet_type = PacketType.other_type 99;
  sequence_number = 7;
  payload = [];
}

handle_packet-Effect_example :
    Effect
      (PacketType.other_type 99)
      7
      (handle_packet desktop unknown_packet fresh).0
      fresh
      (handle_packet desktop unknown_packet fresh).1
handle_packet-Effect_example = handle_packet-Effect desktop unknown_packet fresh

serve_transport-Rising_example :
    let v = (serve_transport desktop session fresh).1 in Rising 100 v.sent v.sequence_number
serve_transport-Rising_example = serve_transport-Rising desktop session fresh

serve_transport-Ended_example :
    let (res, v) = serve_transport desktop session fresh in
    (v.stopped ≡ true)
    × (v.wakeups ≡ 2)
    × (res ≢ err os_error)
    × (res ≢ err timeout_error)
    × (res ≢ err file_not_found_error)
    × (res ≢ err eof_error)
unfolding heard opened handle_packet
serve_transport-Ended_example = serve_transport-Ended desktop session fresh
