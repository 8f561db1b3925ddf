-- ===== src/Network/Tests.antt =====
-- Concrete runs of the packets, and the theorems of Network at inputs that meet their hypotheses.
use starfall.Base.{
  All, ◌-◌, ◌==◌, if◌then◌else◌, ℕ, ◌≡◌, refl, List, [], ◌∷◌, ◌++◌, true, false, arith, length,
}
use starfall.Base.Action.{ok, fault, socket_error, Action}
use starfall.Network.Runtime.{IsByte, text, Floats, Vector3, Quaternion}
use starfall.Network.Buffer.{
  Buffer, new_buffer, write_uint8, push, push_all, rewind, write_uint32, write_string,
}
use starfall.Network.Buffer.Writing.{uint32_bytes}
use starfall.Network.Buffer.Reading.{advance}
use starfall.Network.Structs.{
  LoginStruct, GuiStruct, Player, DestroyEntityStruct, CreateEntityStruct, TransformEntityStruct,
}
use starfall.Network.Send.{
  console_data, enqueue, packet, opcode_of, run_send, write_login, marked, headed, padded, pad,
  write_body_size, pop_byte, replace_byte,
}
use starfall.Network.Send.Framing.{header_bytes}
use starfall.Network.Send.Bodies.{
  login_bytes, body_bytes, sent_packet, queue_packet, drained, enqueue_lem,
}
use starfall.Network.Receive.{
  create_entity, receive_map, run_receive, receive_login, receive_create,
}
use starfall.Network.Receive.Reading.{IsLogin, IsCreate, create_bytes, transform_entity_bytes}
use starfall.Network.Receive.Queues.{counted_bytes, with_creates, receive_create_lem}
use starfall.Network.Receive.Frame.{Untouched, run_receive-Untouched}
use starfall.Network.Receive.Truncated.{blank, receive_create_truncated}
use starfall.Network.Client.{
  TcpClient, GameClient, new_client, init, send_packets, receive_packet, dispatch, filled_buffer,
}
use starfall.Network.Client.Sending.{send_packets_failure, logged_out}
use starfall.Network.Client.Receiving.{receive_packet_lem}
use starfall.Network.Client.Login.{receive_login_lem, logged_in, init_logs_in}

-- Three floats with their IEEE bytes, on a little-endian machine.
pub data Sample : Type 0 where
  zero_sample one_sample minus_two : Sample

abbrev pub sample_bytes : Sample → List ℕ
sample_bytes zero_sample = 0 ∷ (0 ∷ (0 ∷ (0 ∷ [])))
sample_bytes one_sample = 0 ∷ (0 ∷ (128 ∷ (63 ∷ [])))
sample_bytes minus_two = 0 ∷ (0 ∷ (0 ∷ (192 ∷ [])))

abbrev pub sample_single : List ℕ → Sample
sample_single (a ∷ (b ∷ (c ∷ (d ∷ [])))) =
    if d == 63 then one_sample else if d == 192 then minus_two else zero_sample
sample_single _ = zero_sample

pub length-sample_bytes : (f : Sample) → length (sample_bytes f) ≡ 4
length-sample_bytes zero_sample = refl
length-sample_bytes one_sample = refl
length-sample_bytes minus_two = refl

pub sample_bytes-IsByte : (f : Sample) → All IsByte (sample_bytes f)
sample_bytes-IsByte zero_sample = omega arith
sample_bytes-IsByte one_sample = omega arith
sample_bytes-IsByte minus_two = omega arith

pub sample_trip : (f : Sample) → sample_single (sample_bytes f) ≡ f
sample_trip zero_sample = refl
sample_trip one_sample = refl
sample_trip minus_two = refl

abbrev pub floats : Floats Sample
floats = record {
  zero_float = zero_sample;
  one_float = one_sample;
  is_little_endian = true;
  get_bytes = sample_bytes;
  to_single = sample_single;
  length-get_bytes = length-sample_bytes;
  get_bytes-IsByte = sample_bytes-IsByte;
  to_single-get_bytes = sample_trip;
}

-- A connection that records what is sent and gives out prepared chunks; it takes `room` packets.
pub record Wire : Type 0 where
  pub sent : List (List ℕ)
  pub inbox : List (List ℕ)
  pub room : ℕ

abbrev pub take_chunk : List (List ℕ) → Action Wire (List ℕ)
take_chunk [] w = (ok [], w)
take_chunk (chunk ∷ inbox) w = (ok chunk, record w { inbox = inbox })

abbrev pub wire_tcp : TcpClient Wire
wire_tcp = record {
  connect = λ address port w. (ok tt, w);
  connected = λ w. true;
  send = λ bytes w.
      if w.room == 0
      then (fault socket_error, w)
      else (ok tt, record w { sent = w.sent ++ (bytes ∷ []); room = w.room - 1 });
  receive = λ n w. take_chunk w.inbox w;
  close = λ w. record w { inbox = [] };
}

abbrev reply : LoginStruct
reply = record { state = 1; userid = 77; usertype = 2; username = text "ada"; password = text "pw" }

abbrev pub wire : Wire
wire = record {
  sent = [];
  inbox = header_bytes 0x10000001 (length (login_bytes reply)) ∷ (login_bytes reply ∷ []);
  room = 3;
}

abbrev form : GuiStruct
form = record {
  connection_status = false;
  message = [];
  user_field = text "ada";
  password_field = text "pw";
}

abbrev pub client : GameClient Sample Wire
client = new_client floats wire (text "localhost") 3000

-- What the client asks with, and the connection after that and after each chunk of the answer.
abbrev asked : LoginStruct
asked = record { state = 0; userid = 0; usertype = 0; username = text "ada"; password = text "pw" }

abbrev asked_wire : Wire
asked_wire = record wire {
  sent = (header_bytes 1 (length (login_bytes asked)) ++ login_bytes asked) ∷ [];
  room = 2;
}

abbrev end_wire : Wire
end_wire = record asked_wire { inbox = [] }

abbrev half_wire : Wire
half_wire = record asked_wire { inbox = login_bytes reply ∷ [] }

reply-IsLogin : IsLogin reply
reply-IsLogin = omega arith

init_logs_in_example : init floats wire_tcp form client ≡ (
  ok (record form { message = text "Logging in..."; connection_status = true }),
  logged_in floats wire_tcp reply end_wire client,
)
unfolding enqueue run_send packet write_login write_uint32 write_uint8 write_string push push_all
    rewind new_buffer marked headed padded pad write_body_size pop_byte replace_byte opcode_of
init_logs_in_example =
    init_logs_in floats wire_tcp form reply client wire half_wire end_wire refl refl (refl, tt) refl
      refl reply-IsLogin (omega arith) (omega arith) (omega arith) (omega arith) refl

-- A player with two lines for the console.
abbrev talker : Player Sample
talker = record (client.player) {
  user = record (client.player.user) { console_queue = text "hi" ∷ (text "bye" ∷ []) };
}

enqueue_lem_example : enqueue floats console_data talker ≡ (
  true,
  queue_packet
      (sent_packet (opcode_of console_data) (body_bytes floats console_data talker))
      (drained floats console_data talker),
)
enqueue_lem_example = enqueue_lem floats console_data talker (omega arith)

-- A packet on the wire, before it is read.
abbrev arrived : List ℕ → Buffer
arrived bytes = record { bytes = bytes; wpos = 0; rpos = 0 }

abbrev doomed : List DestroyEntityStruct
doomed = record { sessionid = 9 } ∷ (record { sessionid = 4 } ∷ [])

abbrev pub here : Vector3 Sample
here = record { x = one_sample; y = minus_two; z = zero_sample }

abbrev pub upright : Quaternion Sample
upright = record { x = zero_sample; y = zero_sample; z = zero_sample; w = one_sample }

abbrev pub ship : CreateEntityStruct Sample
ship = record {
  display_name = text "ship";
  appearance = [];
  sessionid = 5;
  mode = 2;
  position = here;
  rotation = upright;
}

ship-IsCreate : IsCreate floats ship
ship-IsCreate = record {
  sessionid_fits = omega arith;
  mode_fits = omega arith;
  name_plain = omega arith;
  appearance_empty = refl;
}

abbrev create_packet : List ℕ
create_packet = counted_bytes (create_bytes floats) (ship ∷ [])

receive_create_lem_example :
    receive_create floats (talker, arrived create_packet)
    ≡ (ok tt, (with_creates (ship ∷ []) talker, record (arrived create_packet) { rpos = 48 }))
receive_create_lem_example =
    receive_create_lem floats (ship ∷ []) talker (arrived create_packet) [] (ship-IsCreate, tt)
      (omega arith) refl refl

abbrev moved : TransformEntityStruct Sample
moved = record {
  sessionid = 5;
  path = record { action = 1; position = here; rotation = upright } ∷ [];
}

abbrev transform_packet : List ℕ
transform_packet = counted_bytes (transform_entity_bytes floats) (moved ∷ [])

receive_login_lem_example : receive_login (talker, arrived (login_bytes reply)) ≡ (
  ok true,
  (record talker { login = reply }, record (arrived (login_bytes reply)) { rpos = 25 }),
)
receive_login_lem_example =
    receive_login_lem reply talker (arrived (login_bytes reply)) [] reply-IsLogin refl

-- Two packets wait, and the connection takes as many as `room` says.
abbrev ready : ℕ → GameClient Sample Wire
ready room = record client {
  player = record talker {
    user = record (talker.user) { send_queue = arrived (1 ∷ []) ∷ (arrived (2 ∷ []) ∷ []) };
  };
  net = record wire { room = room };
}

send_packets_failure_example : send_packets wire_tcp (ready 1) ≡ (
  ok tt,
  logged_out wire_tcp (record (ready 1) { net = record wire { sent = (1 ∷ []) ∷ []; room = 0 } }),
)
send_packets_failure_example =
    send_packets_failure wire_tcp (arrived (1 ∷ []) ∷ []) (arrived (2 ∷ [])) [] (ready 1) refl
      (refl, tt) refl

-- A packet whose opcode has no handler.
abbrev stranger : GameClient Sample Wire
stranger = record client { net = record wire { inbox = header_bytes 2 1 ∷ ((9 ∷ []) ∷ []) } }

receive_packet_lem_example :
    receive_packet floats wire_tcp stranger
    ≡ dispatch floats wire_tcp
        (receive_map 2)
        (filled_buffer (9 ∷ []))
        (record client { net = record wire { inbox = [] } })
receive_packet_lem_example =
    receive_packet_lem floats wire_tcp 2 1 (9 ∷ []) (record wire { inbox = (9 ∷ []) ∷ [] })
      (record wire { inbox = [] }) stranger (omega arith) (omega arith) refl refl

-- A create packet that stops behind its count.
run_receive-Untouched_example :
    Untouched talker
      (run_receive floats create_entity (talker, arrived (2 ∷ (0 ∷ (0 ∷ (0 ∷ [])))))).1.0
run_receive-Untouched_example =
    run_receive-Untouched floats create_entity talker talker (arrived (2 ∷ (0 ∷ (0 ∷ (0 ∷ [])))))
      (record {
        same_address = refl;
        same_port = refl;
        same_radius = refl;
        same_send_queue = refl;
        same_levels = refl;
        same_console_queue = refl;
        same_objects_queue = refl;
        same_path = refl;
        check_free = refl;
        create_free = refl;
        transform_free = refl;
        destroy_free = refl;
      })

receive_create_truncated_example : receive_create floats (talker, arrived (uint32_bytes 2)) ≡ (
  ok tt,
  (with_creates (blank floats ∷ (blank floats ∷ [])) talker, advance 4 (arrived (uint32_bytes 2))),
)
receive_create_truncated_example =
    receive_create_truncated floats 2 talker (arrived (uint32_bytes 2)) (omega arith) refl refl
