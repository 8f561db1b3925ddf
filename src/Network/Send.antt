-- ===== src/Network/Send.antt =====
-- class Send: the bodies of the packets, and `Enqueue`, which puts a header before a body.
pub mod Framing
pub mod Bodies
use starfall.Base.{
  ℕ, zero, suc, ◌+◌, ◌-◌, ◌%◌, ◌^◌, List, [], ◌∷◌, ◌++◌, length, get_elem?, set, drop_last, some,
  none, Bool, true, false,
}
use starfall.Network.Runtime.{Text, u32, Floats, Vector3, Quaternion}
use starfall.Network.Buffer.{
  Buffer, new_buffer, push, push_all, write_uint8, write_uint32, write_string, write_float,
}
use starfall.Network.Structs.{LoginStruct, TransformStruct, User, Player}

-- The functions that `map` has an opcode for.
pub data SendFunction : Type 0 where
  login_data console_data transform_data objects_data : SendFunction

unfoldable pub opcode_of : SendFunction → ℕ
opcode_of login_data = 0x01
opcode_of console_data = 0x02
opcode_of transform_data = 0x04
opcode_of objects_data = 0x06

unfoldable pub write_login : LoginStruct → Buffer → Buffer
write_login l b = write_string l.password (
    write_string l.username
      (write_uint32 l.usertype (write_uint32 l.userid (write_uint32 l.state b))))

-- The loops of `ConsoleData` and `ObjectsData`, which empty their queues from the front.
unfoldable pub write_strings : List Text → Buffer → Buffer
write_strings [] b = b
write_strings (s ∷ queue) b = write_strings queue (write_string s b)

unfoldable pub write_ids : List ℕ → Buffer → Buffer
write_ids [] b = b
write_ids (sessionid ∷ queue) b = write_ids queue (write_uint32 sessionid b)

-- `Head.Size()`
abbrev pub head_size : ℕ
head_size = 16

abbrev pub head_mark : ℕ
head_mark = 0xFFFFFFFF

-- The loop that fills the rest of the header with zeros.
unfoldable pub pad : ℕ → Buffer → Buffer
pad zero b = b
pad (suc n) b = pad n (write_uint8 0 b)

-- `buffer.data.pop(); buffer.wpos--;` for the byte popped, and the buffer without it.
abbrev pub last_byte : List ℕ → ℕ
last_byte [] = 0
last_byte (v ∷ []) = v
last_byte (v ∷ (w ∷ vs)) = last_byte (w ∷ vs)

unfoldable pub pop_byte : Buffer → ℕ × Buffer
pop_byte b =
    (last_byte b.bytes, record b { bytes = drop_last b.bytes; wpos = u32 (b.wpos + (2 ^ 32 - 1)) })

-- `buffer.data[i] = v`
unfoldable pub replace_byte : ℕ → ℕ → Buffer → Buffer
replace_byte i v b = record b { bytes = set b.bytes i v }

-- The body size is written at the end, popped off byte by byte, and put into the header at `i`.
unfoldable pub write_body_size : ℕ → ℕ → Buffer → Buffer
write_body_size i size b =
    let (d, b1) = pop_byte (write_uint32 size b) in
    let (c, b2) = pop_byte b1 in
    let (b', b3) = pop_byte b2 in
    let (a, b4) = pop_byte b3 in
    replace_byte (i + 3) d (replace_byte (i + 2) c (replace_byte (i + 1) b' (replace_byte i a b4)))

-- The header up to the body size, with the body size 0, and filled up to its full length.
unfoldable pub marked : ℕ → Buffer
marked opcode = write_uint32 opcode (write_uint32 head_mark new_buffer)

unfoldable pub headed : ℕ → Buffer
headed opcode = write_uint32 head_mark (write_uint32 0 (marked opcode))

unfoldable pub padded : ℕ → Buffer
padded opcode = pad (head_size - length (headed opcode).bytes) (headed opcode)

-- The packet that `Enqueue` builds round a body.
unfoldable pub packet : ℕ → Buffer → Buffer
packet opcode body =
    let index_body_size = length (marked opcode).bytes in
    let begin = length (padded opcode).bytes in
    let filled = push_all body.bytes (padded opcode) in
    write_body_size index_body_size (u32 (length filled.bytes - begin)) filled

module _ {F : Type 0} (fl : Floats F) where
  unfoldable pub write_vector : Vector3 F → Buffer → Buffer
  write_vector v b = write_float fl v.z (write_float fl v.y (write_float fl v.x b))

  unfoldable pub write_quaternion : Quaternion F → Buffer → Buffer
  write_quaternion q b =
      write_float fl q.w (write_float fl q.z (write_float fl q.y (write_float fl q.x b)))

  unfoldable pub write_transform : TransformStruct F → Buffer → Buffer
  write_transform t b =
      write_quaternion t.rotation (write_vector t.position (write_uint32 t.action b))

  unfoldable pub write_path : List (TransformStruct F) → Buffer → Buffer
  write_path [] b = b
  write_path (t ∷ path) b = write_path path (write_transform t b)

  unfoldable pub run_send : SendFunction → Player F → Buffer × Player F
  run_send login_data p = (write_login p.login new_buffer, p)
  run_send console_data p =
      let queue = p.user.console_queue in
      (
        write_strings queue (write_uint32 (length queue) new_buffer),
        record p { user = record (p.user) { console_queue = [] } },
      )
  run_send transform_data p =
      let path = p.user.transform_player.path in
      (write_path path (write_uint32 (length path) new_buffer), p)
  run_send objects_data p =
      let queue = p.user.objects_queue in
      let radius = write_float fl p.user.check_objects_radius in
      (
        write_ids queue (
            write_uint32 (length queue)
              (radius (write_uint32 p.user.check_objects_state new_buffer))),
        record p { user = record (p.user) { objects_queue = [] } },
      )

  -- `Enqueue`. The functions of `map` all return a buffer, so both tests for null pass.
  unfoldable pub enqueue : SendFunction → Player F → Bool × Player F
  enqueue f p =
      let (body, p') = run_send f p in
      let sent = packet (opcode_of f) body in
      (
        true,
        record p' { user = record (p'.user) { send_queue = p'.user.send_queue ++ (sent ∷ []) } },
      )
