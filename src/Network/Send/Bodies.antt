-- ===== src/Network/Send/Bodies.antt =====
-- The bytes of the bodies that class Send builds, and what building them does to the player.
use starfall.Base.{ℕ, ◌≡◌, ◌∙◌, List, [], ◌∷◌, ◌++◌, length, true, append-nil, append_assoc}
use starfall.Network.Runtime.{Text, Floats, Vector3, Quaternion, IsUint}
use starfall.Network.Buffer.{Buffer, new_buffer}
use starfall.Network.Buffer.Writing.{
  append_bytes, append_bytes-append_bytes, uint32_bytes, string_bytes, float_bytes,
  write_uint32_lem, write_string_lem, write_float_lem,
}
use starfall.Network.Structs.{LoginStruct, TransformStruct, Player}
use starfall.Network.Send.{
  SendFunction, login_data, console_data, transform_data, objects_data, opcode_of, write_login,
  write_strings, write_ids, packet, write_vector, write_quaternion, write_transform, write_path,
  run_send, enqueue,
}
use starfall.Network.Send.Framing.{header_bytes, packet_lem}

abbrev pub login_bytes : LoginStruct → List ℕ
login_bytes l =
    uint32_bytes l.state
    ++ (uint32_bytes l.userid
        ++ (uint32_bytes l.usertype ++ (string_bytes l.username ++ string_bytes l.password)))

abbrev pub strings_bytes : List Text → List ℕ
strings_bytes [] = []
strings_bytes (s ∷ queue) = string_bytes s ++ strings_bytes queue

abbrev pub ids_bytes : List ℕ → List ℕ
ids_bytes [] = []
ids_bytes (i ∷ queue) = uint32_bytes i ++ ids_bytes queue

ruleset wire = (write_uint32_lem, write_string_lem, append_bytes-append_bytes, append_assoc)

write_login_lem : (l : LoginStruct) (b : Buffer) → write_login l b ≡ append_bytes (login_bytes l) b
unfolding write_login
write_login_lem l b = simp wire

append_bytes-nil : (b : Buffer) (xs : List ℕ) → append_bytes xs b ≡ append_bytes (xs ++ []) b
append_bytes-nil b xs = rw append-nil

write_strings_lem :
    (queue : List Text) (xs : List ℕ) (b : Buffer)
    → write_strings queue (append_bytes xs b) ≡ append_bytes (xs ++ strings_bytes queue) b
unfolding write_strings
write_strings_lem [] xs b = append_bytes-nil b xs
write_strings_lem (s ∷ queue) xs b =
    rw (write_string_lem, append_bytes-append_bytes)
      (write_strings_lem queue (xs ++ string_bytes s) b
        ∙ rw (append_assoc xs (string_bytes s) (strings_bytes queue)))

write_ids_lem :
    (queue : List ℕ) (xs : List ℕ) (b : Buffer)
    → write_ids queue (append_bytes xs b) ≡ append_bytes (xs ++ ids_bytes queue) b
unfolding write_ids
write_ids_lem [] xs b = append_bytes-nil b xs
write_ids_lem (i ∷ queue) xs b =
    rw (write_uint32_lem, append_bytes-append_bytes)
      (write_ids_lem queue (xs ++ uint32_bytes i) b
        ∙ rw (append_assoc xs (uint32_bytes i) (ids_bytes queue)))

-- A packet as it leaves: header and body, not yet read from.
abbrev pub sent_packet : ℕ → List ℕ → Buffer
sent_packet opcode body = append_bytes (header_bytes opcode (length body) ++ body) new_buffer

abbrev pub queue_packet : {F : Type 0} → Buffer → Player F → Player F
queue_packet b p = record p {
  user = record (p.user) { send_queue = p.user.send_queue ++ (b ∷ []) };
}

module _ {F : Type 0} (fl : Floats F) where
  abbrev pub vector_bytes : Vector3 F → List ℕ
  vector_bytes v = float_bytes fl v.x ++ (float_bytes fl v.y ++ float_bytes fl v.z)

  abbrev pub quaternion_bytes : Quaternion F → List ℕ
  quaternion_bytes q =
      float_bytes fl q.x ++ (float_bytes fl q.y ++ (float_bytes fl q.z ++ float_bytes fl q.w))

  abbrev pub transform_bytes : TransformStruct F → List ℕ
  transform_bytes t =
      uint32_bytes t.action ++ (vector_bytes t.position ++ quaternion_bytes t.rotation)

  abbrev pub path_bytes : List (TransformStruct F) → List ℕ
  path_bytes [] = []
  path_bytes (t ∷ path) = transform_bytes t ++ path_bytes path

  write_transform_lem :
      (t : TransformStruct F) (b : Buffer)
      → write_transform fl t b ≡ append_bytes (transform_bytes t) b
  unfolding write_transform write_vector write_quaternion
  write_transform_lem t b = simp (wire, write_float_lem)

  write_path_lem :
      (path : List (TransformStruct F)) (xs : List ℕ) (b : Buffer)
      → write_path fl path (append_bytes xs b) ≡ append_bytes (xs ++ path_bytes path) b
  unfolding write_path
  write_path_lem [] xs b = append_bytes-nil b xs
  write_path_lem (t ∷ path) xs b =
      rw (write_transform_lem, append_bytes-append_bytes)
        (write_path_lem path (xs ++ transform_bytes t) b
          ∙ rw (append_assoc xs (transform_bytes t) (path_bytes path)))

  -- The body that each function describes.
  abbrev pub body_bytes : SendFunction → Player F → List ℕ
  body_bytes login_data p = login_bytes p.login
  body_bytes console_data p =
      uint32_bytes (length p.user.console_queue) ++ strings_bytes p.user.console_queue
  body_bytes transform_data p =
      uint32_bytes (length p.user.transform_player.path) ++ path_bytes p.user.transform_player.path
  body_bytes objects_data p =
      (uint32_bytes p.user.check_objects_state
        ++ (float_bytes fl p.user.check_objects_radius
            ++ uint32_bytes (length p.user.objects_queue)))
      ++ ids_bytes p.user.objects_queue

  -- What building a body leaves of the player's queues.
  abbrev pub drained : SendFunction → Player F → Player F
  drained login_data p = p
  drained console_data p = record p { user = record (p.user) { console_queue = [] } }
  drained transform_data p = p
  drained objects_data p = record p { user = record (p.user) { objects_queue = [] } }

  run_send_lem :
      (f : SendFunction) (p : Player F)
      → run_send fl f p ≡ (append_bytes (body_bytes f p) new_buffer, drained f p)
  unfolding run_send
  run_send_lem login_data p = rw write_login_lem
  run_send_lem console_data p = rw (write_uint32_lem, write_strings_lem)
  run_send_lem transform_data p = rw (write_uint32_lem, write_path_lem)
  run_send_lem objects_data p = simp (wire, write_float_lem) (rw write_ids_lem (simp wire))

  packet_body :
      (opcode : ℕ) (xs : List ℕ)
      → IsUint (length xs)
      → packet opcode (append_bytes xs new_buffer) ≡ sent_packet opcode xs
  unfolding append_bytes new_buffer
  packet_body opcode xs h = packet_lem opcode (append_bytes xs new_buffer) h

  -- `Enqueue` puts one packet at the end of the send queue: the header, with the opcode of the
  -- function and the length of its body, and the body. Of the rest of the player only the queue
  -- that the body was built from changes: it is emptied. The length of the body must be a `uint`.
  pub enqueue_lem :
      (f : SendFunction) (p : Player F)
      → IsUint (length (body_bytes f p))
      → enqueue fl f p
        ≡ (true, queue_packet (sent_packet (opcode_of f) (body_bytes f p)) (drained f p))
  unfolding enqueue
  enqueue_lem f p h = rw (run_send_lem, packet_body (opcode_of f) (body_bytes f p) h)
