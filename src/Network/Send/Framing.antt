-- ===== src/Network/Send/Framing.antt =====
-- The packet that `Enqueue` builds: a header of 16 bytes, which holds the length of the body, and
-- the body.
use starfall.Base.{
  ◌/◌, ℕ, ◌+◌, ◌-◌, ◌%◌, ◌^◌, ◌≡◌, refl, ◌∙◌, List, [], ◌∷◌, ◌++◌, length, arith, length-append,
  drop_last-append,
}
use starfall.Network.Runtime.{u32, IsUint}
use starfall.Network.Buffer.{Buffer, new_buffer, last_index, push_all, rewind}
use starfall.Network.Buffer.Writing.{
  append_bytes, append_bytes-append_bytes, uint32_bytes, write_uint32_lem, push_all_lem,
}
use starfall.Network.Send.{
  head_mark, pad, last_byte, pop_byte, replace_byte, write_body_size, marked, headed, padded,
  packet,
}

-- The four fields of the header, in the order of the wire.
abbrev pub header_bytes : ℕ → ℕ → List ℕ
header_bytes opcode size =
    uint32_bytes head_mark ++ (uint32_bytes opcode ++ (uint32_bytes size ++ uint32_bytes head_mark))

last_byte-append : (xs : List ℕ) (v : ℕ) → last_byte (xs ++ (v ∷ [])) ≡ v
last_byte-append [] v = refl
last_byte-append (x ∷ []) v = refl
last_byte-append (x ∷ (y ∷ xs)) v = last_byte-append (y ∷ xs) v

last_index-pop :
    (xs : List ℕ) (v : ℕ) → u32 (last_index (xs ++ (v ∷ [])) + (2 ^ 32 - 1)) ≡ last_index xs
last_index-pop xs v = omega (arith, length-append xs (v ∷ []))

-- Popping undoes a push, and sets the write head back.
pop_byte-append_bytes : (v : ℕ) (b : Buffer) → pop_byte (append_bytes (v ∷ []) b) ≡ (v, rewind b)
unfolding pop_byte append_bytes rewind
pop_byte-append_bytes v b =
    rw (last_byte-append b.bytes v, drop_last-append b.bytes v, last_index-pop b.bytes v)

pop_byte-append₄ :
    (p q r s : ℕ) (b : Buffer)
    → append_bytes (p ∷ (q ∷ (r ∷ (s ∷ [])))) b
      ≡ append_bytes
          (s ∷ [])
          (append_bytes (r ∷ []) (append_bytes (q ∷ []) (append_bytes (p ∷ []) b)))
pop_byte-append₄ p q r s b = simp append_bytes-append_bytes

rewind-append_bytes : (xs : List ℕ) (b : Buffer) → rewind (append_bytes xs b) ≡ append_bytes xs b
unfolding rewind append_bytes
rewind-append_bytes xs b = refl

-- The four bytes of the size go to `i` and the three places behind it; nothing else changes.
write_body_size_lem :
    (i size : ℕ) (b : Buffer)
    → write_body_size i size b
      ≡ replace_byte (i + 3) (size % 256) (
          replace_byte (i + 2) (size / 2 ^ 8 % 256) (
            replace_byte
              (i + 1)
              (size / 2 ^ 16 % 256)
              (replace_byte i (size / 2 ^ 24 % 256) (rewind b))))
unfolding write_body_size
write_body_size_lem i size b =
    simp (write_uint32_lem, pop_byte-append₄, pop_byte-append_bytes, rewind-append_bytes)

marked_lem :
    (opcode : ℕ)
    → marked opcode ≡ append_bytes (uint32_bytes head_mark ++ uint32_bytes opcode) new_buffer
unfolding marked
marked_lem opcode = simp (write_uint32_lem, append_bytes-append_bytes)

headed_lem : (opcode : ℕ) → headed opcode ≡ append_bytes (header_bytes opcode 0) new_buffer
unfolding headed
headed_lem opcode = simp (marked_lem, write_uint32_lem, append_bytes-append_bytes)

padded_lem : (opcode : ℕ) → padded opcode ≡ append_bytes (header_bytes opcode 0) new_buffer
unfolding padded
padded_lem opcode = rw headed_lem (unfold pad append_bytes new_buffer in refl)

-- The header with the size still 0, and the body.
abbrev filled : ℕ → List ℕ → Buffer
filled opcode body = append_bytes (header_bytes opcode 0 ++ body) new_buffer

push_all-padded : (opcode : ℕ) (body : List ℕ) → push_all body (padded opcode) ≡ filled opcode body
push_all-padded opcode body = rw padded_lem (
    push_all_lem body (append_bytes (header_bytes opcode 0) new_buffer)
      (unfold append_bytes in refl)
    ∙ append_bytes-append_bytes (header_bytes opcode 0) body new_buffer)

length-marked : (opcode : ℕ) → length (marked opcode).bytes ≡ 8
unfolding append_bytes new_buffer
length-marked opcode = rw marked_lem refl

length-padded : (opcode : ℕ) → length (padded opcode).bytes ≡ 16
unfolding append_bytes new_buffer
length-padded opcode = rw padded_lem refl

filled_size :
    (opcode : ℕ) (body : List ℕ)
    → IsUint (length body)
    → u32 (length (filled opcode body).bytes - 16) ≡ length body
unfolding append_bytes new_buffer
filled_size opcode body h = omega arith

write_body_size-filled :
    (opcode size : ℕ) (body : List ℕ)
    → write_body_size 8 size (filled opcode body)
      ≡ append_bytes (header_bytes opcode size ++ body) new_buffer
write_body_size-filled opcode size body =
    write_body_size_lem 8 size (filled opcode body)
    ∙ rw rewind-append_bytes (unfold append_bytes new_buffer replace_byte in refl)

-- Round any body the packet is the header, with the opcode and the length of the body, and the body;
-- the write head is on its last byte and the read head at its start.
pub packet_lem :
    (opcode : ℕ) (body : Buffer)
    → IsUint (length body.bytes)
    → packet opcode body
      ≡ append_bytes (header_bytes opcode (length body.bytes) ++ body.bytes) new_buffer
unfolding packet
packet_lem opcode body h =
    rw (length-marked, length-padded, push_all-padded, filled_size opcode body.bytes h)
      (write_body_size-filled opcode (length body.bytes) body.bytes)
