-- ===== src/Network/Buffer/Writing.antt =====
-- What the write operations of class Buffer put into the array.
use starfall.Base.{
  ℕ, ◌+◌, ◌/◌, ◌%◌, ◌^◌, ◌≡◌, refl, ◌∙◌, List, [], ◌∷◌, ◌++◌, length, map, Bool, true, false, some,
  reverse, arith, length-append, append-nil, append_assoc, All,
}
use starfall.Network.Runtime.{Text, u32, ascii_byte, try_parse_byte, Floats, IsByte}
use starfall.Network.Buffer.{
  Buffer, last_index, push, push_all, rewind, write_uint8, write_uint32, write_string,
  write_float_bytes, write_float,
}

-- The buffer with `xs` at its end and the write head on the last byte.
unfoldable pub append_bytes : List ℕ → Buffer → Buffer
append_bytes xs b = record b { bytes = b.bytes ++ xs; wpos = last_index (b.bytes ++ xs) }

-- The four bytes of a `uint`, highest first.
abbrev pub uint32_bytes : ℕ → List ℕ
uint32_bytes i = (i / 2 ^ 24 % 256) ∷ ((i / 2 ^ 16 % 256) ∷ ((i / 2 ^ 8 % 256) ∷ ((i % 256) ∷ [])))

abbrev pub string_bytes : Text → List ℕ
string_bytes s = uint32_bytes (length s) ++ map ascii_byte s

pub append_bytes-append_bytes :
    (xs ys : List ℕ) (b : Buffer) → append_bytes ys (append_bytes xs b) ≡ append_bytes (xs ++ ys) b
unfolding append_bytes
append_bytes-append_bytes xs ys b = rw (append_assoc b.bytes xs ys)

last_index-push : (xs : List ℕ) (v : ℕ) → u32 (last_index xs + 1) ≡ last_index (xs ++ (v ∷ []))
last_index-push xs v = omega (arith, length-append xs (v ∷ []))

push_lem : (v : ℕ) (b : Buffer) → b.wpos ≡ last_index b.bytes → push v b ≡ append_bytes (v ∷ []) b
unfolding push append_bytes
push_lem v b h = rw (h, last_index-push b.bytes v)

rewind_forgotten : (xs : List ℕ) (b : Buffer) → append_bytes xs (rewind b) ≡ append_bytes xs b
unfolding append_bytes rewind
rewind_forgotten xs b = refl

try_parse_byte-mod : (i : ℕ) → try_parse_byte (i % 256) ≡ some (i % 256)
try_parse_byte-mod i = ground arith

pub write_uint8_lem : (i : ℕ) (b : Buffer) → write_uint8 i b ≡ append_bytes ((i % 256) ∷ []) b
unfolding write_uint8
write_uint8_lem i b =
    rw (try_parse_byte-mod i, write_uint8)
      (push_lem (i % 256) (rewind b) (unfold rewind in refl) ∙ rewind_forgotten ((i % 256) ∷ []) b)

-- `WriteUInt32` appends the four bytes of its argument, highest first, on every buffer.
pub write_uint32_lem : (i : ℕ) (b : Buffer) → write_uint32 i b ≡ append_bytes (uint32_bytes i) b
unfolding write_uint32
write_uint32_lem i b = simp (write_uint8_lem, append_bytes-append_bytes)

pub push_all_lem :
    (vs : List ℕ) (b : Buffer) → b.wpos ≡ last_index b.bytes → push_all vs b ≡ append_bytes vs b
unfolding push_all
push_all_lem [] b h = unfold append_bytes in rw (append-nil b.bytes, ← h)
push_all_lem (v ∷ vs) b h = rw (push_lem v b h) (
    push_all_lem vs (append_bytes (v ∷ []) b) (unfold append_bytes in refl)
    ∙ append_bytes-append_bytes (v ∷ []) vs b)

-- `WriteString` appends the length of the text and one byte for each character.
pub write_string_lem : (s : Text) (b : Buffer) → write_string s b ≡ append_bytes (string_bytes s) b
unfolding write_string
write_string_lem s b =
    rw (write_uint32_lem, rewind_forgotten)
      (push_all_lem (map ascii_byte s) (append_bytes (uint32_bytes (length s)) b)
          (unfold append_bytes in refl)
        ∙ append_bytes-append_bytes (uint32_bytes (length s)) (map ascii_byte s) b)

-- The bytes of a float as they go over the wire.
abbrev pub big_endian : Bool → List ℕ → List ℕ
big_endian true xs = reverse xs
big_endian false xs = xs

mod_byte : (v : ℕ) → IsByte v → v % 256 ≡ v
mod_byte v h = omega arith

write_float_bytes_lem :
    (little : Bool) (xs : List ℕ) (b : Buffer)
    → length xs ≡ 4
    → All IsByte xs
    → write_float_bytes little xs b ≡ append_bytes (big_endian little xs) b
unfolding write_float_bytes
write_float_bytes_lem little [] b e h = absurd (omega arith)
write_float_bytes_lem little (p ∷ []) b e h = absurd (omega arith)
write_float_bytes_lem little (p ∷ (q ∷ [])) b e h = absurd (omega arith)
write_float_bytes_lem little (p ∷ (q ∷ (r ∷ []))) b e h = absurd (omega arith)
write_float_bytes_lem little (p ∷ (q ∷ (r ∷ (s ∷ (t ∷ xs))))) b e h = absurd (omega arith)
write_float_bytes_lem true (p ∷ (q ∷ (r ∷ (s ∷ [])))) b e (hp, (hq, (hr, (hs, _)))) = simp (
  write_uint8_lem,
  append_bytes-append_bytes,
  mod_byte p hp,
  mod_byte q hq,
  mod_byte r hr,
  mod_byte s hs,
)
write_float_bytes_lem false (p ∷ (q ∷ (r ∷ (s ∷ [])))) b e (hp, (hq, (hr, (hs, _)))) = simp (
  write_uint8_lem,
  append_bytes-append_bytes,
  mod_byte p hp,
  mod_byte q hq,
  mod_byte r hr,
  mod_byte s hs,
)

module _ {F : Type 0} (fl : Floats F) where
  abbrev pub float_bytes : F → List ℕ
  float_bytes f = big_endian fl.is_little_endian (fl.get_bytes f)

  -- `WriteFloat` appends the four bytes of the float, highest first.
  pub write_float_lem : (f : F) (b : Buffer) → write_float fl f b ≡ append_bytes (float_bytes f) b
  unfolding write_float
  write_float_lem f b =
      write_float_bytes_lem fl.is_little_endian (fl.get_bytes f) b (fl.length-get_bytes f)
        (fl.get_bytes-IsByte f)
