-- ===== src/Network/Buffer.antt =====
-- class Buffer: a growing array of bytes with a read head and a write head (Network.js).
pub mod Writing
pub mod Reading
use starfall.Base.{
  ℕ, zero, suc, ◌+◌, ◌-◌, ◌*◌, ◌/◌, ◌%◌, ◌^◌, List, [], ◌∷◌, ◌++◌, length, get_elem?, map, none,
  some, Bool, true, false, ltb, if◌then◌else◌,
}
use starfall.Base.Action.{Action, ok, fault, index_out_of_range, pure, ◌>>=◌}
use starfall.Network.Runtime.{Text, u32, ascii_byte, ascii_char, try_parse_byte, Floats}

-- `data` is `bytes`. The read head stays within the array, whose length is an `int`, so `rpos++`
-- does not wrap; the write head is `data.length - 1`, which wraps on an empty array.
pub record Buffer : Type 0 where
  pub bytes : List ℕ
  pub wpos : ℕ
  pub rpos : ℕ

unfoldable pub new_buffer : Buffer
new_buffer = record { bytes = []; wpos = 0; rpos = 0 }

-- `Clear`
unfoldable pub clear : Buffer → Buffer
clear b = record { bytes = []; wpos = 0; rpos = 0 }

-- `this.data.length-1` as a `uint`
abbrev pub last_index : List ℕ → ℕ
last_index xs = u32 (length xs + (2 ^ 32 - 1))

-- `this.data.push(b); this.wpos++;`
unfoldable pub push : ℕ → Buffer → Buffer
push v b = record b { bytes = b.bytes ++ (v ∷ []); wpos = u32 (b.wpos + 1) }

unfoldable pub push_all : List ℕ → Buffer → Buffer
push_all [] b = b
push_all (v ∷ vs) b = push_all vs (push v b)

-- `this.wpos = this.data.length-1;`
unfoldable pub rewind : Buffer → Buffer
rewind b = record b { wpos = last_index b.bytes }

-- `i & 0xFF` is `i % 256`, and `i >> k` is `i / 2 ^ k`.
unfoldable pub write_uint8 : ℕ → Buffer → Buffer
unfolding push rewind
write_uint8 i b = elim (try_parse_byte (i % 256)) [ some v ↦ push v (rewind b) | none ↦ rewind b ]

unfoldable pub write_uint32 : ℕ → Buffer → Buffer
write_uint32 i b =
    write_uint8 i (write_uint8 (i / 2 ^ 8) (write_uint8 (i / 2 ^ 16) (write_uint8 (i / 2 ^ 24) b)))

unfoldable pub write_string : Text → Buffer → Buffer
write_string s b = push_all (map ascii_byte s) (write_uint32 (length s) (rewind b))

-- The four bytes of a float, highest first.
unfoldable pub write_float_bytes : Bool → List ℕ → Buffer → Buffer
write_float_bytes true (b0 ∷ (b1 ∷ (b2 ∷ (b3 ∷ [])))) b =
    write_uint8 b0 (write_uint8 b1 (write_uint8 b2 (write_uint8 b3 b)))
write_float_bytes false (b0 ∷ (b1 ∷ (b2 ∷ (b3 ∷ [])))) b =
    write_uint8 b3 (write_uint8 b2 (write_uint8 b1 (write_uint8 b0 b)))
write_float_bytes _ _ b = b

-- A value that `byte.TryParse` refuses is read as 0.
abbrev pub parsed_byte : ℕ → ℕ
parsed_byte v = elim (try_parse_byte v) [ some n ↦ n | none ↦ 0 ]

-- `byte.TryParse(this.data[this.rpos].ToString(), c); this.rpos++;`
unfoldable pub next_byte : Action Buffer ℕ
next_byte b = elim (get_elem? b.bytes b.rpos) [
  | none ↦ (fault index_out_of_range, b)
  | some v ↦ (ok (parsed_byte v), record b { rpos = b.rpos + 1 })
]

-- The four bytes occupy disjoint bits, so `|` is a sum.
unfoldable pub read_four : Action Buffer ℕ
read_four = do
  a ← next_byte
  b ← next_byte
  c ← next_byte
  d ← next_byte
  pure (a * 2 ^ 24 + b * 2 ^ 16 + c * 2 ^ 8 + d)

unfoldable pub read_uint32 : Action Buffer ℕ
read_uint32 b = if ltb (b.rpos + 4 - 1) (length b.bytes) then read_four b else (ok 0, b)

unfoldable pub read_uint8 : Action Buffer ℕ
read_uint8 b = if ltb (b.rpos + 1 - 1) (length b.bytes) then next_byte b else (ok 0, b)

-- The loop of `ReadString`: a read past the end throws.
unfoldable pub read_chars : ℕ → Action Buffer Text
read_chars zero = pure []
read_chars (suc n) = do c ← next_byte; s ← read_chars n; pure (ascii_char c ∷ s)

unfoldable pub read_string : Action Buffer Text
read_string = do l ← read_uint32; read_chars l

-- `floatBytes` as it is filled from four reads.
abbrev pub in_order : Bool → ℕ → ℕ → ℕ → ℕ → List ℕ
in_order true p q r s = s ∷ (r ∷ (q ∷ (p ∷ [])))
in_order false p q r s = p ∷ (q ∷ (r ∷ (s ∷ [])))

module _ {F : Type 0} (fl : Floats F) where
  unfoldable pub write_float : F → Buffer → Buffer
  write_float f b = write_float_bytes fl.is_little_endian (fl.get_bytes f) b

  unfoldable pub read_float : Action Buffer F
  read_float = do
    p ← read_uint8
    q ← read_uint8
    r ← read_uint8
    s ← read_uint8
    pure (fl.to_single (in_order fl.is_little_endian p q r s))
