-- ===== src/Network/Buffer/Reading.antt =====
-- What the read operations of class Buffer return, from the bytes that the read head stands at.
use starfall.Base.{
  ℕ, zero, suc, ◌+◌, ◌-◌, ◌*◌, ◌/◌, ◌%◌, ◌^◌, ◌<◌, ◌≡◌, refl, sym, ap, ◌∙◌, List, [], ◌∷◌, ◌++◌,
  length, map, Bool-cases, inl, inr, subst, subst₂, Bool, true, false, some, arith, length-append,
  append-nil, append_assoc, All, ltb, drop, get_elem?,
}
use starfall.Base.Action.{Action, Result, resume, ok, pure, ◌>>=◌}
use starfall.Network.Runtime.{Text, ascii_byte, ascii_char, Floats, IsByte, IsUint, IsAscii}
use starfall.Network.Buffer.{
  Buffer, parsed_byte, next_byte, read_four, read_uint32, read_uint8, read_chars, read_string,
  read_float, in_order,
}
use starfall.Network.Buffer.Writing.{uint32_bytes, string_bytes, big_endian, float_bytes}

-- The bytes that the read head has not passed.
abbrev pub remaining : Buffer → List ℕ
remaining b = drop b.rpos b.bytes

-- The buffer with the read head `n` bytes further on.
abbrev pub advance : ℕ → Buffer → Buffer
advance n b = record b { rpos = b.rpos + n }

-- Wherever the bytes `xs` come next, `m` returns `v`, passes exactly those, and changes nothing else.
pub record Reads {A : Type 0} (m : Action Buffer A) (xs : List ℕ) (v : A) : Type 0 where
  pub reads :
      (b : Buffer) (post : List ℕ) → remaining b ≡ xs ++ post → m b ≡ (ok v, advance (length xs) b)

drop-add : (m n : ℕ) (xs : List ℕ) → drop (m + n) xs ≡ drop n (drop m xs)
drop-add zero n xs = ap (λ k. drop k xs) (omega arith)
drop-add (suc m) n [] = drop_nil (suc m + n) ∙ sym (drop_nil n)
  where
    drop_nil : (k : ℕ) → drop {A = ℕ} k [] ≡ []
    drop_nil zero = refl
    drop_nil (suc k) = refl
drop-add (suc m) n (x ∷ xs) =
    let e : suc m + n ≡ suc (m + n) = omega arith in rw e (drop-add m n xs)

drop-append : (xs ys : List ℕ) → drop (length xs) (xs ++ ys) ≡ ys
drop-append [] ys = refl
drop-append (x ∷ xs) ys = drop-append xs ys

pub remaining-advance :
    (xs : List ℕ) (b : Buffer) (post : List ℕ)
    → remaining b ≡ xs ++ post
    → remaining (advance (length xs) b) ≡ post
remaining-advance xs b post h =
    drop-add b.rpos (length xs) b.bytes ∙ ap (drop (length xs)) h ∙ drop-append xs post

advance_zero : {A : Type 0} (v : A) (b : Buffer) → pure v b ≡ (ok v, advance 0 b)
advance_zero v b = let e : b.rpos + 0 ≡ b.rpos = omega arith in rw e

pub pure-Reads : {A : Type 0} (v : A) → Reads (pure v) [] v
pure-Reads v = record { reads = λ b post h. advance_zero v b }

bind-Reads :
    {A B : Type 0} (m : Action Buffer A) (f : A → Action Buffer B) (xs ys : List ℕ) (v : A) (u : B)
    → Reads m xs v
    → Reads (f v) ys u
    → (b : Buffer) (post : List ℕ) → remaining b ≡ (xs ++ ys) ++ post
    → (m >>= f) b ≡ (ok u, advance (length (xs ++ ys)) b)
bind-Reads {B = B} m f xs ys v u hm hf b post h =
    let h' : remaining b ≡ xs ++ (ys ++ post) = h ∙ append_assoc xs ys post in
    ap (resume f) (hm.reads b (ys ++ post) h')
    ∙ hf.reads (advance (length xs) b) post (remaining-advance xs b (ys ++ post) h')
    ∙ ap {B = Result B × Buffer} (λ r. (ok u, record b { rpos = r }))
        (omega (arith, length-append xs ys))

-- Actions in sequence read the bytes of the first and then those of the second.
pub >>=-Reads :
    {A B : Type 0} {m : Action Buffer A} (f : A → Action Buffer B) {xs ys : List ℕ} {v : A} {u : B}
    → Reads m xs v
    → Reads (f v) ys u
    → Reads (m >>= f) (xs ++ ys) u
>>=-Reads {m = m} f {xs} {ys} {v} {u} hm hf = record { reads = bind-Reads m f xs ys v u hm hf }

-- The last step of a sequence, whose value is built into the result.
pub map-Reads :
    {A B : Type 0} {m : Action Buffer A} (g : A → B) {xs : List ℕ} {v : A}
    → Reads m xs v
    → Reads (m >>= λ a. pure (g a)) xs (g v)
map-Reads g {xs = xs} {v = v} hm = record {
  reads = λ b post h. ap (resume (λ a. pure (g a))) (hm.reads b post h);
}

get_elem?-drop :
    (n : ℕ) (xs : List ℕ) (v : ℕ) (ys : List ℕ) → drop n xs ≡ v ∷ ys → get_elem? xs n ≡ some v
get_elem?-drop zero [] v ys h = cc
get_elem?-drop zero (x ∷ xs) v ys h = cc
get_elem?-drop (suc n) [] v ys h = cc
get_elem?-drop (suc n) (x ∷ xs) v ys h = get_elem?-drop n xs v ys h

parsed_byte_lem : (v : ℕ) → IsByte v → parsed_byte v ≡ v
parsed_byte_lem v h = ground arith

next_byte_reads :
    (v : ℕ)
    → IsByte v
    → (b : Buffer) (post : List ℕ) → remaining b ≡ v ∷ post
    → next_byte b ≡ (ok v, advance 1 b)
unfolding next_byte
next_byte_reads v hv b post h =
    rw (get_elem?-drop b.rpos b.bytes v post h, next_byte) (rw (parsed_byte_lem v hv))

pub next_byte-Reads : {v : ℕ} → IsByte v → Reads next_byte (v ∷ []) v
next_byte-Reads {v} hv = record { reads = next_byte_reads v hv }

length-drop : (n : ℕ) (xs : List ℕ) → length (drop n xs) ≡ length xs - n
length-drop zero xs = omega arith
length-drop (suc n) [] = omega arith
length-drop (suc n) (x ∷ xs) = omega (arith, length-drop n xs)

-- With `k + 1` bytes left the guard of a read of `k + 1` bytes passes.
guard_passes :
    (k : ℕ) (b : Buffer)
    → k < length (remaining b)
    → ltb (b.rpos + suc k - 1) (length b.bytes) ≡ true
guard_passes k b h = ground (arith, length-drop b.rpos b.bytes)

pub read_uint8-Reads : {v : ℕ} → IsByte v → Reads read_uint8 (v ∷ []) v
unfolding read_uint8
read_uint8-Reads {v} hv = record {
  reads = λ b post h. rw (guard_passes 0 b (rw h (omega arith))) (next_byte_reads v hv b post h);
}

uint32_value :
    (i : ℕ)
    → IsUint i
    → i / 2 ^ 24 % 256 * 2 ^ 24 + i / 2 ^ 16 % 256 * 2 ^ 16 + i / 2 ^ 8 % 256 * 2 ^ 8 + i % 256 ≡ i
uint32_value i h = omega arith

mod-IsByte : (i : ℕ) → IsByte (i % 256)
mod-IsByte i = omega arith

read_four-Reads : (i : ℕ) → IsUint i → Reads read_four (uint32_bytes i) i
unfolding read_four
read_four-Reads i h = subst (Reads read_four (uint32_bytes i)) (uint32_value i h) (
    >>=-Reads _ (next_byte-Reads (mod-IsByte (i / 2 ^ 24))) (
      >>=-Reads _ (next_byte-Reads (mod-IsByte (i / 2 ^ 16))) (
        >>=-Reads _ (next_byte-Reads (mod-IsByte (i / 2 ^ 8)))
          (>>=-Reads _ (next_byte-Reads (mod-IsByte i)) (pure-Reads _)))))

-- `ReadUInt32` returns any `uint` from its four bytes.
pub read_uint32-Reads : (i : ℕ) → IsUint i → Reads read_uint32 (uint32_bytes i) i
unfolding read_uint32
read_uint32-Reads i hi = record {
  reads = λ b post h.
      rw (guard_passes 3 b (rw h (omega arith))) ((read_four-Reads i hi).reads b post h);
}

-- What ASCII leaves of a character after a trip over the wire.
pub ascii_trip : (c : ℕ) → IsAscii c → ascii_char (ascii_byte c) ≡ c
ascii_trip c h = ground arith

ascii_byte-IsByte : (c : ℕ) → IsByte (ascii_byte c)
ascii_byte-IsByte c = ground arith

abbrev cons_char : ℕ → Text → Action Buffer Text
cons_char c s = pure (ascii_char c ∷ s)

read_chars-Reads : (s : Text) → All IsAscii s → Reads (read_chars (length s)) (map ascii_byte s) s
unfolding read_chars
read_chars-Reads [] h = pure-Reads []
read_chars-Reads (c ∷ s) (hc, hs) =
    subst₂ (Reads (read_chars (length (c ∷ s))))
      (ap (λ t. ascii_byte c ∷ t) (append-nil (map ascii_byte s)))
      (ap (λ t. t ∷ s) (ascii_trip c hc))
      (>>=-Reads _ (next_byte-Reads (ascii_byte-IsByte c))
        (>>=-Reads (cons_char (ascii_byte c)) (read_chars-Reads s hs) (pure-Reads _)))

-- `ReadString` returns any ASCII text that `WriteString` wrote.
pub read_string-Reads :
    (s : Text) → All IsAscii s → IsUint (length s) → Reads read_string (string_bytes s) s
unfolding read_string
read_string-Reads s h hl =
    >>=-Reads read_chars (read_uint32-Reads (length s) hl) (read_chars-Reads s h)

module _ {F : Type 0} (fl : Floats F) where
  read_float_four :
      {p q r s : ℕ}
      → IsByte p
      → IsByte q
      → IsByte r
      → IsByte s
      → Reads
          (read_float fl)
          (p ∷ (q ∷ (r ∷ (s ∷ []))))
          (fl.to_single (in_order fl.is_little_endian p q r s))
  unfolding read_float
  read_float_four hp hq hr hs = >>=-Reads _ (read_uint8-Reads hp) (
      >>=-Reads _ (read_uint8-Reads hq)
        (>>=-Reads _ (read_uint8-Reads hr) (>>=-Reads _ (read_uint8-Reads hs) (pure-Reads _))))

  read_float_bytes :
      (little : Bool) (xs : List ℕ)
      → fl.is_little_endian ≡ little
      → length xs ≡ 4
      → All IsByte xs
      → Reads (read_float fl) (big_endian little xs) (fl.to_single xs)
  read_float_bytes little [] e el h = absurd (omega arith)
  read_float_bytes little (p ∷ []) e el h = absurd (omega arith)
  read_float_bytes little (p ∷ (q ∷ [])) e el h = absurd (omega arith)
  read_float_bytes little (p ∷ (q ∷ (r ∷ []))) e el h = absurd (omega arith)
  read_float_bytes little (p ∷ (q ∷ (r ∷ (s ∷ (t ∷ xs))))) e el h = absurd (omega arith)
  read_float_bytes true (p ∷ (q ∷ (r ∷ (s ∷ [])))) e el (hp, (hq, (hr, (hs, _)))) =
      subst
        (λ l. Reads (read_float fl) (s ∷ (r ∷ (q ∷ (p ∷ [])))) (fl.to_single (in_order l s r q p)))
        e (read_float_four hs hr hq hp)
  read_float_bytes false (p ∷ (q ∷ (r ∷ (s ∷ [])))) e el (hp, (hq, (hr, (hs, _)))) =
      subst
        (λ l. Reads (read_float fl) (p ∷ (q ∷ (r ∷ (s ∷ [])))) (fl.to_single (in_order l p q r s)))
        e (read_float_four hp hq hr hs)

  -- `ReadFloat` returns the float that `WriteFloat` wrote, in either byte order of the machine.
  pub read_float-Reads : (f : F) → Reads (read_float fl) (float_bytes fl f) f
  read_float-Reads f = subst (Reads (read_float fl) (float_bytes fl f)) (fl.to_single-get_bytes f) (
      read_float_bytes fl.is_little_endian (fl.get_bytes f) refl (fl.length-get_bytes f)
        (fl.get_bytes-IsByte f))

get_elem?-lt : (xs : List ℕ) (i : ℕ) → i < length xs → (v : ℕ) × (get_elem? xs i ≡ some v)
get_elem?-lt [] i h = absurd (omega arith)
get_elem?-lt (x ∷ xs) zero h = (x, refl)
get_elem?-lt (x ∷ xs) (suc i) h = get_elem?-lt xs i (omega arith)

next_byte_inside :
    (b : Buffer) → b.rpos < length b.bytes → (v : ℕ) × (next_byte b ≡ (ok v, advance 1 b))
unfolding next_byte
next_byte_inside b h =
    let (v, e) = get_elem?-lt b.bytes b.rpos h in (parsed_byte v, rw (e, next_byte))

-- `ReadUInt32` never throws.
pub read_uint32_total : (b : Buffer) → (n : ℕ) × (b' : Buffer) × (read_uint32 b ≡ (ok n, b'))
unfolding read_uint32
read_uint32_total b = elim (Bool-cases (ltb (b.rpos + 4 - 1) (length b.bytes))) [
  | inr out ↦ (0, b, rw out)
  | inl inside ↦
      let (v1, e1) = next_byte_inside b (ground arith) in
      let (v2, e2) = next_byte_inside (advance 1 b) (ground arith) in
      let (v3, e3) = next_byte_inside (advance 1 (advance 1 b)) (ground arith) in
      let (v4, e4) = next_byte_inside (advance 1 (advance 1 (advance 1 b))) (ground arith) in
      (
        v1 * 2 ^ 24 + v2 * 2 ^ 16 + v3 * 2 ^ 8 + v4,
        advance 1 (advance 1 (advance 1 (advance 1 b))),
        rw inside (unfold read_four in (rw e1 (rw e2 (rw e3 (rw e4))))),
      )
]
