-- ===== src/Network/Receive/Truncated.antt =====
-- What the handlers do with a packet that ends too early: the reads of class Buffer return 0 there.
use starfall.Base.{
  ℕ, zero, suc, ◌+◌, ◌-◌, ◌≤◌, ◌≡◌, refl, ap, ◌∙◌, List, [], ◌∷◌, ◌++◌, length, replicate, drop,
  ltb, Bool, true, false, subst, arith, append-nil,
}
use starfall.Base.Action.{Action, ok, resume, pure, ◌>>=◌}
use starfall.Network.Runtime.{Floats, IsUint}
use starfall.Network.Buffer.{
  Buffer, read_uint32, read_uint8, read_chars, read_string, read_float, in_order,
}
use starfall.Network.Buffer.Writing.{uint32_bytes}
use starfall.Network.Buffer.Reading.{remaining, advance, remaining-advance, read_uint32-Reads}
use starfall.Network.Structs.{CreateEntityStruct, Player}
use starfall.Network.Receive.{
  read_vector, read_quaternion, read_create, receive_each, receive_create, add_create,
}
use starfall.Network.Receive.Queues.{
  on_buffer_ok, on_buffer_step, with_creates, with_creates-add, add_create_free,
}

-- At the end of the bytes `m` returns `v` and does not move.
record Stalls {A : Type 0} (m : Action Buffer A) (v : A) : Type 0 where
  stalls : (b : Buffer) → remaining b ≡ [] → m b ≡ (ok v, b)

drop_all : (n : ℕ) (xs : List ℕ) → drop n xs ≡ [] → length xs ≤ n
drop_all zero [] h = omega arith
drop_all zero (x ∷ xs) h = cc
drop_all (suc n) [] h = omega arith
drop_all (suc n) (x ∷ xs) h = omega (arith, drop_all n xs h)

guard_fails :
    (k : ℕ) (b : Buffer) → remaining b ≡ [] → ltb (b.rpos + suc k - 1) (length b.bytes) ≡ false
guard_fails k b h = ground (arith, drop_all b.rpos b.bytes h)

read_uint32-Stalls : Stalls read_uint32 0
unfolding read_uint32
read_uint32-Stalls = record { stalls = λ b h. rw (guard_fails 3 b h) }

read_uint8-Stalls : Stalls read_uint8 0
unfolding read_uint8
read_uint8-Stalls = record { stalls = λ b h. rw (guard_fails 0 b h) }

pure-Stalls : {A : Type 0} (v : A) → Stalls (pure v) v
pure-Stalls v = record { stalls = λ b h. refl }

>>=-Stalls :
    {A B : Type 0} {m : Action Buffer A} (f : A → Action Buffer B) {v : A} {u : B}
    → Stalls m v
    → Stalls (f v) u
    → Stalls (m >>= f) u
>>=-Stalls f hm hf = record { stalls = λ b h. ap (resume f) (hm.stalls b h) ∙ hf.stalls b h }

read_string-Stalls : Stalls read_string []
unfolding read_string read_chars
read_string-Stalls = >>=-Stalls _ read_uint32-Stalls (pure-Stalls [])

module _ {F : Type 0} (fl : Floats F) where
  -- The float of four zero bytes.
  abbrev pub null_float : F
  null_float = fl.to_single (0 ∷ (0 ∷ (0 ∷ (0 ∷ []))))

  -- The entity that `CreateEntity` reads from nothing.
  abbrev pub blank : CreateEntityStruct F
  blank = record {
    display_name = [];
    appearance = [];
    sessionid = 0;
    mode = 0;
    position = record { x = null_float; y = null_float; z = null_float };
    rotation = record { x = null_float; y = null_float; z = null_float; w = null_float };
  }

  zeros_in_order : (little : Bool) → fl.to_single (in_order little 0 0 0 0) ≡ null_float
  zeros_in_order true = refl
  zeros_in_order false = refl

  read_float-Stalls : Stalls (read_float fl) null_float
  unfolding read_float
  read_float-Stalls = subst (Stalls (read_float fl)) (zeros_in_order fl.is_little_endian) (
      >>=-Stalls _ read_uint8-Stalls (
        >>=-Stalls _ read_uint8-Stalls
          (>>=-Stalls _ read_uint8-Stalls (>>=-Stalls _ read_uint8-Stalls (pure-Stalls _)))))

  read_vector-Stalls : Stalls (read_vector fl) blank.position
  unfolding read_vector
  read_vector-Stalls =
      >>=-Stalls _ read_float-Stalls
        (>>=-Stalls _ read_float-Stalls (>>=-Stalls _ read_float-Stalls (pure-Stalls _)))

  read_quaternion-Stalls : Stalls (read_quaternion fl) blank.rotation
  unfolding read_quaternion
  read_quaternion-Stalls = >>=-Stalls _ read_float-Stalls (
      >>=-Stalls _ read_float-Stalls
        (>>=-Stalls _ read_float-Stalls (>>=-Stalls _ read_float-Stalls (pure-Stalls _))))

  read_create-Stalls : Stalls (read_create fl) blank
  unfolding read_create
  read_create-Stalls = >>=-Stalls _ read_uint32-Stalls (
      >>=-Stalls _ read_uint32-Stalls (
        >>=-Stalls _ read_string-Stalls
          (>>=-Stalls _ read_vector-Stalls (>>=-Stalls _ read_quaternion-Stalls (pure-Stalls _)))))

  create_blanks :
      (n : ℕ) (p : Player F) (b : Buffer)
      → p.user.create_entity_mutex ≡ false
      → remaining b ≡ []
      → receive_each (read_create fl) add_create n (p, b)
        ≡ (ok tt, (with_creates (replicate n blank) p, b))
  unfolding receive_each
  create_blanks zero p b free h = rw append-nil
  create_blanks (suc n) p b free h =
      on_buffer_ok (read_create fl) _ blank p b b (read_create-Stalls.stalls b h)
      ∙ create_blanks n (add_create blank p) b (add_create_free blank p free) h
      ∙ rw (with_creates-add blank (replicate n blank) p free)

  -- A create packet that ends behind its count `n` is not refused: `n` blank entities, with session
  -- id 0, mode 0 and no name, are queued for the world, if nobody owns the queue's mutex.
  pub receive_create_truncated :
      (n : ℕ) (p : Player F) (b : Buffer)
      → IsUint n
      → p.user.create_entity_mutex ≡ false
      → remaining b ≡ uint32_bytes n
      → receive_create fl (p, b) ≡ (ok tt, (with_creates (replicate n blank) p, advance 4 b))
  unfolding receive_create
  receive_create_truncated n p b hn free e =
      let e' : remaining b ≡ uint32_bytes n ++ [] = e in
      on_buffer_step read_uint32 _ (uint32_bytes n) n (read_uint32-Reads n hn) p b [] e'
      ∙ create_blanks n p (advance 4 b) free (remaining-advance (uint32_bytes n) b [] e')
