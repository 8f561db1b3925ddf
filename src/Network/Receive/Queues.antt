-- ===== src/Network/Receive/Queues.antt =====
-- What the handlers that fill queues do with a packet that holds all that it announces.
use starfall.Base.{
  ℕ, ◌≡◌, refl, ap, ◌∙◌, List, [], ◌∷◌, ◌++◌, length, length-append, arith, All, false, append-nil,
  append_assoc,
}
use starfall.Base.Action.{Action, Result, ok, resume, ◌>>=◌}
use starfall.Network.Runtime.{Floats, IsUint}
use starfall.Network.Buffer.{Buffer, read_uint32}
use starfall.Network.Buffer.Writing.{uint32_bytes}
use starfall.Network.Buffer.Reading.{
  Reads, remaining, advance, remaining-advance, read_uint32-Reads, map-Reads,
}
use starfall.Network.Structs.{
  TransformEntityStruct, CreateEntityStruct, DestroyEntityStruct, Player,
}
use starfall.Network.Receive.{
  Handler, on_buffer, add_create, add_transform, add_destroy, read_destroy, read_create,
  read_transform_entity, receive_each, receive_create, receive_transform, receive_destroy,
}
use starfall.Network.Receive.Reading.{
  transform_entity_bytes, create_bytes, IsTransform, IsCreate, read_transform_entity-Reads,
  read_create-Reads,
}

-- The bytes of the elements, one after the other.
abbrev pub all_bytes : {A : Type 0} → (A → List ℕ) → List A → List ℕ
all_bytes bytes [] = []
all_bytes bytes (a ∷ as') = bytes a ++ all_bytes bytes as'

abbrev pub counted_bytes : {A : Type 0} → (A → List ℕ) → List A → List ℕ
counted_bytes bytes xs = uint32_bytes (length xs) ++ all_bytes bytes xs

advance-add :
    (xs ys : List ℕ) (b : Buffer)
    → advance (length ys) (advance (length xs) b) ≡ advance (length (xs ++ ys)) b
advance-add xs ys b = ap (λ (r : ℕ). record b { rpos = r }) (omega (arith, length-append xs ys))

advance_none : (b : Buffer) → advance 0 b ≡ b
advance_none b = ap (λ (r : ℕ). record b { rpos = r }) (omega arith)

module _ {F : Type 0} where
  abbrev pub with_creates : List (CreateEntityStruct F) → Player F → Player F
  with_creates cs p = record p {
    user = record (p.user) { create_entity_queue = p.user.create_entity_queue ++ cs };
  }

  abbrev pub with_transforms : List (TransformEntityStruct F) → Player F → Player F
  with_transforms ts p = record p {
    user = record (p.user) { transform_entity_queue = p.user.transform_entity_queue ++ ts };
  }

  abbrev pub with_destroys : List DestroyEntityStruct → Player F → Player F
  with_destroys ds p = record p {
    user = record (p.user) { destroy_entity_queue = p.user.destroy_entity_queue ++ ds };
  }

  pub on_buffer_ok :
      {A B : Type 0} (m : Action Buffer A) (f : A → Handler F B) (v : A) (p : Player F)
      (b b' : Buffer)
      → m b ≡ (ok v, b')
      → (on_buffer m >>= f) (p, b) ≡ f v (p, b')
  on_buffer_ok m f v p b b' e = ap (λ (r : Result _ × Buffer). resume f (r.0, (p, r.1))) e

  pub on_buffer_step :
      {A B : Type 0} (m : Action Buffer A) (f : A → Handler F B) (xs : List ℕ) (v : A)
      → Reads m xs v
      → (p : Player F) (b : Buffer) (post : List ℕ) → remaining b ≡ xs ++ post
      → (on_buffer m >>= f) (p, b) ≡ f v (p, advance (length xs) b)
  on_buffer_step m f xs v h p b post e =
      ap (λ (r : Result _ × Buffer). resume f (r.0, (p, r.1))) (h.reads b post e)

  -- The loop over elements that are all there queues them in their order and passes their bytes.
  module _ {A : Type 0} (read : Action Buffer A) (add : A → Player F → Player F)
      (put : List A → Player F → Player F) (bytes : A → List ℕ) (Fits : A → Type 0)
      (Free : Player F → Type 0) (read_lem : (a : A) → Fits a → Reads read (bytes a) a)
      (put_none : (p : Player F) → put [] p ≡ p)
      (put_next : (a : A) (xs : List A) (p : Player F) → Free p → put xs (add a p) ≡ put (a ∷ xs) p)
      (add_free : (a : A) (p : Player F) → Free p → Free (add a p)) where
    receive_each_lem :
        (xs : List A) (p : Player F) (b : Buffer) (post : List ℕ)
        → All Fits xs
        → Free p
        → remaining b ≡ all_bytes bytes xs ++ post
        → receive_each read add (length xs) (p, b)
          ≡ (ok tt, (put xs p, advance (length (all_bytes bytes xs)) b))
    unfolding receive_each
    receive_each_lem [] p b post h free e = rw (put_none p, advance_none b)
    receive_each_lem (a ∷ xs) p b post (ha, h) free e =
        let e' : remaining b ≡ bytes a ++ (all_bytes bytes xs ++ post) =
          e ∙ append_assoc (bytes a) (all_bytes bytes xs) post in
        on_buffer_step read _ (bytes a) a (read_lem a ha) p b (all_bytes bytes xs ++ post) e'
        ∙ receive_each_lem xs (add a p) (advance (length (bytes a)) b) post h (add_free a p free)
            (remaining-advance (bytes a) b (all_bytes bytes xs ++ post) e')
        ∙ rw (put_next a xs p free, advance-add (bytes a) (all_bytes bytes xs) b)

    -- The same with the count before the elements.
    counted_lem :
        (xs : List A) (p : Player F) (b : Buffer) (post : List ℕ)
        → All Fits xs
        → IsUint (length xs)
        → Free p
        → remaining b ≡ counted_bytes bytes xs ++ post
        → (on_buffer read_uint32 >>= λ n. receive_each read add n) (p, b)
          ≡ (ok tt, (put xs p, advance (length (counted_bytes bytes xs)) b))
    counted_lem xs p b post h hl free e =
        let count = uint32_bytes (length xs) in
        on_buffer_step read_uint32 _ count (length xs) (read_uint32-Reads (length xs) hl) p b
          (all_bytes bytes xs ++ post) e
        ∙ receive_each_lem xs p (advance 4 b) post h free
            (remaining-advance count b (all_bytes bytes xs ++ post) e)
        ∙ rw (advance-add count (all_bytes bytes xs) b)

  pub with_creates-add :
      (c : CreateEntityStruct F) (cs : List (CreateEntityStruct F)) (p : Player F)
      → p.user.create_entity_mutex ≡ false
      → with_creates cs (add_create c p) ≡ with_creates (c ∷ cs) p
  unfolding add_create
  with_creates-add c cs p free = simp (append_assoc, free)

  with_transforms-add :
      (t : TransformEntityStruct F) (ts : List (TransformEntityStruct F)) (p : Player F)
      → p.user.transform_entity_mutex ≡ false
      → with_transforms ts (add_transform t p) ≡ with_transforms (t ∷ ts) p
  unfolding add_transform
  with_transforms-add t ts p free = simp (append_assoc, free)

  with_destroys-add :
      (d : DestroyEntityStruct) (ds : List DestroyEntityStruct) (p : Player F)
      → p.user.destroy_entity_mutex ≡ false
      → with_destroys ds (add_destroy d p) ≡ with_destroys (d ∷ ds) p
  unfolding add_destroy
  with_destroys-add d ds p free = simp (append_assoc, free)

abbrev pub destroy_bytes : DestroyEntityStruct → List ℕ
destroy_bytes d = uint32_bytes d.sessionid

abbrev pub IsDestroy : DestroyEntityStruct → Type 0
IsDestroy d = IsUint d.sessionid

read_destroy-Reads :
    (d : DestroyEntityStruct) → IsDestroy d → Reads read_destroy (destroy_bytes d) d
unfolding read_destroy
read_destroy-Reads d h = map-Reads _ (read_uint32-Reads d.sessionid h)

module _ {F : Type 0} where
  abbrev pub CreateFree : Player F → Type 0
  CreateFree p = p.user.create_entity_mutex ≡ false

  abbrev TransformFree : Player F → Type 0
  TransformFree p = p.user.transform_entity_mutex ≡ false

  abbrev DestroyFree : Player F → Type 0
  DestroyFree p = p.user.destroy_entity_mutex ≡ false

  pub add_create_free :
      (c : CreateEntityStruct F) (p : Player F) → CreateFree p → CreateFree (add_create c p)
  unfolding add_create
  add_create_free c p h = refl

  add_transform_free :
      (t : TransformEntityStruct F) (p : Player F)
      → TransformFree p
      → TransformFree (add_transform t p)
  unfolding add_transform
  add_transform_free t p h = refl

  add_destroy_free :
      (d : DestroyEntityStruct) (p : Player F) → DestroyFree p → DestroyFree (add_destroy d p)
  unfolding add_destroy
  add_destroy_free d p h = refl

  -- A destroy packet queues its session ids in their order behind those that are there, changes
  -- nothing else of the player, and is read to its end, if nobody owns the queue's mutex.
  pub receive_destroy_lem :
      (ds : List DestroyEntityStruct) (p : Player F) (b : Buffer) (post : List ℕ)
      → All IsDestroy ds
      → IsUint (length ds)
      → p.user.destroy_entity_mutex ≡ false
      → remaining b ≡ counted_bytes destroy_bytes ds ++ post
      → receive_destroy (p, b)
        ≡ (ok tt, (with_destroys ds p, advance (length (counted_bytes destroy_bytes ds)) b))
  unfolding receive_destroy
  receive_destroy_lem =
      counted_lem read_destroy add_destroy with_destroys destroy_bytes IsDestroy DestroyFree
        read_destroy-Reads (λ q. rw append-nil) with_destroys-add add_destroy_free

module _ {F : Type 0} (fl : Floats F) where
  -- A create packet queues its entities in their order behind those that are there, changes nothing
  -- else of the player, and is read to its end, if nobody owns the queue's mutex.
  pub receive_create_lem :
      (cs : List (CreateEntityStruct F)) (p : Player F) (b : Buffer) (post : List ℕ)
      → All (IsCreate fl) cs
      → IsUint (length cs)
      → p.user.create_entity_mutex ≡ false
      → remaining b ≡ counted_bytes (create_bytes fl) cs ++ post
      → receive_create fl (p, b)
        ≡ (ok tt, (with_creates cs p, advance (length (counted_bytes (create_bytes fl) cs)) b))
  unfolding receive_create
  receive_create_lem =
      counted_lem (read_create fl) add_create with_creates (create_bytes fl) (IsCreate fl)
        CreateFree (read_create-Reads fl) (λ q. rw append-nil) with_creates-add add_create_free

  -- A transform packet queues its entities with their paths, in their order behind those that are
  -- there, changes nothing else of the player, and is read to its end, if nobody owns the mutex.
  pub receive_transform_lem :
      (ts : List (TransformEntityStruct F)) (p : Player F) (b : Buffer) (post : List ℕ)
      → All (IsTransform fl) ts
      → IsUint (length ts)
      → p.user.transform_entity_mutex ≡ false
      → remaining b ≡ counted_bytes (transform_entity_bytes fl) ts ++ post
      → receive_transform fl (p, b) ≡ (
        ok tt,
        (with_transforms ts p, advance (length (counted_bytes (transform_entity_bytes fl) ts)) b),
      )
  unfolding receive_transform
  receive_transform_lem =
      counted_lem (read_transform_entity fl) add_transform with_transforms
        (transform_entity_bytes fl) (IsTransform fl) TransformFree (read_transform_entity-Reads fl)
        (λ q. rw append-nil) with_transforms-add add_transform_free
