-- ===== src/Network/Receive/Frame.antt =====
-- What no handler of class Receive touches, whatever bytes it is given and whether it throws or not.
use starfall.Base.{arith, ℕ, zero, suc, ◌≡◌, true, false}
use starfall.Base.Action.{Action, Result, ok, fault, resume, pure, call, ◌>>=◌, ◌>>◌}
use starfall.Network.Runtime.{Floats}
use starfall.Network.Buffer.{Buffer, read_uint32}
use starfall.Network.Buffer.Reading.{read_uint32_total}
use starfall.Network.Structs.{
  LoginStruct, CreateEntityStruct, DestroyEntityStruct, TransformEntityStruct, Player,
}
use starfall.Network.Receive.{
  ReceiveFunction, login_reply, create_entity, transform_entity, destroy_entity, objects_reply,
  Handler, on_buffer, on_player, own_check, set_check_state, accept_login, add_create,
  add_transform, add_destroy, read_login, read_destroy, read_create, read_transform_entity,
  receive_login, receive_each, receive_destroy, receive_create, receive_transform, receive_objects,
  run_receive,
}

-- `q` has the address and the outgoing queues of `p`, and nobody owns a mutex.
pub record Untouched {F : Type 0} (p q : Player F) : Type 0 where
  pub same_address : q.user.address ≡ p.user.address
  pub same_port : q.user.port ≡ p.user.port
  pub same_radius : q.user.check_objects_radius ≡ p.user.check_objects_radius
  pub same_send_queue : q.user.send_queue ≡ p.user.send_queue
  pub same_levels : q.user.load_level_queue ≡ p.user.load_level_queue
  pub same_console_queue : q.user.console_queue ≡ p.user.console_queue
  pub same_objects_queue : q.user.objects_queue ≡ p.user.objects_queue
  pub same_path : q.user.transform_player ≡ p.user.transform_player
  pub check_free : q.user.check_objects_mutex ≡ false
  pub create_free : q.user.create_entity_mutex ≡ false
  pub transform_free : q.user.transform_entity_mutex ≡ false
  pub destroy_free : q.user.destroy_entity_mutex ≡ false

module _ {F : Type 0} where
  -- From any player that `P` holds of, the handler leads to one that it holds of.
  record Keeps (P : Player F → Type 0) {A : Type 0} (m : Handler F A) : Type 0 where
    keeps : (p : Player F) (b : Buffer) → P p → P (m (p, b)).1.0

  pure-Keeps : (P : Player F → Type 0) {A : Type 0} (a : A) → Keeps P (pure a)
  pure-Keeps P a = record { keeps = λ p b h. h }

  on_buffer-Keeps :
      (P : Player F → Type 0) {A : Type 0} (m : Action Buffer A) → Keeps P (on_buffer m)
  on_buffer-Keeps P m = record { keeps = λ p b h. h }

  on_player-Keeps :
      (P : Player F → Type 0) (f : Player F → Player F)
      → ((p : Player F) → P p → P (f p))
      → Keeps P (on_player f)
  on_player-Keeps P f hf = record { keeps = λ p b h. hf p h }

  resume_lem :
      (P : Player F → Type 0) {A B : Type 0} (f : A → Handler F B)
      → ((a : A) → Keeps P (f a))
      → (r : Result A) (p : Player F) (b : Buffer) → P p
      → P (resume f (r, (p, b))).1.0
  resume_lem P f hf (ok a) p b h = (hf a).keeps p b h
  resume_lem P f hf (fault e) p b h = h

  >>=-Keeps :
      (P : Player F → Type 0) {A B : Type 0} (m : Handler F A) (f : A → Handler F B)
      → Keeps P m
      → ((a : A) → Keeps P (f a))
      → Keeps P (m >>= f)
  >>=-Keeps P m f hm hf = record {
    keeps = λ p b h. resume_lem P f hf (m (p, b)).0 (m (p, b)).1.0 (m (p, b)).1.1 (hm.keeps p b h);
  }

  receive_each-Keeps :
      (P : Player F → Type 0) {A : Type 0} (read : Action Buffer A) (add : A → Player F → Player F)
      → ((a : A) (p : Player F) → P p → P (add a p))
      → (n : ℕ) → Keeps P (receive_each read add n)
  unfolding receive_each
  receive_each-Keeps P read add h zero = pure-Keeps P tt
  receive_each-Keeps P read add h (suc n) =
      >>=-Keeps P _ _ (on_buffer-Keeps P read) λ a.
        >>=-Keeps P _ _ (on_player-Keeps P (add a) (h a)) λ _. receive_each-Keeps P read add h n

  module _ (p0 : Player F) where
    add_create-Untouched :
        (c : CreateEntityStruct F) (p : Player F) → Untouched p0 p → Untouched p0 (add_create c p)
    unfolding add_create
    add_create-Untouched c p h = ground arith

    add_transform-Untouched :
        (t : TransformEntityStruct F) (p : Player F)
        → Untouched p0 p
        → Untouched p0 (add_transform t p)
    unfolding add_transform
    add_transform-Untouched t p h = ground arith

    add_destroy-Untouched :
        (d : DestroyEntityStruct) (p : Player F) → Untouched p0 p → Untouched p0 (add_destroy d p)
    unfolding add_destroy
    add_destroy-Untouched d p h = ground arith

    accept_login-Untouched :
        (l : LoginStruct) (p : Player F) → Untouched p0 p → Untouched p0 (accept_login l p).1
    unfolding accept_login
    accept_login-Untouched l p h = ground arith

    checked-Untouched :
        (n : ℕ) (p : Player F)
        → Untouched p0 p
        → Untouched p0 (own_check false (set_check_state n (own_check true p)))
    checked-Untouched n p h = ground arith

    call_login-Keeps :
        (l : LoginStruct)
        → Keeps
            (Untouched p0)
            (call (λ (p, b). let (taken, p') = accept_login l p in (taken, (p', b))))
    call_login-Keeps l = record { keeps = λ p b h. accept_login-Untouched l p h }

    receive_login-Keeps : Keeps (Untouched p0) receive_login
    unfolding receive_login
    receive_login-Keeps = >>=-Keeps _ _ _ (on_buffer-Keeps _ read_login) call_login-Keeps

    receive_destroy-Keeps : Keeps (Untouched p0) receive_destroy
    unfolding receive_destroy
    receive_destroy-Keeps =
        >>=-Keeps _ _ _ (on_buffer-Keeps _ read_uint32)
          (receive_each-Keeps _ read_destroy add_destroy add_destroy-Untouched)

module _ {F : Type 0} (fl : Floats F) (p0 : Player F) where
  receive_create-Keeps : Keeps (Untouched p0) (receive_create fl)
  unfolding receive_create
  receive_create-Keeps =
      >>=-Keeps _ _ _ (on_buffer-Keeps _ read_uint32)
        (receive_each-Keeps _ (read_create fl) add_create (add_create-Untouched p0))

  receive_transform-Keeps : Keeps (Untouched p0) (receive_transform fl)
  unfolding receive_transform
  receive_transform-Keeps =
      >>=-Keeps _ _ _ (on_buffer-Keeps _ read_uint32)
        (receive_each-Keeps _ (read_transform_entity fl) add_transform (add_transform-Untouched p0))

  abbrev entity_lists : Handler F (Unit {0})
  entity_lists = receive_create fl >> receive_destroy

  -- The state is read, and the lists of entities follow, with the mutex given back.
  receive_objects_state :
      (p : Player F) (b : Buffer)
      → (n : ℕ) × (b' : Buffer) × (receive_objects fl (p, b)
          ≡ entity_lists (own_check false (set_check_state n (own_check true p)), b'))
  unfolding receive_objects
  receive_objects_state p b = let (n, b', e) = read_uint32_total b in (n, b', rw e)

  receive_objects-Keeps : Keeps (Untouched p0) (receive_objects fl)
  receive_objects-Keeps = record {
    keeps = λ p b h.
        let (n, b', e) = receive_objects_state p b in
        rw e (
          (>>=-Keeps _ _ _ receive_create-Keeps (λ _. receive_destroy-Keeps p0)).keeps _ b'
            (checked-Untouched p0 n p h));
  }

  run_receive-Keeps : (f : ReceiveFunction) → Keeps (Untouched p0) (run_receive fl f)
  unfolding run_receive
  run_receive-Keeps login_reply = >>=-Keeps _ _ _ (receive_login-Keeps p0) (λ _. pure-Keeps _ tt)
  run_receive-Keeps create_entity = receive_create-Keeps
  run_receive-Keeps transform_entity = receive_transform-Keeps
  run_receive-Keeps destroy_entity = receive_destroy-Keeps p0
  run_receive-Keeps objects_reply = receive_objects-Keeps

-- While nobody owns a mutex, a handler, whatever bytes it is given and whether it throws on them or
-- not, leaves the address, what waits to be sent and the queue of levels alone, and gives every mutex
-- back.
pub run_receive-Untouched :
    {F : Type 0} (fl : Floats F) (f : ReceiveFunction) (p0 p : Player F) (b : Buffer)
    → Untouched p0 p
    → Untouched p0 (run_receive fl f (p, b)).1.0
run_receive-Untouched fl f p0 p b h = (run_receive-Keeps fl p0 f).keeps p b h
