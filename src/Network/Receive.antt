-- ===== src/Network/Receive.antt =====
-- class Receive: the handlers of the packets from the server, and the table of their opcodes.
pub mod Reading
pub mod Queues
pub mod Frame
pub mod Truncated
use starfall.Base.{
  ℕ, zero, suc, List, [], ◌∷◌, ◌++◌, Option, some, none, Bool, true, false, ◌==◌, if◌then◌else◌,
}
use starfall.Base.Action.{Action, Result, ok, pure, modify, call, ◌>>=◌, ◌>>◌}
use starfall.Network.Runtime.{Floats, Vector3, Quaternion}
use starfall.Network.Buffer.{Buffer, read_uint32, read_string, read_float}
use starfall.Network.Structs.{
  LoginStruct, TransformStruct, TransformEntityStruct, CreateEntityStruct, DestroyEntityStruct,
  User, Player, new_create_entity,
}

pub data ReceiveFunction : Type 0 where
  login_reply create_entity transform_entity destroy_entity objects_reply : ReceiveFunction

-- `map`: the reply to an opcode has the bit 0x10000000 set. Others have no handler.
unfoldable pub receive_map : ℕ → Option ReceiveFunction
receive_map opcode =
    if opcode == 0x10000001
    then some login_reply
    else if opcode == 0x10000003
    then some create_entity
    else if opcode == 0x10000004
    then some transform_entity
    else if opcode == 0x10000005
    then some destroy_entity
    else if opcode == 0x10000006
    then some objects_reply
    else none

unfoldable pub read_login : Action Buffer LoginStruct
read_login = do
  state ← read_uint32
  userid ← read_uint32
  usertype ← read_uint32
  username ← read_string
  password ← read_string
  pure (record {
    state = state;
    userid = userid;
    usertype = usertype;
    username = username;
    password = password;
  })

unfoldable pub read_destroy : Action Buffer DestroyEntityStruct
read_destroy = do sessionid ← read_uint32; pure (record { sessionid = sessionid })

-- The reply is taken only if it changes the user's id. The result says whether it was.
unfoldable pub accept_login : {F : Type 0} → LoginStruct → Player F → Bool × Player F
accept_login l p = if p.login.userid == l.userid then (false, p) else (true, record p { login = l })

module _ {F : Type 0} where
  -- `WaitOne` and `ReleaseMutex` round an access
  abbrev pub own_create : Bool → Player F → Player F
  own_create o p = record p { user = record (p.user) { create_entity_mutex = o } }

  abbrev pub own_transform : Bool → Player F → Player F
  own_transform o p = record p { user = record (p.user) { transform_entity_mutex = o } }

  abbrev pub own_destroy : Bool → Player F → Player F
  own_destroy o p = record p { user = record (p.user) { destroy_entity_mutex = o } }

  abbrev pub own_check : Bool → Player F → Player F
  own_check o p = record p { user = record (p.user) { check_objects_mutex = o } }

  unfoldable pub add_create : CreateEntityStruct F → Player F → Player F
  add_create c p =
      let q = own_create true p in
      own_create false (record q {
        user = record (q.user) { create_entity_queue = q.user.create_entity_queue ++ (c ∷ []) };
      })

  unfoldable pub add_transform : TransformEntityStruct F → Player F → Player F
  add_transform t p =
      let q = own_transform true p in
      own_transform false (record q {
        user = record (q.user) {
          transform_entity_queue = q.user.transform_entity_queue ++ (t ∷ []);
        };
      })

  unfoldable pub add_destroy : DestroyEntityStruct → Player F → Player F
  add_destroy d p =
      let q = own_destroy true p in
      own_destroy false (record q {
        user = record (q.user) { destroy_entity_queue = q.user.destroy_entity_queue ++ (d ∷ []) };
      })

  abbrev pub set_check_state : ℕ → Player F → Player F
  set_check_state s p = record p { user = record (p.user) { check_objects_state = s } }

-- A handler works on the player and on the buffer that it was given.
abbrev pub Handler : Type 0 → Type 0 → Type 0
Handler F A = Action (Player F × Buffer) A

module _ {F A : Type 0} where
  abbrev pub on_buffer : Action Buffer A → Handler F A
  on_buffer m (p, b) = let (r, b') = m b in (r, (p, b'))

module _ {F : Type 0} where
  abbrev pub on_player : (Player F → Player F) → Handler F (Unit {0})
  on_player f (p, b) = (ok tt, (f p, b))

module _ {F : Type 0} where
  unfoldable pub receive_login : Handler F Bool
  receive_login = do
    l ← on_buffer read_login
    call (λ (p, b). let (taken, p') = accept_login l p in (taken, (p', b)))

  -- The loop of `CreateEntity`, `TransformEntity` and `DestroyEntity`: read a structure, queue it.
  unfoldable pub receive_each :
      {A : Type 0} → Action Buffer A → (A → Player F → Player F) → ℕ → Handler F (Unit {0})
  receive_each read add zero = pure tt
  receive_each read add (suc n) = do a ← on_buffer read; on_player (add a); receive_each read add n

  unfoldable pub receive_destroy : Handler F (Unit {0})
  receive_destroy = do n ← on_buffer read_uint32; receive_each read_destroy add_destroy n

module _ {F : Type 0} (fl : Floats F) where
  unfoldable pub read_vector : Action Buffer (Vector3 F)
  read_vector = do
    x ← read_float fl
    y ← read_float fl
    z ← read_float fl
    pure (record { x = x; y = y; z = z })

  unfoldable pub read_quaternion : Action Buffer (Quaternion F)
  read_quaternion = do
    x ← read_float fl
    y ← read_float fl
    z ← read_float fl
    w ← read_float fl
    pure (record { x = x; y = y; z = z; w = w })

  unfoldable pub read_create : Action Buffer (CreateEntityStruct F)
  unfolding new_create_entity
  read_create = do
    sessionid ← read_uint32
    mode ← read_uint32
    display_name ← read_string
    position ← read_vector
    rotation ← read_quaternion
    pure (record (new_create_entity fl) {
      sessionid = sessionid;
      mode = mode;
      display_name = display_name;
      position = position;
      rotation = rotation;
    })

  unfoldable pub receive_create : Handler F (Unit {0})
  receive_create = do n ← on_buffer read_uint32; receive_each read_create add_create n

  unfoldable pub read_transform : Action Buffer (TransformStruct F)
  read_transform = do
    action ← read_uint32
    position ← read_vector
    rotation ← read_quaternion
    pure (record { action = action; position = position; rotation = rotation })

  -- The inner loop of `TransformEntity`.
  unfoldable pub read_path : ℕ → Action Buffer (List (TransformStruct F))
  read_path zero = pure []
  read_path (suc n) = do t ← read_transform; path ← read_path n; pure (t ∷ path)

  unfoldable pub read_transform_entity : Action Buffer (TransformEntityStruct F)
  read_transform_entity = do
    sessionid ← read_uint32
    n ← read_uint32
    path ← read_path n
    pure (record { sessionid = sessionid; path = path })

  unfoldable pub receive_transform : Handler F (Unit {0})
  receive_transform = do
    n ← on_buffer read_uint32
    receive_each read_transform_entity add_transform n

  unfoldable pub receive_objects : Handler F (Unit {0})
  receive_objects = do
    on_player (own_check true)
    state ← on_buffer read_uint32
    on_player (set_check_state state)
    on_player (own_check false)
    receive_create
    receive_destroy

  -- The call of the handler that `map` holds; the results of the handlers are not used.
  unfoldable pub run_receive : ReceiveFunction → Handler F (Unit {0})
  run_receive login_reply = receive_login >> pure tt
  run_receive create_entity = receive_create
  run_receive transform_entity = receive_transform
  run_receive destroy_entity = receive_destroy
  run_receive objects_reply = receive_objects
