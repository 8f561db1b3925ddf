-- ===== src/Network/Client.antt =====
-- class GameClient, and the methods of class Player that call it through `Program.Client`, which is
-- the client itself. The socket is the program's environment: an interface.
pub mod Sending
pub mod Receiving
pub mod Login
use starfall.Base.{
  ℕ, ◌≤◌, ◌≡◌, List, [], ◌∷◌, ◌++◌, length, some, none, Option, Bool, true, false, ◌||◌, ◌==◌, not,
  if◌then◌else◌,
}
use starfall.Base.Action.{
  Action, Result, ok, fault, thread_state, pure, throw, gets, modify, call, catch_socket, ◌>>=◌,
  ◌>>◌,
}
use starfall.Network.Runtime.{Text, text, Floats}
use starfall.Network.Buffer.{Buffer, new_buffer, clear, read_uint32}
use starfall.Network.Structs.{GuiStruct, Player, new_player, is_logged_in}
use starfall.Network.Send.{SendFunction, login_data, head_size, enqueue}
use starfall.Network.Receive.{ReceiveFunction, receive_map, run_receive, Handler}

-- `TcpClient` over the state of the connection. `receive n` is `Receive` into an array of `n` bytes:
-- it returns those that arrived.
pub record TcpClient (N : Type 0) : Type 0 where
  pub connect : Text → ℕ → Action N (Unit {0})
  pub connected : N → Bool
  pub send : List ℕ → Action N (Unit {0})
  pub receive : ℕ → Action N (List ℕ)
  pub close : N → N

pub data ThreadState : Type 0 where
  unstarted running aborted : ThreadState

-- `loaded` lists the calls of `Application.LoadLevel`.
pub record GameClient (F N : Type 0) : Type 0 where
  pub is_receiving : Bool
  pub receive_thread : ThreadState
  pub player : Player F
  pub net : N
  pub loaded : List Text

module _ {F N : Type 0} where
  abbrev pub new_client : Floats F → N → Text → ℕ → GameClient F N
  new_client fl net address port = record {
    is_receiving = false;
    receive_thread = unstarted;
    player = new_player fl address port;
    net = net;
    loaded = [];
  }

  abbrev pub set_send_queue : List Buffer → GameClient F N → GameClient F N
  set_send_queue queue c = record c {
    player = record (c.player) { user = record (c.player.user) { send_queue = queue } };
  }

  abbrev pub set_load_queue : List Text → GameClient F N → GameClient F N
  set_load_queue queue c = record c {
    player = record (c.player) { user = record (c.player.user) { load_level_queue = queue } };
  }

  abbrev pub set_state : ℕ → GameClient F N → GameClient F N
  set_state s c = record c {
    player = record (c.player) { login = record (c.player.login) { state = s } };
  }

  -- `loadLevelQueue.push(level)`
  abbrev pub push_level : Text → GameClient F N → GameClient F N
  push_level level c = set_load_queue (c.player.user.load_level_queue ++ (level ∷ [])) c

  -- The body of `End` on the queue of levels.
  abbrev pub end_levels : List Text → GameClient F N → Bool × GameClient F N
  end_levels [] c = (false, c)
  end_levels (level ∷ queue) c =
      (true, record (set_load_queue [] c) { loaded = c.loaded ++ (level ∷ []) })

  -- `End`
  unfoldable pub end_scene : GameClient F N → Bool × GameClient F N
  end_scene c = end_levels c.player.user.load_level_queue c

  unfoldable pub stop_receiving : GameClient F N → GameClient F N
  stop_receiving c = record c { is_receiving = false; receive_thread = aborted }

  -- `Thread.Start` throws unless the thread was never started.
  unfoldable pub start_thread : ThreadState → Action (GameClient F N) (Unit {0})
  start_thread unstarted c = (ok tt, record c { receive_thread = running })
  start_thread _ c = (fault thread_state, c)

  unfoldable pub start_receiving : Action (GameClient F N) (Unit {0})
  start_receiving c = start_thread c.receive_thread (record c { is_receiving = true })

  abbrev pub on_net : {A : Type 0} → Action N A → Action (GameClient F N) A
  on_net m c = let (r, net) = m c.net in (r, record c { net = net })

  abbrev pub on_handler : {A : Type 0} → Buffer → Handler F A → Action (GameClient F N) A
  on_handler b m c = let (r, s) = m (c.player, b) in (r, record c { player = s.0 })

module _ {F N : Type 0} (tcp : TcpClient N) where
  unfoldable pub leave : GameClient F N → GameClient F N
  leave c =
      let stopped = stop_receiving (set_send_queue [] c) in
      let closed = record stopped { net = tcp.close stopped.net } in
      set_state 0 (end_scene (push_level (text "LoginScene") closed)).1

  -- `OnState`
  unfoldable pub on_state : GameClient F N → GameClient F N
  on_state c =
      if c.player.login.state == 1
      then set_state 2 (push_level (text "WorldScene") c)
      else if c.player.login.state == 3
      then leave c
      else c

  unfoldable pub logout : GameClient F N → GameClient F N
  logout c = on_state (set_state 3 c)

  -- The loop of `SendPackets`: a packet leaves the queue before it is sent.
  unfoldable pub send_loop : List Buffer → Action (GameClient F N) (Unit {0})
  send_loop [] = pure tt
  send_loop (b ∷ queue) = do
    modify (set_send_queue queue)
    on_net (tcp.send b.bytes)
    send_loop queue

  unfoldable pub send_packets : Action (GameClient F N) (Unit {0})
  send_packets c = catch_socket (send_loop c.player.user.send_queue) (modify logout) c

-- The header as it is read: `begin`, `opcode`, `bodysize`, `end`.
unfoldable pub read_head : Action Buffer (ℕ × ℕ × ℕ × ℕ)
read_head = do
  begin ← read_uint32
  opcode ← read_uint32
  bodysize ← read_uint32
  end ← read_uint32
  pure (begin, opcode, bodysize, end)

-- A buffer into whose `data` the bytes were pushed, without its write head.
abbrev pub filled_buffer : List ℕ → Buffer
filled_buffer bytes = record new_buffer { bytes = bytes }

module _ {F N : Type 0} (fl : Floats F) (tcp : TcpClient N) where
  -- The handler of the opcode, if there is one.
  unfoldable pub dispatch : Option ReceiveFunction → Buffer → Action (GameClient F N) (Unit {0})
  dispatch none b = pure tt
  dispatch (some f) b = on_handler b (run_receive fl f)

  -- What `ReceivePacket` does with the bytes of a header.
  unfoldable pub receive_body : List ℕ → Action (GameClient F N) (Unit {0})
  receive_body [] = pure tt
  receive_body (v ∷ vs) = do
    (begin, opcode, bodysize, end) ← λ c. ((read_head (filled_buffer (v ∷ vs))).0, c)
    body ← on_net (tcp.receive bodysize)
    dispatch (receive_map opcode) (filled_buffer body)

  unfoldable pub receive_packet : Action (GameClient F N) (Unit {0})
  receive_packet = do header ← on_net (tcp.receive head_size); receive_body header

  unfoldable pub talk : Bool → Action (GameClient F N) (Unit {0})
  talk false = pure tt
  talk true = do
    modify (λ c. record c { player = (enqueue fl login_data c.player).1 })
    send_packets tcp
    receive_packet

  -- The `try` block of `Init`.
  unfoldable pub log_in : GuiStruct → Action (GameClient F N) GuiStruct
  log_in gui = do
    address ← gets (λ c. c.player.user.address)
    port ← gets (λ c. c.player.user.port)
    on_net (tcp.connect address port)
    modify (λ c. record c {
      player = record (c.player) {
        login = record (c.player.login) {
          username = gui.user_field;
          password = gui.password_field;
        };
      };
    })
    connected ← gets (λ c. tcp.connected c.net)
    talk connected
    modify (on_state tcp)
    logged_in ← gets (λ c. is_logged_in c.player)
    pure (record gui {
      message = if logged_in then text "Logging in..." else text "Failed to login.";
      connection_status = true;
    })

  -- `Init`
  unfoldable pub init : GuiStruct → Action (GameClient F N) GuiStruct
  init gui =
      if length gui.user_field == 0 || length gui.password_field == 0
      then pure
          (record gui { message = text "Enter username/password!"; connection_status = false })
      else catch_socket (log_in gui)
          (pure (record gui { message = text "Failed to connect."; connection_status = false }))
