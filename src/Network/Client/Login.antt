-- ===== src/Network/Client/Login.antt =====
-- Logging in: `LoginReply`, and `Init` from the form to the next scene.
use starfall.Base.{
  ℕ, ◌<◌, ◌≡◌, ◌≢◌, refl, sym, ap, ◌∙◌, List, [], ◌++◌, true, false, not, arith, length, append-nil,
  ◌==◌, ◌||◌, if◌then◌else◌,
}
use starfall.Base.Action.{Action, ok, resume, handle_socket, ◌>>=◌, ◌>>◌, pure, gets, modify}
use starfall.Network.Runtime.{Text, text, Floats, IsUint}
use starfall.Network.Buffer.{Buffer, new_buffer}
use starfall.Network.Buffer.Reading.{advance, remaining}
use starfall.Network.Structs.{GuiStruct, LoginStruct, Player, is_logged_in}
use starfall.Network.Send.{login_data, head_size, run_send, enqueue}
use starfall.Network.Send.Framing.{header_bytes}
use starfall.Network.Send.Bodies.{login_bytes}
use starfall.Network.Receive.{receive_map, receive_login, accept_login, run_receive, read_login}
use starfall.Network.Receive.Reading.{IsLogin, read_login-Reads}
use starfall.Network.Receive.Queues.{on_buffer_step}
use starfall.Network.Client.{
  TcpClient, GameClient, set_send_queue, push_level, on_state, filled_buffer, dispatch,
  receive_packet, talk, log_in, init,
}
use starfall.Network.Client.Sending.{TakesAll, sent_all, with_net, send_packets_all}
use starfall.Network.Client.Receiving.{net_step, receive_packet_lem}

module _ {F : Type 0} where
  -- From the bytes of a login structure `LoginReply` takes over all of it and returns true, if its
  -- user id is not the player's; otherwise it changes nothing of the player and returns false.
  pub receive_login_lem :
      (l : LoginStruct) (p : Player F) (b : Buffer) (post : List ℕ)
      → IsLogin l
      → remaining b ≡ login_bytes l ++ post
      → receive_login (p, b) ≡ (
        ok (not (p.login.userid == l.userid)),
        (
          if p.login.userid == l.userid then p else record p { login = l },
          advance (length (login_bytes l)) b,
        ),
      )
  unfolding receive_login
  receive_login_lem l p b post h e =
      on_buffer_step read_login _ (login_bytes l) l (read_login-Reads l h) p b post e
      ∙ unfold accept_login in ground arith

filled_form :
    (name password : Text)
    → 0 < length name
    → 0 < length password
    → (length name == 0 || length password == 0) ≡ false
filled_form name password hn hp = ground arith

module _ {F N : Type 0} (fl : Floats F) (tcp : TcpClient N) where
  -- The client after `Connect`, with the name and the password of the form.
  abbrev pub identified : GuiStruct → N → GameClient F N → GameClient F N
  identified gui n c = record c {
    net = n;
    player = record (c.player) {
      login = record (c.player.login) { username = gui.user_field; password = gui.password_field };
    };
  }

  -- The same with the login packet in the queue.
  abbrev pub asking : GuiStruct → N → GameClient F N → GameClient F N
  asking gui n c =
      let d = identified gui n c in record d { player = (enqueue fl login_data d.player).1 }

  enqueue_queue :
      (p : Player F)
      → record ((enqueue fl login_data p).1) {
        user = record ((enqueue fl login_data p).1.user) { send_queue = [] };
      }
        ≡ record p { user = record (p.user) { send_queue = [] } }
  unfolding enqueue run_send
  enqueue_queue p = refl

  -- The client once the reply `l` has been taken over.
  abbrev pub replied : LoginStruct → N → GameClient F N → GameClient F N
  replied l n c = record c {
    net = n;
    player = record (c.player) { login = l; user = record (c.player.user) { send_queue = [] } };
  }

  dispatch_login :
      (l : LoginStruct) (c : GameClient F N)
      → IsLogin l
      → c.player.login.userid ≢ l.userid
      → dispatch fl tcp (receive_map 0x10000001) (filled_buffer (login_bytes l)) c
        ≡ (ok tt, record c { player = record (c.player) { login = l } })
  unfolding dispatch receive_map run_receive new_buffer
  dispatch_login l c h ne =
      rw
        (receive_login_lem l c.player (filled_buffer (login_bytes l)) [] h
          (sym (append-nil (login_bytes l))))
        (ground arith)

  abbrev finish : GuiStruct → Action (GameClient F N) GuiStruct
  finish gui = do
    modify (on_state tcp)
    logged_in ← gets (λ c. is_logged_in c.player)
    pure (record gui {
      message = if logged_in then text "Logging in..." else text "Failed to login.";
      connection_status = true;
    })

  -- The client in the next scene's state.
  abbrev pub logged_in : LoginStruct → N → GameClient F N → GameClient F N
  logged_in l n c = push_level (text "WorldScene") (replied (record l { state = 2 }) n c)

  finish_lem :
      (gui : GuiStruct) (l : LoginStruct) (n : N) (c : GameClient F N)
      → l.state ≡ 1
      → finish gui (replied l n c) ≡ (
        ok (record gui { message = text "Logging in..."; connection_status = true }),
        logged_in l n c,
      )
  unfolding on_state is_logged_in
  finish_lem gui l n c h = rw h

  -- A session of the socket: `Connect` succeeds, the login packet is taken, and the server answers
  -- with a header and the login structure `l`.
  module _ (gui : GuiStruct) (l : LoginStruct) (c : GameClient F N) (n1 n2 n3 : N)
      (connects : tcp.connect c.player.user.address c.player.user.port c.net ≡ (ok tt, n1))
      (is_connected : tcp.connected n1 ≡ true)
      (takes : TakesAll tcp (asking gui n1 c).player.user.send_queue n1)
      (replies : tcp.receive head_size (sent_all tcp (asking gui n1 c).player.user.send_queue n1)
        ≡ (ok (header_bytes 0x10000001 (length (login_bytes l))), n2))
      (replies_body : tcp.receive (length (login_bytes l)) n2 ≡ (ok (login_bytes l), n3))
      (fits : IsLogin l) (length_fits : IsUint (length (login_bytes l)))
      (new_id : c.player.login.userid ≢ l.userid) where
    talk_lem : talk fl tcp true (identified gui n1 c) ≡ (ok tt, replied l n3 c)
    unfolding talk
    talk_lem =
        let d = asking gui n1 c in
        let sent = set_send_queue [] (with_net (sent_all tcp d.player.user.send_queue n1) d) in
        ap (resume (λ _. receive_packet fl tcp)) (send_packets_all tcp d takes)
        ∙ receive_packet_lem fl tcp 0x10000001 (length (login_bytes l)) (login_bytes l) n2 n3 sent
            (omega arith) length_fits replies replies_body
        ∙ dispatch_login l (with_net n3 sent) fits (unfold enqueue run_send in new_id)
        ∙ (unfold enqueue run_send in refl)

    log_in_lem : log_in fl tcp gui c ≡ finish gui (replied l n3 c)
    unfolding log_in
    log_in_lem =
        net_step fl tcp (tcp.connect c.player.user.address c.player.user.port) _ c tt n1 connects
        ∙ ap (λ b. resume (λ _. finish gui) (talk fl tcp b (identified gui n1 c))) is_connected
        ∙ ap (resume (λ _. finish gui)) talk_lem

    -- With a name and a password in the form, over a socket that connects, takes the login packet
    -- and answers with a login structure in state 1 under a new user id, `Init` logs the player in:
    -- the player holds that structure in state 2, the world scene waits to be loaded behind what
    -- waited before, nothing is left to send, and the form says that the login is under way.
    pub init_logs_in :
        0 < length gui.user_field
        → 0 < length gui.password_field
        → l.state ≡ 1
        → init fl tcp gui c ≡ (
          ok (record gui { message = text "Logging in..."; connection_status = true }),
          logged_in l n3 c,
        )
    unfolding init
    init_logs_in hu hp h1 =
        rw (filled_form gui.user_field gui.password_field hu hp)
          (ap (handle_socket _) (log_in_lem ∙ finish_lem gui l n3 c h1))
