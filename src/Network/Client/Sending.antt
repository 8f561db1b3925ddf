-- ===== src/Network/Client/Sending.antt =====
-- `SendPackets`, `Logout` and `End`: what becomes of the queue, the connection and the scene.
use starfall.Base.{◌≡◌, refl, sym, ap, ◌∙◌, List, [], ◌∷◌, ◌++◌, false, append-nil}
use starfall.Base.Action.{
  Action, Result, ok, fault, socket_error, resume, handle_socket, modify, ◌>>=◌,
}
use starfall.Network.Runtime.{Text, text}
use starfall.Network.Buffer.{Buffer}
use starfall.Network.Client.{
  TcpClient, GameClient, aborted, set_send_queue, set_load_queue, end_levels, end_scene,
  stop_receiving, leave, on_state, logout, on_net, send_loop, send_packets,
}

-- The level that `End` loads.
abbrev pub first_or : Text → List Text → Text
first_or d [] = d
first_or d (level ∷ queue) = level

module _ {F N : Type 0} where
  abbrev pub with_net : N → GameClient F N → GameClient F N
  with_net n c = record c { net = n }

  end_levels_lem :
      (queue : List Text) (level : Text) (c : GameClient F N)
      → (end_levels (queue ++ (level ∷ [])) c).1
        ≡ record (set_load_queue [] c) { loaded = c.loaded ++ (first_or level queue ∷ []) }
  end_levels_lem [] level c = refl
  end_levels_lem (l ∷ queue) level c = refl

module _ {N : Type 0} (tcp : TcpClient N) where
  -- The connection after the packets have been sent, and the claim that it took each.
  abbrev pub sent_all : List Buffer → N → N
  sent_all [] n = n
  sent_all (b ∷ queue) n = sent_all queue (tcp.send b.bytes n).1

  abbrev pub TakesAll : List Buffer → N → Type 0
  TakesAll [] n = Unit
  TakesAll (b ∷ queue) n = ((tcp.send b.bytes n).0 ≡ ok tt) × TakesAll queue (tcp.send b.bytes n).1

module _ {F N : Type 0} (tcp : TcpClient N) where
  -- The client after a logout: nothing is left to send, nothing is received, the connection is
  -- closed, the player is not logged in, and one level was loaded: the one that waited longest, or
  -- the login scene if none did.
  abbrev pub logged_out : GameClient F N → GameClient F N
  logged_out c = record c {
    is_receiving = false;
    receive_thread = aborted;
    net = tcp.close c.net;
    player = record (c.player) {
      user = record (c.player.user) { send_queue = []; load_level_queue = [] };
      login = record (c.player.login) { state = 0 };
    };
    loaded = c.loaded ++ (first_or (text "LoginScene") c.player.user.load_level_queue ∷ []);
  }

  -- In every state of the client, `Logout` leads to the client that `logged_out` describes.
  pub logout_lem : (c : GameClient F N) → logout tcp c ≡ logged_out c
  unfolding logout on_state leave stop_receiving end_scene
  logout_lem c = rw (end_levels_lem c.player.user.load_level_queue (text "LoginScene"))

  send_step :
      {A : Type 0} (m : Action N (Unit {0})) (k : Action (GameClient F N) A) (c : GameClient F N)
      → (m c.net).0 ≡ ok tt
      → (on_net m >>= λ _. k) c ≡ k (with_net (m c.net).1 c)
  send_step m k c h = ap (λ (r : Result (Unit {0})). resume (λ _. k) (r, with_net (m c.net).1 c)) h

  send_loop-append :
      (front back : List Buffer) (c : GameClient F N)
      → TakesAll tcp front c.net
      → send_loop tcp (front ++ back) (set_send_queue (front ++ back) c)
        ≡ send_loop tcp back (set_send_queue back (with_net (sent_all tcp front c.net) c))
  unfolding send_loop
  send_loop-append [] back c h = refl
  send_loop-append (b ∷ front) back c (h, hs) =
      send_step (tcp.send b.bytes) (send_loop tcp (front ++ back))
        (set_send_queue (front ++ back) c) h
      ∙ send_loop-append front back (with_net (tcp.send b.bytes c.net).1 c) hs

  loop_of_queue :
      (queue : List Buffer) (c : GameClient F N)
      → c.player.user.send_queue ≡ queue
      → send_loop tcp c.player.user.send_queue c ≡ send_loop tcp queue (set_send_queue queue c)
  loop_of_queue queue c e = ap (λ q. send_loop tcp q (set_send_queue q c)) e

  empty_loop : (c : GameClient F N) → send_loop tcp [] c ≡ (ok tt, c)
  unfolding send_loop
  empty_loop c = refl

  -- If the connection takes every packet of the queue, `SendPackets` sends them all in the order of
  -- the queue, and of the client only the queue, which is then empty, and the connection change.
  pub send_packets_all :
      (c : GameClient F N)
      → TakesAll tcp c.player.user.send_queue c.net
      → send_packets tcp c
        ≡ (ok tt, set_send_queue [] (with_net (sent_all tcp c.player.user.send_queue c.net) c))
  unfolding send_packets
  send_packets_all c h =
      let queue = c.player.user.send_queue in
      ap (handle_socket (modify (logout tcp))) (
        loop_of_queue (queue ++ []) c (sym (append-nil queue))
        ∙ send_loop-append queue [] c h
        ∙ empty_loop (set_send_queue [] (with_net (sent_all tcp queue c.net) c)))

  send_failure :
      (b : Buffer) (back : List Buffer) (c : GameClient F N)
      → (tcp.send b.bytes c.net).0 ≡ fault socket_error
      → send_loop tcp (b ∷ back) (set_send_queue (b ∷ back) c)
        ≡ (fault socket_error, set_send_queue back (with_net (tcp.send b.bytes c.net).1 c))
  unfolding send_loop
  send_failure b back c h =
      ap
        (λ (r : Result (Unit {0})).
          resume (λ _. send_loop tcp back)
            (r, set_send_queue back (with_net (tcp.send b.bytes c.net).1 c)))
        h

  -- If the connection takes the packets before one and fails at that one with a socket error,
  -- `SendPackets` does not throw: it logs the player out, and what was still queued is dropped.
  pub send_packets_failure :
      (front : List Buffer) (b : Buffer) (back : List Buffer) (c : GameClient F N)
      → c.player.user.send_queue ≡ front ++ (b ∷ back)
      → TakesAll tcp front c.net
      → (tcp.send b.bytes (sent_all tcp front c.net)).0 ≡ fault socket_error
      → send_packets tcp c
        ≡ (ok tt, logged_out (with_net (tcp.send b.bytes (sent_all tcp front c.net)).1 c))
  unfolding send_packets
  send_packets_failure front b back c e h f =
      let after = with_net (tcp.send b.bytes (sent_all tcp front c.net)).1 c in
      ap (handle_socket (modify (logout tcp))) (
        loop_of_queue (front ++ (b ∷ back)) c e
        ∙ send_loop-append front (b ∷ back) c h
        ∙ send_failure b back (with_net (sent_all tcp front c.net) c) f)
      ∙ ap {B = Result (Unit {0}) × GameClient F N} (λ d. (ok tt, d))
          (logout_lem (set_send_queue back after))
