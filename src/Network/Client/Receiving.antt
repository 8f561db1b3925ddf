-- ===== src/Network/Client/Receiving.antt =====
-- `ReceivePacket` and `Init`: from the bytes of the socket to the handlers and the login.
use starfall.Base.{ℕ, ◌≡◌, sym, ap, ◌∙◌, List, [], arith, append-nil}
use starfall.Base.Action.{Action, Result, ok, resume, ◌>>=◌}
use starfall.Network.Runtime.{Floats, IsUint}
use starfall.Network.Buffer.{Buffer, new_buffer}
use starfall.Network.Buffer.Reading.{Reads, >>=-Reads, map-Reads, read_uint32-Reads}
use starfall.Network.Send.{head_mark, head_size}
use starfall.Network.Send.Framing.{header_bytes}
use starfall.Network.Receive.{receive_map}
use starfall.Network.Client.{
  TcpClient, GameClient, on_net, read_head, filled_buffer, dispatch, receive_body, receive_packet,
}
use starfall.Network.Client.Sending.{with_net}

read_head-Reads :
    (opcode size : ℕ)
    → IsUint opcode
    → IsUint size
    → Reads read_head (header_bytes opcode size) (head_mark, opcode, size, head_mark)
unfolding read_head
read_head-Reads opcode size ho hs = >>=-Reads _ (read_uint32-Reads head_mark (omega arith)) (
    >>=-Reads _ (read_uint32-Reads opcode ho) (
      >>=-Reads _ (read_uint32-Reads size hs)
        (map-Reads _ (read_uint32-Reads head_mark (omega arith)))))

read_head_lem :
    (opcode size : ℕ)
    → IsUint opcode
    → IsUint size
    → (read_head (filled_buffer (header_bytes opcode size))).0
      ≡ ok (head_mark, opcode, size, head_mark)
unfolding new_buffer
read_head_lem opcode size ho hs =
    ap (λ (r : Result _ × Buffer). r.0)
      ((read_head-Reads opcode size ho hs).reads (filled_buffer (header_bytes opcode size)) []
        (sym (append-nil (header_bytes opcode size))))

module _ {F N : Type 0} (fl : Floats F) (tcp : TcpClient N) where
  pub net_step :
      {A B : Type 0} (m : Action N A) (k : A → Action (GameClient F N) B) (c : GameClient F N)
      (a : A) (n : N)
      → m c.net ≡ (ok a, n)
      → (on_net m >>= k) c ≡ k a (with_net n c)
  net_step m k c a n h = ap (λ (r : Result _ × N). resume k (r.0, with_net r.1 c)) h

  abbrev receive_rest : ℕ × ℕ × ℕ × ℕ → Action (GameClient F N) (Unit {0})
  receive_rest (begin, opcode, bodysize, end) = on_net (tcp.receive bodysize) >>= λ body.
      dispatch fl tcp (receive_map opcode) (filled_buffer body)

  receive_body_lem :
      (opcode size : ℕ) (body : List ℕ) (n : N) (c : GameClient F N)
      → IsUint opcode
      → IsUint size
      → tcp.receive size c.net ≡ (ok body, n)
      → receive_body fl tcp (header_bytes opcode size) c
        ≡ dispatch fl tcp (receive_map opcode) (filled_buffer body) (with_net n c)
  unfolding receive_body
  receive_body_lem opcode size body n c ho hs h =
      ap (λ (r : Result (ℕ × ℕ × ℕ × ℕ)). resume receive_rest (r, c))
        (read_head_lem opcode size ho hs)
      ∙ net_step (tcp.receive size) _ c body n h

  -- When the socket gives a whole header and then as many bytes as the header says, `ReceivePacket`
  -- hands exactly those bytes to the handler of the opcode, and to none if the opcode has none.
  pub receive_packet_lem :
      (opcode size : ℕ) (body : List ℕ) (n1 n2 : N) (c : GameClient F N)
      → IsUint opcode
      → IsUint size
      → tcp.receive head_size c.net ≡ (ok (header_bytes opcode size), n1)
      → tcp.receive size n1 ≡ (ok body, n2)
      → receive_packet fl tcp c
        ≡ dispatch fl tcp (receive_map opcode) (filled_buffer body) (with_net n2 c)
  unfolding receive_packet
  receive_packet_lem opcode size body n1 n2 c ho hs h1 h2 =
      net_step (tcp.receive head_size) _ c (header_bytes opcode size) n1 h1
      ∙ receive_body_lem opcode size body n2 (with_net n1 c) ho hs h2
