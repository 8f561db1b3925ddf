-- ===== src/World/Session/Packets.antt =====
-- What `UpdateSession` and `UpdatePath` send.
use starfall.Base.{
  ℕ, ◌≡◌, ap, ◌∙◌, List, [], ◌∷◌, ◌++◌, length, Option, some, Bool, true, false, ◌==◌, leb, map,
  ◌<◌, ◌≤◌, ◌*◌, ◌+◌, arith, length-append, if◌then◌else◌,
}
use starfall.Base.Action.{ok}
use starfall.Network.Runtime.{Floats, IsUint}
use starfall.Network.Structs.{Player}
use starfall.Network.Send.{objects_data, transform_data, opcode_of}
use starfall.Network.Send.Bodies.{body_bytes, sent_packet, queue_packet, drained, enqueue_lem}
use starfall.Network.Client.{TcpClient, send_packets}
use starfall.World.Timer.{send_time}
use starfall.World.Entities.{Entity, World, user_of}
use starfall.World.Session.{
  set_player, own_check, with_check, set_check_state, set_path, request_objects, check_objects,
  node_of, add_node, send_path, path_of, update_path, update_session, on_client,
}

-- With the new node the path spans less than the time between two packets, or at least that time.
short_path :
    {A : Type 0} (path : List A) (node : A) (limit : ℕ)
    → (length path + 1) * limit < send_time
    → leb send_time (length (path ++ (node ∷ [])) * limit) ≡ false
short_path path node limit few = rw (length-append path (node ∷ [])) (ground (arith, few))

full_path :
    {A : Type 0} (path : List A) (node : A) (limit : ℕ)
    → send_time ≤ (length path + 1) * limit
    → leb send_time (length (path ++ (node ∷ [])) * limit) ≡ true
full_path path node limit many = rw (length-append path (node ∷ [])) (ground (arith, many))

module _ {F N : Type 0} (fl : Floats F) where
  -- The player as the objects packet is built: with the radius and the session ids of all objects.
  abbrev pub asking : F → World F N → Player F
  asking far w = record (w.client.player) {
    user = with_check far (map (λ (o : Entity F). o.sessionid) w.objects) (user_of w);
  }

  -- The world with the packet in the send queue and the check state 0.
  abbrev pub answered : F → World F N → World F N
  answered far w =
      let body = body_bytes fl objects_data (asking far w) in
      set_check_state 0
        (set_player (queue_packet (sent_packet 6 body) (drained fl objects_data (asking far w))) w)

  request_objects_lem :
      (far : F) (w : World F N)
      → IsUint (length (body_bytes fl objects_data (asking far w)))
      → request_objects fl far w ≡ answered far w
  unfolding request_objects opcode_of
  request_objects_lem far w k =
      ap (λ (r : Bool × Player F). set_check_state 0 (set_player r.1 w))
        (enqueue_lem fl objects_data (asking far w) k)

  check_objects_lem :
      (far : F) (w : World F N)
      → (user_of w).check_objects_state ≡ 1
      → IsUint (length (body_bytes fl objects_data (asking far w)))
      → check_objects fl far w ≡ own_check false (answered far w)
  unfolding check_objects
  check_objects_lem far w h k =
      ap
        (λ s.
          own_check false
            (if s == 1 then request_objects fl far (own_check true w) else own_check true w))
        h
      ∙ ap (own_check false) (request_objects_lem far (own_check true w) k)

  -- When the server asked for it, `UpdateSession` puts one packet behind those that wait: the check
  -- state, the distance that the camera sees and the session ids of all objects. It then sends the
  -- queue. The check state is 0 then, so that one request is answered once, and the mutex is free.
  pub session_answers :
      (tcp : TcpClient N) (far : F) (w : World F N)
      → (user_of w).check_objects_state ≡ 1
      → IsUint (length (body_bytes fl objects_data (asking far w)))
      → update_session fl tcp far w
        ≡ on_client (send_packets tcp) (own_check false (answered far w))
  unfolding update_session
  session_answers tcp far w h k =
      ap (λ (v : World F N). on_client (send_packets tcp) v) (check_objects_lem far w h k)

  -- While the nodes of the path, with the new one, span less than the time between two packets,
  -- `UpdatePath` only adds the new node: nothing is put into the send queue.
  pub path_grows :
      (forward : ℕ) (me : Entity F) (w : World F N)
      → w.entity ≡ some me
      → (length (user_of w).transform_player.path + 1) * w.path_timer.limit < send_time
      → update_path fl forward w ≡ (ok tt, add_node forward me w)
  unfolding update_path send_path add_node
  path_grows forward me w h few =
      ap (λ (o : Option (Entity F)). path_of fl forward o w) h
      ∙ rw
          (short_path (user_of w).transform_player.path (node_of forward me) w.path_timer.limit few)

  -- As soon as they span that time, `UpdatePath` puts one packet with all the nodes, the new one last,
  -- behind those that wait, and empties the path.
  pub path_sent :
      (forward : ℕ) (me : Entity F) (w : World F N)
      → w.entity ≡ some me
      → send_time ≤ (length (user_of w).transform_player.path + 1) * w.path_timer.limit
      → IsUint (length (body_bytes fl transform_data (add_node forward me w).client.player))
      → update_path fl forward w ≡ (
        ok tt,
        set_path
            (record { sessionid = me.sessionid; path = [] })
            (set_player
              (queue_packet
                (sent_packet 4 (body_bytes fl transform_data (add_node forward me w).client.player))
                (add_node forward me w).client.player)
              w),
      )
  unfolding update_path send_path add_node opcode_of
  path_sent forward me w h many k =
      ap (λ (o : Option (Entity F)). path_of fl forward o w) h
      ∙ rw
          (full_path (user_of w).transform_player.path (node_of forward me) w.path_timer.limit many)
          (ap
            (λ (r : Bool × Player F). (
              ok tt,
              set_path (record (r.1.user.transform_player) { path = [] }) (set_player r.1 w),
            ))
            (enqueue_lem fl transform_data (add_node forward me w).client.player k))
