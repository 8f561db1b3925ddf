-- ===== src/World/Session.antt =====
-- `World.UpdateSession`, `World.UpdatePath` and `World.UpdateTimers`.
pub mod Packets
pub mod Paths
use starfall.Base.{
  ℕ, ◌*◌, List, [], ◌∷◌, ◌++◌, length, Option, none, some, Bool, true, false, ◌==◌, leb, map,
  if◌then◌else◌,
}
use starfall.Base.Action.{
  Action, Result, ok, fault, null_reference, pure, throw, gets, modify, ◌>>=◌, ◌>>◌,
}
use starfall.Network.Runtime.{Floats}
use starfall.Network.Structs.{TransformStruct, TransformEntityStruct, User, Player}
use starfall.Network.Send.{enqueue, objects_data, transform_data}
use starfall.Network.Client.{GameClient, TcpClient, send_packets}
use starfall.World.Timer.{Timer, send_time, down, is_done, reset}
use starfall.World.Entities.{Entity, World, user_of, set_user}

module _ {F : Type 0} where
  -- What the server is told to check: the radius, and the session ids of all objects.
  abbrev pub with_check : F → List ℕ → User F → User F
  with_check radius ids u = record u { check_objects_radius = radius; objects_queue = ids }

  -- The node that `UpdatePath` adds; `forward` is `states["forward"]`.
  abbrev pub node_of : ℕ → Entity F → TransformStruct F
  node_of forward me = record {
    action = if forward == 1 then 1 else 0;
    position = me.position;
    rotation = me.rotation;
  }

module _ {F N : Type 0} where
  abbrev pub set_player : Player F → World F N → World F N
  set_player p w = record w { client = record (w.client) { player = p } }

  abbrev pub own_check : Bool → World F N → World F N
  own_check o w = set_user (record (user_of w) { check_objects_mutex = o }) w

  abbrev pub set_check_state : ℕ → World F N → World F N
  set_check_state s w = set_user (record (user_of w) { check_objects_state = s }) w

  -- `user.transformPlayerStruct`
  abbrev pub set_path : TransformEntityStruct F → World F N → World F N
  set_path t w = set_user (record (user_of w) { transform_player = t }) w

  unfoldable pub add_node : ℕ → Entity F → World F N → World F N
  add_node forward me w =
      let t = (user_of w).transform_player in
      set_path (record { sessionid = me.sessionid; path = t.path ++ (node_of forward me ∷ []) }) w

  abbrev pub on_client : {A : Type 0} → Action (GameClient F N) A → Action (World F N) A
  on_client m w = let (r, c) = m w.client in (r, record w { client = c })

  -- `pathTimer.Update(f)`: the timer runs down and, when it is done, `f` is called before it starts
  -- again, so it does not start again if `f` throws.
  unfoldable pub path_timer_update :
      ℕ → Action (World F N) (Unit {0}) → Action (World F N) (Unit {0})
  path_timer_update dt f w =
      let w' = record w { path_timer = down dt w.path_timer } in
      if is_done w'.path_timer
      then (f >> modify (λ v. record v { path_timer = reset v.path_timer })) w'
      else (ok tt, w')

  -- `sessionTimer.Update(f)`
  unfoldable pub session_timer_update :
      ℕ → Action (World F N) (Unit {0}) → Action (World F N) (Unit {0})
  session_timer_update dt f w =
      let w' = record w { session_timer = down dt w.session_timer } in
      if is_done w'.session_timer
      then (f >> modify (λ v. record v { session_timer = reset v.session_timer })) w'
      else (ok tt, w')

module _ {F N : Type 0} (fl : Floats F) where
  -- The block under `checkObjectsState == 1`; `far` is the distance that the camera sees.
  unfoldable pub request_objects : F → World F N → World F N
  request_objects far w =
      let ids = map (λ (o : Entity F). o.sessionid) w.objects in
      let asking = set_user (with_check far ids (user_of w)) w in
      set_check_state 0 (set_player (enqueue fl objects_data asking.client.player).1 asking)

  unfoldable pub check_objects : F → World F N → World F N
  check_objects far w =
      let locked = own_check true w in
      let asked = request_objects far locked in
      own_check false (if (user_of locked).check_objects_state == 1 then asked else locked)

  unfoldable pub update_session : TcpClient N → F → Action (World F N) (Unit {0})
  update_session tcp far = do modify (check_objects far); on_client (send_packets tcp)

  -- The path is sent when its nodes span the time between two packets, and then emptied.
  unfoldable pub send_path : World F N → World F N
  send_path w =
      let sent = set_player (enqueue fl transform_data w.client.player).1 w in
      let emptied = set_path (record ((user_of sent).transform_player) { path = [] }) sent in
      let n = length (user_of w).transform_player.path in
      if leb send_time (n * w.path_timer.limit) then emptied else w

  -- `UpdatePath` throws at `this.entity.model` when there is no entity.
  abbrev pub path_of : ℕ → Option (Entity F) → Action (World F N) (Unit {0})
  path_of forward none w = (fault null_reference, w)
  path_of forward (some me) w = (ok tt, send_path (add_node forward me w))

  unfoldable pub update_path : ℕ → Action (World F N) (Unit {0})
  update_path forward w = path_of forward w.entity w

  -- `UpdateTimers` over a frame of `dt`.
  abbrev pub run_timers :
      TcpClient N → F → ℕ → ℕ → Option (Entity F) → Action (World F N) (Unit {0})
  run_timers tcp far dt forward none = pure tt
  run_timers tcp far dt forward (some me) = do
    path_timer_update dt (update_path forward)
    session_timer_update dt (update_session tcp far)

  unfoldable pub update_timers : TcpClient N → F → ℕ → ℕ → Action (World F N) (Unit {0})
  update_timers tcp far dt forward w = run_timers tcp far dt forward w.entity w
