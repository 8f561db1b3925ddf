-- ===== src/World/Tests.antt =====
-- Concrete worlds, and the theorems of World at inputs that meet their hypotheses.
use starfall.Base.{
  List, ℕ, ◌≡◌, refl, [], ◌∷◌, ◌++◌, none, some, true, false, arith, map, filter, reverse, ◌==◌,
  ◌||◌,
}
use starfall.Base.Action.{ok}
use starfall.Network.Runtime.{text}
use starfall.Network.Structs.{TransformStruct, TransformEntityStruct, CreateEntityStruct}
use starfall.Network.Client.{send_packets}
use starfall.Network.Tests.{
  Sample, zero_sample, floats, Wire, wire_tcp, client, here, upright, ship,
}
use starfall.World.Timer.{new_timer}
use starfall.World.Entities.{Entity, World, new_remote_controller, user_of}
use starfall.World.Destroying.{set_destroy_queue, update_destroy_entities}
use starfall.World.Destroying.Survivors.{stays, destroys_named}
use starfall.World.Creating.{own_create, set_create_queue, update_create_entities}
use starfall.World.Creating.Arrivals.{remote_entity, own_entity, grown, create_player}
use starfall.World.Remote.{
  target_of, follow, own_transform, set_transform_queue, add_remote_controls,
}
use starfall.World.Remote.Following.{calls_next, follow_in_order}
use starfall.World.Remote.Order.{after_paths, older_path_wins}
use starfall.World.Controls.{
  Controls, new_controls, number, forward, left, Input, Updater, key_down, key_up, state_on,
  state_off, update_controls,
}
use starfall.World.Controls.Invariant.{InStep, update_controls-InStep}
use starfall.World.Session.{set_path, own_check, on_client, update_session}
use starfall.World.Session.Packets.{answered, session_answers}
use starfall.World.Creating.Populated.{Populated}
use starfall.World.Remote.Motion.{Space, Frame}
use starfall.World.Frame.{update}
use starfall.World.Reachable.{new_world, Reachable, Step, Reachable-Populated}

-- The player's entity, and others with a session id.
abbrev player_entity : Entity Sample
player_entity = record {
  sessionid = 5;
  mode = 2;
  name = text "ship";
  position = here;
  rotation = upright;
  remote_controls = none;
}

abbrev other : ℕ → Entity Sample
other sessionid = record player_entity {
  sessionid = sessionid;
  mode = 0;
  remote_controls = some (new_remote_controller floats);
}

abbrev world : World Sample Wire
world = record {
  stopped = false;
  objects = other 7 ∷ (player_entity ∷ (other 9 ∷ []));
  entity = some player_entity;
  destroyed = [];
  session_timer = new_timer 500000;
  path_timer = new_timer 100000;
  client = client;
}

-- Packets that destroy the player's entity and the first object.
abbrev raid : World Sample Wire
raid = set_destroy_queue (record { sessionid = 5 } ∷ (record { sessionid = 7 } ∷ [])) world

destroys_named_example :
    ((update_destroy_entities raid).0 ≡ ok tt)
    × ((update_destroy_entities raid).1.objects
        ≡ filter (stays player_entity (user_of raid).destroy_entity_queue) raid.objects)
    × ((user_of (update_destroy_entities raid).1).destroy_entity_queue ≡ [])
    × ((user_of (update_destroy_entities raid).1).destroy_entity_mutex ≡ false)
destroys_named_example = destroys_named player_entity raid refl (omega arith)

-- The world before the player's entity was made.
abbrev waiting : World Sample Wire
waiting = record raid { objects = other 7 ∷ []; entity = none }

abbrev rock : CreateEntityStruct Sample
rock = record ship { sessionid = 8; mode = 1 }

-- Three structures have arrived, two of them of mode 2.
abbrev arriving : World Sample Wire → World Sample Wire
arriving w = set_create_queue (ship ∷ (ship ∷ (rock ∷ []))) w

create_player_example :
    update_create_entities floats (arriving waiting)
    ≡ own_create false (
        grown floats []
          (some (own_entity floats ship))
          (map (remote_entity floats) (rock ∷ [])
            ++ (own_entity floats ship ∷ map (remote_entity floats) (ship ∷ [])))
          (arriving waiting))
create_player_example =
    create_player floats (ship ∷ []) ship (rock ∷ []) (arriving waiting) refl refl refl
      (omega arith)

abbrev node : ℕ → TransformStruct Sample
node action = record { action = action; position = here; rotation = upright }

follow_in_order_example :
    calls_next
      (node 0 ∷ [])
      (follow
        (some (new_remote_controller floats))
        (node 0 ∷ (node 1 ∷ (node 0 ∷ [])))
        (other 7)).0.remote_controls
    ≡ some (record (new_remote_controller floats) {
      target = target_of (node 1);
      targets = reverse (map target_of (node 0 ∷ []));
    })
follow_in_order_example =
    follow_in_order (node 0 ∷ []) (node 1) (node 0 ∷ []) (new_remote_controller floats) (other 7)

-- Two paths for one entity, and between them one for another.
abbrev first_path : TransformEntityStruct Sample
first_path = record { sessionid = 7; path = node 0 ∷ [] }

abbrev other_path : TransformEntityStruct Sample
other_path = record { sessionid = 9; path = node 0 ∷ [] }

abbrev second_path : TransformEntityStruct Sample
second_path = record { sessionid = 7; path = node 1 ∷ [] }

abbrev moving : World Sample Wire
moving = set_transform_queue (first_path ∷ (other_path ∷ (second_path ∷ []))) world

older_path_wins_example :
    add_remote_controls moving
    ≡ own_transform false (after_paths (first_path ∷ (other_path ∷ [])) moving)
older_path_wins_example = older_path_wins moving

session_answers_example :
    update_session floats wire_tcp here.x world
    ≡ on_client (send_packets wire_tcp) (own_check false (answered floats here.x world))
session_answers_example = session_answers floats wire_tcp here.x world refl (omega arith)

-- Four nodes wait.
abbrev travelled : World Sample Wire
travelled =
    set_path (record { sessionid = 5; path = node 0 ∷ (node 1 ∷ (node 1 ∷ (node 0 ∷ []))) }) world

-- A space in which nothing moves, and a frame of a millisecond.
abbrev still : Space Sample
still = record {
  speed = λ p q limit. zero_sample;
  turn_speed = λ p q limit. zero_sample;
  is_zero = λ s. true;
  move_towards = λ p q s dt. p;
  rotate_towards = λ p q s dt. p;
  is_near = λ p q. true;
  move_towards_self = λ p s dt. refl;
  rotate_towards_self = λ q s dt. refl;
}

abbrev millisecond : Frame
millisecond = record { dt = 1000; delta = 30 }

abbrev first_frame : World Sample Wire
first_frame = (update floats still wire_tcp here.x millisecond 1 (arriving (new_world client))).1

Reachable-Populated_example : Populated first_frame
Reachable-Populated_example = Reachable-Populated floats first_frame (
    Reachable.moves _ _
      (Reachable.moves _ _ (Reachable.starts client)
        (Step.receives (new_world client) (arriving (new_world client)).client))
      (Step.updates still wire_tcp here.x millisecond 1 (arriving (new_world client))))

-- Forward and left go down, and forward goes up again, in one frame.
abbrev hasty : Input
hasty = record {
  pressed = λ k. number k == 0 || number k == 2;
  released = λ k. number k == 0;
  escape = false;
}

abbrev some_updates : List Updater
some_updates =
    key_down forward
    ∷ (key_down left ∷ (state_on forward ∷ (key_up forward ∷ (state_off forward ∷ []))))

update_controls-InStep_example : InStep (update_controls 500 hasty some_updates new_controls)
update_controls-InStep_example =
    update_controls-InStep 500 hasty some_updates new_controls
      (record { three_states = omega arith; jets_alike = refl; moves_on = refl; leans = refl })

abbrev reading : Controls
reading = record new_controls { focussed = false; has_owner = true }
