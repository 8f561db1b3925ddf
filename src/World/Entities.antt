-- ===== src/World/Entities.antt =====
-- class Entity, class RemoteControlledEntity with its targets, and the state of class World.
use starfall.Base.{ℕ, List, [], Option, Bool, false}
use starfall.Network.Runtime.{Text, Floats, Vector3, Quaternion, vector3_zero, quaternion_identity}
use starfall.Network.Structs.{User}
use starfall.Network.Client.{GameClient}
use starfall.World.Timer.{Timer, new_timer, path_time}

-- `Target`, less its speeds, which stand in `Motion`.
pub record Target (F : Type 0) : Type 0 where
  pub action : ℕ
  pub position : Vector3 F
  pub rotation : Quaternion F
  pub initialized : Bool

-- The speeds towards the current target, the timer of its node, the `Lean` of a controller and the state of
-- the entity's view.
pub record Motion (F : Type 0) : Type 0 where
  pub translate_speed : F
  pub rotate_speed : F
  pub node_timer : Timer
  pub lean : ℕ
  pub jets : ℕ

-- `RemoteController`: the current target, the stack of those to come, and the state of the motion.
pub record RemoteController (F : Type 0) : Type 0 where
  pub target : Target F
  pub targets : List (Target F)
  pub motion : Motion F

-- An entity is a `RemoteControlledEntity` if it has remote controls. `position` and `rotation` are
-- those of its model.
pub record Entity (F : Type 0) : Type 0 where
  pub sessionid : ℕ
  pub mode : ℕ
  pub name : Text
  pub position : Vector3 F
  pub rotation : Quaternion F
  pub remote_controls : Option (RemoteController F)

-- `destroyed` lists the entities whose models were destroyed. The player's entity stands in `objects`
-- too; its session id and its mode do not change, so `entity` can hold a copy.
pub record World (F N : Type 0) : Type 0 where
  pub stopped : Bool
  pub objects : List (Entity F)
  pub entity : Option (Entity F)
  pub destroyed : List (Entity F)
  pub session_timer : Timer
  pub path_timer : Timer
  pub client : GameClient F N

module _ {F : Type 0} (fl : Floats F) where
  abbrev pub new_target : Target F
  new_target = record {
    action = 0;
    position = vector3_zero fl;
    rotation = quaternion_identity fl;
    initialized = false;
  }

  abbrev pub new_remote_controller : RemoteController F
  new_remote_controller = record {
    target = new_target;
    targets = [];
    motion = record {
      translate_speed = fl.zero_float;
      rotate_speed = fl.zero_float;
      node_timer = new_timer path_time;
      lean = 0;
      jets = 0;
    };
  }

module _ {F N : Type 0} where
  abbrev pub user_of : World F N → User F
  user_of w = w.client.player.user

  abbrev pub set_user : User F → World F N → World F N
  set_user u w = record w {
    client = record (w.client) { player = record (w.client.player) { user = u } };
  }
