-- ===== src/World/Reachable.antt =====
-- The worlds that the methods of class World and the receiving thread lead to, and what holds in all
-- of them.
use starfall.Base.{ℕ, refl, [], none, false}
use starfall.Network.Runtime.{Floats}
use starfall.Network.Client.{GameClient}
use starfall.World.Timer.{new_timer, send_time, path_time}
use starfall.World.Entities.{World}
use starfall.World.Destroying.{update_destroy_entities}
use starfall.World.Creating.{update_create_entities}
use starfall.World.Creating.Populated.{Populated, update_create_entities-Populated}
use starfall.World.Destroying.Kept.{same-Populated, update_destroy_entities-Populated}
use starfall.World.Remote.Motion.{Space, Frame, update_remote_controls}
use starfall.World.Frame.{update, update_remote_controls-Populated, update-Populated}
use starfall.Network.Client.{TcpClient}

-- `new World(...)`, before `StartReceiving`.
unfoldable pub new_world : {F N : Type 0} → GameClient F N → World F N
new_world c = record {
  stopped = false;
  objects = [];
  entity = none;
  destroyed = [];
  session_timer = new_timer send_time;
  path_timer = new_timer path_time;
  client = c;
}

-- The steps of the world: its methods, the whole of `Update`, and any change of the client, such as the packets that the
-- receiving thread puts into the queues between two of them.
pub data Step {F N : Type 0} (fl : Floats F) : World F N → World F N → Type 0 where
  destroys : (w : World F N) → Step fl w (update_destroy_entities w).1
  creates : (w : World F N) → Step fl w (update_create_entities fl w)
  follows : (sp : Space F) (f : Frame) (w : World F N) → Step fl w (update_remote_controls sp f w)
  updates :
      (sp : Space F) (tcp : TcpClient N) (far : F) (f : Frame) (forward : ℕ) (w : World F N)
      → Step fl w (update fl sp tcp far f forward w).1
  receives : (w : World F N) (c : GameClient F N) → Step fl w (record w { client = c })

pub data Reachable {F N : Type 0} (fl : Floats F) : World F N → Type 0 where
  starts : (c : GameClient F N) → Reachable fl (new_world c)
  moves : (w w' : World F N) → Reachable fl w → Step fl w w' → Reachable fl w'

module _ {F N : Type 0} (fl : Floats F) where
  Step-Populated : (w w' : World F N) → Step fl w w' → Populated w → Populated w'
  Step-Populated _ _ (destroys w) h = update_destroy_entities-Populated w h
  Step-Populated _ _ (creates w) h = update_create_entities-Populated fl w h
  Step-Populated _ _ (follows sp f w) h = update_remote_controls-Populated sp f w h
  Step-Populated _ _ (updates sp tcp far f forward w) h =
      update-Populated fl sp tcp far f forward w h
  Step-Populated _ _ (receives w c) h = same-Populated w (record w { client = c }) refl refl h

  -- However frames, the methods of a frame and the receiving of packets interleave, and also after a throw: of all objects
  -- exactly the player's entity, once there is one, has the mode 2, and all the others are controlled
  -- remotely.
  pub Reachable-Populated : (w : World F N) → Reachable fl w → Populated w
  Reachable-Populated _ (starts c) =
      unfold new_world in record { one_player = refl; others_remote = tt }
  Reachable-Populated _ (moves w w' r s) = Step-Populated w w' s (Reachable-Populated w r)
