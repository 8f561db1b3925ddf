-- ===== src/World/Remote/Motion.antt =====
-- `RemoteController.Next` with its speeds, and `RemoteController.Move`. What Unity computes on vectors and
-- rotations is a parameter; an angle of leaning is in thousandths of a degree, as in Controls.
use starfall.Base.{ℕ, ◌≡◌, List, [], ◌∷◌, ◌==◌, Bool, if◌then◌else◌, reverse, Option, none, some}
use starfall.Network.Runtime.{Vector3, Quaternion}
use starfall.World.Entities.{Target, RemoteController, Entity, World}
use starfall.World.Timer.{Timer, down, is_done, reset}
use starfall.World.Controls.{lean_forward, lean_back, lean_ended}
use starfall.World.Remote.{next, add_remote_controls}

-- `Vector3.Distance`, `Quaternion.Angle`, `MoveTowards` and `RotateTowards` with the division by the time
-- of a node and the multiplication by the frame's, and the comparison of the squared lengths. The last two
-- fields are what Unity's manual says of the clamping where there is no way to go.
pub record Space (F : Type 0) : Type 0 where
  pub speed : Vector3 F → Vector3 F → ℕ → F
  pub turn_speed : Quaternion F → Quaternion F → ℕ → F
  pub is_zero : F → Bool
  pub move_towards : Vector3 F → Vector3 F → F → ℕ → Vector3 F
  pub rotate_towards : Quaternion F → Quaternion F → F → ℕ → Quaternion F
  pub is_near : Vector3 F → Vector3 F → Bool
  pub move_towards_self : (p : Vector3 F) (s : F) (dt : ℕ) → move_towards p p s dt ≡ p
  pub rotate_towards_self : (q : Quaternion F) (s : F) (dt : ℕ) → rotate_towards q q s dt ≡ q

-- A `RemoteController` with the model that it moves. The state of the motion stands beside the targets.
pub record Mover (F : Type 0) : Type 0 where
  pub controls : RemoteController F
  pub position : Vector3 F
  pub rotation : Quaternion F
  pub translate_speed : F
  pub rotate_speed : F
  pub node_timer : Timer
  pub lean : ℕ
  pub jets : ℕ

-- A frame: its time, and by how much an angle of leaning changes in it.
pub record Frame : Type 0 where
  pub dt : ℕ
  pub delta : ℕ

module _ {F : Type 0} (sp : Space F) where
  -- `Next`
  abbrev pub with_speeds : Mover F → Mover F
  with_speeds m =
      let t = m.controls.target in
      record m {
        translate_speed = sp.speed m.position t.position m.node_timer.limit;
        rotate_speed = sp.turn_speed m.rotation t.rotation m.node_timer.limit;
      }

  abbrev pub next_target : List (Target F) → Mover F → Mover F
  next_target [] m = m
  next_target (t ∷ ts) m = with_speeds (record m {
    controls = next m.controls;
    lean = if m.controls.target.initialized then m.lean else 0;
  })

  unfoldable pub next_node : Mover F → Mover F
  next_node m = next_target (reverse m.controls.targets) m

  -- The model is put at its target, if there is one.
  abbrev pub at_target : Mover F → Mover F
  at_target m =
      let t = m.controls.target in
      if t.initialized then record m { position = t.position; rotation = t.rotation } else m

  abbrev pub restarted : Mover F → Mover F
  restarted m = record m { node_timer = reset m.node_timer }

  -- When the timer of the node is done. The tests of `view.state` are always true, since a negation is
  -- compared with a number.
  unfoldable pub node_done : Frame → Mover F → Mover F
  node_done f m =
      let parked = restarted (next_node (record m { jets = 0; lean = 0 })) in
      if m.controls.target.action == 0
      then (if lean_ended m.lean
          then parked
          else record m { lean = lean_back f.delta m.lean; jets = 2 })
      else restarted (next_node m)

  -- The motion towards the target.
  abbrev pub turned : Frame → Mover F → Mover F
  turned f m = record m {
    rotation =
        if sp.is_zero m.rotate_speed
        then m.rotation
        else sp.rotate_towards m.rotation m.controls.target.rotation m.rotate_speed f.dt;
  }

  abbrev pub translated : Frame → Mover F → Mover F
  translated f m = record m {
    position = sp.move_towards m.position m.controls.target.position m.translate_speed f.dt;
  }

  abbrev pub leaning : Frame → Mover F → Mover F
  leaning f m = record m {
    lean = if m.controls.target.action == 1 then lean_forward f.delta m.lean else m.lean;
    jets = 1;
  }

  unfoldable pub glide : Frame → Mover F → Mover F
  glide f m =
      let moved = translated f (turned f m) in
      if m.controls.target.initialized
      then (if sp.is_near m.position moved.position then moved else leaning f moved)
      else m

  -- `Move`
  unfoldable pub move : Frame → Mover F → Mover F
  move f m = glide f (
      if is_done m.node_timer
      then node_done f (at_target m)
      else record m { node_timer = down f.dt m.node_timer })

  unfoldable pub moves : List Frame → Mover F → Mover F
  moves [] m = m
  moves (f ∷ fs) m = moves fs (move f m)

module _ {F : Type 0} where
  -- An entity as its controller moves it, and the entity again.
  abbrev pub mover_of : RemoteController F → Entity F → Mover F
  mover_of r o =
      let u = r.motion in
      record {
        controls = r;
        position = o.position;
        rotation = o.rotation;
        translate_speed = u.translate_speed;
        rotate_speed = u.rotate_speed;
        node_timer = u.node_timer;
        lean = u.lean;
        jets = u.jets;
      }

  abbrev pub entity_of : Mover F → Entity F → Entity F
  entity_of m o = record o {
    position = m.position;
    rotation = m.rotation;
    remote_controls = some (record (m.controls) {
      motion = record {
        translate_speed = m.translate_speed;
        rotate_speed = m.rotate_speed;
        node_timer = m.node_timer;
        lean = m.lean;
        jets = m.jets;
      };
    });
  }

module _ {F : Type 0} (sp : Space F) where
  -- The function that `UpdateRemoteControls` calls for each entity.
  abbrev pub moved_by : Frame → Option (RemoteController F) → Entity F → Entity F
  moved_by f none o = o
  moved_by f (some r) o = entity_of (move sp f (mover_of r o)) o

  unfoldable pub move_all : Frame → List (Entity F) → List (Entity F)
  move_all f [] = []
  move_all f (o ∷ os) = moved_by f o.remote_controls o ∷ move_all f os

-- `UpdateRemoteControls`
unfoldable pub update_remote_controls : {F N : Type 0} → Space F → Frame → World F N → World F N
update_remote_controls sp f w = add_remote_controls (record w { objects = move_all sp f w.objects })
