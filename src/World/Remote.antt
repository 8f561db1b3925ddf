-- ===== src/World/Remote.antt =====
-- `RemoteController.Clear`, `AddTarget` and `Next`, and the loop of `World.UpdateRemoteControls` that
-- takes the received paths.
pub mod Following
pub mod Order
pub mod Players
pub mod Motion
pub mod Remaining
pub mod Gliding
pub mod Leaving
pub mod Resting
mod Tests
use starfall.Base.{
  ℕ, List, [], ◌∷◌, ◌++◌, Option, none, some, Bool, true, false, ◌==◌, if◌then◌else◌, reverse,
}
use starfall.Network.Structs.{TransformStruct, TransformEntityStruct, User}
use starfall.World.Entities.{Target, RemoteController, Entity, World, user_of, set_user}

module _ {F : Type 0} where
  -- `Clear`, which also puts the entity at its target.
  unfoldable pub clear_targets : RemoteController F → Entity F → Entity F
  clear_targets r o =
      let moved = record o { position = r.target.position; rotation = r.target.rotation } in
      record (if r.target.initialized then moved else o) {
        remote_controls = some (record r { targets = [] });
      }

  abbrev pub target_of : TransformStruct F → Target F
  target_of t = record {
    action = t.action;
    position = t.position;
    rotation = t.rotation;
    initialized = true;
  }

  abbrev pub push_target : TransformStruct F → RemoteController F → RemoteController F
  push_target t r = record r { targets = r.targets ++ (target_of t ∷ []) }

  -- `AddTarget` on the entity's controller.
  abbrev pub add_to : TransformStruct F → Option (RemoteController F) → Option (RemoteController F)
  add_to t none = none
  add_to t (some r) = some (push_target t r)

  unfoldable pub add_target : TransformStruct F → Entity F → Entity F
  add_target t o = record o { remote_controls = add_to t o.remote_controls }

  -- The loop `while(path.length > 0)`, over the path from its end.
  unfoldable pub add_targets : List (TransformStruct F) → Entity F → Entity F
  add_targets [] o = o
  add_targets (t ∷ path) o = add_targets path (add_target t o)

  -- `Next` on the stack of targets, which stands reversed here: the last target becomes the current one.
  abbrev pub next_of : List (Target F) → RemoteController F → RemoteController F
  next_of [] r = r
  next_of (t ∷ ts) r = record r { target = t; targets = reverse ts }

  unfoldable pub next : RemoteController F → RemoteController F
  next r = next_of (reverse r.targets) r

  -- What the loop over `objects` does with one object: the object, and the path that is left for the
  -- later ones, since the first object that follows the path empties it.
  abbrev pub follow :
      Option (RemoteController F)
      → List (TransformStruct F)
      → Entity F
      → Entity F × List (TransformStruct F)
  follow none path o = (o, path)
  follow (some r) path o = (add_targets (reverse path) (clear_targets r o), [])

  unfoldable pub follow_path : ℕ → List (TransformStruct F) → List (Entity F) → List (Entity F)
  follow_path d path [] = []
  follow_path d path (o ∷ os) =
      let (o', path') = if o.sessionid == d then follow o.remote_controls path o else (o, path) in
      o' ∷ follow_path d path' os

module _ {F N : Type 0} where
  abbrev pub own_transform : Bool → World F N → World F N
  own_transform b w = set_user (record (user_of w) { transform_entity_mutex = b }) w

  abbrev pub set_transform_queue : List (TransformEntityStruct F) → World F N → World F N
  set_transform_queue q w = set_user (record (user_of w) { transform_entity_queue = q }) w

  abbrev pub follow_one : TransformEntityStruct F → World F N → World F N
  follow_one t w = record w { objects = follow_path t.sessionid t.path w.objects }

  -- The loop `while(queue.length > 0)` over the queue from its end: `rest` is what is left, reversed.
  unfoldable pub transform_loop : List (TransformEntityStruct F) → World F N → World F N
  transform_loop [] w = w
  transform_loop (t ∷ rest) w =
      transform_loop rest (follow_one t (set_transform_queue (reverse rest) w))

  unfoldable pub add_remote_controls : World F N → World F N
  add_remote_controls w =
      own_transform false
        (transform_loop (reverse (user_of w).transform_entity_queue) (own_transform true w))
