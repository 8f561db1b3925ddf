-- ===== src/World/Creating.antt =====
-- `World.UpdateCreateEntities`.
pub mod Populated
pub mod Arrivals
use starfall.Base.{
  ℕ, List, [], ◌∷◌, ◌++◌, Option, none, some, Bool, true, false, not, ◌&&◌, ◌==◌, if◌then◌else◌,
  reverse,
}
use starfall.Network.Runtime.{Floats}
use starfall.Network.Structs.{CreateEntityStruct, User}
use starfall.World.Entities.{Entity, World, new_remote_controller, user_of, set_user}

abbrev pub is_none : {A : Type 0} → Option A → Bool
is_none none = true
is_none (some a) = false

-- `this.entity` after an entity was made: only a player's entity takes its place, and only if it is
-- null.
unfoldable pub take_entity : {F : Type 0} → Entity F → Option (Entity F) → Option (Entity F)
take_entity e (some me) = some me
take_entity e none = if e.mode == 2 then some e else none

module _ {F : Type 0} (fl : Floats F) where
  -- The entity for a structure: `alone` says that `this.entity` is null. Only the player's own is not
  -- a RemoteControlledEntity, and a second entity of mode 2 gets the mode 0.
  unfoldable pub build : Bool → CreateEntityStruct F → Entity F
  build alone c = record {
    sessionid = c.sessionid;
    mode = if c.mode == 2 && not alone then 0 else c.mode;
    name = c.display_name;
    position = c.position;
    rotation = c.rotation;
    remote_controls = if c.mode == 2 && alone then none else some (new_remote_controller fl);
  }

module _ {F N : Type 0} where
  abbrev pub own_create : Bool → World F N → World F N
  own_create o w = set_user (record (user_of w) { create_entity_mutex = o }) w

  abbrev pub set_create_queue : List (CreateEntityStruct F) → World F N → World F N
  set_create_queue q w = set_user (record (user_of w) { create_entity_queue = q }) w

module _ {F N : Type 0} (fl : Floats F) where
  -- What the loop does with one structure.
  unfoldable pub create_one : CreateEntityStruct F → World F N → World F N
  create_one c w =
      let e = build fl (is_none w.entity) c in
      record w { entity = take_entity e w.entity; objects = w.objects ++ (e ∷ []) }

  -- The loop `while(queue.length > 0)` over the queue from its end: `rest` is what is left, reversed.
  unfoldable pub create_loop : List (CreateEntityStruct F) → World F N → World F N
  create_loop [] w = w
  create_loop (c ∷ rest) w = create_loop rest (create_one c (set_create_queue (reverse rest) w))

  unfoldable pub update_create_entities : World F N → World F N
  update_create_entities w =
      own_create false (create_loop (reverse (user_of w).create_entity_queue) (own_create true w))
