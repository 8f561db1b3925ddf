-- ===== src/World/Creating/Populated.antt =====
-- The invariant that ties `this.entity` to `objects`, kept by the methods that change the objects.
use starfall.Base.{
  ◌≡◌, ◌∙◌, List, [], ◌∷◌, ◌++◌, Option, none, some, Bool, true, false, ◌==◌, arith, reverse,
  filter, filter-append, All, All-append,
}
use starfall.Network.Runtime.{Floats}
use starfall.Network.Structs.{CreateEntityStruct}
use starfall.World.Entities.{Entity, World, user_of}
use starfall.World.Creating.{
  is_none, take_entity, build, own_create, set_create_queue, create_one, create_loop,
  update_create_entities,
}

module _ {F : Type 0} where
  abbrev pub is_player : Entity F → Bool
  is_player o = o.mode == 2

  abbrev pub to_list : Option (Entity F) → List (Entity F)
  to_list none = []
  to_list (some e) = e ∷ []

-- Of all objects exactly the player's entity, once there is one, has the mode 2, and exactly it is not
-- controlled remotely.
pub record Populated {F N : Type 0} (w : World F N) : Type 0 where
  pub one_player : filter is_player w.objects ≡ to_list w.entity
  pub others_remote : All (λ o. is_none o.remote_controls ≡ is_player o) w.objects

module _ {F : Type 0} (fl : Floats F) where
  player_created :
      (c : CreateEntityStruct F) (o : Option (Entity F)) (es : List (Entity F))
      → es ≡ to_list o
      → es ++ filter is_player (build fl (is_none o) c ∷ [])
        ≡ to_list (take_entity (build fl (is_none o) c) o)
  unfolding build take_entity
  player_created c none es h = rw h (ground arith)
  player_created c (some me) es h = rw h (ground arith)

  build_remote :
      (alone : Bool) (c : CreateEntityStruct F)
      → is_none (build fl alone c).remote_controls ≡ is_player (build fl alone c)
  unfolding build
  build_remote true c = ground arith
  build_remote false c = ground arith

module _ {F N : Type 0} (fl : Floats F) where
  create_one-Populated :
      (c : CreateEntityStruct F) (w : World F N) → Populated w → Populated (create_one fl c w)
  unfolding create_one
  create_one-Populated c w h = record {
    one_player =
        filter-append is_player w.objects (build fl (is_none w.entity) c ∷ [])
        ∙ player_created fl c w.entity (filter is_player w.objects) h.one_player;
    others_remote =
        All-append _ w.objects _ h.others_remote (build_remote fl (is_none w.entity) c, tt);
  }

  create_loop-Populated :
      (cs : List (CreateEntityStruct F)) (w : World F N)
      → Populated w
      → Populated (create_loop fl cs w)
  unfolding create_loop
  create_loop-Populated [] w h = h
  create_loop-Populated (c ∷ cs) w h = create_loop-Populated cs _ (
      create_one-Populated c (set_create_queue (reverse cs) w)
        (record { one_player = h.one_player; others_remote = h.others_remote }))

  -- `UpdateCreateEntities` keeps the invariant, whatever the queue holds.
  pub update_create_entities-Populated :
      (w : World F N) → Populated w → Populated (update_create_entities fl w)
  unfolding update_create_entities
  update_create_entities-Populated w h =
      let kept =
        create_loop-Populated (reverse (user_of w).create_entity_queue) (own_create true w)
          (record { one_player = h.one_player; others_remote = h.others_remote }) in
      record { one_player = kept.one_player; others_remote = kept.others_remote }
