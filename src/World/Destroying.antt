-- ===== src/World/Destroying.antt =====
-- `World.UpdateDestroyEntities`.
pub mod Scans
pub mod Frame
pub mod Survivors
pub mod Kept
use starfall.Base.{
  ℕ, ◌≡◌, ◌≢◌, refl, ap, ◌∙◌, List, [], ◌∷◌, ◌++◌, Option, none, some, Bool, true, false, not, ◌&&◌,
  ◌||◌, ◌==◌, if◌then◌else◌, arith, reverse, Bool-cases, inl, inr,
}
use starfall.Base.Action.{Action, Result, ok, fault, null_reference, pure, modify, ◌>>=◌, ◌>>◌}
use starfall.Network.Structs.{DestroyEntityStruct, User}
use starfall.World.Entities.{Entity, World, user_of, set_user}

module _ {F : Type 0} where
  -- The two tests of the loop over `objects`, for a session id `d` and the player's entity `me`.
  abbrev pub condemned : ℕ → Entity F → Entity F → Bool
  condemned d me o = o.sessionid == d && not (d == me.sessionid)

  -- The loop over `objects`, with the player's entity not null. After `RemoveAt(i)` the index still
  -- goes up, so the element that moved to `i` is passed over.
  unfoldable pub remove_scan : ℕ → Entity F → List (Entity F) → List (Entity F)
  remove_scan d me [] = []
  remove_scan d me (o ∷ []) = if condemned d me o then [] else o ∷ []
  remove_scan d me (o ∷ (o' ∷ os)) =
      let removed = o' ∷ remove_scan d me os in
      let kept = o ∷ remove_scan d me (o' ∷ os) in if condemned d me o then removed else kept

  -- The entities that the same loop destroys, in order.
  unfoldable pub destroyed_scan : ℕ → Entity F → List (Entity F) → List (Entity F)
  destroyed_scan d me [] = []
  destroyed_scan d me (o ∷ []) = if condemned d me o then o ∷ [] else []
  destroyed_scan d me (o ∷ (o' ∷ os)) =
      let removed = o ∷ destroyed_scan d me os in
      let kept = destroyed_scan d me (o' ∷ os) in if condemned d me o then removed else kept

  abbrev pub has_session : ℕ → List (Entity F) → Bool
  has_session d [] = false
  has_session d (o ∷ os) = o.sessionid == d || has_session d os

module _ {F N : Type 0} where
  -- The loop for one struct: with no player's entity, the first match throws at `this.entity.sessionid`.
  unfoldable pub destroy_one : Option (Entity F) → ℕ → Action (World F N) (Unit {0})
  destroy_one (some me) d w = (
    ok tt,
    record w {
      objects = remove_scan d me w.objects;
      destroyed = w.destroyed ++ destroyed_scan d me w.objects;
    },
  )
  destroy_one none d w = (if has_session d w.objects then fault null_reference else ok tt, w)

  abbrev pub own_destroy : Bool → World F N → World F N
  own_destroy o w = set_user (record (user_of w) { destroy_entity_mutex = o }) w

  abbrev pub set_destroy_queue : List DestroyEntityStruct → World F N → World F N
  set_destroy_queue q w = set_user (record (user_of w) { destroy_entity_queue = q }) w

  -- The loop `while(queue.length > 0)` over the queue from its end: `rest` is what is left, reversed.
  unfoldable pub destroy_loop : List DestroyEntityStruct → Action (World F N) (Unit {0})
  destroy_loop [] = pure tt
  destroy_loop (d ∷ rest) = do
    modify (set_destroy_queue (reverse rest))
    λ w. destroy_one w.entity d.sessionid w
    destroy_loop rest

  unfoldable pub update_destroy_entities : Action (World F N) (Unit {0})
  update_destroy_entities = do
    modify (own_destroy true)
    λ w. destroy_loop (reverse (user_of w).destroy_entity_queue) w
    modify (own_destroy false)
