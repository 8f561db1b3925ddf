-- ===== src/World/Destroying/Survivors.antt =====
-- Which entities are left after `UpdateDestroyEntities`, and how it fails without a player's entity.
use starfall.Base.{
  ℕ, ◌≡◌, refl, ap, ◌∙◌, List, [], ◌∷◌, ◌++◌, Bool, true, false, not, ◌||◌, ◌==◌, some, none, arith,
  reverse, reverse-reverse, reverse-append, reverse-cons, filter, filter_ext,
}
use starfall.Base.Action.{ok, fault, null_reference, resume, modify}
use starfall.Network.Structs.{DestroyEntityStruct}
use starfall.World.Entities.{Entity, World, user_of}
use starfall.World.Destroying.{
  has_session, destroy_one, own_destroy, set_destroy_queue, destroy_loop, update_destroy_entities,
}
use starfall.World.Destroying.Scans.{Distinct, Safe}
use starfall.World.Destroying.Frame.{survives, swept-Distinct, filter-swept, update_destroy_lem}

module _ {F : Type 0} where
  -- Whether a packet names the entity.
  abbrev pub named : List DestroyEntityStruct → Entity F → Bool
  named [] o = false
  named (d ∷ ds) o = o.sessionid == d.sessionid || named ds o

  -- The entities that no packet names, and those with the player's session id.
  abbrev pub stays : Entity F → List DestroyEntityStruct → Entity F → Bool
  stays me ds o = o.sessionid == me.sessionid || not (named ds o)

  named-append :
      (ds es : List DestroyEntityStruct) (o : Entity F)
      → named (ds ++ es) o ≡ (named ds o || named es o)
  named-append [] es o = refl
  named-append (d ∷ ds) es o = ground (arith, named-append ds es o)

  named-reverse : (ds : List DestroyEntityStruct) (o : Entity F) → named (reverse ds) o ≡ named ds o
  named-reverse [] o = refl
  named-reverse (d ∷ ds) o =
      ap (λ es. named es o) (reverse-cons d ds)
      ∙ named-append (reverse ds) (d ∷ []) o
      ∙ ground (arith, named-reverse ds o)

  survives_lem :
      (me : Entity F) (ds : List DestroyEntityStruct) (o : Entity F)
      → survives me ds o ≡ stays me ds o
  survives_lem me [] o = ground arith
  survives_lem me (d ∷ ds) o = ground (arith, survives_lem me ds o)

  survives-reverse :
      (me : Entity F) (ds : List DestroyEntityStruct) (o : Entity F)
      → survives me (reverse ds) o ≡ stays me ds o
  survives-reverse me ds o =
      survives_lem me (reverse ds) o
      ∙ ap (λ b. o.sessionid == me.sessionid || not b) (named-reverse ds o)

  mine-Safe :
      (me : Entity F) (d : ℕ) (os : List (Entity F))
      → Safe d me (λ o. o.sessionid == me.sessionid) os
  mine-Safe me d [] = tt
  mine-Safe me d (o ∷ os) = (λ e. ground (arith, e), mine-Safe me d os)

module _ {F N : Type 0} where
  -- When the player has an entity and no session id occurs twice, `UpdateDestroyEntities` does not
  -- throw, and of the objects there stay, in their order, exactly those that no packet of the queue
  -- names and the player's own. The queue is empty then, and the mutex free.
  pub destroys_named :
      (me : Entity F) (w : World F N)
      → w.entity ≡ some me
      → Distinct w.objects
      → ((update_destroy_entities w).0 ≡ ok tt)
        × ((update_destroy_entities w).1.objects
            ≡ filter (stays me (user_of w).destroy_entity_queue) w.objects)
        × ((user_of (update_destroy_entities w).1).destroy_entity_queue ≡ [])
        × ((user_of (update_destroy_entities w).1).destroy_entity_mutex ≡ false)
  destroys_named me w h distinct =
      let queue = (user_of w).destroy_entity_queue in
      rw (update_destroy_lem me w h) (
        refl,
        swept-Distinct me (reverse queue) w.objects distinct
            ∙ filter_ext _ _ (survives-reverse me queue) w.objects,
        refl,
        refl,
      )

  -- Also where session ids occur twice, no packet removes an entity with the player's session id.
  pub destroy_spares_player :
      (me : Entity F) (w : World F N)
      → w.entity ≡ some me
      → filter (λ o. o.sessionid == me.sessionid) (update_destroy_entities w).1.objects
        ≡ filter (λ o. o.sessionid == me.sessionid) w.objects
  destroy_spares_player me w h = rw (update_destroy_lem me w h) (
      filter-swept me _ (reverse (user_of w).destroy_entity_queue) w.objects
        (λ d. mine-Safe me d w.objects))

  -- While the player has no entity, a queue whose last packet names an object makes
  -- `UpdateDestroyEntities` throw a NullReferenceException: the packet has left the queue, nothing is
  -- destroyed, and the mutex, which the receiving thread waits for, is not given back.
  pub destroy_without_player :
      (ds : List DestroyEntityStruct) (d : DestroyEntityStruct) (w : World F N)
      → w.entity ≡ none
      → (user_of w).destroy_entity_queue ≡ ds ++ (d ∷ [])
      → has_session d.sessionid w.objects ≡ true
      → update_destroy_entities w
        ≡ (fault null_reference, own_destroy true (set_destroy_queue ds w))
  unfolding update_destroy_entities destroy_loop destroy_one
  destroy_without_player ds d w h e found =
      ap (λ q. resume (λ _. modify (own_destroy false)) (destroy_loop q (own_destroy true w)))
        (ap reverse e ∙ reverse-append ds (d ∷ []))
      ∙ simp (h, found, reverse-reverse)
