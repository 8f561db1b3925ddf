-- ===== src/World/Destroying/Frame.antt =====
-- What `UpdateDestroyEntities` does to the world when the player has an entity.
use starfall.Base.{
  ℕ, ◌≡◌, refl, ap, sym, ◌∙◌, List, [], ◌∷◌, ◌++◌, Bool, true, false, ◌&&◌, Option, some, reverse,
  reverse-reverse, append-nil, append_assoc, filter, filter-filter, filter-id, All,
}
use starfall.Base.Action.{ok, resume, modify}
use starfall.Network.Structs.{DestroyEntityStruct}
use starfall.World.Entities.{Entity, World, user_of}
use starfall.World.Destroying.{
  remove_scan, destroyed_scan, destroy_one, own_destroy, set_destroy_queue, destroy_loop,
  update_destroy_entities,
}
use starfall.World.Destroying.Scans.{
  Distinct, remove_scan-All, filter-Distinct, Safe, filter-remove_scan, spared,
  remove_scan-Distinct,
}

module _ {F : Type 0} (me : Entity F) where
  -- The scans for a list of packets one after the other: what stays and what is destroyed.
  abbrev pub swept : List DestroyEntityStruct → List (Entity F) → List (Entity F)
  swept [] os = os
  swept (d ∷ ds) os = swept ds (remove_scan d.sessionid me os)

  abbrev pub swept_away : List DestroyEntityStruct → List (Entity F) → List (Entity F)
  swept_away [] os = []
  swept_away (d ∷ ds) os =
      destroyed_scan d.sessionid me os ++ swept_away ds (remove_scan d.sessionid me os)

  -- No packet names the entity, or it shares its session id with the player's.
  abbrev pub survives : List DestroyEntityStruct → Entity F → Bool
  survives [] o = true
  survives (d ∷ ds) o = spared d.sessionid me o && survives ds o

  survives_none : (os : List (Entity F)) → All (λ o. survives [] o ≡ true) os
  survives_none [] = tt
  survives_none (o ∷ os) = (refl, survives_none os)

  pub swept-Distinct :
      (ds : List DestroyEntityStruct) (os : List (Entity F))
      → Distinct os
      → swept ds os ≡ filter (survives ds) os
  swept-Distinct [] os h = sym (filter-id _ os (survives_none os))
  swept-Distinct (d ∷ ds) os h =
      ap (swept ds) (remove_scan-Distinct d.sessionid me os h)
      ∙ swept-Distinct ds (filter (spared d.sessionid me) os)
          (filter-Distinct (spared d.sessionid me) os h)
      ∙ filter-filter (spared d.sessionid me) (survives ds) os

  pub filter-swept :
      (p : Entity F → Bool) (ds : List DestroyEntityStruct) (os : List (Entity F))
      → ((d : ℕ) → Safe d me p os)
      → filter p (swept ds os) ≡ filter p os
  filter-swept p [] os h = refl
  filter-swept p (d ∷ ds) os h =
      filter-swept p ds (remove_scan d.sessionid me os)
        (λ d'. remove_scan-All d.sessionid me _ os (h d'))
      ∙ filter-remove_scan d.sessionid me p os (h d.sessionid)

  pub swept-All :
      (P : Entity F → Type 0) (ds : List DestroyEntityStruct) (os : List (Entity F))
      → All P os
      → All P (swept ds os)
  swept-All P [] os h = h
  swept-All P (d ∷ ds) os h =
      swept-All P ds (remove_scan d.sessionid me os) (remove_scan-All d.sessionid me P os h)

module _ {F N : Type 0} where
  abbrev pub after_destroys : Entity F → List DestroyEntityStruct → World F N → World F N
  after_destroys me ds w = record (set_destroy_queue [] w) {
    objects = swept me ds w.objects;
    destroyed = w.destroyed ++ swept_away me ds w.objects;
  }

  abbrev swept_once : Entity F → DestroyEntityStruct → World F N → World F N
  swept_once me d w = record w {
    objects = remove_scan d.sessionid me w.objects;
    destroyed = w.destroyed ++ destroyed_scan d.sessionid me w.objects;
  }

  destroy_loop_lem :
      (me : Entity F) (ds : List DestroyEntityStruct) (w : World F N)
      → w.entity ≡ some me
      → (user_of w).destroy_entity_queue ≡ reverse ds
      → destroy_loop ds w ≡ (ok tt, after_destroys me ds w)
  unfolding destroy_loop destroy_one
  destroy_loop_lem me [] w h e = rw append-nil (rw (sym e) refl)
  destroy_loop_lem me (d ∷ ds) w h e =
      ap
        (λ (o : Option (Entity F)).
          resume (λ _. destroy_loop ds)
            (destroy_one o d.sessionid (set_destroy_queue (reverse ds) w)))
        h
      ∙ destroy_loop_lem me ds (swept_once me d (set_destroy_queue (reverse ds) w)) h refl
      ∙ rw append_assoc

  -- With a player's entity the method scans the objects once for each packet of the queue, from its
  -- last one, empties the queue and gives the mutex back.
  pub update_destroy_lem :
      (me : Entity F) (w : World F N)
      → w.entity ≡ some me
      → update_destroy_entities w ≡ (
        ok tt,
        own_destroy false (after_destroys me (reverse (user_of w).destroy_entity_queue) w),
      )
  unfolding update_destroy_entities
  update_destroy_lem me w h =
      let queue = (user_of w).destroy_entity_queue in
      ap (resume (λ _. modify (own_destroy false)))
        (destroy_loop_lem me (reverse queue) (own_destroy true w) h (sym (reverse-reverse queue)))
