-- ===== src/World/Destroying/Kept.antt =====
-- What `UpdateDestroyEntities` keeps of the world.
use starfall.Base.{
  ℕ, ◌≡◌, refl, ap, sym, ◌∙◌, subst, List, [], ◌∷◌, Option, none, true, false, arith, reverse,
  filter, All, All-map, All-filter, Bool-cases, Option-cases, inl, inr,
}
use starfall.Base.Action.{Result, ok, fault, resume, modify}
use starfall.Network.Structs.{DestroyEntityStruct}
use starfall.World.Entities.{Entity, World, user_of}
use starfall.World.Destroying.{
  has_session, destroy_one, own_destroy, set_destroy_queue, destroy_loop, update_destroy_entities,
}
use starfall.World.Destroying.Scans.{Safe}
use starfall.World.Destroying.Frame.{swept-All, filter-swept, update_destroy_lem}
use starfall.World.Creating.{is_none}
use starfall.World.Creating.Populated.{Populated, is_player, to_list}

module _ {F : Type 0} where
  -- Nobody but the player has the mode 2, so no packet removes an object of that mode.
  player-Safe :
      (me : Entity F) (d : ℕ) (os : List (Entity F))
      → filter is_player os ≡ me ∷ []
      → Safe d me is_player os
  player-Safe me d os h =
      let named_alike = λ (o : Entity F). o.sessionid ≡ me.sessionid in
      All-map (λ o ho e. ground (arith, ho e)) os
        (All-filter named_alike is_player os (subst (All named_alike) (sym h) (refl, tt)))

module _ {F N : Type 0} where
  destroy_none :
      (ds : List DestroyEntityStruct) (w : World F N)
      → w.entity ≡ none
      → ((destroy_loop ds w).1.objects ≡ w.objects) × ((destroy_loop ds w).1.entity ≡ none)
  unfolding destroy_loop destroy_one
  destroy_none [] w h = (refl, h)
  destroy_none (d ∷ ds) w h =
      let w' = set_destroy_queue (reverse ds) w in
      subst
        (λ (o : Option (Entity F)).
          ((resume (λ _. destroy_loop ds) (destroy_one o d.sessionid w')).1.objects ≡ w.objects)
          × ((resume (λ _. destroy_loop ds) (destroy_one o d.sessionid w')).1.entity ≡ none))
        (sym h)
        (elim (Bool-cases (has_session d.sessionid w.objects)) [
          | inl e ↦ rw e (refl, h)
          | inr e ↦ rw e (destroy_none ds w' h)
        ])

  fix_resume :
      (r : Result (Unit {0})) (w : World F N)
      → ((resume (λ _. modify (own_destroy false)) (r, w)).1.objects ≡ w.objects)
        × ((resume (λ _. modify (own_destroy false)) (r, w)).1.entity ≡ w.entity)
  fix_resume (ok a) w = (refl, refl)
  fix_resume (fault e) w = (refl, refl)

  update_destroy_none :
      (w : World F N)
      → w.entity ≡ none
      → ((update_destroy_entities w).1.objects ≡ w.objects)
        × ((update_destroy_entities w).1.entity ≡ none)
  unfolding update_destroy_entities
  update_destroy_none w h =
      let queue = reverse (user_of w).destroy_entity_queue in
      let (r, w') = destroy_loop queue (own_destroy true w) in
      let (same, none_still) = destroy_none queue (own_destroy true w) h in
      let (same', still) = fix_resume r w' in (same' ∙ same, still ∙ none_still)

  -- The invariant depends on the objects and the player's entity alone.
  pub same-Populated :
      (w w' : World F N)
      → w'.objects ≡ w.objects
      → w'.entity ≡ w.entity
      → Populated w
      → Populated w'
  same-Populated w w' ho he h = record {
    one_player = ap (filter is_player) ho ∙ h.one_player ∙ ap to_list (sym he);
    others_remote =
        subst (All (λ o. is_none o.remote_controls ≡ is_player o)) (sym ho) h.others_remote;
  }

  -- `UpdateDestroyEntities` keeps the invariant, also when it throws.
  pub update_destroy_entities-Populated :
      (w : World F N) → Populated w → Populated (update_destroy_entities w).1
  update_destroy_entities-Populated w h = elim (Option-cases w.entity) [
    | inl e ↦
        let (same, still) = update_destroy_none w e in
        same-Populated w (update_destroy_entities w).1 same (still ∙ sym e) h
    | inr (me, e) ↦
        let queue = reverse (user_of w).destroy_entity_queue in
        let lone = h.one_player ∙ ap to_list e in
        rw (update_destroy_lem me w e) (record {
          one_player =
              filter-swept me is_player queue w.objects (λ d. player-Safe me d w.objects lone)
              ∙ h.one_player;
          others_remote = swept-All me _ queue w.objects h.others_remote;
        })
  ]
