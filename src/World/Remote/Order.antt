-- ===== src/World/Remote/Order.antt =====
-- Which of several received paths an entity follows.
use starfall.Base.{
  ◌≡◌, refl, ap, sym, ◌∙◌, List, [], ◌∷◌, ◌++◌, true, false, reverse, reverse-reverse, reverse-cons,
  ◌==◌, if◌then◌else◌, ℕ, arith, inl, inr, Bool-cases,
}
use starfall.Network.Structs.{TransformEntityStruct}
use starfall.World.Entities.{Entity, World, user_of}
use starfall.World.Remote.{
  follow_path, own_transform, set_transform_queue, follow_one, transform_loop, add_remote_controls,
}
use starfall.World.Remote.Following.{follow_path-twice, follow_path-commute}

module _ {F : Type 0} where
  -- The packets, from the one that is taken first, handed to the objects.
  abbrev pub led : List (TransformEntityStruct F) → List (Entity F) → List (Entity F)
  led [] os = os
  led (t ∷ ts) os = led ts (follow_path t.sessionid t.path os)

  led-append :
      (ts : List (TransformEntityStruct F)) (t : TransformEntityStruct F) (os : List (Entity F))
      → led (ts ++ (t ∷ [])) os ≡ follow_path t.sessionid t.path (led ts os)
  led-append [] t os = refl
  led-append (u ∷ ts) t os = led-append ts t (follow_path u.sessionid u.path os)

  -- The packets for other entities than `d`.
  abbrev pub drop_id : ℕ → List (TransformEntityStruct F) → List (TransformEntityStruct F)
  drop_id d [] = []
  drop_id d (t ∷ ts) = let rest = drop_id d ts in if t.sessionid == d then rest else t ∷ rest

  -- For each entity, the packet that was received first.
  abbrev pub first_paths : List (TransformEntityStruct F) → List (TransformEntityStruct F)
  first_paths [] = []
  first_paths (t ∷ ts) = t ∷ drop_id t.sessionid (first_paths ts)

  -- A path takes effect before those that other entities get, and instead of those that its own got.
  led_behind :
      (ts : List (TransformEntityStruct F)) (t : TransformEntityStruct F) (os : List (Entity F))
      → follow_path t.sessionid t.path (led ts os)
        ≡ led (drop_id t.sessionid ts) (follow_path t.sessionid t.path os)
  led_behind [] t os = refl
  led_behind (u ∷ ts) t os = elim (Bool-cases (u.sessionid == t.sessionid)) [
    | inl e ↦ rw e (
        led_behind ts t (follow_path u.sessionid u.path os)
        ∙ ap (led (drop_id t.sessionid ts)) (
            ap (λ d. follow_path t.sessionid t.path (follow_path d u.path os)) {y = t.sessionid}
              (ground (arith, e))
            ∙ follow_path-twice t.sessionid u.path t.path os))
    | inr e ↦ rw e (
        led_behind ts t (follow_path u.sessionid u.path os)
        ∙ ap (led (drop_id t.sessionid ts))
            (sym (follow_path-commute u.sessionid t.sessionid u.path t.path os e)))
  ]

  led-first_paths :
      (ts : List (TransformEntityStruct F)) (os : List (Entity F))
      → led (reverse ts) os ≡ led (first_paths ts) os
  led-first_paths [] os = refl
  led-first_paths (t ∷ ts) os =
      ap (λ q. led q os) (reverse-cons t ts)
      ∙ led-append (reverse ts) t os
      ∙ ap (follow_path t.sessionid t.path) (led-first_paths ts os)
      ∙ led_behind (first_paths ts) t os

module _ {F N : Type 0} where
  abbrev pub after_paths : List (TransformEntityStruct F) → World F N → World F N
  after_paths ts w = record (set_transform_queue [] w) { objects = led ts w.objects }

  transform_loop_lem :
      (ts : List (TransformEntityStruct F)) (w : World F N)
      → (user_of w).transform_entity_queue ≡ reverse ts
      → transform_loop ts w ≡ after_paths ts w
  unfolding transform_loop
  transform_loop_lem [] w h = rw (sym h) refl
  transform_loop_lem (t ∷ ts) w h =
      transform_loop_lem ts (follow_one t (set_transform_queue (reverse ts) w)) refl

  pub add_remote_controls_lem :
      (w : World F N)
      → add_remote_controls w
        ≡ own_transform false (after_paths (reverse (user_of w).transform_entity_queue) w)
  unfolding add_remote_controls
  add_remote_controls_lem w =
      let queue = (user_of w).transform_entity_queue in
      ap (own_transform false)
        (transform_loop_lem (reverse queue) (own_transform true w) (sym (reverse-reverse queue)))

  -- The loop over the waiting paths, for whatever entities they are, does just what it does to hand each
  -- entity the one path that was received first for it: a later path for the same entity has no effect,
  -- since the queue is taken from its end.
  pub older_path_wins :
      (w : World F N)
      → add_remote_controls w
        ≡ own_transform false (after_paths (first_paths (user_of w).transform_entity_queue) w)
  older_path_wins w =
      add_remote_controls_lem w
      ∙ ap (λ os. own_transform false (record (set_transform_queue [] w) { objects = os }))
          (led-first_paths (user_of w).transform_entity_queue w.objects)
