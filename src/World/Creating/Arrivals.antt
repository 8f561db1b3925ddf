-- ===== src/World/Creating/Arrivals.antt =====
-- Which entities `UpdateCreateEntities` makes, and which of them is the player's.
use starfall.Base.{
  ◌==◌, Bool-cases, inl, inr, if◌then◌else◌, map-All, All-every, All-map, ◌≡◌, ◌≢◌, refl, ap, ap₂,
  sym, ◌∙◌, List, [], ◌∷◌, ◌++◌, Option, none, some, true, false, arith, reverse, reverse-reverse,
  reverse-append, reverse-cons, append-nil, append_assoc, map, All, All-reverse,
}
use starfall.Network.Runtime.{Floats}
use starfall.Network.Structs.{CreateEntityStruct}
use starfall.World.Entities.{Entity, World, new_remote_controller, user_of}
use starfall.World.Creating.{
  is_none, take_entity, build, own_create, set_create_queue, create_one, create_loop,
  update_create_entities,
}

module _ {F : Type 0} (fl : Floats F) where
  take_other : (c : CreateEntityStruct F) → c.mode ≢ 2 → take_entity (build fl true c) none ≡ none
  unfolding take_entity build
  take_other c h = ground (arith, h)

  take_player :
      (c : CreateEntityStruct F)
      → c.mode ≡ 2
      → take_entity (build fl true c) none ≡ some (build fl true c)
  unfolding take_entity build
  take_player c h = ground (arith, h)

  -- The entity of another player or thing, controlled remotely, and the player's own.
  abbrev pub remote_entity : CreateEntityStruct F → Entity F
  remote_entity c = record {
    sessionid = c.sessionid;
    mode = if c.mode == 2 then 0 else c.mode;
    name = c.display_name;
    position = c.position;
    rotation = c.rotation;
    remote_controls = some (new_remote_controller fl);
  }

  abbrev pub own_entity : CreateEntityStruct F → Entity F
  own_entity c = record (remote_entity c) { mode = 2; remote_controls = none }

  build_later : (c : CreateEntityStruct F) → build fl false c ≡ remote_entity c
  unfolding build
  build_later c = elim (Bool-cases (c.mode == 2)) [ inl e ↦ rw e | inr e ↦ rw e ]

  build_other : (c : CreateEntityStruct F) → c.mode ≢ 2 → build fl true c ≡ remote_entity c
  unfolding build
  build_other c h = ground (arith, h)

  build_own : (c : CreateEntityStruct F) → c.mode ≡ 2 → build fl true c ≡ own_entity c
  unfolding build
  build_own c h = ground (arith, h)

  map_later : (cs : List (CreateEntityStruct F)) → map (build fl false) cs ≡ map (remote_entity) cs
  map_later cs = map-All _ _ cs (All-every _ (build_later) cs)

  map_other :
      (cs : List (CreateEntityStruct F))
      → All (λ c. c.mode ≢ 2) cs
      → map (build fl true) cs ≡ map (remote_entity) cs
  map_other cs h = map-All _ _ cs (All-map (build_other) cs h)

  -- The world with the queue `q`, the player's entity `o` and the new objects `es`.
  abbrev pub grown :
      {N : Type 0}
      → List (CreateEntityStruct F)
      → Option (Entity F)
      → List (Entity F)
      → World F N
      → World F N
  grown q o es w = record (set_create_queue q w) { entity = o; objects = w.objects ++ es }

module _ {F N : Type 0} (fl : Floats F) where
  create_step :
      (c : CreateEntityStruct F) (cs : List (CreateEntityStruct F)) (o : Option (Entity F))
      (w : World F N)
      → w.entity ≡ o
      → create_loop fl (c ∷ cs) w
        ≡ create_loop fl cs (
            grown fl
              (reverse cs)
              (take_entity (build fl (is_none o) c) o)
              (build fl (is_none o) c ∷ [])
              w)
  unfolding create_loop create_one
  create_step c cs o w h =
      ap
        (λ o'. create_loop fl cs (
          grown fl (reverse cs) (take_entity (build fl (is_none o') c) o')
            (build fl (is_none o') c ∷ []) w))
        h

  loop_with_player :
      (me : Entity F) (cs : List (CreateEntityStruct F)) (w : World F N)
      → w.entity ≡ some me
      → (user_of w).create_entity_queue ≡ reverse cs
      → create_loop fl cs w ≡ grown fl [] (some me) (map (build fl false) cs) w
  unfolding create_loop take_entity
  loop_with_player me [] w h e = rw append-nil (rw (sym e, sym h) refl)
  loop_with_player me (c ∷ cs) w h e =
      create_step c cs (some me) w h
      ∙ loop_with_player me cs (grown fl (reverse cs) (some me) (build fl false c ∷ []) w) refl refl
      ∙ rw append_assoc

  -- Structures of other modes leave the player's entity null.
  loop_without_player :
      (cs rest : List (CreateEntityStruct F)) (w : World F N)
      → w.entity ≡ none
      → (user_of w).create_entity_queue ≡ reverse (cs ++ rest)
      → All (λ c. c.mode ≢ 2) cs
      → create_loop fl (cs ++ rest) w
        ≡ create_loop fl rest (grown fl (reverse rest) none (map (build fl true) cs) w)
  loop_without_player [] rest w h e k =
      ap (create_loop fl rest) (rw append-nil (rw (sym e, sym h) refl))
  loop_without_player (c ∷ cs) rest w h e (kc, ks) =
      create_step c (cs ++ rest) none w h
      ∙ ap
          (λ o.
            create_loop fl (cs ++ rest)
              (grown fl (reverse (cs ++ rest)) o (build fl true c ∷ []) w))
          (take_other fl c kc)
      ∙ loop_without_player cs rest (grown fl (reverse (cs ++ rest)) none (build fl true c ∷ []) w)
          refl refl ks
      ∙ rw append_assoc

  loop_to_player :
      (cs : List (CreateEntityStruct F)) (c : CreateEntityStruct F)
      (rest : List (CreateEntityStruct F)) (w : World F N)
      → w.entity ≡ none
      → (user_of w).create_entity_queue ≡ reverse (cs ++ (c ∷ rest))
      → c.mode ≡ 2
      → All (λ b. b.mode ≢ 2) cs
      → create_loop fl (cs ++ (c ∷ rest)) w
        ≡ grown fl []
            (some (build fl true c))
            (map (build fl true) cs ++ (build fl true c ∷ map (build fl false) rest))
            w
  loop_to_player cs c rest w h e two others =
      let w' = grown fl (reverse (c ∷ rest)) none (map (build fl true) cs) w in
      let chosen = λ (o : Option (Entity F)). grown fl (reverse rest) o (build fl true c ∷ []) w' in
      loop_without_player cs (c ∷ rest) w h e others
      ∙ create_step c rest none w' refl
      ∙ ap (λ o. create_loop fl rest (chosen o)) (take_player fl c two)
      ∙ loop_with_player (build fl true c) rest (chosen (some (build fl true c))) refl refl
      ∙ ap
          (λ (es : List (Entity F)). record (set_create_queue [] w) {
            entity = some (build fl true c);
            objects = es;
          })
          (append_assoc (w.objects ++ map (build fl true) cs) (build fl true c ∷ [])
              (map (build fl false) rest)
            ∙ append_assoc w.objects (map (build fl true) cs)
                (build fl true c ∷ map (build fl false) rest))

  -- Once the player has an entity, `UpdateCreateEntities` appends one remote controlled entity for
  -- each structure of the queue, from its last one, with the structure's values, but the mode 0 where
  -- the structure has 2. The player's entity stays, the queue is empty then, and the mutex free.
  pub create_others :
      (me : Entity F) (w : World F N)
      → w.entity ≡ some me
      → update_create_entities fl w
        ≡ own_create false (
            grown fl []
              (some me)
              (map (remote_entity fl) (reverse (user_of w).create_entity_queue))
              w)
  unfolding update_create_entities
  create_others me w h =
      let queue = (user_of w).create_entity_queue in
      ap (own_create false)
        (loop_with_player me (reverse queue) (own_create true w) h (sym (reverse-reverse queue)))
      ∙ ap (λ (es : List (Entity F)). own_create false (grown fl [] (some me) es w))
          (map_later fl (reverse queue))

  -- While the player has no entity, the last structure of mode 2 in the queue becomes the player's,
  -- which is not controlled remotely. The structures behind it are made before it, those in front of
  -- it after it, as remote controlled entities, with the mode 2 turned into 0.
  pub create_player :
      (front : List (CreateEntityStruct F)) (c : CreateEntityStruct F)
      (back : List (CreateEntityStruct F)) (w : World F N)
      → w.entity ≡ none
      → (user_of w).create_entity_queue ≡ front ++ (c ∷ back)
      → c.mode ≡ 2
      → All (λ b. b.mode ≢ 2) back
      → update_create_entities fl w
        ≡ own_create false (
            grown fl []
              (some (own_entity fl c))
              (map (remote_entity fl) (reverse back)
                ++ (own_entity fl c ∷ map (remote_entity fl) (reverse front)))
              w)
  unfolding update_create_entities
  create_player front c back w h e two others =
      let in_order : reverse (front ++ (c ∷ back)) ≡ reverse back ++ (c ∷ reverse front) =
        reverse-append front (c ∷ back) ∙ rw (reverse-cons, append_assoc) in
      let made = λ (me : Entity F) (es fs : List (Entity F)).
        own_create false (grown fl [] (some me) (es ++ (me ∷ fs)) w) in
      let others' = All-reverse _ back others in
      ap (own_create false) (
        ap (λ q. create_loop fl q (own_create true w)) (ap reverse e ∙ in_order)
        ∙ loop_to_player (reverse back) c (reverse front) (own_create true w) h
            (e ∙ sym (reverse-reverse (front ++ (c ∷ back))) ∙ ap reverse in_order) two others')
      ∙ ap
          (λ me.
            made me (map (build fl true) (reverse back)) (map (build fl false) (reverse front)))
          (build_own fl c two)
      ∙ ap₂ (made (own_entity fl c)) (map_other fl (reverse back) others')
          (map_later fl (reverse front))
