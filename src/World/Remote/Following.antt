-- ===== src/World/Remote/Following.antt =====
-- How remote controlled entities follow the paths that arrive.
use starfall.Base.{
  ℕ, ◌≡◌, refl, ap, ap₂, sym, ◌∙◌, List, [], ◌∷◌, ◌++◌, Option, none, some, true, false, ◌==◌,
  if◌then◌else◌, reverse, reverse-reverse, append-nil, append_assoc, map, map-reverse, Bool-cases,
  Option-cases, inl, inr, arith,
}
use starfall.Network.Structs.{TransformStruct}
use starfall.World.Entities.{Target, RemoteController, Entity}
use starfall.World.Remote.{
  clear_targets, target_of, push_target, add_target, add_targets, next_of, next, follow,
  follow_path,
}

module _ {F : Type 0} where
  -- The entity with the controller `r`.
  abbrev pub with_remote : RemoteController F → Entity F → Entity F
  with_remote r o = record o { remote_controls = some r }

  add_targets_lem :
      (path : List (TransformStruct F)) (r : RemoteController F) (o : Entity F)
      → add_targets path (with_remote r o)
        ≡ with_remote (record r { targets = r.targets ++ map target_of path }) o
  unfolding add_targets add_target
  add_targets_lem [] r o = rw append-nil
  add_targets_lem (t ∷ path) r o = add_targets_lem path (push_target t r) o ∙ rw append_assoc

  -- The controller of an entity after a call of `Next`, and after one more than the list is long.
  abbrev pub call_next : Option (RemoteController F) → Option (RemoteController F)
  call_next none = none
  call_next (some r) = some (next r)

  abbrev pub calls_next :
      {A : Type 0} → List A → Option (RemoteController F) → Option (RemoteController F)
  calls_next [] c = call_next c
  calls_next (a ∷ rest) c = calls_next rest (call_next c)

  next_lem :
      (t : Target F) (ts : List (Target F)) (r : RemoteController F)
      → r.targets ≡ reverse (t ∷ ts)
      → next r ≡ record r { target = t; targets = reverse ts }
  unfolding next
  next_lem t ts r h = ap (λ q. next_of q r) (ap reverse h ∙ reverse-reverse (t ∷ ts))

  calls_next_lem :
      (front : List (TransformStruct F)) (t : TransformStruct F) (back : List (TransformStruct F))
      (r : RemoteController F)
      → r.targets ≡ reverse (map target_of (front ++ (t ∷ back)))
      → calls_next front (some r)
        ≡ some (record r { target = target_of t; targets = reverse (map target_of back) })
  calls_next_lem [] t back r h = ap some (next_lem (target_of t) (map target_of back) r h)
  calls_next_lem (t' ∷ front) t back r h =
      let rest = front ++ (t ∷ back) in
      ap (λ q. calls_next front (some q)) (next_lem (target_of t') (map target_of rest) r h)
      ∙ calls_next_lem front t back
          (record r { target = target_of t'; targets = reverse (map target_of rest) }) refl

  -- Where `Clear` leaves the entity.
  abbrev pub placed : RemoteController F → Entity F → Entity F
  placed r o =
      if r.target.initialized
      then record o { position = r.target.position; rotation = r.target.rotation }
      else o

  -- The entity that was given a path: its stack of targets holds the path's nodes, the first on top.
  abbrev pub followed : List (TransformStruct F) → RemoteController F → Entity F → Entity F
  followed path r o = with_remote (record r { targets = reverse (map target_of path) }) (placed r o)

  follow_lem :
      (path : List (TransformStruct F)) (r : RemoteController F) (o : Entity F)
      → follow (some r) path o ≡ (followed path r o, [])
  unfolding clear_targets
  follow_lem path r o =
      ap (λ (e : Entity F). (e, []))
        (add_targets_lem (reverse path) (record r { targets = [] }) (placed r o) ∙ rw map-reverse)

  placed_twice :
      (r : RemoteController F) (ts : List (Target F)) (o : Entity F)
      → placed (record r { targets = ts }) (with_remote (record r { targets = ts }) (placed r o))
        ≡ with_remote (record r { targets = ts }) (placed r o)
  placed_twice r ts o = elim (Bool-cases r.target.initialized) [ inl e ↦ rw e | inr e ↦ rw e ]

  sessionid-placed : (r : RemoteController F) (o : Entity F) → (placed r o).sessionid ≡ o.sessionid
  sessionid-placed r o = elim (Bool-cases r.target.initialized) [ inl e ↦ rw e | inr e ↦ rw e ]

  pub skip_lem :
      (d : ℕ) (path : List (TransformStruct F)) (o : Entity F) (os : List (Entity F))
      → (o.sessionid == d) ≡ false
      → follow_path d path (o ∷ os) ≡ o ∷ follow_path d path os
  unfolding follow_path
  skip_lem d path o os h = rw h

  pub local_lem :
      (d : ℕ) (path : List (TransformStruct F)) (o : Entity F) (os : List (Entity F))
      → o.remote_controls ≡ none
      → follow_path d path (o ∷ os) ≡ o ∷ follow_path d path os
  unfolding follow_path
  local_lem d path o os h = elim (Bool-cases (o.sessionid == d)) [
    | inl e ↦ simp (e, h)
    | inr e ↦ simp e
  ]

  pub hit_lem :
      (d : ℕ) (path : List (TransformStruct F)) (r : RemoteController F) (o : Entity F)
      (os : List (Entity F))
      → (o.sessionid == d) ≡ true
      → o.remote_controls ≡ some r
      → follow_path d path (o ∷ os) ≡ followed path r o ∷ follow_path d [] os
  unfolding follow_path
  hit_lem d path r o os e h =
      let step = λ (q : Entity F × List (TransformStruct F)). q.0 ∷ follow_path d q.1 os in
      ap (λ b. step (if b then follow o.remote_controls path o else (o, path))) e
      ∙ ap (λ c. step (follow c path o)) h
      ∙ ap step (follow_lem path r o)

  -- An entity that the first path is for, and the second is not.
  commute_at :
      (d d' : ℕ) (path path' : List (TransformStruct F)) (o : Entity F) (os : List (Entity F))
      → (o.sessionid == d) ≡ true
      → (o.sessionid == d') ≡ false
      → ((p : List (TransformStruct F))
          → follow_path d p (follow_path d' path' os) ≡ follow_path d' path' (follow_path d p os))
      → follow_path d path (follow_path d' path' (o ∷ os))
        ≡ follow_path d' path' (follow_path d path (o ∷ os))
  commute_at d d' path path' o os e e' ih = elim (Option-cases o.remote_controls) [
    | inl n ↦
        ap (follow_path d path) (skip_lem d' path' o os e')
        ∙ local_lem d path o (follow_path d' path' os) n
        ∙ ap (λ r. o ∷ r) (ih path)
        ∙ sym (skip_lem d' path' o (follow_path d path os) e')
        ∙ ap (follow_path d' path') (sym (local_lem d path o os n))
    | inr (r, n) ↦
        ap (follow_path d path) (skip_lem d' path' o os e')
        ∙ hit_lem d path r o (follow_path d' path' os) e n
        ∙ ap (λ q. followed path r o ∷ q) (ih [])
        ∙ sym (
            skip_lem d' path' (followed path r o) (follow_path d [] os)
              (ap (λ i. i == d') (sessionid-placed r o) ∙ e'))
        ∙ ap (follow_path d' path') (sym (hit_lem d path r o os e n))
  ]

  -- Paths for different entities can come in any order.
  pub follow_path-commute :
      (d d' : ℕ) (path path' : List (TransformStruct F)) (os : List (Entity F))
      → (d == d') ≡ false
      → follow_path d path (follow_path d' path' os) ≡ follow_path d' path' (follow_path d path os)
  follow_path-commute d d' path path' [] h = unfold follow_path in refl
  follow_path-commute d d' path path' (o ∷ os) h = elim (Bool-cases (o.sessionid == d)) [
    | inl e ↦
        commute_at d d' path path' o os e (ground (arith, e, h))
          (λ p. follow_path-commute d d' p path' os h)
    | inr e ↦ elim (Bool-cases (o.sessionid == d')) [
      | inl e' ↦
          sym
            (commute_at d' d path' path o os e' e (λ p. sym (follow_path-commute d d' path p os h)))
      | inr e' ↦
          ap (follow_path d path) (skip_lem d' path' o os e')
          ∙ skip_lem d path o (follow_path d' path' os) e
          ∙ ap (λ r. o ∷ r) (follow_path-commute d d' path path' os h)
          ∙ sym (skip_lem d' path' o (follow_path d path os) e')
          ∙ ap (follow_path d' path') (sym (skip_lem d path o os e))
    ]
  ]

  -- A path that comes later replaces the one before.
  pub follow_path-twice :
      (d : ℕ) (path path' : List (TransformStruct F)) (os : List (Entity F))
      → follow_path d path' (follow_path d path os) ≡ follow_path d path' os
  follow_path-twice d path path' [] = unfold follow_path in refl
  follow_path-twice d path path' (o ∷ os) = elim (Bool-cases (o.sessionid == d)) [
    | inr e ↦
        ap (follow_path d path') (skip_lem d path o os e)
        ∙ skip_lem d path' o (follow_path d path os) e
        ∙ ap (λ t. o ∷ t) (follow_path-twice d path path' os)
        ∙ sym (skip_lem d path' o os e)
    | inl e ↦ elim (Option-cases o.remote_controls) [
      | inl h ↦
          ap (follow_path d path') (local_lem d path o os h)
          ∙ local_lem d path' o (follow_path d path os) h
          ∙ ap (λ t. o ∷ t) (follow_path-twice d path path' os)
          ∙ sym (local_lem d path' o os h)
      | inr (r, h) ↦
          ap (follow_path d path') (hit_lem d path r o os e h)
          ∙ hit_lem d path' (record r { targets = reverse (map target_of path) })
              (followed path r o) (follow_path d [] os) (rw sessionid-placed e) refl
          ∙ ap₂ (λ x t. x ∷ t)
              (ap (with_remote (record r { targets = reverse (map target_of path') }))
                (placed_twice r (reverse (map target_of path)) o))
              (follow_path-twice d [] [] os)
          ∙ sym (hit_lem d path' r o os e h)
    ]
  ]

  -- An object that is given a path goes through its nodes in the order of the path: for a node that
  -- stands behind those of `front`, one call of `Next` more than `front` is long makes it the current
  -- target, and those behind it are still to come.
  pub follow_in_order :
      (front : List (TransformStruct F)) (t : TransformStruct F) (back : List (TransformStruct F))
      (r : RemoteController F) (o : Entity F)
      → calls_next front (follow (some r) (front ++ (t ∷ back)) o).0.remote_controls
        ≡ some (record r { target = target_of t; targets = reverse (map target_of back) })
  follow_in_order front t back r o =
      let path = front ++ (t ∷ back) in
      ap (λ (q : Entity F × List (TransformStruct F)). calls_next front q.0.remote_controls)
        (follow_lem path r o)
      ∙ calls_next_lem front t back (record r { targets = reverse (map target_of path) }) refl
