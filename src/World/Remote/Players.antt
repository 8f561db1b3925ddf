-- ===== src/World/Remote/Players.antt =====
-- The paths that arrive do not touch the player's entity.
use starfall.Base.{
  ℕ, ◌≡◌, refl, ap, sym, ◌∙◌, List, [], ◌∷◌, false, ◌==◌, filter, All, Bool-cases, Option-cases,
  inl, inr, reverse, if◌then◌else◌,
}
use starfall.Network.Structs.{TransformStruct, TransformEntityStruct}
use starfall.World.Entities.{RemoteController, Entity, World, user_of}
use starfall.World.Creating.{is_none}
use starfall.World.Creating.Populated.{Populated, is_player}
use starfall.World.Remote.{follow_path, add_remote_controls}
use starfall.World.Remote.Following.{followed, placed, skip_lem, local_lem, hit_lem}
use starfall.World.Remote.Order.{led, add_remote_controls_lem}

module _ {F : Type 0} where
  -- All but the entity of mode 2 are controlled remotely.
  abbrev pub OthersRemote : List (Entity F) → Type 0
  OthersRemote os = All (λ o. is_none o.remote_controls ≡ is_player o) os

  mode-placed : (r : RemoteController F) (o : Entity F) → (placed r o).mode ≡ o.mode
  mode-placed r o = elim (Bool-cases r.target.initialized) [ inl e ↦ rw e | inr e ↦ rw e ]

  -- `after` has the players of `before`.
  abbrev pub SamePlayers : List (Entity F) → List (Entity F) → Type 0
  SamePlayers before after = (filter is_player after ≡ filter is_player before) × OthersRemote after

  pub same_head :
      (o : Entity F) (os os' : List (Entity F))
      → (is_none o.remote_controls ≡ is_player o)
      → SamePlayers os os'
      → SamePlayers (o ∷ os) (o ∷ os')
  same_head o os os' ho (hs, rest) = (ap (λ t. if is_player o then o ∷ t else t) hs, (ho, rest))

  pub other_head :
      (o o' : Entity F) (os os' : List (Entity F))
      → is_player o ≡ false
      → is_none o'.remote_controls ≡ false
      → o'.mode ≡ o.mode
      → SamePlayers os os'
      → SamePlayers (o ∷ os) (o' ∷ os')
  other_head o o' os os' ho ho' hm (hs, rest) =
      let other : is_player o' ≡ false = ap (λ m. m == 2) hm ∙ ho in
      (rw (ho, other) hs, (ho' ∙ sym other, rest))

  follow_path-SamePlayers :
      (d : ℕ) (path : List (TransformStruct F)) (os : List (Entity F))
      → OthersRemote os
      → SamePlayers os (follow_path d path os)
  follow_path-SamePlayers d path [] h = unfold follow_path in (refl, tt)
  follow_path-SamePlayers d path (o ∷ os) (ho, hs) = elim (Bool-cases (o.sessionid == d)) [
    | inr e ↦
        rw (skip_lem d path o os e) (same_head o os _ ho (follow_path-SamePlayers d path os hs))
    | inl e ↦ elim (Option-cases o.remote_controls) [
      | inl none_there ↦
          rw (local_lem d path o os none_there)
            (same_head o os _ ho (follow_path-SamePlayers d path os hs))
      | inr (r, there) ↦ rw (hit_lem d path r o os e there) (
          other_head o (followed path r o) os _ (sym ho ∙ ap is_none there) refl (mode-placed r o)
            (follow_path-SamePlayers d [] os hs))
    ]
  ]

  led-SamePlayers :
      (ts : List (TransformEntityStruct F)) (os : List (Entity F))
      → OthersRemote os
      → SamePlayers os (led ts os)
  led-SamePlayers [] os h = (refl, h)
  led-SamePlayers (t ∷ ts) os h =
      let (once, others) = follow_path-SamePlayers t.sessionid t.path os h in
      let (rest, others') = led-SamePlayers ts (follow_path t.sessionid t.path os) others in
      (rest ∙ once, others')

-- The paths keep the invariant of the world.
pub add_remote_controls-Populated :
    {F N : Type 0} (w : World F N) → Populated w → Populated (add_remote_controls w)
add_remote_controls-Populated w h =
    let (same, others) =
      led-SamePlayers (reverse (user_of w).transform_entity_queue) w.objects h.others_remote in
    rw (add_remote_controls_lem w)
      (record { one_player = same ∙ h.one_player; others_remote = others })
