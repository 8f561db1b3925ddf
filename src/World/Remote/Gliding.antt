-- ===== src/World/Remote/Gliding.antt =====
-- The motion towards a target in `RemoteController.Move`.
use starfall.Base.{
  ◌≤◌, ◌≡◌, refl, ap, sym, ◌∙◌, Bool, true, false, if◌then◌else◌, reverse, arith, Bool-cases, inl,
  inr,
}
use starfall.World.Entities.{Target}
use starfall.World.Controls.{lean_angle}
use starfall.World.Remote.Motion.{Space, Mover, Frame, turned, translated, glide}
use starfall.World.Remote.Remaining.{IsAt, lean_forward-le}

module _ {F : Type 0} (sp : Space F) where
  -- The motion towards a target leaves the targets and the timer as they are.
  pub glide-controls :
      (f : Frame) (m : Mover F)
      → ((glide sp f m).controls ≡ m.controls) × ((glide sp f m).node_timer ≡ m.node_timer)
  unfolding glide
  glide-controls f m = ground arith

  pub glide-lean :
      (f : Frame) (m : Mover F) → m.lean ≤ lean_angle → (glide sp f m).lean ≤ lean_angle
  unfolding glide
  glide-lean f m h = ground (arith, lean_forward-le f.delta m.lean)

  pub near-position :
      (b : Bool) (x y : Mover F)
      → x.position ≡ y.position
      → (if b then x else y).position ≡ y.position
  near-position true x y h = h
  near-position false x y h = refl

  pub glide-position :
      (f : Frame) (m : Mover F)
      → m.position ≡ m.controls.target.position
      → (glide sp f m).position ≡ m.position
  unfolding glide
  glide-position f m h = elim (Bool-cases m.controls.target.initialized) [
    | inr e ↦ rw e refl
    | inl e ↦ elim (Bool-cases (sp.is_near m.position (translated sp f (turned sp f m)).position)) [
      | inl z ↦
          rw (e, z)
            (ap (λ p. sp.move_towards m.position p m.translate_speed f.dt) (sym h)
              ∙ sp.move_towards_self m.position m.translate_speed f.dt)
      | inr z ↦
          rw (e, z)
            (ap (λ p. sp.move_towards m.position p m.translate_speed f.dt) (sym h)
              ∙ sp.move_towards_self m.position m.translate_speed f.dt)
    ]
  ]

  pub turned-rotation :
      (f : Frame) (m : Mover F)
      → m.rotation ≡ m.controls.target.rotation
      → (turned sp f m).rotation ≡ m.rotation
  turned-rotation f m h = elim (Bool-cases (sp.is_zero m.rotate_speed)) [
    | inl e ↦ rw e refl
    | inr e ↦ rw e (
        ap (λ p. sp.rotate_towards m.rotation p m.rotate_speed f.dt) (sym h)
        ∙ sp.rotate_towards_self m.rotation m.rotate_speed f.dt)
  ]

  pub glide-rotation :
      (f : Frame) (m : Mover F)
      → m.rotation ≡ m.controls.target.rotation
      → (glide sp f m).rotation ≡ m.rotation
  unfolding glide
  glide-rotation f m h = elim (Bool-cases m.controls.target.initialized) [
    | inr e ↦ rw e refl
    | inl e ↦ elim (Bool-cases (sp.is_near m.position (translated sp f (turned sp f m)).position)) [
      | inl z ↦ rw (e, z) (turned-rotation f m h)
      | inr z ↦ rw (e, z) (turned-rotation f m h)
    ]
  ]

  -- An entity at its target stays there.
  pub glide-IsAt : (f : Frame) (t : Target F) (m : Mover F) → IsAt t m → IsAt t (glide sp f m)
  glide-IsAt f t m h =
      let (c, _) = glide-controls f m in
      record {
        target_eq = ap (λ r. r.target) c ∙ h.target_eq;
        no_targets = ap (λ r. reverse r.targets) c ∙ h.no_targets;
        position_eq =
            glide-position f m (h.position_eq ∙ ap (λ u. u.position) (sym h.target_eq))
            ∙ h.position_eq;
        rotation_eq =
            glide-rotation f m (h.rotation_eq ∙ ap (λ u. u.rotation) (sym h.target_eq))
            ∙ h.rotation_eq;
      }
