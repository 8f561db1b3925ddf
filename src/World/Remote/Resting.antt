-- ===== src/World/Remote/Resting.antt =====
-- Where an entity comes to rest under `RemoteController.Move`.
use starfall.Base.{
  ℕ, ◌<◌, ◌≡◌, refl, subst, ap, sym, ◌∙◌, List, [], ◌∷◌, ◌==◌, length, All, true, false,
  if◌then◌else◌, arith, Bool-cases, ◌⊎◌, inl, inr,
}
use starfall.World.Entities.{Target}
use starfall.World.Timer.{down, is_done}
use starfall.World.Controls.{lean_back, lean_ended}
use starfall.World.Remote.Motion.{
  Space, Mover, Frame, next_node, at_target, restarted, node_done, glide, move, moves,
}
use starfall.World.Remote.Remaining.{final_of, stack, final, remaining, IsAt, IsReady}
use starfall.World.Remote.Gliding.{glide-IsAt}
use starfall.World.Remote.Leaving.{Progress, down-Progress, next_node-none, node-Progress}

module _ {F : Type 0} (sp : Space F) where
  -- The model stays at its target, over the end of a node too.
  node_done-IsAt : (f : Frame) (t : Target F) (m : Mover F) → IsAt t m → IsAt t (node_done sp f m)
  unfolding node_done
  node_done-IsAt f t m h = elim (Bool-cases (m.controls.target.action == 0)) [
    | inr z ↦ rw z (restarted-IsAt m h)
    | inl z ↦ elim (Bool-cases (lean_ended m.lean)) [
      | inl y ↦ rw (z, y) (restarted-IsAt (record m { jets = 0; lean = 0 }) (IsAt-lean m 0 0 h))
      | inr y ↦ rw (z, y) (IsAt-lean m 2 (lean_back f.delta m.lean) h)
    ]
  ]
    where
      IsAt-lean : (m : Mover F) (j l : ℕ) → IsAt t m → IsAt t (record m { jets = j; lean = l })
      IsAt-lean m j l h = record {
        target_eq = h.target_eq;
        no_targets = h.no_targets;
        position_eq = h.position_eq;
        rotation_eq = h.rotation_eq;
      }

      restarted-IsAt : (m : Mover F) → IsAt t m → IsAt t (restarted sp (next_node sp m))
      restarted-IsAt m h =
          let k = subst (IsAt t) (sym (next_node-none sp m h.no_targets)) h in
          record {
            target_eq = k.target_eq;
            no_targets = k.no_targets;
            position_eq = k.position_eq;
            rotation_eq = k.rotation_eq;
          }

  at_target-IsAt :
      (m : Mover F)
      → stack m ≡ []
      → m.controls.target.initialized ≡ true
      → IsAt m.controls.target (at_target sp m)
  at_target-IsAt m e i =
      rw i (record { target_eq = refl; no_targets = e; position_eq = refl; rotation_eq = refl })

  abbrev snapped : Mover F → Mover F
  snapped m = record m {
    position = m.controls.target.position;
    rotation = m.controls.target.rotation;
  }

  at_target-Progress :
      (f : Frame) (m : Mover F) (t : Target F) (ts : List (Target F))
      → 0 < f.delta
      → is_done m.node_timer ≡ true
      → stack m ≡ t ∷ ts
      → IsReady m
      → Progress m (glide sp f (node_done sp f (at_target sp m)))
  at_target-Progress f m t ts h d e r = by_set (Bool-cases m.controls.target.initialized)
    where
      by_set :
          (m.controls.target.initialized ≡ true) ⊎ (m.controls.target.initialized ≡ false)
          → Progress m (glide sp f (node_done sp f (at_target sp m)))
      by_set (inr i) =
          subst (λ b. Progress m (glide sp f (node_done sp f (if b then snapped m else m)))) (sym i)
            (node-Progress sp f m t ts h d e r)
      by_set (inl i) =
          let p =
            node-Progress sp f (snapped m) t ts h d e
              (record { lean_le = r.lean_le; final_set = r.final_set }) in
          subst (λ b. Progress m (glide sp f (node_done sp f (if b then snapped m else m)))) (sym i)
            (record { ready = p.ready; same_final = p.same_final; less = p.less })

  -- A frame brings the entity to its final target, or nearer to it in time.
  move-cases :
      (f : Frame) (m : Mover F)
      → 0 < f.dt
      → 0 < f.delta
      → IsReady m
      → IsAt (final m) (move sp f m) ⊎ Progress m (move sp f m)
  unfolding move
  move-cases f m h k r = elim (Bool-cases (is_done m.node_timer)) [
    | inr d ↦ rw d (inr (down-Progress sp f m h d r))
    | inl d ↦ rw d (done (stack m) refl d)
  ]
    where
      done :
          (s : List (Target F))
          → stack m ≡ s
          → is_done m.node_timer ≡ true
          → IsAt (final m) (glide sp f (node_done sp f (at_target sp m)))
            ⊎ Progress m (glide sp f (node_done sp f (at_target sp m)))
      done (t ∷ ts) e d = inr (at_target-Progress f m t ts k d e r)
      done [] e d =
          let last = ap (λ s. final_of s m.controls.target) e in
          inl (
            subst (λ t. IsAt t (glide sp f (node_done sp f (at_target sp m)))) (sym last)
              (glide-IsAt sp f m.controls.target (node_done sp f (at_target sp m)) (
                node_done-IsAt f m.controls.target (at_target sp m)
                  (at_target-IsAt m e (ap (λ t. t.initialized) (sym last) ∙ r.final_set)))))

  move-IsAt : (f : Frame) (t : Target F) (m : Mover F) → IsAt t m → IsAt t (move sp f m)
  unfolding move
  move-IsAt f t m h = elim (Bool-cases (is_done m.node_timer)) [
    | inr d ↦ rw d (
        glide-IsAt sp f t (record m { node_timer = down f.dt m.node_timer })
          (record {
            target_eq = h.target_eq;
            no_targets = h.no_targets;
            position_eq = h.position_eq;
            rotation_eq = h.rotation_eq;
          }))
    | inl d ↦ rw d (
        glide-IsAt sp f t (node_done sp f (at_target sp m)) (
          node_done-IsAt f t (at_target sp m)
            (snapped-IsAt (Bool-cases m.controls.target.initialized))))
  ]
    where
      snapped-IsAt :
          (m.controls.target.initialized ≡ true) ⊎ (m.controls.target.initialized ≡ false)
          → IsAt t (at_target sp m)
      snapped-IsAt (inr i) = subst (λ b. IsAt t (if b then snapped m else m)) (sym i) h
      snapped-IsAt (inl i) =
          subst (λ b. IsAt t (if b then snapped m else m)) (sym i)
            (record {
              target_eq = h.target_eq;
              no_targets = h.no_targets;
              position_eq = ap (λ u. u.position) h.target_eq;
              rotation_eq = ap (λ u. u.rotation) h.target_eq;
            })

  moves-IsAt : (fs : List Frame) (t : Target F) (m : Mover F) → IsAt t m → IsAt t (moves sp fs m)
  unfolding moves
  moves-IsAt [] t m h = h
  moves-IsAt (f ∷ fs) t m h = moves-IsAt fs t (move sp f m) (move-IsAt f t m h)

-- Whatever the lengths of the frames, if there are more of them than the bound counts, the entity has taken
-- all its targets and rests at the last of them: at its position and with its rotation. Each frame lasts a
-- microsecond at least and turns by a thousandth of a degree, and the last target is set.
pub moves-rests :
    {F : Type 0} (sp : Space F) (fs : List Frame) (m : Mover F)
    → All (λ f. (0 < f.dt) × (0 < f.delta)) fs
    → IsReady m
    → remaining m < length fs
    → IsAt (final m) (moves sp fs m)
unfolding moves
moves-rests sp [] m h r l = absurd (omega (arith, l))
moves-rests sp (f ∷ fs) m ((d, e), h) r l = elim (move-cases sp f m d e r) [
  | inl at ↦ moves-IsAt sp fs (final m) (move sp f m) at
  | inr p ↦
      subst (λ t. IsAt t (moves sp fs (move sp f m))) p.same_final
        (moves-rests sp fs (move sp f m) h p.ready (omega (arith, p.less, l)))
]
