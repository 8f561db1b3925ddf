-- ===== src/World/Remote/Leaving.antt =====
-- The end of a node in `RemoteController.Move`, after which the next target is taken.
use starfall.Base.{
  ℕ, ◌+◌, ◌*◌, ◌≤◌, ◌<◌, ◌≡◌, refl, subst, ap, ap₂, sym, ◌∙◌, List, [], ◌∷◌, ◌==◌, length, Bool,
  true, false, if◌then◌else◌, reverse, reverse-reverse, arith, Bool-cases, inl, inr,
}
use starfall.World.Entities.{Target, RemoteController}
use starfall.World.Timer.{Timer, down, is_done, reset}
use starfall.World.Controls.{lean_angle, lean_back, lean_ended}
use starfall.World.Remote.{next, next_of}
use starfall.World.Remote.Motion.{
  Space, Mover, Frame, next_target, next_node, restarted, node_done, glide,
}
use starfall.World.Remote.Remaining.{
  down-limit, add-lt, pop-lt, final_of, rest_of_node, stack, final, remaining, IsReady,
  lean_back-lt, rest_of_node-le, rest_of_node-done, rest_of_node-down,
}
use starfall.World.Remote.Gliding.{glide-controls, glide-lean}

pub begun-le : (b : Bool) (lean : ℕ) → lean ≤ lean_angle → (if b then lean else 0) ≤ lean_angle
begun-le true lean h = h
begun-le false lean h = omega arith

module _ {F : Type 0} where
  -- A frame on the way: the stack, the final target and the bound.
  pub record Progress (m m' : Mover F) : Type 0 where
    pub ready : IsReady m'
    pub same_final : final m' ≡ final m
    pub less : remaining m' < remaining m

  -- The bound of a state whose node may still take `r`.
  abbrev pub bound : Mover F → ℕ → ℕ
  bound m r = length (stack m) * (m.node_timer.limit + lean_angle + 1) + r

module _ {F : Type 0} (sp : Space F) where
  pub glide-remaining :
      (f : Frame) (m : Mover F)
      → remaining (glide sp f m) ≡ bound m (rest_of_node m.node_timer.current (glide sp f m).lean)
  glide-remaining f m =
      let (c, t) = glide-controls sp f m in
      ap₂
        (λ (r : RemoteController F) (u : Timer).
          length (reverse r.targets) * (u.limit + lean_angle + 1)
          + rest_of_node u.current (glide sp f m).lean)
        c t

  pub glide-final : (f : Frame) (m : Mover F) → final (glide sp f m) ≡ final m
  glide-final f m =
      let (c, _) = glide-controls sp f m in
      ap (λ (r : RemoteController F). final_of (reverse r.targets) r.target) c

  -- What the first half of a frame gained, the motion keeps.
  pub glide-Progress :
      (f : Frame) (m n : Mover F)
      → n.lean ≤ lean_angle
      → final n ≡ final m
      → IsReady m
      → bound n (rest_of_node n.node_timer.current (glide sp f n).lean) < remaining m
      → Progress m (glide sp f n)
  glide-Progress f m n l e r h =
      let same = glide-final f n ∙ e in
      record {
        ready = record {
          lean_le = glide-lean sp f n l;
          final_set = ap (λ t. t.initialized) same ∙ r.final_set;
        };
        same_final = same;
        less = subst (λ k. k < remaining m) (sym (glide-remaining f n)) h;
      }

  pub down-Progress :
      (f : Frame) (m : Mover F)
      → 0 < f.dt
      → is_done m.node_timer ≡ false
      → IsReady m
      → Progress m (glide sp f (record m { node_timer = down f.dt m.node_timer }))
  down-Progress f m h d r =
      let n = record m { node_timer = down f.dt m.node_timer } in
      let lean' = (glide sp f n).lean in
      glide-Progress f m n r.lean_le refl r (
        subst
          (λ k.
            length (stack m) * (k + lean_angle + 1) + rest_of_node n.node_timer.current lean'
            < remaining m)
          (sym (down-limit f.dt m.node_timer))
          (add-lt (length (stack m) * (m.node_timer.limit + lean_angle + 1)) _ _
            (rest_of_node-down f.dt m.lean lean' m.node_timer h d (glide-lean sp f n r.lean_le))))

  pub parked-lean :
      (f : Frame) (m : Mover F)
      → (m.controls.target.action == 0) ≡ true
      → (glide sp f m).lean ≡ m.lean
  unfolding glide
  parked-lean f m h = ground (arith, h)

  pub next_node-none : (m : Mover F) → stack m ≡ [] → next_node sp m ≡ m
  unfolding next_node
  next_node-none m e = ap (λ s. next_target sp s m) e

  pub next_node-controls :
      (m : Mover F) (t : Target F) (ts : List (Target F))
      → stack m ≡ t ∷ ts
      → (next_node sp m).controls ≡ next m.controls
  unfolding next_node
  next_node-controls m t ts e = ap (λ s. (next_target sp s m).controls) e

  pub next_node-timer :
      (m : Mover F) (s : List (Target F)) → stack m ≡ s → (next_node sp m).node_timer ≡ m.node_timer
  unfolding next_node
  next_node-timer m [] e = ap (λ s. (next_target sp s m).node_timer) e
  next_node-timer m (t ∷ ts) e = ap (λ s. (next_target sp s m).node_timer) e

  pub next_node-lean :
      (m : Mover F) (s : List (Target F))
      → stack m ≡ s
      → m.lean ≤ lean_angle
      → (next_node sp m).lean ≤ lean_angle
  unfolding next_node
  next_node-lean m [] e h = subst (λ s. (next_target sp s m).lean ≤ lean_angle) (sym e) h
  next_node-lean m (t ∷ ts) e h =
      subst (λ s. (next_target sp s m).lean ≤ lean_angle) (sym e)
        (begun-le m.controls.target.initialized m.lean h)

  pub next-popped :
      (r : RemoteController F) (t : Target F) (ts : List (Target F))
      → reverse r.targets ≡ t ∷ ts
      → ((next r).target ≡ t) × (reverse (next r).targets ≡ ts)
  unfolding next
  next-popped r t ts e = (
    ap (λ s. (next_of s r).target) e,
    ap (λ s. reverse (next_of s r).targets) e ∙ reverse-reverse ts,
  )

  -- A node that is left: the next target, over the whole time of a node.
  pub pop-Progress :
      (f : Frame) (m n : Mover F) (t : Target F) (ts : List (Target F))
      → IsReady m
      → stack m ≡ t ∷ ts
      → n.controls ≡ next m.controls
      → n.node_timer ≡ reset m.node_timer
      → n.lean ≤ lean_angle
      → Progress m (glide sp f n)
  unfolding reset
  pop-Progress f m n t ts r e c u l =
      let (first, others) = next-popped m.controls t ts e in
      let lean' = (glide sp f n).lean in
      let limit = m.node_timer.limit in
      let left = ap (λ r. reverse r.targets) c ∙ others in
      glide-Progress f m n l
        (ap₂ final_of left (ap (λ r. r.target) c ∙ first)
          ∙ ap (λ s. final_of s m.controls.target) (sym e))
        r
        (subst (λ k. k < remaining m)
          (sym (
            ap₂
              (λ (s : List (Target F)) (v : Timer).
                length s * (v.limit + lean_angle + 1) + rest_of_node v.current lean')
              left u))
          (subst
            (λ s.
              length ts * (limit + lean_angle + 1) + rest_of_node limit lean'
              < length s * (limit + lean_angle + 1) + rest_of_node m.node_timer.current m.lean)
            (sym e)
            (pop-lt (length ts) limit (rest_of_node limit lean')
              (rest_of_node m.node_timer.current m.lean)
              (rest_of_node-le limit lean' limit (omega arith) (glide-lean sp f n l)))))

  -- When the time of a node is over and others come.
  pub node-Progress :
      (f : Frame) (m : Mover F) (t : Target F) (ts : List (Target F))
      → 0 < f.delta
      → is_done m.node_timer ≡ true
      → stack m ≡ t ∷ ts
      → IsReady m
      → Progress m (glide sp f (node_done sp f m))
  unfolding node_done
  node-Progress f m t ts h d e r = elim (Bool-cases (m.controls.target.action == 0)) [
    | inr z ↦ rw z (
        pop-Progress f m (restarted sp (next_node sp m)) t ts r e (next_node-controls m t ts e)
          (ap reset (next_node-timer m (t ∷ ts) e)) (next_node-lean m (t ∷ ts) e r.lean_le))
    | inl z ↦ elim (Bool-cases (lean_ended m.lean)) [
      | inl y ↦
          let parked = record m { jets = 0; lean = 0 } in
          rw (z, y)
            (pop-Progress f m (restarted sp (next_node sp parked)) t ts r e
              (next_node-controls parked t ts e) (ap reset (next_node-timer parked (t ∷ ts) e))
              (next_node-lean parked (t ∷ ts) e (omega arith)))
      | inr y ↦
          let n = record m { lean = lean_back f.delta m.lean; jets = 2 } in
          let lt = lean_back-lt f.delta m.lean h y in
          rw (z, y)
            (glide-Progress f m n (omega (arith, lt, r.lean_le)) refl r (
              add-lt (length (stack m) * (m.node_timer.limit + lean_angle + 1)) _ _ (
                rest_of_node-done m.node_timer (glide sp f n).lean m.lean d
                  (subst (λ k. k < m.lean) (sym (parked-lean f n z)) lt))))
    ]
  ]
