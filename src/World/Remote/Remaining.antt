-- ===== src/World/Remote/Remaining.antt =====
-- A bound on the frames in which an entity takes its targets under `RemoteController.Move`.
use starfall.Base.{
  ℕ, zero, suc, ◌+◌, ◌*◌, ◌≤◌, ◌<◌, ◌≡◌, refl, List, [], ◌∷◌, leb, length, true, false, reverse,
  arith,
}
use starfall.World.Entities.{Target}
use starfall.World.Timer.{Timer, down, is_done}
use starfall.World.Controls.{lean_angle, lean_forward, lean_back, lean_ended}
use starfall.World.Remote.Motion.{Mover}

pub down-limit : (dt : ℕ) (t : Timer) → (down dt t).limit ≡ t.limit
unfolding down
down-limit dt t = ground arith

pub add-lt : (a b c : ℕ) → b < c → a + b < a + c
add-lt a b c h = omega (arith, h)

pub pop-lt :
    (l limit x y : ℕ)
    → x ≤ limit + lean_angle
    → l * (limit + lean_angle + 1) + x < suc l * (limit + lean_angle + 1) + y
pop-lt l limit x y h = grind arith

-- The last target of a stack that is popped from its head, after the current one.
abbrev pub final_of {ℓ} : {A : Type ℓ} → List A → A → A
final_of [] t = t
final_of (x ∷ xs) t = final_of xs x

-- The time, and the angle of leaning, that the current node may still take.
abbrev pub rest_of_node : ℕ → ℕ → ℕ
rest_of_node zero lean = lean
rest_of_node (suc c) lean = suc c + lean_angle

module _ {F : Type 0} where
  abbrev pub stack : Mover F → List (Target F)
  stack m = reverse m.controls.targets

  abbrev pub final : Mover F → Target F
  final m = final_of (stack m) m.controls.target

  -- A bound on the frames until the entity rests, each of which lasts a microsecond at least.
  abbrev pub remaining : Mover F → ℕ
  remaining m =
      length (stack m) * (m.node_timer.limit + lean_angle + 1)
      + rest_of_node m.node_timer.current m.lean

  -- No targets are left, and the model is at the current one.
  pub record IsAt (t : Target F) (m : Mover F) : Type 0 where
    pub target_eq : m.controls.target ≡ t
    pub no_targets : stack m ≡ []
    pub position_eq : m.position ≡ t.position
    pub rotation_eq : m.rotation ≡ t.rotation

  -- The entity leans no further than it may, and all its targets are set.
  pub record IsReady (m : Mover F) : Type 0 where
    pub lean_le : m.lean ≤ lean_angle
    pub final_set : (final m).initialized ≡ true

pub lean_forward-le : (delta lean : ℕ) → lean ≤ lean_angle → lean_forward delta lean ≤ lean_angle
unfolding lean_forward
lean_forward-le delta lean h = ground arith

pub lean_back-lt :
    (delta lean : ℕ) → 0 < delta → lean_ended lean ≡ false → lean_back delta lean < lean
unfolding lean_back lean_ended
lean_back-lt delta lean h e = ground arith

pub rest_of_node-le :
    (c lean limit : ℕ) → c ≤ limit → lean ≤ lean_angle → rest_of_node c lean ≤ limit + lean_angle
rest_of_node-le zero lean limit h l = omega (arith, h, l)
rest_of_node-le (suc c) lean limit h l = omega (arith, h, l)

pub rest_of_node-more : (c lean : ℕ) → 0 < c → rest_of_node c lean ≡ c + lean_angle
rest_of_node-more zero lean h = absurd (omega (arith, h))
rest_of_node-more (suc c) lean h = refl

pub rest_of_node-most : (c lean : ℕ) → lean ≤ lean_angle → rest_of_node c lean ≤ c + lean_angle
rest_of_node-most zero lean h = omega (arith, h)
rest_of_node-most (suc c) lean h = omega arith

pub rest_of_node-done :
    (t : Timer) (a b : ℕ)
    → is_done t ≡ true
    → a < b
    → rest_of_node t.current a < rest_of_node t.current b
unfolding is_done
rest_of_node-done t a b d h = done t.current d
  where
    done : (c : ℕ) → leb c 0 ≡ true → rest_of_node c a < rest_of_node c b
    done zero e = h
    done (suc c) e = ground (arith, e)

pub down-lt : (dt : ℕ) (t : Timer) → 0 < dt → is_done t ≡ false → (down dt t).current < t.current
unfolding is_done down
down-lt dt t h d = ground arith

pub rest_of_node-down :
    (dt lean lean' : ℕ) (t : Timer)
    → 0 < dt
    → is_done t ≡ false
    → lean' ≤ lean_angle
    → rest_of_node (down dt t).current lean' < rest_of_node t.current lean
rest_of_node-down dt lean lean' t h d l =
    let lt = down-lt dt t h d in
    omega (
      arith,
      rest_of_node-more t.current lean (omega (arith, lt)),
      rest_of_node-most (down dt t).current lean' l,
      lt,
    )
