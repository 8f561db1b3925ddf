-- ===== src/World/Remote/Tests.antt =====
-- An entity that moves to its last target, over frames of a millisecond.
use starfall.Base.{
  ℕ, ◌<◌, ◌≡◌, refl, [], ◌∷◌, All, replicate, length, true, false, arith, zero, suc,
}
use starfall.World.Entities.{Target}
use starfall.World.Timer.{new_timer}
use starfall.World.Remote.Motion.{Space, Mover, Frame, moves}
use starfall.World.Remote.Remaining.{IsAt, IsReady, remaining}
use starfall.World.Remote.Resting.{moves-rests}

-- A space in which one step reaches the target.
abbrev direct : Space ℕ
direct = record {
  speed = λ p q limit. 1;
  turn_speed = λ p q limit. 0;
  is_zero = λ s. false;
  move_towards = λ p q s dt. q;
  rotate_towards = λ p q s dt. q;
  is_near = λ p q. false;
  move_towards_self = λ p s dt. refl;
  rotate_towards_self = λ q s dt. refl;
}

abbrev place : ℕ → Target ℕ
place n = record {
  action = 1;
  position = record { x = n; y = 0; z = 0 };
  rotation = record { x = 0; y = 0; z = 0; w = n };
  initialized = true;
}

abbrev mover : Mover ℕ
mover = record {
  controls = record {
    target = place 1;
    targets = place 3 ∷ (place 2 ∷ []);
    motion = record {
      translate_speed = 1;
      rotate_speed = 1;
      node_timer = new_timer 100000;
      lean = 0;
      jets = 0;
    };
  };
  position = record { x = 0; y = 0; z = 0 };
  rotation = record { x = 0; y = 0; z = 0; w = 1 };
  translate_speed = 1;
  rotate_speed = 1;
  node_timer = new_timer 100000;
  lean = 0;
  jets = 0;
}

abbrev millisecond : Frame
millisecond = record { dt = 1000; delta = 30 }

length-replicate : (n : ℕ) (f : Frame) → length (replicate n f) ≡ n
length-replicate zero f = refl
length-replicate (suc n) f = omega (arith, length-replicate n f)

All-replicate :
    (n : ℕ) (f : Frame)
    → 0 < f.dt
    → 0 < f.delta
    → All (λ g. (0 < g.dt) × (0 < g.delta)) (replicate n f)
All-replicate zero f h k = tt
All-replicate (suc n) f h k = ((h, k), All-replicate n f h k)

mover-IsReady : IsReady mover
mover-IsReady = record { lean_le = omega arith; final_set = refl }

enough : remaining mover < length (replicate 400000 millisecond)
enough = omega (arith, length-replicate 400000 millisecond)

moves-rests_example : IsAt (place 3) (moves direct (replicate 400000 millisecond) mover)
moves-rests_example =
    moves-rests direct (replicate 400000 millisecond) mover
      (All-replicate 400000 millisecond (omega arith) (omega arith)) mover-IsReady enough
