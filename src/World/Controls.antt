-- ===== src/World/Controls.antt =====
-- class Controls and class PlayerController: the states of the keys and what one frame makes of them;
-- class Lean, whose angle is in thousandths of a degree. What the camera and the ship's rotation
-- become is left out.
pub mod Invariant
pub mod Focus
use starfall.Base.{
  ℕ, ◌+◌, ◌-◌, ◌≡◌, List, [], ◌∷◌, Option, none, some, Bool, true, false, not, ◌&&◌, ◌==◌, ltb,
  if◌then◌else◌,
}

-- The keys of `states`.
pub data Control : Type 0 where
  forward brake left right up down rollwest rolleast : Control

-- A state is 0 (off), 1 (on) or 2 (going off). `jets` is the state of the player's view, `moving` says
-- whether the last call on the ship's rigid body gave it a velocity, and `focussed` is as in the code.
pub record Controls : Type 0 where
  pub states : Control → ℕ
  pub lean : ℕ
  pub jets : ℕ
  pub moving : Bool
  pub focussed : Bool
  pub has_owner : Bool

abbrev pub new_controls : Controls
new_controls = record {
  states = λ k. 0;
  lean = 0;
  jets = 0;
  moving = false;
  focussed = true;
  has_owner = false;
}

abbrev pub number : Control → ℕ
number k = elim k [
  | forward ↦ 0
  | brake ↦ 1
  | left ↦ 2
  | right ↦ 3
  | up ↦ 4
  | down ↦ 5
  | rollwest ↦ 6
  | rolleast ↦ 7
]

-- `states[k] = s`
abbrev pub set_control : Control → ℕ → Controls → Controls
set_control k s c = record c { states = λ j. if number j == number k then s else c.states j }

-- `Lean.leanAngle`
abbrev pub lean_angle : ℕ
lean_angle = 20000

-- `Lean.Forward`, `Lean.Back` and `Lean.Ended`, over a frame in which the rate makes `delta`.
unfoldable pub lean_forward : ℕ → ℕ → ℕ
lean_forward delta lean =
    let next = lean + delta in
    if ltb lean lean_angle then (if ltb lean_angle next then lean_angle else next) else lean

unfoldable pub lean_back : ℕ → ℕ → ℕ
lean_back delta lean = if ltb lean delta then 0 else lean - delta

unfoldable pub lean_ended : ℕ → Bool
lean_ended lean = not (ltb 0 lean)

unfoldable pub change_velocity : Controls → Controls
change_velocity c = if c.states forward == 1 then record c { moving = true } else c

-- `OnBeginForward`, `OnEndForward` and `ContinueEndForward`
unfoldable pub begin_forward : Controls → Controls
begin_forward c =
    let c' = record (set_control forward 1 c) { jets = 1; lean = 0 } in
    if c.states forward == 0 then change_velocity c' else c

unfoldable pub end_forward : Controls → Controls
end_forward c =
    let c' = record (set_control forward 2 c) { jets = 2; moving = false } in
    if c.states forward == 1 then c' else c

unfoldable pub continue_end_forward : ℕ → Controls → Controls
continue_end_forward delta c =
    let off = record (set_control forward 0 c) { lean = 0; jets = 0 } in
    if lean_ended c.lean then off else record c { lean = lean_back delta c.lean }

-- The keys of `updates` that matter to the states: keys going down and up, and states that go on.
pub data Updater : Type 0 where
  key_down key_up state_on state_off : Control → Updater
  escape_up : Updater

-- What is pressed and released in a frame.
pub record Input : Type 0 where
  pub pressed : Control → Bool
  pub released : Control → Bool
  pub escape : Bool

-- Whether the function that is the key of `updates` returns true. The brake has no updater for its
-- release, and none for the state 2.
unfoldable pub criteria : Input → Controls → Updater → Bool
criteria i c (key_down k) = i.pressed k && c.focussed
criteria i c (key_up brake) = false
criteria i c (key_up k) = i.released k
criteria i c (state_on k) = c.states k == 1
criteria i c (state_off brake) = false
criteria i c (state_off k) = c.states k == 2
criteria i c escape_up = i.escape

-- The function that `updates` holds under that key, on the player's model and view.
unfoldable pub run_update : ℕ → Updater → Controls → Controls
run_update delta (key_down forward) c = begin_forward c
run_update delta (key_down k) c = set_control k 1 c
run_update delta (key_up forward) c = end_forward c
run_update delta (key_up k) c = set_control k 2 c
run_update delta (state_on forward) c = record c { lean = lean_forward delta c.lean }
run_update delta (state_on brake) c = set_control brake 0 c
run_update delta (state_on k) c = change_velocity c
run_update delta (state_off forward) c = continue_end_forward delta c
run_update delta (state_off k) c = set_control k 0 c
run_update delta escape_up c = record c { focussed = true; has_owner = false }

-- `Update` while the player has an entity, with the keys of `updates` in the order `us`, which a
-- Hashtable leaves open.
unfoldable pub update_controls : ℕ → Input → List Updater → Controls → Controls
update_controls delta i [] c = c
update_controls delta i (u ∷ us) c =
    update_controls delta i us (if criteria i c u then run_update delta u c else c)
