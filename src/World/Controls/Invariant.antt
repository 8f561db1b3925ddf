-- ===== src/World/Controls/Invariant.antt =====
-- What holds between the states of the controls after any frames.
use starfall.Base.{
  ℕ, ◌≤◌, ◌≡◌, refl, ap, sym, ◌∙◌, List, [], ◌∷◌, true, false, ◌==◌, leb, if◌then◌else◌, arith,
  Bool-cases, inl, inr,
}
use starfall.World.Controls.{
  Control, forward, brake, left, right, up, down, rollwest, rolleast, Controls, number, set_control,
  lean_angle, lean_forward, lean_back, lean_ended, change_velocity, begin_forward, end_forward,
  continue_end_forward, Updater, key_down, key_up, state_on, state_off, escape_up, Input, criteria,
  run_update, update_controls,
}

-- The jets show the state of `forward`; the ship was last given a velocity exactly in the state 1; it
-- leans by at most the maximum, and not at all in the state 0; and the state is one of the three.
pub record InStep (c : Controls) : Type 0 where
  pub three_states : c.states forward ≤ 2
  pub jets_alike : c.jets ≡ c.states forward
  pub moves_on : c.moving ≡ (c.states forward == 1)
  pub leans : leb c.lean (if c.states forward == 0 then 0 else lean_angle) ≡ true

-- The other keys do not matter to it.
same-InStep :
    (c c' : Controls)
    → c'.states forward ≡ c.states forward
    → c'.jets ≡ c.jets
    → c'.moving ≡ c.moving
    → c'.lean ≡ c.lean
    → InStep c
    → InStep c'
same-InStep c c' hs hj hm hl h = record {
  three_states = rw hs h.three_states;
  jets_alike = hj ∙ h.jets_alike ∙ sym hs;
  moves_on = hm ∙ h.moves_on ∙ ap (λ s. s == 1) (sym hs);
  leans = rw (hs, hl) h.leans;
}

turned-InStep :
    (k : Control) (s : ℕ) (c : Controls)
    → (number forward == number k) ≡ false
    → InStep c
    → InStep (set_control k s c)
turned-InStep k s c e h =
    same-InStep c (set_control k s c) (ap (λ b. if b then s else c.states forward) e) refl refl refl
      h

change_velocity-InStep : (c : Controls) → InStep c → InStep (change_velocity c)
unfolding change_velocity
change_velocity-InStep c h = elim (Bool-cases (c.states forward == 1)) [
  | inl e ↦ rw e (record {
    three_states = h.three_states;
    jets_alike = h.jets_alike;
    moves_on = sym e;
    leans = h.leans;
  })
  | inr e ↦ rw e h
]

begin_forward-InStep : (c : Controls) → InStep c → InStep (begin_forward c)
unfolding begin_forward change_velocity
begin_forward-InStep c h = elim (Bool-cases (c.states forward == 0)) [
  | inl e ↦
      rw e (record { three_states = omega arith; jets_alike = refl; moves_on = refl; leans = refl })
  | inr e ↦ rw e h
]

end_forward-InStep : (c : Controls) → InStep c → InStep (end_forward c)
unfolding end_forward
end_forward-InStep c h = elim (Bool-cases (c.states forward == 1)) [
  | inl e ↦ rw e (record {
    three_states = omega arith;
    jets_alike = refl;
    moves_on = refl;
    leans = ground (arith, e, h.leans);
  })
  | inr e ↦ rw e h
]

lean_bounded :
    (delta lean : ℕ) → leb lean lean_angle ≡ true → leb (lean_forward delta lean) lean_angle ≡ true
unfolding lean_forward
lean_bounded delta lean h = ground (arith, h)

state_on-InStep :
    (delta : ℕ) (c : Controls)
    → (c.states forward == 1) ≡ true
    → InStep c
    → InStep (record c { lean = lean_forward delta c.lean })
state_on-InStep delta c e h = record {
  three_states = h.three_states;
  jets_alike = h.jets_alike;
  moves_on = h.moves_on;
  leans = ground (arith, e, lean_bounded delta c.lean, h.leans);
}

lean_back_bounded : (delta lean b : ℕ) → leb lean b ≡ true → leb (lean_back delta lean) b ≡ true
unfolding lean_back
lean_back_bounded delta lean b h = ground (arith, h)

continue_end_forward-InStep :
    (delta : ℕ) (c : Controls)
    → (c.states forward == 2) ≡ true
    → InStep c
    → InStep (continue_end_forward delta c)
unfolding continue_end_forward
continue_end_forward-InStep delta c off h = elim (Bool-cases (lean_ended c.lean)) [
  | inl e ↦ rw e (record {
    three_states = omega arith;
    jets_alike = refl;
    moves_on = ground (arith, off, h.moves_on);
    leans = refl;
  })
  | inr e ↦ rw e (record {
    three_states = h.three_states;
    jets_alike = h.jets_alike;
    moves_on = h.moves_on;
    leans =
        lean_back_bounded delta c.lean (if c.states forward == 0 then 0 else lean_angle) h.leans;
  })
]

run_update-InStep :
    (delta : ℕ) (i : Input) (u : Updater) (c : Controls)
    → criteria i c u ≡ true
    → InStep c
    → InStep (run_update delta u c)
unfolding run_update criteria
run_update-InStep delta i (key_down forward) c e h = begin_forward-InStep c h
run_update-InStep delta i (key_down brake) c e h = turned-InStep brake 1 c refl h
run_update-InStep delta i (key_down left) c e h = turned-InStep left 1 c refl h
run_update-InStep delta i (key_down right) c e h = turned-InStep right 1 c refl h
run_update-InStep delta i (key_down up) c e h = turned-InStep up 1 c refl h
run_update-InStep delta i (key_down down) c e h = turned-InStep down 1 c refl h
run_update-InStep delta i (key_down rollwest) c e h = turned-InStep rollwest 1 c refl h
run_update-InStep delta i (key_down rolleast) c e h = turned-InStep rolleast 1 c refl h
run_update-InStep delta i (key_up forward) c e h = end_forward-InStep c h
run_update-InStep delta i (key_up brake) c e h = turned-InStep brake 2 c refl h
run_update-InStep delta i (key_up left) c e h = turned-InStep left 2 c refl h
run_update-InStep delta i (key_up right) c e h = turned-InStep right 2 c refl h
run_update-InStep delta i (key_up up) c e h = turned-InStep up 2 c refl h
run_update-InStep delta i (key_up down) c e h = turned-InStep down 2 c refl h
run_update-InStep delta i (key_up rollwest) c e h = turned-InStep rollwest 2 c refl h
run_update-InStep delta i (key_up rolleast) c e h = turned-InStep rolleast 2 c refl h
run_update-InStep delta i (state_on forward) c e h = state_on-InStep delta c e h
run_update-InStep delta i (state_on brake) c e h = turned-InStep brake 0 c refl h
run_update-InStep delta i (state_on left) c e h = change_velocity-InStep c h
run_update-InStep delta i (state_on right) c e h = change_velocity-InStep c h
run_update-InStep delta i (state_on up) c e h = change_velocity-InStep c h
run_update-InStep delta i (state_on down) c e h = change_velocity-InStep c h
run_update-InStep delta i (state_on rollwest) c e h = change_velocity-InStep c h
run_update-InStep delta i (state_on rolleast) c e h = change_velocity-InStep c h
run_update-InStep delta i (state_off forward) c e h = continue_end_forward-InStep delta c e h
run_update-InStep delta i (state_off brake) c e h = turned-InStep brake 0 c refl h
run_update-InStep delta i (state_off left) c e h = turned-InStep left 0 c refl h
run_update-InStep delta i (state_off right) c e h = turned-InStep right 0 c refl h
run_update-InStep delta i (state_off up) c e h = turned-InStep up 0 c refl h
run_update-InStep delta i (state_off down) c e h = turned-InStep down 0 c refl h
run_update-InStep delta i (state_off rollwest) c e h = turned-InStep rollwest 0 c refl h
run_update-InStep delta i (state_off rolleast) c e h = turned-InStep rolleast 0 c refl h
run_update-InStep delta i escape_up c e h =
    same-InStep c (record c { focussed = true; has_owner = false }) refl refl refl refl h

-- Whatever is pressed and released in a frame and in whatever order the updaters run, the jets show
-- the state of `forward`, the ship was given a velocity last exactly while it is 1, and the ship
-- leans by at most the maximum, and not at all while it is 0, if this held before the frame.
pub update_controls-InStep :
    (delta : ℕ) (i : Input) (us : List Updater) (c : Controls)
    → InStep c
    → InStep (update_controls delta i us c)
unfolding update_controls
update_controls-InStep delta i [] c h = h
update_controls-InStep delta i (u ∷ us) c h = elim (Bool-cases (criteria i c u)) [
  | inl e ↦ rw e (update_controls-InStep delta i us _ (run_update-InStep delta i u c e h))
  | inr e ↦ rw e (update_controls-InStep delta i us c h)
]
