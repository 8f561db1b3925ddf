-- ===== src/World/Controls/Focus.antt =====
-- What the controls do while the player looks at a console.
use starfall.Base.{
  ℕ, ◌≡◌, refl, ap, ◌∙◌, List, [], ◌∷◌, Bool, true, false, ◌&&◌, ◌==◌, if◌then◌else◌, arith,
  Bool-cases, inl, inr,
}
use starfall.World.Controls.{
  Control, forward, brake, left, right, up, down, rollwest, rolleast, Controls, number, set_control,
  change_velocity, end_forward, lean_ended, continue_end_forward, Updater, key_down, key_up,
  state_on, state_off, escape_up, Input, criteria, run_update, update_controls,
}

-- The console has the focus, and the ship is not accelerated.
pub record Parked (c : Controls) : Type 0 where
  pub unfocussed : c.focussed ≡ false
  pub forward_off : c.states forward ≡ 0

turned-Parked :
    (k : Control) (s : ℕ) (c : Controls)
    → (number forward == number k) ≡ false
    → Parked c
    → Parked (set_control k s c)
turned-Parked k s c e p = record {
  unfocussed = p.unfocussed;
  forward_off = ap (λ b. if b then s else c.states forward) e ∙ p.forward_off;
}

change_velocity-Parked : (c : Controls) → Parked c → Parked (change_velocity c)
unfolding change_velocity
change_velocity-Parked c p = elim (Bool-cases (c.states forward == 1)) [
  | inl e ↦ rw e (record { unfocussed = p.unfocussed; forward_off = p.forward_off })
  | inr e ↦ rw e p
]

end_forward-Parked : (c : Controls) → Parked c → Parked (end_forward c)
unfolding end_forward
end_forward-Parked c p = elim (Bool-cases (c.states forward == 1)) [
  | inl e ↦ absurd (ground (arith, e, p.forward_off))
  | inr e ↦ rw e p
]

continue_end_forward-Parked :
    (delta : ℕ) (c : Controls) → Parked c → Parked (continue_end_forward delta c)
unfolding continue_end_forward
continue_end_forward-Parked delta c p = elim (Bool-cases (lean_ended c.lean)) [
  | inl e ↦ rw e (record { unfocussed = p.unfocussed; forward_off = refl })
  | inr e ↦ rw e (record { unfocussed = p.unfocussed; forward_off = p.forward_off })
]

-- A key going down is not noticed.
key_blocked : (b focus : Bool) → focus ≡ false → (b && focus) ≡ true → ⊥
key_blocked b focus h e = ground (arith, h, e)

run_update-Parked :
    (delta : ℕ) (i : Input) (u : Updater) (c : Controls)
    → i.escape ≡ false
    → criteria i c u ≡ true
    → Parked c
    → Parked (run_update delta u c)
unfolding criteria run_update
run_update-Parked delta i (key_down k) c h e p =
    absurd (key_blocked (i.pressed k) c.focussed p.unfocussed e)
run_update-Parked delta i escape_up c h e p = cc
run_update-Parked delta i (key_up forward) c h e p = end_forward-Parked c p
run_update-Parked delta i (key_up brake) c h e p = turned-Parked brake 2 c refl p
run_update-Parked delta i (key_up left) c h e p = turned-Parked left 2 c refl p
run_update-Parked delta i (key_up right) c h e p = turned-Parked right 2 c refl p
run_update-Parked delta i (key_up up) c h e p = turned-Parked up 2 c refl p
run_update-Parked delta i (key_up down) c h e p = turned-Parked down 2 c refl p
run_update-Parked delta i (key_up rollwest) c h e p = turned-Parked rollwest 2 c refl p
run_update-Parked delta i (key_up rolleast) c h e p = turned-Parked rolleast 2 c refl p
run_update-Parked delta i (state_on forward) c h e p = record {
  unfocussed = p.unfocussed;
  forward_off = p.forward_off;
}
run_update-Parked delta i (state_on brake) c h e p = turned-Parked brake 0 c refl p
run_update-Parked delta i (state_on left) c h e p = change_velocity-Parked c p
run_update-Parked delta i (state_on right) c h e p = change_velocity-Parked c p
run_update-Parked delta i (state_on up) c h e p = change_velocity-Parked c p
run_update-Parked delta i (state_on down) c h e p = change_velocity-Parked c p
run_update-Parked delta i (state_on rollwest) c h e p = change_velocity-Parked c p
run_update-Parked delta i (state_on rolleast) c h e p = change_velocity-Parked c p
run_update-Parked delta i (state_off forward) c h e p = continue_end_forward-Parked delta c p
run_update-Parked delta i (state_off brake) c h e p = turned-Parked brake 0 c refl p
run_update-Parked delta i (state_off left) c h e p = turned-Parked left 0 c refl p
run_update-Parked delta i (state_off right) c h e p = turned-Parked right 0 c refl p
run_update-Parked delta i (state_off up) c h e p = turned-Parked up 0 c refl p
run_update-Parked delta i (state_off down) c h e p = turned-Parked down 0 c refl p
run_update-Parked delta i (state_off rollwest) c h e p = turned-Parked rollwest 0 c refl p
run_update-Parked delta i (state_off rolleast) c h e p = turned-Parked rolleast 0 c refl p

-- While a console has the focus and the state of `forward` is 0, a frame without Escape leaves it so,
-- whatever is pressed and in whatever order the updaters run: the ship cannot be accelerated.
pub update_controls-Parked :
    (delta : ℕ) (i : Input) (us : List Updater) (c : Controls)
    → i.escape ≡ false
    → Parked c
    → Parked (update_controls delta i us c)
unfolding update_controls
update_controls-Parked delta i [] c h p = p
update_controls-Parked delta i (u ∷ us) c h p = elim (Bool-cases (criteria i c u)) [
  | inl e ↦ rw e (update_controls-Parked delta i us _ h (run_update-Parked delta i u c h e p))
  | inr e ↦ rw e (update_controls-Parked delta i us c h p)
]
