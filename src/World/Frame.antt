-- ===== src/World/Frame.antt =====
-- `World.Update`: what a frame does with the world, and what it keeps.
use starfall.Base.{
  ℕ, ◌≡◌, refl, ap, sym, ◌∙◌, List, [], ◌∷◌, Option, none, some, Bool, true, false, if◌then◌else◌,
}
use starfall.Base.Action.{Action, Result, ok, fault, resume, modify, ◌>>◌}
use starfall.Network.Runtime.{Floats}
use starfall.Network.Client.{TcpClient, send_packets}
use starfall.World.Timer.{down, is_done, reset}
use starfall.World.Entities.{RemoteController, Entity, World}
use starfall.World.Destroying.{update_destroy_entities}
use starfall.World.Creating.{is_none, update_create_entities}
use starfall.World.Creating.Populated.{Populated, is_player, update_create_entities-Populated}
use starfall.World.Remote.Motion.{Space, Frame, move_all, moved_by, update_remote_controls}
use starfall.World.Remote.Players.{
  SamePlayers, OthersRemote, same_head, other_head, add_remote_controls-Populated,
}
use starfall.World.Destroying.Kept.{update_destroy_entities-Populated, same-Populated}
use starfall.World.Session.{
  add_node, on_client, path_timer_update, session_timer_update, request_objects, check_objects,
  update_session, send_path, path_of, update_path, run_timers, update_timers,
}

-- `World.Update`, less its last line, which moves the player by the state of Controls. The time of a frame
-- counts for the motion and for the timers.
unfoldable pub update :
    {F N : Type 0}
    → Floats F
    → Space F
    → TcpClient N
    → F
    → Frame
    → ℕ
    → Action (World F N) (Unit {0})
update fl sp tcp far f forward w =
    if w.stopped
    then (ok tt, w)
    else (do
      update_destroy_entities
      modify (update_create_entities fl)
      modify (update_remote_controls sp f)
      update_timers fl tcp far f.dt forward)
        w

module _ {F : Type 0} (sp : Space F) where
  moved-SamePlayers :
      (f : Frame) (o : Entity F) (r : Option (RemoteController F)) (os os' : List (Entity F))
      → o.remote_controls ≡ r
      → is_none r ≡ is_player o
      → SamePlayers os os'
      → SamePlayers (o ∷ os) (moved_by sp f r o ∷ os')
  moved-SamePlayers f o none os os' e h s = same_head o os os' (ap is_none e ∙ h) s
  moved-SamePlayers f o (some r) os os' e h s =
      other_head o (moved_by sp f (some r) o) os os' (sym h) refl refl s

  move_all-SamePlayers :
      (f : Frame) (os : List (Entity F)) → OthersRemote os → SamePlayers os (move_all sp f os)
  unfolding move_all
  move_all-SamePlayers f [] h = (refl, tt)
  move_all-SamePlayers f (o ∷ os) (h, hs) =
      moved-SamePlayers f o o.remote_controls os (move_all sp f os) refl h
        (move_all-SamePlayers f os hs)

  pub update_remote_controls-Populated :
      {N : Type 0} (f : Frame) (w : World F N)
      → Populated w
      → Populated (update_remote_controls sp f w)
  unfolding update_remote_controls
  update_remote_controls-Populated f w h =
      let (same, others) = move_all-SamePlayers f w.objects h.others_remote in
      add_remote_controls-Populated (record w { objects = move_all sp f w.objects })
        (record { one_player = same ∙ h.one_player; others_remote = others })

module _ {F N : Type 0} where
  -- What leaves the objects and the player's entity alone.
  abbrev Kept : World F N → World F N → Type 0
  Kept w w' = (w'.objects ≡ w.objects) × (w'.entity ≡ w.entity)

  abbrev Keeps : Action (World F N) (Unit {0}) → Type 0
  Keeps m = (w : World F N) → Kept w (m w).1

  resume-Kept :
      (k : Action (World F N) (Unit {0})) (w : World F N) (r : Result (Unit {0}) × World F N)
      → Keeps k
      → Kept w r.1
      → Kept w (resume (λ _. k) r).1
  resume-Kept k w (ok a, w') h (o, e) = let (o', e') = h w' in (o' ∙ o, e' ∙ e)
  resume-Kept k w (fault x, w') h (o, e) = (o, e)

  then-Keeps : (m k : Action (World F N) (Unit {0})) → Keeps m → Keeps k → Keeps (m >> k)
  then-Keeps m k h h' w = resume-Kept k w (m w) h' (h w)

  if-Kept :
      (b : Bool) (w : World F N) (x y : Result (Unit {0}) × World F N)
      → Kept w x.1
      → Kept w y.1
      → Kept w (if b then x else y).1
  if-Kept true w x y h k = h
  if-Kept false w x y h k = k

  path_timer_update-Keeps :
      (dt : ℕ) (m : Action (World F N) (Unit {0})) → Keeps m → Keeps (path_timer_update dt m)
  unfolding path_timer_update
  path_timer_update-Keeps dt m h w =
      let w' = record w { path_timer = down dt w.path_timer } in
      if-Kept (is_done (down dt w.path_timer)) w _ _
        (then-Keeps m (modify (λ v. record v { path_timer = reset v.path_timer })) h
          (λ v. (refl, refl)) w')
        (refl, refl)

  session_timer_update-Keeps :
      (dt : ℕ) (m : Action (World F N) (Unit {0})) → Keeps m → Keeps (session_timer_update dt m)
  unfolding session_timer_update
  session_timer_update-Keeps dt m h w =
      let w' = record w { session_timer = down dt w.session_timer } in
      if-Kept (is_done (down dt w.session_timer)) w _ _
        (then-Keeps m (modify (λ v. record v { session_timer = reset v.session_timer })) h
          (λ v. (refl, refl)) w')
        (refl, refl)

  choose-Kept : (b : Bool) (w x y : World F N) → Kept w x → Kept w y → Kept w (if b then x else y)
  choose-Kept true w x y h k = h
  choose-Kept false w x y h k = k

module _ {F N : Type 0} (fl : Floats F) where
  path_of-Keeps : (forward : ℕ) (o : Option (Entity F)) → Keeps {N = N} (path_of fl forward o)
  unfolding send_path add_node
  path_of-Keeps forward none w = (refl, refl)
  path_of-Keeps forward (some me) w = choose-Kept _ w _ _ (refl, refl) (refl, refl)

  update_path-Keeps : (forward : ℕ) → Keeps {N = N} (update_path fl forward)
  unfolding update_path
  update_path-Keeps forward w = path_of-Keeps forward w.entity w

  check_objects-Kept : (far : F) (w : World F N) → Kept w (check_objects fl far w)
  unfolding check_objects request_objects
  check_objects-Kept far w = choose-Kept _ w _ _ (refl, refl) (refl, refl)

  update_session-Keeps : (tcp : TcpClient N) (far : F) → Keeps (update_session fl tcp far)
  unfolding update_session
  update_session-Keeps tcp far =
      then-Keeps (modify (check_objects fl far)) (on_client (send_packets tcp))
        (check_objects-Kept far) (λ w. (refl, refl))

  run_timers-Keeps :
      (tcp : TcpClient N) (far : F) (dt forward : ℕ) (o : Option (Entity F))
      → Keeps (run_timers fl tcp far dt forward o)
  run_timers-Keeps tcp far dt forward none w = (refl, refl)
  run_timers-Keeps tcp far dt forward (some me) w =
      then-Keeps (path_timer_update dt (update_path fl forward))
        (session_timer_update dt (update_session fl tcp far))
        (path_timer_update-Keeps dt (update_path fl forward) (update_path-Keeps forward))
        (session_timer_update-Keeps dt (update_session fl tcp far) (update_session-Keeps tcp far)) w

  update_timers-Populated :
      (tcp : TcpClient N) (far : F) (dt forward : ℕ) (w : World F N)
      → Populated w
      → Populated (update_timers fl tcp far dt forward w).1
  unfolding update_timers
  update_timers-Populated tcp far dt forward w h =
      let (o, e) = run_timers-Keeps tcp far dt forward w.entity w in same-Populated w _ o e h

  -- After the destroying, which may throw.
  rest-Populated :
      (sp : Space F) (tcp : TcpClient N) (far : F) (f : Frame) (forward : ℕ)
      (r : Result (Unit {0}) × World F N)
      → Populated r.1
      → Populated
          (resume
            (λ _.
              modify (update_create_entities fl)
              >> (modify (update_remote_controls sp f) >> update_timers fl tcp far f.dt forward))
            r).1
  rest-Populated sp tcp far f forward (fault x, w) h = h
  rest-Populated sp tcp far f forward (ok a, w) h = update_timers-Populated tcp far f.dt forward _ (
      update_remote_controls-Populated sp f (update_create_entities fl w)
        (update_create_entities-Populated fl w h))

  if-Populated :
      (b : Bool) (x y : Result (Unit {0}) × World F N)
      → Populated x.1
      → Populated y.1
      → Populated (if b then x else y).1
  if-Populated true x y h k = h
  if-Populated false x y h k = k

  -- A whole frame keeps it that of all objects exactly the player's entity, once there is one, has the mode
  -- 2, and all the others are controlled remotely: through the received packets, the motion, the timers and
  -- the sending, also if one of them throws and the rest of the frame is left out.
  pub update-Populated :
      (sp : Space F) (tcp : TcpClient N) (far : F) (f : Frame) (forward : ℕ) (w : World F N)
      → Populated w
      → Populated (update fl sp tcp far f forward w).1
  unfolding update
  update-Populated sp tcp far f forward w h = if-Populated w.stopped _ _ h (
      rest-Populated sp tcp far f forward (update_destroy_entities w)
        (update_destroy_entities-Populated w h))
