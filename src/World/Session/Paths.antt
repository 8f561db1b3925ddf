-- ===== src/World/Session/Paths.antt =====
-- The path that `UpdatePath` collects stays short.
use starfall.Base.{ℕ, sym, length, leb, ◌<◌, ◌*◌, arith, Bool-cases, Option-cases, inl, inr, subst}
use starfall.Network.Runtime.{Floats}
use starfall.World.Timer.{send_time}
use starfall.World.Entities.{World, user_of}
use starfall.World.Session.{send_path, add_node, path_of, update_path}

module _ {F N : Type 0} where
  -- The nodes that wait span less than the time between two packets.
  pub record ShortPath (w : World F N) : Type 0 where
    pub short : length (user_of w).transform_player.path * w.path_timer.limit < send_time

module _ {F N : Type 0} (fl : Floats F) where
  send_path-ShortPath : (w : World F N) → ShortPath (send_path fl w)
  unfolding send_path
  send_path-ShortPath w =
      elim (Bool-cases
        (leb send_time (length (user_of w).transform_player.path * w.path_timer.limit))) [
          | inl e ↦ rw e (record { short = omega arith })
          | inr e ↦ rw e (record { short = ground (arith, e) })
        ]

  -- `UpdatePath` never leaves a path that spans the time between two packets or more.
  pub update_path-ShortPath :
      (forward : ℕ) (w : World F N) → ShortPath w → ShortPath (update_path fl forward w).1
  unfolding update_path
  update_path-ShortPath forward w h = elim (Option-cases w.entity) [
    | inl e ↦ subst (λ o. ShortPath (path_of fl forward o w).1) (sym e) h
    | inr (me, e) ↦
        subst (λ o. ShortPath (path_of fl forward o w).1) (sym e)
          (send_path-ShortPath (add_node forward me w))
  ]
