-- ===== src/World/Timer.antt =====
-- class Timer and class Config. Times are whole microseconds, which hold the program's constants.
use starfall.Base.{
  ℕ, ◌+◌, ◌-◌, ◌<◌, ◌≡◌, List, [], ◌∷◌, Bool, true, false, ltb, leb, if◌then◌else◌, arith,
  Bool-cases, inl, inr,
}

pub record Timer : Type 0 where
  pub current : ℕ
  pub limit : ℕ

-- `Config.PathTime()` and `Config.SendTime()`
abbrev pub path_time : ℕ
path_time = 100000

abbrev pub send_time : ℕ
send_time = 500000

abbrev pub new_timer : ℕ → Timer
new_timer limit = record { current = limit; limit = limit }

-- `Down`, over a frame of `dt`
unfoldable pub down : ℕ → Timer → Timer
down dt t =
    if ltb t.current dt then record t { current = 0 } else record t { current = t.current - dt }

unfoldable pub is_done : Timer → Bool
is_done t = leb t.current 0

unfoldable pub reset : Timer → Timer
reset t = record t { current = t.limit }

-- `Update`: whether `doneFunc` is called, and the timer after it.
unfoldable pub update : ℕ → Timer → Bool × Timer
unfolding down is_done reset
update dt t = let t' = down dt t in if is_done t' then (true, reset t') else (false, t')

-- The calls of `doneFunc` over the frames of `dts`.
pub fired : List ℕ → Timer → List Bool
fired [] t = []
fired (dt ∷ dts) t = let (f, t') = update dt t in f ∷ fired dts t'

abbrev pub total : List ℕ → ℕ
total [] = 0
total (dt ∷ dts) = dt + total dts

abbrev pub never : List Bool → Bool
never [] = true
never (true ∷ fs) = false
never (false ∷ fs) = never fs

-- Over any frames a timer stays silent exactly as long as they last less than what it has left.
pub fired-never :
    (dts : List ℕ) (t : Timer) → 0 < t.current → never (fired dts t) ≡ ltb (total dts) t.current
unfolding fired update
fired-never [] t h = ground arith
fired-never (dt ∷ dts) t h = elim (Bool-cases (leb t.current dt)) [
  | inl done ↦ ground arith
  | inr more ↦ ground (arith, fired-never dts (record t { current = t.current - dt }))
]
