-- ===== src/TimerWheel/Tests.antt =====
-- Witnesses for the theorems on TimerWheel: a wheel of 8 slots and ticks of 10 ms, with an entry of
-- 60 ms that is made 9 ms after the timer was set for another entry.
use brass_runtime.Base.{ℕ, Bool, false, List, [], ◌∷◌, none, some, ◌≡◌, inl, refl, arith}
use brass_runtime.TimerWheel.{
  Entry, TimerWheel, new_wheel, schedule, cancel_normal, cancel_fine, tick, fine_tick, destroy,
  turn,
}
use brass_runtime.TimerWheel.Expiry.{Among}
use brass_runtime.TimerWheel.Ticks.{IsSized}
use brass_runtime.TimerWheel.Numbers.{
  new_wheel-IsNumbered, schedule_normal-IsNumbered, schedule_normal-IsOnly,
}
use brass_runtime.TimerWheel.Turn.{turn-IsOnly, IsOnly, Reached, turn_once, missed_waits}
use brass_runtime.TimerWheel.Timed.{IsTimed, operations-IsTimed}

abbrev eight : TimerWheel
eight = new_wheel none (some 8) none

abbrev waiting : TimerWheel
waiting = (schedule 9 60 (schedule 0 70 eight).1).1

abbrev calm : ℕ → Bool
calm id = false

abbrev late : Entry
late = record { id = 1; deadline = 69; slot = 6 }

abbrev five_ticks : List ℕ
five_ticks = 10 ∷ 20 ∷ 30 ∷ 40 ∷ 50 ∷ []

waiting-IsSized : IsSized waiting
unfolding schedule new_wheel
waiting-IsSized = record { power = (3, refl); inside = omega arith }

fifth-IsSized : IsSized (turn calm five_ticks waiting)
unfolding turn schedule new_wheel
fifth-IsSized = record { power = (3, refl); inside = omega arith }

waiting-IsTimed : IsTimed waiting
unfolding schedule new_wheel
waiting-IsTimed = record {
  power = (3, refl);
  counted = refl;
  set = refl;
  fine_counted = refl;
  fine_set = refl;
}

waiting-IsOnly : IsOnly late 6 waiting
unfolding schedule new_wheel
waiting-IsOnly =
    schedule_normal-IsOnly 9 60 (schedule 0 70 eight).1
      (schedule_normal-IsNumbered 0 70 eight (new_wheel-IsNumbered none (some 8) none))

fifth-IsOnly : IsOnly late 6 (turn calm five_ticks waiting)
unfolding schedule new_wheel
fifth-IsOnly =
    turn-IsOnly calm five_ticks 0 6 late waiting waiting-IsSized (omega arith) refl waiting-IsOnly

turn_once_example :
    ((turn calm five_ticks waiting).wheel 6 ≡ waiting.wheel 6)
    × ¬ Among 1 (turn calm five_ticks waiting).fired
    × Reached calm 60 6 late waiting (tick calm 60 (turn calm five_ticks waiting))
unfolding schedule new_wheel
turn_once_example =
    turn_once calm five_ticks 60 6 late waiting waiting-IsSized (omega arith) (inl refl)
      waiting-IsOnly refl

missed_waits_example :
    ¬ Among 1 (turn calm (70 ∷ 80 ∷ []) (tick calm 60 (turn calm five_ticks waiting))).fired
    × Among late ((turn calm (70 ∷ 80 ∷ []) (tick calm 60 (turn calm five_ticks waiting))).wheel 6)
unfolding turn schedule new_wheel
missed_waits_example =
    missed_waits calm (70 ∷ 80 ∷ []) 60 6 late (turn calm five_ticks waiting) fifth-IsSized
      (omega arith) (inl refl) fifth-IsOnly refl refl (omega arith)

operations-IsTimed_example :
    IsTimed (schedule 20 30 waiting).1
    × IsTimed (cancel_normal late waiting)
    × IsTimed (cancel_fine late waiting)
    × IsTimed (tick calm 20 waiting)
    × IsTimed (fine_tick calm 20 waiting)
    × IsTimed (destroy waiting)
unfolding schedule new_wheel
operations-IsTimed_example =
    operations-IsTimed calm 20 30 late waiting (λ id. refl) (omega arith) waiting-IsTimed
