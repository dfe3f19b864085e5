-- ===== src/Scheduler/Schedules/Totals.antt =====
-- The lanes of a scheduler, each with the tasks that wait in it.
use brass_runtime.Base.{
  ℕ, zero, suc, ◌+◌, ◌≤◌, ◌^◌, List, [], ◌∷◌, ◌++◌, set, Option, none, some, ◌≡◌, refl, ap, subst,
  arith,
}
use brass_runtime.Scheduler.{LaneState, queued, new_lane}
use brass_runtime.Scheduler.Tags.{Represents, made-Holds}
use brass_runtime.Scheduler.Schedules.{lane_at}

module _ {K : Type 0} where
  abbrev pub total : List (LaneState K) → ℕ
  total [] = 0
  total (lane ∷ lanes) = queued lane + total lanes

  abbrev pub AllLanes : List (LaneState K) → Type 0
  AllLanes [] = Unit
  AllLanes (lane ∷ lanes) = ((items : List (K × ℕ)) × Represents lane items) × AllLanes lanes

  pub total-set :
      (lanes : List (LaneState K)) (i : ℕ) (lane after : LaneState K)
      → lane_at lanes i ≡ some lane
      → total (set lanes i after) + queued lane ≡ total lanes + queued after
  total-set [] i lane after e = absurd (nothing e)
    where
      nothing : ◌≡◌ {A = Option (LaneState K)} none (some lane) → ⊥
      nothing e = cc
  total-set (l ∷ lanes) zero lane after e = omega (arith, ap (queued_or 0) e)
    where
      queued_or : ℕ → Option (LaneState K) → ℕ
      queued_or n none = n
      queued_or n (some l) = queued l
  total-set (l ∷ lanes) (suc i) lane after e = omega (arith, total-set lanes i lane after e)

  pub AllLanes-set :
      (lanes : List (LaneState K)) (i : ℕ) (lane : LaneState K)
      → AllLanes lanes
      → (items : List (K × ℕ)) × Represents lane items
      → AllLanes (set lanes i lane)
  AllLanes-set [] i lane h r = tt
  AllLanes-set (l ∷ lanes) zero lane (h, hs) r = (r, hs)
  AllLanes-set (l ∷ lanes) (suc i) lane (h, hs) r = (h, AllLanes-set lanes i lane hs r)

  pub AllLanes-at :
      (lanes : List (LaneState K)) (i : ℕ) (lane : LaneState K)
      → AllLanes lanes
      → lane_at lanes i ≡ some lane
      → (items : List (K × ℕ)) × Represents lane items
  AllLanes-at [] i lane h e = absurd (nothing e)
    where
      nothing : ◌≡◌ {A = Option (LaneState K)} none (some lane) → ⊥
      nothing e = cc
  AllLanes-at (l ∷ lanes) zero lane (h, hs) e = subst (λ (o : Option (LaneState K)). HeldIn o) e h
    where
      HeldIn : Option (LaneState K) → Type 0
      HeldIn none = Unit
      HeldIn (some l) = (items : List (K × ℕ)) × Represents l items
  AllLanes-at (l ∷ lanes) (suc i) lane (h, hs) e = AllLanes-at lanes i lane hs e

  pub AllLanes-append :
      (lanes : List (LaneState K)) (lane : LaneState K)
      → AllLanes lanes
      → (items : List (K × ℕ)) × Represents lane items
      → AllLanes (lanes ++ (lane ∷ []))
  AllLanes-append [] lane h r = (r, tt)
  AllLanes-append (l ∷ lanes) lane (h, hs) r = (h, AllLanes-append lanes lane hs r)

  pub total-append :
      (lanes : List (LaneState K)) (lane : LaneState K)
      → total (lanes ++ (lane ∷ [])) ≡ total lanes + queued lane
  total-append [] lane = omega arith
  total-append (l ∷ lanes) lane = omega (arith, total-append lanes lane)

  pub new_lane-Represents :
      (key capacity : ℕ) → capacity ≤ 2 ^ 31 → Represents (new_lane {K = K} key capacity) []
  new_lane-Represents key capacity h = record {
    small = h;
    max_small = h;
    tasks = made-Holds capacity capacity h h;
    tags = refl;
    counted = refl;
  }
