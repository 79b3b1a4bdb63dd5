-- ===== src/Motor/Done.antt =====
-- A wiggle ends with one message.
use desky.Prelude.{
  ℕ, suc, ◌<◌, ◌≡◌, refl, ap, inl, inr, arith, Bool, true, false, not, ◌||◌, List, [], ◌∷◌, ◌++◌,
  leb, ◌==◌, if◌then◌else◌, sub32, Bool-cases,
}
use desky.Prelude.Int.{ℤ, is_pos}
use desky.Motor.{
  clamp_unit, magnitude, Motor, Effect, drive, swing, publish_done, set_velocity, brake,
  start_wiggle, tick,
}

-- The turns of the task at the times given.
abbrev pub ticks : Motor → List ℕ → List Effect
ticks m [] = []
ticks m (t ∷ ts) = let (m1, es) = tick m t in es ++ ticks m1 ts

abbrev count_one : Effect → ℕ → ℕ
count_one publish_done n = suc n
count_one _ n = n

abbrev pub done_count : List Effect → ℕ
done_count [] = 0
done_count (e ∷ es) = count_one e (done_count es)

-- Whether a turn comes when the time is up.
abbrev pub any_due : ℕ → ℕ → List ℕ → Bool
any_due start duration [] = false
any_due start duration (t ∷ ts) = leb duration (sub32 t start) || any_due start duration ts

tick-idle : (m : Motor) (t : ℕ) → m.wiggling ≡ false → tick m t ≡ (m, drive m.v m.omega ∷ [])
unfolding tick
tick-idle m t h =
    ap
      (λ b.
        if not b
        then (m, drive m.v m.omega ∷ [])
        else if leb m.duration_ms (sub32 t m.start_ms)
        then (record m { wiggling = false }, publish_done ∷ (drive m.v m.omega ∷ []))
        else (m, swing (sub32 t m.start_ms) ∷ []))
      h

tick-wiggling :
    (m : Motor) (t : ℕ)
    → m.wiggling ≡ true
    → tick m t ≡ (
        if leb m.duration_ms (sub32 t m.start_ms)
        then (record m { wiggling = false }, publish_done ∷ (drive m.v m.omega ∷ []))
        else (m, swing (sub32 t m.start_ms) ∷ []))
unfolding tick
tick-wiggling m t h =
    ap
      (λ b.
        if not b
        then (m, drive m.v m.omega ∷ [])
        else if leb m.duration_ms (sub32 t m.start_ms)
        then (record m { wiggling = false }, publish_done ∷ (drive m.v m.omega ∷ []))
        else (m, swing (sub32 t m.start_ms) ∷ []))
      h

ticks-idle : (m : Motor) (ts : List ℕ) → m.wiggling ≡ false → done_count (ticks m ts) ≡ 0
ticks-idle m [] h = refl
ticks-idle m (t ∷ ts) h = rw (tick-idle m t h) (ticks-idle m ts h)

ticks-wiggling :
    (m : Motor) (ts : List ℕ)
    → m.wiggling ≡ true
    → done_count (ticks m ts) ≡ (if any_due m.start_ms m.duration_ms ts then 1 else 0)
ticks-wiggling m [] h = refl
ticks-wiggling m (t ∷ ts) h = elim (Bool-cases (leb m.duration_ms (sub32 t m.start_ms))) [
  | inl e ↦
      rw (tick-wiggling m t h) (rw e (ap suc (ticks-idle (record m { wiggling = false }) ts refl)))
  | inr e ↦ rw (tick-wiggling m t h) (rw e (ticks-wiggling m ts h))
]

-- A wiggle that is started, of some length and rate, is reported done exactly once over any later turns
-- of the task, if one of them comes when its time is up; and never once a speed or a brake has come
-- before the turns.
pub start_wiggle-ticks :
    (m : Motor) (now duration : ℕ) (rate amplitude v omega : ℤ) (ts : List ℕ)
    → 0 < duration
    → is_pos rate ≡ true
    → let w = start_wiggle m now duration rate amplitude in
      (done_count (ticks w ts) ≡ (if any_due now duration ts then 1 else 0))
      × ((done_count (ticks (set_velocity w v omega) ts) ≡ 0)
          × (done_count (ticks (brake w).0 ts) ≡ 0))
unfolding start_wiggle set_velocity brake
start_wiggle-ticks m now duration rate amplitude v omega ts d r =
    let b : (duration == 0 || not (is_pos rate)) ≡ false = ground arith in
    let w = start_wiggle m now duration rate amplitude in
    (
      rw b (
          ticks-wiggling
            (record m {
              start_ms = now;
              duration_ms = duration;
              rate = rate;
              amplitude = magnitude (clamp_unit amplitude);
              wiggling = true;
            })
            ts refl),
      (ticks-idle (set_velocity w v omega) ts refl, ticks-idle (brake w).0 ts refl),
    )
