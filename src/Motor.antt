-- ===== src/Motor.antt =====
-- The servo of the motors: `MotionController` of embedded/core/src/behavior/motion_controller.h. A speed
-- is the integer of its 127ths, as the coordinator gives it. The swing of a wiggle is a sine on floats:
-- what a tick then asks for is only when it stands. The driver is there (`begin` has succeeded).
pub mod Driver
pub mod Done
use desky.Prelude.{
  ℕ, zero, suc, ◌+◌, ◌-◌, ◌*◌, ◌/◌, Bool, true, false, not, ◌||◌, List, [], ◌∷◌, ltb, leb, ◌==◌,
  if◌then◌else◌, sub32,
}
use desky.Prelude.Int.{ℤ, pos, negsuc, is_pos}

-- -1 and 1 are -127 and 127.
abbrev pub clamp_unit : ℤ → ℤ
clamp_unit (pos n) = if ltb 127 n then pos 127 else pos n
clamp_unit (negsuc n) = if ltb 126 n then negsuc 126 else negsuc n

abbrev pub magnitude : ℤ → ℕ
magnitude (pos n) = n
magnitude (negsuc n) = suc n

pub record Motor : Type 0 where
  pub v : ℤ
  pub omega : ℤ
  pub wiggling : Bool
  pub start_ms : ℕ
  pub duration_ms : ℕ
  pub rate : ℤ
  pub amplitude : ℕ

pub data Effect : Type 0 where
  drive : ℤ → ℤ → Effect
  swing : ℕ → Effect
  brake_driver publish_done : Effect

unfoldable pub set_velocity : Motor → ℤ → ℤ → Motor
set_velocity m v omega = record m { v = clamp_unit v; omega = clamp_unit omega; wiggling = false }

unfoldable pub stop : Motor → Motor
unfolding set_velocity
stop m = set_velocity m (pos 0) (pos 0)

unfoldable pub brake : Motor → Motor × List Effect
brake m = (record m { v = pos 0; omega = pos 0; wiggling = false }, brake_driver ∷ [])

unfoldable pub start_wiggle : Motor → ℕ → ℕ → ℤ → ℤ → Motor
start_wiggle m now duration rate amplitude =
    if duration == 0 || not (is_pos rate) then m else record m {
      start_ms = now;
      duration_ms = duration;
      rate = rate;
      amplitude = magnitude (clamp_unit amplitude);
      wiggling = true;
    }

-- One turn of the task.
unfoldable pub tick : Motor → ℕ → Motor × List Effect
tick m now =
    let elapsed = sub32 now m.start_ms in
    if not m.wiggling
    then (m, drive m.v m.omega ∷ [])
    else if leb m.duration_ms elapsed
    then (record m { wiggling = false }, publish_done ∷ (drive m.v m.omega ∷ []))
    else (m, swing elapsed ∷ [])
