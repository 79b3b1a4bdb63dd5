-- ===== src/Motor/Driver.antt =====
-- The bridge of the motors: `MotorDriver` of embedded/core/src/hal/motor_driver.h. The state is what was
-- last written to the four pins. The smallest duty is at most 255.
pub mod Pins
use desky.Prelude.{
  ℕ, zero, suc, ◌+◌, ◌-◌, ◌*◌, ◌/◌, ◌<◌, ◌≤◌, ◌≡◌, ◌⊎◌, inl, inr, refl, arith, Bool, true, false,
  not, ltb, if◌then◌else◌, Bool-cases, ap, if-elim,
}
use desky.Prelude.Int.{ℤ, pos, negsuc}

pub record Driver : Type 0 where
  pub min_duty : ℕ
  pub enabled : Bool
  pub in1 : ℕ
  pub in2 : ℕ
  pub in3 : ℕ
  pub in4 : ℕ

unfoldable pub coast : Driver → Driver
coast d = record d { in1 = 0; in2 = 0; in3 = 0; in4 = 0 }

unfoldable pub brake : Driver → Driver
brake d = record d { in1 = 255; in2 = 255; in3 = 255; in4 = 255 }

unfoldable pub set_power_state : Driver → Bool → Driver
unfolding coast
set_power_state d true = if d.enabled then d else coast (record d { enabled = true })
set_power_state d false = if not d.enabled then d else coast (record d { enabled = false })

abbrev pub clamp_duty : ℤ → ℤ
clamp_duty (pos n) = if ltb 255 n then pos 255 else pos n
clamp_duty (negsuc n) = if ltb 254 n then negsuc 254 else negsuc n

abbrev pub scaled : ℕ → ℕ → ℕ
scaled min_duty mag =
    let s = min_duty + (mag - 10) * (255 - min_duty) / 245 in if ltb 255 s then 255 else s

abbrev pub minus : ℕ → ℤ
minus zero = pos 0
minus (suc n) = negsuc n

abbrev pub apply_floor : ℕ → ℤ → ℤ
apply_floor min_duty (pos n) = if ltb n 10 then pos 0 else pos (scaled min_duty n)
apply_floor min_duty (negsuc n) = if ltb (suc n) 10 then pos 0 else minus (scaled min_duty (suc n))

-- The two pins of a side.
abbrev pub drive_side : ℤ → ℕ × ℕ
drive_side (pos n) = (n, 0)
drive_side (negsuc n) = (0, suc n)

unfoldable pub set_duty : Driver → ℤ → ℤ → Driver
set_duty d left right =
    let (a, b) = drive_side (apply_floor d.min_duty (clamp_duty left)) in
    let (e, f) = drive_side (apply_floor d.min_duty (clamp_duty right)) in
    if not d.enabled then d else record d { in1 = a; in2 = b; in3 = e; in4 = f }
