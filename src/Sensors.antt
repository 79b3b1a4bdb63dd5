-- ===== src/Sensors.antt =====
-- What the sensors of the core publish: the edges of embedded/core/src/abilities/sensors/
-- sensors_codec.h. The fusion of the tilt works on floats and has no model.
pub mod PairButton
pub mod Views
use desky.Prelude.{
  ℕ, ◌+◌, ◌-◌, Bool, true, false, not, ◌&&◌, ◌||◌, Option, none, some, List, [], ◌∷◌, leb, ltb,
  ◌!=◌, if◌then◌else◌, sub32,
}
use desky.Arbiter.{pack_ground}

abbrev pub no_reading_mm : ℕ
no_reading_mm = 9999

abbrev pub obstacle_hyst_mm : ℕ
obstacle_hyst_mm = 10

abbrev pub obstacle_mm : ℕ
obstacle_mm = 80

unfoldable pub tof_reading_valid : Bool → ℕ → Bool
tof_reading_valid enabled dist_mm = enabled && dist_mm != no_reading_mm

-- Whether it fires, and the stamp.
unfoldable pub due : ℕ → ℕ → ℕ → Bool × ℕ
due now last_ms interval_ms =
    if leb interval_ms (sub32 now last_ms) then (true, now) else (false, last_ms)

abbrev pub same_bool : Bool → Bool → Bool
same_bool true b = b
same_bool false b = not b

-- The level that was published last, and the payload that is published now.
unfoldable pub cliff_transition : Bool → Bool → Bool → Bool × Option ℕ
cliff_transition live cliff_now last_published =
    if not live
    then (last_published, none)
    else if same_bool cliff_now last_published
    then (last_published, none)
    else (cliff_now, some (if cliff_now then 1 else 0))

unfoldable pub ground_transition : Bool → Bool → Bool → Bool × Bool → (Bool × Bool) × Option ℕ
ground_transition live fwd rev (last_fwd, last_rev) =
    if not live
    then ((last_fwd, last_rev), none)
    else if same_bool fwd last_fwd && same_bool rev last_rev
    then ((last_fwd, last_rev), none)
    else ((fwd, rev), some (pack_ground fwd rev))

unfoldable pub obstacle_transition : Bool → ℕ → Bool → Bool × Option ℕ
obstacle_transition live dist_mm asserted =
    if not live
    then (asserted, none)
    else if not asserted && ltb dist_mm (obstacle_mm - obstacle_hyst_mm)
    then (true, some dist_mm)
    else if asserted && ltb (obstacle_mm + obstacle_hyst_mm) dist_mm
    then (false, some dist_mm)
    else (asserted, none)
