-- ===== src/Sensors/PairButton.antt =====
-- The debouncing of the pair button: embedded/core/src/hal/pair_button.h, without the pin.
pub mod Steady
use desky.Prelude.{ℕ, Bool, true, false, not, ◌&&◌, ◌||◌, if◌then◌else◌, leb, sub32}
use desky.Sensors.{same_bool}

abbrev pub force_ap_hold_ms : ℕ
force_ap_hold_ms = 3000

unfoldable pub force_ap_latched : ℕ → ℕ → ℕ → Bool
force_ap_latched press_start_ms now hold_ms = leb hold_ms (sub32 now press_start_ms)

pub record State : Type 0 where
  pub stable_pressed : Bool
  pub last_raw_pressed : Bool
  pub last_change_ms : ℕ
  pub seeded : Bool

abbrev pub new_state : State
new_state = record {
  stable_pressed = false;
  last_raw_pressed = false;
  last_change_ms = 0;
  seeded = false;
}

-- The raw level is taken.
unfoldable pub take_raw : State → Bool → ℕ → State
take_raw s raw now =
    if same_bool raw s.last_raw_pressed
    then s
    else record s { last_raw_pressed = raw; last_change_ms = now }

unfoldable pub update : State → Bool → ℕ → ℕ → State × Bool
unfolding take_raw
update s raw now debounce_ms =
    let s' = take_raw s raw now in
    if not s.seeded
    then (
      record { seeded = true; stable_pressed = raw; last_raw_pressed = raw; last_change_ms = now },
      false,
    )
    else if leb debounce_ms (sub32 now s'.last_change_ms)
        && not (same_bool s'.stable_pressed s'.last_raw_pressed)
    then (record s' { stable_pressed = s'.last_raw_pressed }, s'.last_raw_pressed)
    else (s', false)
