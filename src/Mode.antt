-- ===== src/Mode.antt =====
-- The system mode policy: embedded/core/src/behavior/mode_manager.h.
pub mod Ota
use desky.Prelude.{Bool, true, false, ◌&&◌}

pub data Mode : Type 0 where
  normal manual pairing ota : Mode

pub data Event : Type 0 where
  pair_window_opened paired pair_window_closed ota_staged ota_started ota_done ota_aborted : Event
  manual_take_granted manual_release_granted alive_stale : Event

pub data Display : Type 0 where
  face pairing_overlay ota_overlay : Display

abbrev leave_ota : Mode → Mode
leave_ota ota = normal
leave_ota m = m

abbrev enter_pairing : Mode → Mode
enter_pairing ota = ota
enter_pairing m = pairing

abbrev leave_pairing : Mode → Mode
leave_pairing pairing = normal
leave_pairing m = m

abbrev take_manual : Mode → Mode
take_manual normal = manual
take_manual m = m

abbrev leave_manual : Mode → Mode
leave_manual manual = normal
leave_manual m = m

-- `State` of the source holds nothing but the mode.
unfoldable pub apply : Mode → Event → Mode
apply s ota_staged = ota
apply s ota_started = ota
apply s ota_done = leave_ota s
apply s ota_aborted = leave_ota s
apply s pair_window_opened = enter_pairing s
apply s paired = leave_pairing s
apply s pair_window_closed = leave_pairing s
apply s manual_take_granted = take_manual s
apply s manual_release_granted = leave_manual s
apply s alive_stale = leave_manual s

abbrev pub is_manual : Mode → Bool
is_manual manual = true
is_manual m = false

unfoldable pub motion_inhibited : Mode → Bool → Bool
motion_inhibited mode command_stale = command_stale

unfoldable pub manual_drive_allowed : Mode → Bool → Bool
manual_drive_allowed mode is_paired = is_manual mode && is_paired

unfoldable pub expr_trigger_allowed : Mode → Bool
expr_trigger_allowed mode = is_manual mode

unfoldable pub display_for : Mode → Display
display_for pairing = pairing_overlay
display_for ota = ota_overlay
display_for normal = face
display_for manual = face
