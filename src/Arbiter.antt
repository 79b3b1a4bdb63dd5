-- ===== src/Arbiter.antt =====
-- The priority arbitrator and the safety faces, the Arduino-free half of
-- embedded/core/src/behavior/coordinator.h, with the enumerations and the ground payload of
-- embedded/core/include/system_context.h. Stick values are the integers of `Udp.byte_to_unit`: the
-- code compares them with 0 and passes them on.
pub mod Safety
use desky.Prelude.{
  ℕ, ◌+◌, ◌*◌, ◌/◌, ◌%◌, Bool, true, false, not, ◌&&◌, ◌||◌, Option, none, some, ltb, ◌==◌, ◌!=◌,
  if◌then◌else◌,
}
use desky.Prelude.Int.{ℤ, pos, is_pos, is_neg, is_nonzero}
use desky.Catalog.{boot, angry, scared, priority_for}

pub data BehaviorId : Type 0 where
  behavior_none drive_forward happy_wiggle : BehaviorId

-- The enumerator's value, a uint32_t.
abbrev pub behavior_code : BehaviorId → ℕ
behavior_code behavior_none = 0
behavior_code drive_forward = 1
behavior_code happy_wiggle = 2

pub data RobotMode : Type 0 where
  mode_manual mode_autonomous mode_low_power mode_emergency : RobotMode

abbrev pub is_emergency : RobotMode → Bool
is_emergency mode_emergency = true
is_emergency m = false

-- `EVENT_GROUND_CHANGED`: bit 0 is the front rail, bit 1 the rear one.
unfoldable pub pack_ground : Bool → Bool → ℕ
pack_ground fwd rev = (if fwd then 1 else 0) + (if rev then 1 else 0) * 2

pub record Ground : Type 0 where
  pub fwd : Bool
  pub rev : Bool

unfoldable pub unpack_ground : ℕ → Ground
unpack_ground payload = record { fwd = payload % 2 != 0; rev = payload / 2 % 2 != 0 }

pub record ArbitrateInput : Type 0 where
  pub mode : RobotMode
  pub active_behavior : BehaviorId
  pub emergency_latched : Bool
  pub ground_event : Bool
  pub gnd_fwd : Bool
  pub gnd_rev : Bool
  pub cmd_v : ℤ
  pub cmd_omega : ℤ
  pub has_command : Bool
  pub fresh_command : Bool
  pub udp_stale : Bool
  pub done_received : Bool
  pub done_id : ℕ

pub record ArbitrateOutput : Type 0 where
  pub v : ℤ
  pub omega : ℤ
  pub do_brake : Bool
  pub hold_motion : Bool
  pub next_mode : RobotMode
  pub next_behavior : BehaviorId

-- Any command at all, and one in a direction that has ground.
abbrev pub wants_drive : ArbitrateInput → Bool
wants_drive in' =
    in'.fresh_command
    && in'.has_command
    && not in'.udp_stale
    && (is_nonzero in'.cmd_v || is_nonzero in'.cmd_omega)

abbrev pub permitted : ArbitrateInput → Bool
permitted in' =
    if is_pos in'.cmd_v
    then in'.gnd_fwd
    else if is_neg in'.cmd_v
    then in'.gnd_rev
    else if is_nonzero in'.cmd_omega
    then in'.gnd_fwd || in'.gnd_rev
    else false

abbrev vetoed : ArbitrateInput → ℤ
vetoed in' =
    if is_pos in'.cmd_v
    then (if in'.gnd_fwd then in'.cmd_v else pos 0)
    else if is_neg in'.cmd_v
    then (if in'.gnd_rev then in'.cmd_v else pos 0)
    else pos 0

-- The branch of P1 that is latched.
arbitrate_latched : ArbitrateInput → ArbitrateOutput
arbitrate_latched in' =
    if wants_drive in' && permitted in'
    then record {
      v = in'.cmd_v;
      omega = in'.cmd_omega;
      do_brake = false;
      hold_motion = false;
      next_mode = mode_manual;
      next_behavior = drive_forward;
    }
    else if in'.udp_stale || not in'.has_command
    then record {
      v = pos 0;
      omega = pos 0;
      do_brake = false;
      hold_motion = false;
      next_mode = mode_emergency;
      next_behavior = behavior_none;
    }
    else record {
      v = vetoed in';
      omega = in'.cmd_omega;
      do_brake = false;
      hold_motion = false;
      next_mode = mode_emergency;
      next_behavior = behavior_none;
    }

-- A completion that names the active behavior clears it.
abbrev done_active : ArbitrateInput → BehaviorId
done_active in' =
    if in'.done_received && in'.done_id != 0 && in'.done_id == behavior_code in'.active_behavior
    then behavior_none
    else in'.active_behavior

abbrev is_none_or_drive : BehaviorId → Bool
is_none_or_drive happy_wiggle = false
is_none_or_drive b = true

-- P4, and every case of P2 that stops.
abbrev idle : ArbitrateInput → ArbitrateOutput
idle in' = record {
  v = pos 0;
  omega = pos 0;
  do_brake = false;
  hold_motion = false;
  next_mode = in'.mode;
  next_behavior = behavior_none;
}

-- P2 to P4.
arbitrate_drive : ArbitrateInput → ArbitrateOutput
arbitrate_drive in' =
    if in'.udp_stale || not in'.has_command
    then idle in'
    else if is_nonzero in'.cmd_v || is_nonzero in'.cmd_omega
    then record {
      v = in'.cmd_v;
      omega = in'.cmd_omega;
      do_brake = false;
      hold_motion = false;
      next_mode = in'.mode;
      next_behavior = drive_forward;
    }
    else if is_none_or_drive (done_active in')
    then idle in'
    else record {
      v = pos 0;
      omega = pos 0;
      do_brake = false;
      hold_motion = true;
      next_mode = in'.mode;
      next_behavior = done_active in';
    }

unfoldable pub arbitrate : ArbitrateInput → ArbitrateOutput
unfolding arbitrate_latched arbitrate_drive
arbitrate in' =
    if in'.ground_event
    then record {
      v = pos 0;
      omega = pos 0;
      do_brake = true;
      hold_motion = false;
      next_mode = mode_emergency;
      next_behavior = behavior_none;
    }
    else if in'.emergency_latched || is_emergency in'.mode
    then arbitrate_latched in'
    else arbitrate_drive in'

unfoldable pub safety_expression_for : Bool → Bool → Bool → Bool → Option ℕ
safety_expression_for ground_event obstacle_event ground_clear obstacle_clear =
    if ground_event
    then some scared
    else if obstacle_event
    then some angry
    else if ground_clear || obstacle_clear
    then some boot
    else none

unfoldable pub desired_safety_face : Bool → Bool → Option ℕ
desired_safety_face ground_lost obstacle_latched =
    if ground_lost then some scared else if obstacle_latched then some angry else none

pub record SafetyDecision : Type 0 where
  pub request : Bool
  pub id : ℕ
  pub has_hold : Bool
  pub hold_id : ℕ
  pub release_first : Bool

-- `desired` is the pair of `desiredPresent` and `desiredId`.
unfoldable pub resolve_safety_edge : Option ℕ → Bool → ℕ → ℕ → SafetyDecision
resolve_safety_edge desired has_last last_id active_id = elim desired [
  | some id ↦ record {
    request = true;
    id = id;
    has_hold = true;
    hold_id = id;
    release_first = ltb (priority_for id) (priority_for active_id);
  }
  | none ↦
      if has_last && active_id == last_id
      then record {
        request = true;
        id = boot;
        has_hold = false;
        hold_id = 0;
        release_first = false;
      }
      else record { request = false; id = 0; has_hold = false; hold_id = 0; release_first = false }
]
