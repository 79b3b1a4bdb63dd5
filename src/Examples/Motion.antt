-- ===== src/Examples/Motion.antt =====
-- The coordinator, the arbitrator, the mode policy and the faces on small inputs.
use desky.Prelude.{
  ℕ, ◌≡◌, ◌↔◌, inl, inr, refl, arith, true, false, not, ◌||◌, none, some, List, [], ◌∷◌, ◌++◌, Each,
}
use desky.Prelude.Int.{pos, negsuc, is_nonzero}
use desky.Catalog.{scared, lookup, priority_for}
use desky.Udp.{pack_command, unpack_command, byte_to_unit}
use desky.Expression
use desky.Expression.{new_task, mark_dispatched, publish_staged}
use desky.Expression.Latch
use desky.Mode
use desky.Arbiter.{
  ArbitrateInput, arbitrate, behavior_none, drive_forward, mode_manual, mode_emergency,
  is_emergency, desired_safety_face, pack_ground, unpack_ground,
}
use desky.Arbiter.Safety.{InEmergency, HasGround, arbitrate_exit_iff}
use desky.Coordinator
use desky.Coordinator.{
  Coord, Readings, SystemEvent, ground_changed, udp_command_received, new_coord, sense, tick,
  feed_mode, safety_edge, brake,
}
use desky.Coordinator.Drain.{IsNote}
use desky.Coordinator.Motion.{IsJustified, IsSound, ticked, run, run-IsSound, tick-IsJustified}
use desky.Coordinator.Loss.{lost_rail, tick-brakes}

-- A held session with a fresh alive poll.
abbrev held : Readings
held = record {
  window_open = false;
  paired_policy = true;
  manual_take = true;
  manual_release = false;
  alive_fresh = true;
  paired_gate = true;
  expr_trigger = none;
}

abbrev start : Coord
start = new_coord (some new_task) true

-- Full throttle, straight ahead.
abbrev ahead : ℕ
ahead = pack_command 0 255 128 0

abbrev drive : List SystemEvent
drive = udp_command_received ahead ∷ []

abbrev front_lost : List SystemEvent
front_lost = ground_changed (pack_ground false true) ∷ []

-- The command is carried out on the first tick.
drive_run :
    (tick start 10 drive (some held)).1
    ≡ Coordinator.note_command (pos 127) (pos 0) 10
      ∷ Coordinator.set_velocity (pos 127) (pos 0)
      ∷ Coordinator.publish_started drive_forward
      ∷ []
unfolding tick new_coord unpack_command Mode.motion_inhibited byte_to_unit Mode.manual_drive_allowed
    pack_command Mode.apply
drive_run = refl

tick-IsJustified_example :
    Each
      (IsJustified
        (sense (run (new_coord (some new_task) true) []) 10 drive (some held)).0
        (sense (run (new_coord (some new_task) true) []) 10 drive (some held)).1
        10
        (some held))
      (tick (run (new_coord (some new_task) true) []) 10 drive (some held)).1
tick-IsJustified_example = tick-IsJustified (some new_task) true [] 10 drive (some held)

front_lost-lost : lost_rail start (tick start 10 front_lost (some held)).0 ≡ true
unfolding tick new_coord pack_ground unpack_ground
front_lost-lost = refl

tick-brakes_example :
    let s = (tick start 10 front_lost (some held)).0 in
    let notes = (sense start 10 front_lost (some held)).2 in
    ((tick start 10 front_lost (some held)).1 ≡ notes ++ brake ∷ [])
    × Each IsNote notes
    × (s.mode ≡ mode_emergency)
    × (s.emergency_latched ≡ true)
    × (s.active ≡ behavior_none)
tick-brakes_example = tick-brakes start 10 front_lost (some held) front_lost-lost

run-IsSound_example : IsSound (run (new_coord none false) (ticked 10 front_lost none ∷ []))
run-IsSound_example = run-IsSound none false (ticked 10 front_lost none ∷ [])

-- The front rail is lost; then all is well again, with safety's face still on.
abbrev on_edge : Coord
on_edge = record start { gnd_fwd = false }

on_edge-scared :
    desired_safety_face (not on_edge.gnd_fwd || not on_edge.gnd_rev) on_edge.obstacle_asserted
    ≡ some scared
unfolding desired_safety_face new_coord
on_edge-scared = refl

start-clear : (start.gnd_fwd ≡ true) × (start.gnd_rev ≡ true) × (start.obstacle_asserted ≡ false)
unfolding new_coord
start-clear = (refl, refl, refl)

-- A latched emergency with ground ahead and none behind, and a held stick.
abbrev latched : ArbitrateInput
latched = record {
  mode = mode_emergency;
  active_behavior = behavior_none;
  emergency_latched = true;
  ground_event = false;
  gnd_fwd = true;
  gnd_rev = false;
  cmd_v = pos 100;
  cmd_omega = pos 0;
  has_command = true;
  fresh_command = false;
  udp_stale = false;
  done_received = false;
  done_id = 0;
}

-- The stick is pulled back, once the emergency is over.
abbrev resumed : ArbitrateInput
resumed = record latched { mode = mode_manual; emergency_latched = false; cmd_v = negsuc 9 }

resumed_calm : ¬ InEmergency resumed
resumed_calm h = ground arith

arbitrate_exit_iff_example : (is_emergency (arbitrate latched).next_mode ≡ false) ↔ (
    (latched.ground_event ≡ false)
    × (latched.fresh_command ≡ true)
    × (latched.has_command ≡ true)
    × (latched.udp_stale ≡ false)
    × HasGround latched)
arbitrate_exit_iff_example = arbitrate_exit_iff latched (inr (inl refl))

latched-moves : (is_nonzero (arbitrate latched).v || is_nonzero (arbitrate latched).omega) ≡ true
unfolding arbitrate
latched-moves = refl

scared-staged :
    (publish_staged (Expression.Latch.run new_task (Expression.Latch.req scared 5 ∷ [])) true).2
    ≡ some scared
unfolding publish_staged Expression.Latch.run Expression.Latch.step Expression.request
    Expression.manager_request lookup priority_for
scared-staged = refl
