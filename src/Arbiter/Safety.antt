-- ===== src/Arbiter/Safety.antt =====
-- What the arbitrator guarantees of motion, over every input.
use desky.Prelude.{◌≡◌, ◌↔◌, ◌⊎◌, arith, true, false, not, ◌&&◌, ◌||◌}
use desky.Prelude.Int.{pos, is_pos, is_neg, is_nonzero}
use desky.Arbiter.{
  ArbitrateInput, arbitrate, happy_wiggle, mode_emergency, mode_manual, is_emergency,
}

-- The emergency is on: just entered, latched, or the mode.
abbrev pub InEmergency : ArbitrateInput → Type 0
InEmergency in' =
    (in'.ground_event ≡ true) ⊎ ((in'.emergency_latched ≡ true) ⊎ (is_emergency in'.mode ≡ true))

-- The stick points where there is ground: ahead, behind, or for a turn on the spot on some side.
abbrev pub HasGround : ArbitrateInput → Type 0
HasGround in' =
    ((is_pos in'.cmd_v ≡ true) × (in'.gnd_fwd ≡ true))
    ⊎ (((is_neg in'.cmd_v ≡ true) × (in'.gnd_rev ≡ true))
        ⊎ ((in'.cmd_v ≡ pos 0)
            × (is_nonzero in'.cmd_omega ≡ true)
            × ((in'.gnd_fwd ≡ true) ⊎ (in'.gnd_rev ≡ true))))

-- In an emergency the speed is never towards a rail that has lost the ground.
pub arbitrate_veto :
    (in' : ArbitrateInput)
    → InEmergency in'
    → ((is_pos (arbitrate in').v && not in'.gnd_fwd) ≡ false)
      × ((is_neg (arbitrate in').v && not in'.gnd_rev) ≡ false)
unfolding arbitrate
arbitrate_veto in' h = ground arith

-- The emergency ends exactly on a fresh live command that points where there is ground, with no
-- new loss in the same tick.
pub arbitrate_exit_iff :
    (in' : ArbitrateInput)
    → InEmergency in'
    → (is_emergency (arbitrate in').next_mode ≡ false) ↔ (
        (in'.ground_event ≡ false)
        × (in'.fresh_command ≡ true)
        × (in'.has_command ≡ true)
        × (in'.udp_stale ≡ false)
        × HasGround in')
unfolding arbitrate
arbitrate_exit_iff in' h = (λ p. ground arith, λ p. ground arith)

-- A stick that may be obeyed: received, and not stale.
abbrev pub IsLive : ArbitrateInput → Type 0
IsLive in' = (in'.has_command ≡ true) × (in'.udp_stale ≡ false)

-- Motion comes from a live command alone: when the output moves, the turn is the commanded one, and
-- the speed is the commanded one or, in an emergency, 0.
pub arbitrate_moves :
    (in' : ArbitrateInput)
    → (is_nonzero (arbitrate in').v || is_nonzero (arbitrate in').omega) ≡ true
    → let out = arbitrate in' in
      IsLive in'
      × (in'.ground_event ≡ false)
      × (out.omega ≡ in'.cmd_omega)
      × ((out.v ≡ in'.cmd_v) ⊎ (InEmergency in' × (out.v ≡ pos 0)))
unfolding arbitrate
arbitrate_moves in' h = ground arith

-- A running maneuver keeps the motion mailbox exactly outside an emergency, under a live centered
-- stick, until its completion is reported.
pub arbitrate_hold_iff :
    (in' : ArbitrateInput)
    → ((arbitrate in').hold_motion ≡ true) ↔ (
        ¬ InEmergency in'
        × IsLive in'
        × (in'.cmd_v ≡ pos 0)
        × (in'.cmd_omega ≡ pos 0)
        × (in'.active_behavior ≡ happy_wiggle)
        × ¬ ((in'.done_received ≡ true) × (in'.done_id ≡ 2)))
unfolding arbitrate
arbitrate_hold_iff in' = (λ h. ground arith, λ h. ground arith)

-- The brake is applied exactly on a new loss of ground.
pub arbitrate_brake_iff :
    (in' : ArbitrateInput) → ((arbitrate in').do_brake ≡ true) ↔ (in'.ground_event ≡ true)
unfolding arbitrate
arbitrate_brake_iff in' = (λ h. ground arith, λ h. ground arith)

-- The mode that follows is the emergency or the mode before it, and for a latched input the emergency
-- or manual.
pub arbitrate_mode :
    (in' : ArbitrateInput)
    → let m = (arbitrate in').next_mode in
      (m ≡ mode_emergency) ⊎ ((m ≡ in'.mode) ⊎ (InEmergency in' × (m ≡ mode_manual)))
unfolding arbitrate
arbitrate_mode in' = ground arith

-- Outside an emergency no rail is consulted: a live reverse command is obeyed over a rear rail that
-- has no ground.
pub arbitrate_no_veto :
    (in' : ArbitrateInput)
    → ¬ InEmergency in'
    → IsLive in'
    → is_neg in'.cmd_v ≡ true
    → in'.gnd_rev ≡ false
    → let out = arbitrate in' in (out.v ≡ in'.cmd_v) × (out.next_mode ≡ in'.mode)
unfolding arbitrate
arbitrate_no_veto in' n l v g = ground arith
