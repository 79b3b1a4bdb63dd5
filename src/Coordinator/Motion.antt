-- ===== src/Coordinator/Motion.antt =====
-- What a tick of the coordinator guarantees of motion and of its own state.
use desky.Prelude.{
  ℕ, ◌≡◌, ◌⊎◌, ◌≤◌, refl, inl, arith, Bool, true, false, not, ◌&&◌, Option, List, [], ◌∷◌, sub32,
  Each, Each-append,
}
use desky.Prelude.Int.{pos, is_pos, is_neg}
use desky.Mode
use desky.Arbiter.{mode_manual, mode_emergency, is_emergency, arbitrate}
use desky.Expression.{Task}
use desky.Coordinator.{
  on_ota_staged, on_ota_done, SystemEvent, Readings, Coord, Effect, note_command, brake, stop,
  set_velocity, publish_started, Edges, no_edges, drain, stale_ms, paired_for_drive, new_coord,
  sense, decide, tick, announce, apply_motion, arbiter_input, safety_face, expr_trigger,
}
use desky.Coordinator.Drain.{drain-IsKept, drain-IsNote, IsNote}

-- What a drive command rests on: `c` and `e` are the state and the edges that the tick decides on.
abbrev pub IsJustified : Coord → Edges → ℕ → Option Readings → Effect → Type 0
IsJustified c e now r (set_velocity v w) =
    (c.sys_mode ≡ Mode.manual)
    × (paired_for_drive r ≡ true)
    × (c.has_cmd ≡ true)
    × (sub32 now c.last_cmd_ms ≤ stale_ms)
    × (e.ground_event ≡ false)
    × (w ≡ c.cmd_omega)
    × ((v ≡ c.cmd_v) ⊎ ((c.emergency_latched ≡ true) × (v ≡ pos 0)))
    × ((c.emergency_latched && is_pos v && not c.gnd_fwd) ≡ false)
    × ((c.emergency_latched && is_neg v && not c.gnd_rev) ≡ false)
IsJustified c e now r eff = Unit

-- The latch is the emergency mode, and the tick knows two modes.
pub record IsSound (c : Coord) : Type 0 where
  pub latch : c.emergency_latched ≡ is_emergency c.mode
  pub mode_known : (c.mode ≡ mode_manual) ⊎ (c.mode ≡ mode_emergency)

apply_motion-IsJustified :
    (c : Coord) (e : Edges) (now : ℕ) (r : Option Readings)
    → IsSound c
    → Each (IsJustified c e now r) (apply_motion (arbitrate (arbiter_input c e now r)))
unfolding apply_motion arbitrate arbiter_input Mode.motion_inhibited Mode.manual_drive_allowed
apply_motion-IsJustified c e now r h = ground arith

safety_face-keeps :
    (c : Coord) (e : Edges) (now : ℕ) (r : Option Readings)
    → (expr_trigger (safety_face c e now) r now).sys_mode ≡ c.sys_mode
unfolding safety_face expr_trigger
safety_face-keeps c e now r = ground arith

IsNote-IsJustified :
    (c : Coord) (e : Edges) (now : ℕ) (r : Option Readings) (xs : List Effect)
    → Each IsNote xs
    → Each (IsJustified c e now r) xs
IsNote-IsJustified c e now r [] h = tt
IsNote-IsJustified c e now r (note_command v w n ∷ xs) h = (tt, IsNote-IsJustified c e now r xs h.1)
IsNote-IsJustified c e now r (brake ∷ xs) h = absurd h.0
IsNote-IsJustified c e now r (stop ∷ xs) h = absurd h.0
IsNote-IsJustified c e now r (set_velocity v w ∷ xs) h = absurd h.0
IsNote-IsJustified c e now r (publish_started b ∷ xs) h = absurd h.0

sense-IsSound :
    (c : Coord) (now : ℕ) (evs : List SystemEvent) (r : Option Readings)
    → IsSound c
    → IsSound (sense c now evs r).0
unfolding sense
sense-IsSound c now evs r h = let k = drain-IsKept c no_edges now evs in ground arith

decide-IsSound :
    (c : Coord) (e : Edges) (now : ℕ) (r : Option Readings)
    → IsSound c
    → IsSound (decide c e now r).0
unfolding decide arbitrate arbiter_input
decide-IsSound c e now r h = ground arith

decide-IsJustified :
    (c : Coord) (e : Edges) (now : ℕ) (r : Option Readings)
    → IsSound c
    → Each (IsJustified c e now r) (decide c e now r).1
unfolding decide announce
decide-IsJustified c e now r h =
    let out = arbitrate (arbiter_input c e now r) in
    Each-append (IsJustified c e now r) (apply_motion out) (announce out.next_behavior c.active)
      (apply_motion-IsJustified c e now r h) (ground arith)

tick-IsSound :
    (c : Coord) (now : ℕ) (evs : List SystemEvent) (r : Option Readings)
    → IsSound c
    → IsSound (tick c now evs r).0
unfolding tick
tick-IsSound c now evs r h =
    let s = sense c now evs r in decide-IsSound s.0 s.1 now r (sense-IsSound c now evs r h)

-- A tick with what it takes from outside, or a notice of an update between two ticks.
pub data Input : Type 0 where
  ticked : ℕ → List SystemEvent → Option Readings → Input
  ota_staged ota_done : Input

pub step : Coord → Input → Coord
step c (ticked now evs r) = (tick c now evs r).0
step c ota_staged = on_ota_staged c
step c ota_done = on_ota_done c

pub run : Coord → List Input → Coord
unfolding step
run c [] = c
run c (i ∷ is) = run (step c i) is

step-IsSound : (c : Coord) (i : Input) → IsSound c → IsSound (step c i)
unfolding step on_ota_staged on_ota_done
step-IsSound c (ticked now evs r) h = tick-IsSound c now evs r h
step-IsSound c ota_staged h = record { latch = h.latch; mode_known = h.mode_known }
step-IsSound c ota_done h = record { latch = h.latch; mode_known = h.mode_known }

run_from-IsSound : (is : List Input) (c : Coord) → IsSound c → IsSound (run c is)
unfolding run
run_from-IsSound [] c h = h
run_from-IsSound (i ∷ is) c h = run_from-IsSound is (step c i) (step-IsSound c i h)

-- After any ticks of a new coordinator, with notices of updates between them, the latch is on exactly in the emergency mode, and the mode
-- is manual or the emergency.
pub run-IsSound :
    (expr : Option Task) (telem : Bool) (is : List Input) → IsSound (run (new_coord expr telem) is)
unfolding new_coord
run-IsSound expr telem is =
    run_from-IsSound is (new_coord expr telem) (record { latch = refl; mode_known = inl refl })

-- In every tick of a coordinator that has run from its start, a drive command rests on the manual
-- mode, a paired session and a command of at most `stale_ms` before, with no new loss of ground; its
-- turn is the commanded one, its speed the commanded one or in an emergency 0, and in an emergency
-- never towards a rail without ground.
pub tick-IsJustified :
    (expr : Option Task) (telem : Bool) (is : List Input) (now : ℕ) (evs : List SystemEvent)
    (r : Option Readings)
    → let c = run (new_coord expr telem) is in
      let s = sense c now evs r in Each (IsJustified s.0 s.1 now r) (tick c now evs r).1
unfolding tick sense
tick-IsJustified expr telem is now evs r =
    let c = run (new_coord expr telem) is in
    let s = sense c now evs r in
    let d = drain c no_edges now evs in
    Each-append (IsJustified s.0 s.1 now r) d.2 (decide s.0 s.1 now r).1
      (IsNote-IsJustified s.0 s.1 now r d.2 (drain-IsNote c no_edges now evs))
      (decide-IsJustified s.0 s.1 now r (sense-IsSound c now evs r (run-IsSound expr telem is)))
