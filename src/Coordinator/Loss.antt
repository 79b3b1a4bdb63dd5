-- ===== src/Coordinator/Loss.antt =====
-- A tick that ends with a rail missing that the tick began with.
use desky.Prelude.{
  inl, inr, ℕ, ◌≡◌, ap, arith, Bool, true, false, not, ◌&&◌, ◌||◌, Option, List, [], ◌∷◌, ◌++◌,
  Each, Bool-cases,
}
use desky.Arbiter.{behavior_none, mode_emergency, arbitrate}
use desky.Coordinator.{
  SystemEvent, Readings, Coord, Edges, no_edges, drain_one, drain, brake, announce, apply_motion,
  arbiter_input, sense, decide, tick, safety_face, expr_trigger,
}
use desky.Coordinator.Drain.{IsNote, drain-IsNote}

-- `c` has a rail that `d` lacks.
abbrev pub lost_rail : Coord → Coord → Bool
lost_rail c d = c.gnd_fwd && not d.gnd_fwd || c.gnd_rev && not d.gnd_rev

drain_one-ground_event :
    (c : Coord) (e : Edges) (now : ℕ) (ev : SystemEvent)
    → e.ground_event ≡ true
    → (drain_one c e now ev).1.ground_event ≡ true
unfolding drain_one
drain_one-ground_event c e now ev h = ground arith

drain-ground_event :
    (c : Coord) (e : Edges) (now : ℕ) (evs : List SystemEvent)
    → e.ground_event ≡ true
    → (drain c e now evs).1.ground_event ≡ true
unfolding drain
drain-ground_event c e now [] h = h
drain-ground_event c e now (ev ∷ evs) h =
    let s = drain_one c e now ev in
    drain-ground_event s.0 s.1 now evs (drain_one-ground_event c e now ev h)

drain_one-lost :
    (c : Coord) (e : Edges) (now : ℕ) (ev : SystemEvent)
    → lost_rail c (drain_one c e now ev).0 ≡ true
    → (drain_one c e now ev).1.ground_event ≡ true
unfolding drain_one
drain_one-lost c e now ev h = ground arith

lost_rail-split :
    (a b c : Coord) → lost_rail a b ≡ false → lost_rail a c ≡ true → lost_rail b c ≡ true
lost_rail-split a b c h k = ground arith

drain-lost :
    (c : Coord) (e : Edges) (now : ℕ) (evs : List SystemEvent)
    → lost_rail c (drain c e now evs).0 ≡ true
    → (drain c e now evs).1.ground_event ≡ true
unfolding drain
drain-lost c e now [] h = ground arith
drain-lost c e now (ev ∷ evs) h =
    let s = drain_one c e now ev in
    elim (Bool-cases (lost_rail c s.0)) [
      | inl p ↦ drain-ground_event s.0 s.1 now evs (drain_one-lost c e now ev p)
      | inr p ↦ drain-lost s.0 s.1 now evs (lost_rail-split c s.0 (drain s.0 s.1 now evs).0 p h)
    ]

decide-brakes :
    (c : Coord) (e : Edges) (now : ℕ) (r : Option Readings)
    → e.ground_event ≡ true
    → let s = (decide c e now r).0 in
      ((decide c e now r).1 ≡ brake ∷ [])
      × (s.mode ≡ mode_emergency)
      × (s.emergency_latched ≡ true)
      × (s.active ≡ behavior_none)
unfolding decide apply_motion announce arbitrate arbiter_input
decide-brakes c e now r h = ground arith

decide-rails :
    (c : Coord) (e : Edges) (now : ℕ) (r : Option Readings)
    → ((decide c e now r).0.gnd_fwd ≡ c.gnd_fwd) × ((decide c e now r).0.gnd_rev ≡ c.gnd_rev)
unfolding decide safety_face expr_trigger
decide-rails c e now r = ground arith

-- A tick that ends without a rail that it began with brakes, and commands nothing else: its effects
-- are the notes of the drain and the brake. It leaves the emergency latched and no behavior active.
pub tick-brakes :
    (c : Coord) (now : ℕ) (evs : List SystemEvent) (r : Option Readings)
    → lost_rail c (tick c now evs r).0 ≡ true
    → let s = (tick c now evs r).0 in
      let notes = (sense c now evs r).2 in
      ((tick c now evs r).1 ≡ notes ++ brake ∷ [])
      × Each IsNote notes
      × (s.mode ≡ mode_emergency)
      × (s.emergency_latched ≡ true)
      × (s.active ≡ behavior_none)
unfolding tick sense
tick-brakes c now evs r h =
    let s = sense c now evs r in
    let rails = decide-rails s.0 s.1 now r in
    let edge : s.1.ground_event ≡ true = drain-lost c no_edges now evs (ground (arith, rails)) in
    let d = decide-brakes s.0 s.1 now r edge in
    (ap (λ l. s.2 ++ l) d.0, drain-IsNote c no_edges now evs, d.1, d.2, d.3)
