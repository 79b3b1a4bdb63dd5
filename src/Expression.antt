-- ===== src/Expression.antt =====
-- The face owner: embedded/core/src/abilities/expression/expression_manager.h (`Manager`) and
-- expression_task.h (`Task`), with the cue table of abilities/audio/audio_codec.h and the motion
-- table of embedded/shared/link/motion_primitives.h that the bundle conductor reads. A method
-- returns the new object, and its result where it has one.
pub mod Preempt
pub mod Latch
use desky.Prelude.{
  ℕ, Bool, true, false, not, ◌&&◌, ◌||◌, Option, none, some, List, [], ◌∷◌, ◌++◌, map, ltb, sub32,
  ◌==◌, if◌then◌else◌,
}
use desky.Catalog.{Entry, boot, is_neutral, lookup, priority_for, is_play_once, hold_ms_for}

pub record Manager : Type 0 where
  pub active : ℕ
  pub since_ms : ℕ

abbrev pub new_manager : Manager
new_manager = record { active = boot; since_ms = 0 }

unfoldable pub manager_request : Manager → ℕ → ℕ → Manager × Bool
manager_request m id now = elim (lookup id) [
  | none ↦ (m, false)
  | some e ↦
      if not (is_neutral id) && ltb e.priority (priority_for m.active)
      then (m, false)
      else (record { active = id; since_ms = now }, true)
]

unfoldable pub manager_tick : Manager → ℕ → Manager × Bool
manager_tick m now =
    if not (is_play_once m.active) || ltb (sub32 now m.since_ms) (hold_ms_for m.active)
    then (m, false)
    else (record { active = boot; since_ms = now }, true)

pub record Task : Type 0 where
  pub manager : Manager
  pub staged : ℕ
  pub has_staged : Bool
  pub bundle : ℕ
  pub has_bundle : Bool

abbrev pub new_task : Task
new_task = record {
  manager = new_manager;
  staged = boot;
  has_staged = false;
  bundle = boot;
  has_bundle = false;
}

-- Both latches are set to the id that the manager took.
abbrev stage : Manager → ℕ → Task
stage m id = record { manager = m; staged = id; has_staged = true; bundle = id; has_bundle = true }

unfoldable pub request : Task → ℕ → ℕ → Task × Bool
request t id now = elim (lookup id) [
  | none ↦ (t, false)
  | some e ↦
      let (m, took) = manager_request t.manager id now in
      if took then (stage m id, true) else (record t { manager = m }, false)
]

unfoldable pub tick : Task → ℕ → Task × Bool
tick t now =
    let (m, took) = manager_tick t.manager now in
    if took then (stage m m.active, true) else (record t { manager = m }, false)

abbrev pub active : Task → ℕ
active t = t.manager.active

abbrev pub mark_dispatched : Task → Task
mark_dispatched t = record t { has_staged = false }

abbrev pub mark_conducted : Task → Task
mark_conducted t = record t { has_bundle = false }

-- `link.sendUnicast` is the transport's: `sent` is whether it took the datagram. The second part of
-- the result is the id that was handed to it.
unfoldable pub publish_staged : Task → Bool → Task × Bool × Option ℕ
publish_staged t sent =
    if not t.has_staged
    then (t, false, none)
    else if not sent
    then (t, false, some t.staged)
    else (record t { has_staged = false }, true, some t.staged)

pub record CueNote : Type 0 where
  pub freq_hz : ℕ
  pub dur_ms : ℕ
  pub gap_ms : ℕ

abbrev note : ℕ → ℕ → ℕ → CueNote
note f d g = record { freq_hz = f; dur_ms = d; gap_ms = g }

unfoldable pub cue_for : ℕ → List CueNote
cue_for id =
    if id == 0
    then note 130 140 15 ∷ note 98 220 0 ∷ []
    else if id == 1
    then note 880 70 20 ∷ note 880 70 20 ∷ note 660 140 0 ∷ []
    else if id == 2
    then note 523 110 15 ∷ note 659 110 15 ∷ note 784 110 15 ∷ note 1047 220 0 ∷ []
    else if id == 3
    then note 392 150 30 ∷ note 311 220 0 ∷ []
    else []

-- Rate and amplitude are the source's floats in tenths.
pub record Primitive : Type 0 where
  pub still : Bool
  pub duration_ms : ℕ
  pub rate_hz : ℕ
  pub amplitude : ℕ

abbrev primitive : Bool → ℕ → ℕ → ℕ → Primitive
primitive s d r a = record { still = s; duration_ms = d; rate_hz = r; amplitude = a }

unfoldable pub for_id : ℕ → Primitive
for_id id =
    if id == 0
    then primitive false 600 60 8
    else if id == 1
    then primitive true 0 0 0
    else if id == 2
    then primitive false 1200 20 6
    else if id == 3
    then primitive false 1200 8 5
    else primitive true 0 0 0

-- The calls on the audio and motion sinks, in order.
pub data Sink : Type 0 where
  cancel_all stop : Sink
  beep : CueNote → Sink
  start_wiggle : ℕ → ℕ → ℕ → Sink

unfoldable pub conduct_bundle : Task → Task × List Sink × Bool
conduct_bundle t = if not t.has_bundle then (t, [], false) else (
  record t { has_bundle = false },
  cancel_all ∷ stop ∷ elim (lookup t.bundle) [
    | none ↦ []
    | some e ↦
        let prim = for_id e.motion in
        map beep (cue_for e.sound)
        ++ (if prim.still
            then []
            else start_wiggle prim.duration_ms prim.rate_hz prim.amplitude ∷ [])
  ],
  true,
)
