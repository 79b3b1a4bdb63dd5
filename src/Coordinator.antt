-- ===== src/Coordinator.antt =====
-- One tick of the behavior coordinator: `Coordinator::loop` of
-- embedded/core/src/behavior/coordinator.h. What the tick reads from elsewhere is its argument: the
-- clock, the events that wait in its queue (the loop drains the queue, so the list is finite), and
-- the readings of the pairing session. What it calls are effects, in order. Logging and the watchdog
-- are left out.
pub mod Drain
pub mod Motion
pub mod Loss
pub mod Feed
use desky.Prelude.{
  ℕ, Bool, true, false, not, ◌&&◌, ◌||◌, Option, none, some, List, [], ◌∷◌, ◌++◌, ltb, sub32, ◌==◌,
  if◌then◌else◌,
}
use desky.Prelude.Int.{ℤ, pos, is_nonzero}
use desky.Catalog.{boot}
use desky.Udp.{unpack_command}
use desky.Expression
use desky.Expression.{Task}
use desky.Mode
use desky.Mode.{Mode}
use desky.Arbiter.{
  BehaviorId, behavior_none, behavior_code, RobotMode, mode_manual, is_emergency, unpack_ground,
  ArbitrateInput, ArbitrateOutput, arbitrate, desired_safety_face, resolve_safety_edge,
}

-- `CFG_COORDINATOR_STALE_MS` of embedded/core/include/config.h.
abbrev pub stale_ms : ℕ
stale_ms = 500

-- The payloads of the events that the drain reads; it ignores all others.
pub data SystemEvent : Type 0 where
  ground_changed udp_command_received behavior_done obstacle_detected obstacle_cleared :
      ℕ → SystemEvent
  other_event : SystemEvent

-- The session is shared with the radio task, so each read has its own field; `isPaired` is read
-- twice. The three staged requests are consumed by their reads.
pub record Readings : Type 0 where
  pub window_open : Bool
  pub paired_policy : Bool
  pub manual_take : Bool
  pub manual_release : Bool
  pub alive_fresh : Bool
  pub paired_gate : Bool
  pub expr_trigger : Option ℕ

pub record Snapshot : Type 0 where
  pub mode : RobotMode
  pub active_behavior : BehaviorId
  pub cliff_detected : Bool
  pub manual : Bool
  pub gnd_fwd : Bool
  pub gnd_rev : Bool

-- The members that the task keeps; `expr` and `has_telem` are the attached objects, if any.
pub record Coord : Type 0 where
  pub mode : RobotMode
  pub sys_mode : Mode
  pub active : BehaviorId
  pub emergency_latched : Bool
  pub gnd_fwd : Bool
  pub gnd_rev : Bool
  pub obstacle_asserted : Bool
  pub has_safety : Bool
  pub last_safety : ℕ
  pub cmd_v : ℤ
  pub cmd_omega : ℤ
  pub has_cmd : Bool
  pub last_cmd_ms : ℕ
  pub expr : Option Task
  pub has_telem : Bool

pub data Effect : Type 0 where
  note_command : ℤ → ℤ → ℕ → Effect
  brake stop : Effect
  set_velocity : ℤ → ℤ → Effect
  publish_started : BehaviorId → Effect

unfoldable pub new_coord : Option Task → Bool → Coord
new_coord expr has_telem = record {
  mode = mode_manual;
  sys_mode = Mode.normal;
  active = behavior_none;
  emergency_latched = false;
  gnd_fwd = true;
  gnd_rev = true;
  obstacle_asserted = false;
  has_safety = false;
  last_safety = boot;
  cmd_v = pos 0;
  cmd_omega = pos 0;
  has_cmd = false;
  last_cmd_ms = 0;
  expr = expr;
  has_telem = has_telem;
}

-- The single-tick edges that the drain collects.
pub record Edges : Type 0 where
  pub ground_event : Bool
  pub ground_clear : Bool
  pub obstacle_event : Bool
  pub obstacle_clear : Bool
  pub fresh_command : Bool
  pub done_received : Bool
  pub done_id : ℕ

abbrev pub no_edges : Edges
no_edges = record {
  ground_event = false;
  ground_clear = false;
  obstacle_event = false;
  obstacle_clear = false;
  fresh_command = false;
  done_received = false;
  done_id = 0;
}

-- One case of the drain's switch.
unfoldable pub drain_one : Coord → Edges → ℕ → SystemEvent → Coord × Edges × List Effect
drain_one c e now (ground_changed payload) =
    let g = unpack_ground payload in
    let lost = c.gnd_fwd && not g.fwd || c.gnd_rev && not g.rev in
    let was_loss = not c.gnd_fwd || not c.gnd_rev in
    (
      record c { gnd_fwd = g.fwd; gnd_rev = g.rev },
      record e {
        ground_event = lost || e.ground_event;
        ground_clear = not lost && was_loss && g.fwd && g.rev || e.ground_clear;
      },
      [],
    )
drain_one c e now (udp_command_received payload) =
    let u = unpack_command payload in
    (
      record c { cmd_v = u.v; cmd_omega = u.omega; has_cmd = true; last_cmd_ms = now },
      record e { fresh_command = true },
      if c.has_telem then note_command u.v u.omega now ∷ [] else [],
    )
drain_one c e now (behavior_done payload) =
    (c, record e { done_received = true; done_id = payload }, [])
drain_one c e now (obstacle_detected payload) =
    (record c { obstacle_asserted = true }, record e { obstacle_event = true }, [])
drain_one c e now (obstacle_cleared payload) =
    (record c { obstacle_asserted = false }, record e { obstacle_clear = true }, [])
drain_one c e now other_event = (c, e, [])

unfoldable pub drain : Coord → Edges → ℕ → List SystemEvent → Coord × Edges × List Effect
unfolding drain_one
drain c e now [] = (c, e, [])
drain c e now (ev ∷ evs) =
    let (c', e', out) = drain_one c e now ev in
    let (c'', e'', rest) = drain c' e' now evs in (c'', e'', out ++ rest)

-- The mode policy feed: window and pair reads, then the staged session requests, then the alive
-- poll.
unfoldable pub feed_mode : Mode → Option Readings → Mode
feed_mode m none = m
feed_mode m (some r) =
    let m1 = Mode.apply m (
      if r.window_open
      then Mode.pair_window_opened
      else if r.paired_policy
      then Mode.paired
      else Mode.pair_window_closed) in
    let m2 = if r.manual_take then Mode.apply m1 Mode.manual_take_granted else m1 in
    let m3 = if r.manual_release then Mode.apply m2 Mode.manual_release_granted else m2 in
    if not r.alive_fresh then Mode.apply m3 Mode.alive_stale else m3

abbrev pub is_stale : Coord → ℕ → Bool
is_stale c now = not c.has_cmd || ltb stale_ms (sub32 now c.last_cmd_ms)

abbrev pub paired_for_drive : Option Readings → Bool
paired_for_drive none = true
paired_for_drive (some r) = r.paired_gate

-- The arbitrator's input, from the state after the drain and the mode after the feed.
unfoldable pub arbiter_input : Coord → Edges → ℕ → Option Readings → ArbitrateInput
arbiter_input c e now r =
    let stale = is_stale c now in
    record {
      mode = c.mode;
      active_behavior = c.active;
      emergency_latched = c.emergency_latched;
      ground_event = e.ground_event;
      gnd_fwd = c.gnd_fwd;
      gnd_rev = c.gnd_rev;
      cmd_v = c.cmd_v;
      cmd_omega = c.cmd_omega;
      has_command =
          c.has_cmd
          && not (Mode.motion_inhibited c.sys_mode stale)
          && Mode.manual_drive_allowed c.sys_mode (paired_for_drive r);
      fresh_command = e.fresh_command;
      udp_stale = stale;
      done_received = e.done_received;
      done_id = e.done_id;
    }

unfoldable pub apply_motion : ArbitrateOutput → List Effect
apply_motion out =
    if out.do_brake
    then brake ∷ []
    else if out.hold_motion
    then []
    else if not (is_nonzero out.v) && not (is_nonzero out.omega)
    then stop ∷ []
    else set_velocity out.v out.omega ∷ []

-- The safety face: the hold flag and the id that safety claims, and the face owner.
pub record Safety : Type 0 where
  pub task : Task
  pub has_safety : Bool
  pub last_safety : ℕ

unfoldable pub safety_edge : Coord → Task → ℕ → Safety
safety_edge c t now =
    let desired = desired_safety_face (not c.gnd_fwd || not c.gnd_rev) c.obstacle_asserted in
    let d = resolve_safety_edge desired c.has_safety c.last_safety (Expression.active t) in
    if d.request
    then (let t1 = if d.release_first then (Expression.request t boot now).0 else t in
        let (t2, took) = Expression.request t1 d.id now in
        if took
        then record { task = t2; has_safety = d.has_hold; last_safety = d.hold_id }
        else record { task = t2; has_safety = c.has_safety; last_safety = c.last_safety })
    else record { task = t; has_safety = d.has_hold; last_safety = d.hold_id }

unfoldable pub safety_face : Coord → Edges → ℕ → Coord
unfolding safety_edge
safety_face c e now = elim c.expr [
  | none ↦ c
  | some t ↦
      if e.ground_event || e.obstacle_event || e.ground_clear || e.obstacle_clear
      then (let s = safety_edge c t now in
          record c { expr = some s.task; has_safety = s.has_safety; last_safety = s.last_safety })
      else c
]

-- The staged trigger of the app, forwarded only while the session is held.
unfoldable pub expr_trigger : Coord → Option Readings → ℕ → Coord
expr_trigger c none now = c
expr_trigger c (some r) now = elim c.expr [
  | none ↦ c
  | some t ↦ elim r.expr_trigger [
    | none ↦ c
    | some id ↦
        if Mode.expr_trigger_allowed c.sys_mode
        then record c { expr = some (Expression.request t id now).0 }
        else c
  ]
]

abbrev is_same : BehaviorId → BehaviorId → Bool
is_same a b = behavior_code a == behavior_code b

unfoldable pub announce : BehaviorId → BehaviorId → List Effect
announce next active =
    if is_same next active || is_same next behavior_none then [] else publish_started next ∷ []

-- The state after the drain and the feed, on which the tick decides.
unfoldable pub sense : Coord → ℕ → List SystemEvent → Option Readings → Coord × Edges × List Effect
unfolding drain feed_mode
sense c now evs r =
    let (c1, e, notes) = drain c no_edges now evs in
    (record c1 { sys_mode = feed_mode c1.sys_mode r }, e, notes)

unfoldable pub decide : Coord → Edges → ℕ → Option Readings → Coord × List Effect
unfolding arbiter_input arbitrate apply_motion safety_face expr_trigger announce
decide c e now r =
    let out = arbitrate (arbiter_input c e now r) in
    let faced = expr_trigger (safety_face c e now) r now in
    (
      record faced {
        mode = out.next_mode;
        active = out.next_behavior;
        emergency_latched = is_emergency out.next_mode;
      },
      apply_motion out ++ announce out.next_behavior c.active,
    )

unfoldable pub tick : Coord → ℕ → List SystemEvent → Option Readings → Coord × List Effect
unfolding sense decide
tick c now evs r =
    let (c1, e, notes) = sense c now evs r in
    let (c2, acts) = decide c1 e now r in (c2, notes ++ acts)

-- The notifiers that other tasks call between two ticks.
unfoldable pub on_ota_staged : Coord → Coord
on_ota_staged c = record c { sys_mode = Mode.apply c.sys_mode Mode.ota_staged }

unfoldable pub on_ota_done : Coord → Coord
on_ota_done c = record c { sys_mode = Mode.apply c.sys_mode Mode.ota_done }

-- What the telemetry task copies out after a tick.
unfoldable pub snapshot : Coord → Snapshot
snapshot c = record {
  mode = c.mode;
  active_behavior = c.active;
  cliff_detected = not c.gnd_fwd;
  manual = Mode.is_manual c.sys_mode;
  gnd_fwd = c.gnd_fwd;
  gnd_rev = c.gnd_rev;
}
