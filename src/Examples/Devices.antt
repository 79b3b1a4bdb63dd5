-- ===== src/Examples/Devices.antt =====
-- The manifest of an update and the sensors on small inputs.
use desky.Prelude.{
  ℕ, zero, suc, ◌+◌, ◌-◌, ◌<◌, ◌≡◌, ◌⊎◌, refl, arith, Bool, true, false, some, none, List, [], ◌∷◌,
  Each, get_or, take, Option, ◌++◌, length, ltb, if◌then◌else◌,
}
use desky.Ota.Manifest.{is_hex64, build_manifest, parse_manifest}
use desky.Ota.Manifest.RoundTrip.{parse_manifest-build_manifest}
use desky.Bus.{Event, Queue, Slot, no_slot}
use desky.Bus.Slots.{IsFifo, publish_all, take_out, publish_all-take_out}
use desky.Prelude.Int.{pos, negsuc}
use desky.Motor.{Motor, start_wiggle, set_velocity, brake}
use desky.Motor.Done.{ticks, done_count, start_wiggle-ticks}
use desky.Motor.Driver.{Driver, set_duty}
use desky.Motor.Driver.Pins.{IsDriven, set_duty-IsDriven}
use desky.Sensors.Views.{Tick, view, published, last_live, view-published}
use desky.Sensors.PairButton.{update}
use desky.Sensors.PairButton.Steady.{Sample, after, update-steady}

abbrev zeroes_text : ℕ → List ℕ
zeroes_text zero = []
zeroes_text (suc n) = 48 ∷ zeroes_text n

abbrev hex : List ℕ
hex = zeroes_text 64

parse_manifest-build_manifest_example :
    ((is_hex64 hex ≡ true)
      × ((text : List ℕ) × (build_manifest 12 70000 hex 256 ≡ some text)
          × (parse_manifest text ≡ some (record { version = 12; size = 70000; sha = hex }))))
    ⊎ ((is_hex64 hex ≡ false) × (build_manifest 12 70000 hex 256 ≡ none))
parse_manifest-build_manifest_example =
    parse_manifest-build_manifest 12 70000 hex (omega arith) (omega arith)

-- Front ground is lost on a live tick; the dead tick says nothing.
abbrev rail_ticks : List Tick
rail_ticks =
    record { live = true; fwd = false; rev = true }
    ∷ (record { live = false; fwd = true; rev = false } ∷ [])

view-published_example :
    view (true, true) (published (true, true) rail_ticks) ≡ last_live (true, true) rail_ticks
view-published_example = view-published rail_ticks (true, true)

-- Released at 0, then pressed at 10 and still at 30, and read again at 70.
abbrev readings : List Sample
readings =
    record { raw = true; time = 30 }
    ∷ (record { raw = true; time = 10 } ∷ (record { raw = false; time = 0 } ∷ []))

press_run : (update (after 50 readings) true 70 50).1 ≡ true
unfolding update after
press_run = refl

update-steady_example :
    (◌≡◌ {A = Bool} true true) × Each (λ (x : Sample). 70 < x.time + 50 → x.raw ≡ true) readings
update-steady_example =
    update-steady readings true 70 50 (omega arith, (omega arith, (omega arith, tt))) (omega arith)
      (omega arith) press_run

-- A queue as its number of places and its events.
abbrev Places : Type 0
Places = ℕ × List Event

unfoldable send_to : Places → Event → Places × Bool
send_to (depth, items) e =
    if ltb (length items) depth then ((depth, items ++ (e ∷ [])), true) else ((depth, items), false)

unfoldable receive_from : Places → Places × Option Event
receive_from (depth, []) = ((depth, []), none)
receive_from (depth, e ∷ es) = ((depth, es), some e)

receive_first :
    (q : Places) (e : Event) (es : List Event)
    → q.1 ≡ e ∷ es
    → ((receive_from q).1 ≡ some e) × ((receive_from q).0.1 ≡ es)
unfolding receive_from
receive_first (depth, []) e es h = absurd (ground arith)
receive_first (depth, x ∷ xs) e es h = (ground arith, ground arith)

receive_empty : (q : Places) → q.1 ≡ [] → (receive_from q).1 ≡ none
unfolding receive_from
receive_empty (depth, []) h = refl
receive_empty (depth, x ∷ xs) h = absurd (ground arith)

receive_depth : (q : Places) → (receive_from q).0.0 ≡ q.0
unfolding receive_from
receive_depth (depth, []) = refl
receive_depth (depth, x ∷ xs) = refl

places-IsFifo : IsFifo send_to receive_from (λ q. q.0) (λ q. q.1)
unfolding send_to
places-IsFifo = record {
  send_room = λ q e h. (ground arith, ground arith);
  send_full = λ q e h. (ground arith, ground arith);
  send_depth = λ q e. ground arith;
  receive_first = receive_first;
  receive_empty = receive_empty;
  receive_depth = receive_depth;
}

-- A queue of two places in the second slot, and three events.
abbrev tiny_queue : Queue Places
tiny_queue = record { handle = 7; contents = (2, []) }

abbrev small_bus : List (Slot Places)
small_bus = no_slot ∷ (record { queue = some tiny_queue; dropped = 0 } ∷ [])

abbrev event_of : ℕ → Event
event_of k = record { kind = k; payload = 0; time = 0 }

abbrev three_events : List Event
three_events = event_of 1 ∷ (event_of 2 ∷ (event_of 3 ∷ []))

publish_all-take_out_example :
    let after = get_or (publish_all send_to receive_from small_bus three_events) 1 no_slot in
    (take_out send_to receive_from 5 after ≡ take 5 (take 2 three_events))
    × (after.dropped ≡ 0 + (3 - 2))
publish_all-take_out_example =
    publish_all-take_out send_to receive_from (λ q. q.0) (λ q. q.1) places-IsFifo small_bus 1 5 0
      tiny_queue three_events refl refl (omega arith)

abbrev motor : Motor
motor = record {
  v = pos 0;
  omega = pos 0;
  wiggling = false;
  start_ms = 0;
  duration_ms = 0;
  rate = pos 2;
  amplitude = 0;
}

-- Turns at 10, 20 and 30 ms, and a wiggle of 15 ms from 5 ms on.
start_wiggle-ticks_example :
    let w = start_wiggle motor 5 15 (pos 2) (pos 76) in
    (done_count (ticks w (10 ∷ (20 ∷ (30 ∷ [])))) ≡ 1)
    × ((done_count (ticks (set_velocity w (pos 50) (pos 0)) (10 ∷ (20 ∷ (30 ∷ [])))) ≡ 0)
        × (done_count (ticks (brake w).0 (10 ∷ (20 ∷ (30 ∷ [])))) ≡ 0))
start_wiggle-ticks_example =
    start_wiggle-ticks motor 5 15 (pos 2) (pos 76) (pos 50) (pos 0) (10 ∷ (20 ∷ (30 ∷ [])))
      (omega arith) refl

abbrev bridge : Driver
bridge = record { min_duty = 65; enabled = true; in1 = 0; in2 = 0; in3 = 0; in4 = 0 }

set_duty-IsDriven_example :
    IsDriven 65
      (pos 100)
      ((set_duty bridge (pos 100) (negsuc 299)).in1, (set_duty bridge (pos 100) (negsuc 299)).in2)
    × IsDriven 65
        (negsuc 299)
        ((set_duty bridge (pos 100) (negsuc 299)).in3, (set_duty bridge (pos 100) (negsuc 299)).in4)
set_duty-IsDriven_example = set_duty-IsDriven bridge (pos 100) (negsuc 299) (omega arith) refl
