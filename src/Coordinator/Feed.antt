-- ===== src/Coordinator/Feed.antt =====
-- The mode policy feed and the safety face of a tick.
use desky.Prelude.{ℕ, ◌≡◌, ◌≢◌, ◌⊎◌, ◌↔◌, ◌==◌, arith, true, false, not, ◌&&◌, ◌||◌, some}
use desky.Catalog.{boot, priority_for, lookup}
use desky.Expression
use desky.Expression.{Task, manager_request}
use desky.Mode
use desky.Mode.{Mode}
use desky.Arbiter.{desired_safety_face, resolve_safety_edge}
use desky.Coordinator.{Readings, Coord, feed_mode, safety_edge}

-- The feed lands on the manual mode exactly when the alive poll is fresh, no release is staged, the
-- window is closed, and the mode was manual or a take is staged outside an update.
pub feed_mode-manual_iff :
    (m : Mode) (r : Readings)
    → (feed_mode m (some r) ≡ Mode.manual) ↔ (
        (r.alive_fresh ≡ true)
        × (r.manual_release ≡ false)
        × (r.window_open ≡ false)
        × ((m ≡ Mode.manual) ⊎ ((r.manual_take ≡ true) × (m ≢ Mode.ota))))
unfolding feed_mode Mode.apply
feed_mode-manual_iff m r = (λ h. ground arith, λ h. ground arith)

-- An update in progress and an open window decide the mode before the session does.
pub feed_mode-priority :
    (m : Mode) (r : Readings)
    → ((feed_mode m (some r) ≡ Mode.ota) ↔ (m ≡ Mode.ota))
      × ((feed_mode m (some r) ≡ Mode.pairing) ↔ ((r.window_open ≡ true) × (m ≢ Mode.ota)))
unfolding feed_mode Mode.apply
feed_mode-priority m r =
    ((λ h. ground arith, λ h. ground arith), (λ h. ground arith, λ h. ground arith))

-- A claimed hazard shows its face after the edge, whatever face was active, and the face is recorded
-- as safety's own.
pub safety_edge-claims :
    (c : Coord) (t : Task) (now : ℕ) {id : ℕ}
    → desired_safety_face (not c.gnd_fwd || not c.gnd_rev) c.obstacle_asserted ≡ some id
    → let s = safety_edge c t now in
      (Expression.active s.task ≡ id) × (s.has_safety ≡ true) × (s.last_safety ≡ id)
unfolding safety_edge desired_safety_face resolve_safety_edge Expression.request manager_request
    priority_for lookup
safety_edge-claims c t now h = ground arith

-- With no hazard left, safety releases its own face to the boot face, and leaves a face that is not
-- its own alone; either way it claims nothing.
pub safety_edge-releases :
    (c : Coord) (t : Task) (now : ℕ)
    → c.gnd_fwd ≡ true
    → c.gnd_rev ≡ true
    → c.obstacle_asserted ≡ false
    → let s = safety_edge c t now in
      (((Expression.active t ≡ c.last_safety)
          × (c.has_safety ≡ true)
          × (Expression.active s.task ≡ boot)
          × (s.has_safety ≡ false))
        ⊎ ((c.has_safety && Expression.active t == c.last_safety) ≡ false)
          × (s.task ≡ t)
          × (s.has_safety ≡ false))
unfolding safety_edge desired_safety_face resolve_safety_edge Expression.request manager_request
    priority_for lookup
safety_edge-releases c t now f v o = ground arith
