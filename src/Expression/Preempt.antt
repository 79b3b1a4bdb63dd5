-- ===== src/Expression/Preempt.antt =====
-- The preemption policy of the face.
use desky.Prelude.{
  ℕ, ◌≤◌, ◌≡◌, ◌≢◌, ◌↔◌, ◌⊎◌, refl, Option-cases, sym, ap, arith, true, false, none, some, inl, inr,
  sub32, ltb, not, ◌&&◌, if◌then◌else◌,
}
use desky.Catalog.{
  Entry, surprised, surprised_hold_ms, is_neutral, lookup, priority_for, hold_ms_for,
}
use desky.Catalog.Laws.{is_play_once_iff}
use desky.Expression.{Manager, manager_request, manager_tick}

priority_lem : (id : ℕ) {e : Entry} → lookup id ≡ some e → priority_for id ≡ e.priority
priority_lem id h = unfold priority_for in ground (arith, h)

-- The request as one test on the priorities.
manager_request_lem :
    (m : Manager) (id now : ℕ) {e : Entry}
    → lookup id ≡ some e
    → manager_request m id now ≡ (
        if not (is_neutral id) && ltb (priority_for id) (priority_for m.active)
        then (m, false)
        else (record { active = id; since_ms = now }, true))
unfolding manager_request
manager_request_lem m id now h = ground (arith, h, priority_lem id h)

manager_request_unknown :
    (m : Manager) (id now : ℕ) → lookup id ≡ none → manager_request m id now ≡ (m, false)
unfolding manager_request
manager_request_unknown m id now h = rw (h, manager_request)

-- A request takes effect exactly when the id is in the catalog and is neutral or of at least the
-- active face's priority.
pub manager_request_iff :
    (m : Manager) (id now : ℕ)
    → ((manager_request m id now).1 ≡ true)
      ↔ ((lookup id ≢ none) × ((is_neutral id ≡ true) ⊎ (priority_for m.active ≤ priority_for id)))
manager_request_iff m id now = elim (Option-cases (lookup id)) [
  | inl unknown ↦ rw (manager_request_unknown m id now unknown) (λ h. cc, λ h. absurd (h.0 unknown))
  | inr (e, known) ↦
      rw (manager_request_lem m id now known)
        (λ h. (λ n. cc (sym known), ground arith), λ h. ground arith)
]

-- When it takes effect the face is the requested one from `now` on; when not, nothing changes.
pub manager_request_state :
    (m : Manager) (id now : ℕ)
    → let (m', took) = manager_request m id now in
      ((took ≡ true) × (m' ≡ record { active = id; since_ms = now })) ⊎ ((took ≡ false) × (m' ≡ m))
unfolding manager_request
manager_request_state m id now = ground arith

hold_of_surprised : hold_ms_for surprised ≡ surprised_hold_ms
unfolding hold_ms_for
hold_of_surprised = refl

-- The pump yields to the neutral face exactly when `surprised` has stood for 1500 ms.
pub manager_tick_iff :
    (m : Manager) (now : ℕ)
    → ((manager_tick m now).1 ≡ true)
      ↔ ((m.active ≡ surprised) × (surprised_hold_ms ≤ sub32 now m.since_ms))
unfolding manager_tick
manager_tick_iff m now =
    let once = is_play_once_iff m.active in
    (
      λ h. ground (arith, once, hold_of_surprised),
      λ h. ground (arith, once, hold_of_surprised, ap hold_ms_for h.0),
    )
