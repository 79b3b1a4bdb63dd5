-- ===== src/Expression/Latch.antt =====
-- The dispatch latch: what the link pump hands to the transport.
use desky.Prelude.{
  ℕ, ◌≡◌, ◌≢◌, ◌⊎◌, inl, refl, arith, Bool, false, none, some, List, [], ◌∷◌, if◌then◌else◌,
}
use desky.Catalog.{boot, lookup}
use desky.Expression.{
  manager_request, manager_tick, Task, new_task, request, tick, active, mark_dispatched,
  publish_staged, conduct_bundle,
}

-- The calls on a task, and what the transport answers where it is asked.
pub data Call : Type 0 where
  req : ℕ → ℕ → Call
  pump : ℕ → Call
  send : Bool → Call
  conduct : Call

unfoldable pub step : Task → Call → Task
step t (req id now) = (request t id now).0
step t (pump now) = (tick t now).0
step t (send sent) = (publish_staged t sent).0
step t conduct = (conduct_bundle t).0

unfoldable pub run : Task → List Call → Task
unfolding step
run t [] = t
run t (c ∷ cs) = run (step t c) cs

-- The active face is in the catalog, and a latch that is set holds the active face.
pub record IsLatched (t : Task) : Type 0 where
  pub known : lookup (active t) ≢ none
  pub staged_active : (t.has_staged ≡ false) ⊎ (t.staged ≡ active t)
  pub bundle_active : (t.has_bundle ≡ false) ⊎ (t.bundle ≡ active t)

boot_known : lookup boot ≢ none
unfolding lookup
boot_known h = cc

request-IsLatched : (t : Task) (id now : ℕ) → IsLatched t → IsLatched (request t id now).0
unfolding request manager_request
request-IsLatched t id now h = ground arith

tick-IsLatched : (t : Task) (now : ℕ) → IsLatched t → IsLatched (tick t now).0
unfolding tick manager_tick
tick-IsLatched t now h = ground (arith, boot_known)

publish_staged-IsLatched :
    (t : Task) (sent : Bool) → IsLatched t → IsLatched (publish_staged t sent).0
unfolding publish_staged
publish_staged-IsLatched t sent h = ground arith

conduct_bundle-IsLatched : (t : Task) → IsLatched t → IsLatched (conduct_bundle t).0
unfolding conduct_bundle
conduct_bundle-IsLatched t h = ground arith

step-IsLatched : (t : Task) (c : Call) → IsLatched t → IsLatched (step t c)
unfolding step
step-IsLatched t (req id now) h = request-IsLatched t id now h
step-IsLatched t (pump now) h = tick-IsLatched t now h
step-IsLatched t (send sent) h = publish_staged-IsLatched t sent h
step-IsLatched t conduct h = conduct_bundle-IsLatched t h

run_from-IsLatched : (cs : List Call) (t : Task) → IsLatched t → IsLatched (run t cs)
unfolding run
run_from-IsLatched [] t h = h
run_from-IsLatched (c ∷ cs) t h = run_from-IsLatched cs (step t c) (step-IsLatched t c h)

-- After any calls on a new task the active face is in the catalog, and each latch that is set
-- holds the face that is active now.
pub run-IsLatched : (cs : List Call) → IsLatched (run new_task cs)
run-IsLatched cs =
    run_from-IsLatched cs new_task
      (record { known = boot_known; staged_active = inl refl; bundle_active = inl refl })

-- After any calls, what the link pump hands to the transport is the active face, which the catalog
-- has; a refused send leaves the task as it was, and one that was taken clears the latch alone.
pub publish_staged-run :
    (cs : List Call) (sent : Bool) {id : ℕ}
    → (publish_staged (run new_task cs) sent).2 ≡ some id
    → let t = run new_task cs in
      (id ≡ active t)
      × (lookup id ≢ none)
      × ((publish_staged t sent).1 ≡ sent)
      × ((publish_staged t sent).0 ≡ (if sent then mark_dispatched t else t))
unfolding publish_staged
publish_staged-run cs sent h =
    let inv = run-IsLatched cs in ground (arith, inv.known, inv.staged_active)
