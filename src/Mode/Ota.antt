-- ===== src/Mode/Ota.antt =====
-- Runs of the mode policy.
use desky.Prelude.{◌≡◌, ◌≢◌, ◌↔◌, refl, ap, ◌∙◌, arith, Bool, true, false, List, [], ◌∷◌, Each}
use desky.Mode
use desky.Mode.{Mode, Event, apply}

pub run : Mode → List Event → Mode
run m [] = m
run m (ev ∷ evs) = run (apply m ev) evs

-- The events that end an update.
abbrev pub ends_ota : Event → Bool
ends_ota Mode.ota_done = true
ends_ota Mode.ota_aborted = true
ends_ota ev = false

abbrev pub starts_ota : Event → Bool
starts_ota Mode.ota_staged = true
starts_ota Mode.ota_started = true
starts_ota ev = false

apply-ota : (ev : Event) → ends_ota ev ≡ false → apply Mode.ota ev ≡ Mode.ota
unfolding apply
apply-ota ev h = ground arith

-- An update holds the mode through any events but its own end: no window, pairing, take, release or
-- stale poll leaves it.
pub run-ota :
    (evs : List Event) → Each (λ ev. ends_ota ev ≡ false) evs → run Mode.ota evs ≡ Mode.ota
unfolding run
run-ota [] h = refl
run-ota (ev ∷ evs) h = ap (λ m. run m evs) (apply-ota ev h.0) ∙ run-ota evs h.1

-- No event of the session enters an update, and none of the update enters the manual mode: an
-- update starts on its own events alone, and the manual mode is entered from the normal one on a
-- take alone.
pub apply-enters :
    (m : Mode) (ev : Event)
    → (((m ≢ Mode.ota) × (apply m ev ≡ Mode.ota)) ↔ ((m ≢ Mode.ota) × (starts_ota ev ≡ true)))
      × (((m ≢ Mode.manual) × (apply m ev ≡ Mode.manual))
          ↔ ((m ≡ Mode.normal) × (ev ≡ Mode.manual_take_granted)))
unfolding apply
apply-enters m ev = ((λ h. ground arith, λ h. ground arith), (λ h. ground arith, λ h. ground arith))
