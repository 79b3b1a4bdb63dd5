-- ===== src/Pairing/Button/Eviction.antt =====
-- The pair button evicts the owner and opens the window for the next one.
use desky.Prelude.{
  ℕ, ◌+◌, ◌≤◌, ◌≡◌, ◌↔◌, refl, arith, true, false, ◌&&◌, Option, some, none, List, [], ◌∷◌, ◌++◌,
  ◌==◌, ltb, sub32, length, length-append,
}
use desky.Link.Payload.{all_digits}
use desky.Pairing.Code.{ok, open_window, clear_pair, try_code, constant_time_equal6, window_ms}
use desky.Pairing.Session.{Session, Effect, zeroes}
use desky.Pairing.Button.{
  open_pairing_window, clear_session, evict, enter_pair_mode, pump_eviction_burst, goodbye,
}

-- The pump at each of the given instants.
unfoldable pub pumps : Session → List ℕ → Session × List Effect
pumps s [] = (s, [])
pumps s (now ∷ nows) =
    let (t, sent) = pump_eviction_burst s now in
    let (t', sent') = pumps t nows in (t', sent ++ sent')

pump_eviction_burst-length :
    (s : Session) (now : ℕ)
    → length (pump_eviction_burst s now).1 + (pump_eviction_burst s now).0.evict_remaining
      ≡ s.evict_remaining
unfolding pump_eviction_burst
pump_eviction_burst-length s now = ground arith

pumps-length : (s : Session) (nows : List ℕ) → length (pumps s nows).1 ≤ s.evict_remaining
unfolding pumps
pumps-length s [] = omega arith
pumps-length s (now ∷ nows) =
    let h = pump_eviction_burst-length s now in
    let t = (pump_eviction_burst s now).0 in
    let ih = pumps-length t nows in
    let e = length-append (pump_eviction_burst s now).1 (pumps t nows).1 in omega arith

-- The session behind the button: nothing of the owner is left, and the window takes its code alone.
abbrev pub IsReopened : Session → ℕ → List ℕ → Type 0
IsReopened t now code =
    (t.paired ≡ false)
    × (t.psk ≡ zeroes 16)
    × (t.from_app ≡ 0)
    × (t.evict_remaining ≤ 2)
    × ((a : List ℕ) (later : ℕ)
        → ((try_code t.core a later).1 ≡ ok) ↔ (
            ltb (sub32 later now) window_ms && (length a == 6 && constant_time_equal6 code a)
            ≡ true))

open_pairing_window-IsReopened :
    (s : Session) (now : ℕ) (code : List ℕ)
    → all_digits code ≡ true
    → s.paired ≡ false
    → s.psk ≡ zeroes 16
    → s.from_app ≡ 0
    → s.evict_remaining ≤ 2
    → s.core.paired ≡ false
    → ((open_pairing_window s now code).1 ≡ true)
      × IsReopened (open_pairing_window s now code).0 now code
unfolding open_pairing_window open_window try_code
open_pairing_window-IsReopened s now code digits p k f e c = (
  ground arith,
  (
    ground arith,
    ground arith,
    ground arith,
    ground arith,
    λ a later. (λ h. ground arith, λ h. ground arith),
  ),
)

module _ (hmac : List ℕ → List ℕ → Option (List ℕ)) where
  evict-IsReopened :
      (s : Session) (now : ℕ) (code : List ℕ) (frame : Option (List ℕ))
      → all_digits code ≡ true
      → ((evict hmac s now code frame).1 ≡ true)
        × IsReopened (evict hmac s now code frame).0 now code
  unfolding evict clear_session clear_pair
  evict-IsReopened s now code none digits =
      open_pairing_window-IsReopened (clear_session s) now code digits refl refl refl (omega arith)
        refl
  evict-IsReopened s now code (some frame) digits =
      open_pairing_window-IsReopened _ now code digits refl refl refl (omega arith) refl

  -- The pair button, on any session and with a code of digits: the window is open; the session is
  -- unpaired, without key and counter; an attempt pairs with 6 bytes that compare equal to the new code,
  -- less than 5 minutes after the press, and in no other case; and the frame that tells the owner is
  -- sent again at most twice, however often the pump runs.
  pub enter_pair_mode-evicts :
      (s : Session) (now : ℕ) (code : List ℕ) (nows : List ℕ)
      → all_digits code ≡ true
      → ((enter_pair_mode hmac s now code).1 ≡ true)
        × IsReopened (enter_pair_mode hmac s now code).0 now code
        × (length (pumps (enter_pair_mode hmac s now code).0 nows).1 ≤ 2)
  unfolding enter_pair_mode
  enter_pair_mode-evicts s now code nows digits =
      let (opened, reopened) = evict-IsReopened s now code (goodbye hmac s) digits in
      let few = pumps-length (enter_pair_mode hmac s now code).0 nows in
      (opened, reopened, (let h = reopened.3 in omega arith))
