-- ===== src/Pairing/Code.antt =====
-- The one-time code: class `Core` of embedded/core/src/abilities/pairing/pairing_manager.h. A code
-- has 6 bytes; a null pointer is not modelled.
pub mod Guesses
use desky.Prelude.{
  ℕ, ◌+◌, Bool, true, false, not, ◌&&◌, ◌||◌, List, [], ◌∷◌, ltb, leb, ◌==◌, if◌then◌else◌, u32,
  sub32, length,
}
use desky.Udp.Rx.{diff_from}
use desky.Link.Payload.{all_digits}

abbrev pub code_len : ℕ
code_len = 6

abbrev pub window_ms : ℕ
window_ms = 300000

abbrev pub max_tries : ℕ
max_tries = 5

abbrev pub lockout_ms : ℕ
lockout_ms = 30000

pub data Result : Type 0 where
  ok bad_code locked not_in_window already_paired internal : Result

unfoldable pub to_wire_reason : Result → ℕ
to_wire_reason ok = 0xFF
to_wire_reason bad_code = 0
to_wire_reason locked = 1
to_wire_reason not_in_window = 2
to_wire_reason already_paired = 3
to_wire_reason internal = 4

pub record Core : Type 0 where
  pub code : List ℕ
  pub window_open : Bool
  pub paired : Bool
  pub burned : Bool
  pub tries : ℕ
  pub window_start_ms : ℕ
  pub lockout_start_ms : ℕ
  pub era : ℕ
  pub pair_ms : ℕ

-- `lockoutStartMs_` starts at 0 too.
abbrev pub new_core : Core
new_core = record {
  code = 48 ∷ 48 ∷ 48 ∷ 48 ∷ 48 ∷ 48 ∷ [];
  window_open = false;
  paired = false;
  burned = false;
  tries = 0;
  window_start_ms = 0;
  lockout_start_ms = 0;
  era = 0;
  pair_ms = 0;
}

unfoldable pub open_window : Core → ℕ → List ℕ → Core × Bool
open_window c now code = if not (all_digits code) then (c, false) else (
  record c { code = code; window_open = true; burned = false; tries = 0; window_start_ms = now },
  true,
)

unfoldable pub on_paired : Core → ℕ → Core
on_paired c now = record c {
  paired = true;
  burned = true;
  window_open = false;
  era = 0;
  pair_ms = now;
}

abbrev pub constant_time_equal6 : List ℕ → List ℕ → Bool
constant_time_equal6 a b = diff_from 0 a b == 0

-- The attempt itself, once the gates are passed; `c` has the tries that count.
abbrev attempt : Core → List ℕ → ℕ → Core × Result
attempt c in' now =
    if length in' == code_len && constant_time_equal6 c.code in'
    then (on_paired c now, ok)
    else if leb max_tries (c.tries + 1)
    then (record c { tries = c.tries + 1; lockout_start_ms = now }, locked)
    else (record c { tries = c.tries + 1 }, bad_code)

unfoldable pub try_code : Core → List ℕ → ℕ → Core × Result
unfolding on_paired
try_code c in' now =
    if c.paired
    then (c, already_paired)
    else if not c.window_open || c.burned || leb window_ms (sub32 now c.window_start_ms)
    then (record c { window_open = false }, not_in_window)
    else if leb max_tries c.tries && ltb (sub32 now c.lockout_start_ms) lockout_ms
    then (c, locked)
    else attempt (if leb max_tries c.tries then record c { tries = 0 } else c) in' now

unfoldable pub clear_pair : Core → Core
clear_pair c = record c {
  paired = false;
  burned = false;
  window_open = false;
  tries = 0;
  era = 0;
  pair_ms = 0;
}

unfoldable pub on_pair_refresh_applied : Core → ℕ → Core
on_pair_refresh_applied c next_era = record c { era = next_era }

unfoldable pub window_open_at : Core → ℕ → Bool
window_open_at c now =
    c.window_open && not c.burned && not c.paired && ltb (sub32 now c.window_start_ms) window_ms
