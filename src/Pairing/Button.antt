-- ===== src/Pairing/Button.antt =====
-- The pair button and the boot: `restorePair`, `openPairingWindow`, `clearPair`, `enterPairMode`,
-- `pumpEvictionBurst` and `composeEvictFrame` of embedded/core/src/abilities/pairing/
-- pairing_task.h. The code of the new window is an argument; the source draws its digits.
pub mod Eviction
use desky.Prelude.{
  ℕ, ◌+◌, ◌-◌, Bool, true, false, not, ◌&&◌, ◌||◌, Option, none, some, List, [], ◌∷◌, ◌++◌, ◌==◌,
  ◌!=◌, leb, if◌then◌else◌, u32, sub32, take,
}
use desky.Link.{put_u16_be, put_u32_be}
use desky.Pairing.Peer.{cleared}
use desky.Pairing.Code.{open_window, clear_pair}
use desky.Pairing.Tags.{disconnect_tag_msg, next_to_app_counter}
use desky.Pairing.Session.{
  Session, Effect, save_to_app_counter, clear_stored_pair, notify_pairing_done, send_disconnect,
  zeroes, no_last_pair,
}
use desky.Pairing.Enrol.{sealed}

-- What the store holds of a pair.
pub record Stored : Type 0 where
  pub psk : List ℕ
  pub counter : ℕ
  pub to_app : ℕ
  pub era : ℕ

unfoldable pub restore_pair : Session → Option Stored → Session
restore_pair s none = record s {
  last_pair = record s.last_pair { valid = false };
  paired = false;
  from_app = 0;
  to_app = 0;
  era = 0;
  evict_remaining = 0;
  pending_valid = false;
  pair_show_sent = false;
}
restore_pair s (some p) = record s {
  last_pair = record s.last_pair { valid = false };
  paired = true;
  from_app = p.counter;
  to_app = p.to_app;
  evict_remaining = 0;
  era = p.era;
  psk = p.psk;
}

unfoldable pub open_pairing_window : Session → ℕ → List ℕ → Session × Bool
open_pairing_window s now code =
    if s.paired
    then (s, false)
    else (let (core', opened) = open_window s.core now code in
        if not opened then (record s { core = core' }, false) else (
          record s {
            core = core';
            pending_code = code;
            pending_valid = true;
            pair_show_sent = false;
          },
          true,
        ))

unfoldable pub clear_session : Session → Session
clear_session s = record s {
  core = clear_pair s.core;
  paired = false;
  from_app = 0;
  to_app = 0;
  conn = cleared;
  era = 0;
  valid_count = 0;
  evict_remaining = 0;
  psk = zeroes 16;
  last_pair = no_last_pair;
  pending_valid = false;
  pair_show_sent = false;
  manual_take = false;
  manual_release = false;
  expr = none;
}

abbrev pub evict_gap_ms : ℕ
evict_gap_ms = 50

unfoldable pub pump_eviction_burst : Session → ℕ → Session × List Effect
pump_eviction_burst s now =
    if s.evict_remaining == 0
    then (s, [])
    else if leb 0x80000000 (sub32 now s.evict_due_ms)
    then (s, [])
    else (
      record s {
        evict_remaining = s.evict_remaining - 1;
        evict_due_ms = u32 (s.evict_due_ms + evict_gap_ms);
      },
      send_disconnect s.evict_ip s.evict_port s.evict_frame ∷ [],
    )

module _ (hmac : List ℕ → List ℕ → Option (List ℕ)) where
  unfoldable pub compose_evict_frame : ℕ → ℕ → List ℕ → Option (List ℕ)
  compose_evict_frame era ctr psk = elim (hmac psk (disconnect_tag_msg era ctr)) [
    | none ↦ none
    | some mac ↦ some (sealed (0x56 ∷ (put_u16_be era ++ (put_u32_be ctr ++ take 6 mac))))
  ]

  -- The owner's goodbye, if there is an owner to reach; the counter is saved even where no frame can be
  -- composed.
  abbrev pub goodbye : Session → Option (List ℕ)
  goodbye s =
      let has_peer = s.conn.have || s.ip != 0 || s.port != 0 in
      if not (s.paired && has_peer)
      then none
      else compose_evict_frame s.era (next_to_app_counter s.to_app) s.psk

  abbrev pub saved_step : Session → List Effect
  saved_step s =
      if s.paired && (s.conn.have || s.ip != 0 || s.port != 0)
      then save_to_app_counter (next_to_app_counter s.to_app) ∷ []
      else []

  -- With the frame sent, if any: the session is cleared, the resends are staged, the window opens.
  unfoldable pub evict : Session → ℕ → List ℕ → Option (List ℕ) → Session × Bool × List Effect
  unfolding open_pairing_window clear_session
  evict s now code none =
      let (t, opened) = open_pairing_window (clear_session s) now code in
      (t, opened, saved_step s ++ (notify_pairing_done ∷ clear_stored_pair ∷ []))
  evict s now code (some frame) =
      let staged : Session = record (clear_session s) {
        evict_frame = frame;
        evict_ip = s.ip;
        evict_port = s.port;
        evict_remaining = 2;
        evict_due_ms = u32 (now + evict_gap_ms);
      } in
      let (t, opened) = open_pairing_window staged now code in
      (
        t,
        opened,
        saved_step s
            ++ (send_disconnect s.ip s.port frame ∷ notify_pairing_done ∷ clear_stored_pair ∷ []),
      )

  unfoldable pub enter_pair_mode : Session → ℕ → List ℕ → Session × Bool × List Effect
  enter_pair_mode s now code = evict s now code (goodbye s)
