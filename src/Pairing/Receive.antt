-- ===== src/Pairing/Receive.antt =====
-- The handlers of verified frames: `handleDrive`, `handleAlive`, `handleDisconnect` and
-- `handleLegacy` of embedded/core/src/transport/udp_server.h, and `verifyStagePoll`,
-- `handleManualTake`, `handleManualRelease`, `handleExprTrigger`, `handleUnpair` and the polls of
-- embedded/core/src/abilities/pairing/pairing_task.h. `buf` is a datagram whose length, header and
-- checksum the caller has checked; `ip` and `port` are the sender's. The link to the head is attached.
pub mod Replay
use desky.Prelude.{
  ℕ, ◌+◌, Bool, true, false, not, ◌&&◌, Option, none, some, List, [], ◌∷◌, ◌++◌, ◌==◌, ◌!=◌,
  if◌then◌else◌, get_or, drop,
}
use desky.Udp.{pack_command}
use desky.Udp.Rx.{is_fresh_counter}
use desky.Link.{get_u16_be, get_u32_be}
use desky.Pairing.Peer.{verify, mark_alive, pin_peer, refresh_then_clear, is_alive}
use desky.Pairing.Code.{clear_pair, window_open_at}
use desky.Pairing.Tags.{unpair_tag_msg, drive_tag_msg}
use desky.Pairing.Session.{
  zeroes, no_last_pair, Session, Effect, publish_command, clear_stored_pair, notify_pairing_done,
  hmac_ok, try_consume, try_consume_alive, try_consume_disconnect, try_consume_manual_take,
  try_consume_manual_release, try_consume_expr_trigger,
}

-- `UdpServer::markAlive`: the slot, and the address to answer to.
abbrev pub alive_funnel : Session → Bool → ℕ → ℕ → ℕ → Session
alive_funnel s valid ip port now =
    let conn = mark_alive s.conn valid ip now in
    if not valid then record s { conn = conn } else record s { conn = conn; ip = ip; port = port }

unfoldable pub handle_legacy : Session → ℕ → ℕ → Session
handle_legacy s ip port =
    if s.paired then s else record s { ip = ip; port = port; conn = pin_peer s.conn ip }

-- `takeManualTake`, `takeManualRelease` and `takeExprTrigger`: the value read, and the session.
unfoldable pub take_manual_take : Session → Session × Bool
take_manual_take s = (record s { manual_take = false }, s.manual_take)

unfoldable pub take_manual_release : Session → Session × Bool
take_manual_release s = (record s { manual_release = false }, s.manual_release)

unfoldable pub take_expr_trigger : Session → Session × Option ℕ
take_expr_trigger s = (record s { expr = none }, s.expr)

unfoldable pub pair_window_open : Session → ℕ → Bool
pair_window_open s now = s.pending_valid && window_open_at s.core now

module _ (hmac : List ℕ → List ℕ → Option (List ℕ)) where
  unfoldable pub handle_drive : Session → List ℕ → ℕ → ℕ → ℕ → Session × List Effect
  unfolding try_consume
  handle_drive s buf ip port now =
      let ctr = get_u32_be buf 5 in
      let mode = get_or buf 1 0 in
      let thr = get_or buf 2 0 in
      let str = get_or buf 3 0 in
      let flags = get_or buf 4 0 in
      let msg = drive_tag_msg ctr mode thr str flags in
      if not s.paired
      then (s, [])
      else if not (is_fresh_counter s.from_app ctr)
      then (s, [])
      else (let (s', valid, saved) = try_consume hmac s ctr true (drop 9 buf) msg in
          if not valid then (s', saved) else (
            alive_funnel s' valid ip port now,
            saved ++ publish_command (pack_command mode thr str flags) ∷ [],
          ))

  unfoldable pub handle_alive : Session → List ℕ → ℕ → ℕ → ℕ → Session × List Effect
  unfolding try_consume_alive
  handle_alive s buf ip port now =
      let era = get_u16_be buf 1 in
      let ctr = get_u32_be buf 3 in
      if not s.paired
      then (s, [])
      else if era != s.era
      then (s, [])
      else if not (is_fresh_counter s.from_app ctr)
      then (s, [])
      else (let (s', valid, saved) = try_consume_alive hmac s era ctr (drop 7 buf) in
          if not valid then (s', saved) else (alive_funnel s' valid ip port now, saved))

  unfoldable pub handle_disconnect : Session → List ℕ → ℕ → Session × List Effect
  unfolding try_consume_disconnect
  handle_disconnect s buf now =
      let era = get_u16_be buf 1 in
      let ctr = get_u32_be buf 3 in
      if not s.paired
      then (s, [])
      else if era != s.era
      then (s, [])
      else if not (is_fresh_counter s.from_app ctr)
      then (s, [])
      else (let (s', valid, saved) = try_consume_disconnect hmac s era ctr (drop 7 buf) in
          if not valid
          then (s', saved)
          else (record s' { conn = refresh_then_clear s'.conn valid now }, saved))

  -- The stage shared by the three frames that the coordinator polls.
  abbrev verify_stage_poll :
      Session
      → List ℕ
      → ℕ
      → ℕ
      → ℕ
      → ℕ
      → ℕ
      → ℕ
      → (ℕ → ℕ → List ℕ → Session × Bool × List Effect)
      → (Session → Session)
      → Bool
      → Session × List Effect
  verify_stage_poll s buf ip port now era_off ctr_off tag_off consume stage alive =
      let era = get_u16_be buf era_off in
      let ctr = get_u32_be buf ctr_off in
      if not s.paired
      then (s, [])
      else if era != s.era
      then (s, [])
      else if not (is_fresh_counter s.from_app ctr)
      then (s, [])
      else (let (s', valid, saved) = consume era ctr (drop tag_off buf) in
          if not valid
          then (s', saved)
          else (stage (if alive then alive_funnel s' valid ip port now else s'), saved))

  unfoldable pub handle_manual_take : Session → List ℕ → ℕ → ℕ → ℕ → Session × List Effect
  unfolding try_consume_manual_take
  handle_manual_take s buf ip port now =
      verify_stage_poll s buf ip port now 1 3 7 (try_consume_manual_take hmac s)
        (λ (t : Session). record t { manual_take = true }) true

  unfoldable pub handle_manual_release : Session → List ℕ → ℕ → ℕ → ℕ → Session × List Effect
  unfolding try_consume_manual_release
  handle_manual_release s buf ip port now =
      verify_stage_poll s buf ip port now 1 3 7 (try_consume_manual_release hmac s)
        (λ (t : Session). record t { manual_release = true }) false

  unfoldable pub handle_expr_trigger : Session → List ℕ → ℕ → ℕ → ℕ → Session × List Effect
  unfolding try_consume_expr_trigger
  handle_expr_trigger s buf ip port now =
      let id = get_or buf 1 0 in
      verify_stage_poll s buf ip port now 2 4 8 (try_consume_expr_trigger hmac s id)
        (λ (t : Session). record t { expr = some id }) true

  unfoldable pub handle_unpair : Session → List ℕ → ℕ → Session × List Effect
  handle_unpair s buf now =
      let ctr = get_u32_be buf 1 in
      let ok = hmac_ok hmac s.psk (unpair_tag_msg ctr) (drop 5 buf) in
      let fresh = is_fresh_counter s.from_app ctr in
      if not s.paired then (s, []) else if not fresh then (s, []) else if not ok then (s, []) else (
        record s {
          core = clear_pair s.core;
          conn = refresh_then_clear s.conn (verify s.paired true fresh ok) now;
          psk = zeroes 16;
          from_app = 0;
          to_app = 0;
          paired = false;
          era = 0;
          manual_take = false;
          manual_release = false;
          expr = none;
          pending_valid = false;
          pair_show_sent = false;
          last_pair = no_last_pair;
          evict_remaining = 0;
        },
        clear_stored_pair ∷ notify_pairing_done ∷ [],
      )
