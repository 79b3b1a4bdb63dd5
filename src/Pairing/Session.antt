-- ===== src/Pairing/Session.antt =====
-- The session of embedded/core/src/abilities/pairing/pairing_task.h, and the handlers of
-- embedded/core/src/transport/udp_server.h that it verifies. The keyed hash of mbedtls is the
-- parameter `hmac` (`none` where it fails), the configuration store is the list of the counters that
-- are saved. An address is its 32 bits, with the port. Logging and the measured times are left out,
-- and so are the null checks: the session and the peer slot are attached before the radio is read.
use desky.Prelude.{
  zero, suc, ℕ, ◌+◌, ◌%◌, Bool, true, false, not, ◌&&◌, Option, none, some, List, [], ◌∷◌, ltb,
  ◌==◌, ◌!=◌, if◌then◌else◌, u32, sub32, length, take,
}
use desky.Udp.Rx.{diff_from, is_fresh_counter}
use desky.Pairing.Peer.{Peer, verify}
use desky.Pairing.Code.{Core}
use desky.Pairing.Tags.{
  alive_tag_msg, disconnect_tag_msg, manual_take_tag_msg, manual_release_tag_msg,
  expr_trigger_tag_msg,
}

-- The cached reply to the last pair request.
pub record LastPair : Type 0 where
  pub valid : Bool
  pub code6 : List ℕ
  pub cli_nonce4 : List ℕ
  pub srv_nonce4 : List ℕ
  pub ok39 : List ℕ
  pub pair_ms : ℕ

-- `n` zeroized bytes.
abbrev pub zeroes : ℕ → List ℕ
zeroes zero = []
zeroes (suc n) = 0 ∷ zeroes n

abbrev pub no_last_pair : LastPair
no_last_pair = record {
  valid = false;
  code6 = zeroes 6;
  cli_nonce4 = zeroes 4;
  srv_nonce4 = zeroes 4;
  ok39 = zeroes 39;
  pair_ms = 0;
}

-- `ip` and `port` are the transport's `peerIp_` and `peerPort_`, `expr` the staged trigger;
-- `pending_valid` and `pair_show_sent` are the flags of the code on show, `evict_remaining` the
-- resends left.
pub record Session : Type 0 where
  pub core : Core
  pub conn : Peer
  pub ip : ℕ
  pub port : ℕ
  pub psk : List ℕ
  pub from_app : ℕ
  pub to_app : ℕ
  pub paired : Bool
  pub era : ℕ
  pub valid_count : ℕ
  pub manual_take : Bool
  pub manual_release : Bool
  pub expr : Option ℕ
  pub pending_valid : Bool
  pub pair_show_sent : Bool
  pub last_pair : LastPair
  pub evict_remaining : ℕ
  pub evict_frame : List ℕ
  pub evict_ip : ℕ
  pub evict_port : ℕ
  pub evict_due_ms : ℕ
  pub pending_code : List ℕ

-- What a handler does outside the session.
pub data Effect : Type 0 where
  save_counter save_to_app_counter : ℕ → Effect
  publish_command : ℕ → Effect
  clear_stored_pair notify_pairing_done : Effect
  store_pair : List ℕ → ℕ → Effect
  store_refresh : List ℕ → ℕ → ℕ → Effect
  send_pair_ok send_pair_redeliver send_pair_err send_refresh_ack send_disconnect :
      ℕ → ℕ → List ℕ → Effect

abbrev pub persist_default : ℕ
persist_default = 128

-- `ctEqual` on the first 6 bytes.
abbrev pub tag_equal : List ℕ → List ℕ → Bool
tag_equal mac tag = diff_from 0 (take 6 mac) (take 6 tag) == 0

-- `msg_len` is the length of `msg`, and a tag that is not null is its bytes.
module _ (hmac : List ℕ → List ℕ → Option (List ℕ)) where
  abbrev pub hmac_ok : List ℕ → List ℕ → List ℕ → Bool
  hmac_ok psk msg tag = elim (hmac psk msg) [ none ↦ false | some mac ↦ tag_equal mac tag ]

  -- The new session, the token's validity, and what is saved.
  unfoldable pub try_consume : Session → ℕ → Bool → List ℕ → List ℕ → Session × Bool × List Effect
  unfolding is_fresh_counter
  try_consume s ctr era_ok tag msg =
      let asked = s.paired && era_ok && length msg != 0 in
      let fresh = asked && (ctr != s.from_app && ltb (sub32 ctr s.from_app) 0x80000000) in
      let count = u32 (s.valid_count + 1) in
      if not (verify s.paired era_ok fresh (fresh && hmac_ok s.psk msg tag))
      then (s, false, [])
      else (
        record s { from_app = ctr; valid_count = count },
        true,
        if count % persist_default == 0 then save_counter ctr ∷ [] else [],
      )

  unfoldable pub try_consume_alive : Session → ℕ → ℕ → List ℕ → Session × Bool × List Effect
  unfolding try_consume
  try_consume_alive s wire_era ctr tag =
      try_consume s ctr (wire_era == s.era) tag (alive_tag_msg wire_era ctr)

  unfoldable pub try_consume_disconnect : Session → ℕ → ℕ → List ℕ → Session × Bool × List Effect
  unfolding try_consume
  try_consume_disconnect s wire_era ctr tag =
      try_consume s ctr (wire_era == s.era) tag (disconnect_tag_msg wire_era ctr)

  unfoldable pub try_consume_manual_take : Session → ℕ → ℕ → List ℕ → Session × Bool × List Effect
  unfolding try_consume
  try_consume_manual_take s wire_era ctr tag =
      try_consume s ctr (wire_era == s.era) tag (manual_take_tag_msg wire_era ctr)

  unfoldable pub try_consume_manual_release :
      Session → ℕ → ℕ → List ℕ → Session × Bool × List Effect
  unfolding try_consume
  try_consume_manual_release s wire_era ctr tag =
      try_consume s ctr (wire_era == s.era) tag (manual_release_tag_msg wire_era ctr)

  unfoldable pub try_consume_expr_trigger :
      Session → ℕ → ℕ → ℕ → List ℕ → Session × Bool × List Effect
  unfolding try_consume
  try_consume_expr_trigger s id wire_era ctr tag =
      try_consume s ctr (wire_era == s.era) tag (expr_trigger_tag_msg id wire_era ctr)
