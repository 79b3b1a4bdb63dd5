-- ===== src/Pairing/Enrol.antt =====
-- The pair request and the key rotation: `handlePairReq`, `handlePairRefresh`, `deriveKek`,
-- `wrapPsk`, `derivePairRefreshPsk` and `composePairRefreshAck` of embedded/core/src/abilities/
-- pairing/pairing_task.h. The functions of mbedtls are parameters that may fail: `hmac` of a key and
-- a message, `hkdf` of a salt, a key and an info to 16 bytes, `gcm` of a key, a nonce, the
-- associated data and the plaintext to the ciphertext and the tag. The random bytes are arguments,
-- and so is the answer of the configuration store: whether it stored all that it was asked to.
pub mod Reply
use desky.Prelude.{
  ℕ, ◌+◌, Bool, true, false, not, ◌&&◌, ◌||◌, Option, none, some, List, [], ◌∷◌, ◌++◌, ◌==◌, ◌!=◌,
  ltb, if◌then◌else◌, u8, u16, bit_xor, get_or, take, drop,
}
use desky.Udp.{checksum}
use desky.Udp.Rx.{is_fresh_counter, should_redeliver}
use desky.Link.{get_u16_be, get_u32_be, put_u16_be}
use desky.Pairing.Peer.{pin_peer, verify}
use desky.Pairing.Code.{
  Result, ok, locked, already_paired, internal, to_wire_reason, try_code, on_paired,
  on_pair_refresh_applied, lockout_ms,
}
use desky.Pairing.Tags.{pair_refresh_tag_msg, pair_refresh_ack_tag_msg}
use desky.Pairing.Session.{
  Session, LastPair, Effect, store_pair, store_refresh, send_pair_ok, send_pair_redeliver,
  send_pair_err, send_refresh_ack, notify_pairing_done, hmac_ok, persist_default,
}
use desky.Pairing.Receive.{alive_funnel}

-- A frame with the XOR of its bytes behind it.
abbrev pub sealed : List ℕ → List ℕ
sealed body = body ++ (checksum body ∷ [])

abbrev pub pair_err : Result → ℕ → List ℕ
pair_err r retry_s = sealed (0x52 ∷ to_wire_reason r ∷ retry_s ∷ [])

-- The retry time on the wire, in seconds.
abbrev retry_s : Result → ℕ
retry_s locked = 30
retry_s r = 0

abbrev is_ok : Result → Bool
is_ok ok = true
is_ok r = false

unfoldable pub sanitize_persist_every : ℕ → ℕ
sanitize_persist_every v = if ltb v 8 || ltb 1024 v || ltb 255 v then persist_default else v

-- The two nonces, and what the store answers.
pub record Draw : Type 0 where
  pub psk : List ℕ
  pub nonce : List ℕ
  pub stored : Bool

module _ (hkdf : List ℕ → List ℕ → List ℕ → Option (List ℕ)) where
  -- "desky-pair-v1"
  derive_kek : List ℕ → List ℕ → List ℕ → Option (List ℕ)
  derive_kek code6 client_nonce server_nonce =
      hkdf (client_nonce ++ server_nonce) code6
        (100 ∷ 101 ∷ 115 ∷ 107 ∷ 121 ∷ 45 ∷ 112 ∷ 97 ∷ 105 ∷ 114 ∷ 45 ∷ 118 ∷ 49 ∷ [])

  -- "desky-pair-refresh-v1"
  unfoldable pub derive_pair_refresh_psk : List ℕ → ℕ → Option (List ℕ)
  derive_pair_refresh_psk old_psk next_era =
      hkdf
        (100 ∷ 101 ∷ 115 ∷ 107 ∷ 121 ∷ 45 ∷ 112 ∷ 97 ∷ 105 ∷ 114 ∷ 45 ∷ 114 ∷ 101 ∷ 102 ∷ 114 ∷ 101
          ∷ 115 ∷ 104 ∷ 45 ∷ 118 ∷ 49 ∷ [])
        old_psk (put_u16_be next_era)

  module _ (gcm : List ℕ → List ℕ → List ℕ → List ℕ → Option (List ℕ × List ℕ)) where
    wrap_psk : List ℕ → List ℕ → List ℕ → List ℕ → ℕ → Option (List ℕ × List ℕ)
    unfolding sanitize_persist_every
    wrap_psk psk kek client_nonce server_nonce persist =
        gcm kek (server_nonce ++ (client_nonce ++ (0 ∷ 0 ∷ 0 ∷ 0 ∷ [])))
          (0x51 ∷ (client_nonce ++ server_nonce)) (psk ++ (sanitize_persist_every persist ∷ []))

    -- The reply to a right code, if the cryptography does not fail.
    unfoldable pub pair_ok : List ℕ → List ℕ → Draw → Option (List ℕ)
    unfolding derive_kek wrap_psk
    pair_ok code6 client_nonce d = elim (derive_kek code6 client_nonce d.nonce) [
      | none ↦ none
      | some kek ↦ elim (wrap_psk d.psk kek client_nonce d.nonce persist_default) [
        | none ↦ none
        | some (ct, tag) ↦ some (sealed (0x51 ∷ (d.nonce ++ (ct ++ tag))))
      ]
    ]

    -- The session of a new pair, whose reply `out` has been sent.
    abbrev pub enrolled : Session → List ℕ → List ℕ → Draw → List ℕ → ℕ → ℕ → ℕ → Session
    enrolled s code6 client_nonce d out ip port now = record s {
      psk = d.psk;
      from_app = 0;
      to_app = 0;
      era = 0;
      paired = true;
      pending_valid = false;
      pair_show_sent = false;
      core = on_paired s.core now;
      last_pair = record {
        valid = true;
        code6 = code6;
        cli_nonce4 = client_nonce;
        srv_nonce4 = d.nonce;
        ok39 = out;
        pair_ms = now;
      };
      ip = ip;
      port = port;
      conn = pin_peer s.conn ip;
    }

    unfoldable pub handle_pair_req : Session → List ℕ → ℕ → ℕ → ℕ → Draw → Session × List Effect
    unfolding pair_ok
    handle_pair_req s buf ip port now d =
        let code6 = take 6 (drop 1 buf) in
        let client_nonce = take 4 (drop 7 buf) in
        let last = s.last_pair in
        if s.paired
          && should_redeliver last.valid last.code6 last.cli_nonce4 code6 client_nonce last.pair_ms
              now
        then (s, send_pair_redeliver ip port last.ok39 ∷ [])
        else if s.paired
        then (s, send_pair_err ip port (pair_err already_paired 0) ∷ [])
        else (let (core', r) = try_code s.core code6 now in
            let s' : Session = record s { core = core' } in
            let failed = store_pair d.psk 0 ∷ send_pair_err ip port (pair_err internal 0) ∷ [] in
            if not (is_ok r)
            then (s', send_pair_err ip port (pair_err r (retry_s r)) ∷ [])
            else if not d.stored
            then (s', failed)
            else elim (pair_ok code6 client_nonce d) [
              | none ↦ (s', failed)
              | some out ↦ (
                enrolled s' code6 client_nonce d out ip port now,
                store_pair d.psk 0 ∷ send_pair_ok ip port out ∷ notify_pairing_done ∷ [],
              )
            ])
