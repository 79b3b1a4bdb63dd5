-- ===== src/Pairing/Refresh.antt =====
-- The key rotation: `handlePairRefresh` and `composePairRefreshAck` of embedded/core/src/abilities/
-- pairing/pairing_task.h. `stored` is the answer of the configuration store.
pub mod Rotation
use desky.Prelude.{
  ℕ, ◌+◌, Bool, true, false, not, ◌&&◌, Option, none, some, List, [], ◌∷◌, ◌++◌, ◌==◌, ◌!=◌,
  if◌then◌else◌, u8, u16, take, drop,
}
use desky.Udp.Rx.{is_fresh_counter}
use desky.Link.{get_u16_be, get_u32_be, put_u16_be}
use desky.Pairing.Peer.{verify}
use desky.Pairing.Code.{on_pair_refresh_applied}
use desky.Pairing.Tags.{pair_refresh_tag_msg, pair_refresh_ack_tag_msg}
use desky.Pairing.Session.{Session, Effect, store_refresh, send_refresh_ack, hmac_ok}
use desky.Pairing.Receive.{alive_funnel}
use desky.Pairing.Enrol.{sealed, derive_pair_refresh_psk}

module _ (hmac : List ℕ → List ℕ → Option (List ℕ)) where
  unfoldable pub compose_pair_refresh_ack : List ℕ → ℕ → Option (List ℕ)
  compose_pair_refresh_ack psk era = elim (hmac psk (pair_refresh_ack_tag_msg era)) [
    | none ↦ none
    | some mac ↦ some (sealed (0x54 ∷ (put_u16_be era ++ take 6 mac)))
  ]

  -- The acknowledgement, if its tag can be had.
  abbrev pub ack_effects : List ℕ → ℕ → ℕ → ℕ → List Effect
  ack_effects psk era ip port = elim (compose_pair_refresh_ack psk era) [
    | none ↦ []
    | some ack ↦ send_refresh_ack ip port ack ∷ []
  ]

  -- The session under the next key.
  abbrev pub rotated : Session → List ℕ → ℕ → Session
  rotated s next_psk era = record s {
    psk = next_psk;
    era = era;
    core = on_pair_refresh_applied s.core era;
    from_app = 0;
    to_app = 0;
    valid_count = 0;
  }

  module _ (hkdf : List ℕ → List ℕ → List ℕ → Option (List ℕ)) where
    unfoldable pub handle_pair_refresh : Session → List ℕ → ℕ → ℕ → ℕ → Bool → Session × List Effect
    unfolding compose_pair_refresh_ack derive_pair_refresh_psk
    handle_pair_refresh s buf ip port now stored =
        let era = get_u16_be buf 1 in
        let ctr = get_u32_be buf 3 in
        let fresh = is_fresh_counter s.from_app ctr in
        let ok = hmac_ok hmac s.psk (pair_refresh_tag_msg era ctr) (drop 7 buf) in
        if not s.paired
        then (s, [])
        else if era == s.era
        then (s, ack_effects s.psk s.era ip port)
        else if era != u16 (s.era + 1)
        then (s, [])
        else if not fresh
        then (s, [])
        else if not ok
        then (s, [])
        else elim (derive_pair_refresh_psk hkdf s.psk era) [
          | none ↦ (s, [])
          | some next_psk ↦
              if not stored
              then (s, store_refresh next_psk era 0 ∷ [])
              else (let valid = verify s.paired (era == u16 (s.era + 1)) fresh ok in
                  (
                    alive_funnel (rotated s next_psk era) valid ip port now,
                    store_refresh next_psk era 0
                        ∷ (if valid then ack_effects next_psk era ip port else []),
                  ))
        ]
