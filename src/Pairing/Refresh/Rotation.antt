-- ===== src/Pairing/Refresh/Rotation.antt =====
-- What a key rotation rests on, and what repeating it does.
use desky.Prelude.{
  ℕ, ◌+◌, ◌≡◌, ◌≢◌, ◌⊎◌, ap, inl, inr, arith, Bool, true, Option, some, List, drop, u16,
}
use desky.Udp.Rx.{is_fresh_counter}
use desky.Link.{get_u16_be, get_u32_be}
use desky.Pairing.Tags.{pair_refresh_tag_msg}
use desky.Pairing.Session.{Session, hmac_ok}
use desky.Pairing.Enrol.{derive_pair_refresh_psk}
use desky.Pairing.Refresh.{ack_effects, handle_pair_refresh}

module _ (hmac : List ℕ → List ℕ → Option (List ℕ))
    (hkdf : List ℕ → List ℕ → List ℕ → Option (List ℕ)) where
  -- The key changes only on a fresh frame of the next era with the right tag under the old key, once the
  -- next key is stored: then it is the key derived from the old one for that era, and both counters
  -- start over. Otherwise the whole session stays.
  pub handle_pair_refresh-outcome :
      (s : Session) (buf : List ℕ) (ip port now : ℕ) (stored : Bool)
      → let era = get_u16_be buf 1 in
        let ctr = get_u32_be buf 3 in
        let t = (handle_pair_refresh hmac hkdf s buf ip port now stored).0 in
        (t ≡ s)
        ⊎ ((s.paired ≡ true)
            × (stored ≡ true)
            × (era ≡ u16 (s.era + 1))
            × (is_fresh_counter s.from_app ctr ≡ true)
            × (hmac_ok hmac s.psk (pair_refresh_tag_msg era ctr) (drop 7 buf) ≡ true)
            × (derive_pair_refresh_psk hkdf s.psk era ≡ some t.psk)
            × (t.era ≡ era)
            × (t.from_app ≡ 0)
            × (t.to_app ≡ 0)
            × (t.paired ≡ true))
  unfolding handle_pair_refresh
  handle_pair_refresh-outcome s buf ip port now stored = ground arith

  handle_pair_refresh_duplicate :
      (t : Session) (buf : List ℕ) (ip port now : ℕ) (stored : Bool)
      → t.paired ≡ true
      → t.era ≡ get_u16_be buf 1
      → handle_pair_refresh hmac hkdf t buf ip port now stored
        ≡ (t, ack_effects hmac t.psk t.era ip port)
  unfolding handle_pair_refresh
  handle_pair_refresh_duplicate t buf ip port now stored p e = ground arith

  -- The frame that rotated, received again, changes nothing: the acknowledgement under the new key goes
  -- out once more, to whomever asked.
  pub handle_pair_refresh-again :
      (s : Session) (buf : List ℕ) (ip port now ip' port' later : ℕ) (stored stored' : Bool)
      → (handle_pair_refresh hmac hkdf s buf ip port now stored).0.era ≢ s.era
      → let t = (handle_pair_refresh hmac hkdf s buf ip port now stored).0 in
        handle_pair_refresh hmac hkdf t buf ip' port' later stored'
        ≡ (t, ack_effects hmac t.psk t.era ip' port')
  handle_pair_refresh-again s buf ip port now ip' port' later stored stored' h =
      let t = (handle_pair_refresh hmac hkdf s buf ip port now stored).0 in
      elim (handle_pair_refresh-outcome s buf ip port now stored) [
        | inl same ↦ absurd (h (ap (λ (x : Session). x.era) same))
        | inr moved ↦ handle_pair_refresh_duplicate t buf ip' port' later stored' moved.9 moved.6
      ]
