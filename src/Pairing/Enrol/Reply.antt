-- ===== src/Pairing/Enrol/Reply.antt =====
-- When the reply to a pair request goes out, and what a lost reply costs.
use desky.Prelude.{
  ℕ, zero, suc, ◌^◌, ◌<◌, ◌≡◌, ◌≢◌, ◌⊎◌, ◌↔◌, refl, ap, sym, ◌∙◌, arith, Bool, true, false, Option,
  none, some, List, [], ◌∷◌, take, drop, bit_or, bit_xor, sub32, IsBytes,
}
use desky.Prelude.Bits.{zero-bit_xor, xor_byte_cancel_right}
use desky.Udp.Rx.{diff_from, same_bytes, should_redeliver, redelivery_ms}
use desky.Pairing.Code.{ok, already_paired, try_code}
use desky.Pairing.Session.{
  Session, Effect, store_pair, send_pair_ok, send_pair_redeliver, send_pair_err,
}
use desky.Pairing.Enrol.{Draw, pair_err, pair_ok, enrolled, handle_pair_req}

xor_self : (b : ℕ) → b < 2 ^ 8 → bit_xor b b ≡ 0
xor_self b h =
    ap (λ x. bit_xor x b) (sym (zero-bit_xor b)) ∙ xor_byte_cancel_right 0 b (omega arith) h

IsBytes-drop : (n : ℕ) (bs : List ℕ) → IsBytes bs → IsBytes (drop n bs)
IsBytes-drop zero bs h = h
IsBytes-drop (suc n) [] h = tt
IsBytes-drop (suc n) (b ∷ bs) h = IsBytes-drop n bs h.1

diff_from_self : (n : ℕ) (bs : List ℕ) → IsBytes bs → diff_from 0 (take n bs) (take n bs) ≡ 0
diff_from_self zero bs h = refl
diff_from_self (suc n) [] h = refl
diff_from_self (suc n) (b ∷ bs) h =
    ap (λ x. diff_from (bit_or 0 x) (take n bs) (take n bs)) (xor_self b h.0)
    ∙ diff_from_self n bs h.1

same_bytes_self : (bs : List ℕ) → same_bytes bs bs ≡ true
same_bytes_self [] = refl
same_bytes_self (b ∷ bs) = ground (arith, same_bytes_self bs)

-- A reply that pairs is among the effects.
abbrev pub replies : List Effect → Bool
replies [] = false
replies (send_pair_ok ip port bytes ∷ es) = true
replies (e ∷ es) = replies es

-- The key that the first effect stores.
abbrev pub stores : List Effect → Option (List ℕ)
stores (store_pair psk counter ∷ es) = some psk
stores es = none

module _ (hkdf : List ℕ → List ℕ → List ℕ → Option (List ℕ))
    (gcm : List ℕ → List ℕ → List ℕ → List ℕ → Option (List ℕ × List ℕ)) where
  -- An unpaired session becomes paired exactly when the code is right, the store has stored the pair and
  -- the cryptography does not fail.
  pub handle_pair_req-paired_iff :
      (s : Session) (buf : List ℕ) (ip port now : ℕ) (d : Draw)
      → s.paired ≡ false
      → ((handle_pair_req hkdf gcm s buf ip port now d).0.paired ≡ true) ↔ (
          ((try_code s.core (take 6 (drop 1 buf)) now).1 ≡ ok)
          × (d.stored ≡ true)
          × (pair_ok hkdf gcm (take 6 (drop 1 buf)) (take 4 (drop 7 buf)) d ≢ none))
  unfolding handle_pair_req
  handle_pair_req-paired_iff s buf ip port now d u = (λ h. ground arith, λ h. ground arith)

  -- The reply that pairs goes out only behind the stored pair, and then the session holds the key that
  -- was stored; in every other case the session keeps its key and stays as paired as it was.
  pub handle_pair_req-outcome :
      (s : Session) (buf : List ℕ) (ip port now : ℕ) (d : Draw)
      → let (t, out) = handle_pair_req hkdf gcm s buf ip port now d in
        ((replies out ≡ true)
          × (d.stored ≡ true)
          × (stores out ≡ some d.psk)
          × (t.paired ≡ true)
          × (t.psk ≡ d.psk)
          × (t.from_app ≡ 0)
          × (t.era ≡ 0))
        ⊎ ((replies out ≡ false)
            × (t.paired ≡ s.paired)
            × (t.psk ≡ s.psk)
            × (t.from_app ≡ s.from_app)
            × (t.era ≡ s.era))
  unfolding handle_pair_req
  handle_pair_req-outcome s buf ip port now d = ground arith

  -- After a right code whose pair is not stored or not wrapped, the session is unpaired, and yet the next
  -- request, with whatever code, is answered that the robot is already paired.
  pub handle_pair_req-stuck :
      (s : Session) (buf next : List ℕ) (ip port now later : ℕ) (d d' : Draw)
      → s.paired ≡ false
      → (try_code s.core (take 6 (drop 1 buf)) now).1 ≡ ok
      → (d.stored ≡ false) ⊎ (pair_ok hkdf gcm (take 6 (drop 1 buf)) (take 4 (drop 7 buf)) d ≡ none)
      → let t = (handle_pair_req hkdf gcm s buf ip port now d).0 in
        (t.paired ≡ false)
        × ((handle_pair_req hkdf gcm t next ip port later d').1
            ≡ send_pair_err ip port (pair_err already_paired 0) ∷ [])
  unfolding handle_pair_req try_code
  handle_pair_req-stuck s buf next ip port now later d d' u r f = ground arith

  abbrev asks_again : Session → List ℕ → ℕ → Bool
  asks_again t buf later =
      let last = t.last_pair in
      should_redeliver last.valid last.code6 last.cli_nonce4 (take 6 (drop 1 buf))
        (take 4 (drop 7 buf)) last.pair_ms later

  -- The request that paired, sent again by whomever within a minute, is answered with the bytes of the
  -- first reply, and changes nothing.
  pub handle_pair_req-again :
      (s : Session) (buf reply : List ℕ) (ip port now ip' port' later : ℕ) (d d' : Draw)
      → IsBytes buf
      → sub32 later now < redelivery_ms
      → let t =
          enrolled hkdf gcm s (take 6 (drop 1 buf)) (take 4 (drop 7 buf)) d reply ip port now in
        handle_pair_req hkdf gcm t buf ip' port' later d'
        ≡ (t, send_pair_redeliver ip' port' reply ∷ [])
  unfolding handle_pair_req should_redeliver
  handle_pair_req-again s buf reply ip port now ip' port' later d d' h w =
      let code_same = diff_from_self 6 (drop 1 buf) (IsBytes-drop 1 buf h) in
      let nonce_same = same_bytes_self (take 4 (drop 7 buf)) in
      ground (arith, code_same, nonce_same)
