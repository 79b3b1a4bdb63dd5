-- ===== src/Link/Delivery/Ends.antt =====
-- What each end does with the credentials and their acknowledgement: the packing and the sealing, the
-- head that opens and stores, and the core that is told.
use desky.Prelude.{
  ℕ, ◌+◌, ◌^◌, ◌<◌, ◌≤◌, ◌≡◌, refl, ap, ◌∙◌, arith, Bool, true, false, not, ◌&&◌, ◌||◌, Option,
  some, List, [], ◌∷◌, ◌++◌, u8, leb, ltb, length, ◌==◌, ◌!=◌, length-append, take-append,
  drop-append, take_le,
}
use desky.Link.{Frame, decode_frame, type_wifi_creds, type_ack, is_valid_payload_len}
use desky.Link.Guards.{IsFrame, encode_frame_pass}
use desky.Link.RoundTrip.{decode_frame-encode_frame, get_u16_be-put_u16_be}
use desky.Link.Payload.{pack_ack, unpack_ack, pack_wifi_creds, unpack_wifi_creds}
use desky.Link.Crypto.{seal, open'}
use desky.Link.Crypto.Opens.{open'-seal}
use desky.Link.Server.{Server, handle_ack, handle_udp_frame}
use desky.Link.Follow.{fresh, classify_rx}
use desky.Link.Client.{
  Client, Effect, transmit, on_wifi_creds, Answers, set_home_creds, send_ack, answer, taken,
  count_cred, take_creds, open_creds, fresh_cmd, gated, handle_cmd, by_type, handle_frame,
}
use desky.Link.Delivery.Exact.{frame_of}

unpack_ack-pack_ack : (seq : ℕ) → seq < 2 ^ 16 → unpack_ack (pack_ack seq) ≡ some seq
unfolding unpack_ack pack_ack
unpack_ack-pack_ack seq h = ap some (get_u16_be-put_u16_be seq h)

-- The head's acknowledgement, and the frame that it is.
pub send_ack-Carries :
    (c : Client) (ip port seq : ℕ)
    → c.tx_seq < 2 ^ 16
    → (bytes : List ℕ) × ((send_ack true c ip port seq).1
        ≡ transmit (record { ip = ip; port = port; bytes = bytes }) ∷ [])
      × (decode_frame bytes ≡ some (frame_of type_ack c.tx_seq (pack_ack seq)))
unfolding send_ack pack_ack is_valid_payload_len
send_ack-Carries c ip port seq w =
    let f = frame_of type_ack c.tx_seq (pack_ack seq) in
    let passed =
      encode_frame_pass f 1034
        (record { valid = refl; idx_lt = omega arith; fits = omega arith }) in
    let whole : IsFrame f = record {
      type_fits = omega arith;
      seq_fits = w;
      idx_lt = omega arith;
      total_fits = omega arith;
      len_valid = refl;
    } in
    (_, rw (passed, send_ack) refl, decode_frame-encode_frame f 1034 whole passed)

-- What the packing takes, and how long it gets.
pub pack_wifi_creds-some :
    (ssid pass : List ℕ)
    → 1 ≤ length ssid
    → length ssid ≤ 32
    → length pass ≤ 64
    → (plain : List ℕ) × (pack_wifi_creds ssid pass 98 ≡ some plain)
      × (length plain ≡ 2 + length ssid + length pass)
unfolding pack_wifi_creds
pack_wifi_creds-some ssid pass lo hs hp =
    let g1 : (ltb 32 (length ssid) || ltb 64 (length pass)) ≡ false = ground arith in
    let g2 : (length ssid == 0 && length pass != 0) ≡ false = ground arith in
    let g3 : ltb 98 (2 + length ssid + length pass) ≡ false = ground arith in
    (
      u8 (length ssid) ∷ (ssid ++ (u8 (length pass) ∷ pass)),
      rw (g1, g2, g3) refl,
      omega (arith, length-append ssid (u8 (length pass) ∷ pass)),
    )

pub open_creds-seal :
    (key nonce plain : List ℕ)
    → length key ≡ 16
    → length nonce ≡ 12
    → open_creds (open' key) (nonce ++ seal key nonce plain) ≡ unpack_wifi_creds plain
unfolding open_creds
open_creds-seal key nonce plain k n =
    let body = seal key nonce plain in
    let (opens, long) = open'-seal key nonce plain k n in
    let sum = length-append nonce body in
    let g : not (ltb 12 (length (nonce ++ body))) ≡ false = ground arith in
    rw (g, take-append nonce body 12 n, drop-append nonce body 12 n, opens) refl

-- A fresh frame with sealed credentials.
pub handle_frame-take_creds :
    (open'' : List ℕ → List ℕ → Option (List ℕ)) (a : Answers) (c : Client) (seq : ℕ)
    (p bytes : List ℕ) (ip port : ℕ)
    → decode_frame bytes ≡ some (frame_of type_wifi_creds seq p)
    → 30 ≤ length p
    → length p ≤ 126
    → classify_rx c.have_cmd_seq c.last_cmd_seq seq ≡ fresh
    → handle_frame open'' a c bytes ip port
      ≡ take_creds a c (frame_of type_wifi_creds seq p) ip port (open_creds open'' p)
unfolding handle_frame by_type handle_cmd gated fresh_cmd
handle_frame-take_creds open'' a c seq p bytes ip port e lo hi v =
    let g : (leb 30 (length p) && leb (length p) 126) ≡ true = ground arith in
    rw (e, handle_frame) (rw (v, handle_cmd) (rw (g, fresh_cmd) refl))

-- The acknowledgement of the number that is pending.
pub handle_udp_frame-ack :
    (s : Server) (acked seq : ℕ) (bytes : List ℕ) (ip port : ℕ)
    → decode_frame bytes ≡ some (frame_of type_ack seq (pack_ack acked))
    → acked < 2 ^ 16
    → s.cred.armed ≡ true
    → s.cred.confirmed ≡ false
    → s.cred.have_seq ≡ true
    → s.cred.seq ≡ acked
    → let back = (handle_udp_frame true s bytes ip port).0 in
      (back.cred.confirmed ≡ true) × (back.cred.armed ≡ false)
unfolding handle_udp_frame handle_ack
handle_udp_frame-ack s acked seq bytes ip port e w armed pending have same =
    let back = unpack_ack-pack_ack acked w in
    rw (e, handle_udp_frame) (rw (back, handle_ack) (ground arith))

-- The bundle that the head holds after it has taken one that is not empty.
set_home_creds-holds :
    (c : Client) (ssid pass : List ℕ)
    → 1 ≤ length ssid
    → length ssid ≤ 32
    → length pass ≤ 64
    → let c' = set_home_creds c ssid pass (ltb 0 (length ssid)) in
      (c'.have_home_creds ≡ true) × (c'.home_ssid ≡ ssid) × (c'.home_pass ≡ pass)
unfolding set_home_creds
set_home_creds-holds c ssid pass lo hs hp =
    let s = take_le 32 ssid hs in
    let p = take_le 64 pass hp in (ground arith, ground (arith, s), ground (arith, p))

answer-sent :
    (radio : Bool) (c : Client) (f : Frame) (ip port : ℕ) (e : Effect)
    → (answer radio c f ip port e).1 ≡ (send_ack radio c ip port f.seq).1 ++ (e ∷ [])
unfolding answer
answer-sent radio c f ip port e = refl

-- What the head does with the credentials that it can open and store.
pub take_creds-stored :
    (a : Answers) (c : Client) (f : Frame) (ip port : ℕ) (ssid pass bytes : List ℕ)
    → a.creds_stored ≡ true
    → a.radio ≡ true
    → 1 ≤ length ssid
    → length ssid ≤ 32
    → length pass ≤ 64
    → (send_ack true (count_cred (taken c f)) ip port f.seq).1
      ≡ transmit (record { ip = ip; port = port; bytes = bytes }) ∷ []
    → let r = take_creds a c f ip port (some (ssid, pass)) in
      (r.1
        ≡ transmit (record { ip = ip; port = port; bytes = bytes })
          ∷ (on_wifi_creds ssid pass ∷ []))
      × (r.0.have_home_creds ≡ true)
      × (r.0.home_ssid ≡ ssid)
      × (r.0.home_pass ≡ pass)
unfolding take_creds
take_creds-stored a c f ip port ssid pass bytes stored radio lo hs hp acked =
    let held =
      set_home_creds-holds
        (answer a.radio (count_cred (taken c f)) f ip port (on_wifi_creds ssid pass)).0 ssid pass lo
        hs hp in
    let out =
      answer-sent a.radio (count_cred (taken c f)) f ip port (on_wifi_creds ssid pass)
      ∙ ap
          (λ r.
            (send_ack r (count_cred (taken c f)) ip port f.seq).1 ++ (on_wifi_creds ssid pass ∷ []))
          radio
      ∙ ap (λ l. l ++ (on_wifi_creds ssid pass ∷ [])) acked in
    rw stored (out, held.0, held.1, held.2)
