-- ===== src/Link/Delivery/Creds.antt =====
-- The way of the home credentials: sealed and pushed by the core, opened and stored by the head, and
-- acknowledged back.
use desky.Prelude.{
  ℕ, ◌+◌, ◌^◌, ◌<◌, ◌≤◌, ◌≡◌, refl, ap, ap₂, ◌∙◌, arith, Bool, true, false, not, ◌&&◌, Option, some,
  List, [], ◌∷◌, ◌++◌, u16, if◌then◌else◌, leb, length, length-append,
}
use desky.Link.{decode_frame, type_wifi_creds, is_valid_payload_len}
use desky.Link.Payload.{pack_wifi_creds, unpack_wifi_creds}
use desky.Link.Payload.RoundTrip.{unpack_wifi_creds-pack_wifi_creds}
use desky.Link.Crypto.{seal, open'}
use desky.Link.Crypto.Opens.{open'-seal}
use desky.Link.Server.{Server, Datagram, send_unicast, handle_udp_frame}
use desky.Link.Server.Creds.{send_bundle_once, send_creds_once, arm, push_creds}
use desky.Link.Follow.{fresh, classify_rx}
use desky.Link.Client.{
  Client, transmit, on_wifi_creds, Answers, taken, count_cred, take_creds, handle_frame,
}
use desky.Link.Delivery.Exact.{frame_of, send_unicast-Carries}
use desky.Link.Delivery.Ends.{
  send_ack-Carries, pack_wifi_creds-some, open_creds-seal, handle_frame-take_creds,
  handle_udp_frame-ack, take_creds-stored,
}

-- The cipher of both boards, under the provisioned key.
abbrev pub sealing : List ℕ → List ℕ → List ℕ → Option (List ℕ)
sealing key nonce plain = some (seal key nonce plain)

-- A bundle that is packed and sent.
send_bundle_once-sent :
    (key nonce ssid pass plain : List ℕ) (s : Server) (r : Server × ℕ × Bool × List Datagram)
    → pack_wifi_creds ssid pass 98 ≡ some plain
    → r.2 ≡ true
    → send_unicast true s type_wifi_creds (nonce ++ seal key nonce plain) ≡ r
    → send_bundle_once (sealing key) true s nonce ssid pass ≡ (r.0, true, r.1, r.3)
unfolding send_bundle_once
send_bundle_once-sent key nonce ssid pass plain s r packed ok e =
    rw (packed, send_bundle_once)
      (ap (λ (t : Server × ℕ × Bool × List Datagram). (t.0, t.2, if t.2 then t.1 else 0, t.3)) e
        ∙ ap (λ b. (r.0, b, if b then r.1 else 0, r.3)) ok)

push_creds-sent :
    (key nonce : List ℕ) (s s' : Server) (now seq : ℕ) (out : List Datagram)
    → s.home_creds_valid ≡ true
    → send_bundle_once (sealing key) true s nonce s.home_ssid s.home_pass ≡ (s', true, seq, out)
    → push_creds (sealing key) false true s nonce now ≡ (arm (sealing key) false s' seq now, out)
unfolding push_creds send_creds_once
push_creds-sent key nonce s s' now seq out valid e =
    let once : send_creds_once (sealing key) true s nonce ≡ (s', true, seq, out) =
      ap
        (λ b.
          if not b
          then (s, false, 0, [])
          else send_bundle_once (sealing key) true s nonce s.home_ssid s.home_pass)
        valid
      ∙ e in
    ap
      (λ (t : Server × Bool × ℕ × List Datagram).
        if t.1 then (arm (sealing key) false t.0 t.2 now, t.3) else (t.0, t.3))
      once

-- The core's part: one datagram leaves, with the sealed bundle, and the push waits for its number.
push_creds-Carries :
    (key nonce : List ℕ) (s : Server) (now : ℕ)
    → length key ≡ 16
    → length nonce ≡ 12
    → s.have_head_peer ≡ true
    → s.home_creds_valid ≡ true
    → 1 ≤ length s.home_ssid
    → length s.home_ssid ≤ 32
    → length s.home_pass ≤ 64
    → s.tx_seq < 2 ^ 16
    → (plain bytes : List ℕ) × (push_creds (sealing key) false true s nonce now ≡ (
      arm (sealing key) false (record s { tx_seq = u16 (s.tx_seq + 1) }) s.tx_seq now,
      record { ip = s.head_ip; port = s.head_port; bytes = bytes } ∷ [],
    ))
      × (unpack_wifi_creds plain ≡ some (s.home_ssid, s.home_pass))
      × (decode_frame bytes
          ≡ some (frame_of type_wifi_creds s.tx_seq (nonce ++ seal key nonce plain)))
      × (30 ≤ length (nonce ++ seal key nonce plain))
      × (length (nonce ++ seal key nonce plain) ≤ 126)
unfolding is_valid_payload_len
push_creds-Carries key nonce s now k n peer valid lo hs hp w =
    let (plain, packed, size) = pack_wifi_creds-some s.home_ssid s.home_pass lo hs hp in
    let long = open'-seal key nonce plain k n in
    let p = nonce ++ seal key nonce plain in
    let total : length p ≡ 12 + (length plain + 16) =
      length-append nonce (seal key nonce plain) ∙ ap₂ (λ (x y : ℕ). x + y) n long.1 in
    let g : (leb 30 (length p) && leb (length p) 126) ≡ true = ground arith in
    let (bytes, sent, decodes) =
      send_unicast-Carries s type_wifi_creds p peer (omega arith) w (omega arith) g in
    (
      plain,
      bytes,
      push_creds-sent key nonce s _ now s.tx_seq _ valid
          (send_bundle_once-sent key nonce s.home_ssid s.home_pass plain s _ packed refl sent),
      unpack_wifi_creds-pack_wifi_creds s.home_ssid s.home_pass 98 packed,
      decodes,
      omega arith,
      omega arith,
    )

-- Credentials of the portal, a name of 1 to 32 and a password of at most 64 characters, that the core
-- pushes to a head which shares its key: one datagram leaves; on it the head, where it can store them
-- and the number is fresh to it, hands exactly that name and password on and holds them for itself, and
-- acknowledges; and the acknowledgement, wherever it comes from, confirms the push and ends it.
pub push_creds-confirmed :
    (key nonce : List ℕ) (s : Server) (c : Client) (a : Answers) (now ip port ip' port' : ℕ)
    → length key ≡ 16
    → length nonce ≡ 12
    → s.have_head_peer ≡ true
    → s.home_creds_valid ≡ true
    → 1 ≤ length s.home_ssid
    → length s.home_ssid ≤ 32
    → length s.home_pass ≤ 64
    → s.tx_seq < 2 ^ 16
    → c.tx_seq < 2 ^ 16
    → classify_rx c.have_cmd_seq c.last_cmd_seq s.tx_seq ≡ fresh
    → a.creds_stored ≡ true
    → a.radio ≡ true
    → let pushed = push_creds (sealing key) false true s nonce now in
      (bytes ack : List ℕ) × (pushed.1
        ≡ record { ip = s.head_ip; port = s.head_port; bytes = bytes } ∷ [])
      × let head = handle_frame (open' key) a c bytes ip port in
        let back = (handle_udp_frame true pushed.0 ack ip' port').0 in
        (head.1
          ≡ transmit (record { ip = ip; port = port; bytes = ack })
            ∷ (on_wifi_creds s.home_ssid s.home_pass ∷ []))
        × (head.0.have_home_creds ≡ true)
        × (head.0.home_ssid ≡ s.home_ssid)
        × (head.0.home_pass ≡ s.home_pass)
        × (back.cred.confirmed ≡ true)
        × (back.cred.armed ≡ false)
push_creds-confirmed key nonce s c a now ip port ip' port' k n peer valid lo hs hp w w' v stored
      radio =
    let (plain, bytes, pushed, unpacks, decodes, least, most) =
      push_creds-Carries key nonce s now k n peer valid lo hs hp w in
    let p = nonce ++ seal key nonce plain in
    let f = frame_of type_wifi_creds s.tx_seq p in
    let (ack, acked, back) = send_ack-Carries (count_cred (taken c f)) ip port s.tx_seq w' in
    let (out, have, ssid, pass) =
      take_creds-stored a c f ip port s.home_ssid s.home_pass ack stored radio lo hs hp acked in
    let took =
      handle_frame-take_creds (open' key) a c s.tx_seq p bytes ip port decodes least most v
      ∙ ap (take_creds a c f ip port) (open_creds-seal key nonce plain k n ∙ unpacks) in
    let (confirmed, ended) =
      handle_udp_frame-ack
        (arm (sealing key) false (record s { tx_seq = u16 (s.tx_seq + 1) }) s.tx_seq now) s.tx_seq
        c.tx_seq ack ip' port' back w refl refl refl refl in
    (
      bytes,
      ack,
      ap (λ (r : Server × List Datagram). r.1) pushed,
      rw (pushed, took) (out, have, ssid, pass, confirmed, ended),
    )
