-- ===== src/Link/Server/Creds.antt =====
-- The push of the home credentials to the head: `attachHomeCreds`, `relayStore`, `relayClear`,
-- `sendBundleOnce`, `pushCreds`, `pushClear` and `pollCredPush` of embedded/core/src/transport/
-- link_server.h. `seal` is `linkcrypto::seal` under the provisioned key: it takes the nonce and the
-- plain bytes, and fails where there is no key. A text of C is the list of its characters.
pub mod Budget
pub mod Limit
use desky.Prelude.{
  ℕ, ◌+◌, Bool, true, false, not, ◌&&◌, ◌||◌, Option, none, some, List, [], ◌∷◌, ◌++◌, leb, ltb,
  ◌==◌, if◌then◌else◌, u8, u32, sub32, length, take,
}
use desky.Link.{type_wifi_creds}
use desky.Link.Payload.{pack_wifi_creds}
use desky.Link.Server.{Server, CredPush, Datagram, send_unicast}

abbrev pub ssid_max : ℕ
ssid_max = 32

abbrev pub pass_max : ℕ
pass_max = 64

-- Texts that are too long are cut.
unfoldable pub attach_home_creds : Server → List ℕ → List ℕ → Bool → Server
attach_home_creds s ssid pass valid =
    if not valid || length ssid == 0
    then record s { home_creds_valid = false; home_ssid = []; home_pass = [] }
    else record s {
      home_creds_valid = true;
      home_ssid = take ssid_max ssid;
      home_pass = take pass_max pass;
    }

abbrev pub cred_max_attempts : ℕ
cred_max_attempts = 5

abbrev pub cred_retry_ms : ℕ
cred_retry_ms = 1000

unfoldable pub cred_retry_due : ℕ → ℕ → ℕ → Bool
cred_retry_due attempts_used last_try_ms now =
    ltb attempts_used cred_max_attempts && leb cred_retry_ms (sub32 now last_try_ms)

abbrev pub plain_max : ℕ
plain_max = 98

module _ (seal : List ℕ → List ℕ → Option (List ℕ)) where
  -- The state, whether it was sent, the sequence number, and the datagram. The nonce is drawn anew for
  -- each call.
  unfoldable pub send_bundle_once :
      Bool → Server → List ℕ → List ℕ → List ℕ → Server × Bool × ℕ × List Datagram
  send_bundle_once radio s nonce ssid pass = elim (pack_wifi_creds ssid pass plain_max) [
    | none ↦ (s, false, 0, [])
    | some plain ↦ elim (seal nonce plain) [
      | none ↦ (s, false, 0, [])
      | some body ↦
          let (s', seq, ok, out) = send_unicast radio s type_wifi_creds (nonce ++ body) in
          (s', ok, if ok then seq else 0, out)
    ]
  ]

  unfoldable pub send_creds_once : Bool → Server → List ℕ → Server × Bool × ℕ × List Datagram
  unfolding send_bundle_once
  send_creds_once radio s nonce =
      if not s.home_creds_valid
      then (s, false, 0, [])
      else send_bundle_once radio s nonce s.home_ssid s.home_pass

  unfoldable pub send_clear_once : Bool → Server → List ℕ → Server × Bool × ℕ × List Datagram
  unfolding send_bundle_once
  send_clear_once radio s nonce = send_bundle_once radio s nonce [] []

  -- The send that a push makes, of the bundle or of the clear.
  abbrev pub send_push : Bool → Bool → Server → List ℕ → Server × Bool × ℕ × List Datagram
  send_push clear radio s nonce =
      if clear then send_clear_once radio s nonce else send_creds_once radio s nonce

  -- Where the first datagram has left: `credPushArm`.
  abbrev pub arm : Bool → Server → ℕ → ℕ → Server
  arm clear s seq now = record s {
    cred = record {
      armed = true;
      confirmed = false;
      clear = clear;
      have_seq = true;
      seq = seq;
      attempts = 1;
      last_try_ms = now;
    };
    counts = record s.counts { cred_tx = u32 (s.counts.cred_tx + 1) };
  }

  -- `pushCreds`, and with `clear` `pushClear`.
  unfoldable pub push_creds : Bool → Bool → Server → List ℕ → ℕ → Server × List Datagram
  unfolding send_creds_once send_clear_once
  push_creds clear radio s nonce now =
      let (s', ok, seq, out) = send_push clear radio s nonce in
      if ok then (arm clear s' seq now, out) else (s', out)

  -- `relayStore` and `relayClear`: the push, and whether one is armed.
  unfoldable pub relay : Bool → Bool → Server → List ℕ → ℕ → Server × Bool × List Datagram
  unfolding push_creds
  relay clear radio s nonce now =
      let (s', out) = push_creds clear radio s nonce now in (s', s'.cred.armed, out)

  -- A further attempt, sent or not.
  abbrev pub retry : Server → Bool → ℕ → ℕ → Server
  retry s ok seq now =
      let c : CredPush = record s.cred { attempts = u8 (s.cred.attempts + 1); last_try_ms = now } in
      if ok
      then record s {
        cred = record c { have_seq = true; seq = seq };
        counts = record s.counts { cred_tx = u32 (s.counts.cred_tx + 1) };
      }
      else record s { cred = c }

  unfoldable pub poll_cred_push : Bool → Server → List ℕ → ℕ → Server × List Datagram
  unfolding cred_retry_due send_creds_once send_clear_once
  poll_cred_push radio s nonce now =
      if not s.cred.armed || s.cred.confirmed
      then (s, [])
      else if leb cred_max_attempts s.cred.attempts
      then (record s { cred = record s.cred { armed = false } }, [])
      else if not (cred_retry_due s.cred.attempts s.cred.last_try_ms now)
      then (s, [])
      else (let (s', ok, seq, out) = send_push s.cred.clear radio s nonce in
          (retry s' ok seq now, out))
