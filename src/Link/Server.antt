-- ===== src/Link/Server.antt =====
-- The link endpoint of the core: embedded/core/src/transport/link_server.h, its UDP half. The mutex
-- and the sockets are there, as after `begin`; `radio` says whether the datagram of a call leaves.
-- The getters and the log lines are left out.
pub mod Creds
use desky.Prelude.{
  ℕ, ◌+◌, Bool, true, false, not, ◌&&◌, ◌||◌, Option, none, some, List, [], ◌∷◌, ltb, leb, ◌==◌,
  ◌!=◌, if◌then◌else◌, u16, u32, sub32, length, get_or,
}
use desky.Link.{
  Frame, type_oled, type_cam_ctl, type_hb, type_hb_ack, type_ack, max_payload, overhead,
  encode_frame, decode_frame, is_fresh_seq,
}
use desky.Link.Payload.{Hb, unpack_hb, pack_hb_ack, unpack_ack, pack_ack}

pub data SeqVerdict : Type 0 where
  fresh duplicate stale : SeqVerdict

unfoldable pub classify_seq : Bool → ℕ → ℕ → SeqVerdict
unfolding is_fresh_seq
classify_seq have_seen last_seen got =
    if not have_seen
    then fresh
    else if got == last_seen
    then duplicate
    else if is_fresh_seq last_seen got
    then fresh
    else stale

unfoldable pub boot_epoch_changed : Bool → ℕ → ℕ → Bool
boot_epoch_changed have_boot last_boot got_boot = not have_boot || last_boot != got_boot

-- The staged command: `len` is the length of its payload.
pub record LastLinkCmd : Type 0 where
  pub valid : Bool
  pub type' : ℕ
  pub seq : ℕ
  pub payload : List ℕ

-- The push of the home credentials.
pub record CredPush : Type 0 where
  pub armed : Bool
  pub confirmed : Bool
  pub clear : Bool
  pub have_seq : Bool
  pub seq : ℕ
  pub attempts : ℕ
  pub last_try_ms : ℕ

pub record Counters : Type 0 where
  pub udp_rx : ℕ
  pub udp_drop : ℕ
  pub hb_rx : ℕ
  pub cmd_rx : ℕ
  pub ack_rx : ℕ
  pub ack_tx : ℕ
  pub hb_ack_tx : ℕ
  pub cred_tx : ℕ
  pub cred_ack : ℕ
  pub tx_fail : ℕ

pub record Server : Type 0 where
  pub head_ip : ℕ
  pub head_port : ℕ
  pub have_head_peer : Bool
  pub have_seq : Bool
  pub last_seq : ℕ
  pub have_boot : Bool
  pub last_boot_id : ℕ
  pub tx_seq : ℕ
  pub last_cmd : LastLinkCmd
  pub home_ssid : List ℕ
  pub home_pass : List ℕ
  pub home_creds_valid : Bool
  pub cred : CredPush
  pub counts : Counters

abbrev pub new_server : Server
new_server = record {
  head_ip = 0;
  head_port = 0;
  have_head_peer = false;
  have_seq = false;
  last_seq = 0;
  have_boot = false;
  last_boot_id = 0;
  tx_seq = 0;
  last_cmd = record { valid = false; type' = 0; seq = 0; payload = [] };
  home_ssid = [];
  home_pass = [];
  home_creds_valid = false;
  cred = record {
    armed = false;
    confirmed = false;
    clear = false;
    have_seq = false;
    seq = 0;
    attempts = 0;
    last_try_ms = 0;
  };
  counts = record {
    udp_rx = 0;
    udp_drop = 0;
    hb_rx = 0;
    cmd_rx = 0;
    ack_rx = 0;
    ack_tx = 0;
    hb_ack_tx = 0;
    cred_tx = 0;
    cred_ack = 0;
    tx_fail = 0;
  };
}

-- A datagram that has left.
pub record Datagram : Type 0 where
  pub ip : ℕ
  pub port : ℕ
  pub bytes : List ℕ

pub data SendVerdict : Type 0 where
  sent encode_fail send_fail : SendVerdict

abbrev pub is_sent : SendVerdict → Bool
is_sent sent = true
is_sent v = false

-- The most that a control frame carries, `kOtaUrlMaxLen`.
abbrev pub max_unicast : ℕ
max_unicast = 128

-- The state, the sequence number that was minted, the verdict, and the datagram.
unfoldable pub send_to :
    Bool → Server → ℕ → List ℕ → ℕ → ℕ → Server × ℕ × SendVerdict × List Datagram
send_to radio s type' payload ip port =
    if ltb max_unicast (length payload)
    then (s, 0, encode_fail, [])
    else (let s' : Server = record s { tx_seq = u16 (s.tx_seq + 1) } in
        elim (encode_frame type' s.tx_seq payload 0 1 (overhead + max_unicast)) [
          | none ↦ (s', s.tx_seq, encode_fail, [])
          | some out ↦
              if radio
              then (s', s.tx_seq, sent, record { ip = ip; port = port; bytes = out } ∷ [])
              else (
                record s' { counts = record s.counts { tx_fail = u32 (s.counts.tx_fail + 1) } },
                s.tx_seq,
                send_fail,
                [],
              )
        ])

unfoldable pub send_unicast : Bool → Server → ℕ → List ℕ → Server × ℕ × Bool × List Datagram
unfolding send_to
send_unicast radio s type' payload =
    if not s.have_head_peer
    then (s, 0, false, [])
    else (let (s', seq, v, out) = send_to radio s type' payload s.head_ip s.head_port in
        (s', seq, is_sent v, out))

unfoldable pub pin_head_peer : Server → ℕ → ℕ → Server
pin_head_peer s ip port = record s { head_ip = ip; head_port = port; have_head_peer = true }

unfoldable pub drop_udp : Server → Server
drop_udp s = record s { counts = record s.counts { udp_drop = u32 (s.counts.udp_drop + 1) } }

unfoldable pub send_ack : Bool → Server → ℕ → ℕ → ℕ → Server × List Datagram
unfolding send_to
send_ack radio s ip port acked_seq =
    let (s', seq, v, out) = send_to radio s type_ack (pack_ack acked_seq) ip port in
    if is_sent v
    then (record s' { counts = record s'.counts { ack_tx = u32 (s'.counts.ack_tx + 1) } }, out)
    else (s', out)

abbrev pub hb_ack_era : ℕ
hb_ack_era = 0

unfoldable pub send_hb_ack : Bool → Server → ℕ → Server × List Datagram
unfolding send_unicast
send_hb_ack radio s channel =
    let (s', seq, ok, out) = send_unicast radio s type_hb_ack (pack_hb_ack channel hb_ack_era) in
    if ok
    then (
      record s' { counts = record s'.counts { hb_ack_tx = u32 (s'.counts.hb_ack_tx + 1) } },
      out,
    )
    else (s', out)

-- What a heartbeat that counts does: the sequence number is taken, the peer pinned, the answer sent.
abbrev pub beat : Bool → Server → ℕ → ℕ → ℕ → ℕ → Server × List Datagram
beat radio s seq ip port channel =
    send_hb_ack radio
      (pin_head_peer
        (record s {
          have_seq = true;
          last_seq = seq;
          counts = record s.counts { hb_rx = u32 (s.counts.hb_rx + 1) };
        })
        ip port)
      channel

unfoldable pub handle_hb : Bool → Server → Frame → ℕ → ℕ → Server × List Datagram
unfolding drop_udp boot_epoch_changed classify_seq
handle_hb radio s f ip port = elim (unpack_hb f.payload) [
  | none ↦ (drop_udp s, [])
  | some h ↦
      if boot_epoch_changed s.have_boot s.last_boot_id h.boot_id
      then beat radio (record s { have_boot = true; last_boot_id = h.boot_id }) f.seq ip port
          h.channel
      else elim (classify_seq s.have_seq s.last_seq f.seq) [
        | stale ↦ (drop_udp s, [])
        | duplicate ↦ send_hb_ack radio (pin_head_peer s ip port) h.channel
        | fresh ↦ beat radio s f.seq ip port h.channel
      ]
]

-- The frame becomes the staged command.
abbrev pub stage : Server → Frame → Server
stage s f = record s {
  have_seq = true;
  last_seq = f.seq;
  last_cmd = record { valid = true; type' = f.type'; seq = f.seq; payload = f.payload };
  counts = record s.counts { cmd_rx = u32 (s.counts.cmd_rx + 1) };
}

unfoldable pub handle_cmd : Bool → Server → Frame → ℕ → ℕ → Server × List Datagram
unfolding drop_udp classify_seq
handle_cmd radio s f ip port = elim (classify_seq s.have_seq s.last_seq f.seq) [
  | stale ↦ (drop_udp s, [])
  | duplicate ↦ send_ack radio s ip port f.seq
  | fresh ↦ send_ack radio (stage s f) ip port f.seq
]

unfoldable pub handle_ack : Server → Frame → Server
unfolding drop_udp
handle_ack s f = elim (unpack_ack f.payload) [
  | none ↦ drop_udp s
  | some acked ↦
      let counts' = record s.counts { ack_rx = u32 (s.counts.ack_rx + 1) } in
      if s.cred.armed && not s.cred.confirmed && s.cred.have_seq && acked == s.cred.seq
      then record s {
        cred = record s.cred { confirmed = true; armed = false };
        counts = record counts' { cred_ack = u32 (counts'.cred_ack + 1) };
      }
      else record s { counts = counts' }
]

-- The other types of the link go from the core to the head, or on the other socket.
abbrev pub by_type : Bool → Server → Frame → ℕ → ℕ → Server × List Datagram
by_type radio s f ip port =
    if f.type' == type_hb
    then handle_hb radio s f ip port
    else if f.type' == type_oled || f.type' == type_cam_ctl
    then handle_cmd radio s f ip port
    else if f.type' == type_ack
    then (handle_ack s f, [])
    else (drop_udp s, [])

unfoldable pub handle_udp_frame : Bool → Server → List ℕ → ℕ → ℕ → Server × List Datagram
handle_udp_frame radio s buf ip port =
    let s' : Server = record s {
      counts = record s.counts { udp_rx = u32 (s.counts.udp_rx + 1) };
    } in
    elim (decode_frame buf) [
      | none ↦ (drop_udp s', [])
      | some f ↦
          if f.frag_idx != 0 || f.frag_total != 1
          then (drop_udp s', [])
          else by_type radio s' f ip port
    ]

-- One datagram of the loop of `pollUdp`, with the sender.
unfoldable pub poll_udp : Bool → Server → List ℕ → ℕ → ℕ → Server × List Datagram
unfolding handle_udp_frame
poll_udp radio s buf ip port =
    if ltb (overhead + max_payload) (length buf) || length buf == 0
    then (drop_udp s, [])
    else handle_udp_frame radio s buf ip port
