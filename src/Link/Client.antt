-- ===== src/Link/Client.antt =====
-- The link endpoint of the head, on a frame: embedded/head/src/transport/link_client.h. The
-- handlers are attached; what they and the radio answer are arguments. `open` is
-- `linkcrypto::open` under the provisioned key: it takes the nonce and the sealed bytes, and fails
-- where there is no key. A text has no NUL inside.
pub mod Assoc
pub mod Still
pub mod Once
pub mod Search
use desky.Prelude.{
  ℕ, ◌+◌, Bool, true, false, not, ◌&&◌, ◌||◌, Option, none, some, List, [], ◌∷◌, ◌++◌, ltb, leb,
  ◌==◌, ◌!=◌, if◌then◌else◌, u8, u16, u32, length, get_or, take, drop,
}
use desky.Prelude.Int.{ℤ, pos}
use desky.Link.{
  Frame, type_oled, type_cam_ctl, type_expr, type_ota, type_pair_show, type_pair_done,
  type_wifi_creds, type_hb_ack, type_ack, max_payload, overhead, encode_frame, decode_frame,
  is_fresh_seq,
}
use desky.Link.Payload.{
  unpack_hb_ack, unpack_pair_show, unpack_wifi_creds, unpack_oled, unpack_cam_ctl, pack_ack,
}
use desky.Link.Server.{Datagram}
use desky.Link.Follow.{
  RxVerdict, fresh, duplicate, stale, classify_rx, FollowTarget, last_good, home, core_ap,
  is_ota_frame, first_follow_target,
}

pub record Counters : Type 0 where
  pub hb_sent : ℕ
  pub hb_ack_rx : ℕ
  pub cmd_rx : ℕ
  pub ack_tx : ℕ
  pub frames_sent : ℕ
  pub still_drop : ℕ
  pub udp_drop : ℕ
  pub tx_fail : ℕ
  pub cred_rx : ℕ
  pub pair_show_rx : ℕ
  pub pair_done_rx : ℕ
  pub ota_rx : ℕ

pub record Client : Type 0 where
  pub associated : Bool
  pub link_up : Bool
  pub last_assoc_try_ms : ℕ
  pub connecting : Bool
  pub attempt_start_ms : ℕ
  pub follow_target : FollowTarget
  pub cycle_exhausted : Bool
  pub cycle_end_ms : ℕ
  pub have_home_creds : Bool
  pub home_ssid : List ℕ
  pub home_pass : List ℕ
  pub have_last_good : Bool
  pub need_last_good : Bool
  pub last_good_ssid : List ℕ
  pub last_good_pass : List ℕ
  pub core_ip : ℕ
  pub last_hb_ms : ℕ
  pub last_ack_ms : ℕ
  pub hb_since_ack : ℕ
  pub boot_id : ℕ
  pub tx_seq : ℕ
  pub have_cmd_seq : Bool
  pub last_cmd_seq : ℕ
  pub still_pending : Bool
  pub last_rssi : ℤ
  pub last_channel : ℕ
  pub counts : Counters

abbrev pub is_command_type : ℕ → Bool
is_command_type t =
    t == type_oled
    || t == type_cam_ctl
    || t == type_expr
    || t == type_pair_show
    || t == type_pair_done
    || t == type_wifi_creds
    || t == type_ota

-- What a call does outside the client.
pub data Effect : Type 0 where
  transmit : Datagram → Effect
  on_command : Frame → Effect
  on_pair_show : List ℕ → ℕ → Effect
  on_pair_done : Effect
  on_ota_url : List ℕ → Effect
  on_wifi_creds wifi_begin : List ℕ → List ℕ → Effect
  wifi_disconnect : Effect

-- What the handlers and the radio answer, and what the compiled configuration says.
pub record Answers : Type 0 where
  pub now : ℕ
  pub radio : Bool
  pub ota_taken : Bool
  pub creds_stored : Bool
  pub core_ssid : List ℕ
  pub core_pass : List ℕ

abbrev pub ssid_cap : ℕ
ssid_cap = 32

abbrev pub pass_cap : ℕ
pass_cap = 64

unfoldable pub set_home_creds : Client → List ℕ → List ℕ → Bool → Client
unfolding first_follow_target
set_home_creds c ssid pass have =
    let c' : Client =
      (if have && length ssid != 0
        then record c {
          have_home_creds = true;
          home_ssid = take ssid_cap ssid;
          home_pass = take pass_cap pass;
        }
        else record c { have_home_creds = false; home_ssid = []; home_pass = [] }) in
    if not c'.associated && not c'.connecting
    then record c' { follow_target = first_follow_target c'.have_last_good c'.have_home_creds }
    else c'

unfoldable pub drop_udp : Client → Client
drop_udp c = record c { counts = record c.counts { udp_drop = u32 (c.counts.udp_drop + 1) } }

unfoldable pub send_ack : Bool → Client → ℕ → ℕ → ℕ → Client × List Effect
send_ack radio c ip port acked_seq =
    let c' : Client = record c { tx_seq = u16 (c.tx_seq + 1) } in
    elim (encode_frame type_ack c.tx_seq (pack_ack acked_seq) 0 1 (overhead + max_payload)) [
      | none ↦ (c', [])
      | some out ↦
          if radio
          then (
            record c' { counts = record c.counts { ack_tx = u32 (c.counts.ack_tx + 1) } },
            transmit (record { ip = ip; port = port; bytes = out }) ∷ [],
          )
          else (record c' { counts = record c.counts { tx_fail = u32 (c.counts.tx_fail + 1) } }, [])
    ]

-- The network on which the core is heard is kept.
unfoldable pub snapshot_last_good : Answers → Client → Client
snapshot_last_good a c = elim c.follow_target [
  | home ↦ record c {
    last_good_ssid = c.home_ssid;
    last_good_pass = c.home_pass;
    have_last_good = true;
    need_last_good = false;
  }
  | core_ap ↦ record c {
    last_good_ssid = take ssid_cap a.core_ssid;
    last_good_pass = take pass_cap a.core_pass;
    have_last_good = true;
    need_last_good = false;
  }
  | last_good ↦ record c { have_last_good = true; need_last_good = false }
]

unfoldable pub handle_hb_ack : Answers → Client → Frame → Client
unfolding drop_udp snapshot_last_good
handle_hb_ack a c f = elim (unpack_hb_ack f.payload) [
  | none ↦ drop_udp c
  | some (channel, era) ↦
      let c' : Client = record c {
        last_channel = channel;
        last_ack_ms = a.now;
        hb_since_ack = 0;
        counts = record c.counts { hb_ack_rx = u32 (c.counts.hb_ack_rx + 1) };
      } in
      if c'.need_last_good then snapshot_last_good a c' else c'
]

-- The frame is taken as a command: its sequence number, and the counter.
abbrev pub taken : Client → Frame → Client
taken c f = record c {
  have_cmd_seq = true;
  last_cmd_seq = f.seq;
  counts = record c.counts { cmd_rx = u32 (c.counts.cmd_rx + 1) };
}

-- The acknowledgement goes out, then the handler is called.
unfoldable pub answer : Bool → Client → Frame → ℕ → ℕ → Effect → Client × List Effect
unfolding send_ack
answer radio c f ip port e =
    let (c', acked) = send_ack radio c ip port f.seq in (c', acked ++ (e ∷ []))

-- A value of the display, the camera or the face.
unfoldable pub value_ok : Frame → Bool
unfolding unpack_oled unpack_cam_ctl
value_ok f =
    if f.type' == type_expr
    then length f.payload == 1
    else if f.type' == type_oled
    then length f.payload == 1
      && elim (unpack_oled (get_or f.payload 0 0)) [ none ↦ false | some mode ↦ true ]
    else if f.type' == type_cam_ctl
    then length f.payload == 1
      && elim (unpack_cam_ctl (get_or f.payload 0 0)) [ none ↦ false | some wire ↦ true ]
    else false

-- The counters of the single commands.
abbrev pub count_cred : Client → Client
count_cred c = record c { counts = record c.counts { cred_rx = u32 (c.counts.cred_rx + 1) } }

abbrev pub count_ack : Client → Client
count_ack c = record c { counts = record c.counts { hb_ack_rx = u32 (c.counts.hb_ack_rx + 1) } }

abbrev pub count_pair_show : Client → Client
count_pair_show c = record c {
  counts = record c.counts { pair_show_rx = u32 (c.counts.pair_show_rx + 1) };
}

abbrev pub count_pair_done : Client → Client
count_pair_done c = record c {
  counts = record c.counts { pair_done_rx = u32 (c.counts.pair_done_rx + 1) };
}

abbrev pub count_ota : Client → Client
count_ota c = record c { counts = record c.counts { ota_rx = u32 (c.counts.ota_rx + 1) } }

-- `handleCreds`, once the payload is opened or not.
unfoldable pub take_creds :
    Answers → Client → Frame → ℕ → ℕ → Option (List ℕ × List ℕ) → Client × List Effect
unfolding drop_udp set_home_creds answer
take_creds a c f ip port none = (drop_udp c, [])
take_creds a c f ip port (some (ssid, pass)) =
    let (c', out) = answer a.radio (count_cred (taken c f)) f ip port (on_wifi_creds ssid pass) in
    (if a.creds_stored then set_home_creds c' ssid pass (ltb 0 (length ssid)) else c', out)

unfoldable pub take_pair_show :
    Answers → Client → Frame → ℕ → ℕ → Option (List ℕ × ℕ) → Client × List Effect
unfolding drop_udp answer
take_pair_show a c f ip port none = (drop_udp c, [])
take_pair_show a c f ip port (some (digits, valid_secs)) =
    answer a.radio (count_pair_show (taken c f)) f ip port (on_pair_show digits valid_secs)

unfoldable pub take_ota : Answers → Client → Frame → ℕ → ℕ → Client × List Effect
unfolding drop_udp answer
take_ota a c f ip port =
    let (c', out) = answer a.radio (count_ota (taken c f)) f ip port (on_ota_url f.payload) in
    (if a.ota_taken then c' else drop_udp c', out)

unfoldable pub take_value : Answers → Client → Frame → ℕ → ℕ → Client × List Effect
unfolding send_ack
take_value a c f ip port =
    let (c', acked) = send_ack a.radio (taken c f) ip port f.seq in (c', on_command f ∷ acked)

module _ (open' : List ℕ → List ℕ → Option (List ℕ)) where
  -- The credentials in a sealed payload.
  unfoldable pub open_creds : List ℕ → Option (List ℕ × List ℕ)
  open_creds payload =
      if not (ltb 12 (length payload))
      then none
      else elim (open' (take 12 payload) (drop 12 payload)) [
        | none ↦ none
        | some plain ↦ unpack_wifi_creds plain
      ]

  -- A command whose sequence number is fresh.
  unfoldable pub fresh_cmd : Answers → Client → Frame → ℕ → ℕ → Client × List Effect
  unfolding drop_udp value_ok take_creds take_pair_show take_ota take_value
  fresh_cmd a c f ip port =
      let n = length f.payload in
      if f.type' == type_wifi_creds && leb 30 n && leb n 126
      then take_creds a c f ip port (open_creds f.payload)
      else if is_ota_frame f.type' n
      then take_ota a c f ip port
      else if f.type' == type_pair_show && n == 8
      then take_pair_show a c f ip port (unpack_pair_show f.payload)
      else if f.type' == type_pair_done && n == 0
      then answer a.radio (count_pair_done (taken c f)) f ip port on_pair_done
      else if not (value_ok f)
      then (drop_udp c, [])
      else take_value a c f ip port

  -- By the verdict on its sequence number.
  unfoldable pub gated : Answers → Client → Frame → ℕ → ℕ → RxVerdict → Client × List Effect
  unfolding drop_udp
  gated a c f ip port stale = (drop_udp c, [])
  gated a c f ip port duplicate = send_ack a.radio c ip port f.seq
  gated a c f ip port fresh = fresh_cmd a c f ip port

  unfoldable pub handle_cmd : Answers → Client → Frame → ℕ → ℕ → Client × List Effect
  unfolding gated classify_rx
  handle_cmd a c f ip port = gated a c f ip port (classify_rx c.have_cmd_seq c.last_cmd_seq f.seq)

  -- A frame that decodes.
  unfoldable pub by_type : Answers → Client → Frame → ℕ → ℕ → Client × List Effect
  unfolding drop_udp
  by_type a c f ip port =
      if f.frag_idx != 0 || f.frag_total != 1
      then (drop_udp c, [])
      else if f.type' == type_hb_ack
      then (handle_hb_ack a c f, [])
      else if is_command_type f.type'
      then handle_cmd a c f ip port
      else if f.type' == type_ack
      then (count_ack c, [])
      else (drop_udp c, [])

  unfoldable pub handle_frame : Answers → Client → List ℕ → ℕ → ℕ → Client × List Effect
  unfolding by_type
  handle_frame a c buf ip port = elim (decode_frame buf) [
    | none ↦ (drop_udp c, [])
    | some f ↦ by_type a c f ip port
  ]
