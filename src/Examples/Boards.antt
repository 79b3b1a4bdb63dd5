-- ===== src/Examples/Boards.antt =====
-- The link between the boards on small inputs.
use desky.Prelude.{
  ℕ, ◌+◌, ◌≤◌, ◌≡◌, refl, arith, true, false, some, List, [], ◌∷◌, ◌++◌, length, u32,
}
use desky.Prelude.Int.{pos}
use desky.Link.{type_oled, encode_frame, decode_frame, is_valid_payload_len}
use desky.Link.Payload.{pack_wifi_creds, unpack_oled}
use desky.Link.Server.{Server, new_server, send_unicast}
use desky.Link.Server.Creds.{send_push, push_creds, send_creds_once}
use desky.Link.Server.Creds.Limit.{push_poll, repeats, push_creds-le}
use desky.Link.Follow.{frag_total_for, frag_slice, per_frame_payload, core_ap, fresh, classify_rx}
use desky.Link.Client.{
  Client, Answers, transmit, on_wifi_creds, wifi_begin, drop_udp, handle_frame, value_ok,
}
use mathlib.Core.List.{Memᴰ}
use desky.Link.Client.Assoc.{receive, Radio, poll_assoc}
use desky.Link.Client.Search.{is_due, efforts, DuePolls, efforts-core_ap}
use desky.Link.Client.Still.{service_still, send_fragments}
use desky.Link.Delivery.{Delivery}
use desky.Link.Delivery.Exact.{
  wires, executed, IsAscending, DeliversWires, executed-IsAscending, frame_of,
}
use desky.Link.Delivery.Live.{newest, executed-newest, receive_starved, IsValue, DeliversValues}
use desky.Link.Delivery.Creds.{sealing, push_creds-confirmed}
use desky.Link.Server.{handle_udp_frame}
use desky.Link.Stream.{Stream, new_stream, poll_tcp, pull_frame, pull_loop, need_more}
use desky.Link.Stream.Settles.{pull_loop-need_more}
use desky.Link.Stream.Framing.{put, drain, then_drain, drain-append}
use desky.Link.Stream.Polls.{poll_all, bytes_of, IsPolled}
use desky.Link.Stream.Sent.{drain-service_still}
use desky.Link.Reassembly.Order.{join}
use desky.Link.Crypto.{zeroes, seal, open'}
use desky.Link.Crypto.Opens.{open'-seal}

abbrev key : List ℕ
key = zeroes 16

abbrev nonce : List ℕ
nonce = zeroes 12

-- The known answer for a block of zeroes under the zero key and nonce.
seal_run :
    seal key nonce (zeroes 16)
    ≡ 0x03 ∷ 0x88 ∷ 0xDA ∷ 0xCE ∷ 0x60 ∷ 0xB6 ∷ 0xA3 ∷ 0x92 ∷ 0xF3 ∷ 0x28 ∷ 0xC2 ∷ 0xB9 ∷ 0x71
      ∷ 0xB2 ∷ 0xFE ∷ 0x78 ∷ 0xAB ∷ 0x6E ∷ 0x47 ∷ 0xD4 ∷ 0x2C ∷ 0xEC ∷ 0x13 ∷ 0xBD ∷ 0xF5 ∷ 0x3A
      ∷ 0x67 ∷ 0xB2 ∷ 0x12 ∷ 0x57 ∷ 0xBD ∷ 0xDF ∷ []
unfolding seal
seal_run = refl

open'-seal_example :
    (open' key nonce (seal key nonce (1 ∷ 2 ∷ [])) ≡ some (1 ∷ 2 ∷ []))
    × (length (seal key nonce (1 ∷ 2 ∷ [])) ≡ 2 + 16)
open'-seal_example = open'-seal key nonce (1 ∷ 2 ∷ []) refl refl

abbrev core : Server
core = record new_server {
  head_ip = 7;
  head_port = 3334;
  have_head_peer = true;
  home_ssid = 104 ∷ 105 ∷ [];
  home_pass = 112 ∷ [];
  home_creds_valid = true;
}

abbrev head : Client
head = record {
  associated = true;
  link_up = true;
  last_assoc_try_ms = 0;
  connecting = false;
  attempt_start_ms = 0;
  follow_target = core_ap;
  cycle_exhausted = false;
  cycle_end_ms = 0;
  have_home_creds = false;
  home_ssid = [];
  home_pass = [];
  have_last_good = false;
  need_last_good = false;
  last_good_ssid = [];
  last_good_pass = [];
  core_ip = 1;
  last_hb_ms = 0;
  last_ack_ms = 0;
  hb_since_ack = 0;
  boot_id = 9;
  tx_seq = 0;
  have_cmd_seq = false;
  last_cmd_seq = 0;
  still_pending = true;
  last_rssi = pos 0;
  last_channel = 1;
  counts = record {
    hb_sent = 0;
    hb_ack_rx = 0;
    cmd_rx = 0;
    ack_tx = 0;
    frames_sent = 0;
    still_drop = 0;
    udp_drop = 0;
    tx_fail = 0;
    cred_rx = 0;
    pair_show_rx = 0;
    pair_done_rx = 0;
    ota_rx = 0;
  };
}

abbrev answers : Answers
answers = record {
  now = 5;
  radio = true;
  ota_taken = true;
  creds_stored = true;
  core_ssid = [];
  core_pass = [];
}

joined_run : classify_rx head.have_cmd_seq head.last_cmd_seq core.tx_seq ≡ fresh
unfolding classify_rx
joined_run = refl

push_creds-confirmed_example :
    let pushed = push_creds (sealing key) false true core nonce 5 in
    (bytes ack : List ℕ) × (pushed.1 ≡ record { ip = 7; port = 3334; bytes = bytes } ∷ [])
    × let taken = handle_frame (open' key) answers head bytes 1 3334 in
      let back = (handle_udp_frame true pushed.0 ack 7 3334).0 in
      (taken.1
        ≡ transmit (record { ip = 1; port = 3334; bytes = ack })
          ∷ (on_wifi_creds (104 ∷ 105 ∷ []) (112 ∷ []) ∷ []))
      × (taken.0.have_home_creds ≡ true)
      × (taken.0.home_ssid ≡ 104 ∷ 105 ∷ [])
      × (taken.0.home_pass ≡ 112 ∷ [])
      × (back.cred.confirmed ≡ true)
      × (back.cred.armed ≡ false)
push_creds-confirmed_example =
    push_creds-confirmed key nonce core head answers 5 1 3334 7 3334 refl refl refl refl
      (omega arith) (omega arith) (omega arith) (omega arith) (omega arith) joined_run refl refl

first_run : (send_push (sealing key) false true core nonce).1 ≡ true
unfolding send_creds_once pack_wifi_creds send_unicast seal encode_frame is_valid_payload_len
first_run = refl

push_creds-le_example :
    let r = push_creds (sealing key) false true core nonce 5 in
    length r.1 + length (repeats (sealing key) r.0 (push_poll true nonce 1005 ∷ [])) ≤ 5
push_creds-le_example =
    push_creds-le (sealing key) false true core nonce 5 (push_poll true nonce 1005 ∷ []) first_run

-- A frame for the display, number 0, and the same frame as number 40000.
abbrev oled_bytes : List ℕ
oled_bytes = 76 ∷ 2 ∷ 0 ∷ 0 ∷ 0 ∷ 1 ∷ 0 ∷ 1 ∷ 2 ∷ 24 ∷ 218 ∷ []

abbrev late_bytes : List ℕ
late_bytes = 76 ∷ 2 ∷ 156 ∷ 64 ∷ 0 ∷ 1 ∷ 0 ∷ 1 ∷ 2 ∷ 188 ∷ 35 ∷ []

abbrev delivered : List ℕ → Delivery
delivered bytes = record { index = 0; bytes = bytes; ip = 1; port = 3334; answers = answers }

decode_oled : decode_frame oled_bytes ≡ some (frame_of type_oled 0 (2 ∷ []))
unfolding decode_frame is_valid_payload_len
decode_oled = refl

decode_late : decode_frame late_bytes ≡ some (frame_of type_oled 40000 (2 ∷ []))
unfolding decode_frame is_valid_payload_len
decode_late = refl

wires_run : wires core ((type_oled, 2 ∷ []) ∷ []) ≡ oled_bytes ∷ []
unfolding wires send_unicast encode_frame is_valid_payload_len
wires_run = refl

valid_run : is_valid_payload_len type_oled 1 ≡ true
unfolding is_valid_payload_len
valid_run = refl

delivers_run :
    DeliversWires
      (open' key)
      (wires core ((type_oled, 2 ∷ []) ∷ []))
      (delivered oled_bytes ∷ (delivered oled_bytes ∷ []))
delivers_run = rw wires_run ((omega arith, refl, (omega arith, refl, tt)))

late-IsValue : IsValue (frame_of type_oled 40000 (2 ∷ []))
unfolding value_ok unpack_oled
late-IsValue = (refl, refl, refl)

early-IsValue : IsValue (frame_of type_oled 0 (2 ∷ []))
unfolding value_ok unpack_oled
early-IsValue = (refl, refl, refl)

carried : DeliversValues 0 1 (delivered oled_bytes ∷ [])
carried = (
  omega arith,
  (
    record { frame = frame_of type_oled 0 (2 ∷ []); decodes = decode_oled; numbered = refl },
    early-IsValue,
  ),
  tt,
)

-- The same frame is delivered twice.
executed-IsAscending_example :
    IsAscending 0 (executed (open' key) head (delivered oled_bytes ∷ (delivered oled_bytes ∷ [])))
executed-IsAscending_example =
    executed-IsAscending (open' key) core ((type_oled, 2 ∷ []) ∷ []) head
      (delivered oled_bytes ∷ (delivered oled_bytes ∷ [])) refl (omega arith)
      (omega arith, omega arith, valid_run, tt) (omega arith) refl delivers_run

executed-newest_example :
    executed (open' key) head (delivered oled_bytes ∷ (delivered oled_bytes ∷ []))
    ≡ newest 0 (delivered oled_bytes ∷ (delivered oled_bytes ∷ []))
executed-newest_example =
    executed-newest (open' key) (delivered oled_bytes ∷ (delivered oled_bytes ∷ [])) head 0 1
      (omega arith) refl (carried.0, carried.1, carried)

-- The head has taken number 0, and the next command comes 40000 numbers later.
receive_starved_example :
    receive (open' key) answers (record head { have_cmd_seq = true }) late_bytes 1 3334
    ≡ (drop_udp (record head { have_cmd_seq = true }), [])
receive_starved_example =
    receive_starved (open' key) (delivered late_bytes) (record head { have_cmd_seq = true })
      (frame_of type_oled 40000 (2 ∷ [])) 0 40000 decode_late late-IsValue refl refl refl
      (omega arith) (omega arith)

abbrev image : List ℕ
image = 1 ∷ 2 ∷ 3 ∷ []

-- A clock that stands still.
abbrev idle_core : Stream
idle_core = new_stream (λ k. 5)

-- The connection is open.
abbrev open_core : Stream
open_core = record idle_core { client = true }

abbrev first_reads : List (List ℕ)
first_reads = (76 ∷ 16 ∷ 0 ∷ []) ∷ ((0 ∷ 0 ∷ 1 ∷ 0 ∷ []) ∷ [])

-- The bytes of the still come in two polls, the first of which reads twice.
abbrev reads : List (List (List ℕ))
reads = first_reads ∷ (((3 ∷ 1 ∷ 2 ∷ 3 ∷ 72 ∷ 200 ∷ []) ∷ []) ∷ [])

reads-bytes_of : bytes_of reads ≡ join (service_still true (some image) true 16 head).1
unfolding join service_still send_fragments frag_total_for frag_slice per_frame_payload encode_frame
    is_valid_payload_len
reads-bytes_of = refl

first_reads_left : length (poll_tcp open_core false true true first_reads).0.buffered ≡ 7
unfolding poll_tcp pull_frame
first_reads_left = refl

reads-IsPolled : IsPolled open_core reads
unfolding join
reads-IsPolled = (
  (omega arith, (omega arith, tt)),
  (omega arith, ((omega arith, tt), (omega (arith, first_reads_left), tt))),
)

drain-service_still_example :
    let sent = service_still true (some image) true 16 head in
    ((poll_all open_core reads).1 ≡ image ∷ [])
    × (sent.0.still_pending ≡ false)
    × (sent.0.counts.frames_sent ≡ u32 (0 + 1))
drain-service_still_example =
    drain-service_still head image 16 open_core reads refl refl (omega arith) (omega arith)
      (omega arith) (omega arith) refl refl reads-bytes_of reads-IsPolled

-- A byte that starts no frame, and the start of a frame.
abbrev noisy : Stream
noisy = put idle_core (0 ∷ oled_bytes)

pull_loop-need_more_example : pull_frame (pull_loop 12 noisy).0.buffered ≡ need_more
pull_loop-need_more_example = pull_loop-need_more 12 noisy (omega arith)

drain-append_example :
    drain (put noisy (noisy.buffered ++ oled_bytes)) ≡ then_drain (drain noisy) oled_bytes
drain-append_example = drain-append noisy oled_bytes

-- The access point is tried first, then not heard, then tried again.
abbrev lost : Client
lost = record head { associated = false; link_up = false }

abbrev poll_at : ℕ → Answers × Radio
poll_at now = (
  record answers { now = now },
  record {
    is_connected = false;
    rssi = pos 0;
    channel = 1;
    free_heap = 0;
    beacon_visible = false;
    host = 1;
    mdns_ip = 0;
  },
)

abbrev seven_polls : List (Answers × Radio)
seven_polls =
    poll_at 20000
    ∷ poll_at 40000
    ∷ poll_at 60000
    ∷ poll_at 80000
    ∷ poll_at 100000
    ∷ poll_at 120000
    ∷ poll_at 140000
    ∷ []

due_run : DuePolls [] [] lost seven_polls
unfolding is_due poll_assoc
due_run = (
  refl,
  refl,
  refl,
  refl,
  (
    refl,
    refl,
    refl,
    refl,
    (
      refl,
      refl,
      refl,
      refl,
      (
        refl,
        refl,
        refl,
        refl,
        (refl, refl, refl, refl, (refl, refl, refl, refl, (refl, refl, refl, refl, tt))),
      ),
    ),
  ),
)

efforts-core_ap_example : Memᴰ (wifi_begin [] []) (efforts lost seven_polls)
efforts-core_ap_example = efforts-core_ap seven_polls lost [] [] refl (omega arith) due_run
