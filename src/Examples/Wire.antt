-- ===== src/Examples/Wire.antt =====
-- The phone wire and the link between the boards on small inputs.
use desky.Prelude.{
  ℕ, ◌<◌, ◌≤◌, ◌≡◌, ◌≢◌, ◌⊎◌, refl, arith, true, false, some, List, [], ◌∷◌, length, take, get_or,
}
use desky.Prelude.Int.{pos, negsuc}
use desky.Udp.{ControlPacket, TelemetryPacket, checksum, encode_control}
use desky.Udp.Rx.{classify_rx, drop_frame}
use desky.Link.{Frame, type_ack, encode_frame, decode_frame, crc16_ccitt, is_valid_payload_len}
use desky.Link.Guards.{IsFrame}
use desky.Link.RoundTrip.{decode_frame-encode_frame, encode_frame-decode_frame}
use desky.Link.Payload.{pack_wifi_creds}
use desky.Link.Reassembly.{Reassembler, reset, push}
use desky.Link.Reassembly.Order.{push_refused, join}

abbrev control : ControlPacket
control = record { mode = 1; throttle = 200; steering = 128; flags = 0 }

abbrev control_bytes : List ℕ
control_bytes = 0xAA ∷ 1 ∷ 200 ∷ 128 ∷ 0 ∷ 0xE3 ∷ []

control_run : encode_control control ≡ control_bytes
unfolding encode_control checksum
control_run = refl

control_bytes_sealed : checksum (take 5 control_bytes) ≡ get_or control_bytes 5 0
unfolding checksum
control_bytes_sealed = refl

abbrev telemetry : TelemetryPacket
telemetry = record { pitch = negsuc 4; roll = pos 12; distance_mm = 300; status_flags = 3 }

drive_kept : classify_rx 16 0xAC ≢ drop_frame
unfolding classify_rx
drive_kept h = cc

abbrev ack : Frame
ack = record { type' = type_ack; seq = 258; frag_idx = 0; frag_total = 1; payload = 1 ∷ 2 ∷ [] }

abbrev ack_bytes : List ℕ
ack_bytes = 0x4C ∷ 0x22 ∷ 1 ∷ 2 ∷ 0 ∷ 1 ∷ 0 ∷ 2 ∷ 1 ∷ 2 ∷ 229 ∷ 180 ∷ []

ack_valid : is_valid_payload_len type_ack 2 ≡ true
unfolding is_valid_payload_len
ack_valid = refl

ack-IsFrame : IsFrame ack
ack-IsFrame = record {
  type_fits = omega arith;
  seq_fits = omega arith;
  idx_lt = omega arith;
  total_fits = omega arith;
  len_valid = ack_valid;
}

ack_encoded : encode_frame type_ack 258 (1 ∷ 2 ∷ []) 0 1 64 ≡ some ack_bytes
unfolding encode_frame is_valid_payload_len crc16_ccitt
ack_encoded = refl

decode_frame-encode_frame_example : decode_frame ack_bytes ≡ some ack
decode_frame-encode_frame_example = decode_frame-encode_frame ack 64 ack-IsFrame ack_encoded

encode_frame-decode_frame_example : encode_frame type_ack 258 (1 ∷ 2 ∷ []) 0 1 12 ≡ some ack_bytes
encode_frame-decode_frame_example =
    encode_frame-decode_frame ack_bytes (ground arith) decode_frame-encode_frame_example

creds_packed : pack_wifi_creds (97 ∷ 98 ∷ []) (99 ∷ []) 98 ≡ some (2 ∷ 97 ∷ 98 ∷ 1 ∷ 99 ∷ [])
unfolding pack_wifi_creds
creds_packed = refl

abbrev digits : List ℕ
digits = 49 ∷ 50 ∷ 51 ∷ 52 ∷ 53 ∷ 54 ∷ []

-- One fragment of two is in.
abbrev half : Reassembler
half = record { cap = 8; written = 1 ∷ []; total = 2; next = 1 }

abbrev two_bytes : List ℕ
two_bytes = 1 ∷ 2 ∷ []

abbrev index : ℕ
index = 1

abbrev first : ℕ
first = 0

too_long : (push (reset 1) first 2 two_bytes).1 ≡ false
unfolding push reset
too_long = refl

push_refused_example :
    ((push (reset 1) first 2 two_bytes).0 ≡ reset 1)
    ⊎ (((reset 1).next ≡ 0)
        × (first ≡ 0)
        × ((reset 1).cap < length two_bytes)
        × ((push (reset 1) first 2 two_bytes).0 ≡ record (reset 1) { total = 2; written = [] }))
push_refused_example = push_refused (reset 1) first 2 two_bytes too_long

abbrev third : List ℕ
third = 3 ∷ []

three_fit : length (join (two_bytes ∷ third ∷ [])) ≤ 8
unfolding join
three_fit = omega arith
