-- ===== src/Udp.antt =====
-- The phone wire: embedded/core/src/transport/udp_codec.h. A buffer is the list of its bytes, with
-- its length; `none` stands for a null pointer. The encoders return the bytes that they write (their
-- result is always true).
pub mod Checksum
pub mod RoundTrip
pub mod Rx
use desky.Prelude.{
  ℕ, ◌+◌, ◌-◌, ◌*◌, ◌/◌, ◌%◌, ◌^◌, ◌||◌, Option, none, some, List, [], ◌∷◌, ◌++◌, bit_or, bit_xor,
  u8, u16, ◌!=◌, if◌then◌else◌, length, get_or, take, drop,
}
use desky.Prelude.Int.{ℤ, pos, negsuc, sub_ℕ, ltb_ℤ, to_word, signed16}

pub record ControlPacket : Type 0 where
  pub mode : ℕ
  pub throttle : ℕ
  pub steering : ℕ
  pub flags : ℕ

pub record TelemetryPacket : Type 0 where
  pub pitch : ℤ
  pub roll : ℤ
  pub distance_mm : ℕ
  pub status_flags : ℕ

abbrev pub control_header : ℕ
control_header = 0xAA

abbrev pub telemetry_header : ℕ
telemetry_header = 0xBB

abbrev pub control_size : ℕ
control_size = 6

abbrev pub telemetry_size : ℕ
telemetry_size = 9

-- `sum` is the loop's accumulator.
pub checksum_from : ℕ → List ℕ → ℕ
checksum_from sum [] = sum
checksum_from sum (b ∷ bs) = checksum_from (bit_xor sum b) bs

unfoldable pub checksum : List ℕ → ℕ
unfolding checksum_from
checksum bs = checksum_from 0 bs

unfoldable pub encode_control : ControlPacket → List ℕ
encode_control p =
    let body = control_header ∷ p.mode ∷ p.throttle ∷ p.steering ∷ p.flags ∷ [] in
    body ++ (checksum body ∷ [])

unfoldable pub decode_control : Option (List ℕ) → Option ControlPacket
decode_control none = none
decode_control (some bs) =
    if length bs != control_size
    then none
    else if get_or bs 0 0 != control_header
        || checksum (take (control_size - 1) bs) != get_or bs (control_size - 1) 0
    then none
    else some (record {
      mode = get_or bs 1 0;
      throttle = get_or bs 2 0;
      steering = get_or bs 3 0;
      flags = get_or bs 4 0;
    })

-- `v` is promoted to int; bits 8 to 15 of it are those of its 16-bit pattern.
unfoldable pub put_i16_be : ℤ → List ℕ
put_i16_be v = u8 (to_word 16 v / 2 ^ 8) ∷ u8 (to_word 16 v) ∷ []

unfoldable pub get_i16_be : List ℕ → ℤ
get_i16_be bs = signed16 (u16 (bit_or (get_or bs 0 0 * 2 ^ 8) (get_or bs 1 0)))

unfoldable pub encode_telemetry : TelemetryPacket → List ℕ
encode_telemetry p =
    let body =
      telemetry_header
      ∷ (put_i16_be p.pitch
          ++ (put_i16_be p.roll
              ++ (u8 (p.distance_mm / 2 ^ 8) ∷ u8 p.distance_mm ∷ p.status_flags ∷ []))) in
    body ++ (checksum body ∷ [])

-- `in + 1` is `drop 1`.
unfoldable pub decode_telemetry : Option (List ℕ) → Option TelemetryPacket
decode_telemetry none = none
decode_telemetry (some bs) =
    if length bs != telemetry_size
    then none
    else if get_or bs 0 0 != telemetry_header
        || checksum (take (telemetry_size - 1) bs) != get_or bs (telemetry_size - 1) 0
    then none
    else some (record {
      pitch = get_i16_be (drop 1 bs);
      roll = get_i16_be (drop 3 bs);
      distance_mm = u16 (bit_or (get_or bs 5 0 * 2 ^ 8) (get_or bs 6 0));
      status_flags = get_or bs 7 0;
    })

-- A stick value is counted in 127ths: the float of the source is the quotient by 127, and the
-- clamp at +-1.0 is one at +-127.
unfoldable pub byte_to_unit : ℕ → ℤ
byte_to_unit raw =
    let f = sub_ℕ raw 128 in
    if ltb_ℤ (pos 127) f then pos 127 else if ltb_ℤ f (negsuc 126) then negsuc 126 else f

unfoldable pub pack_command : ℕ → ℕ → ℕ → ℕ → ℕ
pack_command mode throttle steering flags =
    bit_or (bit_or (bit_or (mode * 2 ^ 24) (throttle * 2 ^ 16)) (steering * 2 ^ 8)) flags

pub record Command : Type 0 where
  pub mode : ℕ
  pub v : ℤ
  pub omega : ℤ
  pub flags : ℕ

unfoldable pub unpack_command : ℕ → Command
unpack_command payload = record {
  mode = u8 (payload / 2 ^ 24);
  v = byte_to_unit (u8 (payload / 2 ^ 16));
  omega = byte_to_unit (u8 (payload / 2 ^ 8));
  flags = u8 payload;
}
