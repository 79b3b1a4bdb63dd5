-- ===== src/Link.antt =====
-- The frames of the link between the two boards: embedded/shared/link/link_codec.h. A buffer is a
-- list of bytes, its length the length of the list; a null pointer is not modelled, and an output
-- buffer is its capacity. A function of the source that returns 0 or false returns `none` here.
pub mod Guards
pub mod RoundTrip
pub mod Sequence
pub mod Payload
pub mod Reassembly
pub mod Server
pub mod Follow
pub mod Client
pub mod Delivery
pub mod Stream
pub mod Crypto
use desky.Prelude.{
  ℕ, zero, suc, ◌+◌, ◌-◌, ◌*◌, ◌/◌, ◌%◌, ◌^◌, Bool, true, false, not, ◌&&◌, ◌||◌, Option, none,
  some, List, [], ◌∷◌, ◌++◌, ltb, leb, ◌==◌, ◌!=◌, if◌then◌else◌, bit_xor, u8, u16, sub16, length,
  get_or, take, drop, set, cells,
}

abbrev pub magic : ℕ
magic = 0x4C

abbrev pub header_size : ℕ
header_size = 8

abbrev pub overhead : ℕ
overhead = 10

abbrev pub max_payload : ℕ
max_payload = 1024

-- The frame types.
abbrev pub type_oled : ℕ
type_oled = 0x02

abbrev pub type_cam_ctl : ℕ
type_cam_ctl = 0x03

abbrev pub type_ota : ℕ
type_ota = 0x05

abbrev pub type_pair_show : ℕ
type_pair_show = 0x06

abbrev pub type_pair_done : ℕ
type_pair_done = 0x07

abbrev pub type_expr : ℕ
type_expr = 0x08

abbrev pub type_wifi_creds : ℕ
type_wifi_creds = 0x09

abbrev pub type_jpeg : ℕ
type_jpeg = 0x10

abbrev pub type_hb : ℕ
type_hb = 0x20

abbrev pub type_hb_ack : ℕ
type_hb_ack = 0x21

abbrev pub type_ack : ℕ
type_ack = 0x22

-- The scalars: the source writes `v >> 8` and `v & 0xFF`.
abbrev pub put_u16_be : ℕ → List ℕ
put_u16_be v = u8 (v / 256) ∷ u8 v ∷ []

abbrev pub get_u16_be : List ℕ → ℕ → ℕ
get_u16_be bs i = get_or bs i 0 * 256 + get_or bs (i + 1) 0

abbrev pub put_u32_be : ℕ → List ℕ
put_u32_be v = u8 (v / 16777216) ∷ u8 (v / 65536) ∷ u8 (v / 256) ∷ u8 v ∷ []

abbrev pub get_u32_be : List ℕ → ℕ → ℕ
get_u32_be bs i =
    get_or bs i 0 * 16777216
    + get_or bs (i + 1) 0 * 65536
    + get_or bs (i + 2) 0 * 256
    + get_or bs (i + 3) 0

-- One bit of the register: the test of its top bit, then the shift.
abbrev crc_bit : ℕ → ℕ
crc_bit crc = if crc / 32768 % 2 != 0 then u16 (bit_xor (crc * 2) 0x1021) else u16 (crc * 2)

crc_bits : ℕ → ℕ → ℕ
crc_bits zero crc = crc
crc_bits (suc n) crc = crc_bits n (crc_bit crc)

crc_from : ℕ → List ℕ → ℕ
unfolding crc_bits
crc_from crc [] = crc
crc_from crc (b ∷ bs) = crc_from (crc_bits 8 (bit_xor crc (u16 (b * 256)))) bs

unfoldable pub crc16_ccitt : List ℕ → ℕ
unfolding crc_from
crc16_ccitt data' = crc_from 0xFFFF data'

unfoldable pub is_known_type : ℕ → Bool
is_known_type t =
    t == type_oled
    || t == type_cam_ctl
    || t == type_ota
    || t == type_pair_show
    || t == type_pair_done
    || t == type_expr
    || t == type_wifi_creds
    || t == type_jpeg
    || t == type_hb
    || t == type_hb_ack
    || t == type_ack

unfoldable pub is_valid_payload_len : ℕ → ℕ → Bool
is_valid_payload_len t len =
    if t == type_oled || t == type_cam_ctl || t == type_expr
    then len == 1
    else if t == type_ota
    then leb 1 len && leb len 128
    else if t == type_wifi_creds
    then leb 30 len && leb len 126
    else if t == type_pair_show
    then len == 8
    else if t == type_pair_done
    then len == 0
    else if t == type_jpeg
    then leb len max_payload
    else if t == type_hb
    then len == 10
    else if t == type_hb_ack
    then len == 5
    else if t == type_ack
    then len == 2
    else false

-- The bytes that the check sum covers.
abbrev pub frame_body : ℕ → ℕ → List ℕ → ℕ → ℕ → List ℕ
frame_body type' seq payload frag_idx frag_total =
    magic
    ∷ u8 type'
    ∷ (put_u16_be seq ++ (frag_idx ∷ frag_total ∷ (put_u16_be (length payload) ++ payload)))

-- `len` of the source is the length of `payload`, `out_len` the capacity of the output buffer.
unfoldable pub encode_frame : ℕ → ℕ → List ℕ → ℕ → ℕ → ℕ → Option (List ℕ)
unfolding crc16_ccitt
encode_frame type' seq payload frag_idx frag_total out_len =
    let body = frame_body type' seq payload frag_idx frag_total in
    if not (is_valid_payload_len type' (length payload))
    then none
    else if frag_total == 0 || leb frag_total frag_idx
    then none
    else if ltb out_len (overhead + length payload)
    then none
    else some (body ++ put_u16_be (crc16_ccitt body))

-- The view's `payload` is the bytes it points to, so `payloadLen` is their number.
pub record Frame : Type 0 where
  pub type' : ℕ
  pub seq : ℕ
  pub frag_idx : ℕ
  pub frag_total : ℕ
  pub payload : List ℕ

unfoldable pub decode_frame : List ℕ → Option Frame
unfolding crc16_ccitt
decode_frame buf =
    let type' = get_or buf 1 0 in
    let frag_idx = get_or buf 4 0 in
    let frag_total = get_or buf 5 0 in
    let payload_len = get_u16_be buf 6 in
    if ltb (length buf) overhead
    then none
    else if get_or buf 0 0 != magic
    then none
    else if length buf != overhead + payload_len
    then none
    else if frag_total == 0 || leb frag_total frag_idx
    then none
    else if not (is_valid_payload_len type' payload_len)
    then none
    else if crc16_ccitt (take (header_size + payload_len) buf)
        != get_u16_be buf (header_size + payload_len)
    then none
    else some (record {
      type' = type';
      seq = get_u16_be buf 2;
      frag_idx = frag_idx;
      frag_total = frag_total;
      payload = take payload_len (drop header_size buf);
    })

unfoldable pub is_fresh_seq : ℕ → ℕ → Bool
is_fresh_seq last_seen got = if got == last_seen then false else ltb (sub16 got last_seen) 0x8000

unfoldable pub max_payload_for : ℕ → ℕ
max_payload_for mtu =
    if leb mtu overhead
    then 0
    else if ltb max_payload (mtu - overhead)
    then max_payload
    else mtu - overhead

unfoldable pub needs_frag : ℕ → ℕ → Bool
unfolding max_payload_for
needs_frag payload_len mtu = ltb (max_payload_for mtu) payload_len

unfoldable pub frag_count : ℕ → ℕ → ℕ
unfolding max_payload_for
frag_count payload_len mtu =
    let per = max_payload_for mtu in
    let n = if payload_len % per != 0 then payload_len / per + 1 else payload_len / per in
    if per == 0 then 0 else if n == 0 then 1 else n
