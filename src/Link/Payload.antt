-- ===== src/Link/Payload.antt =====
-- The typed payloads of embedded/shared/link/link_codec.h. A payload that the source reads in place
-- by pointer and length is the list of its bytes; a result of false or 0 is `none`.
pub mod RoundTrip
use desky.Prelude.{
  ℕ, zero, suc, ◌+◌, ◌*◌, ◌/◌, ◌%◌, ◌^◌, Bool, true, false, not, ◌&&◌, ◌||◌, Option, none, some,
  List, [], ◌∷◌, ◌++◌, ltb, leb, ◌==◌, ◌!=◌, if◌then◌else◌, u8, length, get_or, take, drop,
}
use desky.Prelude.Int.{ℤ, to_word, signed8}
use desky.Catalog.{Entry, lookup}
use desky.Link.{put_u16_be, get_u16_be, put_u32_be, get_u32_be}

pub record Hb : Type 0 where
  pub rssi : ℤ
  pub channel : ℕ
  pub free_heap : ℕ
  pub boot_id : ℕ

unfoldable pub pack_hb : Hb → List ℕ
pack_hb h = to_word 8 h.rssi ∷ h.channel ∷ (put_u32_be h.free_heap ++ put_u32_be h.boot_id)

unfoldable pub unpack_hb : List ℕ → Option Hb
unpack_hb bs =
    if length bs != 10
    then none
    else some (record {
      rssi = signed8 (get_or bs 0 0);
      channel = get_or bs 1 0;
      free_heap = get_u32_be bs 2;
      boot_id = get_u32_be bs 6;
    })

unfoldable pub pack_hb_ack : ℕ → ℕ → List ℕ
pack_hb_ack channel era = channel ∷ put_u32_be era

unfoldable pub unpack_hb_ack : List ℕ → Option (ℕ × ℕ)
unpack_hb_ack bs = if length bs != 5 then none else some (get_or bs 0 0, get_u32_be bs 1)

unfoldable pub pack_ack : ℕ → List ℕ
pack_ack acked_seq = put_u16_be acked_seq

unfoldable pub unpack_ack : List ℕ → Option ℕ
unpack_ack bs = if length bs != 2 then none else some (get_u16_be bs 0)

abbrev pub is_digit : ℕ → Bool
is_digit b = leb 48 b && leb b 57

abbrev pub all_digits : List ℕ → Bool
all_digits [] = true
all_digits (b ∷ bs) = is_digit b && all_digits bs

-- `digits` is the array of 6 bytes.
unfoldable pub pack_pair_show : List ℕ → ℕ → Option (List ℕ)
pack_pair_show digits valid_secs =
    if not (all_digits digits) then none else some (digits ++ put_u16_be valid_secs)

unfoldable pub unpack_pair_show : List ℕ → Option (List ℕ × ℕ)
unpack_pair_show bs =
    if length bs != 8
    then none
    else if not (all_digits (take 6 bs))
    then none
    else some (take 6 bs, get_u16_be bs 6)

unfoldable pub pack_wifi_creds : List ℕ → List ℕ → ℕ → Option (List ℕ)
pack_wifi_creds ssid pass out_cap =
    if ltb 32 (length ssid) || ltb 64 (length pass)
    then none
    else if length ssid == 0 && length pass != 0
    then none
    else if ltb out_cap (2 + length ssid + length pass)
    then none
    else some (u8 (length ssid) ∷ (ssid ++ (u8 (length pass) ∷ pass)))

unfoldable pub unpack_wifi_creds : List ℕ → Option (List ℕ × List ℕ)
unpack_wifi_creds bs =
    let n = length bs in
    let ssid_len = get_or bs 0 0 in
    let pass_len = get_or bs (1 + ssid_len) 0 in
    if ltb n 2 || ltb 98 n
    then none
    else if ltb 32 ssid_len || ltb n (2 + ssid_len)
    then none
    else if ltb 64 pass_len || 2 + ssid_len + pass_len != n
    then none
    else if ssid_len == 0 && pass_len != 0
    then none
    else some (take ssid_len (drop 1 bs), take pass_len (drop (2 + ssid_len) bs))

unfoldable pub is_clear_wifi_creds : List ℕ → Bool
unfolding unpack_wifi_creds
is_clear_wifi_creds bs = elim (unpack_wifi_creds bs) [
  | none ↦ false
  | some (ssid, pass) ↦ length ssid == 0 && length pass == 0
]

unfoldable pub pack_oled : ℕ → Option ℕ
pack_oled mode = if leb mode 2 then some mode else none

unfoldable pub unpack_oled : ℕ → Option ℕ
unpack_oled wire = if leb wire 2 then some wire else none

unfoldable pub pack_cam_ctl : ℕ → Option ℕ
pack_cam_ctl mode = if leb mode 1 then some mode else none

unfoldable pub unpack_cam_ctl : ℕ → Option ℕ
unpack_cam_ctl wire = if leb wire 1 then some wire else none

unfoldable pub pack_expr : ℕ → Option ℕ
pack_expr id = elim (lookup id) [ none ↦ none | some e ↦ some id ]

unfoldable pub unpack_expr : ℕ → Option ℕ
unpack_expr wire = elim (lookup wire) [ none ↦ none | some e ↦ some wire ]
