-- ===== src/Udp/Rx.antt =====
-- The receive side of the phone wire, the Arduino-free half of embedded/core/src/transport/
-- udp_server.h: the status byte, the framing demux, and the freshness tests. The float conversion
-- of angles is left out.
pub mod Laws
use desky.Prelude.{
  ℕ, ◌+◌, ◌*◌, ◌/◌, ◌%◌, ◌≡◌, Bool, true, false, not, ◌&&◌, ◌||◌, List, [], ◌∷◌, ltb, leb, ◌==◌,
  ◌!=◌, if◌then◌else◌, bit_or, bit_xor, u8, sub32, get_or,
}

-- The flags are added: each is a bit of its own, below 32 in all.
unfoldable pub pack_status : Bool → Bool → ℕ → Bool → ℕ
pack_status cliff driving mode manual =
    (if cliff then 1 else 0)
    + (if driving then 2 else 0)
    + mode % 4 * 4
    + (if manual then 16 else 0)

unfoldable pub status_cliff : ℕ → Bool
status_cliff flags = flags % 2 != 0

unfoldable pub status_driving : ℕ → Bool
status_driving flags = flags / 2 % 2 != 0

unfoldable pub status_mode : ℕ → ℕ
status_mode flags = flags / 4 % 4

unfoldable pub status_manual : ℕ → Bool
status_manual flags = flags / 16 % 2 != 0

pub data RxKind : Type 0 where
  legacy drive pair_req unpair pair_refresh_req alive disconnect : RxKind
  manual_take manual_release expr_trigger drop_frame : RxKind

unfoldable pub classify_rx : ℕ → ℕ → RxKind
classify_rx len header =
    if len == 6 && header == 0xAA
    then legacy
    else if len == 16 && header == 0xAC
    then drive
    else if len == 12 && header == 0x50
    then pair_req
    else if len == 12 && header == 0xAD
    then unpair
    else if len == 14 && header == 0x53
    then pair_refresh_req
    else if len == 14 && header == 0x55
    then alive
    else if len == 14 && header == 0x56
    then disconnect
    else if len == 14 && header == 0x57
    then manual_take
    else if len == 14 && header == 0x58
    then manual_release
    else if len == 15 && header == 0x5B
    then expr_trigger
    else drop_frame

unfoldable pub is_fresh_counter : ℕ → ℕ → Bool
is_fresh_counter last_seen got = got != last_seen && ltb (sub32 got last_seen) 0x80000000

abbrev pub alive_ms : ℕ
alive_ms = 5000

unfoldable pub is_alive_fresh : ℕ → ℕ → Bool
is_alive_fresh last_alive_ms now_ms = leb (sub32 now_ms last_alive_ms) alive_ms

unfoldable pub should_send_telemetry : Bool → Bool → ℕ → ℕ → Bool
unfolding is_alive_fresh
should_send_telemetry paired have_peer last_alive_ms now_ms =
    paired && have_peer && is_alive_fresh last_alive_ms now_ms

-- `CFG_PAIR_REDELIVERY_MS` of embedded/core/include/config.h.
abbrev pub redelivery_ms : ℕ
redelivery_ms = 60000

-- The difference that the constant-time loop gathers.
abbrev pub diff_from : ℕ → List ℕ → List ℕ → ℕ
diff_from diff [] ys = diff
diff_from diff (a ∷ xs) [] = diff
diff_from diff (a ∷ xs) (b ∷ ys) = diff_from (bit_or diff (bit_xor a b)) xs ys

abbrev pub same_bytes : List ℕ → List ℕ → Bool
same_bytes [] ys = true
same_bytes (a ∷ xs) [] = true
same_bytes (a ∷ xs) (b ∷ ys) = if a != b then false else same_bytes xs ys

-- The codes are arrays of 6 bytes, the nonces of 4.
unfoldable pub should_redeliver : Bool → List ℕ → List ℕ → List ℕ → List ℕ → ℕ → ℕ → Bool
should_redeliver valid stored_code stored_nonce in_code in_nonce pair_ms now_ms =
    if not valid
    then false
    else if diff_from 0 stored_code in_code != 0
    then false
    else if not (same_bytes stored_nonce in_nonce)
    then false
    else ltb (sub32 now_ms pair_ms) redelivery_ms
