-- ===== src/Link/Follow.antt =====
-- Which network the head joins, and when: namespace `wifilink` of embedded/head/src/transport/
-- link_codec.h. An answer that the source writes to a reference is the second part of a result.
use desky.Prelude.{
  ℕ, ◌-◌, ◌*◌, Bool, not, ◌&&◌, ◌||◌, Option, none, some, List, ltb, leb, ◌==◌, if◌then◌else◌,
  sub32, length, get_or,
}
use desky.Link.{
  type_oled, type_cam_ctl, type_expr, type_ota, max_payload_for, frag_count, is_fresh_seq,
}
use desky.Link.Payload.{unpack_oled, unpack_cam_ctl, unpack_expr}

-- `kLinkMtu`, the largest frame.
abbrev pub link_mtu : ℕ
link_mtu = 1034

unfoldable pub per_frame_payload : ℕ
unfolding max_payload_for
per_frame_payload = max_payload_for link_mtu

unfoldable pub frag_total_for : ℕ → ℕ
unfolding frag_count
frag_total_for total_len = frag_count total_len link_mtu

pub data Target : Type 0 where
  oled cam face : Target

-- What the display and the camera are told: `PowerCommand`.
pub record PowerCommand : Type 0 where
  pub target : Target
  pub arg : ℕ

abbrev pub face_boot : ℕ
face_boot = 0

unfoldable pub map_cmd : ℕ → List ℕ → Option PowerCommand
unfolding unpack_oled unpack_cam_ctl
map_cmd type' payload =
    let one = length payload == 1 in
    let wire = get_or payload 0 0 in
    if type' == type_oled
    then (if not one then none else elim (unpack_oled wire) [
      | none ↦ none
      | some mode ↦
          some (record { target = oled; arg = if mode == 0 then 2 else if mode == 1 then 1 else 0 })
    ])
    else if type' == type_cam_ctl
    then (if not one then none else elim (unpack_cam_ctl wire) [
      | none ↦ none
      | some w ↦ some (record { target = cam; arg = if w == 1 then 1 else 0 })
    ])
    else if type' == type_expr
    then (if not one then none else elim (unpack_expr wire) [
      | none ↦ some (record { target = face; arg = face_boot })
      | some id ↦ some (record { target = face; arg = id })
    ])
    else none

pub data RxVerdict : Type 0 where
  fresh duplicate stale : RxVerdict

unfoldable pub classify_rx : Bool → ℕ → ℕ → RxVerdict
unfolding is_fresh_seq
classify_rx have_seen last_seen got =
    if not have_seen
    then fresh
    else if got == last_seen
    then duplicate
    else if is_fresh_seq last_seen got
    then fresh
    else stale

unfoldable pub is_ota_frame : ℕ → ℕ → Bool
is_ota_frame type' len = type' == type_ota && leb 1 len && leb len 128

unfoldable pub should_send_hb : ℕ → ℕ → ℕ → Bool
should_send_hb now last_hb_ms interval_ms = leb interval_ms (sub32 now last_hb_ms)

unfoldable pub retry_due : ℕ → ℕ → ℕ → Bool
retry_due now last_try_ms retry_ms = leb retry_ms (sub32 now last_try_ms)

pub data AssocAction : Type 0 where
  begin wait connected restart : AssocAction

unfoldable pub assoc_step : Bool → Bool → ℕ → ℕ → ℕ → AssocAction
assoc_step connecting is_connected now attempt_start_ms timeout_ms =
    if is_connected
    then connected
    else if not connecting
    then begin
    else if leb timeout_ms (sub32 now attempt_start_ms)
    then restart
    else wait

abbrev pub max_missed : ℕ
max_missed = 3

unfoldable pub link_down_after : ℕ → Bool
link_down_after missed = leb max_missed missed

pub data FollowTarget : Type 0 where
  last_good home core_ap : FollowTarget

unfoldable pub first_follow_target : Bool → Bool → FollowTarget
first_follow_target have_last_good have_home_creds =
    if have_last_good then last_good else if have_home_creds then home else core_ap

unfoldable pub advance_follow_target : FollowTarget → Bool → Option FollowTarget
advance_follow_target last_good have_home_creds = some (if have_home_creds then home else core_ap)
advance_follow_target home have_home_creds = some core_ap
advance_follow_target core_ap have_home_creds = none

-- The offset and the length of a fragment.
unfoldable pub frag_slice : ℕ → ℕ → ℕ → ℕ → Option (ℕ × ℕ)
frag_slice total_len per_frame idx total =
    let off = idx * per_frame in
    let remain = total_len - off in
    if per_frame == 0 || total == 0 || leb total idx
    then none
    else if total_len == 0
    then (if total == 1 && idx == 0 then some (0, 0) else none)
    else if leb total_len off
    then none
    else some (off, if ltb per_frame remain then per_frame else remain)
