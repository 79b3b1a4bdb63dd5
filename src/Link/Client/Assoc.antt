-- ===== src/Link/Client/Assoc.antt =====
-- How the head joins and leaves a network: `begin`, `poll`, `heartbeatTick` and what they call in
-- embedded/head/src/transport/link_client.h. What the radio and the scan say is an argument.
use desky.Prelude.{
  ℕ, ◌+◌, ◌*◌, Bool, true, false, not, ◌&&◌, ◌||◌, Option, none, some, List, [], ◌∷◌, ◌++◌, leb,
  ltb, ◌==◌, ◌!=◌, if◌then◌else◌, u8, u16, u32, sub32, length,
}
use desky.Prelude.Int.{ℤ, pos, negsuc}
use desky.Link.{type_hb, max_payload, overhead, encode_frame}
use desky.Link.Payload.{pack_hb}
use desky.Link.Follow.{
  FollowTarget, last_good, home, core_ap, first_follow_target, advance_follow_target, retry_due,
  should_send_hb, link_down_after, begin, wait, connected, restart, assoc_step,
}
use desky.Link.Client.{
  Client, Effect, transmit, wifi_begin, wifi_disconnect, Answers, drop_udp, handle_frame,
}

abbrev pub assoc_retry_ms : ℕ
assoc_retry_ms = 5000

abbrev pub assoc_timeout_ms : ℕ
assoc_timeout_ms = 10000

abbrev pub follow_backoff_ms : ℕ
follow_backoff_ms = 10000

abbrev pub heartbeat_ms : ℕ
heartbeat_ms = 1000

abbrev pub link_port : ℕ
link_port = 3334

-- The state of the radio, of the scan and of the name service. `host` is the address compiled in.
pub record Radio : Type 0 where
  pub is_connected : Bool
  pub rssi : ℤ
  pub channel : ℕ
  pub free_heap : ℕ
  pub beacon_visible : Bool
  pub host : ℕ
  pub mdns_ip : ℕ

-- The network of the target, and its passphrase.
abbrev pub target_creds : Answers → Client → FollowTarget → List ℕ × List ℕ
target_creds a c last_good = (c.last_good_ssid, c.last_good_pass)
target_creds a c home = (c.home_ssid, c.home_pass)
target_creds a c core_ap = (a.core_ssid, a.core_pass)

unfoldable pub begin_attempt : Answers → Client → Client × List Effect
begin_attempt a c =
    let (ssid, pass) = target_creds a c c.follow_target in
    (
      record c { last_assoc_try_ms = a.now; attempt_start_ms = a.now; connecting = true },
      wifi_begin ssid pass ∷ [],
    )

unfoldable pub start : Answers → Client → ℕ → ℕ → Client × List Effect
unfolding begin_attempt first_follow_target
start a c boot_id host = begin_attempt a (record c {
  boot_id = boot_id;
  core_ip = host;
  follow_target = first_follow_target c.have_last_good c.have_home_creds;
})

unfoldable pub advance_from_miss : ℕ → Client → Client
unfolding advance_follow_target first_follow_target
advance_from_miss now c = elim (advance_follow_target c.follow_target c.have_home_creds) [
  | some next ↦ record c { follow_target = next }
  | none ↦ record c {
    cycle_exhausted = true;
    cycle_end_ms = now;
    follow_target = first_follow_target c.have_last_good c.have_home_creds;
  }
]

abbrev pub is_core_ap : FollowTarget → Bool
is_core_ap core_ap = true
is_core_ap t = false

unfoldable pub maybe_short_circuit : Bool → Client → Client
maybe_short_circuit beacon_visible c =
    if not (is_core_ap c.follow_target) && beacon_visible
    then record c { follow_target = core_ap }
    else c

abbrev pub clamp_rssi : ℤ → ℤ
clamp_rssi (pos n) = if ltb 127 n then pos 127 else pos n
clamp_rssi (negsuc n) = if ltb 127 n then negsuc 127 else negsuc n

unfoldable pub send_hb : Answers → Radio → Client → Client × List Effect
send_hb a w c =
    let rssi = clamp_rssi w.rssi in
    let channel = u8 w.channel in
    let payload =
      pack_hb
        (record { rssi = rssi; channel = channel; free_heap = w.free_heap; boot_id = c.boot_id }) in
    let c' : Client = record c {
      last_rssi = rssi;
      last_channel = channel;
      tx_seq = u16 (c.tx_seq + 1);
    } in
    elim (encode_frame type_hb c.tx_seq payload 0 1 (overhead + max_payload)) [
      | none ↦ (c', [])
      | some out ↦
          if a.radio
          then (
            record c' {
              hb_since_ack = u8 (c.hb_since_ack + 1);
              counts = record c.counts { hb_sent = u32 (c.counts.hb_sent + 1) };
            },
            transmit (record { ip = c.core_ip; port = link_port; bytes = out }) ∷ [],
          )
          else (
            record c' {
              hb_since_ack = u8 (c.hb_since_ack + 1);
              counts = record c.counts { tx_fail = u32 (c.counts.tx_fail + 1) };
            },
            [],
          )
    ]

unfoldable pub on_assoc : Answers → Radio → Client → Client × List Effect
unfolding send_hb
on_assoc a w c = send_hb a w (record c {
  associated = true;
  link_up = true;
  have_cmd_seq = false;
  need_last_good = true;
  hb_since_ack = 0;
  last_ack_ms = a.now;
  last_hb_ms = a.now;
  last_rssi = clamp_rssi w.rssi;
  last_channel = u8 w.channel;
  core_ip = if w.mdns_ip != 0 then w.mdns_ip else w.host;
})

unfoldable pub mark_down : ℕ → Client → Client
mark_down now c =
    let c' : Client = record c {
      associated = false;
      link_up = false;
      connecting = false;
      need_last_good = false;
      last_assoc_try_ms = now;
    } in
    if c.still_pending
    then record c' {
      still_pending = false;
      counts = record c.counts { still_drop = u32 (c.counts.still_drop + 1) };
    }
    else c'

-- Not connected, and no attempt under way.
abbrev pub idle_step : Answers → Radio → Client → Client × List Effect
idle_step a w c =
    if c.cycle_exhausted
    then (if retry_due a.now c.cycle_end_ms follow_backoff_ms
        then (
          record c {
            cycle_exhausted = false;
            follow_target = first_follow_target c.have_last_good c.have_home_creds;
          },
          [],
        )
        else (c, []))
    else if retry_due a.now c.last_assoc_try_ms assoc_retry_ms
    then begin_attempt a (maybe_short_circuit w.beacon_visible c)
    else (c, [])

abbrev pub attempt_step : Answers → Radio → Client → Client × List Effect
attempt_step a w c =
    elim (assoc_step c.connecting w.is_connected a.now c.attempt_start_ms assoc_timeout_ms) [
      | connected ↦ on_assoc a w (record c { connecting = false })
      | restart ↦ (
        advance_from_miss a.now (record c { connecting = false; last_assoc_try_ms = a.now }),
        wifi_disconnect ∷ [],
      )
      | begin ↦ (c, [])
      | wait ↦ (c, [])
    ]

-- The first half of `poll`; the second hands each datagram to `receive`.
unfoldable pub poll_assoc : Answers → Radio → Client → Client × List Effect
unfolding begin_attempt maybe_short_circuit retry_due assoc_step on_assoc advance_from_miss
    mark_down
poll_assoc a w c =
    if not c.associated
    then (if not c.connecting then idle_step a w c else attempt_step a w c)
    else if not w.is_connected
    then (mark_down a.now c, [])
    else (c, [])

-- One datagram of the loop of `poll`, with its sender.
unfoldable pub receive :
    (List ℕ → List ℕ → Option (List ℕ)) → Answers → Client → List ℕ → ℕ → ℕ → Client × List Effect
unfolding drop_udp handle_frame
receive open' a c buf ip port =
    if ltb (overhead + max_payload) (length buf) || length buf == 0
    then (drop_udp c, [])
    else handle_frame open' a c buf ip port

-- The second test of the tick: no answer to the last heartbeats.
abbrev pub check_ack : Answers → Client × List Effect → Client × List Effect
check_ack a (c, out) =
    if link_down_after c.hb_since_ack && leb (3 * heartbeat_ms) (sub32 a.now c.last_ack_ms)
    then (advance_from_miss a.now (mark_down a.now c), out ++ (wifi_disconnect ∷ []))
    else (c, out)

unfoldable pub heartbeat_tick : Answers → Radio → Client → Client × List Effect
unfolding mark_down send_hb should_send_hb link_down_after advance_from_miss
heartbeat_tick a w c =
    if not c.link_up
    then (c, [])
    else if not w.is_connected
    then (mark_down a.now c, [])
    else check_ack a (
        if should_send_hb a.now c.last_hb_ms heartbeat_ms
        then send_hb a w (record c { last_hb_ms = a.now })
        else (c, []))

unfoldable pub request_still : Client → Client
request_still c =
    if not c.link_up
    then record c { counts = record c.counts { still_drop = u32 (c.counts.still_drop + 1) } }
    else record c { still_pending = true }
