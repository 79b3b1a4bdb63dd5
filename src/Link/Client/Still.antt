-- ===== src/Link/Client/Still.antt =====
-- The still of the head's camera on the wire: `serviceStill` of embedded/head/src/transport/
-- link_client.h. The image and what the TCP connection takes are arguments.
use desky.Prelude.{
  ℕ, zero, suc, ◌+◌, ◌-◌, Bool, true, false, not, ◌||◌, Option, none, some, List, [], ◌∷◌, ltb,
  ◌==◌, if◌then◌else◌, u16, u32, length, take, drop,
}
use desky.Link.{type_jpeg, max_payload, overhead, encode_frame}
use desky.Link.Follow.{per_frame_payload, frag_total_for, frag_slice}
use desky.Link.Client.{Client}

-- The frames from index `idx` on, `left` of them. The sequence number is taken for each; the loop ends
-- at the first that cannot be cut, encoded or written. `writes` says how many frames the connection
-- takes.
unfoldable pub send_fragments : ℕ → ℕ → List ℕ → ℕ → ℕ → ℕ → ℕ × Bool × List (List ℕ)
send_fragments zero writes image total idx seq = (seq, true, [])
send_fragments (suc left) writes image total idx seq =
    elim (frag_slice (length image) per_frame_payload idx total) [
      | none ↦ (seq, false, [])
      | some (off, chunk) ↦
          elim (encode_frame type_jpeg seq (take chunk (drop off image)) idx total
            (overhead + max_payload)) [
              | none ↦ (u16 (seq + 1), false, [])
              | some out ↦
                  if writes == 0
                  then (u16 (seq + 1), false, [])
                  else (let (seq', ok, frames) =
                        send_fragments left (writes - 1) image total (idx + 1) (u16 (seq + 1)) in
                      (seq', ok, out ∷ frames))
            ]
    ]

abbrev pub drop_still : Client → Client
drop_still c = record c { counts = record c.counts { still_drop = u32 (c.counts.still_drop + 1) } }

-- `image` is none where the camera gives no frame. The frames are those written, in order.
unfoldable pub service_still : Bool → Option (List ℕ) → Bool → ℕ → Client → Client × List (List ℕ)
service_still cam_on image tcp_up writes c =
    if not c.still_pending
    then (c, [])
    else (let c' : Client = record c { still_pending = false } in
        if not c.link_up || not cam_on then (drop_still c', []) else elim image [
          | none ↦ (drop_still c', [])
          | some bytes ↦
              let total = frag_total_for (length bytes) in
              if total == 0 || ltb 255 total
              then (drop_still c', [])
              else if not tcp_up
              then (drop_still c', [])
              else (let (seq, ok, frames) = send_fragments total writes bytes total 0 c.tx_seq in
                  let c'' : Client = record c' { tx_seq = seq } in
                  if ok
                  then (
                    record c'' {
                      counts = record c.counts { frames_sent = u32 (c.counts.frames_sent + 1) };
                    },
                    frames,
                  )
                  else (drop_still c'', frames))
        ])
