-- ===== src/Link/Stream/Sent.antt =====
-- What the head writes for a still, and that the core reads it back.
use desky.Prelude.{
  ℕ, zero, suc, ◌+◌, ◌-◌, ◌*◌, ◌^◌, ◌<◌, ◌≤◌, ◌≡◌, refl, ap, sym, ◌∙◌, arith, true, false, some,
  List, [], ◌∷◌, ◌++◌, length, length-drop, length-take, drop, take, drop-drop, take_le, drop_le,
  u16, u32, ltb, ◌||◌, if◌then◌else◌, ◌==◌, Bool-cases, inl, inr,
}
use desky.Link.{
  Frame, type_jpeg, decode_frame, encode_frame, is_valid_payload_len, max_payload_for, frag_count,
}
use desky.Link.Guards.{IsFrame, encode_frame_pass}
use desky.Link.RoundTrip.{decode_frame-encode_frame}
use desky.Link.Reassembly.Order.{join}
use desky.Link.Follow.{per_frame_payload, frag_total_for, frag_slice}
use desky.Link.Client.{Client}
use desky.Link.Client.Still.{send_fragments, service_still}
use desky.Link.Stream.{Stream, jpeg_cap, pull_frame, need_more}
use desky.Link.Stream.Polls.{poll_all, bytes_of, IsPolled, poll_all-drain}
use desky.Link.Stream.Framing.{put, drain}
use desky.Link.Stream.Image.{Fragments, drain-Fragments}

-- The slice of a fragment is the next 1024 bytes, or those left.
abbrev chunk : List ℕ → ℕ → ℕ
chunk image idx = if ltb 1024 (length image - idx * 1024) then 1024 else length image - idx * 1024

frag_slice_lem :
    (image : List ℕ) (idx n : ℕ)
    → idx < n
    → idx * 1024 < length image
    → frag_slice (length image) per_frame_payload idx n ≡ some (idx * 1024, chunk image idx)
unfolding frag_slice per_frame_payload
frag_slice_lem image idx n h l = ground arith

take-chunk :
    (image : List ℕ) (idx : ℕ)
    → take (chunk image idx) (drop (idx * 1024) image) ≡ take 1024 (drop (idx * 1024) image)
take-chunk image idx =
    let b = drop (idx * 1024) image in
    let l = length-drop (idx * 1024) image in
    elim (Bool-cases (ltb 1024 (length image - idx * 1024))) [
      | inl long ↦ rw long refl
      | inr short ↦
          let few : length b ≤ 1024 = ground arith in
          rw short (take_le (length image - idx * 1024) b (omega arith) ∙ sym (take_le 1024 b few))
    ]

-- One fragment encodes, and decodes to itself.
fragment_sent :
    (seq idx n : ℕ) (p : List ℕ)
    → seq < 2 ^ 16
    → idx < n
    → n < 2 ^ 8
    → length p ≤ 1024
    → (bs : List ℕ) × (encode_frame type_jpeg seq p idx n 1034 ≡ some bs)
      × (decode_frame bs
          ≡ some (record {
            type' = type_jpeg;
            seq = seq;
            frag_idx = idx;
            frag_total = n;
            payload = p;
          }))
fragment_sent seq idx n p w lt small room =
    let f : Frame = record {
      type' = type_jpeg;
      seq = seq;
      frag_idx = idx;
      frag_total = n;
      payload = p;
    } in
    let valid : is_valid_payload_len type_jpeg (length p) ≡ true =
      (unfold is_valid_payload_len in ground arith) in
    let passed =
      encode_frame_pass f 1034 (record { valid = valid; idx_lt = lt; fits = omega arith }) in
    let whole : IsFrame f = record {
      type_fits = omega arith;
      seq_fits = w;
      idx_lt = lt;
      total_fits = small;
      len_valid = valid;
    } in
    (_, passed, decode_frame-encode_frame f 1034 whole passed)

send_fragments-suc :
    (left writes : ℕ) (image : List ℕ) (n idx seq : ℕ) {bs : List ℕ}
    → frag_slice (length image) per_frame_payload idx n ≡ some (idx * 1024, chunk image idx)
    → encode_frame type_jpeg seq (take (chunk image idx) (drop (idx * 1024) image)) idx n 1034
      ≡ some bs
    → 0 < writes
    → let r = send_fragments left (writes - 1) image n (idx + 1) (u16 (seq + 1)) in
      send_fragments (suc left) writes image n idx seq ≡ (r.0, r.1, bs ∷ r.2)
unfolding send_fragments
send_fragments-suc left writes image n idx seq e e' h =
    let g : (writes == 0) ≡ false = ground arith in
    rw (e, send_fragments) (rw (e', send_fragments) (rw (g, send_fragments) refl))

send_fragments-Fragments :
    (left writes : ℕ) (image : List ℕ) (n idx seq : ℕ)
    → idx + left ≡ n
    → n < 2 ^ 8
    → seq < 2 ^ 16
    → n * 1024 < length image + 1024
    → length image ≤ n * 1024
    → left ≤ writes
    → ((send_fragments left writes image n idx seq).1 ≡ true)
      × Fragments n idx (drop (idx * 1024) image) (send_fragments left writes image n idx seq).2
send_fragments-Fragments zero writes image n idx seq e small w lo hi room =
    (unfold send_fragments in (refl, (omega arith, drop_le (idx * 1024) image (omega arith))))
send_fragments-Fragments (suc left) writes image n idx seq e small w lo hi room =
    let b = drop (idx * 1024) image in
    let cut = take-chunk image idx in
    let (bs, encoded, decoded) =
      fragment_sent seq idx n (take 1024 b) w (omega arith) small
        (omega (arith, length-take 1024 b)) in
    let step =
      send_fragments-suc left writes image n idx seq
        (frag_slice_lem image idx n (omega arith) (omega arith))
        (ap (λ p. encode_frame type_jpeg seq p idx n 1034) cut ∙ encoded) (omega arith) in
    let (ok, later) =
      send_fragments-Fragments left (writes - 1) image n (idx + 1) (u16 (seq + 1)) (omega arith)
        small (omega arith) lo hi (omega arith) in
    let next : idx + 1 ≡ suc idx = omega arith in
    let left_over : drop ((idx + 1) * 1024) image ≡ drop 1024 b =
      sym (drop-drop 1024 (idx * 1024) ((idx + 1) * 1024) image (omega arith)) in
    rw step (ok, ((_, decoded, refl, refl, refl, refl), rw (← next, ← left_over) later))

frag_total_for_lem :
    (n : ℕ)
    → 0 < n
    → n ≤ 16384
    → (0 < frag_total_for n)
      × (frag_total_for n ≤ 16)
      × (frag_total_for n * 1024 < n + 1024)
      × (n ≤ frag_total_for n * 1024)
unfolding frag_total_for frag_count max_payload_for
frag_total_for_lem n h k = ground arith

-- All the bytes at once.
drain-sent :
    (c : Client) (image : List ℕ) (writes : ℕ) (s : Stream)
    → c.still_pending ≡ true
    → c.link_up ≡ true
    → c.tx_seq < 2 ^ 16
    → 0 < length image
    → length image ≤ jpeg_cap
    → 16 ≤ writes
    → let sent = service_still true (some image) true writes c in
      ((drain (put s (join sent.1))).1 ≡ image ∷ [])
      × (sent.0.still_pending ≡ false)
      × (sent.0.counts.frames_sent ≡ u32 (c.counts.frames_sent + 1))
drain-sent c image writes s pending up w some_bytes fits room =
    let n = frag_total_for (length image) in
    let (pos', small, lo, hi) = frag_total_for_lem (length image) some_bytes fits in
    let (ok, frames) =
      send_fragments-Fragments n writes image n 0 c.tx_seq (omega arith) (omega arith) w lo hi
        (omega arith) in
    let whole =
      drain-Fragments (send_fragments n writes image n 0 c.tx_seq).2 s n 0 [] image
        (inl (refl, refl)) frames pos' (omega arith) (omega arith) in
    let g : (n == 0 || ltb 255 n) ≡ false = ground arith in
    (unfold service_still in
      rw (pending, service_still)
        (rw (up, service_still)
          (rw (g, service_still) (rw (ok, service_still) (whole, refl, refl)))))

-- A still of 1 to 16384 bytes that the head sends, over a connection that takes its frames, is one
-- message of the core, and the still as it was, however its bytes are spread over the polls of the core
-- and the reads of a poll. The core's stream buffer was empty, a read gives a byte at least, and what a
-- poll reads fits behind what the buffer holds then; what the reassembler held does not matter.
pub drain-service_still :
    (c : Client) (image : List ℕ) (writes : ℕ) (s : Stream) (css : List (List (List ℕ)))
    → c.still_pending ≡ true
    → c.link_up ≡ true
    → c.tx_seq < 2 ^ 16
    → 0 < length image
    → length image ≤ jpeg_cap
    → 16 ≤ writes
    → s.client ≡ true
    → s.buffered ≡ []
    → bytes_of css ≡ join (service_still true (some image) true writes c).1
    → IsPolled s css
    → let sent = service_still true (some image) true writes c in
      ((poll_all s css).1 ≡ image ∷ [])
      × (sent.0.still_pending ≡ false)
      × (sent.0.counts.frames_sent ≡ u32 (c.counts.frames_sent + 1))
drain-service_still c image writes s css pending up w some_bytes fits room open' none_left bytes
      polled =
    let (whole, pending_off, counted) =
      drain-sent c image writes s pending up w some_bytes fits room in
    let settled : pull_frame s.buffered ≡ need_more =
      ap pull_frame none_left ∙ (unfold pull_frame in refl) in
    (
      ap (λ (t : Stream × List (List ℕ)). t.1) (poll_all-drain s css open' settled polled)
          ∙ ap (λ b. (drain (put s (b ++ bytes_of css))).1) none_left
          ∙ ap (λ b. (drain (put s b)).1) bytes
          ∙ whole,
      pending_off,
      counted,
    )
