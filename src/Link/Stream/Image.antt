-- ===== src/Link/Stream/Image.antt =====
-- A still that the head sends arrives whole.
use mathlib.Core.List.{append_assoc, append-nil}
use desky.Prelude.{
  ℕ, suc, ◌+◌, ◌^◌, ◌<◌, ◌≤◌, ◌≡◌, ◌≢◌, ◌⊎◌, inl, inr, refl, ap, sym, subst, ◌∙◌, arith, some, List,
  [], ◌∷◌, ◌++◌, length, length-append, drop, take, take_all, take-append-drop,
}
use desky.Link.{Frame, type_jpeg, decode_frame}
use desky.Link.Guards.{decode_frame-some, is_valid_payload_len-le}
use desky.Link.Reassembly.{reset, push, complete}
use desky.Link.Reassembly.Order.{join}
use desky.Link.Stream.{
  Stream, have_frame, pull_frame, consume_tcp, handle_tcp_frame, take_decoded, take_frame,
  pull_loop, jpeg_cap,
}
use desky.Link.Stream.Settles.{pull_frame-have_frame, handle_tcp_frame-buffered}
use desky.Link.Stream.Framing.{
  put, drain, then_drain, drain-append, drain-suc, pull_loop-suc, loop_on, append_to,
  pull_loop-fuel, handle_tcp_frame-put,
}

-- The reassembler holds the first `k` fragments of `n`, which add up to `w`.
abbrev pub Holds : Stream → ℕ → ℕ → List ℕ → Type 0
Holds s n k w =
    ((k ≡ 0) × (w ≡ []))
    ⊎ ((k ≢ 0) × (s.reasm ≡ record { cap = jpeg_cap; written = w; total = n; next = k }))

module _ (s : Stream) (f : Frame) (n k : ℕ) (w : List ℕ) where
  -- One fragment, and not the last.
  handle_tcp_frame_next :
      Holds s n k w
      → f.type' ≡ type_jpeg
      → f.frag_idx ≡ k
      → f.frag_total ≡ n
      → suc k < n
      → n < 2 ^ 8
      → length w + length f.payload ≤ jpeg_cap
      → ((handle_tcp_frame s f).1 ≡ []) × Holds (handle_tcp_frame s f).0 n (suc k) (w ++ f.payload)
  unfolding handle_tcp_frame push complete reset
  handle_tcp_frame_next (inl h) t i l lt small room =
      (ground arith, inr (ground arith, ground arith))
  handle_tcp_frame_next (inr h) t i l lt small room =
      (ground arith, inr (ground arith, ground arith))

  handle_tcp_frame_last :
      Holds s n k w
      → f.type' ≡ type_jpeg
      → f.frag_idx ≡ k
      → f.frag_total ≡ n
      → suc k ≡ n
      → n < 2 ^ 8
      → length w + length f.payload ≤ jpeg_cap
      → (handle_tcp_frame s f).1 ≡ (w ++ f.payload) ∷ []
  unfolding handle_tcp_frame push complete reset
  handle_tcp_frame_last (inl h) t i l lt small room = ground arith
  handle_tcp_frame_last (inr h) t i l lt small room = ground arith

pull_frame_whole :
    (bs : List ℕ) {f : Frame} → decode_frame bs ≡ some f → pull_frame bs ≡ have_frame (length bs)
unfolding pull_frame
pull_frame_whole bs e =
    let (d, v) = decode_frame-some bs e in
    let start = d.starts in
    let sized = d.sized in let le = is_valid_payload_len-le _ _ d.valid in ground arith

drop-length {ℓ} : {A : Type ℓ} (xs : List A) → drop (length xs) xs ≡ []
drop-length [] = refl
drop-length (x ∷ xs) = drop-length xs

consume_tcp_all : (s : Stream) (n : ℕ) → n ≡ length s.buffered → 1 ≤ n → consume_tcp s n ≡ put s []
unfolding consume_tcp
consume_tcp_all s n e h = ground (arith, drop-length s.buffered)

pull_loop_empty : (fuel : ℕ) (s : Stream) → pull_loop fuel (put s []) ≡ (put s [], [])
pull_loop_empty fuel s =
    pull_loop-fuel fuel 0 (put s []) (omega arith) (omega arith) ∙ (unfold pull_loop in refl)

-- A frame alone in the buffer.
drain_frame :
    (s : Stream) (bs : List ℕ) (f : Frame)
    → decode_frame bs ≡ some f
    → drain (put s bs) ≡ (put (handle_tcp_frame s f).0 [], (handle_tcp_frame s f).1)
drain_frame s bs f e =
    let r = handle_tcp_frame (put s bs) f in
    let whole = pull_frame_whole bs e in
    let some_bytes = pull_frame-have_frame bs (length bs) whole in
    let taken : take_frame (put s bs) (length bs) ≡ (put r.0 [], r.1) =
      (unfold take_frame take_decoded in
        ap (λ l. take_decoded (put s bs) (length bs) (decode_frame l)) (take_all bs)
        ∙ ap (take_decoded (put s bs) (length bs)) e
        ∙ ap (λ t. (t, r.1))
            (consume_tcp_all r.0 (length bs)
              (ap length (sym (handle_tcp_frame-buffered (put s bs) f))) some_bytes.0)) in
    let step : loop_on (length bs) (put s bs) (have_frame (length bs))
        ≡ append_to r.1 (pull_loop (length bs) (put r.0 [])) =
      (unfold loop_on append_to in
        ap (λ (t : Stream × List (List ℕ)). append_to t.1 (pull_loop (length bs) t.0)) taken) in
    let ended : append_to r.1 (pull_loop (length bs) (put r.0 [])) ≡ (put r.0 [], r.1) =
      (unfold append_to in rw (pull_loop_empty (length bs) r.0) (rw append-nil refl)) in
    drain-suc (put s bs)
    ∙ pull_loop-suc (length bs) (put s bs)
    ∙ ap (loop_on (length bs) (put s bs)) whole
    ∙ step
    ∙ ended
    ∙ ap (λ (t : Stream × List (List ℕ)). (put t.0 [], t.1)) (handle_tcp_frame-put s f bs)

-- The frames of a still, from fragment `k` of `n` on, with the bytes `b` left.
abbrev pub Fragments : ℕ → ℕ → List ℕ → List (List ℕ) → Type 0
Fragments n k b [] = (k ≡ n) × (b ≡ [])
Fragments n k b (w ∷ ws) =
    ((f : Frame) × (decode_frame w ≡ some f)
      × (f.type' ≡ type_jpeg)
      × (f.frag_idx ≡ k)
      × (f.frag_total ≡ n)
      × (f.payload ≡ take 1024 b))
    × Fragments n (suc k) (drop 1024 b) ws

decode_frame-idx_lt :
    (bs : List ℕ) {f : Frame} → decode_frame bs ≡ some f → f.frag_idx < f.frag_total
decode_frame-idx_lt bs e =
    let (d, v) = decode_frame-some bs e in
    subst (λ (g : Frame). g.frag_idx < g.frag_total) v d.idx_lt

-- The message of the state that one frame leaves, when it gives none itself.
drain_quiet :
    (s : Stream) (x rest : List ℕ) (f : Frame)
    → decode_frame x ≡ some f
    → (handle_tcp_frame s f).1 ≡ []
    → (drain (put s (x ++ rest))).1 ≡ (drain (put (handle_tcp_frame s f).0 rest)).1
drain_quiet s x rest f d quiet =
    ap (λ (t : Stream × List (List ℕ)). t.1) (drain-append (put s x) rest)
    ∙ ap (λ (t : Stream × List (List ℕ)). (then_drain t rest).1) (drain_frame s x f d)
    ∙ ap (λ l. l ++ (drain (put (handle_tcp_frame s f).0 rest)).1) quiet

-- The fragments that follow complete the message.
pub drain-Fragments :
    (ws : List (List ℕ)) (s : Stream) (n k : ℕ) (w b : List ℕ)
    → Holds s n k w
    → Fragments n k b ws
    → k < n
    → n < 2 ^ 8
    → length w + length b ≤ jpeg_cap
    → (drain (put s (join ws))).1 ≡ (w ++ b) ∷ []
unfolding join
drain-Fragments [] s n k w b h fr lt small room = absurd (let e = fr.0 in omega arith)
drain-Fragments (x ∷ []) s n k w b h ((f, d, t, i, l, p), fr) lt small room =
    let whole : f.payload ≡ b =
      p
      ∙ sym (append-nil (take 1024 b))
      ∙ ap (λ l. take 1024 b ++ l) (sym fr.1)
      ∙ take-append-drop 1024 b in
    ap (λ l. (drain (put s l)).1) (append-nil x)
    ∙ ap (λ (r : Stream × List (List ℕ)). r.1) (drain_frame s x f d)
    ∙ handle_tcp_frame_last s f n k w h t i l fr.0 small (omega (arith, ap length whole))
    ∙ ap (λ l. (w ++ l) ∷ []) whole
drain-Fragments (x ∷ (y ∷ ws)) s n k w b h ((f, d, t, i, l, p), fr) lt small room =
    let (f', d', t', i', l', p') = fr.0 in
    let lt' : suc k < n = omega (arith, decode_frame-idx_lt y d') in
    let sizes : length f.payload + length (drop 1024 b) ≡ length b = omega (
      arith,
      ap length p,
      length-append (take 1024 b) (drop 1024 b),
      ap length (take-append-drop 1024 b),
    ) in
    let (quiet, held) = handle_tcp_frame_next s f n k w h t i l lt' small (omega arith) in
    drain_quiet s x (y ++ join ws) f d quiet
    ∙ drain-Fragments (y ∷ ws) (handle_tcp_frame s f).0 n (suc k) (w ++ f.payload) (drop 1024 b)
        held fr lt' small (omega (arith, length-append w f.payload))
    ∙ ap (λ l. l ∷ [])
        (append_assoc w f.payload (drop 1024 b)
          ∙ ap (λ l. w ++ (l ++ drop 1024 b)) p
          ∙ ap (λ l. w ++ l) (take-append-drop 1024 b))
