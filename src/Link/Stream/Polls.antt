-- ===== src/Link/Stream/Polls.antt =====
-- The main loop's polls of the stream: `pollTcp` of embedded/core/src/transport/link_server.h, called in
-- turn on a connection that stays open.
use mathlib.Core.List.{append_assoc, append-nil}
use desky.Prelude.{
  ℕ, zero, suc, ◌+◌, ◌≤◌, ◌<◌, ◌≡◌, refl, ap, sym, subst, ◌∙◌, arith, true, false, ◌||◌, ◌&&◌, not,
  Option, none, some, List, [], ◌∷◌, ◌++◌, leb, ◌==◌, length, length-append, take_le, Each, inl,
  inr, ◌-◌,
}
use desky.Link.{Frame}
use desky.Link.Reassembly.Order.{join}
use desky.Link.Stream.{
  Stream, need_more, pull_frame, consume_tcp, drop_tcp, finish, handle_tcp_frame, take_decoded,
  take_frame, pull_loop, fill, poll_tcp, stream_cap,
}
use desky.Link.Stream.Settles.{Pull-cases, pull_loop-need_more}
use desky.Link.Stream.Framing.{put, drain, drain-append, drain-suc}

-- The polls, the chunks that each reads being given, and the messages of them all.
unfoldable pub poll_all : Stream → List (List (List ℕ)) → Stream × List (List ℕ)
poll_all s [] = (s, [])
poll_all s (cs ∷ css) =
    let (s1, out) = poll_tcp s false true true cs in
    let (s2, later) = poll_all s1 css in (s2, out ++ later)

-- All the bytes that the polls read.
abbrev pub bytes_of : List (List (List ℕ)) → List ℕ
bytes_of [] = []
bytes_of (cs ∷ css) = join cs ++ bytes_of css

abbrev IsSome : List ℕ → Type 0
IsSome c = 0 < length c

-- A read gives a byte at least, and the bytes of each poll fit behind what the buffer holds.
abbrev pub IsPolled : Stream → List (List (List ℕ)) → Type 0
IsPolled s [] = Unit
IsPolled s (cs ∷ css) =
    Each IsSome cs
    × ((length s.buffered + length (join cs) ≤ stream_cap)
        × IsPolled (poll_tcp s false true true cs).0 css)

fill_lem :
    (b : List ℕ) (cs : List (List ℕ))
    → Each IsSome cs
    → length b + length (join cs) ≤ stream_cap
    → fill b cs ≡ b ++ join cs
unfolding fill join
fill_lem b [] h k = sym (append-nil b)
fill_lem b (c ∷ cs) h k =
    let l = length-append c (join cs) in
    let l' = length-append b c in
    let z = h.0 in
    let goes_on : (leb stream_cap (length b) || length c == 0) ≡ false = ground arith in
    rw (goes_on, take_le (stream_cap - length b) c (omega arith))
      (fill_lem (b ++ c) cs h.1 (omega arith) ∙ append_assoc b c (join cs))

poll_tcp-drain :
    (s : Stream) (cs : List (List ℕ))
    → s.client ≡ true
    → Each IsSome cs
    → length s.buffered + length (join cs) ≤ stream_cap
    → poll_tcp s false true true cs ≡ drain (put s (s.buffered ++ join cs))
unfolding poll_tcp
poll_tcp-drain s cs e h k =
    let connected : not (s.client && true) ≡ false = ground arith in
    rw connected (ap (λ b. drain (put s b)) (fill_lem s.buffered cs h k))

handle_tcp_frame-client : (s : Stream) (f : Frame) → (handle_tcp_frame s f).0.client ≡ s.client
unfolding handle_tcp_frame drop_tcp finish
handle_tcp_frame-client s f = ground arith

consume_tcp-client : (s : Stream) (n : ℕ) → (consume_tcp s n).client ≡ s.client
unfolding consume_tcp
consume_tcp-client s n = ground arith

take_decoded-client :
    (s : Stream) (n : ℕ) (o : Option Frame) → (take_decoded s n o).0.client ≡ s.client
unfolding take_decoded drop_tcp
take_decoded-client s n none = consume_tcp-client (drop_tcp s) n
take_decoded-client s n (some f) =
    consume_tcp-client (handle_tcp_frame s f).0 n ∙ handle_tcp_frame-client s f

pull_loop-client : (fuel : ℕ) (s : Stream) → (pull_loop fuel s).0.client ≡ s.client
unfolding pull_loop drop_tcp take_frame
pull_loop-client zero s = refl
pull_loop-client (suc fuel) s = elim (Pull-cases (pull_frame s.buffered)) [
  | inl e ↦ rw (e, pull_loop) refl
  | inr (inl e) ↦
      rw (e, pull_loop)
        (pull_loop-client fuel (consume_tcp (drop_tcp s) 1) ∙ consume_tcp-client (drop_tcp s) 1)
  | inr (inr (n, e)) ↦
      rw (e, pull_loop) (pull_loop-client fuel (take_frame s n).0 ∙ take_decoded-client s n _)
]

drain-settled : (s : Stream) → pull_frame s.buffered ≡ need_more → drain s ≡ (s, [])
unfolding pull_loop
drain-settled s e = drain-suc s ∙ rw (e, pull_loop) refl

-- However the bytes are spread over the polls, the loop does with them what it does with all at once.
pub poll_all-drain :
    (s : Stream) (css : List (List (List ℕ)))
    → s.client ≡ true
    → pull_frame s.buffered ≡ need_more
    → IsPolled s css
    → poll_all s css ≡ drain (put s (s.buffered ++ bytes_of css))
unfolding poll_all
poll_all-drain s [] c n h =
    sym (ap (λ b. drain (put s b)) (append-nil s.buffered) ∙ drain-settled s n)
poll_all-drain s (cs ∷ css) c n (some_bytes, (fits, later)) =
    let joint = s.buffered ++ join cs in
    let first = poll_tcp-drain s cs c some_bytes fits in
    let r = drain (put s joint) in
    let ih =
      poll_all-drain r.0 css (pull_loop-client (length joint) (put s joint) ∙ c)
        (pull_loop-need_more (length joint) (put s joint) (omega arith))
        (subst (λ (t : Stream × List (List ℕ)). IsPolled t.0 css) first later) in
    let thence : Stream × List (List ℕ) → Stream × List (List ℕ) =
      λ t. ((poll_all t.0 css).0, t.1 ++ (poll_all t.0 css).1) in
    ap thence first
    ∙ ap (λ (t : Stream × List (List ℕ)). (t.0, r.1 ++ t.1)) ih
    ∙ sym (drain-append (put s joint) (bytes_of css))
    ∙ ap (λ b. drain (put s b)) (append_assoc s.buffered (join cs) (bytes_of css))
