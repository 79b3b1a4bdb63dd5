-- ===== src/Link/Stream/Framing.antt =====
-- The pieces in which the bytes come do not matter.
use mathlib.Core.List.{append_assoc}
use desky.Prelude.{
  ℕ, zero, suc, ◌+◌, ◌≤◌, ◌≡◌, ◌≢◌, refl, ap, sym, ◌∙◌, arith, Option, none, some, List, [], ◌++◌,
  length, length-append, take, get_or-append_left, drop-append_left, take-append_left, inl, inr,
}
use desky.Link.{Frame, decode_frame}
use desky.Link.Stream.{
  Stream, Pull, need_more, have_frame, resync, pull_frame, consume_tcp, drop_tcp, finish,
  handle_tcp_frame, take_decoded, take_frame, pull_loop,
}
use desky.Link.Stream.Settles.{
  Pull-cases, pull_frame-resync, pull_frame-have_frame, consume_tcp-length, take_frame-length,
  handle_tcp_frame-buffered,
}

abbrev pub put : Stream → List ℕ → Stream
put s b = record s { buffered = b }

-- What the first bytes decide, later bytes do not change.
pull_frame-append : (b c : List ℕ) → pull_frame b ≢ need_more → pull_frame (b ++ c) ≡ pull_frame b
pull_frame-append b c h =
    let long : 10 ≤ length b = (unfold pull_frame in ground arith) in
    let l = length-append b c in
    let g0 = get_or-append_left b c 0 0 (omega arith) in
    let g6 = get_or-append_left b c 6 0 (omega arith) in
    let g7 = get_or-append_left b c 7 0 (omega arith) in (unfold pull_frame in ground arith)

-- More rounds than bytes change nothing.
pub pull_loop-fuel :
    (f g : ℕ) (s : Stream)
    → length s.buffered ≤ f
    → length s.buffered ≤ g
    → pull_loop f s ≡ pull_loop g s
unfolding pull_loop drop_tcp
pull_loop-fuel zero zero s p q = refl
pull_loop-fuel zero (suc g) s p q =
    let e : pull_frame s.buffered ≡ need_more = (unfold pull_frame in ground arith) in
    rw (e, pull_loop)
pull_loop-fuel (suc f) zero s p q =
    let e : pull_frame s.buffered ≡ need_more = (unfold pull_frame in ground arith) in
    rw (e, pull_loop)
pull_loop-fuel (suc f) (suc g) s p q = elim (Pull-cases (pull_frame s.buffered)) [
  | inl e ↦ rw (e, pull_loop)
  | inr (inl e) ↦
      let l = consume_tcp-length (drop_tcp s) 1 (pull_frame-resync s.buffered e) in
      rw (e, pull_loop)
        (pull_loop-fuel f g (consume_tcp (drop_tcp s) 1) (omega arith) (omega arith))
  | inr (inr (n, e)) ↦
      let r = pull_frame-have_frame s.buffered n e in
      let l = take_frame-length s n r.1 in
      let ih = pull_loop-fuel f g (take_frame s n).0 (omega arith) (omega arith) in
      rw (e, pull_loop) (rw ih refl)
]

consume_tcp-append :
    (s : Stream) (n : ℕ) (c : List ℕ)
    → n ≤ length s.buffered
    → consume_tcp (put s (s.buffered ++ c)) n
      ≡ put (consume_tcp s n) ((consume_tcp s n).buffered ++ c)
unfolding consume_tcp
consume_tcp-append s n c h =
    ground (arith, length-append s.buffered c, drop-append_left n s.buffered c)

pub handle_tcp_frame-put :
    (s : Stream) (f : Frame) (b : List ℕ)
    → handle_tcp_frame (put s b) f ≡ (put (handle_tcp_frame s f).0 b, (handle_tcp_frame s f).1)
unfolding handle_tcp_frame drop_tcp finish
handle_tcp_frame-put s f b = ground arith

take_decoded-append :
    (o : Option Frame) (s : Stream) (n : ℕ) (c : List ℕ)
    → n ≤ length s.buffered
    → take_decoded (put s (s.buffered ++ c)) n o
      ≡ (put (take_decoded s n o).0 ((take_decoded s n o).0.buffered ++ c), (take_decoded s n o).1)
unfolding take_decoded drop_tcp
take_decoded-append none s n c h =
    ap (λ (t : Stream). (t, [])) (consume_tcp-append (drop_tcp s) n c h)
take_decoded-append (some f) s n c h =
    let r = handle_tcp_frame s f in
    let same = handle_tcp_frame-buffered s f in
    let appended = consume_tcp-append r.0 n c (omega (arith, ap length same)) in
    ap (λ (t : Stream × List (List ℕ)). (consume_tcp t.0 n, t.1))
      (handle_tcp_frame-put s f (s.buffered ++ c))
    ∙ ap (λ (b : List ℕ). (consume_tcp (put r.0 (b ++ c)) n, r.1)) (sym same)
    ∙ ap (λ (t : Stream). (t, r.1)) appended

take_frame-append :
    (s : Stream) (n : ℕ) (c : List ℕ)
    → n ≤ length s.buffered
    → take_frame (put s (s.buffered ++ c)) n
      ≡ (put (take_frame s n).0 ((take_frame s n).0.buffered ++ c), (take_frame s n).1)
unfolding take_frame
take_frame-append s n c h =
    ap (λ l. take_decoded (put s (s.buffered ++ c)) n (decode_frame l))
      (take-append_left n s.buffered c h)
    ∙ take_decoded-append (decode_frame (take n s.buffered)) s n c h

-- The buffer never grows.
pull_loop-le :
    (fuel : ℕ) (s : Stream)
    → length s.buffered ≤ fuel
    → length (pull_loop fuel s).0.buffered ≤ length s.buffered
unfolding pull_loop drop_tcp
pull_loop-le zero s h = omega arith
pull_loop-le (suc fuel) s h = elim (Pull-cases (pull_frame s.buffered)) [
  | inl e ↦ rw (e, pull_loop) (omega arith)
  | inr (inl e) ↦
      let l = consume_tcp-length (drop_tcp s) 1 (pull_frame-resync s.buffered e) in
      let ih = pull_loop-le fuel (consume_tcp (drop_tcp s) 1) (omega arith) in
      rw (e, pull_loop) (omega arith)
  | inr (inr (n, e)) ↦
      let r = pull_frame-have_frame s.buffered n e in
      let l = take_frame-length s n r.1 in
      let ih = pull_loop-le fuel (take_frame s n).0 (omega arith) in rw (e, pull_loop) (omega arith)
]

-- The loop with as many rounds as there are bytes.
abbrev pub drain : Stream → Stream × List (List ℕ)
drain s = pull_loop (length s.buffered) s

-- The loop on the bytes of the second piece, behind what the first has left.
abbrev pub then_drain : Stream × List (List ℕ) → List ℕ → Stream × List (List ℕ)
then_drain (s, out) c = let (s', later) = drain (put s (s.buffered ++ c)) in (s', out ++ later)

-- One round more than bytes.
pub drain-suc : (s : Stream) → drain s ≡ pull_loop (suc (length s.buffered)) s
drain-suc s =
    pull_loop-fuel (length s.buffered) (suc (length s.buffered)) s (omega arith) (omega arith)

unfoldable pub loop_on : ℕ → Stream → Pull → Stream × List (List ℕ)
unfolding drop_tcp
loop_on fuel s need_more = (s, [])
loop_on fuel s resync = pull_loop fuel (consume_tcp (drop_tcp s) 1)
loop_on fuel s (have_frame n) =
    let (s', out) = take_frame s n in let (s'', later) = pull_loop fuel s' in (s'', out ++ later)

pub pull_loop-suc :
    (fuel : ℕ) (s : Stream) → pull_loop (suc fuel) s ≡ loop_on fuel s (pull_frame s.buffered)
unfolding pull_loop loop_on
pull_loop-suc fuel s = elim (Pull-cases (pull_frame s.buffered)) [
  | inl e ↦ rw (e, pull_loop)
  | inr (inl e) ↦ rw (e, pull_loop)
  | inr (inr (n, e)) ↦ rw (e, pull_loop)
]

-- A first step that takes bytes of the first piece only.
pull_loop-drain :
    (big : ℕ) (s : Stream) (c : List ℕ)
    → length s.buffered + length c ≤ big
    → pull_loop big (put s (s.buffered ++ c)) ≡ drain (put s (s.buffered ++ c))
pull_loop-drain big s c h =
    pull_loop-fuel big (length (s.buffered ++ c)) (put s (s.buffered ++ c))
      (omega (arith, length-append s.buffered c)) (omega arith)

unfoldable pub append_to : List (List ℕ) → Stream × List (List ℕ) → Stream × List (List ℕ)
append_to out r = (r.0, out ++ r.1)

pull_loop-append :
    (fuel : ℕ) (s : Stream) (c : List ℕ)
    → length s.buffered ≤ fuel
    → drain (put s (s.buffered ++ c)) ≡ then_drain (pull_loop fuel s) c
unfolding pull_loop append_to
pull_loop-append zero s c h = refl
pull_loop-append (suc fuel) s c h = elim (Pull-cases (pull_frame s.buffered)) [
  | inl e ↦ rw (e, pull_loop) refl
  | inr (inl e) ↦
      let b = s.buffered in
      let s1 = consume_tcp (drop_tcp s) 1 in
      let one = pull_frame-resync b e in
      let l = consume_tcp-length (drop_tcp s) 1 one in
      let l' = length-append b c in
      let e' : pull_frame (b ++ c) ≡ resync = pull_frame-append b c (λ q. cc) ∙ e in
      let first : drain (put s (b ++ c))
          ≡ pull_loop (length (b ++ c)) (consume_tcp (drop_tcp (put s (b ++ c))) 1) =
        (drain-suc (put s (b ++ c))
          ∙ pull_loop-suc (length (b ++ c)) (put s (b ++ c))
          ∙ (unfold loop_on in ap (loop_on (length (b ++ c)) (put s (b ++ c))) e')) in
      let eaten : consume_tcp (drop_tcp (put s (b ++ c))) 1 ≡ put s1 (s1.buffered ++ c) =
        (unfold drop_tcp in consume_tcp-append (drop_tcp s) 1 c one) in
      first
      ∙ ap (λ t. pull_loop (length (b ++ c)) t) eaten
      ∙ pull_loop-drain (length (b ++ c)) s1 c (omega arith)
      ∙ pull_loop-append fuel s1 c (omega arith)
      ∙ rw (e, pull_loop) refl
  | inr (inr (n, e)) ↦
      let b = s.buffered in
      let r = take_frame s n in
      let fits = pull_frame-have_frame b n e in
      let l = take_frame-length s n fits.1 in
      let l' = length-append b c in
      let e' : pull_frame (b ++ c) ≡ have_frame n = pull_frame-append b c (λ q. cc) ∙ e in
      let first : drain (put s (b ++ c))
          ≡ loop_on (length (b ++ c)) (put s (b ++ c)) (have_frame n) =
        (drain-suc (put s (b ++ c))
          ∙ pull_loop-suc (length (b ++ c)) (put s (b ++ c))
          ∙ ap (loop_on (length (b ++ c)) (put s (b ++ c))) e') in
      let taken : loop_on (length (b ++ c)) (put s (b ++ c)) (have_frame n)
          ≡ append_to r.1 (pull_loop (length (b ++ c)) (put r.0 (r.0.buffered ++ c))) =
        (unfold loop_on append_to in
          ap (λ (t : Stream × List (List ℕ)). append_to t.1 (pull_loop (length (b ++ c)) t.0))
            (take_frame-append s n c fits.1)) in
      first
      ∙ taken
      ∙ ap (append_to r.1) (
          pull_loop-drain (length (b ++ c)) r.0 c (omega arith)
          ∙ pull_loop-append fuel r.0 c (omega arith))
      ∙ rw (e, pull_loop) (rw append_assoc refl)
]

-- The bytes of the stream may come in any two pieces, both of them in the buffer or the second behind
-- what the loop has left of the first: the messages, and all of the state, are the same, where the clock
-- answers the same at each complete message.
pub drain-append :
    (s : Stream) (c : List ℕ) → drain (put s (s.buffered ++ c)) ≡ then_drain (drain s) c
drain-append s c = pull_loop-append (length s.buffered) s c (omega arith)
