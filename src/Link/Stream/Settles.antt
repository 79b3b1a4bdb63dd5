-- ===== src/Link/Stream/Settles.antt =====
-- The loop that pulls frames ends.
use desky.Prelude.{
  ℕ, zero, suc, ◌+◌, ◌≤◌, ◌≡◌, ◌⊎◌, refl, ap, ◌∙◌, arith, Option, none, some, List, length,
  length-drop, take, inl, inr,
}
use desky.Link.{Frame, decode_frame}
use desky.Link.Stream.{
  Stream, Pull, need_more, have_frame, resync, pull_frame, consume_tcp, drop_tcp, finish,
  handle_tcp_frame, take_decoded, take_decoded, take_frame, pull_loop,
}

pub handle_tcp_frame-buffered :
    (s : Stream) (f : Frame) → (handle_tcp_frame s f).0.buffered ≡ s.buffered
unfolding handle_tcp_frame drop_tcp finish
handle_tcp_frame-buffered s f = ground arith

pub consume_tcp-length :
    (s : Stream) (n : ℕ)
    → n ≤ length s.buffered
    → length (consume_tcp s n).buffered + n ≡ length s.buffered
unfolding consume_tcp
consume_tcp-length s n h = ground (arith, length-drop n s.buffered)

take_decoded-length :
    (o : Option Frame) (s : Stream) (n : ℕ)
    → n ≤ length s.buffered
    → length (take_decoded s n o).0.buffered + n ≡ length s.buffered
unfolding take_decoded drop_tcp
take_decoded-length none s n h = consume_tcp-length (drop_tcp s) n h
take_decoded-length (some f) s n h =
    let same = handle_tcp_frame-buffered s f in
    let t = (handle_tcp_frame s f).0 in
    consume_tcp-length t n (omega (arith, ap length same)) ∙ ap length same

pub take_frame-length :
    (s : Stream) (n : ℕ)
    → n ≤ length s.buffered
    → length (take_frame s n).0.buffered + n ≡ length s.buffered
unfolding take_frame
take_frame-length s n h = take_decoded-length (decode_frame (take n s.buffered)) s n h

pub pull_frame-have_frame :
    (bs : List ℕ) (n : ℕ) → pull_frame bs ≡ have_frame n → (1 ≤ n) × (n ≤ length bs)
unfolding pull_frame
pull_frame-have_frame bs n h = ground arith

pub pull_frame-resync : (bs : List ℕ) → pull_frame bs ≡ resync → 1 ≤ length bs
unfolding pull_frame
pull_frame-resync bs h = ground arith

pub Pull-cases : (p : Pull) → (p ≡ need_more) ⊎ ((p ≡ resync) ⊎ ((n : ℕ) × (p ≡ have_frame n)))
Pull-cases need_more = inl refl
Pull-cases resync = inr (inl refl)
Pull-cases (have_frame n) = inr (inr (n, refl))

-- As many rounds as there are bytes are enough: the loop ends where no whole frame and no byte to drop
-- is left, for any bytes whatever.
pub pull_loop-need_more :
    (fuel : ℕ) (s : Stream)
    → length s.buffered ≤ fuel
    → pull_frame (pull_loop fuel s).0.buffered ≡ need_more
unfolding pull_loop drop_tcp
pull_loop-need_more zero s h = (unfold pull_frame in ground arith)
pull_loop-need_more (suc fuel) s h = elim (Pull-cases (pull_frame s.buffered)) [
  | inl e ↦ rw (e, pull_loop) e
  | inr (inl e) ↦
      let l = consume_tcp-length (drop_tcp s) 1 (pull_frame-resync s.buffered e) in
      rw (e, pull_loop) (pull_loop-need_more fuel (consume_tcp (drop_tcp s) 1) (omega arith))
  | inr (inr (n, e)) ↦
      let r = pull_frame-have_frame s.buffered n e in
      let l = take_frame-length s n r.1 in
      rw (e, pull_loop) (pull_loop-need_more fuel (take_frame s n).0 (omega arith))
]
