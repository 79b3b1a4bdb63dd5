-- ===== src/Link/Stream.antt =====
-- The stream of stills on the core: `pullFrame`, `pollTcp`, `handleTcpFrame` and `consumeTcp` of
-- embedded/core/src/transport/link_server.h. What the sockets say is an argument. A message that is
-- complete is a result of the model: the source counts it and drops it.
pub mod Settles
pub mod Framing
pub mod Image
pub mod Polls
pub mod Sent
use desky.Prelude.{
  ℕ, zero, suc, ◌+◌, ◌-◌, Bool, true, false, not, ◌&&◌, ◌||◌, Option, none, some, List, [], ◌∷◌,
  ◌++◌, ltb, leb, ◌==◌, ◌!=◌, if◌then◌else◌, u32, sub32, length, get_or, take, drop,
}
use desky.Link.{Frame, magic, overhead, max_payload, type_jpeg, get_u16_be, decode_frame}
use desky.Link.Reassembly.{Reassembler, reset, push, complete}

pub data Pull : Type 0 where
  need_more : Pull
  have_frame : ℕ → Pull
  resync : Pull

unfoldable pub pull_frame : List ℕ → Pull
pull_frame buf =
    let payload_len = get_u16_be buf 6 in
    if ltb (length buf) overhead
    then need_more
    else if get_or buf 0 0 != magic
    then resync
    else if ltb max_payload payload_len
    then resync
    else if ltb (length buf) (overhead + payload_len)
    then need_more
    else have_frame (overhead + payload_len)

abbrev pub stream_cap : ℕ
stream_cap = 16384

abbrev pub jpeg_cap : ℕ
jpeg_cap = 16384

pub record Stream : Type 0 where
  pub client : Bool
  pub buffered : List ℕ
  pub reasm : Reassembler
  pub frames_rx : ℕ
  pub bytes_rx : ℕ
  pub last_fps : ℕ
  pub fps_window : ℕ
  pub fps_window_start_ms : ℕ
  pub tcp_drop : ℕ
  -- What the calls of millis() to come answer, in their order.
  pub millis : ℕ → ℕ

abbrev pub new_stream : (ℕ → ℕ) → Stream
new_stream millis = record {
  client = false;
  buffered = [];
  reasm = record { cap = jpeg_cap; written = []; total = 0; next = 0 };
  frames_rx = 0;
  bytes_rx = 0;
  last_fps = 0;
  fps_window = 0;
  fps_window_start_ms = 0;
  tcp_drop = 0;
  millis = millis;
}

unfoldable pub consume_tcp : Stream → ℕ → Stream
consume_tcp s n =
    if n == 0 || ltb (length s.buffered) n then s else record s { buffered = drop n s.buffered }

unfoldable pub drop_tcp : Stream → Stream
drop_tcp s = record s { tcp_drop = u32 (s.tcp_drop + 1) }

-- The counters of a complete message, the clock read for the rate, and the buffer made empty.
unfoldable pub finish : Stream → Stream
unfolding reset
finish s =
    let now = s.millis 0 in
    let t : Stream = record s {
      millis = (λ k. s.millis (suc k));
      reasm = reset jpeg_cap;
      frames_rx = u32 (s.frames_rx + 1);
      bytes_rx = u32 (s.bytes_rx + length s.reasm.written);
      fps_window = u32 (s.fps_window + 1);
    } in
    if leb 1000 (sub32 now s.fps_window_start_ms)
    then record t { last_fps = t.fps_window; fps_window = 0; fps_window_start_ms = now }
    else t

-- The state, and the messages that are complete.
unfoldable pub handle_tcp_frame : Stream → Frame → Stream × List (List ℕ)
unfolding drop_tcp reset finish
handle_tcp_frame s f =
    if f.type' != type_jpeg
    then (drop_tcp s, [])
    else (let r = if f.frag_idx == 0 then reset jpeg_cap else s.reasm in
        let (r', ok) = push r f.frag_idx f.frag_total f.payload in
        let s' : Stream = record s { reasm = r' } in
        if not ok
        then (drop_tcp s', [])
        else if not (complete r')
        then (s', [])
        else (finish s', r'.written ∷ []))

-- A frame that was pulled: bytes that do not decode are dropped.
unfoldable pub take_decoded : Stream → ℕ → Option Frame → Stream × List (List ℕ)
unfolding handle_tcp_frame drop_tcp consume_tcp
take_decoded s frame_len none = (consume_tcp (drop_tcp s) frame_len, [])
take_decoded s frame_len (some f) =
    let (s', out) = handle_tcp_frame s f in (consume_tcp s' frame_len, out)

unfoldable pub take_frame : Stream → ℕ → Stream × List (List ℕ)
unfolding take_decoded
take_frame s frame_len = take_decoded s frame_len (decode_frame (take frame_len s.buffered))

-- The loop that pulls frames, with fuel. Each round takes a byte at least.
unfoldable pub pull_loop : ℕ → Stream → Stream × List (List ℕ)
unfolding take_frame consume_tcp drop_tcp
pull_loop zero s = (s, [])
pull_loop (suc fuel) s = elim (pull_frame s.buffered) [
  | need_more ↦ (s, [])
  | resync ↦ pull_loop fuel (consume_tcp (drop_tcp s) 1)
  | have_frame n ↦
      let (s', out) = take_frame s n in let (s'', later) = pull_loop fuel s' in (s'', out ++ later)
]

-- The bytes that are read while there is room. Each chunk is what one read finds.
unfoldable pub fill : List ℕ → List (List ℕ) → List ℕ
fill buffered [] = buffered
fill buffered (chunk ∷ rest) =
    let more = fill (buffered ++ take (stream_cap - length buffered) chunk) rest in
    if leb stream_cap (length buffered) || length chunk == 0 then buffered else more

abbrev pub restart : Stream → Bool → Stream
restart s client = record s { client = client; buffered = []; reasm = reset jpeg_cap }

-- `incoming` says whether a client asks for a connection, `was_connected` and `is_connected` whether
-- the client of before and of now is connected.
unfoldable pub poll_tcp : Stream → Bool → Bool → Bool → List (List ℕ) → Stream × List (List ℕ)
unfolding fill pull_loop reset
poll_tcp s incoming was_connected is_connected chunks =
    let t = if incoming && not (s.client && was_connected) then restart s true else s in
    if not (t.client && is_connected)
    then (if t.client then restart t false else t, [])
    else (let u : Stream = record t { buffered = fill t.buffered chunks } in
        pull_loop (length u.buffered) u)
