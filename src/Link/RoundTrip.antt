-- ===== src/Link/RoundTrip.antt =====
-- Encoding and decoding of link frames are inverse to each other.

use desky.Prelude.{
  ℕ, ◌+◌, ◌*◌, ◌/◌, ◌^◌, ◌<◌, ◌≤◌, ◌≡◌, refl, ap, ap₂, subst, sym, ◌∙◌, arith, List, [], ◌∷◌, ◌++◌,
  some, u8, length, length-append, length-drop, take, drop, take-append, take-append-drop, get_or,
  get_or-lt, get_or-append, get_or-drop, drop-drop, cells, cells_lem, cells-drop, IsBytes,
  length-take,
}
use desky.Link.{
  Frame, put_u16_be, get_u16_be, frame_body, crc16_ccitt, is_valid_payload_len, encode_frame,
  decode_frame,
}
use desky.Link.Guards.{
  IsFrame, view, IsDecodable, IsEncodable, crc16_ccitt-lt, encode_frame-some, encode_frame_pass,
  decode_frame-some, decode_frame_pass, is_valid_payload_len-le,
}

pub get_u16_be-put_u16_be : (v : ℕ) → v < 2 ^ 16 → u8 (v / 256) * 256 + u8 v ≡ v
get_u16_be-put_u16_be v h = omega arith

abbrev mk : ℕ → ℕ → ℕ → ℕ → List ℕ → Frame
mk t s i l p = record { type' = t; seq = s; frag_idx = i; frag_total = l; payload = p }

frame_eq :
    {t t' s s' i l : ℕ} {p p' : List ℕ} → t ≡ t' → s ≡ s' → p ≡ p' → mk t s i l p ≡ mk t' s' i l p'
frame_eq a b c = cc

module _ (f : Frame) (h : IsFrame f) where
  abbrev body : List ℕ
  body = frame_body f.type' f.seq f.payload f.frag_idx f.frag_total

  abbrev wire : List ℕ
  wire = body ++ put_u16_be (crc16_ccitt body)

  payload_le : length f.payload ≤ 1024
  payload_le = is_valid_payload_len-le f.type' (length f.payload) h.len_valid

  length-body : length body ≡ 8 + length f.payload
  length-body = omega arith

  wire_len : get_u16_be wire 6 ≡ length f.payload
  wire_len = get_u16_be-put_u16_be (length f.payload) (omega (arith, payload_le))

  wire_crc : get_u16_be wire (8 + length f.payload) ≡ crc16_ccitt body
  wire_crc =
      let tail = put_u16_be (crc16_ccitt body) in
      let hi = get_or-append body tail (8 + length f.payload) 0 0 (omega arith) in
      let lo = get_or-append body tail (8 + length f.payload + 1) 1 0 (omega arith) in
      ap₂ (λ a b. a * 256 + b) hi lo
      ∙ get_u16_be-put_u16_be (crc16_ccitt body) (crc16_ccitt-lt body)

  view-wire : view wire ≡ f
  view-wire = frame_eq (omega (arith, h.type_fits)) (get_u16_be-put_u16_be f.seq h.seq_fits) (
      ap (λ n. take n (drop 8 wire)) wire_len
      ∙ take-append f.payload (put_u16_be (crc16_ccitt body)) (length f.payload) refl)

  wire-IsDecodable : IsDecodable wire
  wire-IsDecodable = record {
    starts = refl;
    sized =
        omega
          (arith, wire_len, length-body, length-append f.payload (put_u16_be (crc16_ccitt body)));
    idx_lt = h.idx_lt;
    valid = ap₂ is_valid_payload_len t_fits wire_len ∙ h.len_valid;
    sealed =
        ap (λ n. crc16_ccitt (take (8 + n) wire)) wire_len
        ∙ ap crc16_ccitt
            (take-append body (put_u16_be (crc16_ccitt body)) (8 + length f.payload) length-body)
        ∙ sym wire_crc
        ∙ ap (λ n. get_u16_be wire (8 + n)) (sym wire_len);
  }
    where
      t_fits : u8 f.type' ≡ f.type'
      t_fits = omega (arith, h.type_fits)

-- A frame in the wire's ranges comes back from its encoding, whatever the room it was encoded in.
pub decode_frame-encode_frame :
    (f : Frame) (room : ℕ) {bs : List ℕ}
    → IsFrame f
    → encode_frame f.type' f.seq f.payload f.frag_idx f.frag_total room ≡ some bs
    → decode_frame bs ≡ some f
decode_frame-encode_frame f room {bs} h e =
    ap decode_frame (sym (encode_frame-some f room e).1)
    ∙ decode_frame_pass (wire f h) (wire-IsDecodable f h)
    ∙ ap (λ g. some g) (view-wire f h)

module _ (bs : List ℕ) (h : IsBytes bs) (d : IsDecodable bs) where
  abbrev n : ℕ
  n = get_u16_be bs 6

  byte : (i : ℕ) → u8 (get_or bs i 0) ≡ get_or bs i 0
  byte i = omega (arith, get_or-lt bs i h)

  word_hi : (i : ℕ) → u8 (get_u16_be bs i / 256) ≡ get_or bs i 0
  word_hi i = omega (arith, get_or-lt bs i h, get_or-lt bs (i + 1) h)

  word_lo : (i : ℕ) → u8 (get_u16_be bs i) ≡ get_or bs (i + 1) 0
  word_lo i = omega (arith, get_or-lt bs i h, get_or-lt bs (i + 1) h)

  payload_length : length (take n (drop 8 bs)) ≡ n
  payload_length = let s = d.sized in omega (arith, length-take n (drop 8 bs), length-drop 8 bs)

  abbrev again : List ℕ
  again =
      frame_body (view bs).type' (view bs).seq (view bs).payload (view bs).frag_idx
        (view bs).frag_total

  head_again : again ≡ cells 0 8 bs ++ take n (drop 8 bs)
  head_again =
      rw payload_length (rw (byte 1, word_hi 2, word_lo 2, word_hi 6, word_lo 6, sym d.starts) refl)

  bs_split : bs ≡ again ++ drop (8 + n) bs
  bs_split =
      let long : 8 ≤ length bs = (let s = d.sized in omega arith) in
      sym (cells-drop 8 bs long)
      ∙ ap (λ l. cells 0 8 bs ++ l) (sym (take-append-drop n (drop 8 bs)))
      ∙ ap (λ l. cells 0 8 bs ++ (take n (drop 8 bs) ++ l)) (drop-drop n 8 (8 + n) bs refl)
      ∙ ap (λ l. l ++ drop (8 + n) bs) (sym head_again)

  tail_again : drop (8 + n) bs ≡ put_u16_be (get_u16_be bs (8 + n))
  tail_again =
      let k = 8 + n in
      let two : length (drop k bs) ≡ 2 = (let s = d.sized in omega (arith, length-drop k bs)) in
      sym (cells_lem 2 (drop k bs) two)
      ∙ ap₂ (λ a b. a ∷ b ∷ []) (get_or-drop k 0 k bs 0 (omega arith) ∙ sym (word_hi k))
          (get_or-drop k 1 (k + 1) bs 0 refl ∙ sym (word_lo k))

  crc_again : crc16_ccitt again ≡ get_u16_be bs (8 + n)
  crc_again =
      let l : length again ≡ 8 + n = omega (arith, payload_length) in
      ap crc16_ccitt
        (sym (take-append again (drop (8 + n) bs) (8 + n) l) ∙ ap (take (8 + n)) (sym bs_split))
      ∙ d.sealed

  view-IsEncodable : IsEncodable (view bs) (length bs)
  view-IsEncodable = record {
    valid = ap (is_valid_payload_len (get_or bs 1 0)) payload_length ∙ d.valid;
    idx_lt = d.idx_lt;
    fits = (let s = d.sized in omega (arith, payload_length));
  }

  encode_view :
      encode_frame
        (view bs).type'
        (view bs).seq
        (view bs).payload
        (view bs).frag_idx
        (view bs).frag_total
        (length bs)
      ≡ some bs
  encode_view =
      encode_frame_pass (view bs) (length bs) view-IsEncodable
      ∙ ap (λ c. some (again ++ put_u16_be c)) crc_again
      ∙ ap (λ l. some (again ++ l)) (sym tail_again)
      ∙ ap (λ l. some l) (sym bs_split)

-- Bytes that decode to a frame are its encoding, in the room that they take.
pub encode_frame-decode_frame :
    (bs : List ℕ) {f : Frame}
    → IsBytes bs
    → decode_frame bs ≡ some f
    → encode_frame f.type' f.seq f.payload f.frag_idx f.frag_total (length bs) ≡ some bs
encode_frame-decode_frame bs {f} h e =
    let (d, v) = decode_frame-some bs e in
    ap (λ (g : Frame). encode_frame g.type' g.seq g.payload g.frag_idx g.frag_total (length bs))
      (sym v)
    ∙ encode_view bs h d

-- What decodes is in the wire's ranges: a known type with a length of that type, and a fragment
-- index below the number of fragments.
pub decode_frame-IsFrame :
    (bs : List ℕ) {f : Frame} → IsBytes bs → decode_frame bs ≡ some f → IsFrame f
decode_frame-IsFrame bs {f} h e =
    let (d, v) = decode_frame-some bs e in
    subst IsFrame v (record {
      type_fits = get_or-lt bs 1 h;
      seq_fits = omega (arith, get_or-lt bs 2 h, get_or-lt bs 3 h);
      idx_lt = d.idx_lt;
      total_fits = get_or-lt bs 5 h;
      len_valid = (view-IsEncodable bs h d).valid;
    })
