-- ===== src/Link/Guards.antt =====
-- The guards of the frame encoder and decoder, taken apart.
use desky.Prelude.{
  ℕ, zero, suc, ◌+◌, ◌*◌, ◌^◌, ◌<◌, ◌≤◌, ◌≡◌, refl, arith, List, [], ◌∷◌, ◌++◌, some, Bool, true,
  false, not, ◌||◌, ◌==◌, ◌!=◌, leb, ltb, u16, length, take, drop, get_or, guard-some,
}
use mathlib.Core.Option.{some_inj}
use desky.Prelude.Bits.{bit_xor-lt}
use desky.Link.{
  Frame, magic, put_u16_be, get_u16_be, frame_body, crc_bits, crc_from, crc16_ccitt,
  is_valid_payload_len, encode_frame, decode_frame,
}

crc_bits-lt : (n crc : ℕ) → crc < 2 ^ 16 → crc_bits n crc < 2 ^ 16
unfolding crc_bits
crc_bits-lt zero crc h = h
crc_bits-lt (suc n) crc h = crc_bits-lt n _ (ground arith)

crc_from-lt : (bs : List ℕ) (crc : ℕ) → crc < 2 ^ 16 → crc_from crc bs < 2 ^ 16
unfolding crc_from crc_bits
crc_from-lt [] crc h = h
crc_from-lt (b ∷ bs) crc h =
    crc_from-lt bs _ (crc_bits-lt 8 _ (bit_xor-lt 16 crc (u16 (b * 256)) h (omega arith)))

pub crc16_ccitt-lt : (bs : List ℕ) → crc16_ccitt bs < 2 ^ 16
unfolding crc16_ccitt
crc16_ccitt-lt bs = crc_from-lt bs 0xFFFF (omega arith)

-- The frames of the wire types and lengths: the ranges of the fields.
pub record IsFrame (f : Frame) : Type 0 where
  pub type_fits : f.type' < 2 ^ 8
  pub seq_fits : f.seq < 2 ^ 16
  pub idx_lt : f.frag_idx < f.frag_total
  pub total_fits : f.frag_total < 2 ^ 8
  pub len_valid : is_valid_payload_len f.type' (length f.payload) ≡ true

pub is_valid_payload_len-le : (t n : ℕ) → is_valid_payload_len t n ≡ true → n ≤ 1024
unfolding is_valid_payload_len
is_valid_payload_len-le t n h = ground arith

not-false : {b : Bool} → not b ≡ false → b ≡ true
not-false {b} h = ground arith

ltb-false : {a b : ℕ} → ltb a b ≡ false → b ≤ a
ltb-false {a} {b} h = ground arith

!=-false : {a b : ℕ} → (a != b) ≡ false → a ≡ b
!=-false {a} {b} h = ground arith

idx_range : (total idx : ℕ) → (total == 0 || leb total idx) ≡ false → idx < total
idx_range total idx h = ground arith

-- The encoder's guards.
pub record IsEncodable (f : Frame) (room : ℕ) : Type 0 where
  pub valid : is_valid_payload_len f.type' (length f.payload) ≡ true
  pub idx_lt : f.frag_idx < f.frag_total
  pub fits : 10 + length f.payload ≤ room

pub encode_frame-some :
    (f : Frame) (room : ℕ) {bs : List ℕ}
    → encode_frame f.type' f.seq f.payload f.frag_idx f.frag_total room ≡ some bs
    → let body = frame_body f.type' f.seq f.payload f.frag_idx f.frag_total in
      IsEncodable f room × (body ++ put_u16_be (crc16_ccitt body) ≡ bs)
unfolding encode_frame
encode_frame-some f room {bs} h =
    let n = length f.payload in
    let (valid, h1) = guard-some (not (is_valid_payload_len f.type' n)) h in
    let (idx, h2) = guard-some (f.frag_total == 0 || leb f.frag_total f.frag_idx) h1 in
    let (fits, h3) = guard-some (ltb room (10 + n)) h2 in
    (
      record {
        valid = not-false valid;
        idx_lt = idx_range f.frag_total f.frag_idx idx;
        fits = ltb-false fits;
      },
      some_inj.0 h3,
    )

pub encode_frame_pass :
    (f : Frame) (room : ℕ)
    → IsEncodable f room
    → let body = frame_body f.type' f.seq f.payload f.frag_idx f.frag_total in
      encode_frame f.type' f.seq f.payload f.frag_idx f.frag_total room
      ≡ some (body ++ put_u16_be (crc16_ccitt body))
unfolding encode_frame
encode_frame_pass f room h =
    let v = h.valid in
    let i = h.idx_lt in
    let w = h.fits in
    let g1 : not (is_valid_payload_len f.type' (length f.payload)) ≡ false = ground arith in
    let g2 : (f.frag_total == 0 || leb f.frag_total f.frag_idx) ≡ false = ground arith in
    let g3 : ltb room (10 + length f.payload) ≡ false = ground arith in rw (g1, g2, g3) refl

-- The decoder's guards.
pub record IsDecodable (bs : List ℕ) : Type 0 where
  pub starts : get_or bs 0 0 ≡ magic
  pub sized : length bs ≡ 10 + get_u16_be bs 6
  pub idx_lt : get_or bs 4 0 < get_or bs 5 0
  pub valid : is_valid_payload_len (get_or bs 1 0) (get_u16_be bs 6) ≡ true
  pub sealed : crc16_ccitt (take (8 + get_u16_be bs 6) bs) ≡ get_u16_be bs (8 + get_u16_be bs 6)

abbrev pub view : List ℕ → Frame
view bs = record {
  type' = get_or bs 1 0;
  seq = get_u16_be bs 2;
  frag_idx = get_or bs 4 0;
  frag_total = get_or bs 5 0;
  payload = take (get_u16_be bs 6) (drop 8 bs);
}

pub decode_frame-some :
    (bs : List ℕ) {f : Frame} → decode_frame bs ≡ some f → IsDecodable bs × (view bs ≡ f)
unfolding decode_frame
decode_frame-some bs {f} h =
    let n = get_u16_be bs 6 in
    let (long, h1) = guard-some (ltb (length bs) 10) h in
    let (starts, h2) = guard-some (get_or bs 0 0 != magic) h1 in
    let (sized, h3) = guard-some (length bs != 10 + n) h2 in
    let (idx, h4) = guard-some (get_or bs 5 0 == 0 || leb (get_or bs 5 0) (get_or bs 4 0)) h3 in
    let (valid, h5) = guard-some (not (is_valid_payload_len (get_or bs 1 0) n)) h4 in
    let (sealed, h6) = guard-some (crc16_ccitt (take (8 + n) bs) != get_u16_be bs (8 + n)) h5 in
    (
      record {
        starts = !=-false starts;
        sized = !=-false sized;
        idx_lt = idx_range (get_or bs 5 0) (get_or bs 4 0) idx;
        valid = not-false valid;
        sealed = !=-false sealed;
      },
      some_inj.0 h6,
    )

pub decode_frame_pass : (bs : List ℕ) → IsDecodable bs → decode_frame bs ≡ some (view bs)
unfolding decode_frame
decode_frame_pass bs h =
    let a = h.starts in
    let b = h.sized in
    let c = h.idx_lt in
    let d = h.valid in
    let e = h.sealed in
    let g1 : ltb (length bs) 10 ≡ false = ground arith in
    let g2 : (get_or bs 0 0 != magic) ≡ false = ground arith in
    let g3 : (length bs != 10 + get_u16_be bs 6) ≡ false = ground arith in
    let g4 : (get_or bs 5 0 == 0 || leb (get_or bs 5 0) (get_or bs 4 0)) ≡ false = ground arith in
    let g5 : not (is_valid_payload_len (get_or bs 1 0) (get_u16_be bs 6)) ≡ false = ground arith in
    let g6 : (crc16_ccitt (take (8 + get_u16_be bs 6) bs) != get_u16_be bs (8 + get_u16_be bs 6))
        ≡ false =
      ground arith in
    rw (g1, g2, g3, g4, g5, g6) refl
