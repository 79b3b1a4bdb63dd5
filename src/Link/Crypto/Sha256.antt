-- ===== src/Link/Crypto/Sha256.antt =====
-- The digest of the passphrase: SHA-256 in embedded/shared/link/link_crypto.h and `deriveApPassphrase`
-- on it. The words of the state are a list of 8, and `buf` is the filled part of the buffer.
use desky.Prelude.{
  ℕ, zero, suc, ◌+◌, ◌-◌, ◌*◌, ◌/◌, ◌%◌, ◌^◌, Option, none, some, List, [], ◌∷◌, ◌++◌, bit_and,
  bit_or, bit_xor, u32, ◌==◌, if◌then◌else◌, length, get_or, take, drop,
}
use desky.Link.{put_u32_be, get_u32_be}

unfoldable pub rotr32 : ℕ → ℕ → ℕ
rotr32 x n = bit_or (x / 2 ^ n) (u32 (x * 2 ^ (32 - n)))

pub record Sha256 : Type 0 where
  pub h : List ℕ
  pub total : ℕ
  pub buf : List ℕ

abbrev pub new_sha256 : Sha256
new_sha256 = record {
  h =
      0x6A09E667 ∷ 0xBB67AE85 ∷ 0x3C6EF372 ∷ 0xA54FF53A ∷ 0x510E527F ∷ 0x9B05688C ∷ 0x1F83D9AB
      ∷ 0x5BE0CD19 ∷ [];
  total = 0;
  buf = [];
}

abbrev round_constants : List ℕ
round_constants =
    0x428A2F98 ∷ 0x71374491 ∷ 0xB5C0FBCF ∷ 0xE9B5DBA5 ∷ 0x3956C25B ∷ 0x59F111F1 ∷ 0x923F82A4
    ∷ 0xAB1C5ED5 ∷ 0xD807AA98 ∷ 0x12835B01 ∷ 0x243185BE ∷ 0x550C7DC3 ∷ 0x72BE5D74 ∷ 0x80DEB1FE
    ∷ 0x9BDC06A7 ∷ 0xC19BF174 ∷ 0xE49B69C1 ∷ 0xEFBE4786 ∷ 0x0FC19DC6 ∷ 0x240CA1CC ∷ 0x2DE92C6F
    ∷ 0x4A7484AA ∷ 0x5CB0A9DC ∷ 0x76F988DA ∷ 0x983E5152 ∷ 0xA831C66D ∷ 0xB00327C8 ∷ 0xBF597FC7
    ∷ 0xC6E00BF3 ∷ 0xD5A79147 ∷ 0x06CA6351 ∷ 0x14292967 ∷ 0x27B70A85 ∷ 0x2E1B2138 ∷ 0x4D2C6DFC
    ∷ 0x53380D13 ∷ 0x650A7354 ∷ 0x766A0ABB ∷ 0x81C2C92E ∷ 0x92722C85 ∷ 0xA2BFE8A1 ∷ 0xA81A664B
    ∷ 0xC24B8B70 ∷ 0xC76C51A3 ∷ 0xD192E819 ∷ 0xD6990624 ∷ 0xF40E3585 ∷ 0x106AA070 ∷ 0x19A4C116
    ∷ 0x1E376C08 ∷ 0x2748774C ∷ 0x34B0BCB5 ∷ 0x391C0CB3 ∷ 0x4ED8AA4A ∷ 0x5B9CCA4F ∷ 0x682E6FF3
    ∷ 0x748F82EE ∷ 0x78A5636F ∷ 0x84C87814 ∷ 0x8CC70208 ∷ 0x90BEFFFA ∷ 0xA4506CEB ∷ 0xBEF9A3F7
    ∷ 0xC67178F2 ∷ []

-- The words of a block.
abbrev words : ℕ → List ℕ → List ℕ
words zero blk = []
words (suc n) blk = get_u32_be blk 0 ∷ words n (drop 4 blk)

-- One more word of the schedule.
unfoldable pub next_word : List ℕ → ℕ
unfolding rotr32
next_word w =
    let n = length w in
    let x = get_or w (n - 15) 0 in
    let y = get_or w (n - 2) 0 in
    let s0 = bit_xor (bit_xor (rotr32 x 7) (rotr32 x 18)) (x / 2 ^ 3) in
    let s1 = bit_xor (bit_xor (rotr32 y 17) (rotr32 y 19)) (y / 2 ^ 10) in
    u32 (get_or w (n - 16) 0 + s0 + get_or w (n - 7) 0 + s1)

schedule : ℕ → List ℕ → List ℕ
unfolding next_word
schedule zero w = w
schedule (suc n) w = schedule n (w ++ (next_word w ∷ []))

pub record Registers : Type 0 where
  pub a : ℕ
  pub b : ℕ
  pub c : ℕ
  pub d : ℕ
  pub e : ℕ
  pub f : ℕ
  pub g : ℕ
  pub h : ℕ

unfoldable pub one_round : Registers → ℕ → ℕ → Registers
unfolding rotr32
one_round r k w =
    let s1 = bit_xor (bit_xor (rotr32 r.e 6) (rotr32 r.e 11)) (rotr32 r.e 25) in
    let ch = bit_xor (bit_and r.e r.f) (bit_and (bit_xor r.e 0xFFFFFFFF) r.g) in
    let t1 = u32 (r.h + s1 + ch + k + w) in
    let s0 = bit_xor (bit_xor (rotr32 r.a 2) (rotr32 r.a 13)) (rotr32 r.a 22) in
    let maj = bit_xor (bit_xor (bit_and r.a r.b) (bit_and r.a r.c)) (bit_and r.b r.c) in
    let t2 = u32 (s0 + maj) in
    record {
      a = u32 (t1 + t2);
      b = r.a;
      c = r.b;
      d = r.c;
      e = u32 (r.d + t1);
      f = r.e;
      g = r.f;
      h = r.g;
    }

sha_rounds : Registers → List ℕ → List ℕ → Registers
unfolding one_round
sha_rounds r (k ∷ ks) (w ∷ ws) = sha_rounds (one_round r k w) ks ws
sha_rounds r [] ws = r
sha_rounds r (k ∷ ks) [] = r

abbrev registers : List ℕ → Registers
registers h =
    let at = λ (i : ℕ). get_or h i 0 in
    record { a = at 0; b = at 1; c = at 2; d = at 3; e = at 4; f = at 5; g = at 6; h = at 7 }

abbrev add_words : List ℕ → List ℕ → List ℕ
add_words [] ys = []
add_words (x ∷ xs) [] = []
add_words (x ∷ xs) (y ∷ ys) = u32 (x + y) ∷ add_words xs ys

unfoldable pub sha_compress : List ℕ → List ℕ → List ℕ
unfolding schedule sha_rounds
sha_compress h blk =
    let r = sha_rounds (registers h) round_constants (schedule 48 (words 16 blk)) in
    add_words h (r.a ∷ r.b ∷ r.c ∷ r.d ∷ r.e ∷ r.f ∷ r.g ∷ r.h ∷ [])

-- The buffer takes bytes; a full one is compressed.
abbrev filled : Sha256 → List ℕ → Sha256
filled c b =
    if length b == 64 then record c { h = sha_compress c.h b; buf = [] } else record c { buf = b }

-- The loop, of at most `n` pieces.
absorb : ℕ → Sha256 → List ℕ → Sha256
unfolding sha_compress
absorb zero c bs = c
absorb (suc n) c bs =
    let room = 64 - length c.buf in
    let rest = absorb n (filled c (c.buf ++ take room bs)) (drop room bs) in
    if length bs == 0 then c else rest

unfoldable pub sha_update : Sha256 → List ℕ → Sha256
unfolding absorb
sha_update c bs = absorb (length bs) (record c { total = (c.total + length bs) % 2 ^ 64 }) bs

-- The zeroes of the padding, at most `n` of them.
pad_zeroes : ℕ → Sha256 → Sha256
unfolding sha_update
pad_zeroes zero c = c
pad_zeroes (suc n) c =
    let more = pad_zeroes n (sha_update c (0 ∷ [])) in if length c.buf == 56 then c else more

abbrev word_bytes : List ℕ → List ℕ
word_bytes [] = []
word_bytes (w ∷ ws) = put_u32_be w ++ word_bytes ws

unfoldable pub sha_final : Sha256 → List ℕ
unfolding sha_update pad_zeroes
sha_final c =
    let bits = c.total * 8 % 2 ^ 64 in
    let padded = pad_zeroes 64 (sha_update c (0x80 ∷ [])) in
    let last = sha_update padded (put_u32_be (bits / 2 ^ 32) ++ put_u32_be bits) in
    word_bytes last.h

-- `desky-link-ap-v1` and `desky-`.
abbrev ap_label : List ℕ
ap_label =
    100 ∷ 101 ∷ 115 ∷ 107 ∷ 121 ∷ 45 ∷ 108 ∷ 105 ∷ 110 ∷ 107 ∷ 45 ∷ 97 ∷ 112 ∷ 45 ∷ 118 ∷ 49 ∷ []

abbrev pass_prefix : List ℕ
pass_prefix = 100 ∷ 101 ∷ 115 ∷ 107 ∷ 121 ∷ 45 ∷ []

abbrev pass_hash_chars : ℕ
pass_hash_chars = 10

abbrev pass_alphabet : List ℕ
pass_alphabet =
    97 ∷ 98 ∷ 99 ∷ 100 ∷ 101 ∷ 102 ∷ 103 ∷ 104 ∷ 105 ∷ 106 ∷ 107 ∷ 108 ∷ 109 ∷ 110 ∷ 111 ∷ 112 ∷ 113
    ∷ 114 ∷ 115 ∷ 116 ∷ 117 ∷ 118 ∷ 119 ∷ 120 ∷ 121 ∷ 122 ∷ 50 ∷ 51 ∷ 52 ∷ 53 ∷ 54 ∷ 55 ∷ []

-- The last `n` characters, of 5 bits each.
abbrev pass_chars : ℕ → ℕ → List ℕ
pass_chars zero acc = []
pass_chars (suc n) acc = get_or pass_alphabet (acc / 2 ^ (n * 5 + 6) % 32) 0 ∷ pass_chars n acc

abbrev number_of : ℕ → List ℕ → ℕ
number_of acc [] = acc
number_of acc (b ∷ bs) = number_of (acc * 256 + b) bs

unfoldable pub derive_ap_passphrase : List ℕ → Option (List ℕ)
unfolding sha_update sha_final
derive_ap_passphrase secret =
    let digest =
      sha_final (sha_update (sha_update (sha_update new_sha256 ap_label) (0 ∷ [])) secret) in
    if length secret == 0
    then none
    else some (pass_prefix ++ pass_chars pass_hash_chars (number_of 0 (take 7 digest)))
