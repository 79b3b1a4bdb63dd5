-- ===== src/Link/Crypto/Aes.antt =====
-- AES-128 on one block: namespace `portable` of embedded/shared/link/link_crypto.h. A block and a round
-- key are lists of 16 bytes.
pub mod Lengths
use desky.Prelude.{
  ℕ, zero, suc, ◌+◌, ◌-◌, ◌*◌, ◌%◌, ◌/◌, Bool, List, [], ◌∷◌, ◌++◌, bit_xor, u8, leb, ◌==◌, ◌!=◌,
  if◌then◌else◌, get_or, drop, map,
}

abbrev s_box : List ℕ
s_box =
    0x63 ∷ 0x7c ∷ 0x77 ∷ 0x7b ∷ 0xf2 ∷ 0x6b ∷ 0x6f ∷ 0xc5 ∷ 0x30 ∷ 0x01 ∷ 0x67 ∷ 0x2b ∷ 0xfe ∷ 0xd7
    ∷ 0xab ∷ 0x76 ∷ 0xca ∷ 0x82 ∷ 0xc9 ∷ 0x7d ∷ 0xfa ∷ 0x59 ∷ 0x47 ∷ 0xf0 ∷ 0xad ∷ 0xd4 ∷ 0xa2
    ∷ 0xaf ∷ 0x9c ∷ 0xa4 ∷ 0x72 ∷ 0xc0 ∷ 0xb7 ∷ 0xfd ∷ 0x93 ∷ 0x26 ∷ 0x36 ∷ 0x3f ∷ 0xf7 ∷ 0xcc
    ∷ 0x34 ∷ 0xa5 ∷ 0xe5 ∷ 0xf1 ∷ 0x71 ∷ 0xd8 ∷ 0x31 ∷ 0x15 ∷ 0x04 ∷ 0xc7 ∷ 0x23 ∷ 0xc3 ∷ 0x18
    ∷ 0x96 ∷ 0x05 ∷ 0x9a ∷ 0x07 ∷ 0x12 ∷ 0x80 ∷ 0xe2 ∷ 0xeb ∷ 0x27 ∷ 0xb2 ∷ 0x75 ∷ 0x09 ∷ 0x83
    ∷ 0x2c ∷ 0x1a ∷ 0x1b ∷ 0x6e ∷ 0x5a ∷ 0xa0 ∷ 0x52 ∷ 0x3b ∷ 0xd6 ∷ 0xb3 ∷ 0x29 ∷ 0xe3 ∷ 0x2f
    ∷ 0x84 ∷ 0x53 ∷ 0xd1 ∷ 0x00 ∷ 0xed ∷ 0x20 ∷ 0xfc ∷ 0xb1 ∷ 0x5b ∷ 0x6a ∷ 0xcb ∷ 0xbe ∷ 0x39
    ∷ 0x4a ∷ 0x4c ∷ 0x58 ∷ 0xcf ∷ 0xd0 ∷ 0xef ∷ 0xaa ∷ 0xfb ∷ 0x43 ∷ 0x4d ∷ 0x33 ∷ 0x85 ∷ 0x45
    ∷ 0xf9 ∷ 0x02 ∷ 0x7f ∷ 0x50 ∷ 0x3c ∷ 0x9f ∷ 0xa8 ∷ 0x51 ∷ 0xa3 ∷ 0x40 ∷ 0x8f ∷ 0x92 ∷ 0x9d
    ∷ 0x38 ∷ 0xf5 ∷ 0xbc ∷ 0xb6 ∷ 0xda ∷ 0x21 ∷ 0x10 ∷ 0xff ∷ 0xf3 ∷ 0xd2 ∷ 0xcd ∷ 0x0c ∷ 0x13
    ∷ 0xec ∷ 0x5f ∷ 0x97 ∷ 0x44 ∷ 0x17 ∷ 0xc4 ∷ 0xa7 ∷ 0x7e ∷ 0x3d ∷ 0x64 ∷ 0x5d ∷ 0x19 ∷ 0x73
    ∷ 0x60 ∷ 0x81 ∷ 0x4f ∷ 0xdc ∷ 0x22 ∷ 0x2a ∷ 0x90 ∷ 0x88 ∷ 0x46 ∷ 0xee ∷ 0xb8 ∷ 0x14 ∷ 0xde
    ∷ 0x5e ∷ 0x0b ∷ 0xdb ∷ 0xe0 ∷ 0x32 ∷ 0x3a ∷ 0x0a ∷ 0x49 ∷ 0x06 ∷ 0x24 ∷ 0x5c ∷ 0xc2 ∷ 0xd3
    ∷ 0xac ∷ 0x62 ∷ 0x91 ∷ 0x95 ∷ 0xe4 ∷ 0x79 ∷ 0xe7 ∷ 0xc8 ∷ 0x37 ∷ 0x6d ∷ 0x8d ∷ 0xd5 ∷ 0x4e
    ∷ 0xa9 ∷ 0x6c ∷ 0x56 ∷ 0xf4 ∷ 0xea ∷ 0x65 ∷ 0x7a ∷ 0xae ∷ 0x08 ∷ 0xba ∷ 0x78 ∷ 0x25 ∷ 0x2e
    ∷ 0x1c ∷ 0xa6 ∷ 0xb4 ∷ 0xc6 ∷ 0xe8 ∷ 0xdd ∷ 0x74 ∷ 0x1f ∷ 0x4b ∷ 0xbd ∷ 0x8b ∷ 0x8a ∷ 0x70
    ∷ 0x3e ∷ 0xb5 ∷ 0x66 ∷ 0x48 ∷ 0x03 ∷ 0xf6 ∷ 0x0e ∷ 0x61 ∷ 0x35 ∷ 0x57 ∷ 0xb9 ∷ 0x86 ∷ 0xc1
    ∷ 0x1d ∷ 0x9e ∷ 0xe1 ∷ 0xf8 ∷ 0x98 ∷ 0x11 ∷ 0x69 ∷ 0xd9 ∷ 0x8e ∷ 0x94 ∷ 0x9b ∷ 0x1e ∷ 0x87
    ∷ 0xe9 ∷ 0xce ∷ 0x55 ∷ 0x28 ∷ 0xdf ∷ 0x8c ∷ 0xa1 ∷ 0x89 ∷ 0x0d ∷ 0xbf ∷ 0xe6 ∷ 0x42 ∷ 0x68
    ∷ 0x41 ∷ 0x99 ∷ 0x2d ∷ 0x0f ∷ 0xb0 ∷ 0x54 ∷ 0xbb ∷ 0x16 ∷ []

-- Byte by byte, up to the shorter.
unfoldable pub xor_bytes : List ℕ → List ℕ → List ℕ
xor_bytes [] ys = []
xor_bytes (x ∷ xs) [] = []
xor_bytes (x ∷ xs) (y ∷ ys) = bit_xor x y ∷ xor_bytes xs ys

abbrev sub : ℕ → ℕ
sub x = get_or s_box x 0

unfoldable pub xtime : ℕ → ℕ
xtime x = bit_xor (u8 (x * 2)) (if x / 128 % 2 != 0 then 0x1B else 0)

-- The last three words of a round key, from the word before.
expand_words : List ℕ → List ℕ → ℕ → List ℕ
unfolding xor_bytes
expand_words word rest zero = word
expand_words word rest (suc n) = word ++ expand_words (xor_bytes rest word) (drop 4 rest) n

-- The next round key.
unfoldable pub next_key : List ℕ → ℕ → List ℕ
unfolding expand_words xor_bytes
next_key prev rcon =
    let t =
      bit_xor (sub (get_or prev 13 0)) rcon
      ∷ sub (get_or prev 14 0)
      ∷ sub (get_or prev 15 0)
      ∷ sub (get_or prev 12 0)
      ∷ [] in
    expand_words (xor_bytes t prev) (drop 4 prev) 3

next_keys : List ℕ → List ℕ → List (List ℕ)
unfolding next_key
next_keys prev [] = []
next_keys prev (rcon ∷ rest) = let cur = next_key prev rcon in cur ∷ next_keys cur rest

abbrev rcons : List ℕ
rcons = 0x01 ∷ 0x02 ∷ 0x04 ∷ 0x08 ∷ 0x10 ∷ 0x20 ∷ 0x40 ∷ 0x80 ∷ 0x1B ∷ 0x36 ∷ []

unfoldable pub expand_key : List ℕ → List (List ℕ)
unfolding next_keys
expand_key key = key ∷ next_keys key rcons

-- The rows of the state, which stands in columns.
unfoldable pub shift_rows : List ℕ → List ℕ
shift_rows s =
    let at = λ (i : ℕ). get_or s i 0 in
    at 0
    ∷ at 5
    ∷ at 10
    ∷ at 15
    ∷ at 4
    ∷ at 9
    ∷ at 14
    ∷ at 3
    ∷ at 8
    ∷ at 13
    ∷ at 2
    ∷ at 7
    ∷ at 12
    ∷ at 1
    ∷ at 6
    ∷ at 11
    ∷ []

unfoldable pub mix_column : ℕ → ℕ → ℕ → ℕ → List ℕ
unfolding xtime
mix_column a0 a1 a2 a3 =
    let x0 = xtime a0 in
    let x1 = xtime a1 in
    let x2 = xtime a2 in
    let x3 = xtime a3 in
    bit_xor (bit_xor (bit_xor x0 (bit_xor x1 a1)) a2) a3
    ∷ bit_xor (bit_xor (bit_xor a0 x1) (bit_xor x2 a2)) a3
    ∷ bit_xor (bit_xor (bit_xor a0 a1) x2) (bit_xor x3 a3)
    ∷ bit_xor (bit_xor (bit_xor (bit_xor x0 a0) a1) a2) x3
    ∷ []

unfoldable pub mix_columns : List ℕ → List ℕ
unfolding mix_column
mix_columns (a0 ∷ (a1 ∷ (a2 ∷ (a3 ∷ rest)))) = mix_column a0 a1 a2 a3 ++ mix_columns rest
mix_columns rest = rest

rounds : List ℕ → List (List ℕ) → List ℕ
unfolding shift_rows mix_columns xor_bytes
rounds s [] = s
rounds s (k ∷ []) = xor_bytes (shift_rows (map sub s)) k
rounds s (k ∷ (k' ∷ ks)) = rounds (xor_bytes (mix_columns (shift_rows (map sub s))) k) (k' ∷ ks)

unfoldable pub encrypt_block : List (List ℕ) → List ℕ → List ℕ
unfolding rounds xor_bytes
encrypt_block [] block = block
encrypt_block (k ∷ ks) block = rounds (xor_bytes block k) ks
