-- ===== src/Link/Crypto.antt =====
-- The sealing of the credentials: `seal` and `open` of embedded/shared/link/link_crypto.h with the
-- portable AES-GCM behind them. A key is provisioned; buffers are large enough.
pub mod Aes
pub mod Opens
pub mod Sha256
use desky.Prelude.{
  ℕ, zero, suc, ◌+◌, ◌-◌, ◌*◌, ◌/◌, ◌%◌, Bool, true, false, not, Option, none, some, List, [], ◌∷◌,
  ◌++◌, bit_xor, u8, u32, ltb, ◌==◌, ◌!=◌, if◌then◌else◌, length, get_or, take, drop,
}
use desky.Udp.Rx.{diff_from}
use desky.Link.{put_u32_be, get_u32_be}
use desky.Link.Crypto.Aes.{xor_bytes, expand_key, encrypt_block}

abbrev pub key_len : ℕ
key_len = 16

abbrev pub nonce_len : ℕ
nonce_len = 12

abbrev pub tag_len : ℕ
tag_len = 16

unfoldable pub provision : List ℕ → Option (List ℕ)
provision secret = if length secret != key_len then none else some secret

unfoldable pub make_counter_nonce : ℕ → List ℕ
make_counter_nonce counter = 0 ∷ 0 ∷ 0 ∷ 0 ∷ 0 ∷ 0 ∷ 0 ∷ 0 ∷ put_u32_be counter

abbrev pub zeroes : ℕ → List ℕ
zeroes zero = []
zeroes (suc n) = 0 ∷ zeroes n

-- The bytes shifted right by a bit, with the bit that comes in.
shift_right : ℕ → List ℕ → List ℕ
shift_right carry [] = []
shift_right carry (b ∷ bs) = (carry * 128 + b / 2) ∷ shift_right (b % 2) bs

-- The top byte reduced, when a bit has gone out.
abbrev reduce : Bool → List ℕ → List ℕ
reduce out [] = []
reduce out (b ∷ bs) = (if out then bit_xor b 0xE1 else b) ∷ bs

unfoldable pub double : List ℕ → List ℕ
unfolding shift_right
double v = reduce (get_or v 15 0 % 2 != 0) (shift_right 0 v)

-- `n` bits of `b` from the top: the sum so far, and the multiple.
mul_bits : ℕ → ℕ → List ℕ → List ℕ → List ℕ × List ℕ
unfolding double xor_bytes
mul_bits zero b z v = (z, v)
mul_bits (suc n) b z v =
    mul_bits n (u8 (b * 2)) (if b / 128 % 2 != 0 then xor_bytes z v else z) (double v)

mul_from : List ℕ → List ℕ → List ℕ → List ℕ
unfolding mul_bits
mul_from [] z v = z
mul_from (b ∷ bs) z v = let (z', v') = mul_bits 8 b z v in mul_from bs z' v'

unfoldable pub ghash_mul : List ℕ → List ℕ → List ℕ
unfolding mul_from
ghash_mul x h = mul_from x (zeroes 16) h

-- A block that is filled up with zeroes.
abbrev padded : List ℕ → List ℕ
padded bs = bs ++ zeroes (16 - length bs)

-- The blocks, at most `n` of them.
ghash_blocks : ℕ → List ℕ → List ℕ → List ℕ → List ℕ
unfolding ghash_mul xor_bytes
ghash_blocks zero h ct y = y
ghash_blocks (suc n) h ct y =
    let rest = ghash_blocks n h (drop 16 ct) (ghash_mul (xor_bytes (padded (take 16 ct)) y) h) in
    if length ct == 0 then y else rest

unfoldable pub ghash : List ℕ → List ℕ → List ℕ
unfolding ghash_blocks ghash_mul xor_bytes
ghash h ct =
    let bits = length ct * 8 in
    let lens = zeroes 8 ++ (put_u32_be (bits / 4294967296) ++ put_u32_be bits) in
    ghash_mul (xor_bytes lens (ghash_blocks (length ct) h ct (zeroes 16))) h

-- The key stream over the bytes, at most `n` blocks of it; `c` is the counter of the block before.
crypt_blocks : ℕ → List (List ℕ) → List ℕ → ℕ → List ℕ → List ℕ
unfolding encrypt_block xor_bytes
crypt_blocks zero rk nonce c bs = []
crypt_blocks (suc n) rk nonce c bs =
    let c' = u32 (c + 1) in
    let rest = crypt_blocks n rk nonce c' (drop 16 bs) in
    if length bs == 0
    then []
    else xor_bytes (take 16 bs) (encrypt_block rk (nonce ++ put_u32_be c')) ++ rest

unfoldable pub crypt : List (List ℕ) → List ℕ → List ℕ → List ℕ
unfolding crypt_blocks
crypt rk nonce bs = crypt_blocks (length bs) rk nonce 1 bs

-- The tag of the encrypted bytes.
unfoldable pub tag : List (List ℕ) → List ℕ → List ℕ → List ℕ
unfolding ghash encrypt_block xor_bytes
tag rk nonce ct =
    xor_bytes (ghash (encrypt_block rk (zeroes 16)) ct) (encrypt_block rk (nonce ++ put_u32_be 1))

unfoldable pub seal : List ℕ → List ℕ → List ℕ → List ℕ
unfolding expand_key crypt tag
seal key nonce plain =
    let rk = expand_key key in let ct = crypt rk nonce plain in ct ++ tag rk nonce ct

unfoldable pub tag_equal : List ℕ → List ℕ → Bool
tag_equal a b = diff_from 0 a b == 0

unfoldable pub open' : List ℕ → List ℕ → List ℕ → Option (List ℕ)
unfolding expand_key crypt tag tag_equal
open' key nonce sealed =
    let rk = expand_key key in
    let body = take (length sealed - tag_len) sealed in
    if ltb (length sealed) tag_len
    then none
    else if not (tag_equal (tag rk nonce body) (drop (length sealed - tag_len) sealed))
    then none
    else some (crypt rk nonce body)
