-- ===== src/Link/Crypto/Opens.antt =====
-- What is sealed opens.
use mathlib.Core.List.{append-nil}
use desky.Prelude.{
  ℕ, zero, suc, ◌+◌, ◌-◌, ◌<◌, ◌≤◌, ◌≡◌, refl, ap, ap₂, sym, ◌∙◌, arith, Bool, true, false, some,
  List, [], ◌∷◌, ◌++◌, length, take, drop, take-append, drop-append, length-append, length-take,
  length-drop, Each, ltb, ◌==◌, if◌then◌else◌, u32, u8, Bool-cases, inl, inr, min, ◌/◌, ◌*◌, ◌%◌,
  ◌!=◌, take-append-drop, take_le, drop_le, ◌⊎◌,
}
use desky.Prelude.Bits.{bit_xor_self, bit_xor_cancel}
use desky.Udp.Rx.{diff_from}
use desky.Link.{put_u32_be}
use desky.Link.Crypto.Aes.{xor_bytes, expand_key, encrypt_block}
use desky.Link.Crypto.Aes.Lengths.{
  IsBlock, xor_bytes-length, expand_key-IsBlock, encrypt_block-IsBlock,
}
use desky.Link.Crypto.{
  zeroes, shift_right, reduce, double, mul_bits, mul_from, ghash_mul, ghash_blocks, ghash,
  crypt_blocks, crypt, tag, seal, tag_equal, open',
}

shift_right-length : (carry : ℕ) (v : List ℕ) → length (shift_right carry v) ≡ length v
unfolding shift_right
shift_right-length carry [] = refl
shift_right-length carry (b ∷ bs) = ap suc (shift_right-length (b % 2) bs)

reduce-length : (out : Bool) (v : List ℕ) → length (reduce out v) ≡ length v
reduce-length out [] = refl
reduce-length out (b ∷ bs) = refl

double-IsBlock : (v : List ℕ) → IsBlock v → IsBlock (double v)
unfolding double
double-IsBlock v h = reduce-length _ (shift_right 0 v) ∙ shift_right-length 0 v ∙ h

if-IsBlock : (b : Bool) (x y : List ℕ) → IsBlock x → IsBlock y → IsBlock (if b then x else y)
if-IsBlock true x y p q = p
if-IsBlock false x y p q = q

mul_bits-IsBlock :
    (n b : ℕ) (z v : List ℕ)
    → IsBlock z
    → IsBlock v
    → IsBlock (mul_bits n b z v).0 × IsBlock (mul_bits n b z v).1
unfolding mul_bits
mul_bits-IsBlock zero b z v h k = (h, k)
mul_bits-IsBlock (suc n) b z v h k =
    let summed : IsBlock (xor_bytes z v) = omega (arith, xor_bytes-length z v) in
    mul_bits-IsBlock n (u8 (b * 2)) _ (double v)
      (if-IsBlock (b / 128 % 2 != 0) (xor_bytes z v) z summed h) (double-IsBlock v k)

mul_from-IsBlock : (x z v : List ℕ) → IsBlock z → IsBlock v → IsBlock (mul_from x z v)
unfolding mul_from
mul_from-IsBlock [] z v h k = h
mul_from-IsBlock (b ∷ bs) z v h k =
    let (h', k') = mul_bits-IsBlock 8 b z v h k in
    mul_from-IsBlock bs (mul_bits 8 b z v).0 (mul_bits 8 b z v).1 h' k'

ghash_mul-IsBlock : (x h : List ℕ) → IsBlock h → IsBlock (ghash_mul x h)
unfolding ghash_mul
ghash_mul-IsBlock x h b = mul_from-IsBlock x (zeroes 16) h refl b

ghash-IsBlock : (h ct : List ℕ) → IsBlock h → IsBlock (ghash h ct)
unfolding ghash
ghash-IsBlock h ct b =
    ghash_mul-IsBlock
      (xor_bytes
        (zeroes 8 ++ (put_u32_be (length ct * 8 / 4294967296) ++ put_u32_be (length ct * 8)))
        (ghash_blocks (length ct) h ct (zeroes 16)))
      h b

xor_bytes_cancel : (xs ks : List ℕ) → length xs ≤ length ks → xor_bytes (xor_bytes xs ks) ks ≡ xs
unfolding xor_bytes
xor_bytes_cancel [] ks h = refl
xor_bytes_cancel (x ∷ xs) [] h = absurd (omega arith)
xor_bytes_cancel (x ∷ xs) (k ∷ ks) h =
    ap₂ (λ (a : ℕ) (l : List ℕ). a ∷ l) (bit_xor_cancel x k) (xor_bytes_cancel xs ks (omega arith))

diff_from_self : (xs : List ℕ) → diff_from 0 xs xs ≡ 0
diff_from_self [] = refl
diff_from_self (x ∷ xs) = rw (bit_xor_self x) (diff_from_self xs)

tag_equal_self : (xs : List ℕ) → tag_equal xs xs ≡ true
unfolding tag_equal
tag_equal_self xs = rw (diff_from_self xs) refl

-- The first block of a text that is cut in blocks.
split_block :
    (o r : List ℕ)
    → (length o ≡ 16) ⊎ ((length o ≤ 16) × (r ≡ []))
    → (take 16 (o ++ r) ≡ o) × (drop 16 (o ++ r) ≡ r)
split_block o r (inl h) = (take-append o r 16 h, drop-append o r 16 h)
split_block o r (inr h) =
    let e : o ++ r ≡ o = ap (λ l. o ++ l) h.1 ∙ append-nil o in
    (ap (take 16) e ∙ take_le 16 o h.0, ap (drop 16) e ∙ drop_le 16 o h.0 ∙ sym h.1)

module _ (rk : List (List ℕ)) (nonce : List ℕ) (keys : Each IsBlock rk)
    (sized : length nonce ≡ 12) where
  stream-IsBlock : (c : ℕ) → IsBlock (encrypt_block rk (nonce ++ put_u32_be c))
  stream-IsBlock c =
      encrypt_block-IsBlock rk _ keys (omega (arith, length-append nonce (put_u32_be c)))

  tag-IsBlock : (ct : List ℕ) → IsBlock (tag rk nonce ct)
  unfolding tag
  tag-IsBlock ct =
      let h = encrypt_block-IsBlock rk (zeroes 16) keys refl in
      let g = ghash-IsBlock (encrypt_block rk (zeroes 16)) ct h in
      omega (
        arith,
        stream-IsBlock 1,
        xor_bytes-length (ghash (encrypt_block rk (zeroes 16)) ct)
            (encrypt_block rk (nonce ++ put_u32_be 1)),
      )

  -- One block of the stream over the next bytes.
  abbrev over : ℕ → List ℕ → List ℕ
  over c bs = xor_bytes (take 16 bs) (encrypt_block rk (nonce ++ put_u32_be (u32 (c + 1))))

  length-over : (c : ℕ) (bs : List ℕ) → length (over c bs) ≡ min 16 (length bs)
  length-over c bs = omega (
    arith,
    length-take 16 bs,
    stream-IsBlock (u32 (c + 1)),
    xor_bytes-length (take 16 bs) (encrypt_block rk (nonce ++ put_u32_be (u32 (c + 1)))),
  )

  crypt_blocks-nil : (n c : ℕ) → crypt_blocks n rk nonce c [] ≡ []
  unfolding crypt_blocks
  crypt_blocks-nil zero c = refl
  crypt_blocks-nil (suc n) c = refl

  crypt_blocks-suc :
      (n c : ℕ) (bs : List ℕ)
      → 0 < length bs
      → crypt_blocks (suc n) rk nonce c bs
        ≡ over c bs ++ crypt_blocks n rk nonce (u32 (c + 1)) (drop 16 bs)
  unfolding crypt_blocks
  crypt_blocks-suc n c bs h =
      let g : (length bs == 0) ≡ false = ground arith in rw (g, crypt_blocks) refl

  crypt_blocks-length :
      (n c : ℕ) (bs : List ℕ) → length bs ≤ n → length (crypt_blocks n rk nonce c bs) ≡ length bs
  crypt_blocks-length n c [] h = ap length (crypt_blocks-nil n c)
  crypt_blocks-length zero c (b ∷ bs) h = absurd (omega arith)
  crypt_blocks-length (suc n) c (b ∷ bs) h =
      let all = b ∷ bs in
      let rest = crypt_blocks n rk nonce (u32 (c + 1)) (drop 16 all) in
      ap length (crypt_blocks-suc n c all (omega arith))
      ∙ omega (
        arith,
        length-append (over c all) rest,
        length-over c all,
        length-drop 16 all,
        crypt_blocks-length n (u32 (c + 1)) (drop 16 all) (omega (arith, length-drop 16 all)),
      )

  -- The first block is whole, or it is the last.
  whole :
      (n c : ℕ) (bs : List ℕ)
      → 0 < length bs
      → (length (over c bs) ≡ 16)
        ⊎ ((length (over c bs) ≤ 16) × (crypt_blocks n rk nonce (u32 (c + 1)) (drop 16 bs) ≡ []))
  whole n c bs h = elim (Bool-cases (ltb (length bs) 16)) [
    | inl short ↦ inr (
      omega (arith, length-over c bs),
      ap (crypt_blocks n rk nonce (u32 (c + 1))) (drop_le 16 bs (ground arith))
          ∙ crypt_blocks-nil n (u32 (c + 1)),
    )
    | inr long ↦ inl (ground (arith, length-over c bs))
  ]

  -- The second time over the bytes gives them back, also with other fuel.
  crypt_blocks_cancel :
      (n m c : ℕ) (bs : List ℕ)
      → length bs ≤ n
      → length bs ≤ m
      → crypt_blocks m rk nonce c (crypt_blocks n rk nonce c bs) ≡ bs
  crypt_blocks_cancel n m c [] h k =
      ap (crypt_blocks m rk nonce c) (crypt_blocks-nil n c) ∙ crypt_blocks-nil m c
  crypt_blocks_cancel zero m c (b ∷ bs) h k = absurd (omega arith)
  crypt_blocks_cancel (suc n) zero c (b ∷ bs) h k = absurd (omega arith)
  crypt_blocks_cancel (suc n) (suc m) c (b ∷ bs) h k =
      let all = b ∷ bs in
      let c' = u32 (c + 1) in
      let o = over c all in
      let left = length-drop 16 all in
      let r = crypt_blocks n rk nonce c' (drop 16 all) in
      let once = crypt_blocks-suc n c all (omega arith) in
      let sizes = crypt_blocks-length (suc n) c all h in
      let (head, tail) = split_block o r (whole n c all (omega arith)) in
      let again = crypt_blocks-suc m c (o ++ r) (omega (arith, ap length once)) in
      ap (crypt_blocks (suc m) rk nonce c) once
      ∙ again
      ∙ ap₂ (λ (x y : List ℕ). x ++ y)
          (ap (λ l. xor_bytes l (encrypt_block rk (nonce ++ put_u32_be c'))) head
            ∙ xor_bytes_cancel (take 16 all) (encrypt_block rk (nonce ++ put_u32_be c'))
                (omega (arith, length-take 16 all, stream-IsBlock c')))
          (ap (crypt_blocks m rk nonce c') tail
            ∙ crypt_blocks_cancel n m c' (drop 16 all) (omega arith) (omega arith))
      ∙ take-append-drop 16 all

  crypt_cancel : (plain : List ℕ) → crypt rk nonce (crypt rk nonce plain) ≡ plain
  unfolding crypt
  crypt_cancel plain =
      let n = length plain in
      let same = crypt_blocks-length n 1 plain (omega arith) in
      crypt_blocks_cancel n (length (crypt_blocks n rk nonce 1 plain)) 1 plain (omega arith)
        (omega arith)

  length-crypt : (plain : List ℕ) → length (crypt rk nonce plain) ≡ length plain
  unfolding crypt
  length-crypt plain = crypt_blocks-length (length plain) 1 plain (omega arith)

-- Where the tag is cut off.
cut_tag :
    (ct t : List ℕ)
    → IsBlock t
    → (ltb (length (ct ++ t)) 16 ≡ false)
      × (length (ct ++ t) ≡ length ct + 16)
      × (take (length (ct ++ t) - 16) (ct ++ t) ≡ ct)
      × (drop (length (ct ++ t) - 16) (ct ++ t) ≡ t)
cut_tag ct t h =
    let sum = length-append ct t in
    let at : length ct ≡ length (ct ++ t) - 16 = omega arith in
    (ground arith, omega arith, take-append ct t _ at, drop-append ct t _ at)

-- What is sealed with a key of 16 bytes and a nonce of 12 opens with them to the same bytes; the
-- tag makes it 16 bytes longer.
pub open'-seal :
    (key nonce plain : List ℕ)
    → length key ≡ 16
    → length nonce ≡ 12
    → (open' key nonce (seal key nonce plain) ≡ some plain)
      × (length (seal key nonce plain) ≡ length plain + 16)
unfolding open' seal
open'-seal key nonce plain k n =
    let rk = expand_key key in
    let keys = expand_key-IsBlock key k in
    let ct = crypt rk nonce plain in
    let (long, sum, body, end) = cut_tag ct (tag rk nonce ct) (tag-IsBlock rk nonce keys n ct) in
    (
      rw (long, body, end, tag_equal_self, crypt_cancel rk nonce keys n plain) refl,
      sum ∙ ap (λ l. l + 16) (length-crypt rk nonce keys n plain),
    )
