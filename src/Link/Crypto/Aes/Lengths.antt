-- ===== src/Link/Crypto/Aes/Lengths.antt =====
-- Blocks stay blocks of 16 bytes.
use mathlib.Core.List.{map}
use desky.Prelude.{
  ℕ, zero, suc, ◌+◌, ◌≤◌, ◌≡◌, refl, arith, List, [], ◌∷◌, length, Each, length-append, length-drop,
  drop, min, ◌*◌,
}
use desky.Link.Crypto.Aes.{
  sub, xor_bytes, expand_words, next_key, next_keys, rcons, expand_key, shift_rows, mix_columns,
  rounds, encrypt_block,
}

abbrev pub IsBlock : List ℕ → Type 0
IsBlock b = length b ≡ 16

pub xor_bytes-length : (xs ys : List ℕ) → length (xor_bytes xs ys) ≡ min (length xs) (length ys)
unfolding xor_bytes
xor_bytes-length [] ys = omega arith
xor_bytes-length (x ∷ xs) [] = omega arith
xor_bytes-length (x ∷ xs) (y ∷ ys) = omega (arith, xor_bytes-length xs ys)

expand_words-length :
    (n : ℕ) (word rest : List ℕ)
    → length word ≡ 4
    → 4 * n ≤ length rest
    → length (expand_words word rest n) ≡ 4 + 4 * n
unfolding expand_words
expand_words-length zero word rest w h = omega arith
expand_words-length (suc n) word rest w h =
    let next = xor_bytes rest word in
    let l = xor_bytes-length rest word in
    let d = length-drop 4 rest in
    omega (
      arith,
      length-append word (expand_words next (drop 4 rest) n),
      expand_words-length n next (drop 4 rest) (omega arith) (omega arith),
    )

next_key-IsBlock : (prev : List ℕ) (rcon : ℕ) → IsBlock prev → IsBlock (next_key prev rcon)
unfolding next_key
next_key-IsBlock prev rcon h =
    expand_words-length 3 _ (drop 4 prev) (omega (arith, xor_bytes-length _ prev))
      (omega (arith, length-drop 4 prev))

next_keys-IsBlock : (rcons prev : List ℕ) → IsBlock prev → Each IsBlock (next_keys prev rcons)
unfolding next_keys
next_keys-IsBlock [] prev h = tt
next_keys-IsBlock (rcon ∷ rest) prev h =
    let b = next_key-IsBlock prev rcon h in (b, next_keys-IsBlock rest (next_key prev rcon) b)

pub expand_key-IsBlock : (key : List ℕ) → IsBlock key → Each IsBlock (expand_key key)
unfolding expand_key
expand_key-IsBlock key h = (h, next_keys-IsBlock rcons key h)

mix_columns-length : (s : List ℕ) → length (mix_columns s) ≡ length s
unfolding mix_columns
mix_columns-length [] = refl
mix_columns-length (a ∷ []) = refl
mix_columns-length (a ∷ (b ∷ [])) = refl
mix_columns-length (a ∷ (b ∷ (c ∷ []))) = refl
mix_columns-length (a ∷ (b ∷ (c ∷ (d ∷ rest)))) = omega (arith, mix_columns-length rest)

rounds-IsBlock :
    (ks : List (List ℕ)) (s : List ℕ) → IsBlock s → Each IsBlock ks → IsBlock (rounds s ks)
unfolding rounds shift_rows
rounds-IsBlock [] s h k = h
rounds-IsBlock (k ∷ []) s h ks =
    let b = ks.0 in omega (arith, xor_bytes-length (shift_rows (map sub s)) k)
rounds-IsBlock (k ∷ (k' ∷ rest)) s h ks =
    let b = ks.0 in
    let m = mix_columns-length (shift_rows (map sub s)) in
    let x = xor_bytes-length (mix_columns (shift_rows (map sub s))) k in
    rounds-IsBlock (k' ∷ rest) _ (omega arith) ks.1

pub encrypt_block-IsBlock :
    (rk : List (List ℕ)) (block : List ℕ)
    → Each IsBlock rk
    → IsBlock block
    → IsBlock (encrypt_block rk block)
unfolding encrypt_block
encrypt_block-IsBlock [] block ks h = h
encrypt_block-IsBlock (k ∷ ks) block h b =
    let l = h.0 in rounds-IsBlock ks _ (omega (arith, xor_bytes-length block k)) h.1
