-- ===== src/Ota/Policy/Hex.antt =====
-- The text of a digest.
use desky.Prelude.{
  ℕ, ◌*◌, ◌/◌, ◌%◌, ◌<◌, ◌≡◌, refl, arith, true, List, [], ◌∷◌, ◌==◌, length, cells,
}
use desky.Ota.Manifest.{is_hex_char, all_hex, is_hex64}
use desky.Ota.Policy.{lower_hex, same_hex, manifest_matches, hex_digit, hex_pairs, bytes_to_hex64}

hex_digit-is_hex_char : (v : ℕ) → v < 16 → is_hex_char (hex_digit v) ≡ true
hex_digit-is_hex_char v h = ground arith

all_hex-hex_pairs : (bs : List ℕ) → all_hex (hex_pairs bs) ≡ true
all_hex-hex_pairs [] = refl
all_hex-hex_pairs (b ∷ bs) =
    rw
      (
        hex_digit-is_hex_char (b / 16 % 16) (omega arith),
        hex_digit-is_hex_char (b % 16) (omega arith),
      )
      (all_hex-hex_pairs bs)

length-hex_pairs : (bs : List ℕ) → length (hex_pairs bs) ≡ 2 * length bs
length-hex_pairs [] = refl
length-hex_pairs (b ∷ bs) = let h = length-hex_pairs bs in omega arith

-- The text of a digest is one that is accepted.
pub bytes_to_hex64-is_hex64 : (digest : List ℕ) → is_hex64 (bytes_to_hex64 digest) ≡ true
unfolding is_hex64 bytes_to_hex64
bytes_to_hex64-is_hex64 digest = rw (all_hex-hex_pairs (cells 0 32 digest)) refl

same_hex_refl : (xs : List ℕ) → same_hex xs xs ≡ true
same_hex_refl [] = refl
same_hex_refl (x ∷ xs) =
    let h : (lower_hex x == lower_hex x) ≡ true = ground arith in rw h (same_hex_refl xs)

pub manifest_matches_refl : (xs : List ℕ) → is_hex64 xs ≡ true → manifest_matches xs xs ≡ true
unfolding manifest_matches
manifest_matches_refl xs h = rw h (same_hex_refl xs)
