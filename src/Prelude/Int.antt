-- ===== src/Prelude/Int.antt =====
-- Signed integers over the native numbers.
use Prim.Native.Nat.{ℕ, ◌-◌, ◌%◌, ◌^◌, ◌<◌}
use mathlib.Core.Path.{◌≡◌}
use mathlib.Core.Bool.{Bool, true, false}
use native.Mathlib.Omega.{arith}
use desky.Prelude.Tests.{ltb, leb, if◌then◌else◌}

-- `negsuc n` is -(n + 1).
pub data ℤ : Type 0 where
  pos : ℕ → ℤ
  negsuc : ℕ → ℤ

-- a - b, as an integer.
abbrev pub sub_ℕ : ℕ → ℕ → ℤ
sub_ℕ a b = if leb b a then pos (a - b) else negsuc (b - a - 1)

abbrev pub ltb_ℤ : ℤ → ℤ → Bool
ltb_ℤ (pos a) (pos b) = ltb a b
ltb_ℤ (pos a) (negsuc b) = false
ltb_ℤ (negsuc a) (pos b) = true
ltb_ℤ (negsuc a) (negsuc b) = ltb b a

-- The tests `x > 0`, `x < 0` and `x != 0`.
abbrev pub is_pos : ℤ → Bool
is_pos (pos n) = ltb 0 n
is_pos (negsuc n) = false

abbrev pub is_neg : ℤ → Bool
is_neg (pos n) = false
is_neg (negsuc n) = true

abbrev pub is_nonzero : ℤ → Bool
is_nonzero (pos n) = ltb 0 n
is_nonzero (negsuc n) = true

-- An intN_t is read from and written to its two's complement pattern.
abbrev pub to_word : ℕ → ℤ → ℕ
to_word w (pos n) = n % 2 ^ w
to_word w (negsuc n) = 2 ^ w - 1 - n % 2 ^ w

abbrev pub signed16 : ℕ → ℤ
signed16 n = if ltb n (2 ^ 15) then pos n else negsuc (2 ^ 16 - 1 - n)

abbrev pub signed8 : ℕ → ℤ
signed8 n = if ltb n (2 ^ 7) then pos n else negsuc (2 ^ 8 - 1 - n)

-- The range of an integer of `suc w` bits.
abbrev pub Fits : ℕ → ℤ → Type 0
Fits w (pos n) = n < 2 ^ w
Fits w (negsuc n) = n < 2 ^ w

pub signed16-to_word : (z : ℤ) → Fits 15 z → signed16 (to_word 16 z) ≡ z
signed16-to_word (pos n) h = ground arith
signed16-to_word (negsuc n) h = ground arith

pub to_word-signed16 : (n : ℕ) → n < 2 ^ 16 → to_word 16 (signed16 n) ≡ n
to_word-signed16 n h = ground arith

pub signed8-to_word : (z : ℤ) → Fits 7 z → signed8 (to_word 8 z) ≡ z
signed8-to_word (pos n) h = ground arith
signed8-to_word (negsuc n) h = ground arith

pub to_word-lt : (z : ℤ) → (to_word 16 z < 2 ^ 16) × (to_word 8 z < 2 ^ 8)
to_word-lt (pos n) = omega arith
to_word-lt (negsuc n) = omega arith
