-- ===== src/Prelude/Bits.antt =====
-- Laws of `|` and `^` at variables, from the digit recursion that the native operations stand for.
use Prim.Native.Nat.{ℕ, zero, suc, ◌+◌, ◌*◌, ◌/◌, ◌%◌, ◌^◌, ◌≤◌, ◌<◌, max}
use Prim.Native.Nat.{bit_or, bit_xor, digits, differ, bit_or-bitwise, bit_xor-bitwise}
use mathlib.Core.Path.{◌≡◌, refl, sym, ◌∙◌, ap, ap₂}
use native.Mathlib.Nat.{pow-suc}
use native.Mathlib.Omega.{arith}

-- The count of digits does not matter once it covers the first number.
digits_enough :
    (f : ℕ → ℕ → ℕ) (n m a b : ℕ)
    → a ≤ n
    → a ≤ m
    → digits (λ y. y) f n a b ≡ digits (λ y. y) f m a b
digits_enough f zero zero a b p q = refl
digits_enough f zero (suc m) zero b p q = refl
digits_enough f zero (suc m) (suc a) b p q = absurd (omega arith)
digits_enough f (suc n) zero zero b p q = refl
digits_enough f (suc n) zero (suc a) b p q = absurd (omega arith)
digits_enough f (suc n) (suc m) zero b p q = refl
digits_enough f (suc n) (suc m) (suc a) b p q =
    ap (λ t. t * 2 + f (suc a % 2) (b % 2))
      (digits_enough f n m (suc a / 2) (b / 2) (omega arith) (omega arith))

-- The lowest digit split off.
pub bit_or_step : (a b : ℕ) → bit_or a b ≡ bit_or (a / 2) (b / 2) * 2 + max (a % 2) (b % 2)
bit_or_step zero b = omega (arith, bit_or-bitwise 0 b, bit_or-bitwise 0 (b / 2))
bit_or_step (suc a) b = omega (
  arith,
  bit_or-bitwise (suc a) b,
  bit_or-bitwise (suc a / 2) (b / 2),
  digits_enough max a (suc a / 2) (suc a / 2) (b / 2) (omega arith) (omega arith),
)

differ_lem : (x y : ℕ) → x < 2 → y < 2 → differ x y ≡ (x + y) % 2
differ_lem zero y p q = omega arith
differ_lem (suc zero) zero p q = refl
differ_lem (suc zero) (suc zero) p q = refl
differ_lem (suc zero) (suc (suc y)) p q = absurd (omega arith)
differ_lem (suc (suc x)) y p q = absurd (omega arith)

pub bit_xor_step : (a b : ℕ) → bit_xor a b ≡ bit_xor (a / 2) (b / 2) * 2 + (a % 2 + b % 2) % 2
bit_xor_step zero b = omega (arith, bit_xor-bitwise 0 b, bit_xor-bitwise 0 (b / 2))
bit_xor_step (suc a) b = omega (
  arith,
  bit_xor-bitwise (suc a) b,
  bit_xor-bitwise (suc a / 2) (b / 2),
  digits_enough differ a (suc a / 2) (suc a / 2) (b / 2) (omega arith) (omega arith),
  differ_lem (suc a % 2) (b % 2) (omega arith) (omega arith),
)

pub zero-bit_xor : (b : ℕ) → bit_xor 0 b ≡ b
zero-bit_xor b = bit_xor-bitwise 0 b

two_pow_suc : (k : ℕ) → 2 ^ suc k ≡ 2 * 2 ^ k
two_pow_suc k = omega (arith, pow-suc 2 k)

-- The laws of `^` on numbers of `k` bits.
pub bit_xor-lt : (k a b : ℕ) → a < 2 ^ k → b < 2 ^ k → bit_xor a b < 2 ^ k
bit_xor-lt zero zero b p q = omega (arith, zero-bit_xor b)
bit_xor-lt zero (suc a) b p q = absurd (omega arith)
bit_xor-lt (suc k) a b p q =
    let e = two_pow_suc k in
    omega (arith, bit_xor_step a b, bit_xor-lt k (a / 2) (b / 2) (omega arith) (omega arith))

bit_xor_parts :
    (a b : ℕ)
    → (bit_xor a b / 2 ≡ bit_xor (a / 2) (b / 2)) × (bit_xor a b % 2 ≡ (a % 2 + b % 2) % 2)
bit_xor_parts a b = omega (arith, bit_xor_step a b)

xor_comm_upto : (k a b : ℕ) → a < 2 ^ k → b < 2 ^ k → bit_xor a b ≡ bit_xor b a
xor_comm_upto zero zero zero p q = refl
xor_comm_upto zero zero (suc b) p q = absurd (omega arith)
xor_comm_upto zero (suc a) b p q = absurd (omega arith)
xor_comm_upto (suc k) a b p q =
    let e = two_pow_suc k in
    omega (
      arith,
      bit_xor_step a b,
      bit_xor_step b a,
      xor_comm_upto k (a / 2) (b / 2) (omega arith) (omega arith),
    )

xor_assoc_upto :
    (k a b c : ℕ)
    → a < 2 ^ k
    → b < 2 ^ k
    → c < 2 ^ k
    → bit_xor (bit_xor a b) c ≡ bit_xor a (bit_xor b c)
xor_assoc_upto zero zero b c p q r = rw (zero-bit_xor b, zero-bit_xor (bit_xor b c))
xor_assoc_upto zero (suc a) b c p q r = absurd (omega arith)
xor_assoc_upto (suc k) a b c p q r =
    let e = two_pow_suc k in
    bit_xor_step (bit_xor a b) c
    ∙ ap₂ (λ x y. x * 2 + y)
        (ap (λ x. bit_xor x (c / 2)) (bit_xor_parts a b).0
          ∙ xor_assoc_upto k (a / 2) (b / 2) (c / 2) (omega arith) (omega arith) (omega arith)
          ∙ ap (bit_xor (a / 2)) (sym (bit_xor_parts b c).0))
        (omega (arith, bit_xor_parts a b, bit_xor_parts b c))
    ∙ sym (bit_xor_step a (bit_xor b c))

xor_self_upto : (k a : ℕ) → a < 2 ^ k → bit_xor a a ≡ 0
xor_self_upto zero zero p = refl
xor_self_upto zero (suc a) p = absurd (omega arith)
xor_self_upto (suc k) a p =
    let e = two_pow_suc k in omega (arith, bit_xor_step a a, xor_self_upto k (a / 2) (omega arith))

bit_or-zero_upto : (k a : ℕ) → a < 2 ^ k → bit_or a 0 ≡ a
bit_or-zero_upto zero zero p = refl
bit_or-zero_upto zero (suc a) p = absurd (omega arith)
bit_or-zero_upto (suc k) a p =
    let e = two_pow_suc k in
    omega (arith, bit_or_step a 0, bit_or-zero_upto k (a / 2) (omega arith))

lt_two_pow : (a : ℕ) → a < 2 ^ a
lt_two_pow zero = omega arith
lt_two_pow (suc a) = omega (arith, two_pow_suc a, lt_two_pow a)

bit_or-zero : (a : ℕ) → bit_or a 0 ≡ a
bit_or-zero a = bit_or-zero_upto a a (lt_two_pow a)

-- `(q << k) | r` is a sum where `r` fits `k` bits.
pub bit_or_disjoint : (k q r : ℕ) → r < 2 ^ k → bit_or (q * 2 ^ k) r ≡ q * 2 ^ k + r
bit_or_disjoint zero q r p = ground (arith, bit_or-zero q)
bit_or_disjoint (suc k) q r p =
    let e : q * 2 ^ suc k ≡ 2 * (q * 2 ^ k) =
      omega (arith, ap (λ (t : ℕ). q * t) (two_pow_suc k)) in
    ground (
      arith,
      e,
      two_pow_suc k,
      bit_or_step (q * 2 ^ suc k) r,
      bit_or_disjoint k q (r / 2) (omega (arith, two_pow_suc k)),
    )

-- The laws of `^` on bytes.
module _ (a b : ℕ) (p : a < 2 ^ 8) (q : b < 2 ^ 8) where
  pub xor_byte-lt : bit_xor a b < 2 ^ 8
  xor_byte-lt = bit_xor-lt 8 a b p q

  pub xor_byte_comm : bit_xor a b ≡ bit_xor b a
  xor_byte_comm = xor_comm_upto 8 a b p q

  pub xor_byte_assoc : (c : ℕ) → c < 2 ^ 8 → bit_xor (bit_xor a b) c ≡ bit_xor a (bit_xor b c)
  xor_byte_assoc c r = xor_assoc_upto 8 a b c p q r

  pub xor_byte_cancel_right : bit_xor (bit_xor a b) b ≡ a
  xor_byte_cancel_right =
      xor_assoc_upto 8 a b b p q q
      ∙ ap (bit_xor a) (xor_self_upto 8 b q)
      ∙ xor_comm_upto 8 a 0 p (omega arith)
      ∙ zero-bit_xor a

-- The same with the multiple of `2 ^ k` given by an equation.
pub bit_or_add : (k q x r : ℕ) → x ≡ q * 2 ^ k → r < 2 ^ k → bit_or x r ≡ x + r
bit_or_add k q x r e p = rw e (bit_or_disjoint k q r p)

-- The laws of `^` on all numbers.
pub bit_xor_self : (a : ℕ) → bit_xor a a ≡ 0
bit_xor_self a = xor_self_upto a a (lt_two_pow a)

pub bit_xor_cancel : (a b : ℕ) → bit_xor (bit_xor a b) b ≡ a
bit_xor_cancel a b =
    let k = a + b in
    let l = lt_two_pow (a + b) in
    let p : a < 2 ^ k = omega arith in
    let q : b < 2 ^ k = omega arith in
    xor_assoc_upto k a b b p q q
    ∙ ap (bit_xor a) (xor_self_upto k b q)
    ∙ xor_comm_upto k a 0 p (omega arith)
    ∙ zero-bit_xor a
