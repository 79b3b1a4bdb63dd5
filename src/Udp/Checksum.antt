-- ===== src/Udp/Checksum.antt =====
-- What the XOR checksum of the phone wire detects: any change of one byte of a sealed frame.
use desky.Prelude.{
  ℕ, zero, suc, ◌^◌, ◌<◌, ◌≡◌, ◌≢◌, ◌↔◌, refl, sym, ap, ◌∙◌, arith, List, [], ◌∷◌, ◌++◌, bit_xor,
  length, get_or, take, set, length-set, IsBytes,
}
use desky.Prelude.Bits.{xor_byte-lt, xor_byte_comm, xor_byte_cancel_right, zero-bit_xor}
use desky.Udp.{checksum_from, checksum}

checksum_from-append :
    (s : ℕ) (xs ys : List ℕ) → checksum_from s (xs ++ ys) ≡ checksum_from (checksum_from s xs) ys
unfolding checksum_from
checksum_from-append s [] ys = refl
checksum_from-append s (x ∷ xs) ys = checksum_from-append (bit_xor s x) xs ys

pub checksum_from-lt : (s : ℕ) (bs : List ℕ) → s < 2 ^ 8 → IsBytes bs → checksum_from s bs < 2 ^ 8
unfolding checksum_from
checksum_from-lt s [] p h = p
checksum_from-lt s (b ∷ bs) p h = checksum_from-lt (bit_xor s b) bs (xor_byte-lt s b p h.0) h.1

xor_inj_left : (a b c : ℕ) → a < 2 ^ 8 → b < 2 ^ 8 → c < 2 ^ 8 → bit_xor a c ≡ bit_xor b c → a ≡ b
xor_inj_left a b c p q r e =
    sym (xor_byte_cancel_right a c p r) ∙ ap (λ t. bit_xor t c) e ∙ xor_byte_cancel_right b c q r

checksum_from-inj :
    (s t : ℕ) (bs : List ℕ)
    → s < 2 ^ 8
    → t < 2 ^ 8
    → IsBytes bs
    → checksum_from s bs ≡ checksum_from t bs
    → s ≡ t
unfolding checksum_from
checksum_from-inj s t [] p q h e = e
checksum_from-inj s t (b ∷ bs) p q h e = xor_inj_left s t b p q h.0 (
    checksum_from-inj (bit_xor s b) (bit_xor t b) bs (xor_byte-lt s b p h.0) (xor_byte-lt t b q h.0)
      h.1 e)

-- Another value in one place gives another sum.
checksum_from-set_ne :
    (s : ℕ) (bs : List ℕ) (i v : ℕ)
    → s < 2 ^ 8
    → IsBytes bs
    → i < length bs
    → v < 2 ^ 8
    → v ≢ get_or bs i 0
    → checksum_from s (set bs i v) ≢ checksum_from s bs
unfolding checksum_from
checksum_from-set_ne s [] i v p h hi hv ne e = absurd (omega arith)
checksum_from-set_ne s (b ∷ bs) zero v p h hi hv ne e =
    let same =
      checksum_from-inj (bit_xor s v) (bit_xor s b) bs (xor_byte-lt s v p hv)
        (xor_byte-lt s b p h.0) h.1 e in
    ne (xor_inj_left v b s hv h.0 p (xor_byte_comm v s hv p ∙ same ∙ xor_byte_comm s b p h.0))
checksum_from-set_ne s (b ∷ bs) (suc i) v p h hi hv ne e =
    checksum_from-set_ne (bit_xor s b) bs i v (xor_byte-lt s b p h.0) h.1 (omega arith) hv ne e

xor_eq_zero_iff : (a b : ℕ) → a < 2 ^ 8 → b < 2 ^ 8 → (a ≡ b) ↔ (bit_xor a b ≡ 0)
xor_eq_zero_iff a b p q = (
  λ e.
      xor_inj_left (bit_xor a b) 0 b (xor_byte-lt a b p q) (omega arith) q
        (xor_byte_cancel_right a b p q ∙ e ∙ sym (zero-bit_xor b)),
  λ e. sym (xor_byte_cancel_right a b p q) ∙ ap (λ t. bit_xor t b) e ∙ zero-bit_xor b,
)

-- The last byte seals the others exactly when all bytes sum to 0.
sealed_iff :
    (n s : ℕ) (bs : List ℕ)
    → s < 2 ^ 8
    → IsBytes bs
    → length bs ≡ suc n
    → (checksum_from s (take n bs) ≡ get_or bs n 0) ↔ (checksum_from s bs ≡ 0)
unfolding checksum_from
sealed_iff n s [] p h e = absurd (omega arith)
sealed_iff zero s (b ∷ []) p h e = xor_eq_zero_iff s b p h.0
sealed_iff zero s (b ∷ c ∷ bs) p h e = absurd (omega arith)
sealed_iff (suc n) s (b ∷ bs) p h e =
    sealed_iff n (bit_xor s b) bs (xor_byte-lt s b p h.0) h.1 (omega arith)

IsBytes-set : (bs : List ℕ) (i v : ℕ) → IsBytes bs → v < 2 ^ 8 → IsBytes (set bs i v)
IsBytes-set [] i v h p = tt
IsBytes-set (b ∷ bs) zero v h p = (p, h.1)
IsBytes-set (b ∷ bs) (suc i) v h p = (h.0, IsBytes-set bs i v h.1 p)

-- No change of one byte of a sealed frame leaves it sealed.
pub unsealed_of_set :
    (n : ℕ) (bs : List ℕ) (i v : ℕ)
    → IsBytes bs
    → length bs ≡ suc n
    → checksum (take n bs) ≡ get_or bs n 0
    → i < length bs
    → v < 2 ^ 8
    → v ≢ get_or bs i 0
    → checksum (take n (set bs i v)) ≢ get_or (set bs i v) n 0
unfolding checksum
unsealed_of_set n bs i v h e sealed hi hv ne same =
    checksum_from-set_ne 0 bs i v (omega arith) h hi hv ne (
      (sealed_iff n 0 (set bs i v) (omega arith) (IsBytes-set bs i v h hv)
          (omega (arith, length-set bs i v))).0
        same
      ∙ sym ((sealed_iff n 0 bs (omega arith) h e).0 sealed))
