-- ===== src/Link/Sequence.antt =====
-- The order of sequence numbers.
use desky.Prelude.{ℕ, ◌+◌, ◌^◌, ◌<◌, ◌≤◌, ◌≡◌, ◌⊎◌, ◌↔◌, arith, true, u16, sub16}
use desky.Link.{is_fresh_seq}

-- A number is fresh exactly when it is 1 to 32767 steps past the last one seen, around the wrap.
pub is_fresh_seq_iff :
    (last got : ℕ)
    → last < 2 ^ 16
    → got < 2 ^ 16
    → (is_fresh_seq last got ≡ true) ↔ ((k : ℕ) × (1 ≤ k) × (k < 2 ^ 15) × (got ≡ u16 (last + k)))
unfolding is_fresh_seq
is_fresh_seq_iff last got p q = (
  λ h. (sub16 got last, ground arith, ground arith, ground arith),
  λ h. let e = h.3 in let w = h.1 in let w' = h.2 in ground arith,
)

-- Freshness orders no two numbers both ways, and of two distinct numbers it decides one way but for
-- those half the range apart, which it rejects.
pub is_fresh_seq-asym :
    (a b : ℕ)
    → a < 2 ^ 16
    → b < 2 ^ 16
    → ¬ ((is_fresh_seq a b ≡ true) × (is_fresh_seq b a ≡ true))
      × ((a ≡ b) ⊎ ((sub16 a b ≡ 2 ^ 15) ⊎ ((is_fresh_seq a b ≡ true) ⊎ (is_fresh_seq b a ≡ true))))
unfolding is_fresh_seq
is_fresh_seq-asym a b p q = (λ h. ground arith, ground arith)
