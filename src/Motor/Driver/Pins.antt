-- ===== src/Motor/Driver/Pins.antt =====
-- The pins of the bridge right after a call of `set_duty`.
use desky.Prelude.{
  ℕ, zero, suc, ◌+◌, ◌-◌, ◌*◌, ◌/◌, ◌<◌, ◌≤◌, ◌≡◌, ◌⊎◌, inl, inr, refl, arith, true, false, not,
  ltb, Bool-cases, ap, if-elim,
}
use desky.Prelude.Int.{ℤ, pos, negsuc}
use desky.Motor.Driver.{Driver, clamp_duty, scaled, minus, apply_floor, drive_side, set_duty}

-- A side is off, or one of its pins is on between the smallest duty and 255, in the direction asked for.
abbrev pub IsDriven : ℕ → ℤ → ℕ × ℕ → Type 0
IsDriven min_duty (pos n) (a, b) =
    (b ≡ 0) × (((n < 10) × (a ≡ 0)) ⊎ ((10 ≤ n) × ((min_duty ≤ a) × (a ≤ 255))))
IsDriven min_duty (negsuc n) (a, b) =
    (a ≡ 0) × (((n < 9) × (b ≡ 0)) ⊎ ((9 ≤ n) × ((min_duty ≤ b) × (b ≤ 255))))

scaled-bounds : (m n : ℕ) → m ≤ 255 → (m ≤ scaled m n) × (scaled m n ≤ 255)
scaled-bounds m n h = elim (Bool-cases (ltb 255 (m + (n - 10) * (255 - m) / 245))) [
  | inl e ↦ rw e (h, omega arith)
  | inr e ↦ rw e (omega arith, ground arith)
]

drive_side-minus : (n : ℕ) → drive_side (minus n) ≡ (0, n)
drive_side-minus zero = refl
drive_side-minus (suc n) = refl

capped-IsDriven : (m n : ℕ) → m ≤ 255 → IsDriven m (pos n) (drive_side (apply_floor m (pos n)))
capped-IsDriven m n h = elim (Bool-cases (ltb n 10)) [
  | inl e ↦ rw e (refl, inl (ground arith, refl))
  | inr e ↦ let s = scaled-bounds m n h in rw e (refl, inr (ground arith, s))
]

negative-IsDriven :
    (m n : ℕ) → m ≤ 255 → IsDriven m (negsuc n) (drive_side (apply_floor m (negsuc n)))
negative-IsDriven m n h = elim (Bool-cases (ltb (suc n) 10)) [
  | inl e ↦ rw e (refl, inl (ground arith, refl))
  | inr e ↦
      let s = scaled-bounds m (suc n) h in
      rw e (rw (drive_side-minus (scaled m (suc n))) (refl, inr (ground arith, s)))
]

side-IsDriven : (m : ℕ) (z : ℤ) → m ≤ 255 → IsDriven m z (drive_side (apply_floor m (clamp_duty z)))
side-IsDriven m (pos n) h = elim (Bool-cases (ltb 255 n)) [
  | inl e ↦ rw e (refl, inr (ground arith, scaled-bounds m 255 h))
  | inr e ↦ rw e (capped-IsDriven m n h)
]
side-IsDriven m (negsuc n) h = elim (Bool-cases (ltb 254 n)) [
  | inl e ↦
      rw e (rw (drive_side-minus (scaled m 255)) (refl, inr (ground arith, scaled-bounds m 255 h)))
  | inr e ↦ rw e (negative-IsDriven m n h)
]

-- Right after a call of `set_duty` on an enabled driver whose smallest duty is at most 255, whatever
-- duties are asked for, each side is off where less than 10 is asked for, and otherwise has the pin of
-- the direction between the smallest duty and 255, and the other one off.
pub set_duty-IsDriven :
    (d : Driver) (left right : ℤ)
    → d.min_duty ≤ 255
    → d.enabled ≡ true
    → IsDriven d.min_duty left ((set_duty d left right).in1, (set_duty d left right).in2)
      × IsDriven d.min_duty right ((set_duty d left right).in3, (set_duty d left right).in4)
unfolding set_duty
set_duty-IsDriven d left right h e =
    let b : not d.enabled ≡ false = ap not e in
    if-elim
      (λ (x : Driver).
        IsDriven d.min_duty left (x.in1, x.in2) × IsDriven d.min_duty right (x.in3, x.in4))
      (not d.enabled) (λ k. absurd (ground arith))
      (λ _. (side-IsDriven d.min_duty left h, side-IsDriven d.min_duty right h))
