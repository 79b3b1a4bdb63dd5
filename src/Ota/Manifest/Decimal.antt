-- ===== src/Ota/Manifest/Decimal.antt =====
-- Numbers as text.
use desky.Prelude.{
  ℕ, zero, suc, ◌+◌, ◌*◌, ◌/◌, ◌%◌, ◌<◌, ◌≤◌, ◌≡◌, refl, ap, ◌∙◌, arith, Bool, true, false, some,
  List, [], ◌∷◌, ◌++◌, ltb, if◌then◌else◌, length, length-append, Each, Each-append, Bool-cases,
  bind-some, inl, inr, ◌==◌,
}
use desky.Ota.Manifest.{step_digit, parse_digits, parse_u32, rev_digits, reversed, decimal}

parse_digits-append :
    (xs : List ℕ) (v w d : ℕ)
    → parse_digits v xs ≡ some w
    → d < 10
    → w * 10 + d ≤ 0xFFFFFFFF
    → parse_digits v (xs ++ ((48 + d) ∷ [])) ≡ some (w * 10 + d)
unfolding parse_digits
parse_digits-append [] v w d h k fits = (unfold step_digit in ground arith)
parse_digits-append (x ∷ xs) v w d h k fits =
    let (v', e, h') = bind-some (step_digit v x) (λ v'. parse_digits v' xs) h in
    rw (e, parse_digits) (parse_digits-append xs v' w d h' k fits)

-- The numbers of at most `n` digits are below it.
abbrev pub limit : ℕ → ℕ
limit zero = 1
limit (suc n) = 10 * limit n

parse_digits-rev_digits :
    (n x : ℕ) → x < limit n → x ≤ 0xFFFFFFFF → parse_digits 0 (reversed (rev_digits n x)) ≡ some x
unfolding rev_digits parse_digits
parse_digits-rev_digits zero x h k = ap some (omega arith)
parse_digits-rev_digits (suc n) x h k = elim (Bool-cases (ltb 0 (x / 10))) [
  | inl more ↦
      let ih = parse_digits-rev_digits n (x / 10) (omega arith) (omega arith) in
      rw (more, rev_digits)
        (parse_digits-append (reversed (rev_digits n (x / 10))) 0 (x / 10) (x % 10) ih (omega arith)
            (omega arith)
          ∙ ap some (omega arith))
  | inr last ↦
      let small : x / 10 ≡ 0 = ground arith in
      rw (last, rev_digits)
        (parse_digits-append [] 0 0 (x % 10) refl (omega arith) (omega arith)
          ∙ ap some (omega arith))
]

length-rev_digits : (n x : ℕ) → length (rev_digits n x) ≤ n
unfolding rev_digits
length-rev_digits zero x = omega arith
length-rev_digits (suc n) x = let ih = length-rev_digits n (x / 10) in ground arith

length-reversed : (xs : List ℕ) → length (reversed xs) ≡ length xs
length-reversed [] = refl
length-reversed (x ∷ xs) = omega (arith, length-append (reversed xs) (x ∷ []), length-reversed xs)

-- A number of 32 bits has 1 to 16 characters in the array.
pub length-decimal : (x : ℕ) → (1 ≤ length (decimal x)) × (length (decimal x) ≤ 16)
unfolding decimal rev_digits
length-decimal x =
    let same = length-reversed (rev_digits 16 x) in
    let most = length-rev_digits 16 x in
    let least : 1 ≤ length (rev_digits 16 x) = (unfold rev_digits in omega arith) in
    (omega arith, omega arith)

-- A number of 32 bits comes back from its text.
pub parse_u32-decimal : (x : ℕ) → x ≤ 0xFFFFFFFF → parse_u32 (decimal x) ≡ some x
unfolding parse_u32 decimal
parse_u32-decimal x h =
    let some_digits = length-decimal x in
    let g : (length (decimal x) == 0) ≡ false = ground arith in
    rw (g, parse_u32) (parse_digits-rev_digits 16 x (omega arith) h)

-- No character that ends a line.
abbrev pub IsPlain : ℕ → Type 0
IsPlain c = 14 ≤ c

if-IsPlain : (b : Bool) (xs : List ℕ) → Each IsPlain xs → Each IsPlain (if b then xs else [])
if-IsPlain true xs h = h
if-IsPlain false xs h = tt

rev_digits-IsPlain : (n x : ℕ) → Each IsPlain (rev_digits n x)
unfolding rev_digits
rev_digits-IsPlain zero x = tt
rev_digits-IsPlain (suc n) x = (
  omega arith,
  if-IsPlain (ltb 0 (x / 10)) (rev_digits n (x / 10)) (rev_digits-IsPlain n (x / 10)),
)

reversed-IsPlain : (xs : List ℕ) → Each IsPlain xs → Each IsPlain (reversed xs)
reversed-IsPlain [] h = tt
reversed-IsPlain (x ∷ xs) h =
    Each-append IsPlain (reversed xs) (x ∷ []) (reversed-IsPlain xs h.1) (h.0, tt)

pub decimal-IsPlain : (x : ℕ) → Each IsPlain (decimal x)
unfolding decimal
decimal-IsPlain x = reversed-IsPlain (rev_digits 16 x) (rev_digits-IsPlain 16 x)
