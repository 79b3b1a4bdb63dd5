-- ===== src/Prelude/Lists.antt =====
-- Byte buffers as lists, measured and indexed by native numbers.
use Prim.Native.Nat.{ℕ, zero, suc, ◌+◌, ◌-◌, ◌<◌, ◌≤◌, ◌^◌, min}
use mathlib.Core.Path.{◌≡◌, refl, ap, ◌∙◌, subst}
use mathlib.Core.List.{List, [], ◌∷◌, ◌++◌}
use native.Mathlib.Omega.{arith}

module _ {ℓ} {A : Type ℓ} where
  abbrev pub length : List A → ℕ
  length [] = 0
  length (x ∷ xs) = suc (length xs)

  -- A read out of range is `d`; the callers check their lengths first.
  abbrev pub get_or : List A → ℕ → A → A
  get_or [] i d = d
  get_or (x ∷ xs) zero d = x
  get_or (x ∷ xs) (suc i) d = get_or xs i d

  -- A write out of bounds changes nothing.
  abbrev pub set : List A → ℕ → A → List A
  set [] i v = []
  set (x ∷ xs) zero v = v ∷ xs
  set (x ∷ xs) (suc i) v = x ∷ set xs i v

  abbrev pub take : ℕ → List A → List A
  take zero xs = []
  take (suc n) [] = []
  take (suc n) (x ∷ xs) = x ∷ take n xs

  abbrev pub drop : ℕ → List A → List A
  drop zero xs = xs
  drop (suc n) [] = []
  drop (suc n) (x ∷ xs) = drop n xs

  pub length-append : (xs ys : List A) → length (xs ++ ys) ≡ length xs + length ys
  length-append [] ys = omega arith
  length-append (x ∷ xs) ys = omega (arith, length-append xs ys)

  pub length-set : (xs : List A) (i : ℕ) (v : A) → length (set xs i v) ≡ length xs
  length-set [] i v = refl
  length-set (x ∷ xs) zero v = refl
  length-set (x ∷ xs) (suc i) v = ap suc (length-set xs i v)

  pub take-append-drop : (n : ℕ) (xs : List A) → take n xs ++ drop n xs ≡ xs
  take-append-drop zero xs = refl
  take-append-drop (suc n) [] = refl
  take-append-drop (suc n) (x ∷ xs) = ap (λ l. x ∷ l) (take-append-drop n xs)

  pub length-take : (n : ℕ) (xs : List A) → length (take n xs) ≡ min n (length xs)
  length-take zero xs = omega arith
  length-take (suc n) [] = omega arith
  length-take (suc n) (x ∷ xs) = omega (arith, length-take n xs)

  pub length-drop : (n : ℕ) (xs : List A) → length (drop n xs) ≡ length xs - n
  length-drop zero xs = omega arith
  length-drop (suc n) [] = omega arith
  length-drop (suc n) (x ∷ xs) = omega (arith, length-drop n xs)

  pub take-append : (xs ys : List A) (n : ℕ) → length xs ≡ n → take n (xs ++ ys) ≡ xs
  take-append [] ys zero e = refl
  take-append [] ys (suc n) e = absurd (omega arith)
  take-append (x ∷ xs) ys zero e = absurd (omega arith)
  take-append (x ∷ xs) ys (suc n) e = ap (λ l. x ∷ l) (take-append xs ys n (omega arith))

  pub drop-append : (xs ys : List A) (n : ℕ) → length xs ≡ n → drop n (xs ++ ys) ≡ ys
  drop-append [] ys zero e = refl
  drop-append [] ys (suc n) e = absurd (omega arith)
  drop-append (x ∷ xs) ys zero e = absurd (omega arith)
  drop-append (x ∷ xs) ys (suc n) e = drop-append xs ys n (omega arith)

  pub take_all : (xs : List A) → take (length xs) xs ≡ xs
  take_all [] = refl
  take_all (x ∷ xs) = ap (λ l. x ∷ l) (take_all xs)

  pub get_or-append :
      (xs ys : List A) (n i : ℕ) (d : A) → length xs + i ≡ n → get_or (xs ++ ys) n d ≡ get_or ys i d
  get_or-append [] ys n i d e = let q : n ≡ i = omega arith in ap (λ k. get_or ys k d) q
  get_or-append (x ∷ xs) ys zero i d e = absurd (omega arith)
  get_or-append (x ∷ xs) ys (suc n) i d e = get_or-append xs ys n i d (omega arith)

  pub get_or-drop :
      (n i k : ℕ) (xs : List A) (d : A) → n + i ≡ k → get_or (drop n xs) i d ≡ get_or xs k d
  get_or-drop zero i k xs d e = let q : i ≡ k = omega arith in ap (λ j. get_or xs j d) q
  get_or-drop (suc n) i k [] d e = refl
  get_or-drop (suc n) i zero (x ∷ xs) d e = absurd (omega arith)
  get_or-drop (suc n) i (suc k) (x ∷ xs) d e = get_or-drop n i k xs d (omega arith)

  pub drop-drop : (m n k : ℕ) (xs : List A) → n + m ≡ k → drop m (drop n xs) ≡ drop k xs
  drop-drop m zero k xs e = let q : m ≡ k = omega arith in ap (λ j. drop j xs) q
  drop-drop zero (suc n) zero [] e = refl
  drop-drop zero (suc n) (suc k) [] e = refl
  drop-drop (suc m) (suc n) zero [] e = refl
  drop-drop (suc m) (suc n) (suc k) [] e = refl
  drop-drop m (suc n) zero (x ∷ xs) e = absurd (omega arith)
  drop-drop m (suc n) (suc k) (x ∷ xs) e = drop-drop m n k xs (omega arith)

  pub get_or-append_left :
      (xs ys : List A) (i : ℕ) (d : A) → i < length xs → get_or (xs ++ ys) i d ≡ get_or xs i d
  get_or-append_left [] ys i d h = absurd (omega arith)
  get_or-append_left (x ∷ xs) ys zero d h = refl
  get_or-append_left (x ∷ xs) ys (suc i) d h = get_or-append_left xs ys i d (omega arith)

  pub drop-append_left :
      (n : ℕ) (xs ys : List A) → n ≤ length xs → drop n (xs ++ ys) ≡ drop n xs ++ ys
  drop-append_left zero xs ys h = refl
  drop-append_left (suc n) [] ys h = absurd (omega arith)
  drop-append_left (suc n) (x ∷ xs) ys h = drop-append_left n xs ys (omega arith)

  pub take-append_left : (n : ℕ) (xs ys : List A) → n ≤ length xs → take n (xs ++ ys) ≡ take n xs
  take-append_left zero xs ys h = refl
  take-append_left (suc n) [] ys h = absurd (omega arith)
  take-append_left (suc n) (x ∷ xs) ys h = ap (λ l. x ∷ l) (take-append_left n xs ys (omega arith))

  pub take_le : (n : ℕ) (xs : List A) → length xs ≤ n → take n xs ≡ xs
  take_le zero [] h = refl
  take_le zero (x ∷ xs) h = absurd (omega arith)
  take_le (suc n) [] h = refl
  take_le (suc n) (x ∷ xs) h = ap (λ l. x ∷ l) (take_le n xs (omega arith))

  pub drop_le : (n : ℕ) (xs : List A) → length xs ≤ n → drop n xs ≡ []
  drop_le zero [] h = refl
  drop_le zero (x ∷ xs) h = absurd (omega arith)
  drop_le (suc n) [] h = refl
  drop_le (suc n) (x ∷ xs) h = drop_le n xs (omega arith)

  -- Every element has the property.
  abbrev pub Each : (A → Type 0) → List A → Type 0
  Each P [] = Unit
  Each P (x ∷ xs) = P x × Each P xs

  pub Each-append : (P : A → Type 0) (xs ys : List A) → Each P xs → Each P ys → Each P (xs ++ ys)
  Each-append P [] ys h k = k
  Each-append P (x ∷ xs) ys h k = (h.0, Each-append P xs ys h.1 k)

-- Every byte of a buffer is below 256.
abbrev pub IsBytes : List ℕ → Type 0
IsBytes [] = Unit {0}
IsBytes (b ∷ bs) = (b < 2 ^ 8) × IsBytes bs

pub get_or-lt : (bs : List ℕ) (i : ℕ) → IsBytes bs → get_or bs i 0 < 2 ^ 8
get_or-lt [] i h = omega arith
get_or-lt (b ∷ bs) zero h = h.0
get_or-lt (b ∷ bs) (suc i) h = get_or-lt bs i h.1

-- A buffer of known length, written out cell by cell.
abbrev pub cells : ℕ → ℕ → List ℕ → List ℕ
cells i zero bs = []
cells i (suc n) bs = get_or bs i 0 ∷ cells (suc i) n bs

cells-cons : (i n x : ℕ) (bs : List ℕ) → cells (suc i) n (x ∷ bs) ≡ cells i n bs
cells-cons i zero x bs = refl
cells-cons i (suc n) x bs = ap (λ l. get_or bs i 0 ∷ l) (cells-cons (suc i) n x bs)

pub cells_lem : (n : ℕ) (bs : List ℕ) → length bs ≡ n → cells 0 n bs ≡ bs
cells_lem zero [] e = refl
cells_lem zero (b ∷ bs) e = absurd (omega arith)
cells_lem (suc n) [] e = absurd (omega arith)
cells_lem (suc n) (b ∷ bs) e = ap (λ l. b ∷ l) (cells-cons 0 n b bs ∙ cells_lem n bs (omega arith))

-- A property of all buffers of length `n` may be shown of those written out.
pub by_cells {ℓ} :
    (P : List ℕ → Type ℓ) (n : ℕ) (bs : List ℕ) → length bs ≡ n → P (cells 0 n bs) → P bs
by_cells P n bs e h = subst P (cells_lem n bs e) h

pub cells-drop : (n : ℕ) (bs : List ℕ) → n ≤ length bs → cells 0 n bs ++ drop n bs ≡ bs
cells-drop zero bs h = refl
cells-drop (suc n) [] h = absurd (omega arith)
cells-drop (suc n) (b ∷ bs) h =
    ap (λ l. b ∷ (l ++ drop n bs)) (cells-cons 0 n b bs)
    ∙ ap (λ l. b ∷ l) (cells-drop n bs (omega arith))
