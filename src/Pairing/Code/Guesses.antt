-- ===== src/Pairing/Code/Guesses.antt =====
-- How many wrong codes one window lets through.
use desky.Prelude.{
  ℕ, ◌+◌, ◌*◌, ◌-◌, ◌^◌, ◌<◌, ◌≤◌, ◌≡◌, ◌⊎◌, ◌↔◌, sym, ◌∙◌, inl, inr, arith, Bool, true, false, not,
  ◌&&◌, List, [], ◌∷◌, length, ltb, leb, ◌==◌, if◌then◌else◌, u32, sub32, Bool-cases,
}
use desky.Pairing.Code.{
  Core, Result, ok, open_window, try_code, on_paired, window_open_at, max_tries, lockout_ms,
  constant_time_equal6,
}

-- The code of the attempt is compared: the window is open, and no lockout is on.
abbrev pub compares : Core → ℕ → Bool
compares c now =
    window_open_at c now
    && not (leb max_tries c.tries && ltb (sub32 now c.lockout_start_ms) lockout_ms)

abbrev pub is_ok : Result → Bool
is_ok ok = true
is_ok r = false

-- An attempt pairs only with a code that is compared and equal, and one that is not compared has the
-- same outcome whatever its code: it tells nothing of the code.
pub try_code-blind :
    (c : Core) (a b : List ℕ) (now : ℕ)
    → compares c now ≡ false
    → (try_code c a now ≡ try_code c b now) × (is_ok (try_code c a now).1 ≡ false)
unfolding try_code window_open_at
try_code-blind c a b now h = ground arith

pub try_code-ok_iff :
    (c : Core) (a : List ℕ) (now : ℕ)
    → ((try_code c a now).1 ≡ ok)
      ↔ ((compares c now && (length a == 6 && constant_time_equal6 c.code a)) ≡ true)
unfolding try_code window_open_at
try_code-ok_iff c a now = (λ h. ground arith, λ h. ground arith)

-- A wrong guess: the code is compared and does not pair.
abbrev pub is_wrong : Core → List ℕ → ℕ → Bool
is_wrong c a now = compares c now && not (is_ok (try_code c a now).1)

-- An attempt, with the time since the one before.
pub record Attempt : Type 0 where
  pub gap : ℕ
  pub code : List ℕ

-- The wrong guesses among the attempts that follow, `t` ms after the window was opened at `start`.
unfoldable pub wrong_guesses : Core → ℕ → ℕ → List Attempt → ℕ
wrong_guesses c start t [] = 0
wrong_guesses c start t (a ∷ as') =
    let now = u32 (start + (t + a.gap)) in
    (if is_wrong c a.code now then 1 else 0)
    + wrong_guesses (try_code c a.code now).0 start (t + a.gap) as'

unfoldable pub duration : List Attempt → ℕ
duration [] = 0
duration (a ∷ as') = a.gap + duration as'

elapsed : (s a b : ℕ) → b ≤ a → a < 2 ^ 32 → sub32 (u32 (s + a)) (u32 (s + b)) ≡ a - b
elapsed s a b p q = omega arith

-- `k` lockouts have run out by `t`; a lockout that is on began at `tl`.
record IsPaced (c : Core) (start t k tl : ℕ) : Type 0 where
  start_at : c.window_start_ms ≡ start
  few : c.tries ≤ 5
  total : 5 * k + c.tries ≤ 50
  paced : 30000 * k ≤ t
  lock_paced :
      (c.tries < 5) ⊎ ((c.lockout_start_ms ≡ u32 (start + tl)) × (30000 * k ≤ tl) × (tl ≤ t))

abbrev is_full : Core → Bool
is_full c = leb max_tries c.tries

-- What an attempt changes of the members that pace it.
refused_keeps :
    (c : Core) (a : List ℕ) (now : ℕ)
    → compares c now ≡ false
    → let d = (try_code c a now).0 in
      (is_wrong c a now ≡ false)
      × (d.window_start_ms ≡ c.window_start_ms)
      × (d.tries ≡ c.tries)
      × (d.lockout_start_ms ≡ c.lockout_start_ms)
unfolding try_code window_open_at
refused_keeps c a now h = ground arith

compared_steps :
    (c : Core) (a : List ℕ) (now : ℕ)
    → compares c now ≡ true
    → let d = (try_code c a now).0 in
      let base = if is_full c then 0 else c.tries in
      (d.window_start_ms ≡ c.window_start_ms)
      × (((is_wrong c a now ≡ false) × (d.tries ≡ base) × (d.lockout_start_ms ≡ c.lockout_start_ms))
          ⊎ ((is_wrong c a now ≡ true)
              × (d.tries ≡ base + 1)
              × ((base + 1 < 5) ⊎ (d.lockout_start_ms ≡ now))
              × ((d.lockout_start_ms ≡ now) ⊎ (d.lockout_start_ms ≡ c.lockout_start_ms))))
unfolding try_code window_open_at on_paired
compared_steps c a now h = ground arith

compared_times :
    (c : Core) (now : ℕ)
    → compares c now ≡ true
    → (sub32 now c.window_start_ms < 300000)
      × ((is_full c ≡ false) ⊎ (30000 ≤ sub32 now c.lockout_start_ms))
unfolding window_open_at
compared_times c now h = ground arith

-- The attempt at `t'` keeps the pace, and a wrong guess takes a step of it.
IsStep : Core → List ℕ → ℕ → ℕ → ℕ → Type 0
IsStep c a start t' k =
    let d = (try_code c a (u32 (start + t'))).0 in
    (k' : ℕ) × (tl' : ℕ) × IsPaced d start t' k' tl'
    × ((if is_wrong c a (u32 (start + t')) then 1 else 0) + (5 * k + c.tries) ≤ 5 * k' + d.tries)

module _ (c : Core) (a : List ℕ) (start t t' k tl : ℕ) (s : start < 2 ^ 32) (le : t ≤ t')
    (w : t' < 2 ^ 32) (h : IsPaced c start t k tl) where
  abbrev now' : ℕ
  now' = u32 (start + t')

  full_over :
      (is_full c ≡ false) ⊎ (30000 ≤ sub32 now' c.lockout_start_ms)
      → is_full c ≡ true
      → 30000 * (k + 1) ≤ t'
  full_over (inl no') full = ground arith
  full_over (inr waited) full = elim h.lock_paced [
    | inl few' ↦ absurd (ground arith)
    | inr (at', p, q) ↦
        let since = elapsed start t' tl (omega arith) w in
        let waited' : 30000 ≤ sub32 now' (u32 (start + tl)) = rw (sym at') waited in omega arith
  ]

  refused-IsStep : compares c now' ≡ false → IsStep c a start t' k
  unfolding IsStep
  refused-IsStep n =
      let (wrong, same_start, same_tries, same_lock) = refused_keeps c a now' n in
      let p1 = h.start_at in
      let p2 = h.few in
      let p3 = h.total in
      let p4 = h.paced in
      let p5 = h.lock_paced in
      (
        k,
        tl,
        record {
          start_at = same_start ∙ p1;
          few = omega arith;
          total = omega arith;
          paced = omega arith;
          lock_paced = ground arith;
        },
        rw wrong (omega arith),
      )

  compared-IsStep : compares c now' ≡ true → IsStep c a start t' k
  unfolding IsStep
  compared-IsStep n =
      let (early, unlocked) = compared_times c now' n in
      let (same_start, change) = compared_steps c a now' n in
      let p1 = h.start_at in
      let p2 = h.few in
      let p3 = h.total in
      let p4 = h.paced in
      let p5 = h.lock_paced in
      let soon : t' < 300000 = omega arith in
      elim (Bool-cases (is_full c)) [
        | inl full ↦
            let five : c.tries ≡ 5 = ground arith in
            let over : 30000 * (k + 1) ≤ t' = full_over unlocked full in
            elim change [
              | inl right ↦ (
                k + 1,
                t',
                record {
                  start_at = same_start ∙ p1;
                  few = ground arith;
                  total = ground arith;
                  paced = over;
                  lock_paced = ground arith;
                },
                ground arith,
              )
              | inr wrong ↦ (
                k + 1,
                t',
                record {
                  start_at = same_start ∙ p1;
                  few = ground arith;
                  total = ground arith;
                  paced = over;
                  lock_paced = ground arith;
                },
                ground arith,
              )
            ]
        | inr free ↦ elim change [
          | inl right ↦ (
            k,
            tl,
            record {
              start_at = same_start ∙ p1;
              few = ground arith;
              total = ground arith;
              paced = omega arith;
              lock_paced = ground arith;
            },
            ground arith,
          )
          | inr wrong ↦ (
            k,
            t',
            record {
              start_at = same_start ∙ p1;
              few = ground arith;
              total = ground arith;
              paced = omega arith;
              lock_paced = ground arith;
            },
            ground arith,
          )
        ]
      ]

attempt-IsStep :
    (c : Core) (a : List ℕ) (start t t' k tl : ℕ)
    → start < 2 ^ 32
    → t ≤ t'
    → t' < 2 ^ 32
    → IsPaced c start t k tl
    → IsStep c a start t' k
attempt-IsStep c a start t t' k tl s le w h = elim (Bool-cases (compares c (u32 (start + t')))) [
  | inl y ↦ compared-IsStep c a start t t' k tl s le w h y
  | inr n ↦ refused-IsStep c a start t t' k tl s le w h n
]

wrong_guesses-paced :
    (attempts : List Attempt) (c : Core) (start t k tl : ℕ)
    → start < 2 ^ 32
    → t + duration attempts < 2 ^ 32
    → IsPaced c start t k tl
    → wrong_guesses c start t attempts + (5 * k + c.tries) ≤ 50
unfolding wrong_guesses duration IsStep
wrong_guesses-paced [] c start t k tl s w h = let p = h.total in omega arith
wrong_guesses-paced (a ∷ as') c start t k tl s w h =
    let (k', tl', paced, up) =
      attempt-IsStep c a.code start t (t + a.gap) k tl s (omega arith) (omega arith) h in
    let d = (try_code c a.code (u32 (start + (t + a.gap)))).0 in
    let rest = wrong_guesses-paced as' d start (t + a.gap) k' tl' s (omega arith) paced in
    omega arith

opened-IsPaced :
    (c : Core) (start : ℕ) (code : List ℕ)
    → (open_window c start code).1 ≡ true
    → IsPaced (open_window c start code).0 start 0 0 0
unfolding open_window
opened-IsPaced c start code h = record {
  start_at = ground arith;
  few = ground arith;
  total = ground arith;
  paced = omega arith;
  lock_paced = ground arith;
}

-- After a window is opened, at most 50 wrong codes are compared in it, however many attempts are
-- made and however they are timed, until the millisecond clock has gone round.
pub wrong_guesses-open_window :
    (c : Core) (start : ℕ) (code : List ℕ) (attempts : List Attempt)
    → start < 2 ^ 32
    → duration attempts < 2 ^ 32
    → (open_window c start code).1 ≡ true
    → wrong_guesses (open_window c start code).0 start 0 attempts ≤ 50
unfolding open_window
wrong_guesses-open_window c start code attempts s w h =
    let d = (open_window c start code).0 in
    let opened : IsPaced d start 0 0 0 = opened-IsPaced c start code h in
    let all = wrong_guesses-paced attempts d start 0 0 0 s (omega arith) opened in omega arith
