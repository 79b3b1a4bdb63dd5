-- ===== src/Sensors/PairButton/Steady.antt =====
-- A press is reported only where the button has been steady.
use desky.Prelude.{
  ℕ, ◌+◌, ◌^◌, ◌<◌, ◌≤◌, ◌≡◌, refl, sym, subst, arith, Bool, true, false, List, [], ◌∷◌, ◌⊎◌, sub32,
  Each, inl, inr,
}
use desky.Sensors.PairButton.{State, new_state, take_raw, update}

-- One reading of the pin: pressed or not, and the time.
pub record Sample : Type 0 where
  pub raw : Bool
  pub time : ℕ

-- The state after the readings, the newest first.
unfoldable pub after : ℕ → List Sample → State
unfolding update
after debounce [] = new_state
after debounce (x ∷ older) = (update (after debounce older) x.raw x.time debounce).0

-- The times go back from `now`, in milliseconds since the last turn of the clock.
abbrev pub Earlier : ℕ → List Sample → Type 0
Earlier now [] = Unit {0}
Earlier now (x ∷ older) = (x.time ≤ now) × Earlier x.time older

-- Since the last change, all readings are as the last one.
record Steady (s : State) (xs : List Sample) (now : ℕ) : Type 0 where
  changed : s.last_change_ms ≤ now
  since : Each (λ (x : Sample). s.last_change_ms < x.time → x.raw ≡ s.last_raw_pressed) xs

-- The stamp and the level after a reading: taken anew, or as before.
update-change :
    (s : State) (raw : Bool) (now debounce : ℕ)
    → let s' = (update s raw now debounce).0 in
      ((s'.last_change_ms ≡ now) × (s'.last_raw_pressed ≡ raw))
      ⊎ ((s'.last_change_ms ≡ s.last_change_ms)
          × (s'.last_raw_pressed ≡ s.last_raw_pressed)
          × (raw ≡ s.last_raw_pressed))
unfolding update take_raw
update-change s true now debounce = ground arith
update-change s false now debounce = ground arith

update-reports :
    (s : State) (raw : Bool) (now debounce : ℕ)
    → 0 < debounce
    → (update s raw now debounce).1 ≡ true
    → (raw ≡ true) × (s.last_raw_pressed ≡ true) × (debounce ≤ sub32 now s.last_change_ms)
unfolding update take_raw
update-reports s true now debounce h e = ground arith
update-reports s false now debounce h e = ground arith

Earlier-Each :
    (xs : List Sample) (t now : ℕ) → t ≤ now → Earlier t xs → Each (λ (x : Sample). x.time ≤ now) xs
Earlier-Each [] t now h e = tt
Earlier-Each (x ∷ xs) t now h (le, rest) =
    (omega arith, Earlier-Each xs x.time now (omega arith) rest)

-- Readings that are not after the stamp say nothing.
no_later :
    (xs : List Sample) (stamp : ℕ) (level : Bool)
    → Each (λ (x : Sample). x.time ≤ stamp) xs
    → Each (λ (x : Sample). stamp < x.time → x.raw ≡ level) xs
no_later [] stamp level h = tt
no_later (x ∷ xs) stamp level (le, rest) =
    ((λ lt. absurd (omega arith)), no_later xs stamp level rest)

-- The same readings, by another stamp and level that are equal.
moved :
    (xs : List Sample) {t t' : ℕ} {l l' : Bool}
    → t' ≡ t
    → l' ≡ l
    → Each (λ (x : Sample). t < x.time → x.raw ≡ l) xs
    → Each (λ (x : Sample). t' < x.time → x.raw ≡ l') xs
moved xs {t} {t'} {l} {l'} p q h =
    subst (λ (m : ℕ). Each (λ (x : Sample). m < x.time → x.raw ≡ l') xs) (sym p)
      (subst (λ (k : Bool). Each (λ (x : Sample). t < x.time → x.raw ≡ k) xs) (sym q) h)

after-Steady :
    (xs : List Sample) (now debounce : ℕ) → Earlier now xs → Steady (after debounce xs) xs now
unfolding after
after-Steady [] now debounce h = record { changed = omega arith; since = tt }
after-Steady (x ∷ older) now debounce (le, rest) =
    let s = after debounce older in
    let before = after-Steady older x.time debounce rest in
    elim (update-change s x.raw x.time debounce) [
      | inl (stamp, level) ↦ record {
        changed = omega arith;
        since = moved (x ∷ older) stamp refl (
            no_later (x ∷ older) x.time _
              (omega arith, Earlier-Each older x.time x.time (omega arith) rest));
      }
      | inr (stamp, level, same) ↦ record {
        changed = (let c = before.changed in omega arith);
        since = moved (x ∷ older) stamp level ((λ lt. same), before.since);
      }
    ]

-- What a debounce window of the button holds, where a press is reported.
recent :
    (xs : List Sample) (stamp now debounce : ℕ)
    → stamp + debounce ≤ now
    → Each (λ (x : Sample). stamp < x.time → x.raw ≡ true) xs
    → Each (λ (x : Sample). now < x.time + debounce → x.raw ≡ true) xs
recent [] stamp now debounce h k = tt
recent (x ∷ xs) stamp now debounce h (k, ks) =
    ((λ lt. k (omega arith)), recent xs stamp now debounce h ks)

-- A press is reported only on a reading that is pressed, and only where every reading of the whole
-- debounce window before it was pressed: for readings at any times in order, within one turn of the
-- clock, and a window that is not empty.
pub update-steady :
    (xs : List Sample) (raw : Bool) (now debounce : ℕ)
    → Earlier now xs
    → now < 2 ^ 32
    → 0 < debounce
    → (update (after debounce xs) raw now debounce).1 ≡ true
    → (raw ≡ true) × Each (λ (x : Sample). now < x.time + debounce → x.raw ≡ true) xs
update-steady xs raw now debounce h w some_window e =
    let s = after debounce xs in
    let (pressed, level, window) = update-reports s raw now debounce some_window e in
    let steady = after-Steady xs now debounce h in
    let c = steady.changed in
    (
      pressed,
      recent xs s.last_change_ms now debounce (omega arith) (
          subst (λ (l : Bool). Each (λ (x : Sample). s.last_change_ms < x.time → x.raw ≡ l) xs)
            level steady.since),
    )
