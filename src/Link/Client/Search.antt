-- ===== src/Link/Client/Search.antt =====
-- The search for a network comes to the access point of the core.
use mathlib.Core.List.{Memᴰ}
use desky.Prelude.{
  ℕ, ◌<◌, ◌≤◌, ◌≡◌, ◌⊎◌, refl, ap, sym, subst, length, ◌∙◌, arith, Bool, true, false, not, List, [],
  ◌∷◌, ◌++◌, leb, if◌then◌else◌, sub32, Bool-cases, inl, inr,
}
use desky.Link.Follow.{
  FollowTarget, last_good, home, core_ap, first_follow_target, retry_due, assoc_step,
}
use desky.Link.Client.{Client, Effect, wifi_begin, Answers}
use desky.Link.Client.Assoc.{
  Radio, begin_attempt, advance_from_miss, maybe_short_circuit, idle_step, attempt_step, poll_assoc,
  mark_down,
}

-- A poll that does something: the wait of the state is over.
unfoldable pub is_due : ℕ → Client → Bool
unfolding retry_due
is_due now c =
    if c.connecting
    then leb 10000 (sub32 now c.attempt_start_ms)
    else if c.cycle_exhausted
    then retry_due now c.cycle_end_ms 10000
    else retry_due now c.last_assoc_try_ms 5000

abbrev idle_rank : FollowTarget → ℕ
idle_rank core_ap = 0
idle_rank home = 2
idle_rank last_good = 4

abbrev busy_rank : FollowTarget → ℕ
busy_rank core_ap = 6
busy_rank home = 1
busy_rank last_good = 3

-- The polls that are left before the one that tries the access point of the core.
unfoldable rank : Client → ℕ
rank c =
    if c.connecting
    then (if c.cycle_exhausted then 6 else busy_rank c.follow_target)
    else (if c.cycle_exhausted then 5 else idle_rank c.follow_target)

-- A poll that has tried it, or has come one step nearer.
abbrev Nears : Answers → Client → Client × List Effect → Type 0
Nears a c r =
    (r.0.associated ≡ false)
    × ((r.1 ≡ wifi_begin a.core_ssid a.core_pass ∷ []) ⊎ (rank r.0 < rank c))

idle_step-Nears :
    (a : Answers) (w : Radio) (c : Client)
    → c.associated ≡ false
    → c.connecting ≡ false
    → is_due a.now c ≡ true
    → Nears a c (idle_step a w c)
unfolding is_due rank begin_attempt maybe_short_circuit retry_due first_follow_target
idle_step-Nears a w c off idle due = ground arith

attempt_step-Nears :
    (a : Answers) (w : Radio) (c : Client)
    → c.associated ≡ false
    → c.connecting ≡ true
    → w.is_connected ≡ false
    → is_due a.now c ≡ true
    → Nears a c (attempt_step a w c)
unfolding is_due rank assoc_step advance_from_miss retry_due first_follow_target
attempt_step-Nears a w c off busy deaf due = ground arith

poll_assoc-Nears :
    (a : Answers) (w : Radio) (c : Client)
    → c.associated ≡ false
    → w.is_connected ≡ false
    → is_due a.now c ≡ true
    → Nears a c (poll_assoc a w c)
unfolding poll_assoc
poll_assoc-Nears a w c off deaf due =
    let down : poll_assoc a w c
        ≡ (if not c.connecting then idle_step a w c else attempt_step a w c) =
      ap
        (λ b.
          if not b
          then (if not c.connecting then idle_step a w c else attempt_step a w c)
          else if not w.is_connected
          then (mark_down a.now c, [])
          else (c, []))
        off in
    let by = λ (b : Bool). if not b then idle_step a w c else attempt_step a w c in
    elim (Bool-cases c.connecting) [
      | inl busy ↦
          subst (Nears a c) (sym (down ∙ ap by busy)) (attempt_step-Nears a w c off busy deaf due)
      | inr idle ↦ subst (Nears a c) (sym (down ∙ ap by idle)) (idle_step-Nears a w c off idle due)
    ]

-- What a run of polls does outside the client.
unfoldable pub efforts : Client → List (Answers × Radio) → List Effect
unfolding poll_assoc
efforts c [] = []
efforts c ((a, w) ∷ ps) = let (c', out) = poll_assoc a w c in out ++ efforts c' ps

-- Polls that are due, none of which finds the radio connected, with the access point as compiled in.
abbrev pub DuePolls : List ℕ → List ℕ → Client → List (Answers × Radio) → Type 0
DuePolls ssid pass c [] = Unit {0}
DuePolls ssid pass c ((a, w) ∷ ps) =
    (is_due a.now c ≡ true)
    × (w.is_connected ≡ false)
    × (a.core_ssid ≡ ssid)
    × (a.core_pass ≡ pass)
    × DuePolls ssid pass (poll_assoc a w c).0 ps

rank-le : (c : Client) → rank c ≤ 6
unfolding rank
rank-le c = ground arith

mem_append : {e : Effect} (xs : List Effect) {ys : List Effect} → Memᴰ e ys → Memᴰ e (xs ++ ys)
mem_append [] m = m
mem_append (x ∷ xs) m = Memᴰ.tail (mem_append xs m)

efforts-rank :
    (ps : List (Answers × Radio)) (c : Client) (ssid pass : List ℕ)
    → c.associated ≡ false
    → rank c < length ps
    → DuePolls ssid pass c ps
    → Memᴰ (wifi_begin ssid pass) (efforts c ps)
unfolding efforts
efforts-rank [] c ssid pass off h d = absurd (omega arith)
efforts-rank ((a, w) ∷ ps) c ssid pass off h (due, deaf, s, p, later) =
    let (off', near) = poll_assoc-Nears a w c off deaf due in
    let r = poll_assoc a w c in
    elim near [
      | inl tried ↦
          subst (λ (l : List Effect). Memᴰ (wifi_begin ssid pass) (l ++ efforts r.0 ps)) (sym tried)
            (rw (s, p) (Memᴰ.head refl))
      | inr less ↦ mem_append r.1 (efforts-rank ps r.0 ssid pass off' (omega arith) later)
    ]

-- A head that is not associated, whatever it was doing and whatever networks it knows, tries the access
-- point of the core within seven polls that are due, where no network answers.
pub efforts-core_ap :
    (ps : List (Answers × Radio)) (c : Client) (ssid pass : List ℕ)
    → c.associated ≡ false
    → 7 ≤ length ps
    → DuePolls ssid pass c ps
    → Memᴰ (wifi_begin ssid pass) (efforts c ps)
efforts-core_ap ps c ssid pass off h d =
    efforts-rank ps c ssid pass off (omega (arith, rank-le c)) d
