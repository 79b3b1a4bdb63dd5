-- ===== src/Sensors/Views.antt =====
-- What a subscriber knows from what is published.
use desky.Prelude.{
  ℕ, ◌<◌, ◌≡◌, refl, ap, ◌∙◌, arith, Bool, true, false, Option, none, some, List, [], ◌∷◌, ltb,
  Bool-cases, inl, inr, if◌then◌else◌,
}
use desky.Arbiter.{pack_ground, unpack_ground}
use desky.Sensors.{ground_transition, obstacle_transition}

-- One tick of the rails: whether it is live, and the ground under both.
pub record Tick : Type 0 where
  pub live : Bool
  pub fwd : Bool
  pub rev : Bool

abbrev pub emit : Option ℕ → List ℕ → List ℕ
emit none ps = ps
emit (some p) ps = p ∷ ps

-- The payloads that a run publishes.
unfoldable pub published : Bool × Bool → List Tick → List ℕ
unfolding ground_transition
published l [] = []
published l (t ∷ ts) =
    let (l', p) = ground_transition t.live t.fwd t.rev l in emit p (published l' ts)

-- What a subscriber sees that unpacks each payload in turn.
unfoldable pub view : Bool × Bool → List ℕ → Bool × Bool
unfolding unpack_ground
view l [] = l
view l (p ∷ ps) = let g = unpack_ground p in view (g.fwd, g.rev) ps

-- The rails as the last live tick has read them.
unfoldable pub last_live : Bool × Bool → List Tick → Bool × Bool
last_live l [] = l
last_live l (t ∷ ts) = last_live (if t.live then (t.fwd, t.rev) else l) ts

unpack_ground-pack_ground :
    (fwd rev : Bool) → let g = unpack_ground (pack_ground fwd rev) in (g.fwd ≡ fwd) × (g.rev ≡ rev)
unfolding unpack_ground pack_ground
unpack_ground-pack_ground true true = (refl, refl)
unpack_ground-pack_ground true false = (refl, refl)
unpack_ground-pack_ground false true = (refl, refl)
unpack_ground-pack_ground false false = (refl, refl)

-- One tick keeps the subscriber's view in step.
view-emit :
    (live fwd rev last_fwd last_rev : Bool) (ps : List ℕ)
    → let r = ground_transition live fwd rev (last_fwd, last_rev) in
      (r.0 ≡ (if live then (fwd, rev) else (last_fwd, last_rev)))
      × (view (last_fwd, last_rev) (emit r.1 ps) ≡ view r.0 ps)
unfolding view ground_transition pack_ground
view-emit false fwd rev last_fwd last_rev ps = (refl, refl)
view-emit true true true true true ps = (refl, refl)
view-emit true true true true false ps = (refl, refl)
view-emit true true true false true ps = (refl, refl)
view-emit true true true false false ps = (refl, refl)
view-emit true true false true true ps = (refl, refl)
view-emit true true false true false ps = (refl, refl)
view-emit true true false false true ps = (refl, refl)
view-emit true true false false false ps = (refl, refl)
view-emit true false true true true ps = (refl, refl)
view-emit true false true true false ps = (refl, refl)
view-emit true false true false true ps = (refl, refl)
view-emit true false true false false ps = (refl, refl)
view-emit true false false true true ps = (refl, refl)
view-emit true false false true false ps = (refl, refl)
view-emit true false false false true ps = (refl, refl)
view-emit true false false false false ps = (refl, refl)

-- A subscriber that starts in step and hears all that is published sees the rails as the last live
-- tick has read them, over any run of live and dead ticks.
pub view-published : (ts : List Tick) (l : Bool × Bool) → view l (published l ts) ≡ last_live l ts
unfolding published last_live view
view-published [] l = refl
view-published (t ∷ ts) (last_fwd, last_rev) =
    let r = ground_transition t.live t.fwd t.rev (last_fwd, last_rev) in
    let (now, same) = view-emit t.live t.fwd t.rev last_fwd last_rev (published r.0 ts) in
    same ∙ view-published ts r.0 ∙ ap (λ (l : Bool × Bool). last_live l ts) now

-- The payloads of the obstacle edges in a run of ticks: live or not, and the distance.
unfoldable pub obstacles : Bool → List (Bool × ℕ) → List ℕ
unfolding obstacle_transition
obstacles asserted [] = []
obstacles asserted ((live, dist) ∷ ts) =
    let (asserted', p) = obstacle_transition live dist asserted in emit p (obstacles asserted' ts)

-- Distances that are in turn below 70 and above 90 millimetres.
abbrev pub IsBand : Bool → List ℕ → Type 0
IsBand asserted [] = Unit {0}
IsBand false (p ∷ ps) = (p < 70) × IsBand true ps
IsBand true (p ∷ ps) = (90 < p) × IsBand false ps

-- Over any run of readings the edges of the obstacle take turns, and each has crossed the whole band:
-- one that asserts reads below 70 millimetres, one that clears reads above 90.
pub obstacles-IsBand :
    (ts : List (Bool × ℕ)) (asserted : Bool) → IsBand asserted (obstacles asserted ts)
unfolding obstacles obstacle_transition
obstacles-IsBand [] asserted = tt
obstacles-IsBand ((false, dist) ∷ ts) asserted = obstacles-IsBand ts asserted
obstacles-IsBand ((true, dist) ∷ ts) false = elim (Bool-cases (ltb dist 70)) [
  | inl near ↦ rw (near, obstacles) (ground arith, obstacles-IsBand ts true)
  | inr far ↦ rw (far, obstacles) (obstacles-IsBand ts false)
]
obstacles-IsBand ((true, dist) ∷ ts) true = elim (Bool-cases (ltb 90 dist)) [
  | inl far ↦ rw (far, obstacles) (ground arith, obstacles-IsBand ts false)
  | inr near ↦ rw (near, obstacles) (obstacles-IsBand ts true)
]
