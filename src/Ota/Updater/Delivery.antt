-- ===== src/Ota/Updater/Delivery.antt =====
-- The loop over the reads of a server that sends the image: it writes them all.
pub mod Complete
pub mod Polls
use desky.Prelude.{
  ℕ, ◌+◌, ◌<◌, ◌≤◌, ◌≡◌, refl, sym, ap, subst, ◌∙◌, ◌⊎◌, inl, inr, arith, Bool, true, false, not,
  ◌&&◌, ◌||◌, List, [], ◌∷◌, ◌++◌, ltb, leb, ◌==◌, ◌!=◌, if◌then◌else◌, length, length-append, Each,
  Bool-cases,
}
use desky.Ota.Policy.{has_ota_magic, stream_complete, is_torn, is_stalled, timeout_ms}
use desky.Ota.Updater.{
  Updater, Effect, write_update, Read, reported, report, absorbed, absorb, Pumped, pump, behind,
  Poll,
}
use desky.Ota.Updater.Fetching.{
  flashed, IsFetching, flashed-append, absorb-IsFetching, report-effects,
}

abbrev pub joined : List Read → List ℕ
joined [] = []
joined (r ∷ rs) = r.bytes ++ joined rs

-- A read that gives bytes, all of which are written.
abbrev pub IsServed : Read → Type 0
IsServed r = (0 < length r.bytes) × ((length r.bytes ≤ 1460) × (r.written ≡ length r.bytes))

pub append_assoc : (xs ys zs : List ℕ) → xs ++ (ys ++ zs) ≡ (xs ++ ys) ++ zs
append_assoc [] ys zs = refl
append_assoc (x ∷ xs) ys zs = ap (λ l. x ∷ l) (append_assoc xs ys zs)

has_ota_magic-first :
    (image bytes rest : List ℕ)
    → 0 < length bytes
    → has_ota_magic (image ++ (bytes ++ rest)) ≡ true
    → (length image == 0 && not (has_ota_magic bytes)) ≡ false
unfolding has_ota_magic
has_ota_magic-first [] [] rest h m = absurd (omega arith)
has_ota_magic-first [] (b ∷ bs) rest h m = rw m refl
has_ota_magic-first (i ∷ is) bytes rest h m = ground arith

-- The loop over such reads has written them all, and the last came now.
abbrev pub IsThrough : Updater → List ℕ → List ℕ → ℕ → Pumped → Type 0
IsThrough o image bytes now p =
    (p.gave_up ≡ false)
    × (IsFetching o p.updater (image ++ bytes)
        × ((flashed image p.effects ≡ image ++ bytes) × (p.updater.last_rx ≡ now)))

reported-last_rx : (s : Updater) (now : ℕ) → s.last_rx ≡ now → (report s).0.last_rx ≡ now
unfolding report
reported-last_rx s now e = ground arith

behind-IsThrough :
    (o : Updater) (image bytes rest : List ℕ) (now : ℕ) (es : List Effect) (p : Pumped)
    → flashed image es ≡ image ++ bytes
    → IsThrough o (image ++ bytes) rest now p
    → IsThrough o image (bytes ++ rest) now (behind es p)
behind-IsThrough o image bytes rest now es p e h =
    let a = append_assoc image bytes rest in
    (
      h.0,
      (
        subst (IsFetching o p.updater) (sym a) h.1.0,
        (
          flashed-append es p.effects image ∙ (ap (λ l. flashed l p.effects) e ∙ (h.1.1.0 ∙ sym a)),
          h.1.1.1,
        ),
      ),
    )

pub append-[] : {A : Type 0} (xs : List A) → xs ++ [] ≡ xs
append-[] [] = refl
append-[] (x ∷ xs) = ap (λ l. x ∷ l) (append-[] xs)

-- The loop takes such a read.
pump-served :
    (o s : Updater) (image : List ℕ) (now : ℕ) (r : Read) (rs : List Read)
    → IsFetching o s image
    → IsServed r
    → length image + length r.bytes ≤ o.total
    → (length image == 0 && not (has_ota_magic r.bytes)) ≡ false
    → (pump now (r ∷ rs) s
        ≡ behind
            (write_update r.bytes ∷ (absorb now r.bytes s).1)
            (pump now rs (absorb now r.bytes s).0))
      × IsFetching o (absorb now r.bytes s).0 (image ++ r.bytes)
unfolding pump
pump-served o s image now r rs h k n m =
    let z = k.0 in
    let c = h.count in
    let t = h.total in
    let a : ltb s.received s.total ≡ true = ground arith in
    let b : (length r.bytes == 0) ≡ false = ground arith in
    let f : (s.received == 0 && not (has_ota_magic r.bytes)) ≡ false =
      subst (λ x. (x == 0 && not (has_ota_magic r.bytes)) ≡ false) (sym c) m in
    let w : (r.written != length r.bytes) ≡ false = (let q = k.1.1 in ground arith) in
    (rw (a, b, f, w, pump) refl, absorb-IsFetching o s image r.bytes now h a (omega arith) f)

pub pump-IsThrough :
    (o s : Updater) (image : List ℕ) (now : ℕ) (rs : List Read)
    → IsFetching o s image
    → Each IsServed rs
    → length image + length (joined rs) ≤ o.total
    → has_ota_magic (image ++ joined rs) ≡ true
    → (s.last_rx ≡ now) ⊎ (0 < length rs)
    → IsThrough o image (joined rs) now (pump now rs s)
unfolding pump flashed absorb absorbed
pump-IsThrough o s image now [] h k n m (inl l) =
    let a = append-[] image in (refl, (subst (IsFetching o s) (sym a) h, (sym a, l)))
pump-IsThrough o s image now [] h k n m (inr l) = absurd (omega arith)
pump-IsThrough o s image now (r ∷ rs) h k n m l =
    let q = length-append r.bytes (joined rs) in
    let q2 = length-append image r.bytes in
    let p =
      pump-served o s image now r rs h k.0 (omega arith)
        (has_ota_magic-first image r.bytes (joined rs) k.0.0 m) in
    let s1 = (absorb now r.bytes s).0 in
    subst (IsThrough o image (r.bytes ++ joined rs) now) (sym p.0) (
      behind-IsThrough o image r.bytes (joined rs) now
        (write_update r.bytes ∷ (absorb now r.bytes s).1) (pump now rs s1)
        (report-effects (absorbed now r.bytes s) (image ++ r.bytes)).0
        (pump-IsThrough o s1 (image ++ r.bytes) now rs p.1 k.1 (omega arith)
          (subst (λ l. has_ota_magic l ≡ true) (append_assoc image r.bytes (joined rs)) m)
          (inl (reported-last_rx (absorbed now r.bytes s) now refl))))
