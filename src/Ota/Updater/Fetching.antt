-- ===== src/Ota/Updater/Fetching.antt =====
-- A download under way: what has been written is what the updater counts and hashes.
use desky.Prelude.{
  ℕ, ◌+◌, ◌<◌, ◌≤◌, ◌≡◌, refl, sym, ap, subst, ◌∙◌, ◌⊎◌, inl, inr, arith, Bool, true, false, not,
  ◌&&◌, ◌||◌, Option, none, some, List, [], ◌∷◌, ◌++◌, ltb, ◌==◌, ◌!=◌, length, length-append,
  Bool-cases,
}
use desky.Ota.Policy.{
  idle, fetch, chunk, apply_event, slot_bytes, has_ota_magic, progress_due, stream_complete,
}
use desky.Ota.Updater.{
  Updater, Effect, begin_update, write_update, restart, fail, Read, reported, report, absorbed,
  absorb, Pumped, behind, pump,
}

-- What the flash holds after an effect, and after a list of them.
abbrev flash : List ℕ → Effect → List ℕ
flash image (begin_update n) = []
flash image (write_update bytes) = image ++ bytes
flash image _ = image

unfoldable pub flashed : List ℕ → List Effect → List ℕ
flashed image [] = image
flashed image (e ∷ es) = flashed (flash image e) es

abbrev pub is_restart : Effect → Bool
is_restart restart = true
is_restart _ = false

unfoldable pub restarts : List Effect → Bool
restarts [] = false
restarts (e ∷ es) = is_restart e || restarts es

-- What `Update.write` answers, `n` bytes of `total` being written: it takes bytes whole only if they fit
-- behind those.
abbrev pub IsAnswered : ℕ → ℕ → List Read → Type 0
IsAnswered total n [] = Unit
IsAnswered total n (r ∷ rs) =
    r.written ≡ length r.bytes
    → (n + length r.bytes ≤ total) × IsAnswered total (n + length r.bytes) rs

-- A download that began at `o` and has written `image`.
pub record IsFetching (o s : Updater) (image : List ℕ) : Type 0 where
  pub state : s.state ≡ fetch
  pub total : s.total ≡ o.total
  pub manifest_set : s.manifest_set ≡ o.manifest_set
  pub manifest : s.manifest ≡ o.manifest
  pub nonempty : 0 < o.total
  pub fits : o.total ≤ slot_bytes
  pub hashed : s.sha ≡ image
  pub count : s.received ≡ length image
  pub bound : s.received ≤ o.total
  pub magic : 0 < s.received → has_ota_magic image ≡ true

-- The updater rests, or a download is under way and is not complete.
abbrev pub IsSound : Updater → List ℕ → Type 0
IsSound s image =
    (s.state ≡ idle) ⊎ (IsFetching s s image × (stream_complete s.received s.total ≡ false))

pub flashed-append :
    (es fs : List Effect) (image : List ℕ)
    → flashed image (es ++ fs) ≡ flashed (flashed image es) fs
unfolding flashed
flashed-append [] fs image = refl
flashed-append (e ∷ es) fs image = flashed-append es fs (flash image e)

or_assoc : (a b c : Bool) → (a || (b || c)) ≡ ((a || b) || c)
or_assoc a b c = ground arith

pub restarts-append : (es fs : List Effect) → restarts (es ++ fs) ≡ (restarts es || restarts fs)
unfolding restarts
restarts-append [] fs = refl
restarts-append (e ∷ es) fs =
    ap (λ b. is_restart e || b) (restarts-append es fs)
    ∙ or_assoc (is_restart e) (restarts es) (restarts fs)

pub report-effects :
    (s : Updater) (image : List ℕ)
    → (flashed image (report s).1 ≡ image) × (restarts (report s).1 ≡ false)
unfolding report flashed restarts
report-effects s image = ground arith

reported-IsFetching :
    (o s : Updater) (image : List ℕ) (p : Option ℕ)
    → IsFetching o s image
    → IsFetching o (reported s p).0 image
reported-IsFetching o s image none h = h
reported-IsFetching o s image (some pct) h = record {
  state = h.state;
  total = h.total;
  manifest_set = h.manifest_set;
  manifest = h.manifest;
  nonempty = h.nonempty;
  fits = h.fits;
  hashed = h.hashed;
  count = h.count;
  bound = h.bound;
  magic = h.magic;
}

report-IsFetching :
    (o s : Updater) (image : List ℕ) → IsFetching o s image → IsFetching o (report s).0 image
unfolding report
report-IsFetching o s image h =
    reported-IsFetching o s image (progress_due s.received s.total s.last_pct) h

has_ota_magic-append : (xs ys : List ℕ) → has_ota_magic xs ≡ true → has_ota_magic (xs ++ ys) ≡ true
unfolding has_ota_magic
has_ota_magic-append [] ys h = absurd (ground arith)
has_ota_magic-append (x ∷ xs) ys h = h

-- The first bytes are those of an image.
first-magic :
    (s : Updater) (image bytes : List ℕ)
    → s.received ≡ length image
    → (0 < s.received → has_ota_magic image ≡ true)
    → (s.received == 0 && not (has_ota_magic bytes)) ≡ false
    → has_ota_magic (image ++ bytes) ≡ true
first-magic s [] bytes e h k = ground arith
first-magic s (x ∷ xs) bytes e h k = has_ota_magic-append (x ∷ xs) bytes (h (omega arith))

absorbed_lem :
    (o s : Updater) (image bytes : List ℕ) (now : ℕ)
    → IsFetching o s image
    → ltb s.received s.total ≡ true
    → s.received + length bytes ≤ o.total
    → (s.received == 0 && not (has_ota_magic bytes)) ≡ false
    → IsFetching o (absorbed now bytes s) (image ++ bytes)
unfolding absorbed apply_event
absorbed_lem o s image bytes now h room short first =
    let n = length-append image bytes in
    let t = h.total in
    let f = h.fits in
    let c = h.count in
    record {
      state = ap (λ x. apply_event x chunk) h.state;
      total = h.total;
      manifest_set = h.manifest_set;
      manifest = h.manifest;
      nonempty = h.nonempty;
      fits = h.fits;
      hashed = ap (λ l. l ++ bytes) h.hashed;
      count = ground arith;
      bound = ground arith;
      magic = λ _. first-magic s image bytes h.count h.magic first;
    }

pub absorb-IsFetching :
    (o s : Updater) (image bytes : List ℕ) (now : ℕ)
    → IsFetching o s image
    → ltb s.received s.total ≡ true
    → s.received + length bytes ≤ o.total
    → (s.received == 0 && not (has_ota_magic bytes)) ≡ false
    → IsFetching o (absorb now bytes s).0 (image ++ bytes)
unfolding absorb
absorb-IsFetching o s image bytes now h room short first =
    report-IsFetching o (absorbed now bytes s) (image ++ bytes)
      (absorbed_lem o s image bytes now h room short first)

-- The loop: it gives up and is idle, or the download goes on.
abbrev pub IsPumped : Updater → List ℕ → Pumped → Type 0
IsPumped o image p =
    (restarts p.effects ≡ false)
    × (((p.gave_up ≡ true) × (p.updater.state ≡ idle))
        ⊎ ((p.gave_up ≡ false) × IsFetching o p.updater (flashed image p.effects)))

behind-IsPumped :
    (o : Updater) (image : List ℕ) (es : List Effect) (p : Pumped)
    → restarts es ≡ false
    → IsPumped o (flashed image es) p
    → IsPumped o image (behind es p)
behind-IsPumped o image es p q h = (
  rw (restarts-append es p.effects, q) h.0,
  elim h.1 [
    | inl k ↦ inl k
    | inr k ↦
        inr (k.0, subst (IsFetching o p.updater) (sym (flashed-append es p.effects image)) k.1)
  ],
)

pub fail_lem :
    (s : Updater) → s.state ≡ fetch → (restarts (fail s).1 ≡ false) × ((fail s).0.state ≡ idle)
unfolding fail apply_event restarts
fail_lem s e = ground arith

-- One read that was written, and what the loop does behind it.
written-IsPumped :
    (o s : Updater) (image bytes : List ℕ) (now : ℕ) (p : Pumped)
    → IsPumped o (image ++ bytes) p
    → IsPumped o image (behind (write_update bytes ∷ (absorb now bytes s).1) p)
unfolding absorb flashed restarts
written-IsPumped o s image bytes now p h =
    let q = report-effects (absorbed now bytes s) (image ++ bytes) in
    behind-IsPumped o image (write_update bytes ∷ (absorb now bytes s).1) p q.1
      (subst (λ l. IsPumped o l p) (sym q.0) h)

pub pump-IsPumped :
    (o s : Updater) (image : List ℕ) (now : ℕ) (rs : List Read)
    → IsFetching o s image
    → IsAnswered o.total (length image) rs
    → IsPumped o image (pump now rs s)
unfolding pump flashed restarts
pump-IsPumped o s image now [] h r = (refl, inr (refl, h))
pump-IsPumped o s image now (r ∷ rs) h k =
    elim (Bool-cases (not (ltb s.received s.total) || length r.bytes == 0)) [
      | inl e ↦ rw (e, pump) (refl, inr (refl, h))
      | inr e ↦ elim (Bool-cases (s.received == 0 && not (has_ota_magic r.bytes))) [
        | inl m ↦ rw (e, m, pump) ((fail_lem s h.state).0, inl (refl, (fail_lem s h.state).1))
        | inr m ↦ elim (Bool-cases (r.written != length r.bytes)) [
          | inl w ↦ rw (e, m, w, pump) ((fail_lem s h.state).0, inl (refl, (fail_lem s h.state).1))
          | inr w ↦
              let (fits, answered) = k (ground arith) in
              let c = h.count in
              let next = absorb-IsFetching o s image r.bytes now h (ground arith) (omega arith) m in
              rw (e, m, w, pump)
                (written-IsPumped o s image r.bytes now (pump now rs (absorb now r.bytes s).0) (
                  pump-IsPumped o (absorb now r.bytes s).0 (image ++ r.bytes) now rs next (
                    subst (λ n. IsAnswered o.total n rs) (sym (length-append image r.bytes))
                      answered)))
        ]
      ]
    ]
