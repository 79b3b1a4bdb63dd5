-- ===== src/Ota/Updater/Delivery/Complete.antt =====
-- A server that sends the whole image: the head restarts into it, however it is cut into reads and
-- polls.
use desky.Prelude.{
  ℕ, ◌<◌, ◌≡◌, refl, sym, ap, subst, ◌∙◌, inr, arith, Bool, true, false, ◌||◌, List, [], ◌++◌,
  length, length-append, Each,
}
use desky.Ota.Policy.{
  has_ota_magic, stream_complete, is_torn, is_stalled, timeout_ms, verify_ok, verify_outcome,
  bytes_to_hex64, manifest_matches,
}
use desky.Ota.Updater.{
  Updater, Effect, Poll, Pumped, verdict, judge, finish, settle, after_pump, poll,
}
use desky.Ota.Updater.Fetching.{flashed, restarts, IsFetching, flashed-append, restarts-append}
use desky.Ota.Updater.Safety.{poll-fetch, judge_ok}
use desky.Ota.Updater.Delivery.{joined, IsServed, IsThrough, pump-IsThrough, append-[]}

-- A poll that reads something of a server that stays connected; `Update.end` would succeed.
abbrev pub IsServedPoll : Poll → Type 0
IsServedPoll p =
    (0 < length p.reads) × (Each IsServed p.reads × ((p.connected ≡ true) × (p.ended ≡ true)))

is_stalled-now : (now last : ℕ) → last ≡ now → is_stalled now last timeout_ms ≡ false
unfolding is_stalled
is_stalled-now now last e = ground arith

stream_complete-lt : (n m : ℕ) → n < m → stream_complete n m ≡ false
unfolding stream_complete
stream_complete-lt n m h = ground arith

stream_complete-eq : (n m : ℕ) → n ≡ m → 0 < m → stream_complete n m ≡ true
unfolding stream_complete
stream_complete-eq n m h z = ground arith

is_torn-connected : (a c : Bool) (n m : ℕ) → c ≡ true → is_torn a c n m ≡ false
unfolding is_torn
is_torn-connected a c n m h = ground arith

or_true : (b : Bool) → (b || true) ≡ true
or_true b = ground arith

pub restarts_later : (es fs : List Effect) → restarts fs ≡ true → restarts (es ++ fs) ≡ true
restarts_later es fs h = rw (restarts-append es fs, h) (or_true (restarts es))

verify_outcome-matched :
    (b : Bool) (actual expected : List ℕ)
    → (b ≡ true → manifest_matches actual expected ≡ true)
    → verify_outcome b actual expected ≡ verify_ok
unfolding verify_outcome
verify_outcome-matched true actual expected h = let m = h refl in ground arith
verify_outcome-matched false actual expected h = refl

module _ (digest : List ℕ → List ℕ) where
  -- The image has the digest of the header, where one was sent.
  abbrev pub IsMatched : Updater → List ℕ → Type 0
  IsMatched o image =
      o.manifest_set ≡ true → manifest_matches (bytes_to_hex64 (digest image)) o.manifest ≡ true

  settle-goes_on :
      (o s : Updater) (image : List ℕ) (p : Poll)
      → IsFetching o s image
      → length image < o.total
      → p.connected ≡ true
      → s.last_rx ≡ p.now
      → settle digest p s ≡ (s, [])
  settle-goes_on o s image p h n c l =
      let t = h.total in
      let q = h.count in
      let a = stream_complete-lt s.received s.total (omega arith) in
      let b = is_torn-connected p.available p.connected s.received s.total c in
      rw (a, b, is_stalled-now p.now s.last_rx l) refl

  verdict-matched :
      (o s : Updater) (image : List ℕ)
      → IsFetching o s image
      → IsMatched o image
      → verdict digest s ≡ verify_ok
  verdict-matched o s image h m =
      verify_outcome-matched s.manifest_set (bytes_to_hex64 (digest s.sha)) s.manifest λ e.
        subst (λ l. manifest_matches (bytes_to_hex64 (digest l)) s.manifest ≡ true) (sym h.hashed)
          (subst (λ l. manifest_matches (bytes_to_hex64 (digest image)) l ≡ true) (sym h.manifest)
            (m (sym h.manifest_set ∙ e)))

  -- The end of a poll that restarts and leaves the flash alone.
  abbrev Restarts : List ℕ → Updater × List Effect → Type 0
  Restarts image x = (restarts x.1 ≡ true) × (flashed image x.1 ≡ image)

  settle-ends :
      (o s : Updater) (image : List ℕ) (p : Poll)
      → IsFetching o s image
      → length image ≡ o.total
      → p.ended ≡ true
      → IsMatched o image
      → Restarts image (settle digest p s)
  unfolding finish
  settle-ends o s image p h n e m =
      let t = h.total in
      let q = h.count in
      let z = h.nonempty in
      let j = judge_ok p.ended s image h.state in
      let a = stream_complete-eq s.received s.total (omega arith) (omega arith) in
      rw a (
        subst (λ v. Restarts image (judge p.ended s v)) (sym (verdict-matched o s image h m))
          (j.1.0 ∙ e, j.1.1))

  -- A poll that reads a part of the image.
  after_pump-goes_on :
      (o : Updater) (image bytes : List ℕ) (p : Poll) (m : Pumped)
      → IsThrough o image bytes p.now m
      → length (image ++ bytes) < o.total
      → p.connected ≡ true
      → (IsFetching o (after_pump digest p m).0 (image ++ bytes)
          × (flashed image (after_pump digest p m).1 ≡ image ++ bytes))
  after_pump-goes_on o image bytes p m h n c =
      let g = h.0 in
      let f = settle-goes_on o m.updater (image ++ bytes) p h.1.0 n c h.1.1.1 in
      rw (g, f) (h.1.0, ap (flashed image) (append-[] m.effects) ∙ h.1.1.0)

  -- A poll that reads the last part.
  after_pump-ends :
      (o : Updater) (image bytes : List ℕ) (p : Poll) (m : Pumped)
      → IsThrough o image bytes p.now m
      → length (image ++ bytes) ≡ o.total
      → p.ended ≡ true
      → IsMatched o (image ++ bytes)
      → (restarts (after_pump digest p m).1 ≡ true)
        × (flashed image (after_pump digest p m).1 ≡ image ++ bytes)
  after_pump-ends o image bytes p m h n e k =
      let g = h.0 in
      let f = settle-ends o m.updater (image ++ bytes) p h.1.0 n e k in
      let es = (settle digest p m.updater).1 in
      rw g (
        restarts_later m.effects es f.0,
        flashed-append m.effects es image ∙ (ap (λ l. flashed l es) h.1.1.0 ∙ f.1),
      )

  -- What a poll gives is what the loop and the end of it give.
  pub poll-goes_on :
      (o s : Updater) (image : List ℕ) (p : Poll)
      → IsFetching o s image
      → IsServedPoll p
      → length (image ++ joined p.reads) < o.total
      → has_ota_magic (image ++ joined p.reads) ≡ true
      → (IsFetching o (poll digest s p).0 (image ++ joined p.reads)
          × (flashed image (poll digest s p).1 ≡ image ++ joined p.reads))
  poll-goes_on o s image p h k n m =
      let l = length-append image (joined p.reads) in
      rw (poll-fetch digest s p h.state) (
        after_pump-goes_on o image (joined p.reads) p _
          (pump-IsThrough o s image p.now p.reads h k.1.0 (omega arith) m (inr k.0)) n k.1.1.0)

  pub poll-ends :
      (o s : Updater) (image : List ℕ) (p : Poll)
      → IsFetching o s image
      → IsServedPoll p
      → length (image ++ joined p.reads) ≡ o.total
      → has_ota_magic (image ++ joined p.reads) ≡ true
      → IsMatched o (image ++ joined p.reads)
      → (restarts (poll digest s p).1 ≡ true)
        × (flashed image (poll digest s p).1 ≡ image ++ joined p.reads)
  poll-ends o s image p h k n m d =
      let l = length-append image (joined p.reads) in
      rw (poll-fetch digest s p h.state) (
        after_pump-ends o image (joined p.reads) p _
          (pump-IsThrough o s image p.now p.reads h k.1.0 (omega arith) m (inr k.0)) n k.1.1.1 d)
