-- ===== src/Ota/Updater/Safety.antt =====
-- The head restarts into an image that was checked, whatever the network and the flash answer.
use desky.Prelude.{
  ℕ, ◌<◌, ◌≤◌, ◌≡◌, refl, sym, ap, subst, ◌∙◌, ◌⊎◌, inl, inr, arith, Bool, true, false, not, List,
  [], ◌++◌, if◌then◌else◌, length, Bool-cases,
}
use desky.Ota.Policy.{
  idle, fetch, verify_ok, verify_fail, apply_event, slot_bytes, has_ota_magic, stream_complete,
  is_torn, is_stalled, timeout_ms, verify_outcome, commit_outcome, bytes_to_hex64, manifest_matches,
  is_fetching,
}
use desky.Ota.Updater.{
  Updater, Effect, Poll, Pumped, pump, judge, verdict, finish, fail, settle, after_pump, poll,
}
use desky.Ota.Updater.Fetching.{
  flashed, restarts, IsAnswered, IsFetching, IsPumped, flashed-append, restarts-append,
  pump-IsPumped, fail_lem,
}

module _ (digest : List ℕ → List ℕ) where
  -- What has been checked of an image when the head restarts into it, `o` being the updater.
  pub record IsVerified (o : Updater) (image : List ℕ) : Type 0 where
    pub nonempty : 0 < o.total
    pub whole : length image ≡ o.total
    pub fits : o.total ≤ slot_bytes
    pub magic : has_ota_magic image ≡ true
    pub matches :
        (o.manifest_set ≡ false)
        ⊎ (manifest_matches (bytes_to_hex64 (digest image)) o.manifest ≡ true)

  verdict_lem :
      (s : Updater)
      → (verdict digest s ≡ verify_fail)
        ⊎ ((verdict digest s ≡ verify_ok)
            × (s.manifest_set ≡ true
                → manifest_matches (bytes_to_hex64 (digest s.sha)) s.manifest ≡ true))
  unfolding verify_outcome
  verdict_lem s = elim (Bool-cases s.manifest_set) [
    | inl e ↦ elim (Bool-cases (manifest_matches (bytes_to_hex64 (digest s.sha)) s.manifest)) [
      | inl m ↦ inr (ground arith, λ _. m)
      | inr m ↦ inl (ground arith)
    ]
    | inr e ↦ inr (ground arith, λ h. ground arith)
  ]

judge_fail :
    (ended : Bool) (s : Updater) (image : List ℕ)
    → s.state ≡ fetch
    → ((judge ended s verify_fail).0.state ≡ idle)
      × ((restarts (judge ended s verify_fail).1 ≡ false)
          × (flashed image (judge ended s verify_fail).1 ≡ image))
unfolding judge apply_event restarts flashed
judge_fail ended s image e = ground arith

pub judge_ok :
    (ended : Bool) (s : Updater) (image : List ℕ)
    → s.state ≡ fetch
    → ((judge ended s verify_ok).0.state ≡ idle)
      × ((restarts (judge ended s verify_ok).1 ≡ ended)
          × (flashed image (judge ended s verify_ok).1 ≡ image))
unfolding judge apply_event restarts flashed commit_outcome
judge_ok ended s image e = ground arith

flashed-fail : (s : Updater) (image : List ℕ) → flashed image (fail s).1 ≡ image
unfolding fail flashed
flashed-fail s image = ground arith

module _ (digest : List ℕ → List ℕ) where
  -- The end of a poll: a restart is into a checked image, the flash is left alone, and the download
  -- is over or goes on.
  abbrev IsSettled : Updater → List ℕ → Updater × List Effect → Type 0
  IsSettled o image x =
      (restarts x.1 ≡ true → IsVerified digest o image)
      × ((flashed image x.1 ≡ image)
          × ((x.0.state ≡ idle)
              ⊎ (IsFetching o x.0 image × (stream_complete x.0.received x.0.total ≡ false))))

  fetched-IsVerified :
      (o s : Updater) (image : List ℕ)
      → IsFetching o s image
      → stream_complete s.received s.total ≡ true
      → (s.manifest_set ≡ true → manifest_matches (bytes_to_hex64 (digest s.sha)) s.manifest ≡ true)
      → IsVerified digest o image
  unfolding stream_complete
  fetched-IsVerified o s image h full m =
      let t = h.total in
      let c = h.count in
      let z = h.nonempty in
      let b = h.bound in
      record {
        nonempty = h.nonempty;
        whole = ground arith;
        fits = h.fits;
        magic = h.magic (ground arith);
        matches = elim (Bool-cases o.manifest_set) [
          | inl e ↦ inr (
              subst (λ l. manifest_matches (bytes_to_hex64 (digest image)) l ≡ true) h.manifest
                (subst (λ l. manifest_matches (bytes_to_hex64 (digest l)) s.manifest ≡ true)
                  h.hashed (m (h.manifest_set ∙ e))))
          | inr e ↦ inl e
        ];
      }

  finish-IsSettled :
      (o s : Updater) (image : List ℕ) (ended : Bool)
      → IsFetching o s image
      → stream_complete s.received s.total ≡ true
      → IsSettled o image (finish digest ended s)
  unfolding finish
  finish-IsSettled o s image ended h full = elim (verdict_lem digest s) [
    | inl e ↦
        let j = judge_fail ended s image h.state in
        subst (λ v. IsSettled o image (judge ended s v)) (sym e)
          (λ r. absurd (ground arith), (j.1.1, inl j.0))
    | inr e ↦
        let j = judge_ok ended s image h.state in
        subst (λ v. IsSettled o image (judge ended s v)) (sym e.0)
          (λ _. fetched-IsVerified o s image h full e.1, (j.1.1, inl j.0))
  ]

  fail-IsSettled : (o s : Updater) (image : List ℕ) → s.state ≡ fetch → IsSettled o image (fail s)
  fail-IsSettled o s image e =
      let f = fail_lem s e in (λ r. absurd (ground arith), (flashed-fail s image, inl f.1))

  settle-IsSettled :
      (o s : Updater) (image : List ℕ) (p : Poll)
      → IsFetching o s image
      → IsSettled o image (settle digest p s)
  unfolding restarts flashed
  settle-IsSettled o s image p h = elim (Bool-cases (stream_complete s.received s.total)) [
    | inl e ↦ rw e (finish-IsSettled o s image p.ended h e)
    | inr e ↦ elim (Bool-cases (is_torn p.available p.connected s.received s.total)) [
      | inl t ↦ rw (e, t) (fail-IsSettled o s image h.state)
      | inr t ↦ elim (Bool-cases (is_stalled p.now s.last_rx timeout_ms)) [
        | inl q ↦ rw (e, t, q) (fail-IsSettled o s image h.state)
        | inr q ↦ rw (e, t, q) (λ r. absurd (ground arith), (refl, inr (h, e)))
      ]
    ]
  ]

  -- What a poll of a download leaves, `image` being what was written before it.
  abbrev IsPolled : Updater → List ℕ → Updater × List Effect → Type 0
  IsPolled o image x =
      (restarts x.1 ≡ true → IsVerified digest o (flashed image x.1))
      × ((x.0.state ≡ idle)
          ⊎ (IsFetching o x.0 (flashed image x.1)
              × (stream_complete x.0.received x.0.total ≡ false)))

  after_pump-IsPolled :
      (o : Updater) (image : List ℕ) (p : Poll) (m : Pumped)
      → IsPumped o image m
      → IsPolled o image (after_pump digest p m)
  after_pump-IsPolled o image p m (q, inl (g, e)) = rw g (λ r. absurd (ground arith), inl e)
  after_pump-IsPolled o image p m (q, inr (g, f)) =
      let s = settle-IsSettled o m.updater (flashed image m.effects) p f in
      let es = (settle digest p m.updater).1 in
      let a : flashed image (m.effects ++ es) ≡ flashed image m.effects =
        flashed-append m.effects es image ∙ s.1.0 in
      let b : restarts (m.effects ++ es) ≡ restarts es =
        rw (restarts-append m.effects es, q) refl in
      rw g (rw (a, b) (s.0, s.1.1))

  pub poll-fetch :
      (s : Updater) (p : Poll)
      → s.state ≡ fetch
      → poll digest s p ≡ after_pump digest p (pump p.now p.reads s)
  unfolding poll
  poll-fetch s p e =
      ap (λ x. if not (is_fetching x) then (s, []) else after_pump digest p (pump p.now p.reads s))
        e

  pub poll-idle : (s : Updater) (p : Poll) → s.state ≡ idle → poll digest s p ≡ (s, [])
  unfolding poll
  poll-idle s p e =
      ap (λ x. if not (is_fetching x) then (s, []) else after_pump digest p (pump p.now p.reads s))
        e

  pub poll-IsPolled :
      (s : Updater) (image : List ℕ) (p : Poll)
      → IsFetching s s image
      → IsAnswered s.total (length image) p.reads
      → IsPolled s image (poll digest s p)
  poll-IsPolled s image p h r =
      subst (λ x. IsPolled s image x) (sym (poll-fetch s p h.state))
        (after_pump-IsPolled s image p (pump p.now p.reads s)
          (pump-IsPumped s s image p.now p.reads h r))
