-- ===== src/Ota/Updater/History.antt =====
-- Histories of the updater from its boot: what `loop()` of embedded/head/src/main.cpp and the carrier's
-- command call, in any order.
use desky.Prelude.{ℕ, ◌≡◌, refl, sym, subst, inl, inr, arith, Bool, true, List, [], ◌∷◌, ◌++◌}
use desky.Ota.Manifest.{Channel}
use desky.Ota.Policy.{fetch}
use desky.Ota.Updater.{
  Updater, boot, Effect, Answer, ManifestAnswer, start, start_if_newer, Poll, poll,
}
use desky.Ota.Updater.Fetching.{flashed, restarts, IsAnswered, IsFetching, IsSound, flashed-append}
use desky.Ota.Updater.Safety.{IsVerified, poll-idle, poll-IsPolled}
use desky.Ota.Updater.Runs.{start-IsStarted, start_if_newer-IsStarted}

pub data Call : Type 0 where
  start_call : List ℕ → Answer → Call
  carrier_call : List ℕ → ManifestAnswer → Answer → ℕ → Channel → Call
  poll_call : Poll → Call

-- In a poll of a download, `Update.write` takes no bytes beyond the length that it was begun with.
abbrev pub IsFit : Updater → Call → Type 0
IsFit s (start_call url a) = Unit
IsFit s (carrier_call url m a v c) = Unit
IsFit s (poll_call p) = s.state ≡ fetch → IsAnswered s.total s.received p.reads

module _ (digest : List ℕ → List ℕ) where
  unfoldable pub call : Updater → Call → Updater × List Effect
  unfolding start start_if_newer poll
  call s (start_call url a) = let r = start s url a in (r.updater, r.effects)
  call s (carrier_call url m a v c) = let r = start_if_newer s url m a v c in (r.updater, r.effects)
  call s (poll_call p) = poll digest s p

  -- The updater after the calls, and all they asked for, in order.
  unfoldable pub run : Updater → List Call → Updater × List Effect
  unfolding call
  run s [] = (s, [])
  run s (c ∷ cs) = let (s1, es) = call s c in let (s2, fs) = run s1 cs in (s2, es ++ fs)

  abbrev pub IsFitRun : Updater → List Call → Type 0
  IsFitRun s [] = Unit
  IsFitRun s (c ∷ cs) = IsFit s c × IsFitRun (call s c).0 cs

  -- A call keeps the updater sound, and restarts into a checked image only.
  abbrev IsCalled : Updater → List ℕ → Updater × List Effect → Type 0
  IsCalled s image x =
      (restarts x.1 ≡ true → IsVerified digest s (flashed image x.1))
      × IsSound x.0 (flashed image x.1)

  -- A download goes on as one that began where it is.
  IsFetching-now : (o s : Updater) (image : List ℕ) → IsFetching o s image → IsFetching s s image
  IsFetching-now o s image h =
      let t = h.total in
      let z = h.nonempty in
      let f = h.fits in
      let b = h.bound in
      record {
        state = h.state;
        total = refl;
        manifest_set = refl;
        manifest = refl;
        nonempty = omega arith;
        fits = omega arith;
        hashed = h.hashed;
        count = h.count;
        bound = omega arith;
        magic = h.magic;
      }

  call-IsCalled :
      (s : Updater) (image : List ℕ) (c : Call)
      → IsSound s image
      → IsFit s c
      → IsCalled s image (call s c)
  unfolding call flashed restarts
  call-IsCalled s image (start_call url a) h k =
      let r = start-IsStarted s url a image h in (λ q. absurd (ground arith), r.1)
  call-IsCalled s image (carrier_call url m a v c) h k =
      let r = start_if_newer-IsStarted s url m a v c image h in (λ q. absurd (ground arith), r.1)
  call-IsCalled s image (poll_call p) (inl e) k =
      subst (IsCalled s image) (sym (poll-idle digest s p e)) (λ q. absurd (ground arith), inl e)
  call-IsCalled s image (poll_call p) (inr (f, n)) k =
      let r =
        poll-IsPolled digest s image p f
          (subst (λ n. IsAnswered s.total n p.reads) f.count (k f.state)) in
      (r.0, elim r.1 [ inl e ↦ inl e | inr g ↦ inr (IsFetching-now s _ _ g.0, g.1) ])

  run_keeps :
      (s : Updater) (image : List ℕ) (cs : List Call)
      → IsSound s image
      → IsFitRun s cs
      → IsSound (run s cs).0 (flashed image (run s cs).1)
  unfolding run flashed
  run_keeps s image [] h k = h
  run_keeps s image (c ∷ cs) h k =
      let (s1, es) = call s c in
      let (s2, fs) = run s1 cs in
      subst (IsSound s2) (sym (flashed-append es fs image))
        (run_keeps s1 (flashed image es) cs (call-IsCalled s image c h k.0).1 k.1)

  -- After any history of starts, carrier commands and polls from the boot, whatever the network and
  -- the flash answered, where `Update.write` takes no bytes beyond the length that it was begun with, a
  -- call that restarts the head has written an image that has exactly the length that was announced,
  -- which is not 0 and fits the slot, that begins as an image does, and that has the digest that the
  -- updater holds, where it took one from the reply.
  pub run-restart :
      (display : Bool) (cs : List Call) (c : Call)
      → IsFitRun (boot display) cs
      → IsFit (run (boot display) cs).0 c
      → restarts (call (run (boot display) cs).0 c).1 ≡ true
      → IsVerified digest
          (run (boot display) cs).0
          (flashed [] ((run (boot display) cs).1 ++ (call (run (boot display) cs).0 c).1))
  unfolding flashed
  run-restart display cs c k f r =
      let (s, es) = run (boot display) cs in
      let x = (call s c).1 in
      subst (IsVerified digest s) (sym (flashed-append es x []))
        ((call-IsCalled s (flashed [] es) c (run_keeps (boot display) [] cs (inl refl) k) f).0 r)
