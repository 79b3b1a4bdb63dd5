-- ===== src/Ota/Updater/Runs.antt =====
-- Runs of the updater: any sequence of starts, carrier commands and polls.
use desky.Prelude.{
  ℕ, ◌<◌, ◌≤◌, ◌≡◌, refl, sym, ap, subst, inl, inr, arith, false, not, Option, none, some, List, [],
  ◌∷◌, ◌++◌, Bool-cases, if-elim,
}
use desky.Ota.Manifest.{Manifest, manifest_url_for, should_pull_for, Channel}
use desky.Ota.Url.{Url, parse_url, request}
use desky.Ota.Reply.{Headers, no_headers, read_line, read_headers, status_ok}
use desky.Ota.Policy.{
  State, idle, apply_event, slot_bytes, can_start, stream_complete, LengthVerdict, missing, too_big,
  fitting, start_event, check_length,
}
use desky.Ota.Updater.{
  Updater, Effect, connect, print, begin_update, show_bar, on_display, Ran, Answer, ManifestAnswer,
  failed_after, fetching, begin_update_at, by_length, begin_fetch, take_headers, behind_status,
  start_at, refuse, start, fetch_manifest, gate, pull_from, start_if_newer, fail,
}
use desky.Ota.Updater.Fetching.{
  flashed, restarts, IsFetching, IsSound, flashed-append, restarts-append,
}

-- A start leaves the updater sound and restarts nothing.
abbrev IsStarted : List ℕ → Ran → Type 0
IsStarted image r = (restarts r.effects ≡ false) × IsSound r.updater (flashed image r.effects)

refuse-IsStarted : (s : Updater) (image : List ℕ) → IsSound s image → IsStarted image (refuse s)
unfolding flashed restarts
refuse-IsStarted s image h = (refl, h)

fail-idle :
    (s : Updater) → s.state ≡ idle → ((fail s).0.state ≡ idle) × (restarts (fail s).1 ≡ false)
unfolding fail apply_event restarts
fail-idle s e = ground arith

failed_after-IsStarted :
    (s : Updater) (es : List Effect) (image : List ℕ)
    → s.state ≡ idle
    → restarts es ≡ false
    → IsStarted image (failed_after es s)
failed_after-IsStarted s es image e q =
    let f = fail-idle s e in (rw (restarts-append es (fail s).1, q) f.1, inl f.0)

check_length-fitting : (n : ℕ) → check_length n slot_bytes ≡ fitting → (0 < n) × (n ≤ slot_bytes)
unfolding check_length
check_length-fitting n h = ground arith

pub fetching-IsFetching :
    (s : Updater) (n now : ℕ)
    → s.state ≡ idle
    → 0 < n
    → n ≤ slot_bytes
    → IsFetching (fetching s n now) (fetching s n now) []
unfolding fetching apply_event
fetching-IsFetching s n now e z f = record {
  state = ap (λ x. apply_event x start_event) e;
  total = refl;
  manifest_set = refl;
  manifest = refl;
  nonempty = z;
  fits = f;
  hashed = refl;
  count = refl;
  bound = omega arith;
  magic = λ h. absurd (omega arith);
}

begun_lem :
    (s : Updater) (n : ℕ) (es : List Effect) (image : List ℕ)
    → restarts es ≡ false
    → (restarts (es ++ (begin_update n ∷ on_display s (show_bar 0))) ≡ false)
      × (flashed image (es ++ (begin_update n ∷ on_display s (show_bar 0))) ≡ [])
unfolding restarts flashed
begun_lem s n es image q =
    let fs = begin_update n ∷ on_display s (show_bar 0) in
    (rw (restarts-append es fs, q) (ground arith), rw (flashed-append es fs image) (ground arith))

restarts-begin :
    (es : List Effect) (n : ℕ)
    → restarts es ≡ false
    → restarts (es ++ (begin_update n ∷ [])) ≡ false
unfolding restarts
restarts-begin es n q = rw (restarts-append es (begin_update n ∷ []), q) refl

begin_update_at-IsStarted :
    (s : Updater) (n : ℕ) (a : Answer) (es : List Effect) (image : List ℕ)
    → s.state ≡ idle
    → restarts es ≡ false
    → 0 < n
    → n ≤ slot_bytes
    → IsStarted image (begin_update_at s n a es)
unfolding begin_update_at stream_complete fetching
begin_update_at-IsStarted s n a es image e q z f = elim (Bool-cases a.begun) [
  | inl b ↦
      let l = begun_lem s n es image q in
      rw b (
        l.0,
        inr (
          subst (IsFetching (fetching s n a.now) (fetching s n a.now)) (sym l.1)
              (fetching-IsFetching s n a.now e z f),
          ground arith,
        ),
      )
  | inr b ↦ rw b (failed_after-IsStarted (record s { total = n }) _ image e (restarts-begin es n q))
]

by_length-IsStarted :
    (v : LengthVerdict) (s : Updater) (n : ℕ) (a : Answer) (es : List Effect) (image : List ℕ)
    → s.state ≡ idle
    → restarts es ≡ false
    → (v ≡ fitting → (0 < n) × (n ≤ slot_bytes))
    → IsStarted image (by_length v s n a es)
by_length-IsStarted missing s n a es image e q h = failed_after-IsStarted s es image e q
by_length-IsStarted too_big s n a es image e q h = failed_after-IsStarted s es image e q
by_length-IsStarted fitting s n a es image e q h =
    begin_update_at-IsStarted s n a es image e q (h refl).0 (h refl).1

begin_fetch-IsStarted :
    (s : Updater) (h : Headers) (a : Answer) (es : List Effect) (image : List ℕ)
    → s.state ≡ idle
    → restarts es ≡ false
    → IsStarted image (begin_fetch s h a es)
unfolding begin_fetch
begin_fetch-IsStarted s h a es image e q =
    by_length-IsStarted (check_length h.length slot_bytes) s h.length a es image e q
      (check_length-fitting h.length)

behind_status-IsStarted :
    (s : Updater) (a : Answer) (es : List Effect) (image : List ℕ) (l : Option (List ℕ × List ℕ))
    → s.state ≡ idle
    → restarts es ≡ false
    → IsStarted image (behind_status s a es l)
behind_status-IsStarted s a es image none e q = failed_after-IsStarted s es image e q
behind_status-IsStarted s a es image (some (line, rest)) e q = elim (Bool-cases (status_ok line)) [
  | inl k ↦
      let h = (read_headers no_headers [] rest).0 in
      rw k (begin_fetch-IsStarted (take_headers s h) h a es image e q)
  | inr k ↦ rw k (failed_after-IsStarted s es image e q)
]

start_at-IsStarted :
    (s : Updater) (u : Url) (a : Answer) (image : List ℕ)
    → s.state ≡ idle
    → IsStarted image (start_at s u a)
unfolding restarts flashed
start_at-IsStarted s u a image e =
    let s1 = record s { manifest_set = false; manifest = []; total = 0; received = 0 } in
    if-elim (IsStarted image) (not a.accepted) (λ _. (refl, inl e))
      (λ _.
        behind_status-IsStarted s1 a (connect u.host u.port ∷ (print (request u) ∷ [])) image
          (read_line [] a.reply) e refl)

start_with : Updater → Answer → Option Url → Ran
start_with s a none = refuse s
start_with s a (some u) = start_at s u a

start_with-IsStarted :
    (s : Updater) (a : Answer) (image : List ℕ) (o : Option Url)
    → s.state ≡ idle
    → IsStarted image (start_with s a o)
unfolding start_with
start_with-IsStarted s a image none e = refuse-IsStarted s image (inl e)
start_with-IsStarted s a image (some u) e = start_at-IsStarted s u a image e

can_start-idle : (x : State) → not (can_start x) ≡ false → x ≡ idle
can_start-idle x h = ground arith

pub start-IsStarted :
    (s : Updater) (url : List ℕ) (a : Answer) (image : List ℕ)
    → IsSound s image
    → IsStarted image (start s url a)
unfolding start start_with
start-IsStarted s url a image h =
    if-elim (IsStarted image) (not (can_start s.state)) (λ _. refuse-IsStarted s image h)
      (λ e. start_with-IsStarted s a image (parse_url url) (can_start-idle s.state e))

gate-IsStarted :
    (s : Updater) (url : List ℕ) (a : Answer) (v : ℕ) (c : Channel) (o : Option Manifest)
    (image : List ℕ)
    → IsSound s image
    → IsStarted image (gate s url a v c o)
gate-IsStarted s url a v c none image h = refuse-IsStarted s image h
gate-IsStarted s url a v c (some man) image h =
    if-elim (IsStarted image) (not (should_pull_for man.version v c))
      (λ _. refuse-IsStarted s image h) (λ _. start-IsStarted s url a image h)

pull_from-IsStarted :
    (s : Updater) (url : List ℕ) (m : ManifestAnswer) (a : Answer) (v : ℕ) (c : Channel)
    (o : Option (List ℕ)) (image : List ℕ)
    → IsSound s image
    → IsStarted image (pull_from s url m a v c o)
pull_from-IsStarted s url m a v c none image h = start-IsStarted s url a image h
pull_from-IsStarted s url m a v c (some murl) image h =
    gate-IsStarted s url a v c (fetch_manifest murl m) image h

pub start_if_newer-IsStarted :
    (s : Updater) (url : List ℕ) (m : ManifestAnswer) (a : Answer) (v : ℕ) (c : Channel)
    (image : List ℕ)
    → IsSound s image
    → IsStarted image (start_if_newer s url m a v c)
unfolding start_if_newer
start_if_newer-IsStarted s url m a v c image h =
    if-elim (IsStarted image) (not (can_start s.state)) (λ _. refuse-IsStarted s image h)
      (λ _. pull_from-IsStarted s url m a v c (manifest_url_for url) image h)
