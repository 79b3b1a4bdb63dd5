-- ===== src/Ota/Updater/Delivery/Polls.antt =====
-- An update from its start to the restart of the head.
use desky.Prelude.{
  ℕ, ◌<◌, ◌≤◌, ◌≡◌, refl, sym, ap, subst, ◌∙◌, arith, Bool, true, not, Option, none, some, List, [],
  ◌∷◌, ◌++◌, map, if◌then◌else◌, length, length-append, Each, if-elim,
}
use desky.Ota.Url.{Url, parse_url, request}
use desky.Ota.Reply.{Headers, no_headers, read_line, read_headers, status_ok}
use desky.Ota.Policy.{
  idle, slot_bytes, has_ota_magic, bytes_to_hex64, manifest_matches, check_length, fitting,
}
use desky.Ota.Updater.{
  Updater, boot, Effect, connect, print, begin_update, on_display, show_bar, Answer, Ran, fetching,
  begin_update_at, begin_fetch, take_headers, behind_status, start, Poll, poll, Read,
}
use desky.Ota.Updater.Fetching.{flashed, restarts, IsFetching, flashed-append}
use desky.Ota.Updater.Runs.{fetching-IsFetching}
use desky.Ota.Updater.History.{start_call, poll_call, call, run}
use desky.Ota.Updater.Delivery.{joined, IsServed, append_assoc, append-[]}
use desky.Ota.Updater.Delivery.Complete.{
  IsServedPoll, IsMatched, poll-goes_on, poll-ends, restarts_later,
}

-- All that the polls read.
abbrev pub all_bytes : List Poll → List ℕ
all_bytes [] = []
all_bytes (p ∷ ps) = joined p.reads ++ all_bytes ps

joined-length : (rs : List Read) → 0 < length rs → Each IsServed rs → 0 < length (joined rs)
joined-length [] h k = absurd (omega arith)
joined-length (r ∷ rs) h k =
    let q = length-append r.bytes (joined rs) in let z = k.0.0 in omega arith

has_ota_magic-prefix :
    (xs ys : List ℕ) → 0 < length xs → has_ota_magic (xs ++ ys) ≡ true → has_ota_magic xs ≡ true
unfolding has_ota_magic
has_ota_magic-prefix [] ys h m = absurd (omega arith)
has_ota_magic-prefix (x ∷ xs) ys h m = m

-- What the head of a reply says, if its status line is a success.
abbrev pub reply_head : Option (List ℕ × List ℕ) → Option Headers
reply_head none = none
reply_head (some (line, rest)) =
    if status_ok line then some (read_headers no_headers [] rest).0 else none

-- A download has begun, and the flash is empty.
abbrev IsBegun : Updater → Headers → ℕ → Ran → Type 0
IsBegun s h now r =
    (r.updater ≡ fetching (take_headers s h) h.length now) × (flashed [] r.effects ≡ [])

begin_update_at-begun :
    (s : Updater) (h : Headers) (a : Answer) (es : List Effect)
    → a.begun ≡ true
    → IsBegun s h a.now (begin_update_at (take_headers s h) h.length a es)
unfolding begin_update_at flashed
begin_update_at-begun s h a es b =
    let fs = begin_update h.length ∷ on_display s (show_bar 0) in
    rw b (refl, flashed-append es fs [] ∙ ground arith)

check_length-fits : (n : ℕ) → 0 < n → n ≤ slot_bytes → check_length n slot_bytes ≡ fitting
unfolding check_length
check_length-fits n z f = ground arith

begin_fetch-begun :
    (s : Updater) (h : Headers) (a : Answer) (es : List Effect)
    → a.begun ≡ true
    → 0 < h.length
    → h.length ≤ slot_bytes
    → IsBegun s h a.now (begin_fetch (take_headers s h) h a es)
unfolding begin_fetch
begin_fetch-begun s h a es b z f =
    let q = check_length-fits h.length z f in rw q (begin_update_at-begun s h a es b)

success : (b : Bool) (r h : Headers) → (if b then some r else none) ≡ some h → (b ≡ true) × (r ≡ h)
success b r h e = ground arith

behind_status-begun :
    (s : Updater) (h : Headers) (a : Answer) (es : List Effect) (l : Option (List ℕ × List ℕ))
    → reply_head l ≡ some h
    → a.begun ≡ true
    → 0 < h.length
    → h.length ≤ slot_bytes
    → IsBegun s h a.now (behind_status s a es l)
behind_status-begun s h a es none e b z f = absurd (ground arith)
behind_status-begun s h a es (some (line, rest)) e b z f =
    let r = (read_headers no_headers [] rest).0 in
    let q = success (status_ok line) r h e in
    rw q.0 (
      subst (λ x. IsBegun s h a.now (begin_fetch (take_headers s x) x a es)) (sym q.1)
        (begin_fetch-begun s h a es b z f))

start-begun :
    (display : Bool) (url : List ℕ) (u : Url) (a : Answer) (h : Headers)
    → parse_url url ≡ some u
    → a.accepted ≡ true
    → reply_head (read_line [] a.reply) ≡ some h
    → a.begun ≡ true
    → 0 < h.length
    → h.length ≤ slot_bytes
    → IsBegun (boot display) h a.now (start (boot display) url a)
unfolding start
start-begun display url u a h p c e b z f = rw p (
    if-elim (IsBegun (boot display) h a.now) (not a.accepted) (λ w. absurd (ground arith))
      (λ _.
        behind_status-begun (boot display) h a (connect u.host u.port ∷ (print (request u) ∷ []))
          (read_line [] a.reply) e b z f))

pub has_ota_magic-nonempty : (bs : List ℕ) → has_ota_magic bs ≡ true → 0 < length bs
unfolding has_ota_magic
has_ota_magic-nonempty [] h = absurd (ground arith)
has_ota_magic-nonempty (b ∷ bs) h = omega arith

some_poll : (ps : List Poll) → 0 < length (all_bytes ps) → 0 < length ps
some_poll [] h = absurd (omega arith)
some_poll (p ∷ ps) h = omega arith

module _ (digest : List ℕ → List ℕ) where
  -- The effects end with a restart into the image.
  abbrev IsInstalled : List ℕ → List ℕ → List Effect → Type 0
  IsInstalled before image es = (restarts es ≡ true) × (flashed before es ≡ image)

  run-polls :
      (o s : Updater) (image : List ℕ) (ps : List Poll)
      → IsFetching o s image
      → Each IsServedPoll ps
      → 0 < length ps
      → length (image ++ all_bytes ps) ≡ o.total
      → has_ota_magic (image ++ all_bytes ps) ≡ true
      → IsMatched digest o (image ++ all_bytes ps)
      → IsInstalled image (image ++ all_bytes ps) (run digest s (map poll_call ps)).1
  unfolding run call
  run-polls o s image [] h k z n m d = absurd (omega arith)
  run-polls o s image (p ∷ []) h k z n m d =
      let l = joined p.reads in
      let e = append-[] l in
      let r =
        poll-ends digest o s image p h k.0 (subst (λ x. length (image ++ x) ≡ o.total) e n)
          (subst (λ x. has_ota_magic (image ++ x) ≡ true) e m)
          (subst (λ x. IsMatched digest o (image ++ x)) e d) in
      subst (λ x. IsInstalled image (image ++ x) ((poll digest s p).1 ++ [])) (sym e)
        (subst (λ es. IsInstalled image (image ++ l) es) (sym (append-[] (poll digest s p).1)) r)
  run-polls o s image (p ∷ (q ∷ qs)) h k z n m d =
      let l = joined p.reads in
      let a = append_assoc image l (all_bytes (q ∷ qs)) in
      let l1 = length-append (image ++ l) (all_bytes (q ∷ qs)) in
      let l2 = length-append (joined q.reads) (all_bytes qs) in
      let l3 = joined-length q.reads k.1.0.0 k.1.0.1.0 in
      let l4 = length-append image l in
      let l5 = joined-length p.reads k.0.0 k.0.1.0 in
      let n1 = subst (λ x. length x ≡ o.total) a n in
      let m1 = subst (λ x. has_ota_magic x ≡ true) a m in
      let g =
        poll-goes_on digest o s image p h k.0 (omega arith)
          (has_ota_magic-prefix (image ++ l) (all_bytes (q ∷ qs)) (omega arith) m1) in
      let s1 = (poll digest s p).0 in
      let r =
        run-polls o s1 (image ++ l) (q ∷ qs) g.0 k.1 (omega arith) n1 m1
          (subst (λ x. IsMatched digest o x) a d) in
      let es = (poll digest s p).1 in
      let fs = (run digest s1 (map poll_call (q ∷ qs))).1 in
      (
        restarts_later es fs r.0,
        flashed-append es fs image ∙ (ap (λ x. flashed x fs) g.1 ∙ (r.1 ∙ sym a)),
      )

  -- The polls of a download that has begun.
  begun-polls :
      (s : Updater) (h : Headers) (now : ℕ) (r : Ran) (ps : List Poll)
      → s.state ≡ idle
      → IsBegun s h now r
      → h.length ≡ length (all_bytes ps)
      → h.length ≤ slot_bytes
      → has_ota_magic (all_bytes ps) ≡ true
      → (h.manifest_set ≡ true
          → manifest_matches (bytes_to_hex64 (digest (all_bytes ps))) h.manifest ≡ true)
      → Each IsServedPoll ps
      → IsInstalled [] (all_bytes ps) (r.effects ++ (run digest r.updater (map poll_call ps)).1)
  unfolding fetching
  begun-polls s h now r ps i g n f m d k =
      let z = has_ota_magic-nonempty (all_bytes ps) m in
      let o = fetching (take_headers s h) h.length now in
      let b = fetching-IsFetching (take_headers s h) h.length now i (omega arith) f in
      let q = run-polls o o [] ps b k (some_poll ps z) (sym n) m d in
      let fs = (run digest o (map poll_call ps)).1 in
      subst (λ x. IsInstalled [] (all_bytes ps) (r.effects ++ (run digest x (map poll_call ps)).1))
        (sym g.0)
        (
          restarts_later r.effects fs q.0,
          flashed-append r.effects fs [] ∙ (ap (λ x. flashed x fs) g.1 ∙ q.1),
        )

  -- A server accepts the connection and announces the length of an image, which fits the slot and
  -- begins as an image does, with its digest or with none; `Update.begin` succeeds; and the polls read
  -- all of the image, each at least a byte, in reads that are written whole. Then the head restarts, and
  -- the flash holds the image.
  pub run-update :
      (display : Bool) (url : List ℕ) (u : Url) (a : Answer) (h : Headers) (image : List ℕ)
      (ps : List Poll)
      → parse_url url ≡ some u
      → a.accepted ≡ true
      → reply_head (read_line [] a.reply) ≡ some h
      → a.begun ≡ true
      → h.length ≡ length image
      → length image ≤ slot_bytes
      → has_ota_magic image ≡ true
      → (h.manifest_set ≡ true → manifest_matches (bytes_to_hex64 (digest image)) h.manifest ≡ true)
      → Each IsServedPoll ps
      → all_bytes ps ≡ image
      → (restarts (run digest (boot display) (start_call url a ∷ map poll_call ps)).1 ≡ true)
        × (flashed [] (run digest (boot display) (start_call url a ∷ map poll_call ps)).1 ≡ image)
  unfolding run call
  run-update display url u a h image ps p c e b n f m d k q =
      let z = has_ota_magic-nonempty image m in
      let g = start-begun display url u a h p c e b (omega arith) (omega arith) in
      subst
        (λ x. IsInstalled [] x (run digest (boot display) (start_call url a ∷ map poll_call ps)).1)
        q
        (begun-polls (boot display) h a.now (start (boot display) url a) ps refl g
          (n ∙ ap length (sym q)) (omega arith) (subst (λ x. has_ota_magic x ≡ true) (sym q) m)
          (λ w.
            subst (λ x. manifest_matches (bytes_to_hex64 (digest x)) h.manifest ≡ true) (sym q)
              (d w))
          k)
