-- ===== src/Ota/Updater.antt =====
-- The head's updater: `OtaUpdater` of embedded/head/src/abilities/ota/ota_task.h. The display, the
-- socket, the flash and the clock are outside: a call takes what they answer and gives, beside the
-- updater, what it asks of them, in order. The SHA-256 context is the list of the bytes it was fed;
-- `digest` is what mbed TLS makes of them.
pub mod Fetching
pub mod Safety
pub mod Runs
pub mod History
pub mod Gate
pub mod Delivery
use desky.Prelude.{
  ℕ, ◌+◌, Bool, true, false, not, ◌&&◌, ◌||◌, Option, none, some, List, [], ◌∷◌, ◌++◌, ltb, ◌==◌,
  ◌!=◌, if◌then◌else◌, length, u32,
}
use desky.Ota.Manifest.{Manifest, manifest_url_for, should_pull_for, Channel}
use desky.Ota.Url.{Url, parse_url, request}
use desky.Ota.Reply.{Headers, no_headers, read_line, read_headers, status_ok, read_manifest}
use desky.Ota.Policy.{
  State, idle, fetch, Event, start_event, chunk, stream_end, verify_ok, verify_fail, commit_ok,
  commit_fail, abort, apply_event, can_start, is_fetching, slot_bytes, timeout_ms, has_ota_magic,
  LengthVerdict, missing, too_big, fitting, check_length, stream_complete, progress_due, is_torn,
  is_stalled, verify_outcome, commit_outcome, bytes_to_hex64,
}

pub record Updater : Type 0 where
  pub display : Bool
  pub state : State
  pub total : ℕ
  pub received : ℕ
  pub last_rx : ℕ
  pub last_pct : ℕ
  pub manifest_set : Bool
  pub manifest : List ℕ
  pub sha : List ℕ

abbrev pub boot : Bool → Updater
boot display = record {
  display = display;
  state = idle;
  total = 0;
  received = 0;
  last_rx = 0;
  last_pct = 0;
  manifest_set = false;
  manifest = [];
  sha = [];
}

pub data Effect : Type 0 where
  connect : List ℕ → ℕ → Effect
  print : List ℕ → Effect
  begin_update : ℕ → Effect
  write_update : List ℕ → Effect
  abort_update end_update stop_client : Effect
  show_bar : ℕ → Effect
  hide_bar fail_bar : Effect
  restart : Effect

pub record Ran : Type 0 where
  pub updater : Updater
  pub effects : List Effect
  pub ok : Bool

abbrev pub on_display : Updater → Effect → List Effect
on_display s e = if s.display then e ∷ [] else []

abbrev pub event : Event → Updater → Updater
event e s = record s { state = apply_event s.state e }

unfoldable pub fail : Updater → Updater × List Effect
unfolding apply_event
fail s = (event abort s, abort_update ∷ (on_display s fail_bar ++ (stop_client ∷ [])))

-- What the network and the flash answer to a start: whether the server accepts, the bytes of its reply
-- that arrive in time, and whether `Update.begin` succeeds.
pub record Answer : Type 0 where
  pub accepted : Bool
  pub reply : List ℕ
  pub begun : Bool
  pub now : ℕ

abbrev pub failed_after : List Effect → Updater → Ran
failed_after es s = let (s', fs) = fail s in record { updater = s'; effects = es ++ fs; ok = false }

-- The download begins.
unfoldable pub fetching : Updater → ℕ → ℕ → Updater
unfolding apply_event
fetching s total now =
    event start_event
      (record s { total = total; sha = []; last_rx = now; last_pct = 0; received = 0 })

unfoldable pub begin_update_at : Updater → ℕ → Answer → List Effect → Ran
unfolding fail fetching
begin_update_at s n a es =
    if not a.begun
    then failed_after (es ++ (begin_update n ∷ [])) (record s { total = n })
    else record {
      updater = fetching s n a.now;
      effects = es ++ (begin_update n ∷ on_display s (show_bar 0));
      ok = true;
    }

abbrev pub by_length : LengthVerdict → Updater → ℕ → Answer → List Effect → Ran
by_length missing s n a es = failed_after es s
by_length too_big s n a es = failed_after es s
by_length fitting s n a es = begin_update_at s n a es

-- The headers have been read.
unfoldable pub begin_fetch : Updater → Headers → Answer → List Effect → Ran
unfolding fail begin_update_at check_length
begin_fetch s h a es = by_length (check_length h.length slot_bytes) s h.length a es

abbrev pub take_headers : Updater → Headers → Updater
take_headers s h = record s { manifest_set = h.manifest_set; manifest = h.manifest }

abbrev pub behind_status : Updater → Answer → List Effect → Option (List ℕ × List ℕ) → Ran
behind_status s a es none = failed_after es s
behind_status s a es (some (line, rest)) =
    let (h, body) = read_headers no_headers [] rest in
    if not (status_ok line) then failed_after es s else begin_fetch (take_headers s h) h a es

abbrev pub start_at : Updater → Url → Answer → Ran
start_at s u a =
    let s1 = record s { manifest_set = false; manifest = []; total = 0; received = 0 } in
    let asked = connect u.host u.port ∷ [] in
    if not a.accepted
    then record { updater = s1; effects = asked; ok = false }
    else behind_status s1 a (asked ++ (print (request u) ∷ [])) (read_line [] a.reply)

abbrev pub refuse : Updater → Ran
refuse s = record { updater = s; effects = []; ok = false }

unfoldable pub start : Updater → List ℕ → Answer → Ran
unfolding begin_fetch parse_url read_line read_headers status_ok request fail
start s url a =
    if not (can_start s.state)
    then refuse s
    else elim (parse_url url) [ none ↦ refuse s | some u ↦ start_at s u a ]

-- What the manifest's connection answers: whether it is accepted, and the bytes that arrive in time.
pub record ManifestAnswer : Type 0 where
  pub accepted : Bool
  pub reply : List ℕ

unfoldable pub fetch_manifest : List ℕ → ManifestAnswer → Option Manifest
unfolding parse_url read_manifest
fetch_manifest url m = elim (parse_url url) [
  | none ↦ none
  | some u ↦ if not m.accepted then none else read_manifest m.reply
]

abbrev pub gate : Updater → List ℕ → Answer → ℕ → Channel → Option Manifest → Ran
gate s url a current channel none = refuse s
gate s url a current channel (some man) =
    if not (should_pull_for man.version current channel) then refuse s else start s url a

abbrev pub pull_from :
    Updater → List ℕ → ManifestAnswer → Answer → ℕ → Channel → Option (List ℕ) → Ran
pull_from s url m a current channel none = start s url a
pull_from s url m a current channel (some murl) =
    gate s url a current channel (fetch_manifest murl m)

-- `current` is the version that runs. The effects of the manifest's connection are left out.
unfoldable pub start_if_newer : Updater → List ℕ → ManifestAnswer → Answer → ℕ → Channel → Ran
unfolding start fetch_manifest manifest_url_for should_pull_for
start_if_newer s url m a current channel =
    if not (can_start s.state)
    then refuse s
    else pull_from s url m a current channel (manifest_url_for url)

-- One read of the socket, at most 1460 bytes, and what `Update.write` answers to them. No byte is a
-- read that fails.
pub record Read : Type 0 where
  pub bytes : List ℕ
  pub written : ℕ

pub record Poll : Type 0 where
  pub now : ℕ
  pub reads : List Read
  pub available : Bool
  pub connected : Bool
  pub ended : Bool

abbrev reported : Updater → Option ℕ → Updater × List Effect
reported s none = (s, [])
reported s (some pct) = (record s { last_pct = pct }, on_display s (show_bar pct))

unfoldable pub report : Updater → Updater × List Effect
unfolding progress_due
report s = reported s (progress_due s.received s.total s.last_pct)

-- The bytes of a read that was written.
unfoldable pub absorbed : ℕ → List ℕ → Updater → Updater
unfolding apply_event
absorbed now bytes s =
    event chunk
      (record s { sha = s.sha ++ bytes; received = u32 (s.received + length bytes); last_rx = now })

unfoldable pub absorb : ℕ → List ℕ → Updater → Updater × List Effect
unfolding report absorbed
absorb now bytes s = report (absorbed now bytes s)

-- The updater, the effects, and whether the loop gave up.
pub record Pumped : Type 0 where
  pub updater : Updater
  pub effects : List Effect
  pub gave_up : Bool

abbrev gives_up : List Effect → Updater × List Effect → Pumped
gives_up es (s, fs) = record { updater = s; effects = es ++ fs; gave_up = true }

abbrev pub behind : List Effect → Pumped → Pumped
behind es p = record p { effects = es ++ p.effects }

-- The loop over the reads, while bytes are available.
unfoldable pub pump : ℕ → List Read → Updater → Pumped
unfolding absorb fail has_ota_magic
pump now [] s = record { updater = s; effects = []; gave_up = false }
pump now (r ∷ rs) s =
    let (s1, es) = absorb now r.bytes s in
    let rest = pump now rs s1 in
    if not (ltb s.received s.total) || length r.bytes == 0
    then record { updater = s; effects = []; gave_up = false }
    else if s.received == 0 && not (has_ota_magic r.bytes)
    then gives_up [] (fail s)
    else if r.written != length r.bytes
    then gives_up (write_update r.bytes ∷ []) (fail s)
    else behind (write_update r.bytes ∷ es) rest

-- The image has been verified.
abbrev commit_image : Bool → Updater → List Effect → Updater × List Effect
commit_image ended s es =
    let s1 = event (commit_outcome ended) (event verify_ok s) in
    let tried = es ++ (on_display s (show_bar 100) ++ (end_update ∷ [])) in
    if ended
    then (s1, tried ++ (on_display s hide_bar ++ (stop_client ∷ (restart ∷ []))))
    else (s1, tried ++ (on_display s fail_bar ++ (stop_client ∷ [])))

-- Behind the verdict.
unfoldable pub judge : Bool → Updater → Event → Updater × List Effect
unfolding apply_event commit_outcome
judge ended s verify_fail = (
  event verify_fail (event stream_end s),
  on_display s (show_bar 100) ++ (abort_update ∷ (on_display s fail_bar ++ (stop_client ∷ []))),
)
judge ended s _ = commit_image ended (event stream_end s) (on_display s (show_bar 100))

module _ (digest : List ℕ → List ℕ) where
  abbrev pub verdict : Updater → Event
  verdict s = verify_outcome s.manifest_set (bytes_to_hex64 (digest s.sha)) s.manifest

  unfoldable pub finish : Bool → Updater → Updater × List Effect
  unfolding judge verify_outcome bytes_to_hex64
  finish ended s = judge ended s (verdict s)

  abbrev pub settle : Poll → Updater → Updater × List Effect
  settle p s =
      if stream_complete s.received s.total
      then finish p.ended s
      else if is_torn p.available p.connected s.received s.total
      then fail s
      else if is_stalled p.now s.last_rx timeout_ms
      then fail s
      else (s, [])

  abbrev pub after_pump : Poll → Pumped → Updater × List Effect
  after_pump p m =
      let (s, es) = settle p m.updater in
      if m.gave_up then (m.updater, m.effects) else (s, m.effects ++ es)

  unfoldable pub poll : Updater → Poll → Updater × List Effect
  unfolding pump finish fail stream_complete is_torn is_stalled
  poll s p = if not (is_fetching s.state) then (s, []) else after_pump p (pump p.now p.reads s)
