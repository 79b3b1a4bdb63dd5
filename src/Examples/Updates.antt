-- ===== src/Examples/Updates.antt =====
-- An update on small inputs: an image of four bytes, and a digest that is the bytes themselves.
use desky.Prelude.{
  ℕ, zero, suc, ◌<◌, ◌≡◌, refl, ap, arith, true, false, some, none, List, [], ◌∷◌, ◌++◌, map,
  length,
}
use desky.Ota.Manifest.{Manifest, manifest_url_for, prod}
use desky.Ota.Url.{Url, parse_url}
use desky.Ota.Reply.{Headers, read_line, read_headers, status_ok}
use desky.Ota.Policy.{has_ota_magic, bytes_to_hex64, manifest_matches}
use desky.Ota.Updater.{boot, Answer, ManifestAnswer, Poll, start, fetch_manifest, start_if_newer}
use desky.Ota.Updater.Fetching.{flashed, restarts}
use desky.Ota.Updater.Safety.{IsVerified}
use desky.Ota.Updater.History.{Call, IsFit, start_call, poll_call, call, run, run-restart}
use desky.Ota.Updater.Gate.{start_if_newer-newer}
use desky.Ota.Updater.Delivery.Polls.{reply_head}
use desky.Ota.Staging.{max_image, parse_version_param, sha_hex_from_digest}
use desky.Ota.Staging.Server.{
  Server, no_server, Part, handle_parts, handle_get_bin, handle_get_version, handle_post_done,
  served_image, manifest, bad_version, stage_ota_url,
}
use desky.Ota.Staging.Upload.{part, upload, label, flat, is_accepted}
use desky.Ota.Staging.Upload.Served.{served, upload-get}
use desky.Ota.Staging.Server.Rejected.{upload-rejected}
use desky.Ota.Staging.Server.Once.{Turn, sent_by, answers, stage_ota_url-sent_by}
use desky.Ota.EndToEnd.{upload-run}

abbrev plain_digest : List ℕ → List ℕ
plain_digest bs = bs

abbrev url : List ℕ
url =
    104 ∷ 116 ∷ 116 ∷ 112 ∷ 58 ∷ 47 ∷ 47 ∷ 97 ∷ 47 ∷ 104 ∷ 101 ∷ 97 ∷ 100 ∷ 46 ∷ 98 ∷ 105 ∷ 110 ∷ []

abbrev manifest_url : List ℕ
manifest_url =
    104 ∷ 116 ∷ 116 ∷ 112 ∷ 58 ∷ 47 ∷ 47 ∷ 97 ∷ 47 ∷ 104 ∷ 101 ∷ 97 ∷ 100 ∷ 45 ∷ 118 ∷ 101 ∷ 114
    ∷ 115 ∷ 105 ∷ 111 ∷ 110 ∷ []

abbrev address : Url
address = record {
  host = 97 ∷ [];
  port = 80;
  path = 47 ∷ 104 ∷ 101 ∷ 97 ∷ 100 ∷ 46 ∷ 98 ∷ 105 ∷ 110 ∷ [];
}

url_parses : parse_url url ≡ some address
unfolding parse_url
url_parses = refl

abbrev zero_text : ℕ → List ℕ
zero_text zero = []
zero_text (suc n) = 48 ∷ zero_text n

abbrev hex : List ℕ
hex = 101 ∷ 57 ∷ 48 ∷ 49 ∷ 48 ∷ 50 ∷ 48 ∷ 51 ∷ zero_text 56

abbrev reply : List ℕ
reply =
    (72 ∷ 84 ∷ 84 ∷ 80 ∷ 47 ∷ 49 ∷ 46 ∷ 48 ∷ 32 ∷ 50 ∷ 48 ∷ 48 ∷ 32 ∷ 79 ∷ 75 ∷ 13 ∷ 10 ∷ 67 ∷ 111
      ∷ 110 ∷ 116 ∷ 101 ∷ 110 ∷ 116 ∷ 45 ∷ 76 ∷ 101 ∷ 110 ∷ 103 ∷ 116 ∷ 104 ∷ 58 ∷ 32 ∷ 52 ∷ 13 ∷ 10
      ∷ 88 ∷ 45 ∷ 70 ∷ 105 ∷ 114 ∷ 109 ∷ 119 ∷ 97 ∷ 114 ∷ 101 ∷ 45 ∷ 83 ∷ 104 ∷ 97 ∷ 50 ∷ 53 ∷ 54
      ∷ 58 ∷ 32 ∷ [])
    ++ (hex ++ (13 ∷ 10 ∷ 13 ∷ 10 ∷ []))

abbrev answer : Answer
answer = record { accepted = true; reply = reply; begun = true; now = 0 }

abbrev headers : Headers
headers = record { length = 4; manifest_set = true; manifest = hex }

reply_says : reply_head (read_line [] answer.reply) ≡ some headers
unfolding read_line read_headers status_ok
reply_says = refl

abbrev polled : ℕ → List ℕ → Poll
polled now bytes = record {
  now = now;
  reads = record { bytes = bytes; written = length bytes } ∷ [];
  available = false;
  connected = true;
  ended = true;
}

abbrev polls : List Poll
polls = polled 10 (0xE9 ∷ 1 ∷ []) ∷ (polled 20 (2 ∷ 3 ∷ []) ∷ [])

abbrev image : List ℕ
image = 0xE9 ∷ 1 ∷ 2 ∷ 3 ∷ []

image_magic : has_ota_magic image ≡ true
unfolding has_ota_magic
image_magic = refl

image_matches : manifest_matches (bytes_to_hex64 (plain_digest image)) hex ≡ true
unfolding manifest_matches bytes_to_hex64
image_matches = refl

-- The second poll restarts.
abbrev before_last : List Call
before_last = start_call url answer ∷ (poll_call (polled 10 (0xE9 ∷ 1 ∷ [])) ∷ [])

abbrev last_call : Call
last_call = poll_call (polled 20 (2 ∷ 3 ∷ []))

second_poll_run :
    restarts (call plain_digest (run plain_digest (boot false) before_last).0 last_call).1 ≡ true
unfolding restarts run
second_poll_run = refl

first_poll-IsFit :
    IsFit
      (call plain_digest (boot false) (start_call url answer)).0
      (poll_call (polled 10 (0xE9 ∷ 1 ∷ [])))
unfolding call
first_poll-IsFit = λ _ _. (omega arith, tt)

last_call-IsFit : IsFit (run plain_digest (boot false) before_last).0 last_call
unfolding run
last_call-IsFit = λ _ _. (omega arith, tt)

run-restart_example : IsVerified plain_digest (run plain_digest (boot false) before_last).0 (
    flashed [] (
      (run plain_digest (boot false) before_last).1
      ++ (call plain_digest (run plain_digest (boot false) before_last).0 last_call).1))
run-restart_example =
    run-restart plain_digest false before_last last_call (tt, (first_poll-IsFit, tt))
      last_call-IsFit second_poll_run

abbrev manifest_answer : ManifestAnswer
manifest_answer = record {
  accepted = true;
  reply =
      (72 ∷ 84 ∷ 84 ∷ 80 ∷ 47 ∷ 49 ∷ 46 ∷ 48 ∷ 32 ∷ 50 ∷ 48 ∷ 48 ∷ 32 ∷ 79 ∷ 75 ∷ 13 ∷ 10 ∷ 67 ∷ 111
        ∷ 110 ∷ 116 ∷ 101 ∷ 110 ∷ 116 ∷ 45 ∷ 76 ∷ 101 ∷ 110 ∷ 103 ∷ 116 ∷ 104 ∷ 58 ∷ 32 ∷ 57 ∷ 48
        ∷ 13 ∷ 10 ∷ 13 ∷ 10 ∷ 118 ∷ 101 ∷ 114 ∷ 115 ∷ 105 ∷ 111 ∷ 110 ∷ 61 ∷ 49 ∷ 50 ∷ 10 ∷ 115
        ∷ 105 ∷ 122 ∷ 101 ∷ 61 ∷ 52 ∷ 10 ∷ 115 ∷ 104 ∷ 97 ∷ 50 ∷ 53 ∷ 54 ∷ 61 ∷ [])
      ++ (hex ++ (10 ∷ []));
}

manifest_beside : manifest_url_for url ≡ some manifest_url
unfolding manifest_url_for
manifest_beside = refl

newer_starts : (start_if_newer (boot true) url manifest_answer answer 11 prod).ok ≡ true
unfolding start_if_newer
newer_starts = refl

start_if_newer-newer_example :
    (man : Manifest) × ((fetch_manifest manifest_url manifest_answer ≡ some man)
      × ((11 < man.version) × ((start (boot true) url answer).ok ≡ true)))
start_if_newer-newer_example =
    start_if_newer-newer (boot true) url manifest_url manifest_answer answer 11 manifest_beside
      newer_starts

-- A buffer of PSRAM.
blank : ℕ → List ℕ
blank zero = []
blank (suc n) = 0 ∷ blank n

length-blank : (n : ℕ) → length (blank n) ≡ n
unfolding blank
length-blank zero = refl
length-blank (suc n) = ap suc (length-blank n)

abbrev server : Server
server = record no_server { ready = true }

abbrev twelve : List ℕ
twelve = 49 ∷ 50 ∷ []

twelve_accepted : is_accepted (some twelve) ≡ true
unfolding parse_version_param
twelve_accepted = refl

abbrev sent : Server
sent =
    handle_parts plain_digest server
      (upload (some twelve) (blank max_image) (0xE9 ∷ 1 ∷ 2 ∷ []) ((3 ∷ []) ∷ []))

upload-get_example :
    handle_get_bin sent ≡ served_image (served plain_digest (label (some twelve) 0) image)
upload-get_example =
    upload-get plain_digest server (some twelve) (blank max_image) (0xE9 ∷ 1 ∷ 2 ∷ [])
      ((3 ∷ []) ∷ []) refl twelve_accepted tt (length-blank max_image) (omega arith) (omega arith)

served_says :
    reply_head (read_line [] answer.reply)
    ≡ some (record {
      length = (served plain_digest (label (some twelve) 0) image).len;
      manifest_set = true;
      manifest = (served plain_digest (label (some twelve) 0) image).sha;
    })
unfolding read_line read_headers status_ok sha_hex_from_digest
served_says = refl

upload-run_example :
    (restarts (run plain_digest (boot true) (start_call url answer ∷ map poll_call polls)).1 ≡ true)
    × (flashed [] (run plain_digest (boot true) (start_call url answer ∷ map poll_call polls)).1
        ≡ flat ((0xE9 ∷ 1 ∷ 2 ∷ []) ∷ ((3 ∷ []) ∷ [])))
upload-run_example =
    upload-run plain_digest server (some twelve) (blank max_image) (0xE9 ∷ 1 ∷ 2 ∷ [])
      ((3 ∷ []) ∷ []) (served plain_digest (label (some twelve) 0) image) true url address answer
      polls refl twelve_accepted tt (length-blank max_image) (omega arith) image_magic
      upload-get_example url_parses refl served_says refl
      (
        (omega arith, (((omega arith, (omega arith, refl)), tt), (refl, refl))),
        ((omega arith, (((omega arith, (omega arith, refl)), tt), (refl, refl))), tt),
      )
      refl

-- A piece without its beginning, and an upload that PSRAM has no room for.
abbrev strays : List Part
strays =
    part false false none [] (1 ∷ [])
    ∷ (record (part true true (some twelve) [] (0xE9 ∷ [])) { storage = none } ∷ [])

-- `1x` is no version.
abbrev no_version : List ℕ
no_version = 49 ∷ 120 ∷ []

no_version_refused : parse_version_param no_version ≡ none
unfolding parse_version_param
no_version_refused = refl

upload-rejected_example :
    let t =
      handle_parts plain_digest server (upload (some no_version) [] (0xE9 ∷ []) ((1 ∷ []) ∷ [])) in
    (handle_get_bin t ≡ handle_get_bin server)
    × ((handle_get_version t ≡ handle_get_version server) × ((handle_post_done t).1 ≡ bad_version))
upload-rejected_example =
    upload-rejected plain_digest server no_version [] (0xE9 ∷ []) ((1 ∷ []) ∷ []) refl refl
      no_version_refused

url_staged : (stage_ota_url server url).1 ≡ true
unfolding stage_ota_url
url_staged = refl

-- The radio refuses the datagram of the second turn.
abbrev three_turns : List Turn
three_turns =
    record { linked = false; accepted = true }
    ∷ (record { linked = true; accepted = false }
        ∷ (record { linked = true; accepted = true } ∷ []))

stage_ota_url-sent_by_example :
    (sent_by (stage_ota_url server url).0 three_turns ≡ url ∷ [])
    × (answers (stage_ota_url server url).0 three_turns ≡ false ∷ (false ∷ (false ∷ [])))
stage_ota_url-sent_by_example = stage_ota_url-sent_by server url three_turns url_staged
