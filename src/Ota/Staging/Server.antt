-- ===== src/Ota/Staging/Server.antt =====
-- The carrier's staging server: `OtaStaging` of embedded/core/src/abilities/ota/ota_task.h, with
-- `otaReadyToSend` of embedded/core/src/transport/link_server.h. A request handler runs under the mutex,
-- so it is one step. The web server, PSRAM and mbed TLS are outside: a part of an upload says what they
-- answer. The digest context is the list of the bytes it was fed, `digest` what is made of them.
pub mod Versions
pub mod Rejected
pub mod Once
use desky.Prelude.{
  ℕ, ◌+◌, Bool, true, false, not, ◌&&◌, ◌||◌, Option, none, some, List, [], ◌∷◌, ◌++◌, leb, ltb,
  ◌==◌, if◌then◌else◌, length, u32,
}
use desky.Ota.Manifest.{build_manifest, is_valid_ota_url_bytes, url_max, decimal}
use desky.Ota.Staging.{
  Staging, no_staging, parse_version_param, begin_upload, storage_ready, WriteResult, ignored,
  written, too_big, write_chunk, note_digest_failed, finish_upload, PostResult, take_post_result,
  BinView, bin_view, VersionView, version_view,
}

pub record Server : Type 0 where
  -- whether `begin` has made the mutex
  pub ready : Bool
  pub staging : Staging
  pub sha_active : Bool
  pub fed : List ℕ
  pub staged : List ℕ
  pub staged_valid : Bool
  pub sent : Bool

abbrev pub no_server : Server
no_server = record {
  ready = false;
  staging = no_staging;
  sha_active = false;
  fed = [];
  staged = [];
  staged_valid = false;
  sent = false;
}

-- One call of the upload handler, and what is answered in it: the value of `?version=` where there is
-- one, the buffer that PSRAM would give, and whether the steps of the digest succeed.
pub record Part : Type 0 where
  pub first : Bool
  pub param : Option (List ℕ)
  pub bytes : List ℕ
  pub last : Bool
  pub storage : Option (List ℕ)
  pub started : Bool
  pub updated : Bool
  pub finished : Bool

abbrev pub is_present : Option (List ℕ) → Bool
is_present none = false
is_present (some text) = true

abbrev pub parsed : Option (List ℕ) → Option ℕ
parsed none = none
parsed (some text) = parse_version_param text

abbrev pub is_valid : Option ℕ → Bool
is_valid none = false
is_valid (some v) = true

abbrev pub value_of : Option ℕ → ℕ
value_of none = 0
value_of (some v) = v

abbrev pub storage_of : Option (List ℕ) → Option (List ℕ) → Option (List ℕ)
storage_of none fresh = fresh
storage_of (some buffer) fresh = some buffer

abbrev pub with_storage : Server → Staging → Option (List ℕ) → Bool → Server
with_storage s m none started = record s { staging = (storage_ready m none false).0 }
with_storage s m (some buffer) started = record s {
  staging = (storage_ready m (some buffer) started).0;
  sha_active = started;
  fed = [];
}

unfoldable pub on_first : Server → Part → Server
unfolding begin_upload storage_ready parse_version_param
on_first s p =
    let version = parsed p.param in
    let (m, rejected) =
      begin_upload s.staging (is_present p.param) (is_valid version) (value_of version) in
    if rejected
    then record s { staging = m }
    else with_storage s m (storage_of m.img p.storage) p.started

abbrev pub feed : Server → Part → Staging × WriteResult → Server
feed s p (m, too_big) = record s { staging = note_digest_failed m; sha_active = false }
feed s p (m, written) =
    if not s.sha_active
    then record s { staging = m }
    else if not p.updated
    then record s { staging = note_digest_failed m; sha_active = false }
    else record s { staging = m; fed = s.fed ++ p.bytes }
feed s p (m, ignored) = record s { staging = m }

unfoldable pub on_bytes : Server → Part → Server
unfolding write_chunk note_digest_failed
on_bytes s p = if s.staging.uploading then feed s p (write_chunk s.staging p.bytes) else s

unfoldable pub stage_ota_url : Server → List ℕ → Server × Bool
unfolding is_valid_ota_url_bytes
stage_ota_url s url =
    if not s.ready || length url == 0 || ltb url_max (length url)
    then (s, false)
    else if not (is_valid_ota_url_bytes url)
    then (s, false)
    else (record s { staged = url; staged_valid = true; sent = false }, true)

unfoldable pub clear_ota : Server → Server
clear_ota s =
    if not s.ready then s else record s { staged_valid = false; sent = false; staged = [] }

unfoldable pub staged_len : Server → ℕ
staged_len s = if s.ready && s.staged_valid then length s.staged else 0

unfoldable pub ota_ready_to_send : Bool → Bool → Bool → Bool
ota_ready_to_send staged_valid already_sent have_head_peer =
    staged_valid && not already_sent && have_head_peer

-- The address that is handed to `sendUnicast`, if one is, and the answer of the call. `accepted` is what
-- `sendUnicast` would say.
unfoldable pub pump_ota_link : Server → Bool → Bool → Server × Option (List ℕ) × Bool
unfolding ota_ready_to_send
pump_ota_link s have_peer accepted =
    if not s.ready
    then (s, none, false)
    else if not (ota_ready_to_send s.staged_valid s.sent have_peer)
    then (s, none, false)
    else (record s { staged_valid = false; sent = true }, some s.staged, accepted)

pub data Response : Type 0 where
  busy empty manifest_failed bad_version upload_failed : Response
  served_image : BinView → Response
  manifest : List ℕ → Response
  staged_bytes : ℕ → ℕ → Response

unfoldable pub handle_get_bin : Server → Response
unfolding bin_view
handle_get_bin s =
    let v = bin_view s.staging in
    if not s.ready
    then empty
    else if v.busy
    then busy
    else if not v.has_image
    then empty
    else served_image v

abbrev pub respond : Option (List ℕ) → Response
respond none = manifest_failed
respond (some text) = manifest text

unfoldable pub handle_get_version : Server → Response
unfolding version_view build_manifest
handle_get_version s =
    let v = version_view s.staging in
    if not s.ready
    then respond (build_manifest 0 0 [] 256)
    else respond (build_manifest v.version (u32 v.len) v.sha 256)

abbrev pub answer_post : PostResult → Response
answer_post r =
    if r.rejected
    then bad_version
    else if not r.ok
    then upload_failed
    else staged_bytes r.len r.version

unfoldable pub handle_post_done : Server → Server × Response
unfolding take_post_result
handle_post_done s =
    let (m, r) = take_post_result s.staging in
    if not s.ready then (s, upload_failed) else (record s { staging = m }, answer_post r)

module _ (digest : List ℕ → List ℕ) where
  unfoldable pub on_last : Server → Part → Server
  unfolding finish_upload
  on_last s p =
      if s.staging.uploading
      then record s {
        staging =
            (finish_upload s.staging
              (if s.sha_active && p.finished then some (digest s.fed) else none)).0;
        sha_active = false;
      }
      else record s { staging = (finish_upload s.staging none).0 }

  unfoldable pub handle_upload : Server → Part → Server
  unfolding on_first on_bytes on_last
  handle_upload s p =
      let s1 = if p.first then on_first s p else s in
      let s2 = on_bytes s1 p in if not s.ready then s else if p.last then on_last s2 p else s2

  -- The calls of one upload, or of several.
  abbrev pub handle_parts : Server → List Part → Server
  handle_parts s [] = s
  handle_parts s (p ∷ ps) = handle_parts (handle_upload s p) ps
