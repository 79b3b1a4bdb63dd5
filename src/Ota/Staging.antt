-- ===== src/Ota/Staging.antt =====
-- The carrier's staged image: `StagingManager` of embedded/core/src/abilities/ota/ota_manager.h, with the
-- helpers of ota_codec.h. The permanent buffer is the list of its bytes,
-- `max_image` of them.
pub mod Server
pub mod Upload
use desky.Prelude.{
  ℕ, zero, suc, ◌+◌, ◌-◌, Bool, true, false, not, ◌&&◌, ◌||◌, Option, none, some, List, [], ◌∷◌,
  ◌++◌, leb, ltb, ◌==◌, if◌then◌else◌, length, take, drop, u32,
}
use desky.Ota.Manifest.{
  parse_u32, build_manifest, VersionApply, keep, adopt, reject, decide_upload_version, decimal,
}
use desky.Ota.Policy.{bytes_to_hex64}
use desky.Ota.Url.{before}

abbrev pub max_image : ℕ
max_image = 0x200000

-- `?version=`: 1 to 10 characters, and before the first NUL, where the copy ends for `parseU32`, a number
-- of 32 bits.
unfoldable pub parse_version_param : List ℕ → Option ℕ
unfolding parse_u32
parse_version_param s = if length s == 0 || ltb 10 (length s) then none else parse_u32 (before 0 s)

-- The same digits as the head's `bytesToHex64`.
unfoldable pub sha_hex_from_digest : List ℕ → List ℕ
unfolding bytes_to_hex64
sha_hex_from_digest digest = bytes_to_hex64 digest

abbrev pub zeros : ℕ → List ℕ
zeros zero = []
zeros (suc n) = 48 ∷ zeros n

unfoldable pub sha_or_zeros : List ℕ → List ℕ
sha_or_zeros stored = if length stored == 0 then zeros 64 else stored

pub record Staging : Type 0 where
  -- the buffer, if it was allocated
  pub img : Option (List ℕ)
  pub img_len : ℕ
  pub upload_len : ℕ
  pub uploading : Bool
  pub upload_ok : Bool
  pub version : ℕ
  pub pending_val : ℕ
  pub pending_present : Bool
  pub pending_valid : Bool
  pub upload_rejected : Bool
  pub sha_hex : List ℕ
  pub sha_valid : Bool

abbrev pub no_staging : Staging
no_staging = record {
  img = none;
  img_len = 0;
  upload_len = 0;
  uploading = false;
  upload_ok = false;
  version = 0;
  pending_val = 0;
  pending_present = false;
  pending_valid = false;
  upload_rejected = false;
  sha_hex = [];
  sha_valid = false;
}

-- Whether the upload is rejected.
unfoldable pub begin_upload : Staging → Bool → Bool → ℕ → Staging × Bool
begin_upload s present valid val =
    let s1 = record s {
      upload_rejected = false;
      pending_present = present;
      pending_valid = valid;
      pending_val = val;
    } in
    if present && not valid
    then (record s1 { upload_rejected = true; uploading = false }, true)
    else (s1, false)

abbrev pub attach : Option (List ℕ) → Option (List ℕ) → Option (List ℕ)
attach none storage = storage
attach (some b) storage = some b

abbrev pub is_there : Option (List ℕ) → Bool
is_there none = false
is_there (some b) = true

-- Whether the upload has started.
unfoldable pub storage_ready : Staging → Option (List ℕ) → Bool → Staging × Bool
storage_ready s storage digest_ok =
    let img = attach s.img storage in
    let s1 = record s { img = img; uploading = true; upload_ok = false; upload_len = 0 } in
    if is_there img
    then (record s1 { sha_valid = digest_ok }, true)
    else (record s1 { uploading = false }, false)

pub data WriteResult : Type 0 where
  ignored written too_big : WriteResult

-- `memcpy` into the buffer at `at`.
unfoldable pub copy_at : ℕ → List ℕ → List ℕ → List ℕ
copy_at at bytes buffer = take at buffer ++ (bytes ++ drop (at + length bytes) buffer)

abbrev pub write_to : Staging → List ℕ → Option (List ℕ) → Staging × WriteResult
write_to s bytes none = (s, ignored)
write_to s bytes (some buffer) =
    if not s.uploading || length bytes == 0
    then (s, ignored)
    else if ltb max_image (s.upload_len + length bytes)
    then (record s { uploading = false; upload_len = 0; sha_valid = false }, too_big)
    else (
      record s {
        img = some (copy_at s.upload_len bytes buffer);
        upload_len = s.upload_len + length bytes;
      },
      written,
    )

unfoldable pub write_chunk : Staging → List ℕ → Staging × WriteResult
unfolding copy_at
write_chunk s bytes = write_to s bytes s.img

unfoldable pub note_digest_failed : Staging → Staging
note_digest_failed s = record s { sha_valid = false }

abbrev pub hex_of : Option (List ℕ) → List ℕ
hex_of none = []
hex_of (some digest) = sha_hex_from_digest digest

abbrev pub applied : VersionApply × ℕ → ℕ → ℕ
applied (adopt, v) current = v
applied (keep, v) current = current
applied (reject, v) current = current

-- The bytes, the label and the digest, together.
abbrev pub commit_upload : Staging → List ℕ → Staging
commit_upload s sha = record s {
  uploading = false;
  img_len = s.upload_len;
  version =
      applied (decide_upload_version s.pending_present s.pending_valid s.pending_val s.version)
        s.version;
  sha_hex = sha;
  sha_valid = false;
  upload_ok = true;
}

-- The digest is there when it was finished. Whether the upload is committed.
unfoldable pub finish_upload : Staging → Option (List ℕ) → Staging × Bool
unfolding decide_upload_version sha_hex_from_digest
finish_upload s digest =
    if not s.uploading
    then (record s { upload_ok = false }, false)
    else (commit_upload s (if s.sha_valid then hex_of digest else []), true)

pub record PostResult : Type 0 where
  pub ok : Bool
  pub len : ℕ
  pub rejected : Bool
  pub version : ℕ

unfoldable pub take_post_result : Staging → Staging × PostResult
take_post_result s = (
  record s { upload_ok = false },
  record { ok = s.upload_ok; len = s.img_len; rejected = s.upload_rejected; version = s.version },
)

-- What is served: the bytes, the version and the digest.
pub record BinView : Type 0 where
  pub busy : Bool
  pub has_image : Bool
  pub image : List ℕ
  pub len : ℕ
  pub version : ℕ
  pub sha : List ℕ

abbrev pub view_of : Staging → Option (List ℕ) → BinView
view_of s none = record {
  busy = s.uploading;
  has_image = false;
  image = [];
  len = 0;
  version = 0;
  sha = [];
}
view_of s (some buffer) =
    if not s.uploading && ltb 0 s.img_len
    then record {
      busy = s.uploading;
      has_image = true;
      image = take s.img_len buffer;
      len = s.img_len;
      version = s.version;
      sha = s.sha_hex;
    }
    else record {
      busy = s.uploading;
      has_image = false;
      image = [];
      len = 0;
      version = 0;
      sha = [];
    }

unfoldable pub bin_view : Staging → BinView
bin_view s = view_of s s.img

pub record VersionView : Type 0 where
  pub version : ℕ
  pub len : ℕ
  pub sha : List ℕ

unfoldable pub version_view : Staging → VersionView
unfolding sha_or_zeros
version_view s = record {
  version = s.version;
  len = if is_there s.img then s.img_len else 0;
  sha = sha_or_zeros s.sha_hex;
}
