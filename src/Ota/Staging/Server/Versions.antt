-- ===== src/Ota/Staging/Server/Versions.antt =====
-- The manifest is always served, and reads back.
use desky.Prelude.{
  ℕ, ◌+◌, ◌<◌, ◌≤◌, ◌^◌, ◌≡◌, refl, ◌⊎◌, inl, inr, arith, Bool, true, false, not, ◌&&◌, ◌||◌,
  Option, none, some, List, [], ◌∷◌, ltb, ◌==◌, if◌then◌else◌, length, guard-some, bind-some,
  if-elim,
}
use desky.Ota.Manifest.{is_hex64, step_digit, parse_digits, parse_u32, decide_upload_version}
use desky.Ota.Policy.Hex.{bytes_to_hex64-is_hex64}
use desky.Ota.Staging.{
  Staging, max_image, parse_version_param, sha_hex_from_digest, begin_upload, attach, is_there,
  storage_ready, WriteResult, ignored, written, too_big, write_to, write_chunk, note_digest_failed,
  hex_of, applied, finish_upload,
}
use desky.Ota.Url.{before}
use desky.Ota.Staging.Server.{
  Server, Part, parsed, is_present, is_valid, value_of, storage_of, with_storage, on_first, feed,
  on_bytes, on_last, handle_upload, handle_parts,
}

-- What the manifest is built from is in its bounds.
pub record IsServable (m : Staging) : Type 0 where
  pub version : m.version < 2 ^ 32
  pub pending : m.pending_val < 2 ^ 32
  pub len : m.img_len ≤ max_image
  pub upload : m.upload_len ≤ max_image
  pub sha : (m.sha_hex ≡ []) ⊎ (is_hex64 m.sha_hex ≡ true)

step_digit-lt : (v c w : ℕ) → step_digit v c ≡ some w → w < 2 ^ 32
unfolding step_digit
step_digit-lt v c w h = ground arith

begin_upload-IsServable :
    (m : Staging) (present valid : Bool) (val : ℕ)
    → IsServable m
    → val < 2 ^ 32
    → IsServable (begin_upload m present valid val).0
unfolding begin_upload
begin_upload-IsServable m present valid val h v =
    if-elim (λ (x : Staging × Bool). IsServable x.0) (present && not valid)
      (λ _. record {
        version = h.version;
        pending = v;
        len = h.len;
        upload = h.upload;
        sha = h.sha;
      })
      (λ _. record {
        version = h.version;
        pending = v;
        len = h.len;
        upload = h.upload;
        sha = h.sha;
      })

storage_ready-IsServable :
    (m : Staging) (storage : Option (List ℕ)) (ok : Bool)
    → IsServable m
    → IsServable (storage_ready m storage ok).0
unfolding storage_ready
storage_ready-IsServable m storage ok h =
    if-elim (λ (x : Staging × Bool). IsServable x.0) (is_there (attach m.img storage))
      (λ _. record {
        version = h.version;
        pending = h.pending;
        len = h.len;
        upload = omega arith;
        sha = h.sha;
      })
      (λ _. record {
        version = h.version;
        pending = h.pending;
        len = h.len;
        upload = omega arith;
        sha = h.sha;
      })

write_to-IsServable :
    (m : Staging) (bytes : List ℕ) (o : Option (List ℕ))
    → IsServable m
    → IsServable (write_to m bytes o).0
write_to-IsServable m bytes none h = h
write_to-IsServable m bytes (some buffer) h =
    if-elim (λ (x : Staging × WriteResult). IsServable x.0) (not m.uploading || (length bytes == 0))
      (λ _. h)
      (λ _.
        if-elim (λ (x : Staging × WriteResult). IsServable x.0)
          (ltb max_image (m.upload_len + length bytes))
          (λ _. record {
            version = h.version;
            pending = h.pending;
            len = h.len;
            upload = omega arith;
            sha = h.sha;
          })
          (λ e. record {
            version = h.version;
            pending = h.pending;
            len = h.len;
            upload = ground arith;
            sha = h.sha;
          }))

applied-lt :
    (present valid : Bool) (val v : ℕ)
    → val < 2 ^ 32
    → v < 2 ^ 32
    → applied (decide_upload_version present valid val v) v < 2 ^ 32
unfolding decide_upload_version
applied-lt present valid val v h k = ground arith

hex_of-sha : (o : Option (List ℕ)) → (hex_of o ≡ []) ⊎ (is_hex64 (hex_of o) ≡ true)
unfolding sha_hex_from_digest
hex_of-sha none = inl refl
hex_of-sha (some d) = inr (bytes_to_hex64-is_hex64 d)

finish_upload-IsServable :
    (m : Staging) (o : Option (List ℕ)) → IsServable m → IsServable (finish_upload m o).0
unfolding finish_upload
finish_upload-IsServable m o h =
    if-elim (λ (x : Staging × Bool). IsServable x.0) (not m.uploading)
      (λ _. record {
        version = h.version;
        pending = h.pending;
        len = h.len;
        upload = h.upload;
        sha = h.sha;
      })
      (λ _. record {
        version =
            applied-lt m.pending_present m.pending_valid m.pending_val m.version h.pending
              h.version;
        pending = h.pending;
        len = h.upload;
        upload = h.upload;
        sha =
            if-elim (λ x. (x ≡ []) ⊎ (is_hex64 x ≡ true)) m.sha_valid (λ _. hex_of-sha o)
              (λ _. inl refl);
      })

parse_digits-lt : (v w : ℕ) (cs : List ℕ) → v < 2 ^ 32 → parse_digits v cs ≡ some w → w < 2 ^ 32
unfolding parse_digits
parse_digits-lt v w [] h e = ground arith
parse_digits-lt v w (c ∷ cs) h e =
    let (n, z, e') = bind-some (step_digit v c) (λ n. parse_digits n cs) e in
    parse_digits-lt n w cs (step_digit-lt v c n z) e'

parsed-lt : (o : Option ℕ) → ((w : ℕ) → o ≡ some w → w < 2 ^ 32) → value_of o < 2 ^ 32
parsed-lt none h = omega arith
parsed-lt (some w) h = h w refl

parse_version_param-lt : (text : List ℕ) (w : ℕ) → parse_version_param text ≡ some w → w < 2 ^ 32
unfolding parse_version_param parse_u32
parse_version_param-lt text w e =
    parse_digits-lt 0 w (before 0 text) (omega arith)
      (guard-some (length (before 0 text) == 0)
        (guard-some (length text == 0 || ltb 10 (length text)) e).1).1

value_of-lt : (param : Option (List ℕ)) → value_of (parsed param) < 2 ^ 32
value_of-lt none = omega arith
value_of-lt (some text) = parsed-lt (parse_version_param text) (parse_version_param-lt text)

-- The server has begun.
abbrev pub IsServing : Server → Type 0
IsServing s = (s.ready ≡ true) × IsServable s.staging

with_storage-IsServing :
    (s : Server) (m : Staging) (o : Option (List ℕ)) (started : Bool)
    → s.ready ≡ true
    → IsServable m
    → IsServing (with_storage s m o started)
with_storage-IsServing s m none started r h = (r, storage_ready-IsServable m none false h)
with_storage-IsServing s m (some buffer) started r h =
    (r, storage_ready-IsServable m (some buffer) started h)

on_first-IsServing : (s : Server) (p : Part) → IsServing s → IsServing (on_first s p)
unfolding on_first
on_first-IsServing s p (r, h) =
    let version = parsed p.param in
    let x = begin_upload s.staging (is_present p.param) (is_valid version) (value_of version) in
    let k =
      begin_upload-IsServable s.staging (is_present p.param) (is_valid version) (value_of version) h
        (value_of-lt p.param) in
    if-elim IsServing x.1 (λ _. (r, k))
      (λ _. with_storage-IsServing s x.0 (storage_of x.0.img p.storage) p.started r k)

note-IsServable : (m : Staging) → IsServable m → IsServable (note_digest_failed m)
unfolding note_digest_failed
note-IsServable m h = record {
  version = h.version;
  pending = h.pending;
  len = h.len;
  upload = h.upload;
  sha = h.sha;
}

feed-IsServing :
    (s : Server) (p : Part) (x : Staging × WriteResult)
    → s.ready ≡ true
    → IsServable x.0
    → IsServing (feed s p x)
feed-IsServing s p (m, too_big) r h = (r, note-IsServable m h)
feed-IsServing s p (m, written) r h =
    if-elim IsServing (not s.sha_active) (λ _. (r, h))
      (λ _. if-elim IsServing (not p.updated) (λ _. (r, note-IsServable m h)) (λ _. (r, h)))
feed-IsServing s p (m, ignored) r h = (r, h)

on_bytes-IsServing : (s : Server) (p : Part) → IsServing s → IsServing (on_bytes s p)
unfolding on_bytes write_chunk
on_bytes-IsServing s p (r, h) =
    if-elim IsServing s.staging.uploading
      (λ _.
        feed-IsServing s p (write_chunk s.staging p.bytes) r
          (write_to-IsServable s.staging p.bytes s.staging.img h))
      (λ _. (r, h))

module _ (digest : List ℕ → List ℕ) where
  on_last-IsServing : (s : Server) (p : Part) → IsServing s → IsServing (on_last digest s p)
  unfolding on_last
  on_last-IsServing s p (r, h) =
      if-elim IsServing s.staging.uploading
        (λ _. (
          r,
          finish_upload-IsServable s.staging
              (if s.sha_active && p.finished then some (digest s.fed) else none) h,
        ))
        (λ _. (r, finish_upload-IsServable s.staging none h))

  handle_upload-IsServing :
      (s : Server) (p : Part) → IsServing s → IsServing (handle_upload digest s p)
  unfolding handle_upload
  handle_upload-IsServing s p h =
      let s1 = if p.first then on_first s p else s in
      let k = if-elim IsServing p.first (λ _. on_first-IsServing s p h) (λ _. h) in
      let k2 = on_bytes-IsServing s1 p k in
      if-elim IsServing (not s.ready) (λ _. h)
        (λ _. if-elim IsServing p.last (λ _. on_last-IsServing (on_bytes s1 p) p k2) (λ _. k2))

  pub handle_parts-IsServing :
      (s : Server) (ps : List Part) → IsServing s → IsServing (handle_parts digest s ps)
  handle_parts-IsServing s [] h = h
  handle_parts-IsServing s (p ∷ ps) h =
      handle_parts-IsServing (handle_upload digest s p) ps (handle_upload-IsServing s p h)
