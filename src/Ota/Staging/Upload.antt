-- ===== src/Ota/Staging/Upload.antt =====
-- An upload that goes through: what is served is what was sent.
pub mod Served
use desky.Prelude.{
  ℕ, ◌+◌, ◌-◌, ◌<◌, ◌≤◌, ◌≡◌, refl, sym, ap, subst, ◌∙◌, inl, inr, arith, Bool, true, false, not,
  ◌&&◌, ◌||◌, Option, none, some, List, [], ◌∷◌, ◌++◌, leb, ltb, ◌==◌, if◌then◌else◌, length,
  length-append, length-take, length-drop, take, take-append, drop, min, Bool-cases,
}
use desky.Ota.Manifest.{decide_upload_version}
use desky.Ota.Staging.{
  Staging, max_image, copy_at, attach, storage_ready, begin_upload, write_to, write_chunk,
  finish_upload, applied, BinView, bin_view, sha_hex_from_digest, parse_version_param, WriteResult,
  written, ignored,
}
use desky.Ota.Staging.Server.{
  Server, Part, is_present, parsed, is_valid, value_of, storage_of, with_storage, on_first, feed,
  on_bytes, on_last, handle_upload, handle_parts, handle_get_bin, Response, served_image,
}

-- The part of an upload for which PSRAM and the digest answer well.
abbrev pub part : Bool → Bool → Option (List ℕ) → List ℕ → List ℕ → Part
part first last param storage bytes = record {
  first = first;
  param = param;
  bytes = bytes;
  last = last;
  storage = some storage;
  started = true;
  updated = true;
  finished = true;
}

abbrev pub is_empty : List (List ℕ) → Bool
is_empty [] = true
is_empty (c ∷ cs) = false

abbrev pub later_parts : Option (List ℕ) → List ℕ → List (List ℕ) → List Part
later_parts param storage [] = []
later_parts param storage (c ∷ cs) =
    part false (is_empty cs) param storage c ∷ later_parts param storage cs

-- The calls for the pieces of a body, the first one first.
abbrev pub upload : Option (List ℕ) → List ℕ → List ℕ → List (List ℕ) → List Part
upload param storage c cs = part true (is_empty cs) param storage c ∷ later_parts param storage cs

abbrev pub flat : List (List ℕ) → List ℕ
flat [] = []
flat (c ∷ cs) = c ++ flat cs

-- No version, or one that reads as a number.
abbrev pub is_accepted : Option (List ℕ) → Bool
is_accepted none = true
is_accepted (some text) = is_valid (parse_version_param text)

-- The label behind an upload.
abbrev pub label : Option (List ℕ) → ℕ → ℕ
label none current = current
label (some text) current = value_of (parse_version_param text)

-- The buffer, where there is one, has its size.
abbrev pub IsSized : Option (List ℕ) → Type 0
IsSized none = Unit
IsSized (some buffer) = length buffer ≡ max_image

-- An upload that has received `image`.
pub record IsUploading (param : Option (List ℕ)) (v : ℕ) (s : Server) (image buffer : List ℕ)
    : Type 0 where
  pub ready : s.ready ≡ true
  pub uploading : s.staging.uploading ≡ true
  pub img : s.staging.img ≡ some buffer
  pub size : length buffer ≡ max_image
  pub count : s.staging.upload_len ≡ length image
  pub holds : take (length image) buffer ≡ image
  pub active : s.sha_active ≡ true
  pub sha_valid : s.staging.sha_valid ≡ true
  pub fed : s.fed ≡ image
  pub present : s.staging.pending_present ≡ is_present param
  pub valid : s.staging.pending_valid ≡ is_valid (parsed param)
  pub val : s.staging.pending_val ≡ value_of (parsed param)
  pub version : s.staging.version ≡ v

pub append_assoc : (xs ys zs : List ℕ) → xs ++ (ys ++ zs) ≡ (xs ++ ys) ++ zs
append_assoc [] ys zs = refl
append_assoc (x ∷ xs) ys zs = ap (λ l. x ∷ l) (append_assoc xs ys zs)

length-copy_at :
    (n : ℕ) (bytes buffer : List ℕ)
    → n + length bytes ≤ length buffer
    → length (copy_at n bytes buffer) ≡ length buffer
unfolding copy_at
length-copy_at n bytes buffer h =
    let rest = drop (n + length bytes) buffer in
    let a = length-append (take n buffer) (bytes ++ rest) in
    let b = length-append bytes rest in
    let c = length-take n buffer in let d = length-drop (n + length bytes) buffer in omega arith

take-copy_at :
    (n m : ℕ) (bytes buffer : List ℕ)
    → n + length bytes ≡ m
    → m ≤ length buffer
    → take m (copy_at n bytes buffer) ≡ take n buffer ++ bytes
unfolding copy_at
take-copy_at n m bytes buffer e h =
    let rest = drop (n + length bytes) buffer in
    let a = length-append (take n buffer) bytes in
    let c = length-take n buffer in
    ap (take m) (append_assoc (take n buffer) bytes rest)
    ∙ take-append (take n buffer ++ bytes) rest m (omega arith)

abbrev pub buffer_of : Option (List ℕ) → List ℕ → List ℕ
buffer_of none storage = storage
buffer_of (some buffer) storage = buffer

buffer_of_lem :
    (o : Option (List ℕ)) (storage : List ℕ)
    → IsSized o
    → length storage ≡ max_image
    → (storage_of o (some storage) ≡ some (buffer_of o storage))
      × ((attach o (some (buffer_of o storage)) ≡ some (buffer_of o storage))
          × (length (buffer_of o storage) ≡ max_image))
buffer_of_lem none storage i z = (refl, (refl, z))
buffer_of_lem (some buffer) storage i z = (refl, (refl, i))

take-zero : (buffer : List ℕ) → take 0 buffer ≡ []
take-zero buffer = refl

with_storage-IsUploading :
    (s : Server) (m : Staging) (param : Option (List ℕ)) (buffer : List ℕ)
    → s.ready ≡ true
    → attach m.img (some buffer) ≡ some buffer
    → length buffer ≡ max_image
    → m.pending_present ≡ is_present param
    → m.pending_valid ≡ is_valid (parsed param)
    → m.pending_val ≡ value_of (parsed param)
    → IsUploading param m.version (with_storage s m (some buffer) true) [] buffer
unfolding storage_ready
with_storage-IsUploading s m param buffer r a z p q v = rw a (record {
  ready = r;
  uploading = refl;
  img = refl;
  size = z;
  count = refl;
  holds = refl;
  active = refl;
  sha_valid = refl;
  fed = refl;
  present = p;
  valid = q;
  val = v;
  version = refl;
})

abbrev pending : Staging → Option (List ℕ) → Staging
pending m param = record m {
  upload_rejected = false;
  pending_present = is_present param;
  pending_valid = is_valid (parsed param);
  pending_val = value_of (parsed param);
}

-- The label of the first call is accepted.
begin_upload-accepted :
    (m : Staging) (param : Option (List ℕ))
    → is_accepted param ≡ true
    → (begin_upload m (is_present param) (is_valid (parsed param)) (value_of (parsed param)))
      ≡ (pending m param, false)
unfolding begin_upload
begin_upload-accepted m none a = refl
begin_upload-accepted m (some text) a = ground arith

pub first-IsUploading :
    (s : Server) (param : Option (List ℕ)) (storage bytes : List ℕ) (last : Bool)
    → s.ready ≡ true
    → is_accepted param ≡ true
    → IsSized s.staging.img
    → length storage ≡ max_image
    → IsUploading param s.staging.version
        (on_first s (part true last param storage bytes))
        []
        (buffer_of s.staging.img storage)
unfolding on_first
first-IsUploading s param storage bytes last r a i z =
    let b = buffer_of_lem s.staging.img storage i z in
    let q = begin_upload-accepted s.staging param a in
    let m = pending s.staging param in
    rw q (
      rw b.0 (
        with_storage-IsUploading s m param (buffer_of s.staging.img storage) r b.1.0 b.1.1 refl refl
          refl))

-- A chunk that fits, and an empty one.
write_chunk-written :
    (m : Staging) (bytes buffer : List ℕ)
    → m.uploading ≡ true
    → m.img ≡ some buffer
    → (length bytes == 0) ≡ false
    → m.upload_len + length bytes ≤ max_image
    → write_chunk m bytes ≡ (
      record m {
        img = some (copy_at m.upload_len bytes buffer);
        upload_len = m.upload_len + length bytes;
      },
      written,
    )
unfolding write_chunk
write_chunk-written m bytes buffer u i e n =
    let a : (not m.uploading || (length bytes == 0)) ≡ false = ground arith in
    let f : ltb max_image (m.upload_len + length bytes) ≡ false = ground arith in
    ap (write_to m bytes) i ∙ rw (a, f) refl

write_chunk-ignored :
    (m : Staging) (bytes buffer : List ℕ)
    → m.img ≡ some buffer
    → (length bytes == 0) ≡ true
    → write_chunk m bytes ≡ (m, ignored)
unfolding write_chunk
write_chunk-ignored m bytes buffer i e =
    let a : (not m.uploading || (length bytes == 0)) ≡ true = ground arith in
    ap (write_to m bytes) i ∙ rw a refl

on_bytes-feed :
    (s : Server) (p : Part) (x : Staging × WriteResult)
    → s.staging.uploading ≡ true
    → write_chunk s.staging p.bytes ≡ x
    → on_bytes s p ≡ feed s p x
unfolding on_bytes
on_bytes-feed s p x u e =
    ap (λ b. if b then feed s p (write_chunk s.staging p.bytes) else s) u ∙ ap (feed s p) e

feed-written :
    (s : Server) (p : Part) (m : Staging)
    → s.sha_active ≡ true
    → p.updated ≡ true
    → feed s p (m, written) ≡ record s { staging = m; fed = s.fed ++ p.bytes }
feed-written s p m a u =
    let b : not s.sha_active ≡ false = ap not a in
    let c : not p.updated ≡ false = ap not u in rw (b, c) refl

no_bytes : (image bytes : List ℕ) → (length bytes == 0) ≡ true → image ++ bytes ≡ image
no_bytes [] [] h = refl
no_bytes [] (b ∷ bs) h = absurd (ground arith)
no_bytes (i ∷ is) bytes h = ap (λ l. i ∷ l) (no_bytes is bytes h)

-- A part whose digest is updated.
pub bytes-IsUploading :
    (param : Option (List ℕ)) (v : ℕ) (s : Server) (image buffer : List ℕ) (p : Part)
    → IsUploading param v s image buffer
    → p.updated ≡ true
    → length image + length p.bytes ≤ max_image
    → (b : List ℕ) × IsUploading param v (on_bytes s p) (image ++ p.bytes) b
bytes-IsUploading param v s image buffer p h u n = elim (Bool-cases (length p.bytes == 0)) [
  | inl e ↦
      let w = write_chunk-ignored s.staging p.bytes buffer h.img e in
      (
        buffer,
        subst (λ x. IsUploading param v x (image ++ p.bytes) buffer)
            (sym (on_bytes-feed s p (s.staging, ignored) h.uploading w))
            (subst (λ x. IsUploading param v s x buffer) (sym (no_bytes image p.bytes e)) h),
      )
  | inr e ↦
      let c = h.count in
      let z = h.size in
      let k = s.staging.upload_len in
      let b = copy_at k p.bytes buffer in
      let m = record s.staging { img = some b; upload_len = k + length p.bytes } in
      let w = write_chunk-written s.staging p.bytes buffer h.uploading h.img e (omega arith) in
      (
        b,
        subst (λ x. IsUploading param v x (image ++ p.bytes) b)
            (sym (on_bytes-feed s p (m, written) h.uploading w ∙ feed-written s p m h.active u))
            (record {
              ready = h.ready;
              uploading = h.uploading;
              img = refl;
              size = length-copy_at k p.bytes buffer (omega arith) ∙ z;
              count = (let l = length-append image p.bytes in omega arith);
              holds =
                  (let l = length-append image p.bytes in
                    take-copy_at k (length (image ++ p.bytes)) p.bytes buffer (omega arith)
                      (omega arith)
                    ∙ ap (λ x. x ++ p.bytes) (ap (λ j. take j buffer) c ∙ h.holds));
              active = h.active;
              sha_valid = h.sha_valid;
              fed = ap (λ x. x ++ p.bytes) h.fed;
              present = h.present;
              valid = h.valid;
              val = h.val;
              version = h.version;
            }),
      )
]
