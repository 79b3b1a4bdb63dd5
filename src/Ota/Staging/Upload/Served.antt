-- ===== src/Ota/Staging/Upload/Served.antt =====
-- What is served once an upload has gone through.
use desky.Prelude.{
  ℕ, ◌+◌, ◌<◌, ◌≤◌, ◌≡◌, refl, sym, ap, subst, ◌∙◌, arith, Bool, true, false, not, ◌&&◌, Option,
  none, some, List, [], ◌∷◌, ◌++◌, ltb, if◌then◌else◌, length, length-append, take,
}
use desky.Ota.Manifest.{decide_upload_version}
use desky.Ota.Staging.{
  Staging, max_image, commit_upload, finish_upload, applied, view_of, BinView, bin_view,
  sha_hex_from_digest, parse_version_param,
}
use desky.Ota.Staging.Server.{
  Server, Part, is_present, parsed, is_valid, value_of, on_first, on_bytes, on_last, handle_upload,
  handle_parts, handle_get_bin, Response, served_image, empty, busy,
}
use desky.Ota.Staging.Upload.{
  part, is_empty, later_parts, upload, flat, is_accepted, label, IsSized, IsUploading, buffer_of,
  append_assoc, first-IsUploading, bytes-IsUploading,
}

no_more : (c : List ℕ) → c ++ [] ≡ c
no_more [] = refl
no_more (x ∷ xs) = ap (λ l. x ∷ l) (no_more xs)

applied_lem :
    (param : Option (List ℕ)) (v : ℕ)
    → is_accepted param ≡ true
    → applied
        (decide_upload_version
          (is_present param)
          (is_valid (parsed param))
          (value_of (parsed param))
          v)
        v
      ≡ label param v
unfolding decide_upload_version
applied_lem none v a = refl
applied_lem (some text) v a =
    let b : not (is_valid (parse_version_param text)) ≡ false = ap not a in rw b refl

finish_upload_lem :
    (m : Staging) (d : List ℕ)
    → m.uploading ≡ true
    → m.sha_valid ≡ true
    → (finish_upload m (some d)).0 ≡ commit_upload m (sha_hex_from_digest d)
unfolding finish_upload
finish_upload_lem m d u v =
    let hex = if m.sha_valid then sha_hex_from_digest d else [] in
    let go : Bool → Staging × Bool =
      λ b. if not b then (record m { upload_ok = false }, false) else (commit_upload m hex, true) in
    ap (λ b. (go b).0) u ∙ ap (λ b. commit_upload m (if b then sha_hex_from_digest d else [])) v

bin_view-commit_upload :
    (m : Staging) (hex buffer image : List ℕ) (version : ℕ)
    → m.img ≡ some buffer
    → m.upload_len ≡ length image
    → 0 < length image
    → take (length image) buffer ≡ image
    → applied
        (decide_upload_version m.pending_present m.pending_valid m.pending_val m.version)
        m.version
      ≡ version
    → bin_view (commit_upload m hex) ≡ record {
      busy = false;
      has_image = true;
      image = image;
      len = length image;
      version = version;
      sha = hex;
    }
unfolding bin_view
bin_view-commit_upload m hex buffer image version i n z h v =
    let view : ℕ → List ℕ → ℕ → BinView = λ k bs w. record {
      busy = false;
      has_image = true;
      image = bs;
      len = k;
      version = w;
      sha = hex;
    } in
    let a : ltb 0 m.upload_len ≡ true = ground arith in
    let w =
      applied (decide_upload_version m.pending_present m.pending_valid m.pending_val m.version)
        m.version in
    ap (view_of (commit_upload m hex)) i
    ∙ (ap
          (λ b. if b then view m.upload_len (take m.upload_len buffer) w else record {
            busy = false;
            has_image = false;
            image = [];
            len = 0;
            version = 0;
            sha = [];
          })
          a
        ∙ (ap (λ k. view k (take k buffer) w) n
            ∙ (ap (λ x. view (length image) x w) h ∙ ap (view (length image) image) v)))

handle_get_bin-served :
    (s : Server) (v : BinView)
    → s.ready ≡ true
    → bin_view s.staging ≡ v
    → v.busy ≡ false
    → v.has_image ≡ true
    → handle_get_bin s ≡ served_image v
unfolding handle_get_bin
handle_get_bin-served s v r e b h =
    let go : Bool → BinView → Response = λ x w.
      if not x
      then empty
      else if w.busy
      then busy
      else if not w.has_image
      then empty
      else served_image w in
    ap (λ x. go x (bin_view s.staging)) r ∙ (ap (go true) e ∙ rw (b, h) refl)

module _ (digest : List ℕ → List ℕ) where
  -- What is served of an image of the version.
  abbrev pub served : ℕ → List ℕ → BinView
  served version image = record {
    busy = false;
    has_image = true;
    image = image;
    len = length image;
    version = version;
    sha = sha_hex_from_digest (digest image);
  }

  on_last-finish :
      (s : Server) (p : Part)
      → s.staging.uploading ≡ true
      → s.staging.sha_valid ≡ true
      → s.sha_active ≡ true
      → p.finished ≡ true
      → on_last digest s p ≡ record s {
        staging = commit_upload s.staging (sha_hex_from_digest (digest s.fed));
        sha_active = false;
      }
  unfolding on_last
  on_last-finish s p u v a f =
      let b : s.sha_active && p.finished ≡ true = ground arith in
      let o = if s.sha_active && p.finished then some (digest s.fed) else none in
      ap
        (λ c.
          if c
          then record s { staging = (finish_upload s.staging o).0; sha_active = false }
          else record s { staging = (finish_upload s.staging none).0 })
        u
      ∙ (ap
            (λ c. record s {
              staging = (finish_upload s.staging (if c then some (digest s.fed) else none)).0;
              sha_active = false;
            })
            b
          ∙ ap (λ m. record s { staging = m; sha_active = false })
              (finish_upload_lem s.staging (digest s.fed) u v))

  on_last-served :
      (param : Option (List ℕ)) (v : ℕ) (s : Server) (image buffer : List ℕ) (p : Part)
      → IsUploading param v s image buffer
      → p.finished ≡ true
      → is_accepted param ≡ true
      → 0 < length image
      → handle_get_bin (on_last digest s p) ≡ served_image (served (label param v) image)
  on_last-served param v s image buffer p h f a z =
      let w = applied_lem param v a in
      let m = s.staging in
      let d : applied
            (decide_upload_version m.pending_present m.pending_valid m.pending_val m.version)
            m.version
          ≡ label param v =
        ap
          (λ x. applied (decide_upload_version x m.pending_valid m.pending_val m.version) m.version)
          h.present
        ∙ (ap
              (λ x.
                applied (decide_upload_version (is_present param) x m.pending_val m.version)
                  m.version)
              h.valid
            ∙ (ap
                  (λ x.
                    applied
                      (decide_upload_version (is_present param) (is_valid (parsed param)) x
                        m.version)
                      m.version)
                  h.val
                ∙ (ap
                      (λ x.
                        applied
                          (decide_upload_version (is_present param) (is_valid (parsed param))
                            (value_of (parsed param)) x)
                          x)
                      h.version
                    ∙ w))) in
      ap handle_get_bin (on_last-finish s p h.uploading h.sha_valid h.active f)
      ∙ (handle_get_bin-served _ _ h.ready
            (bin_view-commit_upload m (sha_hex_from_digest (digest s.fed)) buffer image
              (label param v) h.img h.count z h.holds d)
            refl refl
          ∙ ap
              (λ x. served_image (record {
                busy = false;
                has_image = true;
                image = image;
                len = length image;
                version = label param v;
                sha = sha_hex_from_digest (digest x);
              }))
              h.fed)

  -- A call of the handler, the server being ready.
  pub later-step :
      (s : Server) (p : Part)
      → s.ready ≡ true
      → p.first ≡ false
      → handle_upload digest s p
        ≡ (if p.last then on_last digest (on_bytes s p) p else on_bytes s p)
  unfolding handle_upload
  later-step s p r f =
      ap
        (λ b.
          if not b
          then s
          else if p.last
          then on_last digest (on_bytes (if p.first then on_first s p else s) p) p
          else on_bytes (if p.first then on_first s p else s) p)
        r
      ∙ ap
          (λ b.
            if p.last
            then on_last digest (on_bytes (if b then on_first s p else s) p) p
            else on_bytes (if b then on_first s p else s) p)
          f

  pub first-step :
      (s : Server) (p : Part)
      → s.ready ≡ true
      → p.first ≡ true
      → handle_upload digest s p ≡ (
          if p.last
          then on_last digest (on_bytes (on_first s p) p) p
          else on_bytes (on_first s p) p)
  unfolding handle_upload
  first-step s p r f =
      ap
        (λ b.
          if not b
          then s
          else if p.last
          then on_last digest (on_bytes (if p.first then on_first s p else s) p) p
          else on_bytes (if p.first then on_first s p else s) p)
        r
      ∙ ap
          (λ b.
            if p.last
            then on_last digest (on_bytes (if b then on_first s p else s) p) p
            else on_bytes (if b then on_first s p else s) p)
          f

  -- The head of the pieces has been taken: `t` is the server behind it.
  pieces-served :
      (param : Option (List ℕ)) (v : ℕ) (storage : List ℕ) (first : Bool) (s t : Server)
      (image buffer c : List ℕ) (cs : List (List ℕ))
      → handle_upload digest s (part first (is_empty cs) param storage c) ≡ (
          if is_empty cs
          then on_last digest
              (on_bytes t (part first (is_empty cs) param storage c))
              (part first (is_empty cs) param storage c)
          else on_bytes t (part first (is_empty cs) param storage c))
      → IsUploading param v t image buffer
      → is_accepted param ≡ true
      → length image + length (flat (c ∷ cs)) ≤ max_image
      → 0 < length (image ++ flat (c ∷ cs))
      → handle_get_bin (
          handle_parts digest s
            (part first (is_empty cs) param storage c ∷ later_parts param storage cs))
        ≡ served_image (served (label param v) (image ++ flat (c ∷ cs)))
  pieces-served param v storage first s t image buffer c [] e h a n z =
      let l = no_more c in
      let q = length-append c [] in
      let u =
        bytes-IsUploading param v t image buffer (part first true param storage c) h refl
          (omega arith) in
      ap handle_get_bin e
      ∙ (on_last-served param v (on_bytes t (part first true param storage c)) (image ++ c) u.0
            (part first true param storage c) u.1 refl a (subst (λ x. 0 < length (image ++ x)) l z)
          ∙ ap (λ x. served_image (served (label param v) (image ++ x))) (sym l))
  pieces-served param v storage first s t image buffer c (d ∷ ds) e h a n z =
      let p = part first false param storage c in
      let q = length-append c (flat (d ∷ ds)) in
      let w = length-append image c in
      let u = bytes-IsUploading param v t image buffer p h refl (omega arith) in
      let t' = on_bytes t p in
      let l = append_assoc image c (flat (d ∷ ds)) in
      ap (λ x. handle_get_bin (handle_parts digest x (later_parts param storage (d ∷ ds)))) e
      ∙ (pieces-served param v storage false t' t' (image ++ c) u.0 d ds
            (later-step t' (part false (is_empty ds) param storage d) u.1.ready refl) u.1 a
            (omega arith) (subst (λ x. 0 < length x) l z)
          ∙ ap (λ x. served_image (served (label param v) x)) (sym l))

  -- An upload of at least one byte and at most 2 MiB, cut into pieces in any way, with no `?version=` or with a number, on
  -- a server that has begun: PSRAM gives the buffer where there is none, and mbed TLS does not fail.
  -- Then the image is served, with its bytes, its length, the label of the upload (or the one before)
  -- and the digest of the bytes.
  pub upload-get :
      (s : Server) (param : Option (List ℕ)) (storage c : List ℕ) (cs : List (List ℕ))
      → s.ready ≡ true
      → is_accepted param ≡ true
      → IsSized s.staging.img
      → length storage ≡ max_image
      → 0 < length (flat (c ∷ cs))
      → length (flat (c ∷ cs)) ≤ max_image
      → handle_get_bin (handle_parts digest s (upload param storage c cs))
        ≡ served_image (served (label param s.staging.version) (flat (c ∷ cs)))
  upload-get s param storage c cs r a i g z n =
      let p = part true (is_empty cs) param storage c in
      pieces-served param s.staging.version storage true s (on_first s p) []
        (buffer_of s.staging.img storage) c cs (first-step s p r refl)
        (first-IsUploading s param storage c (is_empty cs) r a i g) a (omega arith) z
