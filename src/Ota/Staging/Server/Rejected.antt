-- ===== src/Ota/Staging/Server/Rejected.antt =====
-- An upload whose label is malformed changes nothing that is served.
use desky.Prelude.{
  ℕ, ◌≡◌, refl, sym, ap, ◌∙◌, arith, Bool, true, false, not, ◌&&◌, Option, none, some, List, [],
  ◌∷◌, ltb, if◌then◌else◌, if-elim, take,
}
use desky.Ota.Staging.{
  begin_upload, finish_upload, view_of, BinView, bin_view, version_view, parse_version_param,
  take_post_result,
}
use desky.Ota.Staging.Server.{
  Server, Part, on_first, on_bytes, on_last, handle_upload, handle_parts, handle_get_bin,
  handle_get_version, handle_post_done, Response, bad_version, empty, busy, served_image,
}
use desky.Ota.Staging.Upload.Served.{first-step, later-step}
use desky.Ota.Staging.Upload.{part, is_empty, later_parts, upload}

-- What a rejected upload leaves.
abbrev marked : Server → ℕ → Bool → Server
marked s val ok = record s {
  staging = record s.staging {
    upload_rejected = true;
    uploading = false;
    pending_present = true;
    pending_valid = false;
    pending_val = val;
    upload_ok = ok;
  };
}

on_first-marked :
    (s : Server) (text storage c : List ℕ) (last : Bool)
    → parse_version_param text ≡ none
    → on_first s (part true last (some text) storage c) ≡ marked s 0 s.staging.upload_ok
unfolding on_first begin_upload
on_first-marked s text storage c last h = rw h refl

marked_if :
    (s : Server) (val : ℕ) (ok last : Bool)
    → (if last then marked s val false else marked s val ok) ≡ marked s val (not last && ok)
marked_if s val ok true = refl
marked_if s val ok false = refl

-- The same view, and the same manifest.
view_of-marked :
    (s : Server) (val : ℕ) (ok : Bool) (o : Option (List ℕ))
    → s.staging.uploading ≡ false
    → view_of (marked s val ok).staging o ≡ view_of s.staging o
view_of-marked s val ok none u =
    ap (λ b. record { busy = b; has_image = false; image = []; len = 0; version = 0; sha = [] })
      (sym u)
view_of-marked s val ok (some buffer) u =
    let m = s.staging in
    let no_image : Bool → BinView =
      λ b. record { busy = b; has_image = false; image = []; len = 0; version = 0; sha = [] } in
    let shown : Bool → BinView = λ b. record {
      busy = b;
      has_image = true;
      image = take m.img_len buffer;
      len = m.img_len;
      version = m.version;
      sha = m.sha_hex;
    } in
    ap (λ b. if not b && ltb 0 m.img_len then shown b else no_image b) (sym u)

module _ (digest : List ℕ → List ℕ) where
  first-marked :
      (s : Server) (text storage c : List ℕ) (last : Bool)
      → s.ready ≡ true
      → parse_version_param text ≡ none
      → handle_upload digest s (part true last (some text) storage c)
        ≡ marked s 0 (not last && s.staging.upload_ok)
  unfolding on_bytes on_last finish_upload
  first-marked s text storage c last r h =
      let p = part true last (some text) storage c in
      first-step digest s p r refl
      ∙ (ap (λ t. if last then on_last digest (on_bytes t p) p else on_bytes t p)
            (on_first-marked s text storage c last h)
          ∙ marked_if s 0 s.staging.upload_ok last)

  later-marked :
      (s : Server) (p : Part) (val : ℕ) (ok : Bool)
      → s.ready ≡ true
      → p.first ≡ false
      → handle_upload digest (marked s val ok) p ≡ marked s val (not p.last && ok)
  unfolding on_bytes on_last finish_upload
  later-marked s p val ok r f =
      later-step digest (marked s val ok) p r f ∙ marked_if s val ok p.last

  later_parts-marked :
      (s : Server) (param : Option (List ℕ)) (storage : List ℕ) (cs : List (List ℕ)) (val : ℕ)
      (ok : Bool)
      → s.ready ≡ true
      → (b : Bool) × (handle_parts digest (marked s val ok) (later_parts param storage cs)
          ≡ marked s val b)
  later_parts-marked s param storage [] val ok r = (ok, refl)
  later_parts-marked s param storage (c ∷ cs) val ok r =
      let p = part false (is_empty cs) param storage c in
      let (b, e) = later_parts-marked s param storage cs val (not (is_empty cs) && ok) r in
      (
        b,
        ap (λ t. handle_parts digest t (later_parts param storage cs))
              (later-marked s p val ok r refl)
            ∙ e,
      )

  get_bin-marked :
      (s : Server) (val : ℕ) (ok : Bool)
      → s.staging.uploading ≡ false
      → handle_get_bin (marked s val ok) ≡ handle_get_bin s
  unfolding handle_get_bin bin_view
  get_bin-marked s val ok u =
      ap
        (λ (v : BinView).
          if not s.ready
          then empty
          else if v.busy
          then busy
          else if not v.has_image
          then empty
          else served_image v)
        (view_of-marked s val ok s.staging.img u)

  post_done-marked :
      (s : Server) (val : ℕ) (ok : Bool)
      → s.ready ≡ true
      → (handle_post_done (marked s val ok)).1 ≡ bad_version
  unfolding handle_post_done take_post_result
  post_done-marked s val ok r =
      if-elim (λ (x : Server × Response). x.1 ≡ bad_version) (not s.ready)
        (λ e. absurd (ground arith)) (λ _. refl)

  -- An upload whose `?version=` is malformed, in any pieces, on a server that has begun and has no
  -- upload under way, is answered as a bad version, and what the two GETs answer stays as it was.
  pub upload-rejected :
      (s : Server) (text storage c : List ℕ) (cs : List (List ℕ))
      → s.ready ≡ true
      → s.staging.uploading ≡ false
      → parse_version_param text ≡ none
      → let t = handle_parts digest s (upload (some text) storage c cs) in
        (handle_get_bin t ≡ handle_get_bin s)
        × ((handle_get_version t ≡ handle_get_version s) × ((handle_post_done t).1 ≡ bad_version))
  unfolding handle_get_version version_view
  upload-rejected s text storage c cs r u h =
      let ok = not (is_empty cs) && s.staging.upload_ok in
      let (b, e) = later_parts-marked s (some text) storage cs 0 ok r in
      let q =
        ap (λ t. handle_parts digest t (later_parts (some text) storage cs))
          (first-marked s text storage c (is_empty cs) r h)
        ∙ e in
      (
        ap handle_get_bin q ∙ get_bin-marked s 0 b u,
        (ap handle_get_version q, ap (λ t. (handle_post_done t).1) q ∙ post_done-marked s 0 b r),
      )
