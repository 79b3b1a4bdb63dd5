-- ===== src/Ota/EndToEnd.antt =====
-- From the upload on the carrier to the restart of the head: embedded/core/src/abilities/ota and
-- embedded/head/src/abilities/ota together. The web server and the network between them are outside:
-- what they do is that the head reads the length and the digest that were handed over, and the bytes.
use desky.Prelude.{
  ℕ, ◌≤◌, ◌≡◌, sym, ap, subst, ◌∙◌, arith, Bool, true, false, Option, some, List, [], ◌∷◌, map,
  length, Each,
}
use desky.Ota.Url.{Url, parse_url}
use desky.Ota.Reply.{read_line}
use desky.Ota.Policy.{slot_bytes, has_ota_magic, manifest_matches, bytes_to_hex64}
use desky.Ota.Policy.Hex.{bytes_to_hex64-is_hex64, manifest_matches_refl}
use desky.Ota.Updater.{boot, Answer, Poll}
use desky.Ota.Updater.Fetching.{flashed, restarts}
use desky.Ota.Updater.History.{start_call, poll_call, run}
use desky.Ota.Updater.Delivery.Complete.{IsServedPoll}
use desky.Ota.Updater.Delivery.Polls.{all_bytes, reply_head, has_ota_magic-nonempty, run-update}
use desky.Ota.Staging.{max_image, sha_hex_from_digest, BinView}
use desky.Ota.Staging.Server.{Server, handle_parts, handle_get_bin, Response, served_image}
use desky.Ota.Staging.Upload.{upload, flat, is_accepted, label, IsSized}
use desky.Ota.Staging.Upload.Served.{served, upload-get}

sha_hex_from_digest-matches :
    (d : List ℕ) → manifest_matches (bytes_to_hex64 d) (sha_hex_from_digest d) ≡ true
unfolding sha_hex_from_digest
sha_hex_from_digest-matches d = manifest_matches_refl (bytes_to_hex64 d) (bytes_to_hex64-is_hex64 d)

abbrev no_view : BinView
no_view = record { busy = false; has_image = false; image = []; len = 0; version = 0; sha = [] }

view_in : Response → BinView
view_in (served_image v) = v
view_in _ = no_view

module _ (digest : List ℕ → List ℕ) where
  -- An image that fits the slot (0x1F0000 bytes) and begins as an image does is uploaded in any pieces,
  -- with no label or with one that is accepted, to a carrier whose server has begun: PSRAM gives the
  -- buffer where there is none, and mbed TLS does not fail. What the carrier serves then reaches a head
  -- that has just booted: the address parses, the connection is accepted, the reply says the length and
  -- the digest of the view, `Update.begin` and `Update.end` succeed, and the polls read the bytes of the
  -- view, each at least one, over a connection that stays open, in reads of 1 to 1460 bytes that are
  -- written whole. Then the head restarts, and its flash holds the image that was uploaded.
  pub upload-run :
      (s : Server) (param : Option (List ℕ)) (storage c : List ℕ) (cs : List (List ℕ)) (v : BinView)
      (display : Bool) (url : List ℕ) (u : Url) (a : Answer) (ps : List Poll)
      → s.ready ≡ true
      → is_accepted param ≡ true
      → IsSized s.staging.img
      → length storage ≡ max_image
      → length (flat (c ∷ cs)) ≤ slot_bytes
      → has_ota_magic (flat (c ∷ cs)) ≡ true
      → handle_get_bin (handle_parts digest s (upload param storage c cs)) ≡ served_image v
      → parse_url url ≡ some u
      → a.accepted ≡ true
      → reply_head (read_line [] a.reply)
        ≡ some (record { length = v.len; manifest_set = true; manifest = v.sha })
      → a.begun ≡ true
      → Each IsServedPoll ps
      → all_bytes ps ≡ v.image
      → (restarts (run digest (boot display) (start_call url a ∷ map poll_call ps)).1 ≡ true)
        × (flashed [] (run digest (boot display) (start_call url a ∷ map poll_call ps)).1
            ≡ flat (c ∷ cs))
  unfolding view_in
  upload-run s param storage c cs v display url u a ps r x i g f m w p y e b k q =
      let image = flat (c ∷ cs) in
      let z = has_ota_magic-nonempty image m in
      let j : v ≡ served digest (label param s.staging.version) image =
        ap view_in (sym w ∙ upload-get digest s param storage c cs r x i g z (omega arith)) in
      run-update digest display url u a
        (record { length = v.len; manifest_set = true; manifest = v.sha }) image ps p y e b
        (ap (λ (o : BinView). o.len) j) f m
        (λ o.
          subst (λ h. manifest_matches (bytes_to_hex64 (digest image)) h ≡ true)
            (sym (ap (λ (o : BinView). o.sha) j)) (sha_hex_from_digest-matches (digest image)))
        k (q ∙ ap (λ (o : BinView). o.image) j)
