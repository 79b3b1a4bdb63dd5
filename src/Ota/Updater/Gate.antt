-- ===== src/Ota/Updater/Gate.antt =====
-- The gate of the carrier's command on a production build: `startIfNewer` of
-- embedded/head/src/abilities/ota/ota_task.h.
use desky.Prelude.{
  ℕ, ◌<◌, ◌≡◌, refl, subst, arith, Bool, true, false, not, Option, none, some, List, if◌then◌else◌,
}
use desky.Ota.Manifest.{Manifest, manifest_url_for, should_pull_for, prod}
use desky.Ota.Policy.{can_start}
use desky.Ota.Updater.{
  Updater, Ran, Answer, ManifestAnswer, refuse, start, gate, pull_from, fetch_manifest,
  start_if_newer,
}

refused :
    (b : Bool) (s : Updater) (r : Ran)
    → (if b then refuse s else r).ok ≡ true
    → (b ≡ false) × (r.ok ≡ true)
refused true s r h = absurd (ground arith)
refused false s r h = (refl, h)

should_pull_for-lt : (v c : ℕ) → not (should_pull_for v c prod) ≡ false → c < v
unfolding should_pull_for
should_pull_for-lt v c h = ground arith

gate-lt :
    (s : Updater) (url : List ℕ) (a : Answer) (current : ℕ) (o : Option Manifest)
    → (gate s url a current prod o).ok ≡ true
    → (man : Manifest) × ((o ≡ some man) × ((current < man.version) × ((start s url a).ok ≡ true)))
gate-lt s url a current none h = absurd (ground arith)
gate-lt s url a current (some man) h =
    let r = refused (not (should_pull_for man.version current prod)) s (start s url a) h in
    (man, (refl, (should_pull_for-lt man.version current r.0, r.1)))

-- On a production build, a command of the carrier whose address ends in `/head.bin`, and is short enough
-- to have the address of a manifest beside it, begins a download only if that manifest was fetched and
-- parsed and names a version above the one that runs.
pub start_if_newer-newer :
    (s : Updater) (url murl : List ℕ) (m : ManifestAnswer) (a : Answer) (current : ℕ)
    → manifest_url_for url ≡ some murl
    → (start_if_newer s url m a current prod).ok ≡ true
    → (man : Manifest) × ((fetch_manifest murl m ≡ some man)
        × ((current < man.version) × ((start s url a).ok ≡ true)))
unfolding start_if_newer
start_if_newer-newer s url murl m a current e h =
    let r =
      refused (not (can_start s.state)) s (pull_from s url m a current prod (manifest_url_for url))
        h in
    gate-lt s url a current (fetch_manifest murl m)
      (subst (λ o. (pull_from s url m a current prod o).ok ≡ true) e r.1)
