-- ===== src/Ota/Policy.antt =====
-- What the head's updater decides by: embedded/head/src/abilities/ota/ota_codec.h (the states and the
-- checks on an image) and ota_manager.h.
pub mod Hex
use desky.Prelude.{
  ℕ, zero, suc, ◌+◌, ◌-◌, ◌*◌, ◌/◌, ◌%◌, Bool, true, false, not, ◌&&◌, ◌||◌, Option, none, some,
  List, [], ◌∷◌, leb, ltb, ◌==◌, if◌then◌else◌, length, cells, u32, sub32,
}
use desky.Ota.Manifest.{is_hex64}

pub data State : Type 0 where
  idle fetch verify commit : State

pub data Event : Type 0 where
  start_event chunk stream_end verify_ok verify_fail commit_ok commit_fail abort : Event

unfoldable pub step : State → Event → State × Bool
step idle start_event = (fetch, true)
step idle abort = (idle, true)
step idle _ = (idle, false)
step fetch chunk = (fetch, true)
step fetch stream_end = (verify, true)
step fetch abort = (idle, true)
step fetch _ = (fetch, false)
step verify verify_ok = (commit, true)
step verify verify_fail = (idle, true)
step verify abort = (idle, true)
step verify _ = (verify, false)
step commit commit_ok = (idle, true)
step commit commit_fail = (idle, true)
step commit abort = (idle, true)
step commit _ = (commit, false)

unfoldable pub apply_event : State → Event → State
unfolding step
apply_event s e = (step s e).0

abbrev pub can_start : State → Bool
can_start idle = true
can_start _ = false

abbrev pub is_fetching : State → Bool
is_fetching fetch = true
is_fetching _ = false

abbrev pub slot_bytes : ℕ
slot_bytes = 0x1F0000

abbrev pub timeout_ms : ℕ
timeout_ms = 15000

abbrev pub image_magic : ℕ
image_magic = 0xE9

unfoldable pub has_ota_magic : List ℕ → Bool
has_ota_magic [] = false
has_ota_magic (b ∷ bs) = b == image_magic

unfoldable pub fits_slot : ℕ → ℕ → Bool
fits_slot image slot = if image == 0 || slot == 0 then false else leb image slot

unfoldable pub stream_complete : ℕ → ℕ → Bool
stream_complete received total = if total == 0 then false else leb total received

abbrev pub lower_hex : ℕ → ℕ
lower_hex c = if leb 65 c && leb c 70 then c + 32 else c

abbrev pub same_hex : List ℕ → List ℕ → Bool
same_hex [] [] = true
same_hex [] (y ∷ ys) = false
same_hex (x ∷ xs) [] = false
same_hex (x ∷ xs) (y ∷ ys) = lower_hex x == lower_hex y && same_hex xs ys

unfoldable pub manifest_matches : List ℕ → List ℕ → Bool
unfolding is_hex64
manifest_matches actual expected =
    if not (is_hex64 actual) || not (is_hex64 expected) then false else same_hex actual expected

-- The digit of a value below 16.
abbrev pub hex_digit : ℕ → ℕ
hex_digit v = if ltb v 10 then 48 + v else 87 + v

abbrev pub hex_pairs : List ℕ → List ℕ
hex_pairs [] = []
hex_pairs (b ∷ bs) = hex_digit (b / 16 % 16) ∷ (hex_digit (b % 16) ∷ hex_pairs bs)

-- The digest has 32 bytes.
unfoldable pub bytes_to_hex64 : List ℕ → List ℕ
bytes_to_hex64 digest = hex_pairs (cells 0 32 digest)

pub data LengthVerdict : Type 0 where
  missing too_big fitting : LengthVerdict

unfoldable pub check_length : ℕ → ℕ → LengthVerdict
unfolding fits_slot
check_length n slot =
    if n == 0 then missing else if not (fits_slot n slot) then too_big else fitting

-- The next percentage to report; it is also the last one reported from then on.
unfoldable pub progress_due : ℕ → ℕ → ℕ → Option ℕ
progress_due received total last =
    let pct = u32 (received * 100) / total in
    if total == 0 then none else if ltb pct (u32 (last + 10)) then none else some (pct - pct % 10)

unfoldable pub is_torn : Bool → Bool → ℕ → ℕ → Bool
unfolding stream_complete
is_torn available connected received total =
    not available && not connected && not (stream_complete received total)

unfoldable pub is_stalled : ℕ → ℕ → ℕ → Bool
is_stalled now last_rx timeout = leb timeout (sub32 now last_rx)

unfoldable pub verify_outcome : Bool → List ℕ → List ℕ → Event
unfolding manifest_matches
verify_outcome manifest_set actual expected =
    if manifest_set && not (manifest_matches actual expected) then verify_fail else verify_ok

unfoldable pub commit_outcome : Bool → Event
commit_outcome ended = if ended then commit_ok else commit_fail
