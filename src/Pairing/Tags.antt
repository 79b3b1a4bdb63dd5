-- ===== src/Pairing/Tags.antt =====
-- The messages that the session tags authenticate: embedded/core/src/abilities/pairing/
-- pairing_codec.h, and the drive message of `UdpServer::handleDrive`. The ASCII words are spelled
-- out as bytes.
pub mod Separation
use desky.Prelude.{ℕ, ◌+◌, ◌/◌, ◌%◌, ◌==◌, ◌∷◌, [], List, ◌++◌, if◌then◌else◌, u8, u32}
use desky.Link.{put_u16_be, put_u32_be}

abbrev pub era_counter : ℕ → ℕ → List ℕ
era_counter era counter = put_u16_be era ++ put_u32_be counter

-- "UNPAIR"
unfoldable pub unpair_tag_msg : ℕ → List ℕ
unpair_tag_msg counter = 85 ∷ 78 ∷ 80 ∷ 65 ∷ 73 ∷ 82 ∷ put_u32_be counter

-- "PAIRREFRESH"
unfoldable pub pair_refresh_tag_msg : ℕ → ℕ → List ℕ
pair_refresh_tag_msg era counter =
    80 ∷ 65 ∷ 73 ∷ 82 ∷ 82 ∷ 69 ∷ 70 ∷ 82 ∷ 69 ∷ 83 ∷ 72 ∷ era_counter era counter

-- "PAIRREFRESHACK"
unfoldable pub pair_refresh_ack_tag_msg : ℕ → List ℕ
pair_refresh_ack_tag_msg era =
    80 ∷ 65 ∷ 73 ∷ 82 ∷ 82 ∷ 69 ∷ 70 ∷ 82 ∷ 69 ∷ 83 ∷ 72 ∷ 65 ∷ 67 ∷ 75 ∷ put_u16_be era

-- "ALIVE"
unfoldable pub alive_tag_msg : ℕ → ℕ → List ℕ
alive_tag_msg era counter = 65 ∷ 76 ∷ 73 ∷ 86 ∷ 69 ∷ era_counter era counter

-- "DISCONNECT"
unfoldable pub disconnect_tag_msg : ℕ → ℕ → List ℕ
disconnect_tag_msg era counter =
    68 ∷ 73 ∷ 83 ∷ 67 ∷ 79 ∷ 78 ∷ 78 ∷ 69 ∷ 67 ∷ 84 ∷ era_counter era counter

-- "MANUALTAKE"
unfoldable pub manual_take_tag_msg : ℕ → ℕ → List ℕ
manual_take_tag_msg era counter =
    77 ∷ 65 ∷ 78 ∷ 85 ∷ 65 ∷ 76 ∷ 84 ∷ 65 ∷ 75 ∷ 69 ∷ era_counter era counter

-- "MANUALRELEASE"
unfoldable pub manual_release_tag_msg : ℕ → ℕ → List ℕ
manual_release_tag_msg era counter =
    77 ∷ 65 ∷ 78 ∷ 85 ∷ 65 ∷ 76 ∷ 82 ∷ 69 ∷ 76 ∷ 69 ∷ 65 ∷ 83 ∷ 69 ∷ era_counter era counter

-- "EXPRTRIG"
unfoldable pub expr_trigger_tag_msg : ℕ → ℕ → ℕ → List ℕ
expr_trigger_tag_msg id era counter =
    69 ∷ 88 ∷ 80 ∷ 82 ∷ 84 ∷ 82 ∷ 73 ∷ 71 ∷ id ∷ era_counter era counter

-- `counterBE || mode || thr || str || flags`
unfoldable pub drive_tag_msg : ℕ → ℕ → ℕ → ℕ → ℕ → List ℕ
drive_tag_msg counter mode thr str flags = put_u32_be counter ++ (mode ∷ thr ∷ str ∷ flags ∷ [])

unfoldable pub next_to_app_counter : ℕ → ℕ
next_to_app_counter cur = if u32 (cur + 1) == 0 then 1 else u32 (cur + 1)
