-- ===== src/Pairing/Tags/Separation.antt =====
-- No two messages of the session have the same bytes.
use desky.Prelude.{
  ℕ, ◌+◌, ◌*◌, ◌/◌, ◌^◌, ◌<◌, ◌≡◌, ap, ap₂, sym, ◌∙◌, arith, List, ◌==◌, if◌then◌else◌, u8, length,
  get_or,
}
use desky.Link.{get_u16_be, get_u32_be}
use desky.Pairing.Tags.{
  unpair_tag_msg, pair_refresh_tag_msg, pair_refresh_ack_tag_msg, alive_tag_msg, disconnect_tag_msg,
  manual_take_tag_msg, manual_release_tag_msg, expr_trigger_tag_msg, drive_tag_msg,
}

-- What a tag can be asked for.
pub data Message : Type 0 where
  drive : ℕ → ℕ → ℕ → ℕ → ℕ → Message
  unpair refresh_ack : ℕ → Message
  refresh alive disconnect manual_take manual_release : ℕ → ℕ → Message
  expr_trigger : ℕ → ℕ → ℕ → Message

pub tag_msg : Message → List ℕ
tag_msg (drive c m t s f) = drive_tag_msg c m t s f
tag_msg (unpair c) = unpair_tag_msg c
tag_msg (refresh e c) = pair_refresh_tag_msg e c
tag_msg (refresh_ack e) = pair_refresh_ack_tag_msg e
tag_msg (alive e c) = alive_tag_msg e c
tag_msg (disconnect e c) = disconnect_tag_msg e c
tag_msg (manual_take e c) = manual_take_tag_msg e c
tag_msg (manual_release e c) = manual_release_tag_msg e c
tag_msg (expr_trigger id e c) = expr_trigger_tag_msg id e c

-- Eras of 16 bits and counters of 32.
abbrev pub IsMessage : Message → Type 0
IsMessage (drive c m t s f) = c < 2 ^ 32
IsMessage (unpair c) = c < 2 ^ 32
IsMessage (refresh_ack e) = e < 2 ^ 16
IsMessage (refresh e c) = (e < 2 ^ 16) × (c < 2 ^ 32)
IsMessage (alive e c) = (e < 2 ^ 16) × (c < 2 ^ 32)
IsMessage (disconnect e c) = (e < 2 ^ 16) × (c < 2 ^ 32)
IsMessage (manual_take e c) = (e < 2 ^ 16) × (c < 2 ^ 32)
IsMessage (manual_release e c) = (e < 2 ^ 16) × (c < 2 ^ 32)
IsMessage (expr_trigger id e c) = (e < 2 ^ 16) × (c < 2 ^ 32)

-- The message of some bytes, by their length, and by their first where lengths agree.
read : List ℕ → Message
read bs =
    let n = length bs in
    if n == 8
    then drive (get_u32_be bs 0) (get_or bs 4 0) (get_or bs 5 0) (get_or bs 6 0) (get_or bs 7 0)
    else if n == 10
    then unpair (get_u32_be bs 6)
    else if n == 17
    then refresh (get_u16_be bs 11) (get_u32_be bs 13)
    else if n == 11
    then alive (get_u16_be bs 5) (get_u32_be bs 7)
    else if n == 19
    then manual_release (get_u16_be bs 13) (get_u32_be bs 15)
    else if n == 15
    then expr_trigger (get_or bs 8 0) (get_u16_be bs 9) (get_u32_be bs 11)
    else if get_or bs 0 0 == 80
    then refresh_ack (get_u16_be bs 14)
    else if get_or bs 0 0 == 68
    then disconnect (get_u16_be bs 10) (get_u32_be bs 12)
    else manual_take (get_u16_be bs 10) (get_u32_be bs 12)

word16 : {v : ℕ} → v < 2 ^ 16 → u8 (v / 256) * 256 + u8 v ≡ v
word16 {v} h = omega arith

word32 :
    {v : ℕ}
    → v < 2 ^ 32
    → u8 (v / 16777216) * 16777216 + u8 (v / 65536) * 65536 + u8 (v / 256) * 256 + u8 v ≡ v
word32 {v} h = omega arith

read-tag_msg : (m : Message) → IsMessage m → read (tag_msg m) ≡ m
unfolding read tag_msg unpair_tag_msg pair_refresh_tag_msg pair_refresh_ack_tag_msg alive_tag_msg
    disconnect_tag_msg manual_take_tag_msg manual_release_tag_msg expr_trigger_tag_msg drive_tag_msg
read-tag_msg (drive c m t s f) h = ap (λ x. drive x m t s f) (word32 h)
read-tag_msg (unpair c) h = ap unpair (word32 h)
read-tag_msg (refresh_ack e) h = ap refresh_ack (word16 h)
read-tag_msg (refresh e c) h = ap₂ refresh (word16 h.0) (word32 h.1)
read-tag_msg (alive e c) h = ap₂ alive (word16 h.0) (word32 h.1)
read-tag_msg (disconnect e c) h = ap₂ disconnect (word16 h.0) (word32 h.1)
read-tag_msg (manual_take e c) h = ap₂ manual_take (word16 h.0) (word32 h.1)
read-tag_msg (manual_release e c) h = ap₂ manual_release (word16 h.0) (word32 h.1)
read-tag_msg (expr_trigger id e c) h = ap₂ (expr_trigger id) (word16 h.0) (word32 h.1)

-- Messages of the same bytes are the same, in kind and in content: a tag for one of them is no tag
-- for another, of whatever kind.
pub tag_msg-inj : (m n : Message) → IsMessage m → IsMessage n → tag_msg m ≡ tag_msg n → m ≡ n
tag_msg-inj m n h k e = sym (read-tag_msg m h) ∙ ap read e ∙ read-tag_msg n k
