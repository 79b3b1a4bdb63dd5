-- ===== src/Catalog/Laws.antt =====
-- What the rows of the catalog have in common.
use desky.Prelude.{ℕ, ◌<◌, ◌≤◌, ◌≡◌, ◌↔◌, arith, true, some, ◌≢◌}
use desky.Catalog.{Entry, surprised, is_neutral, table, find, lookup, priority_for, is_play_once}

-- A lookup gives the row of the id it was asked for; its id is below 12 and is not that of QR.
pub lookup_id : (id : ℕ) {e : Entry} → lookup id ≡ some e → (e.id ≡ id) × (id < 12) × (id ≢ 5)
unfolding lookup find table
lookup_id id h = ground arith

pub priority_for-le : (id : ℕ) → priority_for id ≤ 9
unfolding priority_for find table
priority_for-le id = ground arith

-- The only face that yields by itself is `surprised`, after 1500 ms.
pub is_play_once_iff : (id : ℕ) → (is_play_once id ≡ true) ↔ (id ≡ surprised)
unfolding is_play_once find table
is_play_once_iff id = (λ h. ground arith, λ h. ground arith)

pub priority_for-neutral : (id : ℕ) → is_neutral id ≡ true → priority_for id ≡ 0
unfolding priority_for find table
priority_for-neutral id h = ground arith
