-- ===== src/Link/Reassembly.antt =====
-- The in-order reassembly of fragments: class `Reassembler` of embedded/shared/link/link_codec.h.
-- The buffer is what has been written of it, so `len_` is the length of `written`; its capacity is
-- kept beside it. The null checks are left out.
pub mod Order
use desky.Prelude.{
  ℕ, ◌+◌, Bool, true, false, not, ◌&&◌, ◌||◌, List, [], ◌∷◌, ◌++◌, ltb, leb, ◌==◌, ◌!=◌,
  if◌then◌else◌, u8, length,
}

pub record Reassembler : Type 0 where
  pub cap : ℕ
  pub written : List ℕ
  pub total : ℕ
  pub next : ℕ

unfoldable pub reset : ℕ → Reassembler
reset cap = record { cap = cap; written = []; total = 0; next = 0 }

-- The append, once the order is right.
abbrev append : Reassembler → List ℕ → Reassembler × Bool
append r payload =
    if ltb r.cap (length r.written + length payload)
    then (r, false)
    else (record r { written = r.written ++ payload; next = u8 (r.next + 1) }, true)

unfoldable pub push : Reassembler → ℕ → ℕ → List ℕ → Reassembler × Bool
push r frag_idx frag_total payload =
    if frag_total == 0 || leb frag_total frag_idx
    then (r, false)
    else if r.next == 0
    then (if frag_idx != 0
        then (r, false)
        else append (record r { total = frag_total; written = [] }) payload)
    else if frag_total != r.total
    then (r, false)
    else if frag_idx != r.next
    then (r, false)
    else append r payload

unfoldable pub complete : Reassembler → Bool
complete r = ltb 0 r.next && r.next == r.total
