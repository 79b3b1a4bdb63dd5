-- ===== src/Link/Reassembly/Order.antt =====
-- Which fragments are taken, and what they add up to.
use mathlib.Core.List.{append-nil, append_assoc}
use desky.Prelude.{
  ℕ, suc, ◌+◌, ◌^◌, ◌<◌, ◌≤◌, ◌≡◌, ◌≢◌, ◌⊎◌, ◌↔◌, refl, ap, sym, ◌∙◌, arith, true, false, List, [],
  ◌∷◌, ◌++◌, length, length-append,
}
use desky.Link.Reassembly.{Reassembler, reset, push, complete}

-- A fragment is taken exactly when it is the next one of its payload and fits in what is left; the
-- first one also starts over.
pub push_iff :
    (r : Reassembler) (i n : ℕ) (p : List ℕ)
    → ((push r i n p).1 ≡ true) ↔ (
        (i < n)
        × (i ≡ r.next)
        × (((i ≡ 0) × (length p ≤ r.cap))
            ⊎ ((i ≢ 0) × (n ≡ r.total) × (length r.written + length p ≤ r.cap))))
unfolding push
push_iff r i n p = (λ h. ground arith, λ h. ground arith)

-- A fragment that is refused leaves the reassembler as it was, but for a first one that is too long:
-- that one has set the number of fragments and dropped what was written.
pub push_refused :
    (r : Reassembler) (i n : ℕ) (p : List ℕ)
    → (push r i n p).1 ≡ false
    → ((push r i n p).0 ≡ r)
      ⊎ ((r.next ≡ 0)
          × (i ≡ 0)
          × (r.cap < length p)
          × ((push r i n p).0 ≡ record r { total = n; written = [] }))
unfolding push
push_refused r i n p h = ground arith

pub push_all : Reassembler → ℕ → ℕ → List (List ℕ) → Reassembler
push_all r i n [] = r
push_all r i n (p ∷ ps) = push_all (push r i n p).0 (suc i) n ps

unfoldable pub join : List (List ℕ) → List ℕ
join [] = []
join (p ∷ ps) = p ++ join ps

abbrev state : ℕ → List ℕ → ℕ → ℕ → Reassembler
state c w t k = record { cap = c; written = w; total = t; next = k }

state_eq : {c t k k' : ℕ} {w w' : List ℕ} → w ≡ w' → k ≡ k' → state c w t k ≡ state c w' t k'
state_eq p q = cc

push_next :
    (r : Reassembler) (i n : ℕ) (p : List ℕ)
    → i ≢ 0
    → r.next ≡ i
    → r.total ≡ n
    → i < n
    → n < 2 ^ 8
    → length r.written + length p ≤ r.cap
    → (push r i n p).0 ≡ record r { written = r.written ++ p; next = suc i }
unfolding push
push_next r i n p z e t h w fits = ground arith

push_all-from :
    (ps : List (List ℕ)) (r : Reassembler) (i n : ℕ)
    → i ≢ 0
    → r.next ≡ i
    → r.total ≡ n
    → i + length ps ≤ n
    → n < 2 ^ 8
    → length r.written + length (join ps) ≤ r.cap
    → push_all r i n ps ≡ record r { written = r.written ++ join ps; next = i + length ps }
unfolding push_all join
push_all-from [] r i n z e t h w fits = state_eq (sym (append-nil r.written)) (omega (arith, e))
push_all-from (p ∷ ps) r i n z e t h w fits =
    let l = length-append p (join ps) in
    let l' = length-append r.written p in
    let r' : Reassembler = record r { written = r.written ++ p; next = suc i } in
    ap (λ s. push_all s (suc i) n ps) (push_next r i n p z e t (omega arith) w (omega arith))
    ∙ push_all-from ps r' (suc i) n (λ q. omega arith) refl t (omega arith) w (omega arith)
    ∙ state_eq (append_assoc r.written p (join ps)) (omega arith)

push_first :
    (room n : ℕ) (p : List ℕ)
    → 0 < n
    → length p ≤ room
    → (push (reset room) 0 n p).0 ≡ state room p n 1
unfolding push reset
push_first room n p h fits = ground arith

-- The fragments of one payload, pushed in order into an empty buffer that has the room, make it
-- complete with their concatenation, and no fewer of them do.
pub push_all-complete :
    (room n : ℕ) (p : List ℕ) (ps : List (List ℕ))
    → suc (length ps) ≤ n
    → n < 2 ^ 8
    → length (join (p ∷ ps)) ≤ room
    → let r = push_all (reset room) 0 n (p ∷ ps) in
      (r.written ≡ join (p ∷ ps)) × ((complete r ≡ true) ↔ (suc (length ps) ≡ n))
unfolding push_all join complete
push_all-complete room n p ps h w fits =
    let l = length-append p (join ps) in
    let all =
      ap (λ s. push_all s 1 n ps) (push_first room n p (omega arith) (omega arith))
      ∙ push_all-from ps (state room p n 1) 1 n (λ q. omega arith) refl refl (omega arith) w
          (omega arith) in
    rw all (refl, (λ h. ground arith, λ h. ground arith))
