-- ===== src/Link/Payload/RoundTrip.antt =====
-- Packing and unpacking of the typed payloads.
use mathlib.Core.List.{append_assoc}
use mathlib.Core.Option.{some_inj}
use desky.Prelude.{
  ℕ, ◌+◌, ◌*◌, ◌/◌, ◌^◌, ◌<◌, ◌≤◌, ◌≡◌, ◌⊎◌, refl, ap, ap₂, sym, ◌∙◌, arith, ◌&&◌, ◌||◌, ◌==◌, ◌!=◌,
  ltb, guard-some, Bool-cases, inl, inr, get_or-append, true, false, some, none, List, [], ◌∷◌,
  ◌++◌, length, length-append, take, drop, take-append, drop-append, take_all, get_or, u8, by_cells,
}
use desky.Prelude.Int.{ℤ, Fits, signed8-to_word}
use desky.Link.{put_u16_be}
use desky.Link.Payload.{
  Hb, pack_hb, unpack_hb, pack_pair_show, unpack_pair_show, pack_wifi_creds, unpack_wifi_creds,
  all_digits,
}

pub record IsHb (h : Hb) : Type 0 where
  pub rssi_fits : Fits 7 h.rssi
  pub channel_fits : h.channel < 2 ^ 8
  pub heap_fits : h.free_heap < 2 ^ 32
  pub boot_fits : h.boot_id < 2 ^ 32

abbrev hb : ℤ → ℕ → ℕ → ℕ → Hb
hb r c h b = record { rssi = r; channel = c; free_heap = h; boot_id = b }

hb_eq : {r r' : ℤ} {c h h' b b' : ℕ} → r ≡ r' → h ≡ h' → b ≡ b' → hb r c h b ≡ hb r' c h' b'
hb_eq p q s = cc

get_u32_be-put_u32_be :
    (v : ℕ)
    → v < 2 ^ 32
    → u8 (v / 16777216) * 16777216 + u8 (v / 65536) * 65536 + u8 (v / 256) * 256 + u8 v ≡ v
get_u32_be-put_u32_be v h = omega arith

creds_bounds : (s p : ℕ) → (ltb 32 s || ltb 64 p) ≡ false → (s ≤ 32) × (p ≤ 64)
creds_bounds s p h = ground arith

-- A heartbeat comes back from its packing.
pub unpack_hb-pack_hb : (h : Hb) → IsHb h → unpack_hb (pack_hb h) ≡ some h
unfolding pack_hb unpack_hb
unpack_hb-pack_hb h r =
    ap (λ (x : Hb). some x)
      (hb_eq (signed8-to_word h.rssi r.rssi_fits) (get_u32_be-put_u32_be h.free_heap r.heap_fits)
        (get_u32_be-put_u32_be h.boot_id r.boot_fits))

unpack_creds_pass :
    (bs : List ℕ) (s p : ℕ)
    → length bs ≡ 2 + s + p
    → get_or bs 0 0 ≡ s
    → get_or bs (1 + s) 0 ≡ p
    → s ≤ 32
    → p ≤ 64
    → (s == 0 && p != 0) ≡ false
    → unpack_wifi_creds bs ≡ some (take s (drop 1 bs), take p (drop (2 + s) bs))
unfolding unpack_wifi_creds
unpack_creds_pass bs s p l a b hs hp m =
    let g1 : (ltb (2 + s + p) 2 || ltb 98 (2 + s + p)) ≡ false = ground arith in
    let g2 : (ltb 32 s || ltb (2 + s + p) (2 + s)) ≡ false = ground arith in
    let g3 : (ltb 64 p || 2 + s + p != 2 + s + p) ≡ false = ground arith in
    rw (l, a, b, g1, g2, g3, m) refl

abbrev creds : List ℕ → List ℕ → List ℕ
creds ssid pass = u8 (length ssid) ∷ (ssid ++ (u8 (length pass) ∷ pass))

unpack_creds :
    (ssid pass : List ℕ)
    → length ssid ≤ 32
    → length pass ≤ 64
    → (length ssid == 0 && length pass != 0) ≡ false
    → unpack_wifi_creds (creds ssid pass) ≡ some (ssid, pass)
unpack_creds ssid pass hs hp m =
    let s = length ssid in
    let p = length pass in
    let tail = u8 p ∷ pass in
    let l : length (creds ssid pass) ≡ 2 + s + p = omega (arith, length-append ssid tail) in
    let a : u8 s ≡ s = omega arith in
    let b : get_or (creds ssid pass) (1 + s) 0 ≡ p =
      get_or-append (u8 s ∷ ssid) tail (1 + s) 0 0 (omega arith) ∙ omega arith in
    let t : take s (ssid ++ tail) ≡ ssid = take-append ssid tail s refl in
    let d : drop (2 + s) (creds ssid pass) ≡ pass =
      ap (λ l. drop (2 + s) (u8 s ∷ l)) (sym (append_assoc ssid (u8 p ∷ []) pass))
      ∙ drop-append (u8 s ∷ (ssid ++ (u8 p ∷ []))) pass (2 + s)
          (omega (arith, length-append ssid (u8 p ∷ []))) in
    unpack_creds_pass (creds ssid pass) s p l a b hs hp m
    ∙ ap (λ (x : List ℕ × List ℕ). some x)
        (ap₂ (λ x y. (x, take p y)) t d ∙ ap (λ y. (ssid, y)) (take_all pass))

-- Credentials that the packing takes come back from their packing.
pub unpack_wifi_creds-pack_wifi_creds :
    (ssid pass : List ℕ) (room : ℕ) {bs : List ℕ}
    → pack_wifi_creds ssid pass room ≡ some bs
    → unpack_wifi_creds bs ≡ some (ssid, pass)
unfolding pack_wifi_creds
unpack_wifi_creds-pack_wifi_creds ssid pass room {bs} h =
    let s = length ssid in
    let p = length pass in
    let (g1, h1) = guard-some (ltb 32 s || ltb 64 p) h in
    let (g2, h2) = guard-some (s == 0 && p != 0) h1 in
    let (g3, h3) = guard-some (ltb room (2 + s + p)) h2 in
    let (hs, hp) = creds_bounds s p g1 in
    ap unpack_wifi_creds (sym (some_inj.0 h3)) ∙ unpack_creds ssid pass hs hp g2

abbrev IsPairShow : List ℕ → ℕ → Type 0
IsPairShow digits secs =
    ((pack_pair_show digits secs ≡ none) × (all_digits digits ≡ false))
    ⊎ ((pack_pair_show digits secs ≡ some (digits ++ put_u16_be secs))
        × (all_digits digits ≡ true)
        × (unpack_pair_show (digits ++ put_u16_be secs) ≡ some (digits, secs)))

cells-IsPairShow :
    (a b c d e f secs : ℕ) → secs < 2 ^ 16 → IsPairShow (a ∷ b ∷ c ∷ d ∷ e ∷ f ∷ []) secs
unfolding pack_pair_show unpack_pair_show
cells-IsPairShow a b c d e f secs h =
    let ds = a ∷ b ∷ c ∷ d ∷ e ∷ f ∷ [] in
    let v : u8 (secs / 256) * 256 + u8 secs ≡ secs = omega arith in
    elim (Bool-cases (all_digits ds)) [
      | inl p ↦ inr (rw p refl, p, rw p (ap (λ n. some (ds, n)) v))
      | inr p ↦ inl (rw p refl, p)
    ]

-- A pairing code of digits and its time come back from their packing, and a code with another
-- character is not packed.
pub unpack_pair_show-pack_pair_show :
    (digits : List ℕ) (secs : ℕ)
    → length digits ≡ 6
    → secs < 2 ^ 16
    → ((pack_pair_show digits secs ≡ none) × (all_digits digits ≡ false))
      ⊎ ((pack_pair_show digits secs ≡ some (digits ++ put_u16_be secs))
          × (all_digits digits ≡ true)
          × (unpack_pair_show (digits ++ put_u16_be secs) ≡ some (digits, secs)))
unpack_pair_show-pack_pair_show digits secs e h =
    by_cells (λ ds. IsPairShow ds secs) 6 digits e (cells-IsPairShow _ _ _ _ _ _ secs h)
