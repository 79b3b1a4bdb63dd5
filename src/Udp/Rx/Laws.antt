-- ===== src/Udp/Rx/Laws.antt =====
-- The laws of the status byte, of the demux and of the counters.
use desky.Prelude.{
  ℕ, ◌+◌, ◌^◌, ◌<◌, ◌≤◌, ◌≡◌, ◌≢◌, ◌↔◌, ◌%◌, ap, sym, ◌∙◌, arith, Bool, true, false, u32, sub32,
}
use desky.Udp.Rx.{
  pack_status, status_cliff, status_driving, status_mode, status_manual, RxKind, classify_rx,
  legacy, drive, pair_req, unpair, pair_refresh_req, alive, disconnect, manual_take, manual_release,
  expr_trigger, drop_frame, is_fresh_counter,
}

-- Each field of the status byte reads back what was packed, and the reserved bits are 0.
pub status-pack_status :
    (cliff driving : Bool) (mode : ℕ) (manual : Bool)
    → let flags = pack_status cliff driving mode manual in
      (flags < 2 ^ 5)
      × (status_cliff flags ≡ cliff)
      × (status_driving flags ≡ driving)
      × (status_mode flags ≡ mode % 4)
      × (status_manual flags ≡ manual)
unfolding pack_status status_cliff status_driving status_mode status_manual
status-pack_status cliff driving mode manual = ground arith

-- The length and the header of a kind.
abbrev frame_of : RxKind → ℕ × ℕ
frame_of legacy = (6, 0xAA)
frame_of drive = (16, 0xAC)
frame_of pair_req = (12, 0x50)
frame_of unpair = (12, 0xAD)
frame_of pair_refresh_req = (14, 0x53)
frame_of alive = (14, 0x55)
frame_of disconnect = (14, 0x56)
frame_of manual_take = (14, 0x57)
frame_of manual_release = (14, 0x58)
frame_of expr_trigger = (15, 0x5B)
frame_of drop_frame = (0, 0)

frame_of-classify_rx :
    (n h : ℕ) → classify_rx n h ≢ drop_frame → ◌≡◌ {A = ℕ × ℕ} (frame_of (classify_rx n h)) (n, h)
unfolding classify_rx
frame_of-classify_rx n h d = ground arith

-- A kind that is not the drop fixes both the length and the header.
pub classify_rx-inj :
    (m n h k : ℕ)
    → classify_rx m h ≢ drop_frame
    → classify_rx m h ≡ classify_rx n k
    → (m ≡ n) × (h ≡ k)
classify_rx-inj m n h k d e =
    let p : ◌≡◌ {A = ℕ × ℕ} (m, h) (n, k) =
      (sym (frame_of-classify_rx m h d)
        ∙ ap frame_of e
        ∙ frame_of-classify_rx n k (λ q. d (e ∙ q))) in
    (ap (λ (x : ℕ × ℕ). x.0) p, ap (λ (x : ℕ × ℕ). x.1) p)

-- A counter is fresh exactly when it is 1 to 2 ^ 31 - 1 steps past the last one, around the wrap.
pub is_fresh_counter_iff :
    (last got : ℕ)
    → last < 2 ^ 32
    → got < 2 ^ 32
    → (is_fresh_counter last got ≡ true)
      ↔ ((k : ℕ) × (1 ≤ k) × (k < 2 ^ 31) × (got ≡ u32 (last + k)))
unfolding is_fresh_counter
is_fresh_counter_iff last got p q = (
  λ h. (sub32 got last, ground arith, ground arith, ground arith),
  λ h. let e = h.3 in let w = h.1 in let w' = h.2 in ground arith,
)

-- No counter that is at most 2 ^ 31 steps behind is fresh.
pub is_fresh_counter-behind :
    (got k : ℕ) → got < 2 ^ 32 → k ≤ 2 ^ 31 → is_fresh_counter (u32 (got + k)) got ≡ false
unfolding is_fresh_counter
is_fresh_counter-behind got k p q = ground arith
