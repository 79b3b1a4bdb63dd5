-- ===== src/Link/Delivery.antt =====
-- Frames from the core to the head over a network that loses, repeats and reorders them.
pub mod Exact
pub mod Live
pub mod Creds
mod Ends
use desky.Prelude.{
  ℕ, zero, suc, ◌+◌, ◌^◌, ◌<◌, ◌≤◌, ◌≡◌, ◌⊎◌, inl, inr, refl, ap, sym, ◌∙◌, arith, Bool, true,
  false, not, ◌&&◌, ◌||◌, Option, none, some, List, [], ◌∷◌, u16, ◌==◌, ◌!=◌, ltb, leb,
  if◌then◌else◌, length, sub16, Bool-cases,
}
use desky.Link.{Frame, type_hb_ack, type_ack, decode_frame, is_fresh_seq}
use desky.Link.Follow.{RxVerdict, fresh, duplicate, stale, classify_rx}
use desky.Link.Client.{
  Client, Effect, Answers, drop_udp, send_ack, handle_hb_ack, fresh_cmd, handle_cmd, handle_frame,
  gated, by_type, count_ack, is_command_type, snapshot_last_good,
}
use desky.Link.Client.Assoc.{receive}
use desky.Link.Client.Once.{acts, SameGate, Takes, took, left, fresh_cmd-Takes, send_ack-SameGate}

-- The bytes hold the frame that was sent as number `i`, counted from the sequence number `base`.
pub record Carries (base i : ℕ) (bytes : List ℕ) : Type 0 where
  pub frame : Frame
  pub decodes : decode_frame bytes ≡ some frame
  pub numbered : frame.seq ≡ u16 (base + i)

-- One delivery, with what the head's surroundings answer.
pub record Delivery : Type 0 where
  pub index : ℕ
  pub bytes : List ℕ
  pub ip : ℕ
  pub port : ℕ
  pub answers : Answers

-- With what is left to execute from number `lo` on.
abbrev pub GateAt : ℕ → ℕ → Client → Type 0
GateAt base zero c = c.have_cmd_seq ≡ false
GateAt base (suc j) c = (c.have_cmd_seq ≡ true) × (c.last_cmd_seq ≡ u16 (base + j))

GateAt-SameGate :
    (base lo : ℕ) (c c' : Client) → SameGate c c' → GateAt base lo c → GateAt base lo c'
GateAt-SameGate base zero c c' s g = s.0 ∙ g
GateAt-SameGate base (suc j) c c' s g = (s.0 ∙ g.0, s.1 ∙ g.1)

abbrev pub is_fresh : RxVerdict → Bool
is_fresh fresh = true
is_fresh v = false

-- Among fewer than half the numbers, the gate lets exactly the later ones pass.
pub classify_rx-GateAt :
    (base lo i : ℕ) (c : Client) (seq : ℕ)
    → lo ≤ 2 ^ 15
    → i < 2 ^ 15
    → GateAt base lo c
    → seq ≡ u16 (base + i)
    → is_fresh (classify_rx c.have_cmd_seq c.last_cmd_seq seq) ≡ leb lo i
unfolding classify_rx is_fresh_seq
classify_rx-GateAt base zero i c seq b h g e = ground arith
classify_rx-GateAt base (suc j) i c seq b h g e = ground arith

-- What a delivery may do: execute the frame, if it is not before `lo`, or nothing.
pub data Step (base lo i : ℕ) (r : Client × List Effect) : Type 0 where
  executes : lo ≤ i → acts r.1 ≡ true → GateAt base (suc i) r.0 → Step base lo i r
  ignores : acts r.1 ≡ false → GateAt base lo r.0 → Step base lo i r

ignores_same :
    {base lo i : ℕ} (c : Client) (r : Client × List Effect)
    → GateAt base lo c
    → SameGate c r.0
    → acts r.1 ≡ false
    → Step base lo i r
ignores_same {base} {lo} c r g s q = ignores q (GateAt-SameGate base lo c r.0 s g)

if-Step :
    {base lo i : ℕ} (b : Bool) (x y : Client × List Effect)
    → Step base lo i x
    → Step base lo i y
    → Step base lo i (if b then x else y)
if-Step true x y p q = p
if-Step false x y p q = q

Takes-Step :
    {base lo i : ℕ} {c : Client} {f : Frame} {r : Client × List Effect}
    → lo ≤ i
    → GateAt base lo c
    → f.seq ≡ u16 (base + i)
    → Takes c f r
    → Step base lo i r
Takes-Step l g e (took act p q) = executes l act (p, q ∙ e)
Takes-Step {c = c} {r = r} l g e (left quiet s) = ignores_same c r g s quiet

leb-le : (a b : ℕ) → leb a b ≡ true → a ≤ b
leb-le a b h = ground arith

drop_udp-SameGate : (c : Client) → SameGate c (drop_udp c)
unfolding drop_udp
drop_udp-SameGate c = (refl, refl)

handle_hb_ack-SameGate : (a : Answers) (c : Client) (f : Frame) → SameGate c (handle_hb_ack a c f)
unfolding handle_hb_ack snapshot_last_good
handle_hb_ack-SameGate a c f = ground arith

module _ (open' : List ℕ → List ℕ → Option (List ℕ)) where
  gated-Step :
      (v : RxVerdict) (a : Answers) (c : Client) (f : Frame) (ip port base lo i : ℕ)
      → GateAt base lo c
      → f.seq ≡ u16 (base + i)
      → is_fresh v ≡ leb lo i
      → Step base lo i (gated open' a c f ip port v)
  unfolding gated
  gated-Step stale a c f ip port base lo i g e h = ignores_same c _ g (drop_udp-SameGate c) refl
  gated-Step duplicate a c f ip port base lo i g e h =
      let (s, q) = send_ack-SameGate a.radio c ip port f.seq in ignores_same c _ g s q
  gated-Step fresh a c f ip port base lo i g e h =
      Takes-Step (leb-le lo i (sym h)) g e (fresh_cmd-Takes a c f ip port open')

  by_type-Step :
      (a : Answers) (c : Client) (f : Frame) (ip port base lo i : ℕ)
      → lo ≤ 2 ^ 15
      → i < 2 ^ 15
      → GateAt base lo c
      → f.seq ≡ u16 (base + i)
      → Step base lo i (by_type open' a c f ip port)
  unfolding by_type handle_cmd
  by_type-Step a c f ip port base lo i b h g e =
      let dropped : Step base lo i (drop_udp c, []) =
        ignores_same c _ g (drop_udp-SameGate c) refl in
      if-Step (f.frag_idx != 0 || f.frag_total != 1) _ _ dropped (
        if-Step (f.type' == type_hb_ack) (handle_hb_ack a c f, []) _
          (ignores_same c (handle_hb_ack a c f, []) g (handle_hb_ack-SameGate a c f) refl)
          (if-Step (is_command_type f.type') _ _
            (gated-Step _ a c f ip port base lo i g e
              (classify_rx-GateAt base lo i c f.seq b h g e))
            (if-Step (f.type' == type_ack) (count_ack c, []) (drop_udp c, [])
              (ignores_same c (count_ack c, []) g (refl, refl) refl) dropped)))

  handle_frame-Step :
      (d : Delivery) (c : Client) (base lo : ℕ)
      → lo ≤ 2 ^ 15
      → d.index < 2 ^ 15
      → GateAt base lo c
      → Carries base d.index d.bytes
      → Step base lo d.index (handle_frame open' d.answers c d.bytes d.ip d.port)
  unfolding handle_frame
  handle_frame-Step d c base lo b h g w =
      let e = w.decodes in
      rw (e, handle_frame)
        (by_type-Step d.answers c w.frame d.ip d.port base lo d.index b h g w.numbered)

  pub receive-Step :
      (d : Delivery) (c : Client) (base lo : ℕ)
      → lo ≤ 2 ^ 15
      → d.index < 2 ^ 15
      → GateAt base lo c
      → Carries base d.index d.bytes
      → Step base lo d.index (receive open' d.answers c d.bytes d.ip d.port)
  unfolding receive
  receive-Step d c base lo b h g w =
      if-Step (ltb 1034 (length d.bytes) || length d.bytes == 0) (drop_udp c, [])
        (handle_frame open' d.answers c d.bytes d.ip d.port)
        (ignores_same c (drop_udp c, []) g (drop_udp-SameGate c) refl)
        (handle_frame-Step d c base lo b h g w)
