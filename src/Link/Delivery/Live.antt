-- ===== src/Link/Delivery/Live.antt =====
-- Which commands are sure to be executed, and which are sure to be lost.
use desky.Prelude.{
  ℕ, suc, ◌+◌, ◌^◌, ◌<◌, ◌≤◌, ◌≡◌, refl, ap, ◌∙◌, arith, true, false, Option, some, List, [], ◌∷◌,
  u16, if◌then◌else◌, leb, ltb, length, ◌==◌, ◌||◌, Bool-cases, inl, inr,
}
use desky.Link.{Frame, decode_frame, is_fresh_seq}
use desky.Link.Guards.{decode_frame-some, is_valid_payload_len-le}
use desky.Link.Follow.{RxVerdict, fresh, duplicate, stale, classify_rx, is_ota_frame}
use desky.Link.Client.{
  Client, Answers, drop_udp, value_ok, take_value, fresh_cmd, gated, handle_cmd, by_type,
  handle_frame,
}
use desky.Link.Client.Assoc.{receive}
use desky.Link.Client.Once.{acts}
use desky.Link.Delivery.{
  Carries, Delivery, GateAt, executes, ignores, is_fresh, classify_rx-GateAt, receive-Step,
}
use desky.Link.Delivery.Exact.{executed}

-- A whole frame with a command of the display, the camera or the face.
abbrev pub IsValue : Frame → Type 0
IsValue f = (value_ok f ≡ true) × (f.frag_idx ≡ 0) × (f.frag_total ≡ 1)

module _ (open' : List ℕ → List ℕ → Option (List ℕ)) (a : Answers) (c : Client) (f : Frame) where
  fresh_cmd-acts : (ip port : ℕ) → value_ok f ≡ true → acts (fresh_cmd open' a c f ip port).1 ≡ true
  unfolding fresh_cmd value_ok is_ota_frame take_value
  fresh_cmd-acts ip port v = ground arith

  by_type-value :
      (ip port : ℕ)
      → IsValue f
      → by_type open' a c f ip port
        ≡ gated open' a c f ip port (classify_rx c.have_cmd_seq c.last_cmd_seq f.seq)
  unfolding by_type value_ok handle_cmd
  by_type-value ip port v = ground arith

decode_frame-fits :
    (bs : List ℕ) {f : Frame}
    → decode_frame bs ≡ some f
    → (ltb 1034 (length bs) || length bs == 0) ≡ false
decode_frame-fits bs e =
    let (d, v) = decode_frame-some bs e in
    let s = d.sized in let le = is_valid_payload_len-le _ _ d.valid in ground arith

receive-value :
    (open' : List ℕ → List ℕ → Option (List ℕ)) (d : Delivery) (c : Client) (f : Frame)
    → decode_frame d.bytes ≡ some f
    → IsValue f
    → receive open' d.answers c d.bytes d.ip d.port
      ≡ gated open' d.answers c f d.ip d.port (classify_rx c.have_cmd_seq c.last_cmd_seq f.seq)
unfolding receive
receive-value open' d c f e v =
    rw (decode_frame-fits d.bytes e)
      (rw (e, handle_frame) (by_type-value open' d.answers c f d.ip d.port v))

gated-acts :
    (open' : List ℕ → List ℕ → Option (List ℕ)) (a : Answers) (c : Client) (f : Frame) (ip port : ℕ)
    (v : RxVerdict)
    → value_ok f ≡ true
    → is_fresh v ≡ true
    → acts (gated open' a c f ip port v).1 ≡ true
unfolding gated
gated-acts open' a c f ip port fresh ok h = fresh_cmd-acts open' a c f ip port ok
gated-acts open' a c f ip port duplicate ok h = cc
gated-acts open' a c f ip port stale ok h = cc

-- A well-formed unfragmented command of the display, the camera or the face, between 2^15 and 2^16 - 1
-- numbers after the last one that was taken is dropped: it is neither executed nor acknowledged, and of
-- the head nothing changes but the count of drops.
pub receive_starved :
    (open' : List ℕ → List ℕ → Option (List ℕ)) (d : Delivery) (c : Client) (f : Frame) (base k : ℕ)
    → decode_frame d.bytes ≡ some f
    → IsValue f
    → c.have_cmd_seq ≡ true
    → c.last_cmd_seq ≡ u16 base
    → f.seq ≡ u16 (base + k)
    → 2 ^ 15 ≤ k
    → k < 2 ^ 16
    → receive open' d.answers c d.bytes d.ip d.port ≡ (drop_udp c, [])
unfolding gated
receive_starved open' d c f base k e v h p q lo hi =
    let old : classify_rx c.have_cmd_seq c.last_cmd_seq f.seq ≡ stale =
      (unfold classify_rx is_fresh_seq in ground arith) in
    receive-value open' d c f e v ∙ ap (gated open' d.answers c f d.ip d.port) old

-- The abstract receiver: it executes what is newer than all it has executed.
pub newest : ℕ → List Delivery → List ℕ
newest lo [] = []
newest lo (d ∷ ds) =
    let later = newest (suc d.index) ds in
    let same = newest lo ds in if leb lo d.index then d.index ∷ later else same

-- The deliveries carry commands of the display, the camera and the face, of the first `n` frames.
abbrev pub DeliversValues : ℕ → ℕ → List Delivery → Type 0
DeliversValues base n [] = Unit {0}
DeliversValues base n (d ∷ ds) =
    (d.index < n)
    × ((w : Carries base d.index d.bytes) × IsValue w.frame)
    × DeliversValues base n ds

leb-true : {a b : ℕ} → a ≤ b → leb a b ≡ true
leb-true {a} {b} h = ground arith

module _ (open' : List ℕ → List ℕ → Option (List ℕ)) where
  -- What the step does is decided by the number.
  receive-acts :
      (d : Delivery) (c : Client) (base lo : ℕ)
      → lo ≤ 2 ^ 15
      → d.index < 2 ^ 15
      → GateAt base lo c
      → (w : Carries base d.index d.bytes) → IsValue w.frame
      → leb lo d.index ≡ true
      → acts (receive open' d.answers c d.bytes d.ip d.port).1 ≡ true
  receive-acts d c base lo b h g w v le = rw (receive-value open' d c w.frame w.decodes v) (
      gated-acts open' d.answers c w.frame d.ip d.port _ v.0
        (classify_rx-GateAt base lo d.index c w.frame.seq b h g w.numbered ∙ le))

  executed-newest_from :
      (ds : List Delivery) (c : Client) (base lo n : ℕ)
      → lo ≤ n
      → n ≤ 2 ^ 15
      → GateAt base lo c
      → DeliversValues base n ds
      → executed open' c ds ≡ newest lo ds
  unfolding executed newest
  executed-newest_from [] c base lo n b w g h = refl
  executed-newest_from (d ∷ ds) c base lo n b w g (lt, (carries, v), rest) =
      elim (receive-Step open' d c base lo (omega arith) (omega arith) g carries) [
        | executes le act g' ↦
            rw (act, leb-true le)
              (ap (λ l. d.index ∷ l)
                (executed-newest_from ds _ base (suc d.index) n (omega arith) w g' rest))
        | ignores quiet g' ↦ elim (Bool-cases (leb lo d.index)) [
          | inl le ↦
              (let act = receive-acts d c base lo (omega arith) (omega arith) g carries v le in cc)
          | inr older ↦ rw (quiet, older) (executed-newest_from ds _ base lo n b w g' rest)
        ]
      ]

  -- A head that has just joined is the abstract receiver on the commands of the display, the camera
  -- and the face, up to 32768 frames after it joined: of whatever is delivered it executes what is
  -- newer than all that it has executed, and nothing else.
  pub executed-newest :
      (ds : List Delivery) (c : Client) (base n : ℕ)
      → n ≤ 2 ^ 15
      → c.have_cmd_seq ≡ false
      → DeliversValues base n ds
      → executed open' c ds ≡ newest 0 ds
  executed-newest ds c base n w joined h =
      executed-newest_from ds c base 0 n (omega arith) w joined h
