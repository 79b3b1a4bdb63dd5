-- ===== src/Link/Delivery/Exact.antt =====
-- What is executed of the frames that the core sends, however they are delivered.
use desky.Prelude.{
  ℕ, zero, suc, ◌+◌, ◌^◌, ◌<◌, ◌≤◌, ◌≡◌, refl, sym, subst, arith, true, false, Option, some, List,
  [], ◌∷◌, u16, if◌then◌else◌, length, get_or,
}
use desky.Link.{Frame, is_valid_payload_len, decode_frame}
use desky.Link.Guards.{IsFrame, encode_frame_pass}
use desky.Link.RoundTrip.{decode_frame-encode_frame}
use desky.Link.Server.{Server, send_to, send_unicast}
use desky.Link.Client.{Client}
use desky.Link.Client.Assoc.{receive}
use desky.Link.Client.Once.{acts}
use desky.Link.Delivery.{Carries, Delivery, GateAt, executes, ignores, receive-Step}

-- The bytes that the core sends for the payloads, in order.
unfoldable pub wires : Server → List (ℕ × List ℕ) → List (List ℕ)
wires s [] = []
wires s ((t, p) ∷ rest) =
    let (s', seq, ok, out) = send_unicast true s t p in
    (elim out [ [] ↦ [] | d ∷ ds ↦ d.bytes ]) ∷ wires s' rest

abbrev pub Sendable : List (ℕ × List ℕ) → Type 0
Sendable [] = Unit {0}
Sendable ((t, p) ∷ rest) =
    (t < 2 ^ 8) × (length p ≤ 128) × (is_valid_payload_len t (length p) ≡ true) × Sendable rest

abbrev pub frame_of : ℕ → ℕ → List ℕ → Frame
frame_of t seq p = record { type' = t; seq = seq; frag_idx = 0; frag_total = 1; payload = p }

-- One send: a datagram that carries the frame, and the next number.
pub send_unicast-Carries :
    (s : Server) (t : ℕ) (p : List ℕ)
    → s.have_head_peer ≡ true
    → t < 2 ^ 8
    → s.tx_seq < 2 ^ 16
    → length p ≤ 128
    → is_valid_payload_len t (length p) ≡ true
    → (bytes : List ℕ) × (send_unicast true s t p ≡ (
      record s { tx_seq = u16 (s.tx_seq + 1) },
      s.tx_seq,
      true,
      record { ip = s.head_ip; port = s.head_port; bytes = bytes } ∷ [],
    ))
      × (decode_frame bytes ≡ some (frame_of t s.tx_seq p))
unfolding send_unicast send_to
send_unicast-Carries s t p peer t8 w room v =
    let f = frame_of t s.tx_seq p in
    let passed =
      encode_frame_pass f 138 (record { valid = v; idx_lt = omega arith; fits = omega arith }) in
    let whole : IsFrame f = record {
      type_fits = t8;
      seq_fits = w;
      idx_lt = omega arith;
      total_fits = omega arith;
      len_valid = v;
    } in
    (_, ground arith, decode_frame-encode_frame f 138 whole passed)

wires-Carries :
    (cmds : List (ℕ × List ℕ)) (s : Server) (i : ℕ)
    → s.have_head_peer ≡ true
    → s.tx_seq < 2 ^ 16
    → Sendable cmds
    → i < length cmds
    → Carries s.tx_seq i (get_or (wires s cmds) i [])
unfolding wires
wires-Carries [] s i peer w ok h = absurd (omega arith)
wires-Carries ((t, p) ∷ rest) s zero peer w ok h =
    let (bytes, sent, decoded) = send_unicast-Carries s t p peer ok.0 w ok.1 ok.2 in
    rw sent (record { frame = frame_of t s.tx_seq p; decodes = decoded; numbered = omega arith })
wires-Carries ((t, p) ∷ rest) s (suc i) peer w ok h =
    let (bytes, sent, decoded) = send_unicast-Carries s t p peer ok.0 w ok.1 ok.2 in
    let s' : Server = record s { tx_seq = u16 (s.tx_seq + 1) } in
    let later = wires-Carries rest s' i peer (omega arith) ok.3 (omega arith) in
    rw sent (record {
      frame = later.frame;
      decodes = later.decodes;
      numbered = (let n = later.numbered in omega arith);
    })

-- Each at least `lo`, and each after the one before.
abbrev pub IsAscending : ℕ → List ℕ → Type 0
IsAscending lo [] = Unit {0}
IsAscending lo (i ∷ is) = (lo ≤ i) × IsAscending (suc i) is

module _ (open' : List ℕ → List ℕ → Option (List ℕ)) where
  -- The numbers of the frames that are executed, in order.
  unfoldable pub executed : Client → List Delivery → List ℕ
  executed c [] = []
  executed c (d ∷ ds) =
      let r = receive open' d.answers c d.bytes d.ip d.port in
      let later = executed r.0 ds in if acts r.1 then d.index ∷ later else later

  -- Every delivery carries one of the first `n` frames.
  abbrev pub DeliversFrom : ℕ → ℕ → List Delivery → Type 0
  DeliversFrom base n [] = Unit {0}
  DeliversFrom base n (d ∷ ds) =
      (d.index < n) × Carries base d.index d.bytes × DeliversFrom base n ds

  executed-from :
      (ds : List Delivery) (c : Client) (base lo n : ℕ)
      → lo ≤ n
      → n ≤ 2 ^ 15
      → GateAt base lo c
      → DeliversFrom base n ds
      → IsAscending lo (executed c ds)
  unfolding executed
  executed-from [] c base lo n b w g h = tt
  executed-from (d ∷ ds) c base lo n b w g (lt, carries, rest) =
      elim (receive-Step open' d c base lo (omega arith) (omega arith) g carries) [
        | executes le act g' ↦
            rw act (le, executed-from ds _ base (suc d.index) n (omega arith) w g' rest)
        | ignores quiet g' ↦ rw quiet (executed-from ds _ base lo n b w g' rest)
      ]

  -- A delivery of what the core has sent.
  abbrev pub DeliversWires : List (List ℕ) → List Delivery → Type 0
  DeliversWires ws [] = Unit {0}
  DeliversWires ws (d ∷ ds) =
      (d.index < length ws) × (d.bytes ≡ get_or ws d.index []) × DeliversWires ws ds

  length-wires : (cmds : List (ℕ × List ℕ)) (s : Server) → length (wires s cmds) ≡ length cmds
  unfolding wires
  length-wires [] s = refl
  length-wires ((t, p) ∷ rest) s = omega (arith, length-wires rest (send_unicast true s t p).0)

  DeliversFrom-wires :
      (ds : List Delivery) (cmds : List (ℕ × List ℕ)) (s : Server)
      → s.have_head_peer ≡ true
      → s.tx_seq < 2 ^ 16
      → Sendable cmds
      → DeliversWires (wires s cmds) ds
      → DeliversFrom s.tx_seq (length cmds) ds
  DeliversFrom-wires [] cmds s peer w ok h = tt
  DeliversFrom-wires (d ∷ ds) cmds s peer w ok (lt, same, rest) =
      let lt' : d.index < length cmds = omega (arith, length-wires cmds s) in
      (
        lt',
        subst (Carries s.tx_seq d.index) (sym same) (wires-Carries cmds s d.index peer w ok lt'),
        DeliversFrom-wires ds cmds s peer w ok rest,
      )

  -- The core sends any frames, at most 32768 of them, and the network loses, repeats and reorders them as
  -- it likes: a head that has just joined executes each at most once, and in the order in which
  -- they were sent.
  pub executed-IsAscending :
      (s : Server) (cmds : List (ℕ × List ℕ)) (c : Client) (ds : List Delivery)
      → s.have_head_peer ≡ true
      → s.tx_seq < 2 ^ 16
      → Sendable cmds
      → length cmds ≤ 2 ^ 15
      → c.have_cmd_seq ≡ false
      → DeliversWires (wires s cmds) ds
      → IsAscending 0 (executed c ds)
  executed-IsAscending s cmds c ds peer w ok few joined h =
      executed-from ds c s.tx_seq 0 (length cmds) (omega arith) few joined
        (DeliversFrom-wires ds cmds s peer w ok h)
