-- ===== src/Udp/RoundTrip.antt =====
-- Encoding and decoding of the control and telemetry packets are inverse to each other.
use desky.Prelude.{
  ℕ, ◌+◌, ◌*◌, ◌/◌, ◌^◌, ◌<◌, ◌≡◌, ◌≢◌, ◌↔◌, refl, ap, ap₂, ◌∙◌, arith, List, [], ◌∷◌, ◌++◌, some,
  bit_or, u8, u16, length, IsBytes, by_cells, ℕ_discrete,
}
use desky.Prelude.Bits.{bit_or_add, bit_or_disjoint}
use desky.Prelude.Int.{ℤ, Fits, to_word, signed16, signed16-to_word, to_word-signed16, to_word-lt}
use desky.Udp.{
  ControlPacket, TelemetryPacket, checksum, encode_control, decode_control, encode_telemetry,
  decode_telemetry, put_i16_be, get_i16_be, telemetry_header, pack_command, unpack_command,
  byte_to_unit,
}

-- The ranges of the fields.
pub record IsTelemetry (p : TelemetryPacket) : Type 0 where
  pub pitch_fits : Fits 15 p.pitch
  pub roll_fits : Fits 15 p.roll
  pub distance_fits : p.distance_mm < 2 ^ 16
  pub status_fits : p.status_flags < 2 ^ 8

control_cells :
    (a b c d e g : ℕ) (p : ControlPacket)
    → (decode_control (some (a ∷ b ∷ c ∷ d ∷ e ∷ g ∷ [])) ≡ some p)
      ↔ (a ∷ b ∷ c ∷ d ∷ e ∷ g ∷ [] ≡ encode_control p)
unfolding decode_control encode_control
control_cells a b c d e g p = (λ h. ground arith, λ h. ground arith)

not_control : (bs : List ℕ) (p : ControlPacket) → length bs ≢ 6 → decode_control (some bs) ≢ some p
unfolding decode_control
not_control bs p n h = ground arith

-- Decoding gives a packet exactly when the bytes are the encoding of that packet.
pub decode_control-encode_control_iff :
    (bs : List ℕ) (p : ControlPacket)
    → (decode_control (some bs) ≡ some p) ↔ (bs ≡ encode_control p)
unfolding encode_control
decode_control-encode_control_iff bs p = elim (ℕ_discrete (length bs) 6) [
  | yes e ↦
      by_cells (λ l. (decode_control (some l) ≡ some p) ↔ (l ≡ encode_control p)) 6 bs e
        (control_cells _ _ _ _ _ _ p)
  | no n ↦ (λ h. absurd (not_control bs p n h), λ h. absurd (n (ap length h)))
]

or_byte : (q r : ℕ) → r < 2 ^ 8 → bit_or (q * 2 ^ 8) r ≡ q * 2 ^ 8 + r
or_byte q r h = bit_or_disjoint 8 q r h

get_i16_be-put_i16_be : (v : ℤ) (rest : List ℕ) → Fits 15 v → get_i16_be (put_i16_be v ++ rest) ≡ v
unfolding get_i16_be put_i16_be
get_i16_be-put_i16_be v rest h =
    ap signed16
      (ap u16 (or_byte (u8 (to_word 16 v / 2 ^ 8)) (u8 (to_word 16 v)) (omega arith)) ∙ joined)
    ∙ signed16-to_word v h
  where
    joined : u16 (u8 (to_word 16 v / 2 ^ 8) * 2 ^ 8 + u8 (to_word 16 v)) ≡ to_word 16 v
    joined = omega (arith, (to_word-lt v).0)

put_i16_be-get_i16_be :
    (a b : ℕ) (rest : List ℕ)
    → a < 2 ^ 8
    → b < 2 ^ 8
    → put_i16_be (get_i16_be (a ∷ b ∷ rest)) ≡ a ∷ b ∷ []
unfolding get_i16_be put_i16_be
put_i16_be-get_i16_be a b rest p q =
    rw (or_byte a b q, to_word-signed16 (u16 (a * 2 ^ 8 + b)) (omega arith))
      (ap₂ (λ x y. x ∷ y ∷ []) (omega arith) (omega arith))

distance_join : (d : ℕ) → d < 2 ^ 16 → u16 (bit_or (u8 (d / 2 ^ 8) * 2 ^ 8) (u8 d)) ≡ d
distance_join d h = rw (or_byte (u8 (d / 2 ^ 8)) (u8 d) (omega arith)) (omega arith)

distance_split :
    (a b : ℕ)
    → a < 2 ^ 8
    → b < 2 ^ 8
    → let d = u16 (bit_or (a * 2 ^ 8) b) in (u8 (d / 2 ^ 8) ≡ a) × (u8 d ≡ b)
distance_split a b p q = rw (or_byte a b q) (omega arith, omega arith)

decode_telemetry-encode_telemetry :
    (p : TelemetryPacket) → IsTelemetry p → decode_telemetry (some (encode_telemetry p)) ≡ some p
unfolding decode_telemetry encode_telemetry put_i16_be
decode_telemetry-encode_telemetry p h =
    rw
      (
        get_i16_be-put_i16_be p.pitch _ h.pitch_fits,
        get_i16_be-put_i16_be p.roll _ h.roll_fits,
        distance_join p.distance_mm h.distance_fits,
      )
      (ground arith)

abbrev parsed : ℕ → ℕ → ℕ → ℕ → ℕ → ℕ → ℕ → List ℕ → TelemetryPacket
parsed b c d e f g i rest = record {
  pitch = get_i16_be (b ∷ c ∷ d ∷ e ∷ f ∷ g ∷ i ∷ rest);
  roll = get_i16_be (d ∷ e ∷ f ∷ g ∷ i ∷ rest);
  distance_mm = u16 (bit_or (f * 2 ^ 8) g);
  status_flags = i;
}

telemetry_fields :
    (a b c d e f g i j : ℕ) (p : TelemetryPacket)
    → decode_telemetry (some (a ∷ b ∷ c ∷ d ∷ e ∷ f ∷ g ∷ i ∷ j ∷ [])) ≡ some p
    → (a ≡ telemetry_header)
      × (checksum (a ∷ b ∷ c ∷ d ∷ e ∷ f ∷ g ∷ i ∷ []) ≡ j)
      × (p ≡ parsed b c d e f g i (j ∷ []))
unfolding decode_telemetry
telemetry_fields a b c d e f g i j p h = ground arith

telemetry_cells :
    (a b c d e f g i j : ℕ) (p : TelemetryPacket)
    → IsBytes (a ∷ b ∷ c ∷ d ∷ e ∷ f ∷ g ∷ i ∷ j ∷ [])
    → decode_telemetry (some (a ∷ b ∷ c ∷ d ∷ e ∷ f ∷ g ∷ i ∷ j ∷ [])) ≡ some p
    → a ∷ b ∷ c ∷ d ∷ e ∷ f ∷ g ∷ i ∷ j ∷ [] ≡ encode_telemetry p
unfolding decode_telemetry encode_telemetry
telemetry_cells a b c d e f g i j p h e' =
    let (ea, ej, ep) = telemetry_fields a b c d e f g i j p e' in
    let (ef, eg) = distance_split f g (omega arith) (omega arith) in
    rw
      (
        ep,
        put_i16_be-get_i16_be b c (d ∷ e ∷ f ∷ g ∷ i ∷ j ∷ []) (omega arith) (omega arith),
        put_i16_be-get_i16_be d e (f ∷ g ∷ i ∷ j ∷ []) (omega arith) (omega arith),
      )
      (ground (arith, ef, eg))

packed :
    (m t s f : ℕ)
    → IsBytes (m ∷ t ∷ s ∷ f ∷ [])
    → pack_command m t s f ≡ m * 2 ^ 24 + t * 2 ^ 16 + s * 2 ^ 8 + f
unfolding pack_command
packed m t s f h = rw (
  bit_or_add 24 m (m * 2 ^ 24) (t * 2 ^ 16) refl (omega arith),
  bit_or_add 16 (m * 2 ^ 8 + t) (m * 2 ^ 24 + t * 2 ^ 16) (s * 2 ^ 8) (omega arith) (omega arith),
  bit_or_add 8 (m * 2 ^ 16 + t * 2 ^ 8 + s) (m * 2 ^ 24 + t * 2 ^ 16 + s * 2 ^ 8) f (omega arith)
      (omega arith),
)

-- The behaviour drain unpacks the four bytes that the transport packed, the sticks as units.
pub unpack_command-pack_command :
    (mode throttle steering flags : ℕ)
    → IsBytes (mode ∷ throttle ∷ steering ∷ flags ∷ [])
    → unpack_command (pack_command mode throttle steering flags) ≡ record {
      mode = mode;
      v = byte_to_unit throttle;
      omega = byte_to_unit steering;
      flags = flags;
    }
unfolding unpack_command
unpack_command-pack_command m t s f h =
    let e = packed m t s f h in
    let mode_eq : u8 (pack_command m t s f / 2 ^ 24) ≡ m = omega arith in
    let throttle_eq : u8 (pack_command m t s f / 2 ^ 16) ≡ t = omega arith in
    let steering_eq : u8 (pack_command m t s f / 2 ^ 8) ≡ s = omega arith in
    let flags_eq : u8 (pack_command m t s f) ≡ f = omega arith in
    λ i. record {
      mode = mode_eq i;
      v = byte_to_unit (throttle_eq i);
      omega = byte_to_unit (steering_eq i);
      flags = flags_eq i;
    }

not_telemetry :
    (bs : List ℕ) (p : TelemetryPacket) → length bs ≢ 9 → decode_telemetry (some bs) ≢ some p
unfolding decode_telemetry
not_telemetry bs p n h = ground arith

length-encode_telemetry : (p : TelemetryPacket) → length (encode_telemetry p) ≡ 9
unfolding encode_telemetry put_i16_be
length-encode_telemetry p = refl

-- For a packet in range and a buffer of bytes, decoding gives the packet exactly when the bytes
-- are its encoding.
pub decode_telemetry-encode_telemetry_iff :
    (bs : List ℕ) (p : TelemetryPacket)
    → IsBytes bs
    → IsTelemetry p
    → (decode_telemetry (some bs) ≡ some p) ↔ (bs ≡ encode_telemetry p)
decode_telemetry-encode_telemetry_iff bs p hb hp = (forth, back)
  where
    forth : decode_telemetry (some bs) ≡ some p → bs ≡ encode_telemetry p
    forth h = elim (ℕ_discrete (length bs) 9) [
      | yes e ↦
          by_cells (λ l. IsBytes l → decode_telemetry (some l) ≡ some p → l ≡ encode_telemetry p) 9
            bs e (telemetry_cells _ _ _ _ _ _ _ _ _ p) hb h
      | no n ↦ absurd (not_telemetry bs p n h)
    ]

    back : bs ≡ encode_telemetry p → decode_telemetry (some bs) ≡ some p
    back e = rw e (decode_telemetry-encode_telemetry p hp)
