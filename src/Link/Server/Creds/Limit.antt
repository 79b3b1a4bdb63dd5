-- ===== src/Link/Server/Creds/Limit.antt =====
-- A push is repeated a bounded number of times, whatever comes in between.
use desky.Prelude.{
  ℕ, ◌+◌, ◌-◌, ◌≤◌, ◌≡◌, refl, ap, ◌∙◌, arith, Bool, true, Option, List, [], ◌∷◌, ◌++◌,
  if◌then◌else◌, length, length-append, ◌||◌, ◌!=◌, Option-cases, Bool-cases, inl, inr, u32,
}
use desky.Link.{Frame, decode_frame, type_hb_ack, type_ack}
use desky.Link.Payload.{unpack_hb, pack_ack, pack_hb_ack}
use desky.Link.Server.{
  Server, Datagram, pin_head_peer, send_ack, send_hb_ack, beat, handle_hb, handle_cmd, stage,
  handle_ack, by_type, handle_udp_frame, poll_udp, drop_udp, classify_seq, boot_epoch_changed,
  SeqVerdict, fresh, duplicate, stale,
}
use desky.Link.Server.Creds.{send_push, arm, push_creds, poll_cred_push}
use desky.Link.Server.Creds.Budget.{
  send_to-cred, send_unicast-cred, send_push-Modest, poll_cred_push-budget,
}

-- How often the push has been tried.
abbrev tried : Server → ℕ
tried s = s.cred.attempts

send_ack-tried :
    (radio : Bool) (s : Server) (ip port seq : ℕ) → tried (send_ack radio s ip port seq).0 ≡ tried s
unfolding send_ack
send_ack-tried radio s ip port seq =
    let h = send_to-cred radio s type_ack (pack_ack seq) ip port in ground arith

send_hb_ack-tried :
    (radio : Bool) (s : Server) (channel : ℕ) → tried (send_hb_ack radio s channel).0 ≡ tried s
unfolding send_hb_ack
send_hb_ack-tried radio s channel =
    let h = send_unicast-cred radio s type_hb_ack (pack_hb_ack channel 0) in ground arith

handle_cmd-tried :
    (radio : Bool) (s : Server) (f : Frame) (ip port : ℕ)
    → tried (handle_cmd radio s f ip port).0 ≡ tried s
unfolding handle_cmd drop_udp classify_seq
handle_cmd-tried radio s f ip port =
    let old = send_ack-tried radio s ip port f.seq in
    let new = send_ack-tried radio (stage s f) ip port f.seq in ground arith

handle_ack-tried : (s : Server) (f : Frame) → tried (handle_ack s f) ≡ tried s
unfolding handle_ack drop_udp
handle_ack-tried s f = ground arith

beat-tried :
    (radio : Bool) (s : Server) (seq ip port channel : ℕ)
    → tried (beat radio s seq ip port channel).0 ≡ tried s
beat-tried radio s seq ip port channel =
    send_hb_ack-tried radio
      (pin_head_peer
        (record s {
          have_seq = true;
          last_seq = seq;
          counts = record s.counts { hb_rx = u32 (s.counts.hb_rx + 1) };
        })
        ip port)
      channel
    ∙ (unfold pin_head_peer in refl)

-- By the verdict on the number of a heartbeat.
beat_by-tried :
    (v : SeqVerdict) (radio : Bool) (s : Server) (seq ip port channel : ℕ)
    → tried
        (elim v as (λ x. Server × List Datagram) [
          | stale ↦ (drop_udp s, [])
          | duplicate ↦ send_hb_ack radio (pin_head_peer s ip port) channel
          | fresh ↦ beat radio s seq ip port channel
        ]).0
      ≡ tried s
unfolding drop_udp pin_head_peer
beat_by-tried stale radio s seq ip port channel = refl
beat_by-tried duplicate radio s seq ip port channel =
    send_hb_ack-tried radio (pin_head_peer s ip port) channel
beat_by-tried fresh radio s seq ip port channel = beat-tried radio s seq ip port channel

handle_hb-tried :
    (radio : Bool) (s : Server) (f : Frame) (ip port : ℕ)
    → tried (handle_hb radio s f ip port).0 ≡ tried s
unfolding handle_hb drop_udp
handle_hb-tried radio s f ip port = elim (Option-cases (unpack_hb f.payload)) [
  | inl e ↦ rw (e, handle_hb) refl
  | inr (h, e) ↦ elim (Bool-cases (boot_epoch_changed s.have_boot s.last_boot_id h.boot_id)) [
    | inl g ↦
        rw (e, handle_hb)
          (rw (g, handle_hb)
            (beat-tried radio (record s { have_boot = true; last_boot_id = h.boot_id }) f.seq ip
              port h.channel))
    | inr g ↦
        rw (e, handle_hb)
          (rw (g, handle_hb)
            (beat_by-tried (classify_seq s.have_seq s.last_seq f.seq) radio s f.seq ip port
              h.channel))
  ]
]

by_type-tried :
    (radio : Bool) (s : Server) (f : Frame) (ip port : ℕ)
    → tried (by_type radio s f ip port).0 ≡ tried s
unfolding drop_udp
by_type-tried radio s f ip port =
    let hb = handle_hb-tried radio s f ip port in
    let cmd = handle_cmd-tried radio s f ip port in let ack = handle_ack-tried s f in ground arith

handle_udp_frame-tried :
    (radio : Bool) (s : Server) (buf : List ℕ) (ip port : ℕ)
    → tried (handle_udp_frame radio s buf ip port).0 ≡ tried s
unfolding handle_udp_frame drop_udp
handle_udp_frame-tried radio s buf ip port = elim (Option-cases (decode_frame buf)) [
  | inl e ↦ rw (e, handle_udp_frame) refl
  | inr (f, e) ↦ elim (Bool-cases (f.frag_idx != 0 || f.frag_total != 1)) [
    | inl g ↦ rw (e, handle_udp_frame) (rw (g, handle_udp_frame) refl)
    | inr g ↦
        rw (e, handle_udp_frame)
          (rw (g, handle_udp_frame)
            (by_type-tried radio
              (record s { counts = record s.counts { udp_rx = u32 (s.counts.udp_rx + 1) } }) f ip
              port))
  ]
]

poll_udp-tried :
    (radio : Bool) (s : Server) (buf : List ℕ) (ip port : ℕ)
    → tried (poll_udp radio s buf ip port).0 ≡ tried s
unfolding poll_udp drop_udp
poll_udp-tried radio s buf ip port =
    let same = handle_udp_frame-tried radio s buf ip port in ground arith

-- What the link task of the core does: it polls the push, or it takes a datagram.
pub data LinkEvent : Type 0 where
  push_poll : Bool → List ℕ → ℕ → LinkEvent
  datagram : Bool → List ℕ → ℕ → ℕ → LinkEvent

module _ (seal : List ℕ → List ℕ → Option (List ℕ)) where
  -- The datagrams of the push in a run.
  unfoldable pub repeats : Server → List LinkEvent → List Datagram
  repeats s [] = []
  repeats s (push_poll radio nonce now ∷ es) =
      let (s', out) = poll_cred_push seal radio s nonce now in out ++ repeats s' es
  repeats s (datagram radio buf ip port ∷ es) = repeats (poll_udp radio s buf ip port).0 es

  repeats-le : (es : List LinkEvent) (s : Server) → length (repeats s es) ≤ 5 - tried s
  unfolding repeats
  repeats-le [] s = omega arith
  repeats-le (push_poll radio nonce now ∷ es) s =
      let r = poll_cred_push seal radio s nonce now in
      omega (
        arith,
        length-append r.1 (repeats r.0 es),
        repeats-le es r.0,
        poll_cred_push-budget seal radio s nonce now,
      )
  repeats-le (datagram radio buf ip port ∷ es) s =
      omega
        (arith, repeats-le es (poll_udp radio s buf ip port).0, poll_udp-tried radio s buf ip port)

  push_creds-sent :
      (clear radio : Bool) (s : Server) (nonce : List ℕ) (now : ℕ)
      → let r = send_push seal clear radio s nonce in
        r.1 ≡ true → push_creds seal clear radio s nonce now ≡ (arm seal clear r.0 r.2 now, r.3)
  unfolding push_creds
  push_creds-sent clear radio s nonce now ok =
      let r = send_push seal clear radio s nonce in
      ap (λ b. if b then (arm seal clear r.0 r.2 now, r.3) else (r.0, r.3)) ok

  -- A push, of the credentials or of their removal, whose first datagram has left costs at most five
  -- datagrams in all, whatever polls and whatever datagrams from the head or from others follow.
  pub push_creds-le :
      (clear radio : Bool) (s : Server) (nonce : List ℕ) (now : ℕ) (es : List LinkEvent)
      → (send_push seal clear radio s nonce).1 ≡ true
      → let r = push_creds seal clear radio s nonce now in length r.1 + length (repeats r.0 es) ≤ 5
  push_creds-le clear radio s nonce now es ok =
      let r = send_push seal clear radio s nonce in
      let m = send_push-Modest seal clear radio s nonce in
      let later = repeats-le es (arm seal clear r.0 r.2 now) in
      rw (push_creds-sent clear radio s nonce now ok) (omega arith)
