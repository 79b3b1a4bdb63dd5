-- ===== src/Pairing/Receive/Replay.antt =====
-- What a verified frame rests on, and why it is accepted once.
use desky.Prelude.{
  ℕ, ◌+◌, ◌^◌, ◌<◌, ◌≤◌, ◌≡◌, ◌≢◌, ◌⊎◌, ◌↔◌, sym, ap, ◌∙◌, inl, inr, arith, Bool, true, false, ◌&&◌,
  Option, List, [], ◌∷◌, length, get_or, drop, u32, sub32, if◌then◌else◌, Bool-cases,
}
use desky.Udp.{pack_command}
use desky.Udp.Rx.{is_fresh_counter}
use desky.Udp.Rx.Laws.{is_fresh_counter-behind}
use desky.Link.{get_u32_be}
use desky.Pairing.Peer.{mark_alive, is_alive}
use desky.Pairing.Tags.{drive_tag_msg}
use desky.Pairing.Session.{Session, Effect, save_counter, publish_command, hmac_ok, try_consume}
use desky.Pairing.Receive.{handle_drive}

-- A frame as `try_consume` takes it.
pub record Tagged : Type 0 where
  pub ctr : ℕ
  pub era_ok : Bool
  pub tag : List ℕ
  pub msg : List ℕ

abbrev pub IsCounted : List Tagged → Type 0
IsCounted [] = Unit
IsCounted (f ∷ fs) = (f.ctr < 2 ^ 32) × IsCounted fs

module _ (hmac : List ℕ → List ℕ → Option (List ℕ)) where
  -- A frame is accepted exactly when the session is paired, the era is right, the message is not empty
  -- and bears the tag under the session's key, and its counter is fresh; then the counter is taken,
  -- and a frame that is not accepted leaves the session as it was and saves nothing.
  pub try_consume_iff :
      (s : Session) (ctr : ℕ) (era_ok : Bool) (tag msg : List ℕ)
      → ((try_consume hmac s ctr era_ok tag msg).1 ≡ true) ↔ (
          (s.paired ≡ true)
          × (era_ok ≡ true)
          × (length msg ≢ 0)
          × (is_fresh_counter s.from_app ctr ≡ true)
          × (hmac_ok hmac s.psk msg tag ≡ true))
  unfolding try_consume
  try_consume_iff s ctr era_ok tag msg = (λ h. ground arith, λ h. ground arith)

  pub try_consume-accepted :
      (s : Session) (ctr : ℕ) (era_ok : Bool) (tag msg : List ℕ)
      → ((try_consume hmac s ctr era_ok tag msg).1 ≡ true)
      → ((try_consume hmac s ctr era_ok tag msg).0.from_app ≡ ctr)
  unfolding try_consume
  try_consume-accepted s ctr era_ok tag msg h = ground arith

  pub try_consume-refused :
      (s : Session) (ctr : ℕ) (era_ok : Bool) (tag msg : List ℕ)
      → (try_consume hmac s ctr era_ok tag msg).1 ≡ false
      → ((try_consume hmac s ctr era_ok tag msg).0 ≡ s)
        × ((try_consume hmac s ctr era_ok tag msg).2 ≡ [])
  unfolding try_consume
  try_consume-refused s ctr era_ok tag msg h = ground arith

  abbrev pub try_frame : Session → Tagged → Session × Bool × List Effect
  try_frame s f = try_consume hmac s f.ctr f.era_ok f.tag f.msg

  pub run : Session → List Tagged → Session
  run s [] = s
  run s (f ∷ fs) = run (try_frame s f).0 fs

  -- How far the accepted frames move the counter.
  unfoldable pub progress : Session → List Tagged → ℕ
  progress s [] = 0
  progress s (f ∷ fs) =
      (if (try_frame s f).1 then sub32 f.ctr s.from_app else 0) + progress (try_frame s f).0 fs

  try_frame-from_app :
      (s : Session) (f : Tagged)
      → s.from_app < 2 ^ 32
      → f.ctr < 2 ^ 32
      → ((try_frame s f).0.from_app < 2 ^ 32)
        × ((try_frame s f).0.from_app
            ≡ u32 (s.from_app + (if (try_frame s f).1 then sub32 f.ctr s.from_app else 0)))
  try_frame-from_app s f p q = elim (Bool-cases (try_frame s f).1) [
    | inl yes' ↦
        let e = try_consume-accepted s f.ctr f.era_ok f.tag f.msg yes' in
        (rw e q, rw (e, yes') (omega arith))
    | inr no' ↦
        let e = (try_consume-refused s f.ctr f.era_ok f.tag f.msg no').0 in
        (rw e p, rw (e, no') (omega arith))
  ]

  run-from_app :
      (fs : List Tagged) (s : Session)
      → s.from_app < 2 ^ 32
      → IsCounted fs
      → (run s fs).from_app ≡ u32 (s.from_app + progress s fs)
  unfolding run progress
  run-from_app [] s p h = omega arith
  run-from_app (f ∷ fs) s p h =
      let (small, moved) = try_frame-from_app s f p h.0 in
      let rest = run-from_app fs (try_frame s f).0 small h.1 in omega arith

  -- Once a frame is accepted, no frame with its counter is accepted again, whatever frames go through
  -- the counter check of the same session between, until the frames accepted since have moved the
  -- counter by more than half its range. Between, the session is not rotated, unpaired or paired anew.
  pub run-replay :
      (s : Session) (f g : Tagged) (fs : List Tagged)
      → f.ctr < 2 ^ 32
      → IsCounted fs
      → (try_frame s f).1 ≡ true
      → progress (try_frame s f).0 fs ≤ 2 ^ 31
      → g.ctr ≡ f.ctr
      → (try_frame (run (try_frame s f).0 fs) g).1 ≡ false
  run-replay s f g fs p h accepted few same =
      let s' = (try_frame s f).0 in
      let e : s'.from_app ≡ f.ctr = try_consume-accepted s f.ctr f.era_ok f.tag f.msg accepted in
      let small : s'.from_app < 2 ^ 32 = rw e p in
      let at' : (run s' fs).from_app ≡ u32 (g.ctr + progress s' fs) =
        run-from_app fs s' small h ∙ ap (λ k. u32 (k + progress s' fs)) (e ∙ sym same) in
      let stale : is_fresh_counter (run s' fs).from_app g.ctr ≡ false =
        rw at' (is_fresh_counter-behind g.ctr (progress s' fs) (rw same p) few) in
      elim (Bool-cases (try_frame (run s' fs) g).1) [
        | inr no' ↦ no'
        | inl yes' ↦
            let fresh = (try_consume_iff (run s' fs) g.ctr g.era_ok g.tag g.msg).0 yes' in
            absurd (ground arith)
      ]

  -- The drive frames that the session proves its own.
  abbrev pub is_authentic_drive : Session → List ℕ → Bool
  is_authentic_drive s buf =
      let ctr = get_u32_be buf 5 in
      s.paired
      && is_fresh_counter s.from_app ctr
      && hmac_ok hmac s.psk
          (drive_tag_msg ctr (get_or buf 1 0) (get_or buf 2 0) (get_or buf 3 0) (get_or buf 4 0))
          (drop 9 buf)

  -- A drive frame is obeyed exactly when the session is paired, the counter is fresh and the tag is
  -- that of the session's key over the counter and the command: then one command goes out, that of
  -- the frame, its counter is taken, and the sender is the peer and alive. Any other frame changes
  -- nothing and sends nothing.
  pub handle_drive-authentic :
      (s : Session) (buf : List ℕ) (ip port now : ℕ)
      → now < 2 ^ 32
      → let (t, out) = handle_drive hmac s buf ip port now in
        let command =
          pack_command (get_or buf 1 0) (get_or buf 2 0) (get_or buf 3 0) (get_or buf 4 0) in
        ((is_authentic_drive s buf ≡ false) × (t ≡ s) × (out ≡ []))
        ⊎ ((is_authentic_drive s buf ≡ true)
            × ((out ≡ publish_command command ∷ [])
                ⊎ (out ≡ save_counter (get_u32_be buf 5) ∷ publish_command command ∷ []))
            × (t.from_app ≡ get_u32_be buf 5)
            × (t.conn.peer ≡ ip)
            × (is_alive t.conn now ≡ true))
  unfolding handle_drive try_consume drive_tag_msg mark_alive is_alive
  handle_drive-authentic s buf ip port now w = ground arith
