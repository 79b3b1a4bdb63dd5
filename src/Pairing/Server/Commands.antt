-- ===== src/Pairing/Server/Commands.antt =====
-- What it takes for a datagram to move the robot.
use desky.Prelude.{
  ℕ, zero, suc, ◌-◌, ◌^◌, ◌<◌, ◌≤◌, ◌≡◌, ◌≢◌, ◌⊎◌, refl, ap, arith, Bool, true, List, [], ◌∷◌,
  if◌then◌else◌, length, length-set, get_or, take, set, IsBytes,
}
use desky.Udp.{checksum, pack_command}
use desky.Udp.Checksum.{unsealed_of_set}
use desky.Udp.Rx.{classify_rx, drive}
use desky.Pairing.Session.{Session, Effect, publish_command, try_consume}
use desky.Pairing.Receive.{
  handle_drive, handle_alive, handle_disconnect, handle_manual_take, handle_manual_release,
  handle_expr_trigger, handle_unpair,
}
use desky.Pairing.Receive.Replay.{is_authentic_drive}
use desky.Pairing.Enrol.{Draw, handle_pair_req}
use desky.Pairing.Refresh.{handle_pair_refresh}
use desky.Pairing.Tags.{drive_tag_msg}
use desky.Pairing.Server.{Crypto, handle_pair_frame, dispatch, receive}

-- The commands among the effects.
abbrev pub commands : List Effect → List ℕ
commands [] = []
commands (publish_command c ∷ es) = c ∷ commands es
commands (e ∷ es) = commands es

-- The command that a drive frame carries.
abbrev pub command_of : List ℕ → ℕ
command_of buf = pack_command (get_or buf 1 0) (get_or buf 2 0) (get_or buf 3 0) (get_or buf 4 0)

-- The bytes are those of a sealed drive frame that the session proves its own.
abbrev pub IsObeyed : Crypto → Session → List ℕ → Type 0
IsObeyed k s buf =
    (classify_rx (length buf) (get_or buf 0 0) ≡ drive)
    × (checksum (take (length buf - 1) buf) ≡ get_or buf (length buf - 1) 0)
    × (is_authentic_drive k.hmac s buf ≡ true)

module _ (k : Crypto) (s : Session) (buf : List ℕ) (ip port now : ℕ) where
  commands-try_consume :
      (ctr : ℕ) (era_ok : Bool) (tag msg : List ℕ)
      → commands (try_consume k.hmac s ctr era_ok tag msg).2 ≡ []
  unfolding try_consume
  commands-try_consume ctr era_ok tag msg = ground arith

  commands-handle_alive : commands (handle_alive k.hmac s buf ip port now).1 ≡ []
  unfolding handle_alive
  commands-handle_alive = ground arith

  commands-handle_disconnect : commands (handle_disconnect k.hmac s buf now).1 ≡ []
  unfolding handle_disconnect
  commands-handle_disconnect = ground arith

  commands-handle_manual_take : commands (handle_manual_take k.hmac s buf ip port now).1 ≡ []
  unfolding handle_manual_take
  commands-handle_manual_take = ground arith

  commands-handle_manual_release : commands (handle_manual_release k.hmac s buf ip port now).1 ≡ []
  unfolding handle_manual_release
  commands-handle_manual_release = ground arith

  commands-handle_expr_trigger : commands (handle_expr_trigger k.hmac s buf ip port now).1 ≡ []
  unfolding handle_expr_trigger
  commands-handle_expr_trigger = ground arith

  commands-handle_unpair : commands (handle_unpair k.hmac s buf now).1 ≡ []
  unfolding handle_unpair
  commands-handle_unpair = ground arith

  commands-handle_pair_req :
      (d : Draw) → commands (handle_pair_req k.hkdf k.gcm s buf ip port now d).1 ≡ []
  unfolding handle_pair_req
  commands-handle_pair_req d = ground arith

  commands-handle_pair_refresh :
      (stored : Bool) → commands (handle_pair_refresh k.hmac k.hkdf s buf ip port now stored).1 ≡ []
  unfolding handle_pair_refresh
  commands-handle_pair_refresh stored = ground arith

  commands-handle_drive : commands (handle_drive k.hmac s buf ip port now).1 ≡ (
      if is_authentic_drive k.hmac s buf
      then pack_command (get_or buf 1 0) (get_or buf 2 0) (get_or buf 3 0) (get_or buf 4 0) ∷ []
      else [])
  unfolding handle_drive try_consume drive_tag_msg
  commands-handle_drive = ground arith

  commands-handle_pair_frame :
      (header : ℕ) (d : Draw) → commands (handle_pair_frame k header s buf ip port now d).1 ≡ []
  unfolding handle_pair_frame
  commands-handle_pair_frame header d = ground (
    arith,
    commands-handle_pair_req d,
    commands-handle_pair_refresh d.stored,
    commands-handle_unpair,
    commands-handle_manual_take,
    commands-handle_manual_release,
    commands-handle_expr_trigger,
  )

  commands-dispatch :
      (d : Draw)
      → let out = (dispatch k s buf ip port now d).1 in
        (commands out ≡ [])
        ⊎ ((classify_rx (length buf) (get_or buf 0 0) ≡ drive)
            × (is_authentic_drive k.hmac s buf ≡ true)
            × (commands out ≡ command_of buf ∷ []))
  unfolding dispatch
  commands-dispatch d = ground (
    arith,
    commands-handle_pair_frame (get_or buf 0 0) d,
    commands-handle_drive,
    commands-handle_alive,
    commands-handle_disconnect,
  )

take_whole : (n : ℕ) (xs : List ℕ) → length xs ≤ n → take n xs ≡ xs
take_whole zero [] h = refl
take_whole zero (x ∷ xs) h = absurd (omega arith)
take_whole (suc n) [] h = refl
take_whole (suc n) (x ∷ xs) h = ap (λ l. x ∷ l) (take_whole n xs (omega arith))

-- A datagram moves the robot only if its first 20 bytes are a whole drive frame that its checksum
-- seals and the session proves its own; then it gives the one command of that frame. No other
-- datagram, of whatever kind, gives a command.
pub receive-commands :
    (k : Crypto) (s : Session) (datagram : List ℕ) (ip port now : ℕ) (d : Draw)
    → let out = (receive k s datagram ip port now d).1 in
      let buf = take 20 datagram in
      (commands out ≡ []) ⊎ (IsObeyed k s buf × (commands out ≡ command_of buf ∷ []))
unfolding receive
receive-commands k s datagram ip port now d =
    ground (arith, commands-dispatch k s (take 20 datagram) ip port now d)

-- A sealed datagram of at most 20 bytes with one byte changed on its way has no effect whatever.
pub receive-corrupt :
    (k : Crypto) (s : Session) (datagram : List ℕ) (i v ip port now : ℕ) (d : Draw)
    → IsBytes datagram
    → length datagram ≤ 20
    → checksum (take (length datagram - 1) datagram) ≡ get_or datagram (length datagram - 1) 0
    → i < length datagram
    → v < 2 ^ 8
    → v ≢ get_or datagram i 0
    → receive k s (set datagram i v) ip port now d ≡ (s, [])
unfolding receive
receive-corrupt k s datagram i v ip port now d h le sealed' hi hv ne =
    let n = length datagram - 1 in
    let flawed = unsealed_of_set n datagram i v h (omega arith) sealed' hi hv ne in
    let whole : take 20 (set datagram i v) ≡ set datagram i v =
      take_whole 20 (set datagram i v) (omega (arith, length-set datagram i v)) in
    let same = length-set datagram i v in rw (whole, same) (ground arith)
