-- ===== src/Examples/Session.antt =====
-- The pairing code and the session on small inputs. The hash of the examples adds up the key and the
-- message, so that a tag depends on both.
use desky.Prelude.{
  ℕ, ◌+◌, ◌^◌, ◌<◌, ◌≤◌, ◌≡◌, ◌≢◌, ◌⊎◌, ◌%◌, ◌++◌, inl, take, drop, set, get_or, u16, refl, arith,
  true, false, Option, some, none, List, [], ◌∷◌, length,
}
use desky.Udp.{pack_command, checksum}
use desky.Udp.Rx.{is_fresh_counter}
use desky.Link.{get_u16_be, get_u32_be}
use desky.Pairing.Code.{ok, already_paired, new_core, open_window, try_code, window_open_at}
use desky.Pairing.Code.Guesses.{
  Attempt, compares, wrong_guesses, duration, wrong_guesses-open_window,
}
use desky.Pairing.Peer.{cleared, is_alive}
use desky.Pairing.Tags.{drive_tag_msg, pair_refresh_tag_msg}
use desky.Pairing.Tags.Separation.{alive, tag_msg-inj}
use desky.Pairing.Session.{
  zeroes, send_pair_err, no_last_pair, Session, save_counter, publish_command, hmac_ok, try_consume,
}
use desky.Pairing.Receive.{handle_drive}
use desky.Pairing.Enrol.{Draw, pair_err, derive_pair_refresh_psk, handle_pair_req}
use desky.Pairing.Enrol.Reply.{replies, stores, handle_pair_req-outcome, handle_pair_req-stuck}
use desky.Pairing.Refresh.{handle_pair_refresh}
use desky.Pairing.Refresh.Rotation.{handle_pair_refresh-outcome}
use desky.Pairing.Button.{
  enter_pair_mode, evict, compose_evict_frame, open_pairing_window, clear_session,
  pump_eviction_burst,
}
use desky.Pairing.Button.Eviction.{pumps}
use desky.Pairing.Server.{Crypto, receive}
use desky.Pairing.Server.Commands.{
  commands, command_of, IsObeyed, receive-commands, receive-corrupt,
}
use desky.Pairing.Receive.Replay.{
  Tagged, try_frame, run, progress, run-replay, is_authentic_drive, handle_drive-authentic,
}

abbrev sum : List ℕ → ℕ
sum [] = 0
sum (b ∷ bs) = b + sum bs

abbrev hash : List ℕ → List ℕ → Option (List ℕ)
hash key msg = some (sum key % 256 ∷ sum msg % 256 ∷ 0 ∷ 0 ∷ 0 ∷ 0 ∷ [])

abbrev session : Session
session = record {
  core = new_core;
  conn = cleared;
  ip = 0;
  port = 0;
  psk = 3 ∷ [];
  from_app = 0;
  to_app = 0;
  paired = true;
  era = 0;
  valid_count = 0;
  manual_take = false;
  manual_release = false;
  expr = none;
  pending_valid = false;
  pair_show_sent = false;
  last_pair = no_last_pair;
  evict_remaining = 0;
  evict_frame = zeroes 14;
  evict_ip = 0;
  evict_port = 0;
  evict_due_ms = 0;
  pending_code = zeroes 6;
}

abbrev frame : Tagged
frame = record { ctr = 5; era_ok = true; tag = 3 ∷ 9 ∷ 0 ∷ 0 ∷ 0 ∷ 0 ∷ []; msg = 9 ∷ [] }

frame_accepted : (try_frame hash session frame).1 ≡ true
unfolding try_consume is_fresh_counter
frame_accepted = refl

-- The next frame, and then the first one again.
abbrev later : Tagged
later = record frame { ctr = 6 }

later_near : progress hash (try_frame hash session frame).0 (later ∷ []) ≤ 2 ^ 31
unfolding progress try_consume
later_near = omega arith

run-replay_example :
    (try_frame hash (run hash (try_frame hash session frame).0 (later ∷ [])) frame).1 ≡ false
run-replay_example =
    run-replay hash session frame frame (later ∷ []) (omega arith) (omega arith, tt) frame_accepted
      later_near refl

-- Full speed ahead, with counter 5 and a good tag.
abbrev drive_bytes : List ℕ
drive_bytes = 0xAC ∷ 1 ∷ 255 ∷ 128 ∷ 0 ∷ 0 ∷ 0 ∷ 0 ∷ 5 ∷ 3 ∷ 133 ∷ 0 ∷ 0 ∷ 0 ∷ 0 ∷ 81 ∷ []

drive_run :
    (handle_drive hash session drive_bytes 7 8 1000).1
    ≡ publish_command (pack_command 1 255 128 0) ∷ []
unfolding handle_drive drive_tag_msg
drive_run = refl

handle_drive-authentic_example :
    let (t, out) = handle_drive hash session drive_bytes 7 8 1000 in
    let command = pack_command 1 255 128 0 in
    ((is_authentic_drive hash session drive_bytes ≡ false) × (t ≡ session) × (out ≡ []))
    ⊎ ((is_authentic_drive hash session drive_bytes ≡ true)
        × ((out ≡ publish_command command ∷ [])
            ⊎ (out ≡ save_counter (get_u32_be drive_bytes 5) ∷ publish_command command ∷ []))
        × (t.from_app ≡ get_u32_be drive_bytes 5)
        × (t.conn.peer ≡ 7)
        × (is_alive t.conn 1000 ≡ true))
handle_drive-authentic_example =
    handle_drive-authentic hash session drive_bytes 7 8 1000 (omega arith)

-- A window with the code 123456.
abbrev code : List ℕ
code = 49 ∷ 50 ∷ 51 ∷ 52 ∷ 53 ∷ 54 ∷ []

code_opens : (open_window new_core 1000 code).1 ≡ true
unfolding open_window
code_opens = refl

abbrev guess : Attempt
guess = record { gap = 1000; code = 48 ∷ 48 ∷ 48 ∷ 48 ∷ 48 ∷ 48 ∷ [] }

guesses_short : duration (guess ∷ guess ∷ []) < 2 ^ 32
unfolding duration
guesses_short = omega arith

wrong_guesses-open_window_example :
    wrong_guesses (open_window new_core 1000 code).0 1000 0 (guess ∷ guess ∷ []) ≤ 50
wrong_guesses-open_window_example =
    wrong_guesses-open_window new_core 1000 code (guess ∷ guess ∷ []) (omega arith) guesses_short
      code_opens

guesses_run : wrong_guesses (open_window new_core 1000 code).0 1000 0 (guess ∷ guess ∷ []) ≡ 2
unfolding wrong_guesses open_window try_code window_open_at
guesses_run = refl

closed : compares new_core 1000 ≡ false
unfolding window_open_at
closed = refl

tag_msg-inj_example : alive 3 9 ≡ alive 3 9
tag_msg-inj_example =
    tag_msg-inj (alive 3 9) (alive 3 9) (omega arith, omega arith) (omega arith, omega arith) refl

-- The hash of the examples for all three functions.
abbrev crypto : Crypto
crypto = record {
  hmac = hash;
  hkdf = λ salt key info. hash key info;
  gcm = λ key iv aad plain. some (plain, zeroes 16);
}

abbrev draw : Draw
draw = record { psk = 7 ∷ []; nonce = 1 ∷ 2 ∷ 3 ∷ 4 ∷ []; stored = true }

receive-commands_example :
    let out = (receive crypto session drive_bytes 7 8 1000 draw).1 in
    (commands out ≡ [])
    ⊎ (IsObeyed crypto session (take 20 drive_bytes)
        × (commands out ≡ command_of (take 20 drive_bytes) ∷ []))
receive-commands_example = receive-commands crypto session drive_bytes 7 8 1000 draw

drive_bytes_sealed : checksum (take 15 drive_bytes) ≡ get_or drive_bytes 15 0
unfolding checksum
drive_bytes_sealed = refl

-- The throttle is changed on the way.
receive-corrupt_example : receive crypto session (set drive_bytes 2 0) 7 8 1000 draw ≡ (session, [])
receive-corrupt_example =
    receive-corrupt crypto session drive_bytes 2 0 7 8 1000 draw (ground arith) (omega arith)
      drive_bytes_sealed (omega arith) (omega arith) (λ h. omega arith)

-- The session before the pair, with the window open, and the request with the right code.
abbrev unpaired : Session
unpaired = record session { paired = false; core = (open_window new_core 1000 code).0 }

abbrev request : List ℕ
request = 0x50 ∷ (code ++ (9 ∷ 9 ∷ 9 ∷ 9 ∷ 0 ∷ []))

handle_pair_req-outcome_example :
    let (t, out) = handle_pair_req crypto.hkdf crypto.gcm unpaired request 7 8 2000 draw in
    ((replies out ≡ true)
      × (draw.stored ≡ true)
      × (stores out ≡ some draw.psk)
      × (t.paired ≡ true)
      × (t.psk ≡ draw.psk)
      × (t.from_app ≡ 0)
      × (t.era ≡ 0))
    ⊎ ((replies out ≡ false)
        × (t.paired ≡ unpaired.paired)
        × (t.psk ≡ unpaired.psk)
        × (t.from_app ≡ unpaired.from_app)
        × (t.era ≡ unpaired.era))
handle_pair_req-outcome_example =
    handle_pair_req-outcome crypto.hkdf crypto.gcm unpaired request 7 8 2000 draw

pair_run : replies (handle_pair_req crypto.hkdf crypto.gcm unpaired request 7 8 2000 draw).1 ≡ true
unfolding handle_pair_req try_code open_window
pair_run = refl

right_code : (try_code unpaired.core (take 6 (drop 1 request)) 2000).1 ≡ ok
unfolding try_code open_window
right_code = refl

-- The store fails.
abbrev lost : Draw
lost = record draw { stored = false }

handle_pair_req-stuck_example :
    let t = (handle_pair_req crypto.hkdf crypto.gcm unpaired request 7 8 2000 lost).0 in
    (t.paired ≡ false)
    × ((handle_pair_req crypto.hkdf crypto.gcm t request 7 8 3000 draw).1
        ≡ send_pair_err 7 8 (pair_err already_paired 0) ∷ [])
handle_pair_req-stuck_example =
    handle_pair_req-stuck crypto.hkdf crypto.gcm unpaired request request 7 8 2000 3000 lost draw
      refl right_code (inl refl)

-- A rotation to era 1 under counter 5.
abbrev rotation : List ℕ
rotation = 0x53 ∷ 0 ∷ 1 ∷ 0 ∷ 0 ∷ 0 ∷ 5 ∷ 3 ∷ 65 ∷ 0 ∷ 0 ∷ 0 ∷ 0 ∷ 0 ∷ []

handle_pair_refresh-outcome_example :
    let t = (handle_pair_refresh hash crypto.hkdf session rotation 7 8 1000 true).0 in
    (t ≡ session)
    ⊎ ((session.paired ≡ true)
        × (true ≡ true)
        × (get_u16_be rotation 1 ≡ u16 (session.era + 1))
        × (is_fresh_counter session.from_app (get_u32_be rotation 3) ≡ true)
        × (hmac_ok hash session.psk
              (pair_refresh_tag_msg (get_u16_be rotation 1) (get_u32_be rotation 3))
              (drop 7 rotation)
            ≡ true)
        × (derive_pair_refresh_psk crypto.hkdf session.psk (get_u16_be rotation 1) ≡ some t.psk)
        × (t.era ≡ get_u16_be rotation 1)
        × (t.from_app ≡ 0)
        × (t.to_app ≡ 0)
        × (t.paired ≡ true))
handle_pair_refresh-outcome_example =
    handle_pair_refresh-outcome hash crypto.hkdf session rotation 7 8 1000 true

rotation_run : (handle_pair_refresh hash crypto.hkdf session rotation 7 8 1000 true).0.era ≡ 1
unfolding handle_pair_refresh pair_refresh_tag_msg is_fresh_counter derive_pair_refresh_psk
rotation_run = refl

rotates : (handle_pair_refresh hash crypto.hkdf session rotation 7 8 1000 true).0.era ≢ session.era
rotates h = let e = rotation_run in omega arith

-- The three runs of the pump send the frame twice.
burst_run :
    length
      (pumps
        (enter_pair_mode hash
          (record session { port = 9 })
          5000
          (49 ∷ 50 ∷ 51 ∷ 52 ∷ 53 ∷ 54 ∷ [])).0
        (5050 ∷ 5100 ∷ 5150 ∷ [])).1
    ≡ 2
unfolding pumps pump_eviction_burst enter_pair_mode evict compose_evict_frame open_pairing_window
    open_window clear_session
burst_run = refl
