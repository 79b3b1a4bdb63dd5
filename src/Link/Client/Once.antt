-- ===== src/Link/Client/Once.antt =====
-- When the head executes a command.
use desky.Prelude.{
  ℕ, ◌≡◌, refl, ◌∙◌, arith, Bool, true, false, Option, none, some, List, [], ◌∷◌, ◌++◌,
  if◌then◌else◌, ltb, length,
}
use desky.Link.{Frame}
use desky.Link.Payload.{unpack_pair_show}
use desky.Link.Client.{
  Client, Effect, transmit, on_command, on_pair_show, on_pair_done, on_ota_url, on_wifi_creds,
  wifi_begin, wifi_disconnect, Answers, set_home_creds, drop_udp, send_ack, answer, open_creds,
  taken, count_ota, count_cred, take_ota, take_creds, take_pair_show, take_value, fresh_cmd,
}

-- Something happens besides the answers on the wire.
abbrev pub acts : List Effect → Bool
acts [] = false
acts (transmit d ∷ es) = acts es
acts (on_command f ∷ es) = true
acts (on_pair_show d n ∷ es) = true
acts (on_pair_done ∷ es) = true
acts (on_ota_url u ∷ es) = true
acts (on_wifi_creds s p ∷ es) = true
acts (wifi_begin s p ∷ es) = true
acts (wifi_disconnect ∷ es) = true

acts_last : (es : List Effect) (e : Effect) → acts (e ∷ []) ≡ true → acts (es ++ (e ∷ [])) ≡ true
acts_last [] e h = h
acts_last (transmit d ∷ es) e h = acts_last es e h
acts_last (on_command f ∷ es) e h = refl
acts_last (on_pair_show d n ∷ es) e h = refl
acts_last (on_pair_done ∷ es) e h = refl
acts_last (on_ota_url u ∷ es) e h = refl
acts_last (on_wifi_creds s p ∷ es) e h = refl
acts_last (wifi_begin s p ∷ es) e h = refl
acts_last (wifi_disconnect ∷ es) e h = refl

-- The gate that the commands pass is as it was.
abbrev pub SameGate : Client → Client → Type 0
SameGate c c' = (c'.have_cmd_seq ≡ c.have_cmd_seq) × (c'.last_cmd_seq ≡ c.last_cmd_seq)

pub send_ack-SameGate :
    (radio : Bool) (c : Client) (ip port seq : ℕ)
    → SameGate c (send_ack radio c ip port seq).0 × (acts (send_ack radio c ip port seq).1 ≡ false)
unfolding send_ack
send_ack-SameGate radio c ip port seq = ground arith

set_home_creds-SameGate :
    (c : Client) (ssid pass : List ℕ) (have : Bool) → SameGate c (set_home_creds c ssid pass have)
unfolding set_home_creds
set_home_creds-SameGate c ssid pass have = ground arith

-- The command takes the gate exactly when it does something.
pub data Takes (c : Client) (f : Frame) (r : Client × List Effect) : Type 0 where
  took : acts r.1 ≡ true → r.0.have_cmd_seq ≡ true → r.0.last_cmd_seq ≡ f.seq → Takes c f r
  left : acts r.1 ≡ false → SameGate c r.0 → Takes c f r

answer-Takes :
    (radio : Bool) (c t : Client) (f : Frame) (ip port : ℕ) (e : Effect)
    → acts (e ∷ []) ≡ true
    → t.have_cmd_seq ≡ true
    → t.last_cmd_seq ≡ f.seq
    → Takes c f (answer radio t f ip port e)
unfolding answer
answer-Takes radio c t f ip port e h p q =
    let (same, quiet) = send_ack-SameGate radio t ip port f.seq in
    took (acts_last (send_ack radio t ip port f.seq).1 e h) (same.0 ∙ p) (same.1 ∙ q)

drop_udp-Takes : (c : Client) (f : Frame) → Takes c f (drop_udp c, [])
unfolding drop_udp
drop_udp-Takes c f = left refl (refl, refl)

-- Either way of the test.
if-Takes :
    (c : Client) (f : Frame) (b : Bool) (x y : Client × List Effect)
    → Takes c f x
    → Takes c f y
    → Takes c f (if b then x else y)
if-Takes c f true x y p q = p
if-Takes c f false x y p q = q

-- A change behind the gate.
Takes-SameGate :
    (c : Client) (f : Frame) (r : Client × List Effect) (c' : Client)
    → SameGate r.0 c'
    → Takes c f r
    → Takes c f (c', r.1)
Takes-SameGate c f r c' s (took h p q) = took h (s.0 ∙ p) (s.1 ∙ q)
Takes-SameGate c f r c' s (left h g) = left h (s.0 ∙ g.0, s.1 ∙ g.1)

module _ (a : Answers) (c : Client) (f : Frame) (ip port : ℕ) where
  take_ota-Takes : Takes c f (take_ota a c f ip port)
  unfolding take_ota drop_udp
  take_ota-Takes =
      let r = answer a.radio (count_ota (taken c f)) f ip port (on_ota_url f.payload) in
      let t =
        answer-Takes a.radio c (count_ota (taken c f)) f ip port (on_ota_url f.payload) refl refl
          refl in
      Takes-SameGate c f r _ (ground arith) t

  take_creds-Takes : (o : Option (List ℕ × List ℕ)) → Takes c f (take_creds a c f ip port o)
  unfolding take_creds
  take_creds-Takes none = drop_udp-Takes c f
  take_creds-Takes (some (ssid, pass)) =
      let e = on_wifi_creds ssid pass in
      let r = answer a.radio (count_cred (taken c f)) f ip port e in
      let t = answer-Takes a.radio c (count_cred (taken c f)) f ip port e refl refl refl in
      let g = set_home_creds-SameGate r.0 ssid pass (ltb 0 (length ssid)) in
      Takes-SameGate c f r _ (ground arith) t

  take_pair_show-Takes : (o : Option (List ℕ × ℕ)) → Takes c f (take_pair_show a c f ip port o)
  unfolding take_pair_show
  take_pair_show-Takes none = drop_udp-Takes c f
  take_pair_show-Takes (some (digits, secs)) =
      answer-Takes a.radio c _ f ip port (on_pair_show digits secs) refl refl refl

  take_value-Takes : Takes c f (take_value a c f ip port)
  unfolding take_value
  take_value-Takes =
      let (same, quiet) = send_ack-SameGate a.radio (taken c f) ip port f.seq in
      took refl same.0 same.1

  pub fresh_cmd-Takes :
      (open' : List ℕ → List ℕ → Option (List ℕ)) → Takes c f (fresh_cmd open' a c f ip port)
  unfolding fresh_cmd
  fresh_cmd-Takes open' = if-Takes c f _ _ _ (take_creds-Takes (open_creds open' f.payload)) (
      if-Takes c f _ _ _ take_ota-Takes (
        if-Takes c f _ _ _ (take_pair_show-Takes (unpack_pair_show f.payload)) (
          if-Takes c f _ _ _ (answer-Takes a.radio c _ f ip port on_pair_done refl refl refl)
            (if-Takes c f _ _ _ (drop_udp-Takes c f) take_value-Takes))))
