-- ===== src/Link/Server/Creds/Budget.antt =====
-- How many datagrams a push of credentials costs.
use desky.Prelude.{
  ℕ, ◌+◌, ◌-◌, ◌<◌, ◌≤◌, ◌≡◌, refl, ap, arith, Bool, true, false, not, ◌||◌, Option, List, [], ◌++◌,
  leb, length, u8, Option-cases, Bool-cases, inl, inr,
}
use desky.Link.{type_wifi_creds}
use desky.Link.Payload.{pack_wifi_creds}
use desky.Link.Server.{Server, CredPush, Datagram, send_to, send_unicast}
use desky.Link.Server.Creds.{
  cred_retry_due, send_bundle_once, send_creds_once, send_clear_once, send_push, retry,
  poll_cred_push,
}

-- A send leaves the push as it is.
pub send_to-cred :
    (radio : Bool) (s : Server) (t : ℕ) (p : List ℕ) (ip port : ℕ)
    → let r = send_to radio s t p ip port in (r.0.cred ≡ s.cred) × (length r.3 ≤ 1)
unfolding send_to
send_to-cred radio s t p ip port = ground arith

pub send_unicast-cred :
    (radio : Bool) (s : Server) (t : ℕ) (p : List ℕ)
    → let r = send_unicast radio s t p in (r.0.cred ≡ s.cred) × (length r.3 ≤ 1)
unfolding send_unicast
send_unicast-cred radio s t p =
    let h = send_to-cred radio s t p s.head_ip s.head_port in ground arith

module _ (seal : List ℕ → List ℕ → Option (List ℕ)) where
  -- At most one datagram, and the push as it was.
  abbrev pub Modest : Server → Server × Bool × ℕ × List Datagram → Type 0
  Modest s r = (r.0.cred ≡ s.cred) × (length r.3 ≤ 1)

  send_bundle_once-Modest :
      (radio : Bool) (s : Server) (nonce ssid pass : List ℕ)
      → Modest s (send_bundle_once seal radio s nonce ssid pass)
  unfolding send_bundle_once
  send_bundle_once-Modest radio s nonce ssid pass =
      elim (Option-cases (pack_wifi_creds ssid pass 98)) [
        | inl e ↦ rw (e, send_bundle_once) (refl, omega arith)
        | inr (plain, e) ↦ elim (Option-cases (seal nonce plain)) [
          | inl f ↦ rw (e, send_bundle_once) (rw (f, send_bundle_once) (refl, omega arith))
          | inr (body, f) ↦
              let h = send_unicast-cred radio s type_wifi_creds (nonce ++ body) in
              rw (e, send_bundle_once) (rw (f, send_bundle_once) h)
        ]
      ]

  pub send_push-Modest :
      (clear radio : Bool) (s : Server) (nonce : List ℕ)
      → Modest s (send_push seal clear radio s nonce)
  unfolding send_creds_once send_clear_once
  send_push-Modest true radio s nonce = send_bundle_once-Modest radio s nonce [] []
  send_push-Modest false radio s nonce = elim (Bool-cases s.home_creds_valid) [
    | inl h ↦
        (let m = send_bundle_once-Modest radio s nonce s.home_ssid s.home_pass in ground arith)
    | inr h ↦ ground arith
  ]

  retry-attempts :
      (s : Server) (ok : Bool) (seq now : ℕ)
      → (retry seal s ok seq now).cred.attempts ≡ u8 (s.cred.attempts + 1)
  retry-attempts s true seq now = refl
  retry-attempts s false seq now = refl

  retry-budget :
      (s : Server) (r : Server × Bool × ℕ × List Datagram) (now : ℕ)
      → Modest s r
      → s.cred.attempts < 5
      → length r.3 + (5 - (retry seal r.0 r.1 r.2 now).cred.attempts) ≤ 5 - s.cred.attempts
  retry-budget s r now (same, few) left =
      omega (arith, retry-attempts r.0 r.1 r.2 now, ap (λ (c : CredPush). c.attempts) same)

  -- One poll: what it sends is paid from the attempts that are left.
  pub poll_cred_push-budget :
      (radio : Bool) (s : Server) (nonce : List ℕ) (now : ℕ)
      → let r = poll_cred_push seal radio s nonce now in
        length r.1 + (5 - r.0.cred.attempts) ≤ 5 - s.cred.attempts
  unfolding poll_cred_push
  poll_cred_push-budget radio s nonce now =
      elim (Bool-cases (not s.cred.armed || s.cred.confirmed)) [
        | inl e ↦ rw (e, poll_cred_push) (omega arith)
        | inr e ↦ elim (Bool-cases (leb 5 s.cred.attempts)) [
          | inl f ↦ rw (e, poll_cred_push) (rw (f, poll_cred_push) (omega arith))
          | inr f ↦
              elim (Bool-cases (not (cred_retry_due s.cred.attempts s.cred.last_try_ms now))) [
                | inl g ↦
                    rw (e, poll_cred_push)
                      (rw (f, poll_cred_push) (rw (g, poll_cred_push) (omega arith)))
                | inr g ↦
                    let b =
                      retry-budget s (send_push seal s.cred.clear radio s nonce) now
                        (send_push-Modest s.cred.clear radio s nonce) (ground arith) in
                    rw (e, poll_cred_push) (rw (f, poll_cred_push) (rw (g, poll_cred_push) b))
              ]
        ]
      ]
