-- ===== src/Ota/Staging/Server/Once.antt =====
-- A staged address is handed to the sender once.
use desky.Prelude.{
  ℕ, ◌≡◌, refl, ap, ◌∙◌, arith, Bool, true, false, not, ◌||◌, Option, none, some, List, [], ◌∷◌,
  if◌then◌else◌, length, ltb, ◌==◌, Bool-cases, inl, inr, map,
}
use desky.Ota.Manifest.{is_valid_ota_url_bytes, url_max}
use desky.Ota.Staging.Server.{Server, stage_ota_url, pump_ota_link, ota_ready_to_send}

abbrev sent_with : Option (List ℕ) → List (List ℕ) → List (List ℕ)
sent_with none rest = rest
sent_with (some url) rest = url ∷ rest

-- A turn of the main loop: whether a head is linked, and whether the radio would take a datagram.
pub record Turn : Type 0 where
  pub linked : Bool
  pub accepted : Bool

-- What is handed to the sender over the turns, and the answers.
abbrev pub sent_by : Server → List Turn → List (List ℕ)
sent_by s [] = []
sent_by s (b ∷ bs) =
    let (s1, o, answer) = pump_ota_link s b.linked b.accepted in sent_with o (sent_by s1 bs)

abbrev pub answers : Server → List Turn → List Bool
answers s [] = []
answers s (b ∷ bs) =
    let (s1, o, answer) = pump_ota_link s b.linked b.accepted in answer ∷ answers s1 bs

-- The one turn that hands the address over answers what the radio does.
abbrev pub expected : List Turn → List Bool
expected [] = []
expected (b ∷ bs) = if b.linked then b.accepted ∷ map (λ _. false) bs else false ∷ expected bs

abbrev pub any : List Turn → Bool
any [] = false
any (b ∷ bs) = b.linked || any bs

pump-spent :
    (s : Server) (b c : Bool) → s.staged_valid ≡ false → pump_ota_link s b c ≡ (s, none, false)
unfolding pump_ota_link
pump-spent s b c h = ground arith

-- The two runs over the turns.
abbrev Ends : Server → List Turn → List (List ℕ) → List Bool → Type 0
Ends s bs out said = (sent_by s bs ≡ out) × (answers s bs ≡ said)

Ends-spent :
    (s : Server) (bs : List Turn) → s.staged_valid ≡ false → Ends s bs [] (map (λ _. false) bs)
Ends-spent s [] h = (refl, refl)
Ends-spent s (b ∷ bs) h =
    let (e, e') = Ends-spent s bs h in
    rw (pump-spent s b.linked b.accepted h) (e, ap (λ l. false ∷ l) e')

pump-armed :
    (s : Server) (c : Bool)
    → s.ready ≡ true
    → s.staged_valid ≡ true
    → s.sent ≡ false
    → pump_ota_link s true c ≡ (record s { staged_valid = false; sent = true }, some s.staged, c)
unfolding pump_ota_link
pump-armed s c r v n =
    let a : not (ota_ready_to_send s.staged_valid s.sent true) ≡ false =
      (unfold ota_ready_to_send in ground arith) in
    let b : not s.ready ≡ false = ap not r in rw (b, a) refl

pump-waits : (s : Server) (c : Bool) → pump_ota_link s false c ≡ (s, none, false)
unfolding pump_ota_link
pump-waits s c = ground arith

Ends-armed :
    (s : Server) (bs : List Turn)
    → s.ready ≡ true
    → s.staged_valid ≡ true
    → s.sent ≡ false
    → Ends s bs (if any bs then s.staged ∷ [] else []) (expected bs)
Ends-armed s [] r v n = (refl, refl)
Ends-armed s (b ∷ bs) r v n = elim (Bool-cases b.linked) [
  | inl l ↦
      let (e, e') = Ends-spent (record s { staged_valid = false; sent = true }) bs refl in
      rw (l, pump-armed s b.accepted r v n) (ap (λ l. s.staged ∷ l) e, ap (λ l. b.accepted ∷ l) e')
  | inr l ↦
      let (e, e') = Ends-armed s bs r v n in
      rw (l, pump-waits s b.accepted) (e, ap (λ l. false ∷ l) e')
]

passed :
    (b : Bool) (s : Server) (x : Server × Bool)
    → (if b then (s, false) else x).1 ≡ true
    → ((if b then (s, false) else x) ≡ x) × ((x.1 ≡ true) × (b ≡ false))
passed true s x h = absurd (ground arith)
passed false s x h = (refl, (h, refl))

staged_lem :
    (s : Server) (url : List ℕ)
    → (stage_ota_url s url).1 ≡ true
    → (stage_ota_url s url ≡ (record s { staged = url; staged_valid = true; sent = false }, true))
      × (s.ready ≡ true)
unfolding stage_ota_url
staged_lem s url h =
    let (e1, (h1, b1)) =
      passed (not s.ready || length url == 0 || ltb url_max (length url)) s
        (if not (is_valid_ota_url_bytes url)
          then (s, false)
          else (record s { staged = url; staged_valid = true; sent = false }, true))
        h in
    let (e2, _) =
      passed (not (is_valid_ota_url_bytes url)) s
        (record s { staged = url; staged_valid = true; sent = false }, true) h1 in
    (e1 ∙ e2, ground arith)

-- An address that is staged, over whatever was there, is handed to the sender once: at the first turn of
-- the main loop that finds a head linked, and not again, also where the radio refuses it, as long as none is
-- staged or cleared between. That turn answers what the radio does, every other turn false.
pub stage_ota_url-sent_by :
    (s : Server) (url : List ℕ) (bs : List Turn)
    → (stage_ota_url s url).1 ≡ true
    → let t = (stage_ota_url s url).0 in
      (sent_by t bs ≡ (if any bs then url ∷ [] else [])) × (answers t bs ≡ expected bs)
stage_ota_url-sent_by s url bs h =
    let (e, r) = staged_lem s url h in
    rw e (Ends-armed (record s { staged = url; staged_valid = true; sent = false }) bs r refl refl)
