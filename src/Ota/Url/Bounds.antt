-- ===== src/Ota/Url/Bounds.antt =====
-- What is accepted as an address, and that its request is never cut.
use desky.Prelude.{
  ℕ, ◌<◌, ◌≤◌, ◌≡◌, refl, sym, subst, ◌∙◌, inl, inr, arith, not, ◌||◌, Option, none, some, List, [],
  ◌∷◌, ◌++◌, leb, ◌==◌, length, length-append, take_le, drop, Option-cases, guard-some,
}
use desky.Ota.Manifest.{starts_with}
use desky.Ota.Url.{
  Url, scheme, before, from, has_blank, has_bracket, port_step, port_digits, nonzero_port,
  parse_port, parse_path, join_url, parse_authority, parse_url, request, request_text, http_word,
  close_word,
}

-- A port, a host and a path in their bounds.
abbrev pub IsUrl : Url → Type 0
IsUrl u =
    (0 < u.port)
    × ((u.port ≤ 65535)
        × ((0 < length u.host)
            × ((length u.host < 64) × ((0 < length u.path) × (length u.path < 128)))))

port_step-le : (p c q : ℕ) → port_step p c ≡ some q → q ≤ 65535
port_step-le p c q h = ground arith

port_digits-some :
    (p n c : ℕ) (cs : List ℕ) → port_step p c ≡ some n → port_digits p (c ∷ cs) ≡ port_digits n cs
unfolding port_digits
port_digits-some p n c cs z = rw (z, port_digits) refl

port_digits-none : (p c : ℕ) (cs : List ℕ) → port_step p c ≡ none → port_digits p (c ∷ cs) ≡ none
unfolding port_digits
port_digits-none p c cs z = rw (z, port_digits) refl

none-some : (o : Option ℕ) (q : ℕ) {A : Type 0} → o ≡ none → o ≡ some q → A
none-some o q h e = absurd (ground arith)

port_digits-le : (p q : ℕ) (cs : List ℕ) → p ≤ 65535 → port_digits p cs ≡ some q → q ≤ 65535
unfolding port_digits
port_digits-le p q [] h e = ground arith
port_digits-le p q (c ∷ cs) h e = elim (Option-cases (port_step p c)) [
  | inl z ↦ none-some (port_digits p (c ∷ cs)) q (port_digits-none p c cs z) e
  | inr (n, z) ↦
      port_digits-le n q cs (port_step-le p c n z) (sym (port_digits-some p n c cs z) ∙ e)
]

nonzero_port-bounds :
    (o : Option ℕ) (p : ℕ)
    → ((q : ℕ) → o ≡ some q → q ≤ 65535)
    → nonzero_port o ≡ some p
    → (0 < p) × (p ≤ 65535)
nonzero_port-bounds none p h e = none-some none p refl e
nonzero_port-bounds (some q) p h e = let b = h q refl in ground arith

parse_port-bounds : (cs : List ℕ) (p : ℕ) → parse_port cs ≡ some p → (0 < p) × (p ≤ 65535)
unfolding parse_port
parse_port-bounds [] p e = ground arith
parse_port-bounds (c ∷ cs) p e =
    nonzero_port-bounds (port_digits 0 cs) p (λ q. port_digits-le 0 q cs (omega arith))
      (guard-some (length cs == 0) e).1

parse_path-bounds :
    (cs path : List ℕ) → parse_path cs ≡ some path → (0 < length path) × (length path < 128)
unfolding parse_path
parse_path-bounds [] path e = ground arith
parse_path-bounds (c ∷ cs) path e = ground arith

join_url-IsUrl :
    (host : List ℕ) (o : Option ℕ) (l : Option (List ℕ)) (u : Url)
    → 0 < length host
    → length host < 64
    → ((p : ℕ) → o ≡ some p → (0 < p) × (p ≤ 65535))
    → ((path : List ℕ) → l ≡ some path → (0 < length path) × (length path < 128))
    → join_url host o l ≡ some u
    → IsUrl u
join_url-IsUrl host none l u a b p q e = absurd (ground arith)
join_url-IsUrl host (some port) none u a b p q e = absurd (ground arith)
join_url-IsUrl host (some port) (some path) u a b p q e =
    let x = p port refl in
    let y = q path refl in
    let g : record { host = host; port = port; path = path } ≡ u = ground arith in
    subst IsUrl g (x.0, (x.1, (a, (b, (y.0, y.1)))))

parse_authority-IsUrl :
    (auth path : List ℕ) (u : Url) → parse_authority auth path ≡ some u → IsUrl u
unfolding parse_authority
parse_authority-IsUrl auth path u e =
    let e1 = guard-some (length auth == 0 || has_bracket auth) e in
    let e2 = guard-some (not (length (from 58 (drop 1 (from 58 auth))) == 0)) e1.1 in
    let e3 = guard-some (length (before 58 auth) == 0 || leb 64 (length (before 58 auth))) e2.1 in
    let e4 = e3.0 in
    join_url-IsUrl (before 58 auth) (parse_port (from 58 auth)) (parse_path path) u (ground arith)
      (ground arith) (parse_port-bounds (from 58 auth)) (parse_path-bounds path) e3.1

parse_url-IsUrl : (url : List ℕ) (u : Url) → parse_url url ≡ some u → IsUrl u
unfolding parse_url
parse_url-IsUrl url u e =
    parse_authority-IsUrl (before 47 (drop 7 url)) (from 47 (drop 7 url)) u
      (guard-some (not (starts_with scheme url) || has_blank (drop 7 url)) e).1

length-request_text :
    (u : Url) → length u.host < 64 → length u.path < 128 → length (request_text u) ≤ 255
length-request_text u h p =
    let a = length-append u.path (http_word ++ (u.host ++ close_word)) in
    let b = length-append u.host close_word in omega arith

-- An address that is accepted has a port from 1 to 65535, a host of 1 to 63 characters and a path of 1
-- to 127, and the request for it is sent whole: its buffer does not cut it.
pub parse_url-request :
    (url : List ℕ) (u : Url) → parse_url url ≡ some u → IsUrl u × (request u ≡ request_text u)
unfolding request
parse_url-request url u e =
    let b = parse_url-IsUrl url u e in
    (b, take_le 255 (request_text u) (length-request_text u b.1.1.1.0 b.1.1.1.1.1))
