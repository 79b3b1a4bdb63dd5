-- ===== src/Ota/Url.antt =====
-- The address of an update and the request for it: `parseUrl` of
-- embedded/head/src/abilities/ota/ota_codec.h. A text of C is the list of its characters, before the
-- NUL; the address is there (`url` is not null).
pub mod Bounds
use desky.Prelude.{
  ℕ, ◌+◌, ◌-◌, ◌*◌, Bool, true, false, not, ◌&&◌, ◌||◌, Option, none, some, List, [], ◌∷◌, ◌++◌,
  leb, ltb, ◌==◌, if◌then◌else◌, length, take, drop,
}
use desky.Ota.Manifest.{starts_with}

abbrev host_cap : ℕ
host_cap = 64

abbrev path_cap : ℕ
path_cap = 128

-- `http://`
abbrev pub scheme : List ℕ
scheme = 104 ∷ 116 ∷ 116 ∷ 112 ∷ 58 ∷ 47 ∷ 47 ∷ []

pub record Url : Type 0 where
  pub host : List ℕ
  pub port : ℕ
  pub path : List ℕ

-- The characters before the first `c`, and those from it on.
abbrev pub before : ℕ → List ℕ → List ℕ
before c [] = []
before c (x ∷ xs) = if x == c then [] else x ∷ before c xs

abbrev pub from : ℕ → List ℕ → List ℕ
from c [] = []
from c (x ∷ xs) = if x == c then x ∷ xs else from c xs

abbrev pub is_blank : ℕ → Bool
is_blank c = c == 32 || c == 9 || c == 13 || c == 10

abbrev pub has_blank : List ℕ → Bool
has_blank [] = false
has_blank (c ∷ cs) = is_blank c || has_blank cs

-- `@`, `[` and `]`.
abbrev pub has_bracket : List ℕ → Bool
has_bracket [] = false
has_bracket (c ∷ cs) = c == 64 || c == 91 || c == 93 || has_bracket cs

abbrev pub port_step : ℕ → ℕ → Option ℕ
port_step port c =
    if ltb c 48 || ltb 57 c
    then none
    else if ltb 65535 (port * 10 + (c - 48))
    then none
    else some (port * 10 + (c - 48))

unfoldable pub port_digits : ℕ → List ℕ → Option ℕ
port_digits port [] = some port
port_digits port (c ∷ cs) = elim (port_step port c) [
  | none ↦ none
  | some next ↦ port_digits next cs
]

abbrev pub nonzero_port : Option ℕ → Option ℕ
nonzero_port none = none
nonzero_port (some p) = if p == 0 then none else some p

-- What stands behind the colon; 80 where there is none.
unfoldable pub parse_port : List ℕ → Option ℕ
unfolding port_digits
parse_port [] = some 80
parse_port (colon ∷ digits) =
    if length digits == 0 then none else nonzero_port (port_digits 0 digits)

-- What stands from the slash on.
unfoldable pub parse_path : List ℕ → Option (List ℕ)
parse_path [] = some (47 ∷ [])
parse_path (c ∷ cs) = if leb path_cap (length (c ∷ cs)) then none else some (c ∷ cs)

abbrev pub join_url : List ℕ → Option ℕ → Option (List ℕ) → Option Url
join_url host none path = none
join_url host (some port) none = none
join_url host (some port) (some path) = some (record { host = host; port = port; path = path })

-- The authority, a second colon in it refused.
unfoldable pub parse_authority : List ℕ → List ℕ → Option Url
unfolding parse_port parse_path
parse_authority auth path =
    let host = before 58 auth in
    let rest = from 58 auth in
    if length auth == 0 || has_bracket auth
    then none
    else if not (length (from 58 (drop 1 rest)) == 0)
    then none
    else if length host == 0 || leb host_cap (length host)
    then none
    else join_url host (parse_port rest) (parse_path path)

unfoldable pub parse_url : List ℕ → Option Url
unfolding parse_authority
parse_url url =
    if not (starts_with scheme url) || has_blank (drop 7 url)
    then none
    else parse_authority (before 47 (drop 7 url)) (from 47 (drop 7 url))

-- `GET `, ` HTTP/1.0` and `Host: `, then `Connection: close` and the empty line.
abbrev get_word : List ℕ
get_word = 71 ∷ 69 ∷ 84 ∷ 32 ∷ []

abbrev pub http_word : List ℕ
http_word =
    32 ∷ 72 ∷ 84 ∷ 84 ∷ 80 ∷ 47 ∷ 49 ∷ 46 ∷ 48 ∷ 13 ∷ 10 ∷ 72 ∷ 111 ∷ 115 ∷ 116 ∷ 58 ∷ 32 ∷ []

abbrev pub close_word : List ℕ
close_word =
    13 ∷ 10 ∷ 67 ∷ 111 ∷ 110 ∷ 110 ∷ 101 ∷ 99 ∷ 116 ∷ 105 ∷ 111 ∷ 110 ∷ 58 ∷ 32 ∷ 99 ∷ 108 ∷ 111
    ∷ 115 ∷ 101 ∷ 13 ∷ 10 ∷ 13 ∷ 10 ∷ []

abbrev pub request_text : Url → List ℕ
request_text u = get_word ++ (u.path ++ (http_word ++ (u.host ++ close_word)))

-- The buffer has room for 255 characters.
unfoldable pub request : Url → List ℕ
request u = take 255 (request_text u)
