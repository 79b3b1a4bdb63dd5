-- ===== src/Ota/Reply.antt =====
-- The head of an HTTP reply, read line by line: `readLineFrom` and the loops over the header lines in
-- embedded/head/src/abilities/ota/ota_task.h, with `statusOk` and `manifestLengthOk` of ota_manager.h.
-- A connection is the list of the bytes that arrive before a wait of 5 s times out.
use desky.Prelude.{
  ℕ, ◌+◌, ◌-◌, ◌*◌, ◌^◌, Bool, true, false, not, ◌&&◌, ◌||◌, Option, none, some, List, [], ◌∷◌,
  ◌++◌, leb, ltb, ◌==◌, if◌then◌else◌, length, take, drop, u32,
}
use desky.Ota.Manifest.{starts_with, is_hex64, Manifest, parse_manifest}
use desky.Ota.Url.{before}

abbrev line_cap : ℕ
line_cap = 192

abbrev pub manifest_cap : ℕ
manifest_cap = 256

-- `Content-Length:`, `content-length:` and `X-Firmware-Sha256:`.
abbrev pub length_key : List ℕ
length_key =
    67 ∷ 111 ∷ 110 ∷ 116 ∷ 101 ∷ 110 ∷ 116 ∷ 45 ∷ 76 ∷ 101 ∷ 110 ∷ 103 ∷ 116 ∷ 104 ∷ 58 ∷ []

abbrev lower_length_key : List ℕ
lower_length_key =
    99 ∷ 111 ∷ 110 ∷ 116 ∷ 101 ∷ 110 ∷ 116 ∷ 45 ∷ 108 ∷ 101 ∷ 110 ∷ 103 ∷ 116 ∷ 104 ∷ 58 ∷ []

abbrev pub firmware_key : List ℕ
firmware_key =
    88 ∷ 45 ∷ 70 ∷ 105 ∷ 114 ∷ 109 ∷ 119 ∷ 97 ∷ 114 ∷ 101 ∷ 45 ∷ 83 ∷ 104 ∷ 97 ∷ 50 ∷ 53 ∷ 54 ∷ 58
    ∷ []

-- `HTTP/` and ` 200 `.
abbrev http_key : List ℕ
http_key = 72 ∷ 84 ∷ 84 ∷ 80 ∷ 47 ∷ []

abbrev ok_code : List ℕ
ok_code = 32 ∷ 50 ∷ 48 ∷ 48 ∷ 32 ∷ []

abbrev contains : List ℕ → List ℕ → Bool
contains part [] = starts_with part []
contains part (c ∷ cs) = starts_with part (c ∷ cs) || contains part cs

unfoldable pub status_ok : List ℕ → Bool
status_ok line = starts_with http_key line && contains ok_code line

-- `strtoul` in base 10, with `unsigned long` of 32 bits: blanks, a sign, digits, saturation.
abbrev is_space : ℕ → Bool
is_space c = c == 32 || (leb 9 c && leb c 13)

abbrev skip_spaces : List ℕ → List ℕ
skip_spaces [] = []
skip_spaces (c ∷ cs) = if is_space c then skip_spaces cs else c ∷ cs

abbrev digits_value : ℕ → List ℕ → ℕ
digits_value v [] = v
digits_value v (c ∷ cs) = if leb 48 c && leb c 57 then digits_value (v * 10 + (c - 48)) cs else v

abbrev capped : ℕ → ℕ
capped v = if ltb 0xFFFFFFFF v then 0xFFFFFFFF else v

abbrev signed : List ℕ → ℕ
signed [] = 0
signed (c ∷ cs) =
    let v = digits_value 0 cs in
    if c == 43
    then capped v
    else if c == 45
    then (if ltb 0xFFFFFFFF v then 0xFFFFFFFF else u32 (2 ^ 32 - v))
    else capped (digits_value 0 (c ∷ cs))

unfoldable pub strtoul : List ℕ → ℕ
strtoul cs = signed (skip_spaces cs)

-- A carriage return is left out, and what does not fit is dropped.
unfoldable pub keep_byte : List ℕ → ℕ → List ℕ
keep_byte line c =
    if not (c == 13) && ltb (length line + 1) line_cap then line ++ (c ∷ []) else line

-- The text up to the NUL that the buffer holds.
abbrev pub c_text : List ℕ → List ℕ
c_text line = before 0 line

-- One line, and what follows it.
unfoldable pub read_line : List ℕ → List ℕ → Option (List ℕ × List ℕ)
unfolding keep_byte
read_line line [] = none
read_line line (c ∷ cs) = elim (c == 10) [
  | true ↦ some (c_text line, cs)
  | false ↦ read_line (keep_byte line c) cs
]

-- What the header lines have said.
pub record Headers : Type 0 where
  pub length : ℕ
  pub manifest_set : Bool
  pub manifest : List ℕ

abbrev pub no_headers : Headers
no_headers = record { length = 0; manifest_set = false; manifest = [] }

abbrev skip_blanks : List ℕ → List ℕ
skip_blanks [] = []
skip_blanks (c ∷ cs) = if c == 32 || c == 9 then skip_blanks cs else c ∷ cs

-- One header line.
unfoldable pub on_header : Headers → List ℕ → Headers
unfolding strtoul is_hex64
on_header h line =
    if starts_with length_key line || starts_with lower_length_key line
    then record h { length = u32 (strtoul (drop 15 line)) }
    else if starts_with firmware_key line
    then (if is_hex64 (skip_blanks (drop 18 line))
        then record h { manifest = skip_blanks (drop 18 line); manifest_set = true }
        else h)
    else h

-- The lines up to the empty one, and what follows: `line` is what has been read of the present one.
unfoldable pub read_headers : Headers → List ℕ → List ℕ → Headers × List ℕ
unfolding on_header keep_byte
read_headers h line [] = (h, [])
read_headers h line (c ∷ cs) = elim (c == 10) [
  | true ↦ elim (length (c_text line) == 0) [
    | true ↦ (h, cs)
    | false ↦ read_headers (on_header h (c_text line)) [] cs
  ]
  | false ↦ read_headers h (keep_byte line c) cs
]

unfoldable pub manifest_length_ok : ℕ → Bool
manifest_length_ok n = not (n == 0) && ltb n manifest_cap

-- The body of the manifest, behind the head of its reply.
unfoldable pub manifest_body : Headers → List ℕ → Option Manifest
unfolding manifest_length_ok parse_manifest
manifest_body h rest =
    if not (manifest_length_ok h.length)
    then none
    else if ltb (length rest) h.length
    then none
    else parse_manifest (c_text (take h.length rest))

abbrev behind_status : Option (List ℕ × List ℕ) → Option Manifest
behind_status none = none
behind_status (some (line, rest)) =
    if not (status_ok line)
    then none
    else let (h, body) = read_headers no_headers [] rest in manifest_body h body

-- What `fetchManifest` makes of the bytes that arrive.
unfoldable pub read_manifest : List ℕ → Option Manifest
unfolding manifest_body read_line read_headers status_ok
read_manifest reply = behind_status (read_line [] reply)
