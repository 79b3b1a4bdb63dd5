-- ===== src/Ota/Manifest.antt =====
-- The text that names an update, and its address: embedded/shared/link/ota_manifest.h. A text of C is
-- the list of its characters, before the NUL. Where the parser fails, its output is not read.
pub mod Decimal
pub mod RoundTrip
use desky.Prelude.{
  ℕ, zero, suc, ◌+◌, ◌-◌, ◌*◌, ◌/◌, ◌%◌, Bool, true, false, not, ◌&&◌, ◌||◌, Option, none, some,
  List, [], ◌∷◌, ◌++◌, leb, ltb, ◌==◌, ◌!=◌, if◌then◌else◌, length, take, drop, u32,
}

abbrev pub url_max : ℕ
url_max = 128

abbrev pub sha_hex_len : ℕ
sha_hex_len = 64

-- `version=`, `size=`, `sha256=`, `/head.bin` and `head-version`.
abbrev pub version_key : List ℕ
version_key = 118 ∷ 101 ∷ 114 ∷ 115 ∷ 105 ∷ 111 ∷ 110 ∷ 61 ∷ []

abbrev pub size_key : List ℕ
size_key = 115 ∷ 105 ∷ 122 ∷ 101 ∷ 61 ∷ []

abbrev pub sha_key : List ℕ
sha_key = 115 ∷ 104 ∷ 97 ∷ 50 ∷ 53 ∷ 54 ∷ 61 ∷ []

abbrev pub bin_suffix : List ℕ
bin_suffix = 47 ∷ 104 ∷ 101 ∷ 97 ∷ 100 ∷ 46 ∷ 98 ∷ 105 ∷ 110 ∷ []

abbrev pub manifest_name : List ℕ
manifest_name = 104 ∷ 101 ∷ 97 ∷ 100 ∷ 45 ∷ 118 ∷ 101 ∷ 114 ∷ 115 ∷ 105 ∷ 111 ∷ 110 ∷ []

pub record Manifest : Type 0 where
  pub version : ℕ
  pub size : ℕ
  pub sha : List ℕ

abbrev pub is_hex_char : ℕ → Bool
is_hex_char c = (leb 48 c && leb c 57) || (leb 97 c && leb c 102) || (leb 65 c && leb c 70)

abbrev pub all_hex : List ℕ → Bool
all_hex [] = true
all_hex (c ∷ cs) = is_hex_char c && all_hex cs

unfoldable pub is_hex64 : List ℕ → Bool
is_hex64 s = length s == sha_hex_len && all_hex s

abbrev pub is_url_byte : ℕ → Bool
is_url_byte b = not (ltb b 0x20 || ltb 0x7E b) && not (b == 64 || b == 32)

abbrev pub all_url_bytes : List ℕ → Bool
all_url_bytes [] = true
all_url_bytes (b ∷ bs) = is_url_byte b && all_url_bytes bs

unfoldable pub is_valid_ota_url_bytes : List ℕ → Bool
is_valid_ota_url_bytes payload =
    if length payload == 0 || ltb url_max (length payload) then false else all_url_bytes payload

unfoldable pub copy_ota_url : List ℕ → Option (List ℕ)
unfolding is_valid_ota_url_bytes
copy_ota_url payload = if not (is_valid_ota_url_bytes payload) then none else some payload

-- One digit of a number, if it is one and the number still fits.
unfoldable pub step_digit : ℕ → ℕ → Option ℕ
step_digit v c =
    if ltb c 48 || ltb 57 c
    then none
    else if ltb 0xFFFFFFFF (v * 10 + (c - 48))
    then none
    else some (v * 10 + (c - 48))

unfoldable pub parse_digits : ℕ → List ℕ → Option ℕ
unfolding step_digit
parse_digits v [] = some v
parse_digits v (c ∷ cs) = elim (step_digit v c) [ none ↦ none | some v' ↦ parse_digits v' cs ]

unfoldable pub parse_u32 : List ℕ → Option ℕ
unfolding parse_digits
parse_u32 s = if length s == 0 then none else parse_digits 0 s

-- The digits from the last one, in an array of `n` characters.
unfoldable pub rev_digits : ℕ → ℕ → List ℕ
rev_digits zero x = []
rev_digits (suc n) x =
    let more = rev_digits n (x / 10) in (48 + x % 10) ∷ (if ltb 0 (x / 10) then more else [])

abbrev pub reversed : List ℕ → List ℕ
reversed [] = []
reversed (c ∷ cs) = reversed cs ++ (c ∷ [])

unfoldable pub decimal : ℕ → List ℕ
unfolding rev_digits
decimal x = reversed (rev_digits 16 x)

-- `cap` is the room, the NUL included.
unfoldable pub build_manifest : ℕ → ℕ → List ℕ → ℕ → Option (List ℕ)
unfolding is_hex64 decimal
build_manifest version size sha_hex cap =
    if cap == 0 || not (is_hex64 sha_hex)
    then none
    else if ltb cap
        (8 + length (decimal version) + 6 + length (decimal size) + 8 + sha_hex_len + 1 + 1)
    then none
    else some (
        version_key
        ++ (decimal version
            ++ (10 ∷ (size_key ++ (decimal size ++ (10 ∷ (sha_key ++ (sha_hex ++ (10 ∷ [])))))))))

-- The lines of a text; a text that ends with a line feed has no further line.
abbrev cons_first : ℕ → List (List ℕ) → List (List ℕ)
cons_first c [] = (c ∷ []) ∷ []
cons_first c (l ∷ ls) = (c ∷ l) ∷ ls

unfoldable pub lines : List ℕ → List (List ℕ)
lines [] = []
lines (c ∷ cs) = let rest = lines cs in if c == 10 then [] ∷ rest else cons_first c rest

unfoldable pub strip_cr : List ℕ → List ℕ
strip_cr [] = []
strip_cr (c ∷ []) = if c == 13 then [] else c ∷ []
strip_cr (c ∷ (d ∷ ds)) = c ∷ strip_cr (d ∷ ds)

abbrev pub starts_with : List ℕ → List ℕ → Bool
starts_with [] line = true
starts_with (p ∷ ps) [] = false
starts_with (p ∷ ps) (c ∷ cs) = p == c && starts_with ps cs

-- What has been read, and how often.
pub record Scan : Type 0 where
  pub manifest : Manifest
  pub versions : ℕ
  pub sizes : ℕ
  pub shas : ℕ

abbrev pub no_scan : Scan
no_scan = record {
  manifest = record { version = 0; size = 0; sha = [] };
  versions = 0;
  sizes = 0;
  shas = 0;
}

abbrev with_version : Scan → Option ℕ → Option Scan
with_version s none = none
with_version s (some v) =
    some (record s { manifest = record s.manifest { version = v }; versions = s.versions + 1 })

abbrev with_size : Scan → Option ℕ → Option Scan
with_size s none = none
with_size s (some v) =
    some (record s { manifest = record s.manifest { size = v }; sizes = s.sizes + 1 })

-- A line that fits.
unfoldable pub read_line : Scan → List ℕ → Option Scan
unfolding is_hex64 parse_u32
read_line s line =
    if starts_with version_key line
    then with_version s (parse_u32 (drop 8 line))
    else if starts_with size_key line
    then with_size s (parse_u32 (drop 5 line))
    else if starts_with sha_key line
    then (if not (is_hex64 (drop 7 line))
        then none
        else some
            (record s { manifest = record s.manifest { sha = drop 7 line }; shas = s.shas + 1 }))
    else some s

-- One line that is not empty.
unfoldable pub scan_line : Scan → List ℕ → Option Scan
unfolding read_line
scan_line s line = if leb 128 (length line) then none else read_line s line

unfoldable pub scan_lines : Scan → List (List ℕ) → Option Scan
unfolding scan_line strip_cr
scan_lines s [] = some s
scan_lines s (l ∷ ls) =
    elim (if length (strip_cr l) == 0 then some s else scan_line s (strip_cr l)) [
      | none ↦ none
      | some s' ↦ scan_lines s' ls
    ]

unfoldable pub parse_manifest : List ℕ → Option Manifest
unfolding lines scan_lines
parse_manifest text = elim (scan_lines no_scan (lines text)) [
  | none ↦ none
  | some s ↦ if s.versions == 1 && s.sizes == 1 && s.shas == 1 then some s.manifest else none
]

abbrev same_text : List ℕ → List ℕ → Bool
same_text xs ys = length xs == length ys && starts_with xs ys

unfoldable pub manifest_url_for : List ℕ → Option (List ℕ)
manifest_url_for bin_url =
    let n = length bin_url in
    if leb n 9 || ltb url_max n
    then none
    else if not (same_text (drop (n - 9) bin_url) bin_suffix)
    then none
    else if ltb (url_max + 1) (n - 9 + 1 + 12 + 1)
    then none
    else some (take (n - 9 + 1) bin_url ++ manifest_name)

unfoldable pub should_pull : ℕ → ℕ → Bool
should_pull manifest_version current_version = ltb current_version manifest_version

pub data Channel : Type 0 where
  dev prod : Channel

unfoldable pub should_pull_for : ℕ → ℕ → Channel → Bool
unfolding should_pull
should_pull_for manifest_version current_version dev = true
should_pull_for manifest_version current_version prod = should_pull manifest_version current_version

pub data VersionApply : Type 0 where
  keep adopt reject : VersionApply

unfoldable pub decide_upload_version : Bool → Bool → ℕ → ℕ → VersionApply × ℕ
decide_upload_version present valid value current =
    if not present then (keep, current) else if not valid then (reject, current) else (adopt, value)
