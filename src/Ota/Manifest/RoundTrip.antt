-- ===== src/Ota/Manifest/RoundTrip.antt =====
-- The text that is built is the text that is read.
use desky.Prelude.{
  ℕ, ◌+◌, ◌<◌, ◌≤◌, ◌≡◌, refl, ap, ◌∙◌, ◌^◌, ◌⊎◌, arith, true, false, not, none, some, List, [],
  ◌∷◌, ◌++◌, ltb, leb, ◌==◌, if◌then◌else◌, length, Each, Each-append, Bool-cases, inl, inr,
}
use desky.Ota.Manifest.{
  version_key, size_key, sha_key, is_hex_char, all_hex, is_hex64, decimal, build_manifest, lines,
  strip_cr, Scan, no_scan, with_version, with_size, read_line, scan_line, scan_lines,
  parse_manifest,
}
use desky.Ota.Manifest.Decimal.{IsPlain, length-decimal, parse_u32-decimal, decimal-IsPlain}

all_hex-IsPlain : (cs : List ℕ) → all_hex cs ≡ true → Each IsPlain cs
all_hex-IsPlain [] h = tt
all_hex-IsPlain (c ∷ cs) h = elim (Bool-cases (is_hex_char c)) [
  | inl e ↦ (ground arith, all_hex-IsPlain cs (ground arith))
  | inr e ↦ absurd (ground arith)
]

lines-IsPlain : (l rest : List ℕ) → Each IsPlain l → lines (l ++ (10 ∷ rest)) ≡ l ∷ lines rest
unfolding lines
lines-IsPlain [] rest h = refl
lines-IsPlain (c ∷ cs) rest h =
    let g : (c == 10) ≡ false = (let p = h.0 in ground arith) in
    rw (g, lines-IsPlain cs rest h.1) refl

strip_cr-IsPlain : (l : List ℕ) → Each IsPlain l → strip_cr l ≡ l
unfolding strip_cr
strip_cr-IsPlain [] h = refl
strip_cr-IsPlain (c ∷ []) h = let p = h.0 in ground arith
strip_cr-IsPlain (c ∷ (d ∷ ds)) h = ap (λ l. c ∷ l) (strip_cr-IsPlain (d ∷ ds) h.1)

nonzero : (n : ℕ) → 0 < n → (n == 0) ≡ false
nonzero n h = ground arith

-- A line of the manifest that is read.
scan_lines-IsPlain :
    (s s' : Scan) (l : List ℕ) (ls : List (List ℕ))
    → Each IsPlain l
    → 0 < length l
    → scan_line s l ≡ some s'
    → scan_lines s (l ∷ ls) ≡ scan_lines s' ls
unfolding scan_lines
scan_lines-IsPlain s s' l ls h n e =
    let g : (length l == 0) ≡ false = nonzero (length l) n in
    rw (strip_cr-IsPlain l h, scan_lines) (rw (g, scan_lines) (rw (e, scan_lines) refl))

scan_line-short : (s : Scan) (l : List ℕ) → length l < 128 → scan_line s l ≡ read_line s l
unfolding scan_line
scan_line-short s l h = let g : leb 128 (length l) ≡ false = ground arith in rw (g, scan_line) refl

scan_line-version :
    (s : Scan) (x : ℕ)
    → x ≤ 0xFFFFFFFF
    → scan_line s (version_key ++ decimal x) ≡ with_version s (some x)
unfolding read_line
scan_line-version s x h =
    let n = length-decimal x in
    scan_line-short s (version_key ++ decimal x) (omega arith)
    ∙ ap (with_version s) (parse_u32-decimal x h)

scan_line-size :
    (s : Scan) (x : ℕ) → x ≤ 0xFFFFFFFF → scan_line s (size_key ++ decimal x) ≡ with_size s (some x)
unfolding read_line
scan_line-size s x h =
    let n = length-decimal x in
    scan_line-short s (size_key ++ decimal x) (omega arith)
    ∙ ap (with_size s) (parse_u32-decimal x h)

abbrev with_sha : Scan → List ℕ → Scan
with_sha s hex = record s { manifest = record s.manifest { sha = hex }; shas = s.shas + 1 }

scan_line-sha :
    (s : Scan) (hex : List ℕ)
    → is_hex64 hex ≡ true
    → length hex ≡ 64
    → scan_line s (sha_key ++ hex) ≡ some (with_sha s hex)
unfolding read_line
scan_line-sha s hex h n =
    scan_line-short s (sha_key ++ hex) (omega arith)
    ∙ ap (λ b. if not b then none else some (with_sha s hex)) h

is_hex64-true : (hex : List ℕ) → is_hex64 hex ≡ true → (length hex ≡ 64) × (all_hex hex ≡ true)
unfolding is_hex64
is_hex64-true hex h = (ground arith, ground arith)

-- The text, as its lines.
abbrev text_of : ℕ → ℕ → List ℕ → List ℕ
text_of version size hex =
    (version_key ++ decimal version)
    ++ (10 ∷ ((size_key ++ decimal size) ++ (10 ∷ ((sha_key ++ hex) ++ (10 ∷ [])))))

version_line-IsPlain : (x : ℕ) → Each IsPlain (version_key ++ decimal x)
version_line-IsPlain x =
    Each-append IsPlain version_key (decimal x) (ground arith) (decimal-IsPlain x)

size_line-IsPlain : (x : ℕ) → Each IsPlain (size_key ++ decimal x)
size_line-IsPlain x = Each-append IsPlain size_key (decimal x) (ground arith) (decimal-IsPlain x)

sha_line-IsPlain : (hex : List ℕ) → all_hex hex ≡ true → Each IsPlain (sha_key ++ hex)
sha_line-IsPlain hex h = Each-append IsPlain sha_key hex (ground arith) (all_hex-IsPlain hex h)

lines-text_of :
    (version size : ℕ) (hex : List ℕ)
    → all_hex hex ≡ true
    → lines (text_of version size hex)
      ≡ (version_key ++ decimal version) ∷ ((size_key ++ decimal size) ∷ ((sha_key ++ hex) ∷ []))
lines-text_of version size hex h =
    let third = lines-IsPlain (sha_key ++ hex) [] (sha_line-IsPlain hex h) in
    let second = lines-IsPlain (size_key ++ decimal size) _ (size_line-IsPlain size) in
    let first = lines-IsPlain (version_key ++ decimal version) _ (version_line-IsPlain version) in
    first
    ∙ ap (λ ls. (version_key ++ decimal version) ∷ ls)
        (second
          ∙ ap (λ ls. (size_key ++ decimal size) ∷ ls)
              (third ∙ ap (λ ls. (sha_key ++ hex) ∷ ls) (unfold lines in refl)))

parse_manifest-text_of :
    (version size : ℕ) (hex : List ℕ)
    → version ≤ 0xFFFFFFFF
    → size ≤ 0xFFFFFFFF
    → is_hex64 hex ≡ true
    → parse_manifest (text_of version size hex)
      ≡ some (record { version = version; size = size; sha = hex })
unfolding parse_manifest
parse_manifest-text_of version size hex v n h =
    let (long, digits) = is_hex64-true hex h in
    let s1 : Scan = record no_scan {
      manifest = record no_scan.manifest { version = version };
      versions = 1;
    } in
    let s2 : Scan = record s1 { manifest = record s1.manifest { size = size }; sizes = 1 } in
    let scanned : scan_lines no_scan (
          (version_key ++ decimal version) ∷ ((size_key ++ decimal size) ∷ ((sha_key ++ hex) ∷ [])))
        ≡ some (with_sha s2 hex) =
      (scan_lines-IsPlain no_scan s1 (version_key ++ decimal version)
          ((size_key ++ decimal size) ∷ ((sha_key ++ hex) ∷ [])) (version_line-IsPlain version)
          (omega arith) (scan_line-version no_scan version v)
        ∙ scan_lines-IsPlain s1 s2 (size_key ++ decimal size) ((sha_key ++ hex) ∷ [])
            (size_line-IsPlain size) (omega arith) (scan_line-size s1 size n)
        ∙ scan_lines-IsPlain s2 (with_sha s2 hex) (sha_key ++ hex) [] (sha_line-IsPlain hex digits)
            (omega arith) (scan_line-sha s2 hex h long)
        ∙ (unfold scan_lines in refl)) in
    rw (lines-text_of version size hex digits, parse_manifest) (rw (scanned, parse_manifest) refl)

fits_256 : (m n : ℕ) → m ≤ 16 → n ≤ 16 → ltb 256 (8 + m + 6 + n + 8 + 64 + 1 + 1) ≡ false
fits_256 m n h k = ground arith

-- The manifest of a version and a size of 32 bits with a digest of 64 hexadecimal digits is built in
-- the room of 256 bytes, and the text is read back to the same version, size and digest; it is never
-- built for another digest.
pub parse_manifest-build_manifest :
    (version size : ℕ) (hex : List ℕ)
    → version < 2 ^ 32
    → size < 2 ^ 32
    → ((is_hex64 hex ≡ true)
        × ((text : List ℕ) × (build_manifest version size hex 256 ≡ some text)
            × (parse_manifest text ≡ some (record { version = version; size = size; sha = hex }))))
      ⊎ ((is_hex64 hex ≡ false) × (build_manifest version size hex 256 ≡ none))
unfolding build_manifest
parse_manifest-build_manifest version size hex v n = elim (Bool-cases (is_hex64 hex)) [
  | inl h ↦
      let digits = is_hex64-true hex h in
      let lv = length-decimal version in
      let ln = length-decimal size in
      let fits : ltb 256 (8 + length (decimal version) + 6 + length (decimal size) + 8 + 64 + 1 + 1)
          ≡ false =
        fits_256 _ _ lv.1 ln.1 in
      inl (
        h,
        (
          text_of version size hex,
          rw (h, build_manifest) (rw (fits, build_manifest) refl),
          parse_manifest-text_of version size hex (omega arith) (omega arith) h,
        ),
      )
  | inr h ↦ inr (h, rw (h, build_manifest) refl)
]
