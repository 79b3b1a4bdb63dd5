-- ===== src/Examples/Digest.antt =====
-- The passphrase of the access point for a known secret.
use desky.Prelude.{◌≡◌, refl, some, [], ◌∷◌}
use desky.Link.Crypto.Sha256.{derive_ap_passphrase}

derive_ap_passphrase_run :
    derive_ap_passphrase (0 ∷ 1 ∷ 2 ∷ 3 ∷ 4 ∷ 5 ∷ 6 ∷ 7 ∷ 8 ∷ 9 ∷ 10 ∷ 11 ∷ 12 ∷ 13 ∷ 14 ∷ 15 ∷ [])
    ≡ some (
        100 ∷ 101 ∷ 115 ∷ 107 ∷ 121 ∷ 45 ∷ 112 ∷ 102 ∷ 117 ∷ 98 ∷ 53 ∷ 121 ∷ 115 ∷ 114 ∷ 121 ∷ 99
        ∷ [])
unfolding derive_ap_passphrase
derive_ap_passphrase_run = refl
