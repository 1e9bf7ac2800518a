-- ===== src/Keys/Secret.antt =====
-- The plaintext of a key in internal/keys/keys.go: the prefix and the unpadded URL-safe base64 of 32
-- random bytes (base64.RawURLEncoding).
use slim_m_relay.Prelude.{
  ℕ, ◌+◌, ◌-◌, ◌*◌, ◌/◌, ◌%◌, List, [], ◌∷◌, ◌++◌, ltb, ◌==◌, if◌then◌else◌, ◌≡◌, refl,
}
use slim_m_relay.Text.{Str, codes}

abbrev pub key_prefix : Str
key_prefix = codes "smr_"

-- the URL-safe alphabet
unfoldable pub base64_char : ℕ → ℕ
base64_char n =
    if ltb n 26
    then n + 65
    else if ltb n 52
    then n + 71
    else if ltb n 62
    then n - 4
    else if n == 62
    then b'-'
    else b'_'

-- three bytes make four characters; one or two at the end make two or three
unfoldable pub base64_encode : List ℕ → Str
unfolding base64_char
base64_encode [] = []
base64_encode (a ∷ []) = base64_char (a / 4) ∷ base64_char (a % 4 * 16) ∷ []
base64_encode (a ∷ b ∷ []) =
    base64_char (a / 4) ∷ base64_char (a % 4 * 16 + b / 16) ∷ base64_char (b % 16 * 4) ∷ []
base64_encode (a ∷ b ∷ c ∷ rest) =
    base64_char (a / 4)
    ∷ base64_char (a % 4 * 16 + b / 16)
    ∷ base64_char (b % 16 * 4 + c / 64)
    ∷ base64_char (c % 64)
    ∷ base64_encode rest

unfoldable pub plaintext : List ℕ → Str
unfolding base64_encode
plaintext raw = key_prefix ++ base64_encode raw

-- the bytes of "Man", and two of their prefixes
plaintext_samples :
    (plaintext (77 ∷ 97 ∷ 110 ∷ []) ≡ codes "smr_TWFu")
    × (plaintext (77 ∷ 97 ∷ []) ≡ codes "smr_TWE")
    × (plaintext (255 ∷ 239 ∷ []) ≡ codes "smr__-8")
unfolding plaintext
plaintext_samples = (refl, refl, refl)
