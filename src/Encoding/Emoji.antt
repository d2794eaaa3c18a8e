-- ===== src/Encoding/Emoji.antt =====
-- How the escapes of `encode_emoji` are matched and passed over by `decode_emoji`.
use supernote_task_service.Common.{
  ℕ, zero, ◌+◌, ◌≤◌, ◌<◌, ◌≡◌, ◌≢◌, refl, ap, ◌∙◌, none, some, [], ◌∷◌, ◌++◌, arith, Text, lt→ltb,
  length, length-append, All,
}
use mathlib.Core.List.{append_assoc}
use supernote_task_service.Encoding.Hex.{
  hex, is_hex_digit, AllHex, hex-AllHex, hex_number-hex, length-hex,
}
use supernote_task_service.Encoding.{
  mark, starts_with, token, encode_emoji, hex_run, after_run, match_token, replace_token,
  substitute,
}

-- The code points that a Python text may hold, and those that the utf8 columns hold.
abbrev pub IsCharacter : ℕ → Type 0
IsCharacter c = c ≤ 0x10FFFF

abbrev pub IsBasic : ℕ → Type 0
IsBasic c = c ≤ 0xFFFF

hex_run-digits : (ds t : Text) → AllHex ds → hex_run (ds ++ b']' ∷ t) ≡ ds
unfolding hex_run is_hex_digit
hex_run-digits [] t h = refl
hex_run-digits (d ∷ ds) t h = ground (arith, hex_run-digits ds t h.1)

after_run-digits : (ds t : Text) → AllHex ds → after_run (ds ++ b']' ∷ t) ≡ b']' ∷ t
unfolding after_run is_hex_digit
after_run-digits [] t h = refl
after_run-digits (d ∷ ds) t h = ground (arith, after_run-digits ds t h.1)

-- Whatever hexadecimal digits stand in a token, it is matched whole.
pub match_token-digits :
    (ds t : Text) → AllHex ds → 0 < length ds → match_token (mark ++ (ds ++ b']' ∷ t)) ≡ some ds
unfolding match_token
match_token-digits [] t h n = absurd (omega arith)
match_token-digits (d ∷ ds) t h n =
    rw (hex_run-digits (d ∷ ds) t h, after_run-digits (d ∷ ds) t h) refl

pub substitute-skip : (p t : Text) → substitute (length p) (p ++ t) ≡ substitute zero t
unfolding substitute
substitute-skip [] t = refl
substitute-skip (c ∷ cs) t = substitute-skip cs t

substitute-match :
    (c : ℕ) (cs ds : Text)
    → match_token (c ∷ cs) ≡ some ds
    → substitute zero (c ∷ cs) ≡ replace_token ds ++ substitute (length ds + 3) cs
unfolding substitute
substitute-match c cs ds e = rw (e, substitute)

pub substitute-no_match :
    (c : ℕ) (cs : Text)
    → match_token (c ∷ cs) ≡ none
    → substitute zero (c ∷ cs) ≡ c ∷ substitute zero cs
unfolding substitute
substitute-no_match c cs e = rw (e, substitute)

-- Decoding passes over a token in one step.
pub substitute-token :
    (ds t : Text)
    → AllHex ds
    → 0 < length ds
    → substitute zero (mark ++ (ds ++ b']' ∷ t)) ≡ replace_token ds ++ substitute zero t
substitute-token ds t h n =
    let passed : Text = b'U' ∷ b'+' ∷ (ds ++ b']' ∷ []) in
    let size : length ds + 3 ≡ length passed = omega (arith, length-append ds (b']' ∷ [])) in
    let skipped : substitute (length ds + 3) (b'U' ∷ b'+' ∷ (ds ++ b']' ∷ t)) ≡ substitute zero t =
      rw (size, ← append_assoc ds (b']' ∷ []) t) (substitute-skip passed t) in
    substitute-match b'[' (b'U' ∷ b'+' ∷ (ds ++ b']' ∷ t)) ds (match_token-digits ds t h n)
    ∙ ap (◌++◌ (replace_token ds)) skipped

-- The token of a character above U+FFFF decodes to the character.
replace_token-hex : (c : ℕ) → 0xFFFF < c → IsCharacter c → replace_token (hex c) ≡ c ∷ []
unfolding replace_token
replace_token-hex c h k = ground (arith, hex_number-hex c)

pub substitute-escape :
    (c : ℕ) (t : Text)
    → 0xFFFF < c
    → IsCharacter c
    → substitute zero (token c ++ t) ≡ c ∷ substitute zero t
unfolding token
substitute-escape c t h k =
    rw (lt→ltb 0xFFFF c h, append_assoc (hex c) (b']' ∷ []) t)
      (substitute-token (hex c) t (hex-AllHex c) (length-hex c) ∙ rw (replace_token-hex c h k) refl)

-- A text starts with the same letters before and after it is encoded, if they are not `[`.
pub starts_with-encode_emoji :
    (ps t : Text)
    → All (λ p. (p ≤ 0xFFFF) × (p ≢ b'[')) ps
    → starts_with ps (encode_emoji t) ≡ starts_with ps t
unfolding starts_with encode_emoji token
starts_with-encode_emoji [] t h = refl
starts_with-encode_emoji (p ∷ ps) [] h = refl
starts_with-encode_emoji (p ∷ ps) (c ∷ cs) h = ground (arith, starts_with-encode_emoji ps cs h.1)
