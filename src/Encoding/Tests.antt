-- ===== src/Encoding/Tests.antt =====
-- Texts through encoding.py.
use supernote_task_service.Common.{ℕ, ◌≡◌, refl, true, false, some, [], ◌∷◌, ◌++◌, Text, All, arith}
use supernote_task_service.Encoding.{
  encode_emoji, decode_emoji, encode_detail, occurs, starts_with, mark,
}
use supernote_task_service.Encoding.Hex.{hex_number, hex_number_from, hex_value, is_hex_digit}
use supernote_task_service.Encoding.Emoji.{IsCharacter}
use supernote_task_service.Encoding.Roundtrip.{decode-encode_emoji, decode-encode_token}
use supernote_task_service.Encoding.Detail.{encode_detail-IsCut, IsCut}

-- A letter, an emoji and a bracket.
abbrev party : Text
party = b'a' ∷ 0x1F389 ∷ b'[' ∷ []

party-IsCharacter : All IsCharacter party
party-IsCharacter = (omega arith, (omega arith, (omega arith, tt)))

no_mark : occurs mark party ≡ false
unfolding occurs starts_with
no_mark = refl

decode-encode_emoji_example : decode_emoji (some (encode_emoji party)) ≡ party
decode-encode_emoji_example = decode-encode_emoji party party-IsCharacter no_mark

-- `[U+41]`
abbrev digits : Text
digits = b'4' ∷ b'1' ∷ []

digits-AllHex : All (λ c. is_hex_digit c ≡ true) digits
unfolding is_hex_digit
digits-AllHex = (refl, (refl, tt))

decode-encode_token_example :
    decode_emoji (some (encode_emoji (mark ++ (digits ++ b']' ∷ [])))) ≡ hex_number digits ∷ []
unfolding hex_number hex_number_from hex_value
decode-encode_token_example = decode-encode_token digits digits-AllHex (omega arith) (omega arith)

encode_detail-IsCut_example : (k : ℕ) × IsCut 0 k party (encode_detail party)
encode_detail-IsCut_example = encode_detail-IsCut party
