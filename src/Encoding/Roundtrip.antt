-- ===== src/Encoding/Roundtrip.antt =====
-- `decode_emoji` after `encode_emoji`, and what an encoded text is made of.
use supernote_task_service.Common.{
  ℕ, zero, ◌<◌, ◌≡◌, refl, ap, ◌∙◌, true, false, none, some, [], ◌∷◌, ◌++◌, arith, Text, ltb,
  length, All, All-append, Bool-cases, inl, inr, ltb→lt,
}
use supernote_task_service.Encoding.Hex.{hex, hex_number, is_hex_digit, AllHex, hex-AllHex}
use supernote_task_service.Encoding.{
  mark, starts_with, occurs, token, encode_emoji, match_token, replace_token, substitute,
  decode_emoji,
}
use supernote_task_service.Encoding.Emoji.{
  IsCharacter, IsBasic, substitute-escape, substitute-no_match, starts_with-encode_emoji,
  substitute-token,
}

-- A character that starts no mark is copied.
match_token-plain :
    (c : ℕ) (cs : Text)
    → starts_with mark (c ∷ cs) ≡ false
    → match_token (c ∷ encode_emoji cs) ≡ none
unfolding match_token starts_with
match_token-plain c cs h =
    ground (arith, starts_with-encode_emoji (b'U' ∷ b'+' ∷ []) cs (omega arith))

occurs-tail : (p : Text) (c : ℕ) (cs : Text) → occurs p (c ∷ cs) ≡ false → occurs p cs ≡ false
unfolding occurs
occurs-tail p c cs m = ground arith

occurs-head :
    (p : Text) (c : ℕ) (cs : Text) → occurs p (c ∷ cs) ≡ false → starts_with p (c ∷ cs) ≡ false
unfolding occurs
occurs-head p c cs m = ground arith

token_basic : (c : ℕ) → ltb 0xFFFF c ≡ false → token c ≡ c ∷ []
unfolding token
token_basic c low = rw low

substitute-encode_emoji :
    (t : Text) → All IsCharacter t → occurs mark t ≡ false → substitute zero (encode_emoji t) ≡ t
unfolding encode_emoji
substitute-encode_emoji [] h m = unfold substitute in refl
substitute-encode_emoji (c ∷ cs) h m =
    let rest : substitute zero (encode_emoji cs) ≡ cs =
      substitute-encode_emoji cs h.1 (occurs-tail mark c cs m) in
    elim (Bool-cases (ltb 0xFFFF c)) [
      | inl high ↦ substitute-escape c (encode_emoji cs) (ltb→lt _ _ high) h.0 ∙ ap (◌∷◌ c) rest
      | inr low ↦ rw (token_basic c low) (
          substitute-no_match c (encode_emoji cs) (match_token-plain c cs (occurs-head mark c cs m))
          ∙ ap (◌∷◌ c) rest)
    ]

-- where the mark does not occur, substitution changes nothing
substitute_no_mark : (t : Text) → occurs mark t ≡ false → substitute zero t ≡ t
substitute_no_mark [] m = unfold substitute in refl
substitute_no_mark (c ∷ cs) m =
    substitute-no_match c cs (unfold match_token occurs in ground arith)
    ∙ ap (◌∷◌ c) (substitute_no_mark cs (unfold occurs in ground arith))

decode_emoji-substitute : (t : Text) → decode_emoji (some t) ≡ substitute zero t
unfolding decode_emoji
decode_emoji-substitute t = ground (arith, substitute_no_mark t)

-- A text of characters in which the letters `[U+` do not stand side by side comes back from the
-- database as it was written.
pub decode-encode_emoji :
    (t : Text)
    → All IsCharacter t
    → occurs mark t ≡ false
    → decode_emoji (some (encode_emoji t)) ≡ t
decode-encode_emoji t h m = decode_emoji-substitute (encode_emoji t) ∙ substitute-encode_emoji t h m

digit-IsBasic : (c : ℕ) → is_hex_digit c ≡ true → IsBasic c
unfolding is_hex_digit
digit-IsBasic c h = ground arith

digits-IsBasic : (ds : Text) → AllHex ds → All IsBasic ds
digits-IsBasic [] h = tt
digits-IsBasic (d ∷ ds) h = (digit-IsBasic d h.0, digits-IsBasic ds h.1)

mark-IsBasic : (t : Text) → All IsBasic t → All IsBasic (mark ++ t)
mark-IsBasic t h = (omega arith, (omega arith, (omega arith, h)))

token-IsBasic : (c : ℕ) → All IsBasic (token c)
unfolding token
token-IsBasic c = elim (Bool-cases (ltb 0xFFFF c)) [
  | inl high ↦ rw high (
      mark-IsBasic (hex c ++ b']' ∷ []) (
        All-append IsBasic (hex c) (b']' ∷ []) (digits-IsBasic (hex c) (hex-AllHex c))
          (omega arith)))
  | inr low ↦ rw low (ground arith, tt)
]

-- What is written fits the three-byte columns.
encode_emoji-IsBasic : (t : Text) → All IsBasic (encode_emoji t)
unfolding encode_emoji
encode_emoji-IsBasic [] = tt
encode_emoji-IsBasic (c ∷ cs) =
    All-append IsBasic (token c) (encode_emoji cs) (token-IsBasic c) (encode_emoji-IsBasic cs)

encode_emoji_basic : (t : Text) → All IsBasic t → encode_emoji t ≡ t
unfolding encode_emoji token
encode_emoji_basic [] h = refl
encode_emoji_basic (c ∷ cs) h = ground (arith, encode_emoji_basic cs h.1)

-- A text that a client writes in the form of a token, of one or more hexadecimal digits for a number
-- below 0xD800, is stored unescaped and read as the character of that number.
pub decode-encode_token :
    (ds : Text)
    → AllHex ds
    → 0 < length ds
    → hex_number ds < 0xD800
    → let t = mark ++ (ds ++ b']' ∷ []) in decode_emoji (some (encode_emoji t)) ≡ hex_number ds ∷ []
unfolding replace_token substitute
decode-encode_token ds h n small =
    let t : Text = mark ++ (ds ++ b']' ∷ []) in
    let basic : All IsBasic t =
      mark-IsBasic (ds ++ b']' ∷ [])
        (All-append IsBasic ds (b']' ∷ []) (digits-IsBasic ds h) (omega arith)) in
    let done : replace_token ds ++ substitute zero [] ≡ hex_number ds ∷ [] = ground arith in
    ap (λ s. decode_emoji (some s)) (encode_emoji_basic t basic)
    ∙ decode_emoji-substitute t
    ∙ substitute-token ds [] h n
    ∙ done
