-- ===== src/Encoding.antt =====
-- src/supernote_task_service/encoding.py: the emoji escapes of the Supernote schema, the truncation
-- of the detail column and the form of an identifier. A text is the list of its code points.
pub mod Hex
pub mod Emoji
pub mod Roundtrip
pub mod Detail
pub mod Clock
pub mod Links
pub mod Samples
pub mod Decimal
mod Tests
use supernote_task_service.Common.{
  ℕ, zero, suc, ◌+◌, ◌-◌, ◌<◌, Bool, true, false, ◌&&◌, ◌||◌, not, Option, none, some, List, [],
  ◌∷◌, ◌++◌, Text, ltb, leb, ◌==◌, if◌then◌else◌, length, take, drop, text_eq,
}
use supernote_task_service.Encoding.Hex.{hex, is_hex_digit, hex_number}

abbrev pub detail_max_len : ℕ
detail_max_len = 255

-- The letters of `[U+`.
abbrev pub mark : Text
mark = b'[' ∷ b'U' ∷ b'+' ∷ []

unfoldable pub starts_with : Text → Text → Bool
starts_with [] t = true
starts_with (p ∷ ps) [] = false
starts_with (p ∷ ps) (c ∷ cs) = p == c && starts_with ps cs

-- `p in t`, for a text `p` that is not empty.
unfoldable pub occurs : Text → Text → Bool
unfolding starts_with
occurs p [] = false
occurs p (c ∷ cs) = starts_with p (c ∷ cs) || occurs p cs

-- One character as `encode_emoji` and `encode_detail` write it: `f"[U+{ord(ch):X}]"` above U+FFFF.
unfoldable pub token : ℕ → Text
token c = if ltb 0xFFFF c then mark ++ (hex c ++ b']' ∷ []) else c ∷ []

unfoldable pub encode_emoji : Text → Text
encode_emoji [] = []
encode_emoji (c ∷ cs) = token c ++ encode_emoji cs

-- The longest run of hexadecimal digits at the start, and what follows it.
unfoldable pub hex_run : Text → Text
hex_run [] = []
hex_run (c ∷ cs) = if is_hex_digit c then c ∷ hex_run cs else []

unfoldable pub after_run : Text → Text
after_run [] = []
after_run (c ∷ cs) = if is_hex_digit c then after_run cs else c ∷ cs

abbrev closes : Text → Text → Option Text
closes digits [] = none
closes [] (c ∷ cs) = none
closes (d ∷ ds) (c ∷ cs) = if c == b']' then some (d ∷ ds) else none

-- `\[U\+([0-9A-Fa-f]+)\]` at the start of a text: group 1 of the match.
unfoldable pub match_token : Text → Option Text
unfolding starts_with hex_run after_run
match_token t =
    if starts_with mark t then closes (hex_run (drop 3 t)) (after_run (drop 3 t)) else none

-- `_replace`: a surrogate or a number above U+10FFFF keeps its letters.
unfoldable pub replace_token : Text → Text
replace_token digits =
    let code = hex_number digits in
    if (leb 0xD800 code && leb code 0xDFFF) || ltb 0x10FFFF code
    then mark ++ (digits ++ b']' ∷ [])
    else code ∷ []

-- `re.sub`, from the left; the number is how much of the last match is still to be passed over.
unfoldable pub substitute : ℕ → Text → Text
substitute n [] = []
substitute (suc n) (c ∷ cs) = substitute n cs
substitute zero (c ∷ cs) = elim (match_token (c ∷ cs)) [
  | none ↦ c ∷ substitute zero cs
  | some digits ↦ replace_token digits ++ substitute (length digits + 3) cs
]

unfoldable pub decode_emoji : Option Text → Text
decode_emoji none = []
decode_emoji (some t) = if not (occurs mark t) then t else substitute zero t

-- The loop of `encode_detail`, with the length that is written so far.
unfoldable pub detail_loop : ℕ → Text → Text
detail_loop n [] = []
detail_loop n (c ∷ cs) =
    let rest = detail_loop (n + length (token c)) cs in
    if ltb detail_max_len (n + length (token c)) then [] else token c ++ rest

unfoldable pub encode_detail : Text → Text
unfolding detail_loop
encode_detail t = detail_loop 0 t

abbrev is_lower_hex : ℕ → Bool
is_lower_hex c = (leb b'0' c && leb c b'9') || (leb b'a' c && leb c b'f')

unfoldable pub all_lower_hex : Text → Bool
all_lower_hex [] = true
all_lower_hex (c ∷ cs) = is_lower_hex c && all_lower_hex cs

-- Python's `$` also matches before a newline at the end, so that `re.match` accepts one there.
unfoldable pub is_valid_id : Text → Bool
unfolding all_lower_hex
is_valid_id t =
    (length t == 32 && all_lower_hex t)
    || (length t == 33 && text_eq (drop 32 t) (10 ∷ []) && all_lower_hex (take 32 t))
