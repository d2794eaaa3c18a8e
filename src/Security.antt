-- ===== src/Security.antt =====
-- src/supernote_task_service/security.py, and the configured keys of config.py. The digest (the hex
-- SHA-256 of the UTF-8 text) is a parameter; `hmac.compare_digest` is equality of texts.
pub mod Keys
mod Tests
use supernote_task_service.Common.{
  ℕ, zero, suc, ◌+◌, Bool, true, false, ◌&&◌, ◌||◌, Option, none, some, List, [], ◌∷◌, ◌++◌, Text,
  leb, ◌==◌, text_eq, if◌then◌else◌, map, take,
}
use supernote_task_service.Encoding.Decimal.{strip}

-- `str.partition(" ")`: before the first space, and behind it.
unfoldable pub before_space : Text → Text
before_space [] = []
before_space (c ∷ cs) = let rest = before_space cs in if c == 32 then [] else c ∷ rest

unfoldable pub after_space : Text → Text
after_space [] = []
after_space (c ∷ cs) = let rest = after_space cs in if c == 32 then cs else rest

-- `str.lower` on the letters that the comparison with "bearer" can meet
abbrev lower : ℕ → ℕ
lower c = if leb b'A' c && leb c b'Z' then c + 32 else c

abbrev pub bearer : Text
bearer = b'b' ∷ b'e' ∷ b'a' ∷ b'r' ∷ b'e' ∷ b'r' ∷ []

abbrev is_empty : Text → Bool
is_empty [] = true
is_empty (c ∷ cs) = false

abbrev from_x_api_key : Option Text → Option Text
from_x_api_key none = none
from_x_api_key (some []) = none
from_x_api_key (some (c ∷ cs)) = some (strip (c ∷ cs))

-- `_extract_presented_key`
unfoldable pub extract_presented_key : Option Text → Option Text → Option Text
unfolding before_space after_space
extract_presented_key none x = from_x_api_key x
extract_presented_key (some a) x =
    if text_eq (map lower (before_space a)) bearer
    then (if is_empty (after_space a) then from_x_api_key x else some (strip (after_space a)))
    else from_x_api_key x

-- The loop of `_key_matches`, which compares with every hash.
unfoldable pub matches_any : Text → Bool → List Text → Bool
matches_any h matched [] = matched
matches_any h matched (v ∷ valid) = matches_any h (if text_eq h v then true else matched) valid

-- `str.split`, on one letter
unfoldable pub split_on : ℕ → Text → List Text
split_on sep [] = [] ∷ []
split_on sep (c ∷ cs) = elim (split_on sep cs) [
  | [] ↦ []
  | part ∷ parts ↦ if c == sep then [] ∷ part ∷ parts else (c ∷ part) ∷ parts
]

-- `[k.strip() for k in api_keys.split(",") if k.strip()]`
unfoldable pub configured : List Text → List Text
configured [] = []
configured (k ∷ ks) = elim (strip k) [ [] ↦ configured ks | c ∷ cs ↦ (c ∷ cs) ∷ configured ks ]

module _ (digest : Text → Text) where
  -- `_key_matches`
  unfoldable pub key_matches : Text → List Text → Bool
  unfolding matches_any
  key_matches presented valid_hashes = matches_any (digest presented) false valid_hashes

  -- `Settings.api_key_hashes`; the order of the set does not matter
  unfoldable pub api_key_hashes : Text → List Text
  api_key_hashes api_keys = map digest (configured (split_on b',' api_keys))

  abbrev check_key : List Text → Option Text → Option Text
  check_key hashes none = none
  check_key hashes (some []) = none
  check_key hashes (some (c ∷ cs)) =
      if key_matches (c ∷ cs) hashes then some (take 16 (digest (c ∷ cs))) else none

  -- `validate_api_key`: the caller id, the start of the digest
  unfoldable pub validate_api_key : List Text → Option Text → Option Text → Option Text
  validate_api_key [] authorization x = none
  validate_api_key (h ∷ hashes) authorization x =
      check_key (h ∷ hashes) (extract_presented_key authorization x)
