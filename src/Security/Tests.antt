-- ===== src/Security/Tests.antt =====
-- Two configured keys, with a digest of three letters, which different texts share.
use mathlib.Core.List.{mem-cons_self, mem-cons_of_mem}
use supernote_task_service.Common.{
  ◌≡◌, ◌∙◌, sym, refl, none, some, [], ◌∷◌, Text, Mem, take, text_eq,
}
use supernote_task_service.Security.{
  extract_presented_key, configured, split_on, validate_api_key, api_key_hashes, before_space,
  after_space, matches_any, key_matches,
}
use supernote_task_service.Security.Keys.{accepted_key, IsTold}
use mathlib.Core.Path.{subst}
use supernote_task_service.Encoding.Decimal.{strip, lstrip, is_space}

abbrev marked : Text → Text
marked t = take 3 (7 ∷ t)

-- `k1, k2`
abbrev two_keys : Text
two_keys = b'k' ∷ b'1' ∷ b',' ∷ 32 ∷ b'k' ∷ b'2' ∷ []

abbrev first : Text
first = b'k' ∷ b'1' ∷ []

-- `Bearer k2`
abbrev header : Text
header = b'B' ∷ b'e' ∷ b'a' ∷ b'r' ∷ b'e' ∷ b'r' ∷ 32 ∷ b'k' ∷ b'2' ∷ []

abbrev second : Text
second = b'k' ∷ b'2' ∷ []

presented : extract_presented_key (some header) none ≡ some second
unfolding extract_presented_key before_space after_space strip lstrip is_space text_eq
presented = refl

listed : Mem second (configured (split_on b',' two_keys))
unfolding configured split_on strip lstrip is_space
listed = mem-cons_of_mem _ mem-cons_self

accepted :
    validate_api_key marked (api_key_hashes marked two_keys) (some header) none ≡ some (7 ∷ second)
unfolding validate_api_key api_key_hashes key_matches matches_any configured split_on
    extract_presented_key before_space after_space strip lstrip is_space text_eq
accepted = refl

told :
    (k : Text)
    → extract_presented_key (some header) none ≡ some k
    → IsTold marked k (configured (split_on b',' two_keys))
unfolding configured split_on strip lstrip is_space
told k e = subst (λ z. IsTold marked z (first ∷ second ∷ [])) same ((λ d. cc), ((λ d. refl), tt))
  where
    same : second ≡ k
    same = let both = sym presented ∙ e in cc

accepted_key_example :
    (k : Text) × (extract_presented_key (some header) none ≡ some k)
    × Mem k (configured (split_on b',' two_keys))
    × (7 ∷ second ≡ take 16 (marked k))
accepted_key_example = accepted_key marked two_keys (some header) none (7 ∷ second) told accepted
