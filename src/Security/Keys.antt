-- ===== src/Security/Keys.antt =====
-- Which keys are accepted.
use mathlib.Core.Path.{subst, sym}
use mathlib.Core.Logic.Or
use mathlib.Core.List.{mem-cons, mem-cons_self, mem-cons_of_mem, not-mem-nil}
use supernote_task_service.Common.Members.{Bool_eq_prop}
use supernote_task_service.Common.{
  ℕ, ◌≡◌, refl, Bool, true, false, ◌||◌, Option, none, some, List, [], ◌∷◌, arith, Text, text_eq,
  text_eq_refl, text_eq_sound, map, take, Bool-cases, inl, inr, any, Mem, All,
}
use supernote_task_service.Security.{
  extract_presented_key, matches_any, key_matches, configured, split_on, api_key_hashes,
  validate_api_key, check_key,
}

matches_any-any :
    (h : Text) (b : Bool) (valid : List Text) → matches_any h b valid ≡ (b || any (text_eq h) valid)
unfolding matches_any
matches_any-any h true [] = refl
matches_any-any h false [] = refl
matches_any-any h b (v ∷ valid) =
    ground (arith, matches_any-any h true valid, matches_any-any h b valid)

-- The digest tells a key from each of the others.
abbrev pub IsTold : (Text → Text) → Text → List Text → Type 0
IsTold digest k ks = All (λ j. digest k ≡ digest j → k ≡ j) ks

module _ (digest : Text → Text) where
  any_digest-mem :
      (k : Text) (ks : List Text)
      → IsTold digest k ks
      → any (text_eq (digest k)) (map digest ks) ≡ true
      → Mem k ks
  any_digest-mem k [] told h = cc
  any_digest-mem k (j ∷ ks) told h = elim (Bool-cases (text_eq (digest k) (digest j))) [
    | inl same ↦ subst (λ z. Mem z (j ∷ ks)) (sym (told.0 (text_eq_sound _ _ same))) mem-cons_self
    | inr other ↦ mem-cons_of_mem j (any_digest-mem k ks told.1 (ground arith))
  ]

  key_matches-mem :
      (k : Text) (ks : List Text)
      → IsTold digest k ks
      → key_matches digest k (map digest ks) ≡ true
      → Mem k ks
  unfolding key_matches
  key_matches-mem k ks told h =
      any_digest-mem k ks told (ground (arith, matches_any-any (digest k) false (map digest ks)))

  check_key-accepted :
      (ks : List Text) (presented : Option Text) {id : Text}
      → ((k : Text) → presented ≡ some k → IsTold digest k ks)
      → check_key digest (map digest ks) presented ≡ some id
      → (k : Text) × (presented ≡ some k) × Mem k ks × (id ≡ take 16 (digest k))
  check_key-accepted ks none told e = cc
  check_key-accepted ks (some []) told e = cc
  check_key-accepted ks (some (c ∷ cs)) told e =
      (c ∷ cs, refl, key_matches-mem (c ∷ cs) ks (told (c ∷ cs) refl) (ground arith), ground arith)

  validate-check_key :
      (hashes : List Text) (authorization x : Option Text) {id : Text}
      → validate_api_key digest hashes authorization x ≡ some id
      → check_key digest hashes (extract_presented_key authorization x) ≡ some id
  unfolding validate_api_key
  validate-check_key [] authorization x e = cc
  validate-check_key (h ∷ hashes) authorization x e = e

  -- Where the key that a caller presents has not by chance the digest of another key that is
  -- configured, it is accepted only if it is a configured key, and is known by the start of its
  -- digest.
  pub accepted_key :
      (api_keys : Text) (authorization x : Option Text) (id : Text)
      → ((k : Text)
          → extract_presented_key authorization x ≡ some k
          → IsTold digest k (configured (split_on b',' api_keys)))
      → validate_api_key digest (api_key_hashes digest api_keys) authorization x ≡ some id
      → (k : Text) × (extract_presented_key authorization x ≡ some k)
        × Mem k (configured (split_on b',' api_keys))
        × (id ≡ take 16 (digest k))
  unfolding api_key_hashes
  accepted_key api_keys authorization x id told e =
      check_key-accepted (configured (split_on b',' api_keys))
        (extract_presented_key authorization x) told
        (validate-check_key (map digest (configured (split_on b',' api_keys))) authorization x e)

module _ (digest : Text → Text) where
  mem-any : (k : Text) (ks : List Text) → Mem k ks → any (text_eq (digest k)) (map digest ks) ≡ true
  mem-any k [] m = absurd (not-mem-nil m)
  mem-any k (j ∷ ks) m =
      Or.elim Bool_eq_prop (mem-cons.0 m) (λ (p : k ≡ j). rw (p, text_eq_refl (digest j)) refl)
        (λ i. ground (arith, mem-any k ks i))

  validate-configured :
      (ks : List Text) (c : ℕ) (cs : Text) (authorization x : Option Text)
      → Mem (c ∷ cs) ks
      → extract_presented_key authorization x ≡ some (c ∷ cs)
      → validate_api_key digest (map digest ks) authorization x ≡ some (take 16 (digest (c ∷ cs)))
  unfolding validate_api_key key_matches
  validate-configured [] c cs authorization x m e = absurd (not-mem-nil m)
  validate-configured (k ∷ ks) c cs authorization x m e = ground (
    arith,
    mem-any (c ∷ cs) (k ∷ ks) m,
    matches_any-any (digest (c ∷ cs)) false (map digest (k ∷ ks)),
  )

  -- A caller that presents a configured key that is not empty is accepted, and is known by the start
  -- of its digest.
  pub configured_key :
      (api_keys : Text) (c : ℕ) (cs : Text) (authorization x : Option Text)
      → Mem (c ∷ cs) (configured (split_on b',' api_keys))
      → extract_presented_key authorization x ≡ some (c ∷ cs)
      → validate_api_key digest (api_key_hashes digest api_keys) authorization x
        ≡ some (take 16 (digest (c ∷ cs)))
  unfolding api_key_hashes
  configured_key api_keys = validate-configured (configured (split_on b',' api_keys))
