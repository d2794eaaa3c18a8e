-- ===== src/Http/Responses.antt =====
-- What the middleware of main.py lets through, and the headers of what comes back.
use supernote_task_service.Common.{
  ◌≡◌, ◌∙◌, refl, sym, ap, false, ◌&&◌, Option, none, some, [], ◌∷◌, ◌++◌, Text, arith, ◌⊎◌, inl,
  inr, Option-cases,
}
use supernote_task_service.Common.Int.{ℤ, ltb_ℤ}
use supernote_task_service.Common.Dict.{Dict, lookup, text_eq_iff}
use supernote_task_service.Encoding.Decimal.{strip, parse_int}
use supernote_task_service.Http.Middleware.{
  Arrival, Response, limit_body, respond, setdefault, set_defaults, serve, has_body_method, is_set,
}

abbrev pub or_else : {A : Type 0} → Option A → Option A → Option A
or_else none o = o
or_else (some a) o = some a

lookup-append : (k : Text) (h d : Dict Text) → lookup k (h ++ d) ≡ or_else (lookup k h) (lookup k d)
unfolding lookup
lookup-append k [] d = refl
lookup-append k ((j, v) ∷ h) d = ground (arith, lookup-append k h d)

lookup-setdefault :
    (j k : Text) (v : Text) (h : Dict Text)
    → lookup j (setdefault k v h) ≡ or_else (lookup j h) (lookup j ((k, v) ∷ []))
unfolding setdefault lookup
lookup-setdefault j k v h = ground (arith, lookup-append j h ((k, v) ∷ []), text_eq_iff k j)

pub lookup-set_defaults :
    (j : Text) (ds h : Dict Text)
    → lookup j (set_defaults ds h) ≡ or_else (lookup j h) (lookup j ds)
unfolding set_defaults lookup
lookup-set_defaults j [] h = ground arith
lookup-set_defaults j ((k, v) ∷ ds) h =
    ground (arith, lookup-set_defaults j ds (setdefault k v h), lookup-setdefault j k v h)

-- What a request that reaches the rest of the application declares of its body.
pub data Declares (max_bytes : ℤ) (a : Arrival) : Type 0 where
  within :
      (declared : Text) (n : ℤ)
      → a.content_length ≡ some declared
      → parse_int (strip declared) ≡ some n
      → ltb_ℤ max_bytes n ≡ false
      → Declares max_bytes a
  nothing :
      a.content_length ≡ none
      → (has_body_method a.method && is_set a.transfer_encoding) ≡ false
      → Declares max_bytes a

-- A request either is answered whatever the rest of the application would do with it, or declares a
-- body that is a number and not above the limit, or declares no length and is not a POST, PUT or
-- PATCH with a transfer encoding.
pub serve_bounded :
    (max_bytes : ℤ) (a : Arrival)
    → ((f g : Arrival → Response) → serve max_bytes f a ≡ serve max_bytes g a)
      ⊎ Declares max_bytes a
unfolding serve
serve_bounded max_bytes a = elim (Option-cases (limit_body max_bytes a)) [
  | inr (c, e) ↦ inl (λ f g. ap (λ o. respond o (f a)) e ∙ sym (ap (λ o. respond o (g a)) e))
  | inl passed ↦ inr (declares passed)
]
  where
    declares : limit_body max_bytes a ≡ none → Declares max_bytes a
    declares passed = elim (Option-cases a.content_length) [
      | inl e ↦ nothing e (unfold limit_body in ground arith)
      | inr (t, e) ↦ elim (Option-cases (parse_int (strip t))) [
        | inl f ↦ unfold limit_body in ground arith
        | inr (n, f) ↦ within t n e f (unfold limit_body in ground arith)
      ]
    ]
