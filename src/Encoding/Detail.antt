-- ===== src/Encoding/Detail.antt =====
-- `encode_detail`: the bound of the column, and where the text is cut.
use supernote_task_service.Common.{
  ℕ, suc, ◌+◌, ◌≤◌, ◌<◌, ◌≡◌, refl, [], ◌∷◌, arith, Text, ltb, length, length-append, take,
  Bool-cases, inl, inr, ◌⊎◌,
}
use supernote_task_service.Encoding.{
  detail_max_len, token, encode_emoji, detail_loop, encode_detail,
}

-- `k` characters were kept of `t`, where `n` letters stood before: they fit, and no further
-- character would.
pub record IsCut (n k : ℕ) (t out : Text) : Type 0 where
  pub kept : out ≡ encode_emoji (take k t)
  pub fits : n + length out ≤ detail_max_len
  pub longest : (length t ≤ k) ⊎ (detail_max_len < n + length (encode_emoji (take (suc k) t)))

detail_loop-IsCut :
    (n : ℕ) (t : Text) → n ≤ detail_max_len → (k : ℕ) × IsCut n k t (detail_loop n t)
unfolding detail_loop encode_emoji
detail_loop-IsCut n [] h =
    (0, record { kept = refl; fits = omega arith; longest = inl (omega arith) })
detail_loop-IsCut n (c ∷ cs) h = elim (Bool-cases (ltb detail_max_len (n + length (token c)))) [
  | inl full ↦ (
    0,
    record {
      kept = ground arith;
      fits = ground arith;
      longest = inr ground (arith, length-append (token c) []);
    },
  )
  | inr room ↦
      let (k, cut) = detail_loop-IsCut (n + length (token c)) cs (ground arith) in
      (
        suc k,
        record {
          kept = ground arith;
          fits = ground (arith, length-append (token c) (detail_loop (n + length (token c)) cs));
          longest = ground (arith, length-append (token c) (encode_emoji (take (suc k) cs)));
        },
      )
]

-- The stored detail fits its column. It is the encoding of the first characters of the text, with no
-- token cut in two, and of as many of them as fit.
pub encode_detail-IsCut : (t : Text) → (k : ℕ) × IsCut 0 k t (encode_detail t)
unfolding encode_detail
encode_detail-IsCut t = detail_loop-IsCut 0 t (omega arith)

detail_loop_fits :
    (n : ℕ) (t : Text)
    → n + length (encode_emoji t) ≤ detail_max_len
    → detail_loop n t ≡ encode_emoji t
unfolding detail_loop encode_emoji
detail_loop_fits n [] h = refl
detail_loop_fits n (c ∷ cs) h =
    let size = length-append (token c) (encode_emoji cs) in
    let rest = detail_loop_fits (n + length (token c)) cs (omega arith) in ground arith

-- A detail whose encoding fits is not cut.
pub encode_detail_fits :
    (t : Text) → length (encode_emoji t) ≤ detail_max_len → encode_detail t ≡ encode_emoji t
unfolding encode_detail
encode_detail_fits t h = detail_loop_fits 0 t (omega arith)
