-- ===== src/Encoding/Decimal.antt =====
-- `str(n)` of a natural number, `str.strip` and `int(s)` of Python, as the importance column uses
-- them. Digits outside ASCII are not modelled.
use supernote_task_service.Common.{
  ℕ, zero, suc, ◌+◌, ◌-◌, ◌*◌, ◌/◌, ◌%◌, ◌<◌, ◌≡◌, refl, Bool, true, false, ◌&&◌, ◌||◌, Option,
  none, some, [], ◌∷◌, ◌++◌, arith, Text, ltb, leb, ◌==◌, if◌then◌else◌, length, length-append, All,
  All-append, Bool-cases, inl, inr, ◌>>=◌,
}
use supernote_task_service.Common.Int.{ℤ, pos, sub_ℕ}
use mathlib.Core.List.{reverse, reverse-cons, reverse-reverse}

unfoldable pub decimal_fuel : ℕ → ℕ → Text
decimal_fuel zero n = []
decimal_fuel (suc f) n =
    let rest = decimal_fuel f (n / 10) in
    if ltb n 10 then (b'0' + n) ∷ [] else rest ++ (b'0' + n % 10) ∷ []

-- `str(n)`; a number has at most as many digits as it counts, and one more.
unfoldable pub decimal : ℕ → Text
unfolding decimal_fuel
decimal n = decimal_fuel (suc n) n

-- what `str.isspace` holds of
unfoldable pub is_space : ℕ → Bool
is_space c =
    (leb 9 c && leb c 13)
    || (leb 28 c && leb c 32)
    || c == 0x85
    || c == 0xA0
    || c == 0x1680
    || (leb 0x2000 c && leb c 0x200A)
    || c == 0x2028
    || c == 0x2029
    || c == 0x202F
    || c == 0x205F
    || c == 0x3000

unfoldable pub lstrip : Text → Text
lstrip [] = []
lstrip (c ∷ cs) = if is_space c then lstrip cs else c ∷ cs

unfoldable pub strip : Text → Text
unfolding lstrip
strip t = reverse (lstrip (reverse (lstrip t)))

abbrev is_digit : ℕ → Bool
is_digit c = leb b'0' c && leb c b'9'

-- The digits of `int(s)`, with single underscores between them; the flag says that the last letter
-- was a digit.
unfoldable pub digits_from : ℕ → Bool → Text → Option ℕ
digits_from acc ended [] = if ended then some acc else none
digits_from acc ended (c ∷ cs) =
    let digit = digits_from (acc * 10 + (c - b'0')) true cs in
    let gap = digits_from acc false cs in
    if is_digit c then digit else if c == b'_' && ended then gap else none

unfoldable pub parse_int : Text → Option ℤ
unfolding digits_from
parse_int [] = none
parse_int (c ∷ cs) =
    if c == b'-'
    then (digits_from 0 false cs >>= λ n. some (sub_ℕ 0 n))
    else if c == b'+'
    then (digits_from 0 false cs >>= λ n. some (pos n))
    else digits_from 0 false (c ∷ cs) >>= λ n. some (pos n)

abbrev AllDigit : Text → Type 0
AllDigit t = All (λ c. is_digit c ≡ true) t

decimal_fuel-AllDigit : (f n : ℕ) → AllDigit (decimal_fuel f n)
unfolding decimal_fuel
decimal_fuel-AllDigit zero n = tt
decimal_fuel-AllDigit (suc f) n = elim (Bool-cases (ltb n 10)) [
  | inl small ↦ rw small (ground arith, tt)
  | inr large ↦ rw large (
      All-append (λ c. is_digit c ≡ true) (decimal_fuel f (n / 10)) ((b'0' + n % 10) ∷ [])
        (decimal_fuel-AllDigit f (n / 10)) (ground arith, tt))
]

digits_from-append :
    (acc : ℕ) (ended : Bool) (s t : Text)
    → AllDigit s
    → 0 < length s
    → digits_from acc ended (s ++ t) ≡ (digits_from acc ended s >>= λ n. digits_from n true t)
unfolding digits_from
digits_from-append acc ended [] t h k = absurd (omega arith)
digits_from-append acc ended (c ∷ []) t h k = ground arith
digits_from-append acc ended (c ∷ d ∷ ds) t h k =
    ground (arith, digits_from-append (acc * 10 + (c - b'0')) true (d ∷ ds) t h.1)

length-decimal_fuel : (f n : ℕ) → 0 < f → 0 < length (decimal_fuel f n)
unfolding decimal_fuel
length-decimal_fuel zero n h = absurd (omega arith)
length-decimal_fuel (suc f) n h =
    ground (arith, length-append (decimal_fuel f (n / 10)) ((b'0' + n % 10) ∷ []))

digits-decimal_fuel : (f n : ℕ) → n < f → digits_from 0 false (decimal_fuel f n) ≡ some n
unfolding decimal_fuel digits_from
digits-decimal_fuel zero n h = absurd (omega arith)
digits-decimal_fuel (suc f) n h = ground (
  arith,
  digits-decimal_fuel f (n / 10),
  length-decimal_fuel f (n / 10),
  digits_from-append 0 false (decimal_fuel f (n / 10)) ((b'0' + n % 10) ∷ [])
      (decimal_fuel-AllDigit f (n / 10)),
)

lstrip-digits : (t : Text) → AllDigit t → lstrip t ≡ t
unfolding lstrip is_space
lstrip-digits [] h = refl
lstrip-digits (c ∷ cs) h = ground arith

reverse-AllDigit : (t : Text) → AllDigit t → AllDigit (reverse t)
reverse-AllDigit [] h = tt
reverse-AllDigit (c ∷ cs) h =
    rw (reverse-cons c cs) (
      All-append (λ d. is_digit d ≡ true) (reverse cs) (c ∷ []) (reverse-AllDigit cs h.1) (h.0, tt))

strip-digits : (t : Text) → AllDigit t → strip t ≡ t
unfolding strip
strip-digits t h =
    rw (lstrip-digits t h, lstrip-digits (reverse t) (reverse-AllDigit t h)) (reverse-reverse t)

-- Nothing is stripped from a printed number.
pub strip-decimal : (n : ℕ) → strip (decimal n) ≡ decimal n
unfolding decimal
strip-decimal n = strip-digits (decimal_fuel (suc n) n) (decimal_fuel-AllDigit (suc n) n)

parse_int-digits :
    (t : Text) {n : ℕ} → AllDigit t → digits_from 0 false t ≡ some n → parse_int t ≡ some (pos n)
unfolding parse_int digits_from
parse_int-digits [] h e = cc
parse_int-digits (c ∷ cs) h e = ground arith

-- A printed number is read back.
pub parse_int-decimal : (n : ℕ) → parse_int (decimal n) ≡ some (pos n)
unfolding decimal
parse_int-decimal n =
    parse_int-digits (decimal_fuel (suc n) n) (decimal_fuel-AllDigit (suc n) n)
      (digits-decimal_fuel (suc n) n (omega arith))

pub length-decimal : (n : ℕ) → 0 < length (decimal n)
unfolding decimal
length-decimal n = length-decimal_fuel (suc n) n (omega arith)
