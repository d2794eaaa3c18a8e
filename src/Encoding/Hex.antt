-- ===== src/Encoding/Hex.antt =====
-- `f"{n:X}"` and `int(s, 16)`. Code points have at most six hexadecimal digits, so the fuel of
-- eight digits is enough for every character.
use supernote_task_service.Common.{
  ℕ, zero, suc, ◌+◌, ◌-◌, ◌*◌, ◌/◌, ◌%◌, ◌<◌, ◌≡◌, refl, Bool, true, ◌&&◌, ◌||◌, [], ◌∷◌, ◌++◌,
  arith, Text, ltb, leb, ltb→lt, Bool-cases, inl, inr, length-append, if◌then◌else◌, length, All,
  All-append,
}

unfoldable pub hex_digit : ℕ → ℕ
hex_digit d = if ltb d 10 then b'0' + d else b'A' + (d - 10)

unfoldable pub hex_fuel : ℕ → ℕ → Text
unfolding hex_digit
hex_fuel zero n = []
hex_fuel (suc f) n =
    if ltb n 16 then hex_digit n ∷ [] else hex_fuel f (n / 16) ++ hex_digit (n % 16) ∷ []

unfoldable pub hex : ℕ → Text
unfolding hex_fuel
hex n = hex_fuel 8 n

-- `[0-9A-Fa-f]`
unfoldable pub is_hex_digit : ℕ → Bool
is_hex_digit c =
    (leb b'0' c && leb c b'9') || (leb b'A' c && leb c b'F') || (leb b'a' c && leb c b'f')

unfoldable pub hex_value : ℕ → ℕ
hex_value c = if leb b'a' c then c - b'a' + 10 else if leb b'A' c then c - b'A' + 10 else c - b'0'

unfoldable pub hex_number_from : ℕ → Text → ℕ
unfolding hex_value
hex_number_from acc [] = acc
hex_number_from acc (c ∷ cs) = hex_number_from (acc * 16 + hex_value c) cs

unfoldable pub hex_number : Text → ℕ
unfolding hex_number_from
hex_number t = hex_number_from 0 t

hex_number_from-append :
    (acc : ℕ) (s t : Text)
    → hex_number_from acc (s ++ t) ≡ hex_number_from (hex_number_from acc s) t
unfolding hex_number_from
hex_number_from-append acc [] t = refl
hex_number_from-append acc (c ∷ cs) t = hex_number_from-append (acc * 16 + hex_value c) cs t

hex_value-hex_digit : (d : ℕ) → d < 16 → hex_value (hex_digit d) ≡ d
unfolding hex_value hex_digit
hex_value-hex_digit d h = ground arith

pub is_hex_digit-hex_digit : (d : ℕ) → d < 16 → is_hex_digit (hex_digit d) ≡ true
unfolding is_hex_digit hex_digit
is_hex_digit-hex_digit d h = ground arith

abbrev pub AllHex : Text → Type 0
AllHex t = All (λ c. is_hex_digit c ≡ true) t

hex_fuel-AllHex : (f n : ℕ) → AllHex (hex_fuel f n)
unfolding hex_fuel
hex_fuel-AllHex zero n = tt
hex_fuel-AllHex (suc f) n = elim (Bool-cases (ltb n 16)) [
  | inl small ↦ rw small (is_hex_digit-hex_digit n (ltb→lt n 16 small), tt)
  | inr large ↦ rw large (
      All-append (λ c. is_hex_digit c ≡ true) (hex_fuel f (n / 16)) (hex_digit (n % 16) ∷ [])
        (hex_fuel-AllHex f (n / 16)) (is_hex_digit-hex_digit (n % 16) (omega arith), tt))
]

pub hex-AllHex : (n : ℕ) → AllHex (hex n)
unfolding hex
hex-AllHex n = hex_fuel-AllHex 8 n

abbrev pow16 : ℕ → ℕ
pow16 zero = 1
pow16 (suc f) = 16 * pow16 f

-- With a bound on the number that falls with the fuel, the digits are the number's.
hex_number-hex_fuel : (f n : ℕ) → n < pow16 f → hex_number (hex_fuel f n) ≡ n
unfolding hex_fuel hex_number
hex_number-hex_fuel zero n h = omega arith
hex_number-hex_fuel (suc f) n h = ground (
  arith,
  hex_number_from-append 0 (hex_fuel f (n / 16)) (hex_digit (n % 16) ∷ []),
  hex_number-hex_fuel f (n / 16),
  hex_value-hex_digit n,
  hex_value-hex_digit (n % 16),
)

-- Reading back what was printed gives the number.
pub hex_number-hex : (n : ℕ) → n < 0x100000000 → hex_number (hex n) ≡ n
unfolding hex
hex_number-hex n h = hex_number-hex_fuel 8 n h

length-hex_fuel : (f n : ℕ) → 0 < length (hex_fuel (suc f) n)
unfolding hex_fuel
length-hex_fuel f n = ground (arith, length-append (hex_fuel f (n / 16)) (hex_digit (n % 16) ∷ []))

pub length-hex : (n : ℕ) → 0 < length (hex n)
unfolding hex
length-hex n = length-hex_fuel 7 n
