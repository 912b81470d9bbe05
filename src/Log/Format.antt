-- ===== src/Log/Format.antt =====
-- `%08x` of the C library, as src/lib/log.c uses it, and an independent reader of such a text.
use vedruino.Base.{
  ℕ, ◌+◌, ◌-◌, ◌*◌, ◌/◌, ◌%◌, ◌^◌, ◌<◌, ◌≡◌, List, [], ◌∷◌, arith, leb, if◌then◌else◌,
}

pub hex_digit : ℕ → ℕ
hex_digit n = if leb n 9 then b'0' + n else b'a' + n - 10

-- Eight digits of a number of 32 bits, the high one first.
abbrev pub hex8 : ℕ → List ℕ
hex8 n =
    hex_digit (n / 16 / 16 / 16 / 16 / 16 / 16 / 16 % 16)
    ∷ hex_digit (n / 16 / 16 / 16 / 16 / 16 / 16 % 16)
    ∷ hex_digit (n / 16 / 16 / 16 / 16 / 16 % 16)
    ∷ hex_digit (n / 16 / 16 / 16 / 16 % 16)
    ∷ hex_digit (n / 16 / 16 / 16 % 16)
    ∷ hex_digit (n / 16 / 16 % 16)
    ∷ hex_digit (n / 16 % 16)
    ∷ hex_digit (n % 16)
    ∷ []

pub digit_value : ℕ → ℕ
digit_value c = if leb c b'9' then c - b'0' else c - b'a' + 10

-- The value of the digits behind those that gave `acc`.
abbrev pub read_digits : (acc : ℕ) → List ℕ → ℕ
read_digits acc [] = acc
read_digits acc (c ∷ cs) = read_digits (acc * 16 + digit_value c) cs

digit_value-hex_digit : (n : ℕ) → digit_value (hex_digit (n % 16)) ≡ n % 16
unfolding digit_value hex_digit
digit_value-hex_digit n = ground arith

pub read_digits-hex8 : (n : ℕ) → n < 2 ^ 32 → read_digits 0 (hex8 n) ≡ n
read_digits-hex8 n lt =
    rw
      (
        digit_value-hex_digit (n / 16 / 16 / 16 / 16 / 16 / 16 / 16),
        digit_value-hex_digit (n / 16 / 16 / 16 / 16 / 16 / 16),
        digit_value-hex_digit (n / 16 / 16 / 16 / 16 / 16),
        digit_value-hex_digit (n / 16 / 16 / 16 / 16),
        digit_value-hex_digit (n / 16 / 16 / 16),
        digit_value-hex_digit (n / 16 / 16),
        digit_value-hex_digit (n / 16),
        digit_value-hex_digit n,
      )
      (omega arith)
