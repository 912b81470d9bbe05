-- ===== src/Ota/Hex.antt =====
-- `nibble_str` and `md5str` of src/lib/ota.c: the digest in hexadecimal, and how to read it back.
use vedruino.Base.{
  ℕ, ◌+◌, ◌-◌, ◌*◌, ◌/◌, ◌%◌, ◌<◌, ◌≡◌, refl, List, [], ◌∷◌, arith, leb, if◌then◌else◌, length, All,
}

abbrev pub md5_size : ℕ
md5_size = 16

-- `n` is a `uint8_t`.
unfoldable pub nibble_str : ℕ → ℕ
nibble_str n = if leb n 9 then b'0' + n else b'a' + n - 10

-- One byte after the other: `md5[i] & 0x0F` is the low digit and `(md5[i] & 0xF0) >> 4` the high one.
unfoldable pub md5str : List ℕ → List ℕ
unfolding nibble_str
md5str [] = []
md5str (b ∷ bs) = nibble_str (b / 16 % 16) ∷ nibble_str (b % 16) ∷ md5str bs

-- An independent reader of two digits for each byte.
digit_value : ℕ → ℕ
digit_value c = if leb c b'9' then c - b'0' else c - b'a' + 10

pub read_hex : List ℕ → List ℕ
unfolding digit_value
read_hex [] = []
read_hex (h ∷ []) = []
read_hex (h ∷ l ∷ s) = (digit_value h * 16 + digit_value l) ∷ read_hex s

digit_value-nibble_str : (n : ℕ) → n < 16 → digit_value (nibble_str n) ≡ n
unfolding digit_value nibble_str
digit_value-nibble_str n h = ground arith

-- The text that `md5str` makes of a list of bytes has two characters for each byte, and the bytes
-- can be read back from it.
pub read_hex-md5str :
    (bs : List ℕ)
    → All (λ b. b < 256) bs
    → (length (md5str bs) ≡ 2 * length bs) × (read_hex (md5str bs) ≡ bs)
unfolding md5str read_hex
read_hex-md5str [] h = (refl, refl)
read_hex-md5str (b ∷ bs) (lt, h) =
    let (len, back) = read_hex-md5str bs h in
    (
      omega (arith, len),
      ground (
        arith,
        back,
        digit_value-nibble_str (b / 16 % 16) (omega arith),
        digit_value-nibble_str (b % 16) (omega arith),
      ),
    )
