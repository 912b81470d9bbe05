-- ===== src/Ip/Addr/Text.antt =====
-- The text form of an address (`pk_ip_addr2str` of src/lib/ip.c) can be read back: `netlog` finds its
-- clients by that text.
use mathlib.Core.List.{append-nil}
use native.Mathlib.Nat.{pow-suc}
use vedruino.Base.{
  ℕ, zero, suc, ◌+◌, ◌-◌, ◌*◌, ◌/◌, ◌%◌, ◌^◌, ◌≤◌, ◌<◌, ◌≡◌, refl, ◌∙◌, sym, ap, ◌&&◌, Bool, false,
  Option, none, some, List, [], ◌∷◌, ◌++◌, arith, ltb, leb, ◌==◌, ==_iff, if◌then◌else◌, Bool-cases,
  length, length-append, take_of_le, inl, inr,
}
use vedruino.Ip.Addr.{
  IpAddr, IsAddr, addr_byte, ip_addr_str_len, decimal_loop, decimal, format_addr, pk_ip_addr2str,
}

abbrev is_digit : ℕ → Bool
is_digit c = leb b'0' c && leb c b'9'

-- An independent reader: a number in decimal, up to the first character that is no digit.
scan : ℕ → List ℕ → ℕ × List ℕ
scan acc [] = (acc, [])
scan acc (c ∷ s) = if is_digit c then scan (acc * 10 + (c - b'0')) s else (acc, c ∷ s)

-- What stands behind a number must be the separator; the number and the rest are handed on.
after_number : {A : Type 0} → ℕ → (ℕ → List ℕ → Option A) → ℕ × List ℕ → Option A
after_number sep k (n, []) = none
after_number sep k (n, c ∷ rest) = if c == sep then k n rest else none

field : {A : Type 0} → ℕ → (ℕ → List ℕ → Option A) → List ℕ → Option A
field sep k s = after_number sep k (scan 0 s)

-- The number at the end of the text.
at_end : {A : Type 0} → (ℕ → Option A) → ℕ × List ℕ → Option A
at_end k (n, []) = k n
at_end k (n, c ∷ rest) = none

last_field : {A : Type 0} → (ℕ → Option A) → List ℕ → Option A
last_field k s = at_end k (scan 0 s)

abbrev of_fields : ℕ → ℕ → ℕ → ℕ → ℕ → Option IpAddr
of_fields a b c d port =
    some (record { addr = a * 2 ^ 24 + b * 2 ^ 16 + c * 2 ^ 8 + d; port = port })

-- The reader of `a.b.c.d:port`.
pub read_addr : List ℕ → Option IpAddr
unfolding field last_field
read_addr =
    field b'.' λ a. field b'.' λ b. field b'.' λ c. field b':' λ d. last_field (of_fields a b c d)

decimal_loop-append :
    (f n : ℕ) (out tail : List ℕ) → decimal_loop f n out ++ tail ≡ decimal_loop f n (out ++ tail)
unfolding decimal_loop
decimal_loop-append zero n out tail = refl
decimal_loop-append (suc f) n out tail =
    ground (arith, decimal_loop-append f (n / 10) ((b'0' + n % 10) ∷ out) tail)

scan-decimal_loop : (f n : ℕ) (out : List ℕ) → n < f → scan 0 (decimal_loop f n out) ≡ scan n out
unfolding decimal_loop scan
scan-decimal_loop zero n out h = absurd (omega arith)
scan-decimal_loop (suc f) n out h = elim (Bool-cases (ltb n 10)) [
  | inl small ↦ ground arith
  | inr large ↦ ground (arith, scan-decimal_loop f (n / 10) ((b'0' + n % 10) ∷ out))
]

scan-decimal : (n : ℕ) (tail : List ℕ) → scan 0 (decimal n ++ tail) ≡ scan n tail
unfolding decimal
scan-decimal n tail =
    rw (decimal_loop-append (suc n) n [] tail) (scan-decimal_loop (suc n) n tail (omega arith))

scan-decimal_sep :
    (n sep : ℕ) (rest : List ℕ)
    → is_digit sep ≡ false
    → scan 0 (decimal n ++ sep ∷ rest) ≡ (n, sep ∷ rest)
unfolding scan
scan-decimal_sep n sep rest h = rw (scan-decimal n (sep ∷ rest), scan, h)

field-decimal :
    {A : Type 0} (sep : ℕ) (k : ℕ → List ℕ → Option A) (n : ℕ) (rest : List ℕ)
    → is_digit sep ≡ false
    → field sep k (decimal n ++ sep ∷ rest) ≡ k n rest
unfolding field after_number
field-decimal sep k n rest h =
    rw (scan-decimal_sep n sep rest h) (rw ((==_iff sep sep).1 refl) refl)

last_field-decimal : {A : Type 0} (k : ℕ → Option A) (n : ℕ) → last_field k (decimal n) ≡ k n
unfolding last_field at_end scan
last_field-decimal k n =
    let e : scan 0 (decimal n) ≡ (n, []) = rw (← append-nil (decimal n)) (scan-decimal n []) in rw e

-- The text of an address in range, before it is cut, gives the address back.
read_addr-format_addr : (a : IpAddr) → IsAddr a → read_addr (format_addr a) ≡ some a
unfolding read_addr format_addr
read_addr-format_addr a h = simp (field-decimal, last_field-decimal) (ground arith)

length-decimal_loop :
    (f n k : ℕ) (out : List ℕ) → n < 10 ^ suc k → length (decimal_loop f n out) ≤ suc k + length out
unfolding decimal_loop
length-decimal_loop zero n k out h = omega arith
length-decimal_loop (suc f) n zero out h = ground arith
length-decimal_loop (suc f) n (suc k) out h =
    ground (arith, pow-suc 10 (suc k), length-decimal_loop f (n / 10) k ((b'0' + n % 10) ∷ out))

length-decimal : (n k : ℕ) → n < 10 ^ suc k → length (decimal n) ≤ suc k
unfolding decimal
length-decimal n k h = omega (arith, length-decimal_loop (suc n) n k [] h)

-- Four numbers of at most three digits, one of at most five, and four separators.
length-format_addr : (a : IpAddr) → IsAddr a → length (format_addr a) ≤ 21
unfolding format_addr
length-format_addr a h = simp length-append (
    omega (
      arith,
      length-decimal (addr_byte a.addr 24) 2 (omega arith),
      length-decimal (addr_byte a.addr 16) 2 (omega arith),
      length-decimal (addr_byte a.addr 8) 2 (omega arith),
      length-decimal (addr_byte a.addr 0) 2 (omega arith),
      length-decimal a.port 4 (omega arith),
    ))

-- The buffer of PK_IP_ADDR_STR_LEN bytes holds the text of every address in range uncut.
pk_ip_addr2str-format_addr : (a : IpAddr) → IsAddr a → pk_ip_addr2str a ≡ format_addr a
unfolding pk_ip_addr2str
pk_ip_addr2str-format_addr a h =
    take_of_le (ip_addr_str_len - 1) (format_addr a) (omega (arith, length-format_addr a h))

-- The text that `pk_ip_addr2str` leaves in its buffer of PK_IP_ADDR_STR_LEN bytes, for an address and
-- port in range, is at most 21 characters long, and a reader of `a.b.c.d:port` gets the address and
-- the port back from it.
pub read_addr-pk_ip_addr2str :
    (a : IpAddr)
    → IsAddr a
    → (length (pk_ip_addr2str a) ≤ 21) × (read_addr (pk_ip_addr2str a) ≡ some a)
read_addr-pk_ip_addr2str a h =
    rw (pk_ip_addr2str-format_addr a h) (length-format_addr a h, read_addr-format_addr a h)

-- Two addresses in range with one text are one address.
pub pk_ip_addr2str-injective :
    (a b : IpAddr) → IsAddr a → IsAddr b → pk_ip_addr2str a ≡ pk_ip_addr2str b → a ≡ b
pk_ip_addr2str-injective a b ha hb e =
    let same : some a ≡ some b =
      sym (read_addr-pk_ip_addr2str a ha).1 ∙ ap read_addr e ∙ (read_addr-pk_ip_addr2str b hb).1 in
    cc
