-- ===== src/Text.antt =====
-- The text functions of the C library that the applications call: `snprintf` with the format "%08X",
-- `strtol` in base 16, and `strtol` in base 10, which is `atoi`, over bytes as numbers. `long` has 32 bits on every board
-- of ccnl_caching/Makefile.
pub mod Hex
pub mod Buffer
use miniature_dangerzone.Common.{
  ℕ, ◌+◌, ◌-◌, ◌*◌, ◌/◌, ◌%◌, ◌^◌, Bool, ◌&&◌, ◌||◌, Option, none, some, List, [], ◌∷◌, ℤ, pos,
  negsuc, leb, ltb, ◌==◌, if◌then◌else◌,
}

-- One upper-case hexadecimal digit.
unfoldable pub hex_digit : ℕ → ℕ
hex_digit d = if ltb d 10 then b'0' + d else b'A' + (d - 10)

-- What "%08X" prints of a 32-bit value.
unfoldable pub hex8 : ℕ → List ℕ
hex8 x =
    hex_digit (x / 16 ^ 7 % 16)
    ∷ hex_digit (x / 16 ^ 6 % 16)
    ∷ hex_digit (x / 16 ^ 5 % 16)
    ∷ hex_digit (x / 16 ^ 4 % 16)
    ∷ hex_digit (x / 16 ^ 3 % 16)
    ∷ hex_digit (x / 16 ^ 2 % 16)
    ∷ hex_digit (x / 16 % 16)
    ∷ hex_digit (x % 16)
    ∷ []

-- The value of a hexadecimal digit of either case.
unfoldable pub digit_value : ℕ → Option ℕ
digit_value c =
    if leb b'0' c && leb c b'9'
    then some (c - b'0')
    else if leb b'a' c && leb c b'f'
    then some (c - b'a' + 10)
    else if leb b'A' c && leb c b'F'
    then some (c - b'A' + 10)
    else none

unfoldable pub is_space : ℕ → Bool
is_space c = c == 32 || (leb 9 c && leb c 13)

unfoldable pub skip_space : List ℕ → List ℕ
skip_space [] = []
skip_space (c ∷ s) = if is_space c then skip_space s else c ∷ s

-- Digits are read up to the first byte that is none.
unfoldable pub digits : ℕ → List ℕ → ℕ
digits acc [] = acc
digits acc (c ∷ s) = elim (digit_value c) [ none ↦ acc | some d ↦ digits (16 * acc + d) s ]

-- An "0x" in front of a digit is passed over.
unfoldable pub skip_0x : List ℕ → List ℕ
skip_0x (a ∷ b ∷ c ∷ s) =
    if a == b'0' && (b == b'x' || b == b'X')
    then elim (digit_value c) [ none ↦ a ∷ b ∷ c ∷ s | some _ ↦ c ∷ s ]
    else a ∷ b ∷ c ∷ s
skip_0x s = s

abbrev pub long_max : ℕ
long_max = 2147483647

-- The result is clamped to the range of `long`.
unfoldable pub to_long : ℕ → ℤ
to_long n = if ltb long_max n then pos long_max else pos n

unfoldable pub to_neg_long : ℕ → ℤ
to_neg_long n = if n == 0 then pos 0 else if ltb long_max n then negsuc long_max else negsuc (n - 1)

unfoldable pub signed : List ℕ → ℤ
signed [] = pos 0
signed (c ∷ s) =
    if c == b'-'
    then to_neg_long (digits 0 (skip_0x s))
    else if c == b'+'
    then to_long (digits 0 (skip_0x s))
    else to_long (digits 0 (skip_0x (c ∷ s)))

-- strtol(s, NULL, 16)
unfoldable pub strtol16 : List ℕ → ℤ
strtol16 s = signed (skip_space s)

unfoldable pub decimal_value : ℕ → Option ℕ
decimal_value c = if leb b'0' c && leb c b'9' then some (c - b'0') else none

unfoldable pub decimals : ℕ → List ℕ → ℕ
decimals acc [] = acc
decimals acc (c ∷ s) = elim (decimal_value c) [ none ↦ acc | some d ↦ decimals (10 * acc + d) s ]

unfoldable pub signed10 : List ℕ → ℤ
signed10 [] = pos 0
signed10 (c ∷ s) =
    if c == b'-'
    then to_neg_long (decimals 0 s)
    else if c == b'+'
    then to_long (decimals 0 s)
    else to_long (decimals 0 (c ∷ s))

-- strtol(s, NULL, 10)
unfoldable pub strtol10 : List ℕ → ℤ
strtol10 s = signed10 (skip_space s)
