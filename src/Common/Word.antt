-- ===== src/Common/Word.antt =====
-- Unsigned C arithmetic: what a variable of 32, 16 or 8 bits holds of a value.
use Prim.Native.Nat.{ℕ, ◌+◌, ◌-◌, ◌%◌}

abbrev pub two32 : ℕ
two32 = 4294967296

abbrev pub u32 : ℕ → ℕ
u32 n = n % two32

-- `a - b` on `uint32_t`, for a value `b` of that type.
abbrev pub sub32 : ℕ → ℕ → ℕ
sub32 a b = u32 (a + two32 - b)

abbrev pub u8 : ℕ → ℕ
u8 n = n % 256

-- `a - b` on `uint8_t`, for a value `b` of that type.
abbrev pub sub8 : ℕ → ℕ → ℕ
sub8 a b = u8 (a + 256 - b)

abbrev pub u16 : ℕ → ℕ
u16 n = n % 65536

-- `a - b` on `uint16_t`, for a value `b` of that type.
abbrev pub sub16 : ℕ → ℕ → ℕ
sub16 a b = u16 (a + 65536 - b)
