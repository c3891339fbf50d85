-- ===== src/Text/Hex.antt =====
-- Printing by "%08X" and reading back by `strtol`.
use miniature_dangerzone.Common.{
  ℕ, ◌+◌, ◌*◌, ◌/◌, ◌%◌, ◌^◌, ◌<◌, ◌≡◌, refl, ap, ◌∙◌, Bool, true, not, ◌&&◌, some, List, [], ◌∷◌,
  arith, ◌==◌, length, ltb, ltb_ℤ,
}
use miniature_dangerzone.Text.{
  hex_digit, hex8, digit_value, is_space, skip_space, digits, skip_0x, to_long, signed, strtol16,
}

-- A printed digit starts no white space, no sign and no "0x".
plain : ℕ → Bool
plain d =
    let c = hex_digit d in
    not (is_space c)
    && (not (c == b'-') && (not (c == b'+') && (not (c == b'x') && not (c == b'X'))))

plain_lem : (d : ℕ) → d < 16 → plain d ≡ true
unfolding plain hex_digit is_space
plain_lem d h = ground arith

pub digit_value-hex_digit : (d : ℕ) → d < 16 → digit_value (hex_digit d) ≡ some d
unfolding digit_value hex_digit
digit_value-hex_digit d h = ground arith

pub length-hex8 : (x : ℕ) → length (hex8 x) ≡ 8
unfolding hex8
length-hex8 x = refl

digits_step :
    (acc d : ℕ) (s : List ℕ) → d < 16 → digits acc (hex_digit d ∷ s) ≡ digits (16 * acc + d) s
unfolding digits
digits_step acc d s h = rw (digit_value-hex_digit d h, digits)

digits-hex8 : (x : ℕ) → x < 2 ^ 32 → digits 0 (hex8 x) ≡ x
unfolding hex8
digits-hex8 x h =
    digits_step 0 (x / 16 ^ 7 % 16) _ (omega arith)
    ∙ digits_step _ (x / 16 ^ 6 % 16) _ (omega arith)
    ∙ digits_step _ (x / 16 ^ 5 % 16) _ (omega arith)
    ∙ digits_step _ (x / 16 ^ 4 % 16) _ (omega arith)
    ∙ digits_step _ (x / 16 ^ 3 % 16) _ (omega arith)
    ∙ digits_step _ (x / 16 ^ 2 % 16) _ (omega arith)
    ∙ digits_step _ (x / 16 % 16) _ (omega arith)
    ∙ digits_step _ (x % 16) [] (omega arith)
    ∙ digits_end x h
  where
    digits_end :
        (x : ℕ)
        → x < 2 ^ 32
        → digits
            (16
                * (16
                      * (16
                            * (16
                                  * (16
                                        * (16 * (16 * (16 * 0 + x / 16 ^ 7 % 16) + x / 16 ^ 6 % 16)
                                            + x / 16 ^ 5 % 16)
                                      + x / 16 ^ 4 % 16)
                                + x / 16 ^ 3 % 16)
                          + x / 16 ^ 2 % 16)
                    + x / 16 % 16)
              + x % 16)
            []
          ≡ x
    digits_end x h = unfold digits in omega arith

-- A printed value is read as it stands by the three steps before the digits.
skip_plain :
    (d e : ℕ) (s : List ℕ)
    → d < 16
    → e < 16
    → signed (skip_space (hex_digit d ∷ hex_digit e ∷ s))
      ≡ to_long (digits 0 (hex_digit d ∷ hex_digit e ∷ s))
unfolding skip_space signed skip_0x plain
skip_plain d e [] h k = ground (arith, plain_lem d h, plain_lem e k)
skip_plain d e (c ∷ s) h k = ground (arith, plain_lem d h, plain_lem e k)

-- For every 32-bit value x, `strtol` in base 16 reads back what "%08X" printed of it: x itself up
-- to 2^31 - 1, and 2^31 - 1 for every greater x.
pub strtol16-hex8 : (x : ℕ) → x < 2 ^ 32 → strtol16 (hex8 x) ≡ to_long x
unfolding strtol16 hex8 to_long
strtol16-hex8 x h =
    skip_plain (x / 16 ^ 7 % 16) (x / 16 ^ 6 % 16) _ (omega arith) (omega arith)
    ∙ ap to_long (digits-hex8 x h)

-- Two time stamps below 2^31 - 1, printed and read back, compare as the numbers that were printed.
pub stamps_ordered :
    (x y : ℕ) → x < 2 ^ 31 → y < 2 ^ 31 → ltb_ℤ (strtol16 (hex8 x)) (strtol16 (hex8 y)) ≡ ltb x y
stamps_ordered x y h k =
    rw (strtol16-hex8 x (omega arith), strtol16-hex8 y (omega arith))
      (unfold to_long in ground arith)
