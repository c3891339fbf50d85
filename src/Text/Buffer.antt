-- ===== src/Text/Buffer.antt =====
-- Strings in buffers: `strncpy` with the length of the string, and reading up to the first NUL.
use miniature_dangerzone.Common.{
  ℕ, zero, suc, ◌+◌, ◌-◌, take, ◌≤◌, ◌≡◌, refl, false, List, [], ◌∷◌, ◌++◌, arith, All, ◌==◌,
  if◌then◌else◌, length, ap, ◌∙◌, sym,
}

unfoldable pub drop : ℕ → List ℕ → List ℕ
drop zero xs = xs
drop (suc n) [] = []
drop (suc n) (x ∷ xs) = drop n xs

-- strncpy(buf, s, strlen(s)): the bytes of `s` without a NUL, where the buffer is long enough
unfoldable pub overwrite : List ℕ → List ℕ → List ℕ
unfolding drop
overwrite s buf = s ++ drop (length s) buf

-- The string that a buffer holds: the bytes before the first NUL.
unfoldable pub c_string : List ℕ → List ℕ
c_string [] = []
c_string (c ∷ buf) = if c == 0 then [] else c ∷ c_string buf

-- No byte is NUL.
abbrev pub NoNul : List ℕ → Type 0
NoNul = All (λ c. (c == 0) ≡ false)

pub c_string-app : (s buf : List ℕ) → NoNul s → c_string (s ++ buf) ≡ s ++ c_string buf
unfolding c_string
c_string-app [] buf h = refl
c_string-app (c ∷ s) buf h = rw h.0 (ap (◌∷◌ c) (c_string-app s buf h.1))

pub c_string-drop :
    (n : ℕ) (old rest : List ℕ)
    → NoNul old
    → n ≤ length old
    → c_string (drop n (old ++ 0 ∷ rest)) ≡ drop n old
unfolding c_string drop
c_string-drop zero [] rest h le = refl
c_string-drop zero (c ∷ old) rest h le =
    rw h.0 (ap (◌∷◌ c) (c_string-drop zero old rest h.1 (omega arith)))
c_string-drop (suc n) [] rest h le = ground arith
c_string-drop (suc n) (c ∷ old) rest h le = c_string-drop n old rest h.1 (ground (arith, le))

drop-nil : (n : ℕ) → drop n [] ≡ []
unfolding drop
drop-nil zero = refl
drop-nil (suc n) = refl

pub drop-drop : (a b : ℕ) (xs : List ℕ) → drop a (drop b xs) ≡ drop (b + a) xs
unfolding drop
drop-drop a zero xs = ap (λ n. drop n xs) (omega arith)
drop-drop a (suc b) [] = drop-nil a ∙ sym (drop-nil (suc b + a))
drop-drop a (suc b) (x ∷ xs) =
    let next : suc (b + a) ≡ suc b + a = omega arith in
    drop-drop a b xs ∙ ap (λ n. drop n (x ∷ xs)) next

pub drop-take : (k : ℕ) (xs ys : List ℕ) → k ≤ length xs → drop k (take k xs ++ ys) ≡ ys
unfolding drop
drop-take zero xs ys le = refl
drop-take (suc k) [] ys le = ground arith
drop-take (suc k) (x ∷ xs) ys le = drop-take k xs ys (omega arith)

pub length-app : (xs ys : List ℕ) → length (xs ++ ys) ≡ length xs + length ys
length-app [] ys = omega arith
length-app (x ∷ xs) ys = ground (arith, length-app xs ys)

pub length-drop : (k : ℕ) (xs : List ℕ) → length (drop k xs) ≡ length xs - k
unfolding drop
length-drop zero xs = omega arith
length-drop (suc k) [] = omega arith
length-drop (suc k) (x ∷ xs) = ground (arith, length-drop k xs)

pub length-take : (k : ℕ) (xs : List ℕ) → k ≤ length xs → length (take k xs) ≡ k
length-take zero xs le = refl
length-take (suc k) [] le = ground arith
length-take (suc k) (x ∷ xs) le = ground (arith, length-take k xs (omega arith))
