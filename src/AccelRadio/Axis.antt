-- ===== src/AccelRadio/Axis.antt =====
-- At rest no more than one axis is over the threshold.
use miniature_dangerzone.Common.{
  ℕ, ◌+◌, ◌*◌, ◌≤◌, ◌<◌, ◌≡◌, refl, ap, sym, ◌∙◌, true, false, Option, none, some, ℤ, arith, ltb,
  Bool-cases, inl, inr, ◌&&◌, ltb, if◌then◌else◌,
}
use miniature_dangerzone.AccelRadio.{
  Reading, Sensor, exceeds, at_rest, turn_to, see_axis, see_axes, size, square_sum, math_modulus,
}

-- What `sqrtf` is for, on the sums that a `float` holds exactly, and that it does not make a small number
-- of a large one.
abbrev pub Roots : (ℕ → ℕ) → Type 0
Roots root =
    (n : ℕ)
    → (n < 1048576 → (root n * root n ≤ n) × (n < (root n + 1) * (root n + 1)))
      × (1048576 ≤ n → 275 ≤ root n)

-- The first axis over the threshold.
abbrev pub axis_over : Reading → Option ℕ
axis_over r =
    if exceeds r.acc_x
    then some 0
    else if exceeds r.acc_y
    then some 1
    else if exceeds r.acc_z
    then some 2
    else none

-- The axis that `check_state` turns to.
abbrev pub axis : ℕ → Reading → Option ℕ
axis norm r = if at_rest norm then axis_over r else none

abbrev pub turn_if : Option ℕ → Sensor → Sensor
turn_if none s = s
turn_if (some i) s = turn_to i s

square_big : (n : ℕ) → 231 ≤ n → 53361 ≤ n * n
square_big n h = grind arith

square_small : (n : ℕ) → n < 275 → (n + 1) * (n + 1) ≤ 75625
square_small n h = grind arith

over : (a : ℤ) → exceeds a ≡ true → 53361 ≤ size a * size a
over a h = square_big (size a) (ground (arith, h))

not_both : (a b : ℤ) → size a * size a + size b * size b < 75625 → (exceeds a && exceeds b) ≡ false
not_both a b few = elim (Bool-cases (exceeds a)) [
  | inr under ↦ rw under
  | inl high ↦ elim (Bool-cases (exceeds b)) [
    | inr under ↦ rw (high, under)
    | inl also ↦ absurd (omega (arith, over a high, over b also))
  ]
]

by_cases :
    (r : Reading) (s : Sensor)
    → (exceeds r.acc_x && exceeds r.acc_y) ≡ false
    → (exceeds r.acc_x && exceeds r.acc_z) ≡ false
    → (exceeds r.acc_y && exceeds r.acc_z) ≡ false
    → see_axis 2 r.acc_z (see_axis 1 r.acc_y (see_axis 0 r.acc_x s)) ≡ turn_if (axis_over r) s
unfolding see_axis
by_cases r s xy xz yz = elim (Bool-cases (exceeds r.acc_x)) [
  | inl x ↦
      let y : exceeds r.acc_y ≡ false = ap (λ b. b && exceeds r.acc_y) (sym x) ∙ xy in
      let z : exceeds r.acc_z ≡ false = ap (λ b. b && exceeds r.acc_z) (sym x) ∙ xz in
      rw (x, y, z) refl
  | inr nx ↦ elim (Bool-cases (exceeds r.acc_y)) [
    | inl y ↦
        let z : exceeds r.acc_z ≡ false = ap (λ b. b && exceeds r.acc_z) (sym y) ∙ yz in
        rw (nx, y, z) refl
    | inr ny ↦ elim (Bool-cases (exceeds r.acc_z)) [
      | inl z ↦ rw (nx, ny, z) refl
      | inr nz ↦ rw (nx, ny, nz) refl
    ]
  ]
]

module _ (root : ℕ → ℕ) (roots : Roots root) where
  -- A small norm has a small sum.
  bounded : (n : ℕ) → root n < 275 → n < 75625
  bounded n small = elim (Bool-cases (ltb n 1048576)) [
    | inl exact ↦
        omega (arith, square_small (root n) small, ((roots n).0 (ground (arith, exact))).1)
    | inr large ↦ absurd (omega (arith, small, (roots n).1 (ground (arith, large))))
  ]

  -- The axes that are over the threshold, one by one: not two of them.
  alone :
      (r : Reading)
      → at_rest (math_modulus root r) ≡ true
      → ((exceeds r.acc_x && exceeds r.acc_y) ≡ false)
        × ((exceeds r.acc_x && exceeds r.acc_z) ≡ false)
        × ((exceeds r.acc_y && exceeds r.acc_z) ≡ false)
  unfolding math_modulus
  alone r rest =
      let bound = bounded (square_sum r) (ground (arith, rest)) in
      (
        not_both r.acc_x r.acc_y (omega (arith, bound)),
        not_both r.acc_x r.acc_z (omega (arith, bound)),
        not_both r.acc_y r.acc_z (omega (arith, bound)),
      )

  -- So `check_state` turns to one axis at most.
  pub see_axes-axis :
      (r : Reading) (s : Sensor)
      → see_axes (math_modulus root r) r s ≡ turn_if (axis (math_modulus root r) r) s
  unfolding see_axes see_axis
  see_axes-axis r s = elim (Bool-cases (at_rest (math_modulus root r))) [
    | inr moves ↦ rw moves
    | inl rest ↦ let (xy, xz, yz) = alone r rest in rw rest (by_cases r s xy xz yz)
  ]
