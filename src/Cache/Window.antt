-- ===== src/Cache/Window.antt =====
-- `_check_in_range` of ccnl_caching/ccnl_helper.c: which sources a node with a manual number caches.
use native.Mathlib.Nat.{div-add-mod, add-mod_right, mod-eq_of_lt}
use miniature_dangerzone.Common.{
  ℕ, ◌+◌, ◌-◌, ◌*◌, ◌/◌, ◌%◌, ◌<◌, ◌≤◌, ◌≡◌, ◌↔◌, Bool, true, arith, u32, sub32, two32, ltb,
  if◌then◌else◌, Bool-cases, inl, inr, zero, suc, ltb→lt, lt→ltb,
}

unfoldable pub check_in_range : ℕ → ℕ → ℕ → ℕ → Bool
check_in_range start val interval max =
    if ltb val start
    then ltb (u32 (sub32 max start + val)) interval
    else ltb (sub32 val start) interval

-- How far it is from `start` up to `val`, on a ring of `max` numbers.
distance : ℕ → ℕ → ℕ → ℕ
distance start val max = if ltb val start then max - start + val else val - start

check-distance :
    (start val interval max : ℕ)
    → start < max
    → val < max
    → max < two32
    → check_in_range start val interval max ≡ ltb (distance start val max) interval
unfolding check_in_range distance
check-distance start val interval max h k small = ground arith

distance-reaches :
    (start val max : ℕ) → start < max → val < max → (start + distance start val max) % max ≡ val
unfolding distance
distance-reaches start val max h k = elim (Bool-cases (ltb val start)) [
  | inl wraps ↦
      let around : start + (max - start + val) ≡ val + max = ground arith in
      rw (wraps, around, add-mod_right) (mod-eq_of_lt k)
  | inr ahead ↦
      let there : start + (val - start) ≡ val = ground arith in rw (ahead, there) (mod-eq_of_lt k)
]

-- No shorter way leads there, whatever number of times it goes round.
distance_least_by :
    (start val max k rounds : ℕ)
    → start < max
    → max * rounds + val ≡ start + k
    → distance start val max ≤ k
unfolding distance
distance_least_by start val max k zero h e = ground arith
distance_least_by start val max k (suc r) h e = ground arith

distance_least :
    (start val max k : ℕ) → start < max → (start + k) % max ≡ val → distance start val max ≤ k
distance_least start val max k h e =
    distance_least_by start val max k ((start + k) / max) h (rw (← e) (div-add-mod (start + k) max))

-- For numbers below `max`, itself a 32-bit number: a source is in range exactly if it is reached
-- from `start` in fewer than `interval` steps on a ring of `max` numbers.
pub check_in_range_iff :
    (start val interval max : ℕ)
    → start < max
    → val < max
    → max < two32
    → (check_in_range start val interval max ≡ true)
      ↔ ((k : ℕ) × (k < interval) × ((start + k) % max ≡ val))
check_in_range_iff start val interval max h hv small =
    let e = check-distance start val interval max h hv small in
    (
      λ t. (distance start val max, ltb→lt _ _ (rw e at t), distance-reaches start val max h hv),
      λ w. rw e (lt→ltb _ _ (omega (arith, w.1, distance_least start val max w.0 h w.2))),
    )
