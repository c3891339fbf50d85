-- ===== src/Chain/Fetched.antt =====
-- When `_get_content` of ccnlriot/main.c succeeds, and what it costs.
use miniature_dangerzone.Common.{
  sym, ==_iff, ℕ, zero, suc, ◌+◌, ◌*◌, ◌≤◌, ◌<◌, ◌≡◌, refl, Bool, true, ◌==◌, arith, Bool-cases,
  inl, inr, ◌↔◌,
}
use mathlib.Core.Path.{subst}
use miniature_dangerzone.Chain.{int_retries, chunk_numbers, tries, chunks_from, get_content}

-- One of the tries from `cnt` on is answered.
abbrev pub Answered : (ℕ → Bool) → ℕ → ℕ → Type 0
Answered answered left cnt = (k : ℕ) × (cnt ≤ k) × (k < cnt + left) × (answered k ≡ true)

tries-Answered :
    (answered : ℕ → Bool) (left cnt : ℕ)
    → (tries answered left cnt).0 ≡ true
    → Answered answered left cnt
unfolding tries
tries-Answered answered zero cnt h = ground arith
tries-Answered answered (suc left) cnt h = elim (Bool-cases (answered cnt)) [
  | inl now ↦ (cnt, omega arith, omega arith, now)
  | inr later ↦
      let (k, lo, hi, come) = tries-Answered answered left (suc cnt) (ground (arith, h, later)) in
      (k, omega (arith, lo), omega (arith, hi), come)
]

Answered-tries :
    (answered : ℕ → Bool) (left cnt k : ℕ)
    → cnt ≤ k
    → k < cnt + left
    → answered k ≡ true
    → (tries answered left cnt).0 ≡ true
unfolding tries
Answered-tries answered zero cnt k lo hi come = ground arith
Answered-tries answered (suc left) cnt k lo hi come = elim (Bool-cases (answered cnt)) [
  | inl now ↦ ground (arith, now)
  | inr later ↦
      let next : suc cnt ≤ k = elim (Bool-cases (cnt == k)) [
        | inl same ↦ grind (arith, later, come)
        | inr other ↦ ground (arith, lo, other)
      ] in
      rw later (Answered-tries answered left (suc cnt) k next (omega (arith, hi)) come)
]

tries_few : (answered : ℕ → Bool) (left cnt : ℕ) → (tries answered left cnt).1 ≤ left
unfolding tries
tries_few answered zero cnt = omega arith
tries_few answered (suc left) cnt = ground (arith, tries_few answered left (suc cnt))

-- Each chunk from `i` on is answered at one of its tries.
abbrev pub AllAnswered : (ℕ → ℕ → Bool) → ℕ → ℕ → Type 0
AllAnswered answered left i = (c : ℕ) → i ≤ c → c < i + left → Answered (answered c) int_retries 0

chunks_few :
    (answered : ℕ → ℕ → Bool) (left i : ℕ)
    → ((chunks_from answered left i).0 ≤ left)
      × ((chunks_from answered left i).1 ≤ left * int_retries)
unfolding chunks_from
chunks_few answered zero i = (omega arith, omega arith)
chunks_few answered (suc left) i =
    let (successes, sent) = chunks_few answered left (suc i) in
    let here = tries_few (answered i) int_retries 0 in
    (ground (arith, successes), omega (arith, sent, here))

counted-AllAnswered :
    (answered : ℕ → ℕ → Bool) (left i : ℕ)
    → (chunks_from answered left i).0 ≡ left
    → AllAnswered answered left i
unfolding chunks_from
counted-AllAnswered answered zero i h c lo hi = ground (arith, lo, hi)
counted-AllAnswered answered (suc left) i h c lo hi =
    let (few, _) = chunks_few answered left (suc i) in
    elim (Bool-cases (c == i)) [
      | inl same ↦
          let at : c ≡ i = ground (arith, same) in
          subst (λ n. Answered (answered n) int_retries 0) (sym at)
            (tries-Answered (answered i) int_retries 0 (ground (arith, h, few)))
      | inr other ↦
          counted-AllAnswered answered left (suc i) (ground (arith, h, few)) c
            (ground (arith, lo, other)) (omega (arith, hi))
    ]

AllAnswered-counted :
    (answered : ℕ → ℕ → Bool) (left i : ℕ)
    → AllAnswered answered left i
    → (chunks_from answered left i).0 ≡ left
unfolding chunks_from
AllAnswered-counted answered zero i h = refl
AllAnswered-counted answered (suc left) i h =
    let (k, lo, hi, come) = h i (omega arith) (omega arith) in
    let here = Answered-tries (answered i) int_retries 0 k lo hi come in
    let rest =
      AllAnswered-counted answered left (suc i)
        (λ c below above. h c (omega (arith, below)) (omega (arith, above))) in
    rw here (omega (arith, rest))

-- `_get_content` reports success exactly if, for each of the ten chunks, a chunk comes for one of its
-- first ten interests, and it sends at most a hundred interests.
pub get_content_lem :
    (answered : ℕ → ℕ → Bool)
    → ((get_content answered).0 ≡ true ↔ AllAnswered answered chunk_numbers 0)
      × ((get_content answered).1 ≤ 100)
unfolding get_content
get_content_lem answered =
    let counted = ==_iff (chunks_from answered chunk_numbers 0).0 chunk_numbers in
    (
      (
        λ h. counted-AllAnswered answered chunk_numbers 0 (counted.0 h),
        λ all. counted.1 (AllAnswered-counted answered chunk_numbers 0 all),
      ),
      (chunks_few answered chunk_numbers 0).1,
    )
