-- ===== src/Cache/Strategy/Scan.antt =====
-- What the scan of the store in `cs_oldest_representative` finds: for each of its four tests, the
-- entry that `oldest_in` describes.
use mathlib.Core.List.{Memᴰ}
use mathlib.Core.Path.{subst}
use miniature_dangerzone.Common.{
  ℕ, ◌+◌, ◌≤◌, ◌≡◌, Bool, true, false, Option, none, some, List, [], ◌∷◌, arith, ltb, ltb_ℤ, eqb_ℤ,
  ◌≤ℤ◌, not, ◌&&◌, ◌∙◌, pos, if◌then◌else◌, count_if, All, Bool-cases, Option-cases, inl, inr,
}
use miniature_dangerzone.Ccn.{Name, compcnt, Content, stamp, Identity, CcnLite}
use miniature_dangerzone.Cache.Strategy.{
  Best, offer, Candidates, scan_step, scan, is_evictable, is_same, is_unflagged, is_unregistered,
}

-- The first of the entries that pass a test and have the least time stamp.
unfoldable pub oldest_in : (Content → Bool) → List Content → Option Content
oldest_in test [] = none
oldest_in test (x ∷ xs) =
    if test x
    then elim (oldest_in test xs) [
      | none ↦ some x
      | some y ↦ if ltb_ℤ (stamp y) (stamp x) then some y else some x
    ]
    else oldest_in test xs

-- An entry that passes a test, and is no younger than any other of a list that passes.
abbrev pub IsLeast : (Content → Bool) → List Content → Content → Type 0
IsLeast test cs v = (test v ≡ true) × All (λ x. test x ≡ true → stamp v ≤ℤ stamp x) cs

All-le_trans :
    (test : Content → Bool) (u v : Content) (xs : List Content)
    → stamp u ≤ℤ stamp v
    → All (λ x. test x ≡ true → stamp v ≤ℤ stamp x) xs
    → All (λ x. test x ≡ true → stamp u ≤ℤ stamp x) xs
All-le_trans test u v [] h a = tt
All-le_trans test u v (x ∷ xs) h a = (λ p. omega (arith, a.0 p), All-le_trans test u v xs h a.1)

All-le_of_fails :
    (test : Content → Bool) (u : Content) (xs : List Content)
    → All (λ x. test x ≡ false) xs
    → All (λ x. test x ≡ true → stamp u ≤ℤ stamp x) xs
All-le_of_fails test u [] a = tt
All-le_of_fails test u (x ∷ xs) a = (λ p. absurd (cc), All-le_of_fails test u xs a.1)

pub oldest_in-none :
    (test : Content → Bool) (cs : List Content)
    → oldest_in test cs ≡ none
    → All (λ x. test x ≡ false) cs
unfolding oldest_in
oldest_in-none test [] h = tt
oldest_in-none test (x ∷ xs) h = (ground arith, oldest_in-none test xs (ground arith))

-- An entry that passes is no older than the one found, and the one found passes.
pub oldest_in-minimal :
    (test : Content → Bool) (cs : List Content) (v : Content)
    → oldest_in test cs ≡ some v
    → IsLeast test cs v
unfolding oldest_in
oldest_in-minimal test [] v h = cc
oldest_in-minimal test (x ∷ xs) v h = elim (Bool-cases (test x)) [
  | inr fails ↦
      let ih = oldest_in-minimal test xs v (ground arith) in (ih.0, (λ p. absurd (cc), ih.1))
  | inl passes ↦ elim (Option-cases (oldest_in test xs)) [
    | inl none_left ↦
        let e : x ≡ v = ground arith in
        subst (IsLeast test (x ∷ xs)) e
          (passes, (λ p. omega arith, All-le_of_fails test x xs (oldest_in-none test xs none_left)))
    | inr (y, found) ↦
        let ih = oldest_in-minimal test xs y found in
        elim (Bool-cases (ltb_ℤ (stamp y) (stamp x))) [
          | inl older ↦
              let e : y ≡ v = ground arith in
              subst (IsLeast test (x ∷ xs)) e (ih.0, (λ p. ground arith, ih.1))
          | inr younger ↦
              let e : x ≡ v = ground arith in
              subst (IsLeast test (x ∷ xs)) e
                (passes, (λ p. omega arith, All-le_trans test x y xs (ground arith) ih.1))
        ]
  ]
]

pub oldest_in-mem :
    (test : Content → Bool) (cs : List Content) (v : Content)
    → oldest_in test cs ≡ some v
    → Memᴰ v cs
unfolding oldest_in
oldest_in-mem test [] v h = cc
oldest_in-mem test (x ∷ xs) v h = elim (Option-cases (oldest_in test xs)) [
  | inl none_left ↦ Memᴰ.head (ground arith)
  | inr (y, found) ↦ elim (Bool-cases (test x && not (ltb_ℤ (stamp y) (stamp x)))) [
    | inl first ↦ Memᴰ.head (ground arith)
    | inr later ↦ Memᴰ.tail (oldest_in-mem test xs v (ground arith))
  ]
]

-- No entry bears the time stamp 0, which the code takes for "nothing found yet".
abbrev pub IsStamped : List Content → Type 0
IsStamped cs = All (λ x. eqb_ℤ (stamp x) (pos 0) ≡ false) cs

abbrev pub merge : Option Content → Best → Best
merge none b = b
merge (some y) b = offer true y b

merge-offer :
    (test : Content → Bool) (x : Content) (xs : List Content) (b : Best)
    → eqb_ℤ (stamp x) (pos 0) ≡ false
    → merge (oldest_in test xs) (offer (test x) x b) ≡ merge (oldest_in test (x ∷ xs)) b
unfolding oldest_in offer
merge-offer test x xs b h = ground arith

count_step : (b : Bool) (n m : ℕ) → (if b then n + 1 else n) + m ≡ n + ((if b then 1 else 0) + m)
count_step b n m = ground arith

module _ (l : CcnLite) (me : Identity) (n : Name) where
  -- The scan, for a name of four components or more.
  unfoldable pub merged : List Content → Candidates → Candidates
  merged cs s = record {
    oldest = merge (oldest_in is_evictable cs) s.oldest;
    oldest_same = merge (oldest_in (is_same l n) cs) s.oldest_same;
    oldest_unflagged = merge (oldest_in is_unflagged cs) s.oldest_unflagged;
    oldest_unregistered = merge (oldest_in (is_unregistered me) cs) s.oldest_unregistered;
    count_user2 = s.count_user2 + count_if (λ x. x.user2) cs;
  }

  scan_step-merged :
      (x : Content) (xs : List Content) (s : Candidates)
      → 4 ≤ compcnt n
      → eqb_ℤ (stamp x) (pos 0) ≡ false
      → merged xs (scan_step l me n x s) ≡ merged (x ∷ xs) s
  unfolding merged scan_step
  scan_step-merged x xs s h k =
      let long_enough : ltb (compcnt n) 4 ≡ false = ground arith in
      rw long_enough λ i. record {
        oldest = merge-offer is_evictable x xs s.oldest k i;
        oldest_same = merge-offer (is_same l n) x xs s.oldest_same k i;
        oldest_unflagged = merge-offer is_unflagged x xs s.oldest_unflagged k i;
        oldest_unregistered = merge-offer (is_unregistered me) x xs s.oldest_unregistered k i;
        count_user2 = count_step x.user2 s.count_user2 (count_if (λ x. x.user2) xs) i;
      }

  pub scan-merged :
      (cs : List Content) (s : Candidates)
      → 4 ≤ compcnt n
      → IsStamped cs
      → scan l me n cs s ≡ merged cs s
  unfolding scan merged oldest_in
  scan-merged [] s h k = ground arith
  scan-merged (x ∷ xs) s h k =
      scan-merged xs (scan_step l me n x s) h k.1 ∙ scan_step-merged x xs s h k.0
