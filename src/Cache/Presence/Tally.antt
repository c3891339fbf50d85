-- ===== src/Cache/Presence/Tally.antt =====
-- The table of letters against the history of the interests that were seen.
use mathlib.Core.Path.{subst}
use miniature_dangerzone.Common.{
  ℕ, suc, ◌+◌, ◌-◌, ◌≤◌, ◌<◌, ◌≡◌, refl, true, false, ◌&&◌, ◌||◌, List, [], ◌∷◌, arith, two32, ltb,
  ◌==◌, if◌then◌else◌, length, ap, ◌∙◌, count_if, count_if-le-length, All, Bool-cases, inl, inr,
}
use miniature_dangerzone.Config.{apmdmr_min_int, max_prefixes}
use miniature_dangerzone.Cache.Presence.{
  Presence, free_table, under_represented, seen_interest, table,
}

-- What a table says of a letter: the count of its slot, found before the first free one.
unfoldable pub lookup_count : ℕ → List Presence → ℕ
lookup_count p [] = 0
lookup_count p (e ∷ es) =
    if e.pfx == 0 then 0 else if e.pfx == p then e.count else lookup_count p es

unfoldable pub free_slots : List Presence → ℕ
free_slots [] = 0
free_slots (e ∷ es) = if e.pfx == 0 then suc (length es) else free_slots es

-- Letters stand once, with a count that is not 0, and behind a free slot there are only such.
abbrev pub IsTidy : List Presence → Type 0
IsTidy [] = Unit
IsTidy (e ∷ es) =
    ((e.pfx == 0) ≡ true → (e.count ≡ 0) × (free_slots es ≡ length es))
    × ((e.pfx == 0) ≡ false → (1 ≤ e.count) × (lookup_count e.pfx es ≡ 0))
    × IsTidy es

free_slots-le-length : (t : List Presence) → free_slots t ≤ length t
unfolding free_slots
free_slots-le-length [] = omega arith
free_slots-le-length (e ∷ es) = ground (arith, free_slots-le-length es)

lookup_free : (p : ℕ) (t : List Presence) → free_slots t ≡ length t → lookup_count p t ≡ 0
unfolding free_slots lookup_count
lookup_free p [] h = refl
lookup_free p (e ∷ es) h = ground (arith, free_slots-le-length es)

under_represented-lookup :
    (p : ℕ) (t : List Presence)
    → IsTidy t
    → under_represented p t ≡ (ltb 0 (lookup_count p t) && ltb (lookup_count p t) apmdmr_min_int)
unfolding under_represented lookup_count
under_represented-lookup p [] w = refl
under_represented-lookup p (e ∷ es) w = ground (arith, under_represented-lookup p es w.2)

lookup-seen_interest :
    (p q : ℕ) (t : List Presence)
    → 1 ≤ p
    → 1 ≤ q
    → IsTidy t
    → lookup_count p t < two32 - 1
    → 1 ≤ lookup_count p t + free_slots t
    → lookup_count q (seen_interest p t)
      ≡ (if p == q then lookup_count q t + 1 else lookup_count q t)
unfolding seen_interest lookup_count free_slots
lookup-seen_interest p q [] h k w s r = ground arith
lookup-seen_interest p q (e ∷ es) h k w s r = elim (Bool-cases (e.pfx == 0)) [
  | inl free ↦ ground (arith, lookup_free q es)
  | inr taken ↦ elim (Bool-cases (e.pfx == p)) [
    | inl here ↦ ground arith
    | inr there ↦ ground (arith, lookup-seen_interest p q es h k w.2)
  ]
]

free_slots-seen_interest :
    (p : ℕ) (t : List Presence)
    → 1 ≤ p
    → IsTidy t
    → 1 ≤ lookup_count p t + free_slots t
    → free_slots (seen_interest p t) + (if lookup_count p t == 0 then 1 else 0) ≡ free_slots t
unfolding seen_interest lookup_count free_slots
free_slots-seen_interest p [] h w r = ground arith
free_slots-seen_interest p (e ∷ es) h w r = elim (Bool-cases (e.pfx == 0)) [
  | inl free ↦ ground arith
  | inr taken ↦ ground (arith, free_slots-seen_interest p es h w.2)
]

seen_interest-IsTidy :
    (p : ℕ) (t : List Presence)
    → 1 ≤ p
    → IsTidy t
    → lookup_count p t < two32 - 1
    → 1 ≤ lookup_count p t + free_slots t
    → IsTidy (seen_interest p t)
unfolding seen_interest lookup_count free_slots
seen_interest-IsTidy p [] h w s r = w
seen_interest-IsTidy p (e ∷ es) h w s r = elim (Bool-cases (e.pfx == 0)) [
  | inl free ↦
      let first : (e.pfx == p || e.pfx == 0) ≡ true = ground arith in
      rw first (
        (λ z. absurd (ground arith)),
        (λ z. (ground (arith, w.0 free), lookup_free p es (w.0 free).1)),
        w.2,
      )
  | inr taken ↦ elim (Bool-cases (e.pfx == p)) [
    | inl here ↦
        let first : (e.pfx == p || e.pfx == 0) ≡ true = ground arith in
        let same : e.pfx ≡ p = ground arith in
        rw first (
          (λ z. absurd (ground arith)),
          (λ z. (ground (arith, w.1 taken), subst (λ c. lookup_count c es ≡ 0) same (w.1 taken).1)),
          w.2,
        )
    | inr there ↦
        let later : (e.pfx == p || e.pfx == 0) ≡ false = ground arith in
        let s' : lookup_count p es < two32 - 1 = ground arith in
        let r' : 1 ≤ lookup_count p es + free_slots es = ground arith in
        rw later (
          (λ z. absurd (ground arith)),
          (λ z. (
            (w.1 taken).0,
            ground (arith, lookup-seen_interest p e.pfx es h (ground arith) w.2 s' r', w.1 taken),
          )),
          seen_interest-IsTidy p es h w.2 s' r',
        )
  ]
]

abbrev pub occurrences : ℕ → List ℕ → ℕ
occurrences p = count_if (λ c. c == p)

-- How many different letters a history has.
abbrev pub different : List ℕ → ℕ
different [] = 0
different (c ∷ h) = different h + (if occurrences c h == 0 then 1 else 0)

pub record Counts (h : List ℕ) : Type 0 where
  pub tidy : IsTidy (table h)
  pub exact : (q : ℕ) → 1 ≤ q → lookup_count q (table h) ≡ occurrences q h
  pub room : free_slots (table h) + different h ≡ max_prefixes

Counts-step :
    (c : ℕ) (h : List ℕ)
    → 1 ≤ c
    → length (c ∷ h) < two32
    → different (c ∷ h) ≤ max_prefixes
    → Counts h
    → Counts (c ∷ h)
unfolding table
Counts-step c h ok short few before =
    let now : lookup_count c (table h) ≡ occurrences c h = before.exact c ok in
    let most : occurrences c h ≤ length h = count_if-le-length (λ x. x == c) h in
    let s : lookup_count c (table h) < two32 - 1 = omega arith in
    let r : 1 ≤ lookup_count c (table h) + free_slots (table h) = ground (arith, before.room) in
    record {
      tidy = seen_interest-IsTidy c (table h) ok before.tidy s r;
      exact = λ q k.
          ground (arith, lookup-seen_interest c q (table h) ok k before.tidy s r, before.exact q k);
      room = ground (arith, free_slots-seen_interest c (table h) ok before.tidy r, before.room);
    }

table-Counts :
    (h : List ℕ) → All (λ c. 1 ≤ c) h → length h < two32 → different h ≤ max_prefixes → Counts h
table-Counts [] ok short few = record {
  tidy = unfold table free_table free_slots in grind arith;
  exact = λ q k. unfold table free_table lookup_count in ground arith;
  room = unfold table free_table free_slots in refl;
}
table-Counts (c ∷ h) ok short few =
    Counts-step c h ok.0 short few (table-Counts h ok.1 (omega arith) (ground arith))

-- For a history of fewer than 2^32 interests for at most DOW_MAX_PREFIXES letters, and no letter 0:
-- a letter counts as under-represented exactly if it has been seen, and fewer than
-- DOW_APMDMR_MIN_INT times.
pub under_represented-table :
    (p : ℕ) (h : List ℕ)
    → 1 ≤ p
    → All (λ c. 1 ≤ c) h
    → length h < two32
    → different h ≤ max_prefixes
    → under_represented p (table h)
      ≡ (ltb 0 (occurrences p h) && ltb (occurrences p h) apmdmr_min_int)
under_represented-table p h k ok short few =
    let counts = table-Counts h ok short few in
    under_represented-lookup p (table h) counts.tidy
    ∙ ap (λ (n : ℕ). ltb 0 n && ltb n apmdmr_min_int) (counts.exact p k)
