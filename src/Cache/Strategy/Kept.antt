-- ===== src/Cache/Strategy/Kept.antt =====
-- What the strategy leaves in the store, by counting the entries that pass a test.
use mathlib.Core.List.{Memᴰ}
use miniature_dangerzone.Common.{
  ℕ, ◌+◌, ◌≤◌, ◌≡◌, refl, ◌==◌, Bool, false, not, ◌&&◌, List, [], ◌∷◌, arith, map, ℤ, ltb_ℤ, pos,
  if◌then◌else◌, count_if, All, Bool-cases, inl, inr, ◌∙◌,
}
use miniature_dangerzone.Ccn.{
  compcnt, Content, stamp, Identity, Store, CcnLite, Removes, unlink, Distinct,
}
use miniature_dangerzone.Ccn.Unlink.{count_if-unlink-le, count_if-unlink}
use miniature_dangerzone.Cache.Strategy.{
  clear_user2, Candidates, no_scan, scan, evict, choose, fill, cs_oldest_representative, is_same,
  is_unflagged,
}
use miniature_dangerzone.Cache.Strategy.Scan.{IsStamped}
use miniature_dangerzone.Cache.Strategy.Victim.{Choice, strategy-Choice}

-- A test that does not read the flag that `ccnl_helper_reset` clears.
abbrev pub IgnoresUser2 : (Content → Bool) → Type 0
IgnoresUser2 p = (x : Content) → p (clear_user2 x) ≡ p x

count_if-clear :
    (p : Content → Bool) (cs : List Content)
    → IgnoresUser2 p
    → count_if p (map clear_user2 cs) ≡ count_if p cs
count_if-clear p [] h = refl
count_if-clear p (x ∷ cs) h = rw (h x, count_if-clear p cs h)

pub count_if-fill :
    (p : Content → Bool) (s : Store)
    → IgnoresUser2 p
    → count_if p (fill s).contents ≡ count_if p s.contents
unfolding fill
count_if-fill p s h = ground (arith, count_if-clear p s.contents h)

addresses-clear :
    (a : ℕ) (cs : List Content)
    → All (λ x. (x.addr == a) ≡ false) cs
    → All (λ x. (x.addr == a) ≡ false) (map clear_user2 cs)
addresses-clear a [] h = tt
addresses-clear a (x ∷ cs) h = (h.0, addresses-clear a cs h.1)

Distinct-clear : (cs : List Content) → Distinct cs → Distinct (map clear_user2 cs)
Distinct-clear [] d = tt
Distinct-clear (x ∷ cs) d = (addresses-clear x.addr cs d.0, Distinct-clear cs d.1)

pub Distinct-fill : (s : Store) → Distinct s.contents → Distinct (fill s).contents
unfolding fill
Distinct-fill s d = elim (Bool-cases s.first_time_full) [
  | inl e ↦ rw (e, fill) d
  | inr e ↦ rw (e, fill) (Distinct-clear s.contents d)
]

module _ (l : CcnLite) (removes : Removes l) where
  contents-evict :
      (v : Content) (n : ℕ) (s : Store) → (evict l v n s).contents ≡ unlink v.addr s.contents
  unfolding evict
  contents-evict v n s = removes.content_removed v s.contents

  evict-count-le :
      (p : Content → Bool) (v : Content) (n : ℕ) (s : Store)
      → count_if p (evict l v n s).contents ≤ count_if p s.contents
  evict-count-le p v n s = rw (contents-evict v n s) (count_if-unlink-le p v.addr s.contents)

  choose-count-le :
      (p : Content → Bool) (t : ℤ) (k : Candidates) (s : Store)
      → count_if p (choose l t k s).contents ≤ count_if p s.contents
  unfolding choose
  choose-count-le p t k s = grind (arith, evict-count-le p)

  -- Whatever the time stamps are, the strategy adds nothing: no count of entries rises, for a test
  -- that does not read the second flag.
  pub strategy-count-le :
      (me : Identity) (p : Content → Bool) (s : Store) (c : Content)
      → IgnoresUser2 p
      → count_if p (cs_oldest_representative l me s c).contents ≤ count_if p s.contents
  unfolding cs_oldest_representative
  strategy-count-le me p s c h = omega (
    arith,
    count_if-fill p s h,
    choose-count-le p (stamp c) (scan l me c.pkt.name (fill s).contents no_scan) (fill s),
  )

  choose-prio :
      (t : ℤ) (k : Candidates) (s : Store) → (choose l t k s).prio_cache_cnt ≡ s.prio_cache_cnt
  unfolding choose evict
  choose-prio t k s = ground arith

  -- The strategy leaves the count of prioritised entries alone.
  pub strategy_prio :
      (me : Identity) (s : Store) (c : Content)
      → (cs_oldest_representative l me s c).prio_cache_cnt ≡ s.prio_cache_cnt
  unfolding cs_oldest_representative fill
  strategy_prio me s c =
      choose-prio (stamp c) (scan l me c.pkt.name (fill s).contents no_scan) (fill s)
      ∙ (ground arith)

  evict-count :
      (p : Content → Bool) (v : Content) (n : ℕ) (s : Store)
      → Distinct s.contents
      → Memᴰ v s.contents
      → count_if p (evict l v n s).contents + (if p v then 1 else 0) ≡ count_if p s.contents
  evict-count p v n s d m = rw (contents-evict v n s) (count_if-unlink p s.contents v d m)

count_if_of_fails :
    (p : Content → Bool) (cs : List Content) → All (λ x. p x ≡ false) cs → count_if p cs ≡ 0
count_if_of_fails p [] h = refl
count_if_of_fails p (x ∷ cs) h = ground (arith, count_if_of_fails p cs h.1)

-- An entry that stands for the newest value of a source other than that of the new entry.
abbrev pub represents_other : CcnLite → Content → Content → Bool
represents_other l c x = x.user1 && not (is_same l c.pkt.name x)

module _ (l : CcnLite) (me : Identity) where
  Choice-evictable :
      (c : Content) (cs : List Content) (v : Content) → Choice l me c cs v → v.static ≡ false
  Choice-evictable c cs v (Choice.same least _) = ground arith
  Choice-evictable c cs v (Choice.unflagged _ least) = ground arith
  Choice-evictable c cs v (Choice.unregistered _ _ least) = ground arith
  Choice-evictable c cs v (Choice.oldest _ _ _ least _) = ground arith

  Choice-spares :
      (c : Content) (cs : List Content) (v : Content)
      → Choice l me c cs v
      → 1 ≤ count_if is_unflagged cs
      → represents_other l c v ≡ false
  Choice-spares c cs v (Choice.same least _) h = ground arith
  Choice-spares c cs v (Choice.unflagged _ least) h = ground arith
  Choice-spares c cs v (Choice.unregistered _ all least) h =
      absurd (omega (arith, count_if_of_fails is_unflagged cs all))
  Choice-spares c cs v (Choice.oldest _ all _ least _) h =
      absurd (omega (arith, count_if_of_fails is_unflagged cs all))

module _ (l : CcnLite) (removes : Removes l) (me : Identity) where
  -- A count over the store does not change when the test fails at every entry that may be chosen.
  strategy-count :
      (p : Content → Bool) (s : Store) (c : Content)
      → IgnoresUser2 p
      → 4 ≤ compcnt c.pkt.name
      → ltb_ℤ (stamp c) (pos 0) ≡ false
      → IsStamped (fill s).contents
      → Distinct s.contents
      → ((v : Content) → Choice l me c (fill s).contents v → p v ≡ false)
      → count_if p (cs_oldest_representative l me s c).contents ≡ count_if p s.contents
  strategy-count p s c ignores long later stamped d fails =
      elim (strategy-Choice l me s c long later stamped) [
        | inl (kept, _) ↦ rw kept (count_if-fill p s ignores)
        | inr (v, gone, chosen, m) ↦ rw gone (
            ground (
              arith,
              evict-count l removes p v (count_if (λ x. x.user2) (fill s).contents) (fill s)
                  (Distinct-fill s d) m,
              fails v chosen,
              count_if-fill p s ignores,
            ))
      ]

  -- Where no time stamp in the store is 0, no address is doubled, the new time stamp is not
  -- negative and the new name has four components, the strategy removes no static entry.
  pub strategy_keeps_static :
      (s : Store) (c : Content)
      → 4 ≤ compcnt c.pkt.name
      → ltb_ℤ (stamp c) (pos 0) ≡ false
      → IsStamped (fill s).contents
      → Distinct s.contents
      → count_if (λ x. x.static) (cs_oldest_representative l me s c).contents
        ≡ count_if (λ x. x.static) s.contents
  strategy_keeps_static s c long later stamped d =
      strategy-count (λ x. x.static) s c (λ x. refl) long later stamped d
        (λ v. Choice-evictable l me c (fill s).contents v)

  -- Where no time stamp in the store is 0, no address is doubled, the new time stamp is not
  -- negative, the new name has four components, and the store has an entry that may be replaced
  -- and is not the newest of its source: the strategy removes no entry that is flagged as the
  -- newest of a source other than that of the new entry.
  pub strategy_keeps_representatives :
      (s : Store) (c : Content)
      → 4 ≤ compcnt c.pkt.name
      → ltb_ℤ (stamp c) (pos 0) ≡ false
      → IsStamped (fill s).contents
      → Distinct s.contents
      → 1 ≤ count_if is_unflagged s.contents
      → count_if (represents_other l c) (cs_oldest_representative l me s c).contents
        ≡ count_if (represents_other l c) s.contents
  strategy_keeps_representatives s c long later stamped d spare =
      strategy-count (represents_other l c) s c (λ x. refl) long later stamped d
        λ v chosen.
          Choice-spares l me c (fill s).contents v chosen
            (rw (count_if-fill is_unflagged s (λ x. refl)) spare)
