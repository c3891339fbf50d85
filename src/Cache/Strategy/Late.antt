-- ===== src/Cache/Strategy/Late.antt =====
-- What `cs_oldest_representative` gives up when the time stamps are read by `strtol` as the greatest
-- `long`.
use miniature_dangerzone.Common.{
  ℕ, ◌+◌, ◌^◌, ◌≤◌, ◌<◌, ◌≡◌, refl, ap, ◌∙◌, Bool, Option, none, some, List, [], ◌∷◌, arith, pos, ℤ,
  if◌then◌else◌, count_if, All, Option-cases, inl, inr,
}
use miniature_dangerzone.Text.{hex8, strtol16, to_long, long_max}
use miniature_dangerzone.Text.Hex.{strtol16-hex8}
use miniature_dangerzone.Ccn.{comp, compcnt, Content, stamp, Identity, Store, CcnLite}
use miniature_dangerzone.Cache.Strategy.{evict, fill, cs_oldest_representative, is_same}
use miniature_dangerzone.Cache.Strategy.Scan.{oldest_in, IsStamped}
use miniature_dangerzone.Cache.Strategy.Victim.{victim, give_up, strategy-victim}

-- The last component of the name is the text of a 32-bit time from 2^31 - 1 on.
pub record Late (c : Content) : Type 0 where
  pub time : ℕ
  pub spelled : comp c.pkt.name 3 ≡ hex8 time
  pub late : 2 ^ 31 ≤ time + 1
  pub bounded : time < 2 ^ 32

stamp-Late : (c : Content) → Late c → stamp c ≡ pos long_max
unfolding stamp to_long
stamp-Late c k =
    ap strtol16 k.spelled ∙ strtol16-hex8 k.time (omega (arith, k.bounded)) ∙ ground (arith, k.late)

-- The first entry that passes a test.
abbrev pub first_of : (Content → Bool) → List Content → Option Content
first_of test [] = none
first_of test (c ∷ cs) = if test c then some c else first_of test cs

oldest_in-stamp :
    (test : Content → Bool) (cs : List Content) (z : ℤ)
    → All (λ c. stamp c ≡ z) cs
    → (v : Content) → oldest_in test cs ≡ some v
    → stamp v ≡ z
unfolding oldest_in
oldest_in-stamp test [] z same v h = cc
oldest_in-stamp test (c ∷ cs) z same v h = elim (Option-cases (oldest_in test cs)) [
  | inl gone ↦ ground (arith, same.0)
  | inr (u, found) ↦ ground (arith, same.0, oldest_in-stamp test cs z same.1 u found)
]

oldest_in-first_of :
    (test : Content → Bool) (cs : List Content) (z : ℤ)
    → All (λ c. stamp c ≡ z) cs
    → oldest_in test cs ≡ first_of test cs
unfolding oldest_in
oldest_in-first_of test [] z same = refl
oldest_in-first_of test (c ∷ cs) z same = elim (Option-cases (oldest_in test cs)) [
  | inl gone ↦ ground (arith, oldest_in-first_of test cs z same.1)
  | inr (u, found) ↦
      ground (
        arith,
        same.0,
        oldest_in-stamp test cs z same.1 u found,
        oldest_in-first_of test cs z same.1,
      )
]

All-stamp : (cs : List Content) → All Late cs → All (λ c. stamp c ≡ pos long_max) cs
All-stamp [] late = tt
All-stamp (c ∷ cs) late = (stamp-Late c late.0, All-stamp cs late.1)

All-IsStamped : (cs : List Content) → All Late cs → IsStamped cs
All-IsStamped [] late = tt
All-IsStamped (c ∷ cs) late = (rw (stamp-Late c late.0) refl, All-IsStamped cs late.1)

module _ (l : CcnLite) (me : Identity) where
  -- Where the times of the new value, whose name has four components, and of every entry are from
  -- 2^31 - 1 microseconds on, and the store has entries of the new name that may be replaced, the
  -- strategy removes the first of them in the order of the store, whatever their times are.
  pub strategy_takes_first :
      (s : Store) (c v : Content)
      → 4 ≤ compcnt c.pkt.name
      → Late c
      → All Late (fill s).contents
      → first_of (is_same l c.pkt.name) (fill s).contents ≡ some v
      → cs_oldest_representative l me s c
        ≡ evict l v (count_if (λ x. x.user2) (fill s).contents) (fill s)
  unfolding victim give_up
  strategy_takes_first s c v long late all first =
      let cs = (fill s).contents in
      let here : oldest_in (is_same l c.pkt.name) cs ≡ some v =
        oldest_in-first_of (is_same l c.pkt.name) cs (pos long_max) (All-stamp cs all) ∙ first in
      let old =
        oldest_in-stamp (is_same l c.pkt.name) cs (pos long_max) (All-stamp cs all) v here in
      let now = stamp-Late c late in
      strategy-victim l me s c long (rw now refl) (All-IsStamped cs all) ∙ rw (here, now, old) refl
