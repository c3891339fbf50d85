-- ===== src/Cache/Strategy/Victim.antt =====
-- Which entry `cs_oldest_representative` gives up for a new one.
use mathlib.Core.List.{Memᴰ}
use miniature_dangerzone.Common.{
  ◌≤◌, ◌≡◌, Bool, true, false, Option, none, some, List, arith, ltb_ℤ, ◌≤ℤ◌, ◌<ℤ◌, pos,
  if◌then◌else◌, count_if, All, Option-cases, ◌⊎◌, inl, inr, ap, ◌∙◌,
}
use miniature_dangerzone.Ccn.{compcnt, Content, stamp, Identity, Store, CcnLite}
use miniature_dangerzone.Cache.Strategy.{
  no_scan, offer, evict, choose, fill, cs_oldest_representative, is_evictable, is_same,
  is_unflagged, is_unregistered,
}
use miniature_dangerzone.Cache.Strategy.Scan.{
  oldest_in, oldest_in-minimal, oldest_in-mem, oldest_in-none, IsStamped, IsLeast, merged,
  scan-merged,
}

abbrev or_else : Option Content → Option Content → Option Content
or_else none o = o
or_else (some v) o = some v

-- The entry to give up, if it is not newer than the new one.
abbrev unless_newer : Content → Option Content → Option Content
unless_newer c none = none
unless_newer c (some v) = if ltb_ℤ (stamp c) (stamp v) then none else some v

abbrev is_none : Option Content → Bool
is_none none = true
is_none (some v) = false

-- What the strategy leaves of a store.
unfoldable pub give_up : CcnLite → Store → Option Content → Store
give_up l s none = s
give_up l s (some v) = evict l v (count_if (λ x. x.user2) s.contents) s

module _ (l : CcnLite) (me : Identity) where
  -- The order of the code: the oldest value of the new name, unless it is newer than the new one, when
  -- nothing is given up; where the store has none of that name, the oldest that is not the newest of its
  -- source, then the oldest under another letter than the one that the node has registered for, then
  -- the oldest of all, unless it is newer. The comment on the strategy differs: by it another name's
  -- value gives way also where those of the new name are newer.
  unfoldable pub victim : Content → List Content → Option Content
  victim c cs =
      let same = oldest_in (is_same l c.pkt.name) cs in
      if is_none same
      then or_else (oldest_in is_unflagged cs)
          (or_else (oldest_in (is_unregistered me) cs) (unless_newer c (oldest_in is_evictable cs)))
      else unless_newer c same

  choose-merged :
      (c : Content) (s : Store)
      → ltb_ℤ (stamp c) (pos 0) ≡ false
      → choose l (stamp c) (merged l me c.pkt.name s.contents no_scan) s
        ≡ give_up l s (victim c s.contents)
  unfolding choose merged give_up victim offer
  choose-merged c s h = ground arith

  -- Where no time stamp in the store is 0, the new one is not negative and the new name has four
  -- components, the strategy gives up exactly the entry that `victim` describes, and nothing where
  -- it describes none.
  pub strategy-victim :
      (s : Store) (c : Content)
      → 4 ≤ compcnt c.pkt.name
      → ltb_ℤ (stamp c) (pos 0) ≡ false
      → IsStamped (fill s).contents
      → cs_oldest_representative l me s c ≡ give_up l (fill s) (victim c (fill s).contents)
  unfolding cs_oldest_representative
  strategy-victim s c long later stamped =
      rw (scan-merged l me c.pkt.name (fill s).contents no_scan long stamped)
        (choose-merged c (fill s) later)

  -- How the strategy may come to an entry: it is a least one of its kind, and there is no entry of
  -- a kind that goes before. An older or the same value of the new name goes first, then an entry
  -- that is not the newest of its source, then one of a foreign letter, then any that is not newer.
  pub data Choice (c : Content) (cs : List Content) (v : Content) : Type 0 where
    same : IsLeast (is_same l c.pkt.name) cs v → stamp v ≤ℤ stamp c → Choice c cs v
    unflagged :
        All (λ x. is_same l c.pkt.name x ≡ false) cs → IsLeast is_unflagged cs v → Choice c cs v
    unregistered :
        All (λ x. is_same l c.pkt.name x ≡ false) cs
        → All (λ x. is_unflagged x ≡ false) cs
        → IsLeast (is_unregistered me) cs v
        → Choice c cs v
    oldest :
        All (λ x. is_same l c.pkt.name x ≡ false) cs
        → All (λ x. is_unflagged x ≡ false) cs
        → All (λ x. is_unregistered me x ≡ false) cs
        → IsLeast is_evictable cs v
        → stamp v ≤ℤ stamp c
        → Choice c cs v

  victim-Choice :
      (c : Content) (cs : List Content) (v : Content)
      → victim c cs ≡ some v
      → Choice c cs v × Memᴰ v cs
  unfolding victim
  victim-Choice c cs v h = elim (Option-cases (oldest_in (is_same l c.pkt.name) cs)) [
    | inr (u, found) ↦
        let e : u ≡ v = ground arith in
        let here : oldest_in (is_same l c.pkt.name) cs ≡ some v = found ∙ ap some e in
        (same (oldest_in-minimal _ cs v here) (ground arith), oldest_in-mem _ cs v here)
    | inl no_same ↦ elim (Option-cases (oldest_in is_unflagged cs)) [
      | inr (u, found) ↦
          let e : u ≡ v = ground arith in
          let here : oldest_in is_unflagged cs ≡ some v = found ∙ ap some e in
          (
            unflagged (oldest_in-none _ cs no_same) (oldest_in-minimal _ cs v here),
            oldest_in-mem _ cs v here,
          )
      | inl no_unflagged ↦ elim (Option-cases (oldest_in (is_unregistered me) cs)) [
        | inr (u, found) ↦
            let e : u ≡ v = ground arith in
            let here : oldest_in (is_unregistered me) cs ≡ some v = found ∙ ap some e in
            (
              unregistered (oldest_in-none _ cs no_same) (oldest_in-none _ cs no_unflagged)
                  (oldest_in-minimal _ cs v here),
              oldest_in-mem _ cs v here,
            )
        | inl no_unregistered ↦
            let here : oldest_in is_evictable cs ≡ some v = ground arith in
            (
              oldest (oldest_in-none _ cs no_same) (oldest_in-none _ cs no_unflagged)
                  (oldest_in-none _ cs no_unregistered) (oldest_in-minimal _ cs v here)
                  (ground arith),
              oldest_in-mem _ cs v here,
            )
      ]
    ]
  ]

  -- Why the strategy may keep every entry: none may be replaced, or the new value is older than
  -- each of those that it may take the place of.
  pub data Refusal (c : Content) (cs : List Content) : Type 0 where
    all_static : All (λ x. is_evictable x ≡ false) cs → Refusal c cs
    older_same :
        (u : Content) → IsLeast (is_same l c.pkt.name) cs u → stamp c <ℤ stamp u → Refusal c cs
    older_all :
        (u : Content)
        → All (λ x. is_same l c.pkt.name x ≡ false) cs
        → IsLeast is_evictable cs u
        → stamp c <ℤ stamp u
        → Refusal c cs

  victim-Refusal : (c : Content) (cs : List Content) → victim c cs ≡ none → Refusal c cs
  unfolding victim
  victim-Refusal c cs h = elim (Option-cases (oldest_in (is_same l c.pkt.name) cs)) [
    | inr (u, found) ↦ older_same u (oldest_in-minimal _ cs u found) (ground arith)
    | inl no_same ↦ elim (Option-cases (oldest_in is_evictable cs)) [
      | inl nothing ↦ all_static (oldest_in-none _ cs nothing)
      | inr (u, found) ↦
          older_all u (oldest_in-none _ cs no_same) (oldest_in-minimal _ cs u found) (ground arith)
    ]
  ]

  -- Where no time stamp in the store is 0, the new one is not negative and the new name has four
  -- components: either the store keeps every entry, for one of the reasons of `Refusal`, or one
  -- entry of the store is removed, which is a least one of the first kind that there is, in the
  -- order of `Choice`.
  pub strategy-Choice :
      (s : Store) (c : Content)
      → 4 ≤ compcnt c.pkt.name
      → ltb_ℤ (stamp c) (pos 0) ≡ false
      → IsStamped (fill s).contents
      → let cs = (fill s).contents in
        (cs_oldest_representative l me s c ≡ fill s) × Refusal c cs
        ⊎ ((v : Content) × (cs_oldest_representative l me s c
              ≡ evict l v (count_if (λ x. x.user2) cs) (fill s))
            × Choice c cs v
            × Memᴰ v cs)
  strategy-Choice s c long later stamped =
      let e = strategy-victim s c long later stamped in
      elim (Option-cases (victim c (fill s).contents)) [
        | inl nothing ↦
            inl (e ∙ unfold give_up in rw nothing, victim-Refusal c (fill s).contents nothing)
        | inr (v, found) ↦
            let picked = victim-Choice c (fill s).contents v found in
            inr (v, e ∙ unfold give_up in rw found, picked.0, picked.1)
      ]
