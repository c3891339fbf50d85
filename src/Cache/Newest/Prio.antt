-- ===== src/Cache/Newest/Prio.antt =====
-- The number of prioritised entries stays within DOW_PRIO_CACHE.
use miniature_dangerzone.Common.{
  ℕ, ◌+◌, ◌≤◌, ◌<◌, ◌≡◌, refl, Bool, true, false, ◌&&◌, Option, none, some, List, [], ◌∷◌, arith,
  ltb, eqb_ℤ, pos, count_if, Bool-cases, inl, inr, Option-cases,
}
use miniature_dangerzone.Config.{Config}
use miniature_dangerzone.Ccn.{Packet, Content, stamp, Identity, Store, CcnLite, Removes, Adds}
use miniature_dangerzone.Cache.Strategy.{cs_oldest_representative}
use miniature_dangerzone.Cache.Strategy.Kept.{strategy-count-le, strategy_prio}
use miniature_dangerzone.Cache.Newest.{
  removed_nothing, Swept, restore, change_at, sweep, mark, tag, fresh, keep, handle_content,
}
use miniature_dangerzone.Cache.Newest.Sweep.{one_if, sweep-static-le}

-- Every static entry is accounted for, and there are no more than the build allows.
pub record PrioBounded (cfg : Config) (s : Store) : Type 0 where
  pub counted : count_if (λ x. x.static) s.contents ≤ s.prio_cache_cnt
  pub capped : s.prio_cache_cnt ≤ cfg.prio_cache

static-restore :
    (b : Bool) (a : ℕ) (cs : List Content)
    → count_if (λ x. x.static) (change_at a (restore b) cs) ≤ count_if (λ x. x.static) cs + one_if b
unfolding change_at
static-restore b a [] = omega arith
static-restore b a (x ∷ cs) = ground (arith, static-restore b a cs)

mark-PrioBounded :
    (cfg : Config) (w : Swept) (c : Content) (s : Store)
    → cfg.prio_cache < 256
    → c.static ≡ false
    → count_if (λ x. x.static) w.entries + one_if w.removed.prio_flag ≤ s.prio_cache_cnt
    → s.prio_cache_cnt ≤ cfg.prio_cache
    → let (c', s') = mark cfg w c s in
      (one_if c'.static + count_if (λ x. x.static) s'.contents ≤ s'.prio_cache_cnt)
      × (s'.prio_cache_cnt ≤ cfg.prio_cache)
unfolding mark
mark-PrioBounded cfg w c s small plain counted capped = elim (Option-cases w.newest) [
  | inl latest ↦ ground arith
  | inr (a, newer) ↦
      ground (arith, static-restore (ltb 0 cfg.prio_cache && w.removed.prio_flag) a w.entries)
]

module _ (cfg : Config) (l : CcnLite) (removes : Removes l) (me : Identity) where
  keep-PrioBounded :
      (c : Content) (s : Store)
      → Adds l (cs_oldest_representative l me)
      → one_if c.static + count_if (λ x. x.static) s.contents ≤ s.prio_cache_cnt
      → s.prio_cache_cnt ≤ cfg.prio_cache
      → PrioBounded cfg (keep cfg l (cs_oldest_representative l me) c s).0
  unfolding keep
  keep-PrioBounded c s adds counted capped = elim (Bool-cases (eqb_ℤ s.max_entries (pos 0))) [
    | inl closed ↦ rw closed (omega arith)
    | inr open_ ↦ elim (Option-cases (l.add2cache strategy s c')) [
      | inl full ↦ rw (open_, full) (omega arith)
      | inr (s', added) ↦
          let most = adds.only_known s s' c' added (λ x. x.static) in
          let le = strategy-count-le l removes me (λ x. x.static) s c' (λ x. refl) in
          let kept = adds.variable_kept s s' c' added in
          let same = strategy_prio l removes me s c' in
          rw (open_, added) (record { counted = ground arith; capped = ground arith })
    ]
  ]
    where
      strategy : Store → Content → Store
      strategy = cs_oldest_representative l me

      c' : Content
      c' = record c { user2 = true }

  -- Handling a chunk, accepted or not, keeps the bound on the prioritised entries, where the build
  -- allows fewer than 256 of them: those in the store are at most `dow_prio_cache_cnt`, and that
  -- count is at most DOW_PRIO_CACHE.
  pub handle_content-PrioBounded :
      (alloc : Option ℕ) (s : Store) (pkt : Packet)
      → Adds l (cs_oldest_representative l me)
      → cfg.prio_cache < 256
      → PrioBounded cfg s
      → PrioBounded cfg (handle_content cfg l (cs_oldest_representative l me) alloc s pkt).0
  unfolding handle_content tag
  handle_content-PrioBounded none s pkt adds small bounded = bounded
  handle_content-PrioBounded (some a) s pkt adds small bounded =
      let c = fresh a pkt in
      let served = record s { pit = l.serve_pending c s.pit } in
      let w = sweep l pkt.name (stamp c) s.contents removed_nothing in
      let swept = sweep-static-le l pkt.name (stamp c) s.contents removed_nothing in
      let (counted, capped) =
        mark-PrioBounded cfg w c served small refl (omega arith) bounded.capped in
      keep-PrioBounded (mark cfg w c served).0 (mark cfg w c served).1 adds counted capped
