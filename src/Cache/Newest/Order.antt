-- ===== src/Cache/Newest/Order.antt =====
-- The newest value of a source is flagged, where values come in the order of their time stamps.
use miniature_dangerzone.Common.{
  ℕ, ◌≤◌, ◌≡◌, refl, Bool, true, false, none, some, List, ◌∷◌, arith, leb, ltb_ℤ, count_if,
}
use miniature_dangerzone.Config.{Config}
use miniature_dangerzone.Ccn.{
  compcnt, Packet, Content, stamp, Identity, Store, CcnLite, Removes, Adds,
}
use miniature_dangerzone.Cache.Strategy.{cs_oldest_representative}
use miniature_dangerzone.Cache.Strategy.Kept.{strategy-count-le}
use miniature_dangerzone.Cache.Newest.{
  removed_nothing, Swept, is_of, sweep, mark, fresh, tag, keep, handle_content, change_at,
}
use miniature_dangerzone.Cache.Newest.Sweep.{flagged, IsLatest, sweep_latest}

mark_newest :
    (cfg : Config) (w : Swept) (c : Content) (s : Store)
    → w.newest ≡ none
    → ((mark cfg w c s).0.user1 ≡ true)
      × ((mark cfg w c s).0.pkt ≡ c.pkt)
      × ((mark cfg w c s).1.contents ≡ w.entries)
unfolding mark
mark_newest cfg w c s h = ground arith

module _ (cfg : Config) (l : CcnLite) (strategy : Store → Content → Store) where
  keep_accepted :
      (c : Content) (s s' : Store)
      → keep cfg l strategy c s ≡ (s', true)
      → l.add2cache strategy s (record c { user2 = true }) ≡ some s'
  unfolding keep
  keep_accepted c s s' h = ground arith

module _ (cfg : Config) (l : CcnLite) (removes : Removes l) (me : Identity) where
  -- What one accepted entry does to a count that stands at 0 before.
  pub single_added :
      (p : Content → Bool) (c : Content) (s s' : Store)
      → Adds l (cs_oldest_representative l me)
      → ((x : Content) → p (record x { user2 = false }) ≡ p x)
      → p c ≡ true
      → count_if p s.contents ≡ 0
      → l.add2cache (cs_oldest_representative l me) s c ≡ some s'
      → count_if p s'.contents ≡ 1
  single_added p c s s' adds ignores here zero_before added =
      let most = adds.only_known s s' c added p in
      let least = adds.holds_new s s' c added p here in
      let le = strategy-count-le l removes me p s c ignores in ground arith

  -- Where a chunk's name has four components and matches itself, no entry of the chunk's source in
  -- the store is newer than the chunk, and the chunk is accepted: the store then holds exactly one
  -- entry of that source that is flagged as its newest.
  pub handle_content_one_newest :
      (a : ℕ) (s s' : Store) (pkt : Packet)
      → Adds l (cs_oldest_representative l me)
      → 4 ≤ compcnt pkt.name
      → leb 3 (l.prefix_match pkt.name pkt.name) ≡ true
      → IsLatest l pkt.name (stamp (fresh a pkt)) s.contents
      → handle_content cfg l (cs_oldest_representative l me) (some a) s pkt ≡ (s', true)
      → count_if (flagged l pkt.name) s'.contents ≡ 1
  unfolding handle_content tag
  handle_content_one_newest a s s' pkt adds long self latest h =
      let c = fresh a pkt in
      let served = record s { pit = l.serve_pending c s.pit } in
      let w = sweep l pkt.name (stamp c) s.contents removed_nothing in
      let (ends, cleared) = sweep_latest l pkt.name (stamp c) s.contents removed_nothing latest in
      let (high, same, entries) = mark_newest cfg w c served ends in
      let (c', s'') = mark cfg w c served in
      single_added (flagged l pkt.name) (record c' { user2 = true }) s'' s' adds (λ x. refl)
        (rw (high, same) (ground arith)) (rw entries cleared)
        (keep_accepted cfg l (cs_oldest_representative l me) c' s'' s' h)

-- Where the first entry of the store belongs to the chunk's source and is newer than the chunk,
-- and an entry behind it is flagged as the newest of that source, at least two entries of that
-- source are flagged as its newest in the end.
pub late_chunk_two_newest :
    (cfg : Config) (l : CcnLite) (c : Content) (s : Store) (e : Content) (rest : List Content)
    → s.contents ≡ e ∷ rest
    → is_of l c.pkt.name e ≡ true
    → ltb_ℤ (stamp c) (stamp e) ≡ true
    → 1 ≤ count_if (flagged l c.pkt.name) rest
    → 2 ≤ count_if (flagged l c.pkt.name) (tag cfg l c s).1.contents
unfolding tag mark sweep change_at
late_chunk_two_newest cfg l c s e rest head hit newer held = rw head (ground arith)
