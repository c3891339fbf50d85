-- ===== src/Dow/Beacon/Rank.antt =====
-- What a node learns from beacons: the number of nodes, and its place among them.
use miniature_dangerzone.Common.{
  ℕ, ◌+◌, ◌≤◌, ◌<◌, ◌≡◌, refl, true, not, ◌||◌, List, [], ◌∷◌, arith, length, ◌==◌, if_split,
  if_both,
}
use miniature_dangerzone.Dow.Beacon.{
  Bloom, Remembers, Snip, magic, beacon_size, Neighbours, handle_beacon,
}

module _ {Filter : Type 0} (b : Bloom Filter) (my_id : ℕ) where
  -- A series of packets, the first one first.
  unfoldable pub hear_all : List Snip → Neighbours Filter → Neighbours Filter
  unfolding handle_beacon
  hear_all [] n = n
  hear_all (p ∷ ps) n = hear_all ps (handle_beacon b my_id p n)

  -- Where the place of a node is below the number of nodes that it knows of, and that number and
  -- the number of the packets that come are together below 2^16: its place stays below the number
  -- of nodes, which grows by at most the number of the packets.
  pub hear_all_ranked :
      (ps : List Snip) (n : Neighbours Filter)
      → n.position < n.size
      → n.size + length ps < 65536
      → ((hear_all ps n).position < (hear_all ps n).size)
        × ((hear_all ps n).size ≤ n.size + length ps)
  unfolding hear_all handle_beacon
  hear_all_ranked [] n h few = (h, omega arith)
  hear_all_ranked (p ∷ ps) n h few =
      let n1 = handle_beacon b my_id p n in
      let low : n1.position < n1.size = ground arith in
      let grows : n1.size ≤ n.size + 1 = ground arith in
      let (rank, most) = hear_all_ranked ps n1 low (omega arith) in (rank, omega (arith, most))

  known_after :
      (remembers : Remembers b) (p : Snip) (n : Neighbours Filter) (i : ℕ)
      → b.check n.filter i ≡ true
      → b.check (handle_beacon b my_id p n).filter i ≡ true
  unfolding handle_beacon
  known_after remembers p n i known =
      let P = λ (k : Neighbours Filter). b.check k.filter i ≡ true in
      if_both P (not (p.size == beacon_size) || not (p.magic_key == magic)) _ _ known
        (if_both P (b.check n.filter p.id) _ _ known (remembers.holds_old n.filter i p.id known))

  heard :
      (remembers : Remembers b) (p : Snip) (n : Neighbours Filter)
      → p.size ≡ beacon_size
      → p.magic_key ≡ magic
      → b.check (handle_beacon b my_id p n).filter p.id ≡ true
  unfolding handle_beacon
  heard remembers p n sized keyed =
      let P = λ (k : Neighbours Filter). b.check k.filter p.id ≡ true in
      if_split P (not (p.size == beacon_size) || not (p.magic_key == magic)) _ _
        (λ other. absurd (ground (arith, other, sized, keyed)))
        (λ good.
          if_split P (b.check n.filter p.id) _ _ (λ known. known)
            (λ unknown. remembers.holds_new n.filter p.id))

  -- A packet whose number is known changes nothing.
  known_unchanged :
      (p : Snip) (n : Neighbours Filter)
      → b.check n.filter p.id ≡ true
      → handle_beacon b my_id p n ≡ n
  unfolding handle_beacon
  known_unchanged p n known =
      let P = λ (k : Neighbours Filter). k ≡ n in
      if_both P (not (p.size == beacon_size) || not (p.magic_key == magic)) _ _ refl (rw known refl)

  hear_all_known :
      (remembers : Remembers b) (ps : List Snip) (n : Neighbours Filter) (i : ℕ)
      → b.check n.filter i ≡ true
      → b.check (hear_all ps n).filter i ≡ true
  unfolding hear_all
  hear_all_known remembers [] n i known = known
  hear_all_known remembers (p ∷ ps) n i known =
      hear_all_known remembers ps (handle_beacon b my_id p n) i (known_after remembers p n i known)

  -- With a filter that forgets nothing, a beacon that was heard once changes nothing when it is
  -- heard again, whatever packets came in between.
  pub handle_beacon_again :
      (remembers : Remembers b) (p : Snip) (ps : List Snip) (n : Neighbours Filter)
      → p.size ≡ beacon_size
      → p.magic_key ≡ magic
      → handle_beacon b my_id p (hear_all ps (handle_beacon b my_id p n))
        ≡ hear_all ps (handle_beacon b my_id p n)
  handle_beacon_again remembers p ps n sized keyed =
      let n1 = handle_beacon b my_id p n in
      known_unchanged p (hear_all ps n1)
        (hear_all_known remembers ps n1 p.id (heard remembers p n sized keyed))
