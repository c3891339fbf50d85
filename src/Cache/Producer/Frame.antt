-- ===== src/Cache/Producer/Frame.antt =====
-- What an interest leaves alone, and when it gets no answer or the wrong one.
use miniature_dangerzone.Common.{
  ℕ, ◌+◌, ◌≤◌, ◌≡◌, refl, true, false, none, some, List, [], ◌∷◌, arith, pos, u8, leb,
  if◌then◌else◌, map, Option-cases, inl, inr, ◌⊎◌,
}
use miniature_dangerzone.Config.{Config}
use miniature_dangerzone.Ccn.{Name, Packet, Content, Identity, CcnLite}
use miniature_dangerzone.Dow.{deputy, handover, is_inactive, is_stopped, Node}
use miniature_dangerzone.Cache.Newest.{change_at}
use miniature_dangerzone.Cache.Consumer.{Draw}
use miniature_dangerzone.Cache.Producer.{
  Spot, set_num, walk, fall_back, reply, answer, produce, bounced, producer,
}

names-change_at :
    (a i : ℕ) (cs : List Content)
    → map (λ c. c.pkt.name) (change_at a (set_num i) cs) ≡ map (λ c. c.pkt.name) cs
unfolding change_at
names-change_at a i [] = refl
names-change_at a i (c ∷ cs) = ground (arith, names-change_at a i cs)

-- The names in the store, in their order.
abbrev pub names : Node → List Name
names n = map (λ c. c.pkt.name) n.store.contents

module _ (cfg : Config) (l : CcnLite) (me : Identity) where
  names-reply :
      (d : Draw) (s : Spot) (n : Node) (pkt : Packet)
      → names (reply cfg l me d s n pkt).node ≡ names n
  unfolding reply
  names-reply d s n pkt = elim (Option-cases s.cit) [
    | inl end ↦ ground arith
    | inr (c, found) ↦ ground (arith, names-change_at c.addr s.index n.store.contents)
  ]

  names-answer :
      (d : Draw) (n : Node) (pkt : Packet) → names (answer cfg l me d n pkt).node ≡ names n
  unfolding answer
  names-answer d n pkt =
      let counted = record n { interest_count = u8 (n.interest_count + 1) } in
      elim (Option-cases pkt.name.chunknum) [
        | inl missing ↦ ground arith
        | inr (k, given) ↦
            let p = (if cfg.rand_seeding then pos d.random_chunk else k) in
            let s = fall_back cfg l me (walk cfg l me p 0 none n.store.contents) in
            let handing = (if cfg.deputy then record counted { mode = handover } else counted) in
            ground (arith, names-reply d s handing pkt)
      ]

  names-produce :
      (d : Draw) (n : Node) (pkt : Packet) → names (produce cfg l me d n pkt).node ≡ names n
  unfolding produce
  names-produce d n pkt = grind (arith, names-answer)

  -- No interest adds, removes, reorders or renames an entry of the store, in any build.
  pub names-producer :
      (d : Draw) (n : Node) (pkt : Packet) → names (producer cfg l me d n pkt).node ≡ names n
  unfolding producer bounced
  names-producer d n pkt = ground (arith, names-produce d n pkt)

  -- A stopped node, and outside DOW_INT_INT an inactive one, answers no interest: it frees the packet
  -- and stays as it was.
  pub producer_silent :
      (d : Draw) (n : Node) (pkt : Packet)
      → (is_stopped n.mode ≡ true) ⊎ ((is_inactive n.mode ≡ true) × (cfg.int_int ≡ false))
      → let r = producer cfg l me d n pkt in
        (r.node ≡ n) × (r.handled ≡ true) × (r.freed ≡ true) × (r.ack ≡ none)
  unfolding producer
  producer_silent d n pkt h = ground arith

  -- In a build without DOW_INT_INT, DOW_PSR and DOW_RAND_SEEDING, and with CCNLRIOT_CACHE_SIZE not
  -- 0, a deputy that has registered for a letter answers an interest for chunk 0 under that letter
  -- by the first entry of its store, where that entry stands under another letter.
  pub producer_registered_first :
      (d : Draw) (n : Node) (pkt : Packet) (c : Content) (cs : List Content)
      → cfg.int_int ≡ false
      → cfg.psr ≡ 0
      → cfg.rand_seeding ≡ false
      → 1 ≤ cfg.cache_size
      → me.is_registered ≡ true
      → leb 2 (l.prefix_match me.my_pfx pkt.name) ≡ true
      → leb 2 (l.prefix_match me.my_pfx c.pkt.name) ≡ false
      → n.mode ≡ deputy
      → pkt.name.chunknum ≡ some (pos 0)
      → n.store.contents ≡ c ∷ cs
      → (producer cfg l me d n pkt).name ≡ c.pkt.name
  unfolding producer answer reply fall_back walk
  producer_registered_first d n pkt c cs b t r room reg mine other duty chunk store = ground arith
