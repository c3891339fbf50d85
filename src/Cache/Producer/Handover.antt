-- ===== src/Cache/Producer/Handover.antt =====
-- What a node answers to interests for any data, chunk by chunk, and what that leaves alone.
use miniature_dangerzone.Common.{
  ℕ, zero, suc, ◌+◌, ◌≤◌, ◌<◌, ◌≡◌, refl, Bool, true, false, Option, none, some, List, [], ◌∷◌,
  ◌++◌, arith, pos, leb, length, get_elem?, inl, inr, ◌⊎◌,
}
use miniature_dangerzone.Config.{Config}
use miniature_dangerzone.Ccn.{Packet, Content, Identity, CcnLite}
use miniature_dangerzone.Dow.{deputy, handover, go_inactive, Node}
use miniature_dangerzone.Cache.Consumer.{Draw}
use miniature_dangerzone.Cache.Producer.{walk, fall_back, reply, answer, bounced, producer}

module _ (cfg : Config) (l : CcnLite) (me : Identity)
    (unregistered : me.is_registered ≡ false) where
  -- The walk for chunk `p` stands at count `i`, with `k` entries to go.
  pub walk_found :
      (p k i : ℕ) (fs : Option Content) (cs : List Content) (c : Content)
      → p ≡ i + k
      → get_elem? cs k ≡ some c
      → p ≤ cfg.cache_size
      → ((walk cfg l me (pos p) i fs cs).cit ≡ some c) × ((walk cfg l me (pos p) i fs cs).index ≡ p)
  unfolding walk
  walk_found p k i fs [] c g e h = cc
  walk_found p zero i fs (x ∷ cs) c g e h = ground arith
  walk_found p (suc k) i fs (x ∷ cs) c g e h =
      ground (arith, walk_found p k (i + 1) (some x) cs c (omega arith) e h)

  walk_end :
      (p k i : ℕ) (fs : Option Content) (cs : List Content)
      → p ≡ i + k
      → length cs ≤ k
      → i + length cs ≤ cfg.cache_size
      → ((walk cfg l me (pos p) i fs cs).cit ≡ none)
        × ((walk cfg l me (pos p) i fs cs).index ≡ i + length cs)
  unfolding walk
  walk_end p k i fs [] g e h = ground arith
  walk_end p zero i fs (x ∷ cs) g e h = absurd (omega arith)
  walk_end p (suc k) i fs (x ∷ cs) g e h =
      ground (arith, walk_end p k (i + 1) (some x) cs (omega arith) (omega arith) (omega arith))

-- An interest for any data with a chunk number, at a node that has registered for no letter and is
-- deputy or hands over, and, under DOW_INT_INT, has not asked for that name itself while it has such
-- content.
pub record Asked (cfg : Config) (l : CcnLite) (me : Identity) (n : Node) (pkt : Packet) (k : ℕ)
    : Type 0 where
  pub no_bounce : (cfg.int_int ≡ false) ⊎ (bounced cfg l me n pkt ≡ none)
  pub no_threshold : cfg.psr ≡ 0
  pub no_draw : cfg.rand_seeding ≡ false
  pub unregistered : me.is_registered ≡ false
  pub on_duty : (n.mode ≡ deputy) ⊎ (n.mode ≡ handover)
  pub for_all : leb 1 (l.prefix_match me.all_pfx pkt.name) ≡ true
  pub chunk : pkt.name.chunknum ≡ some (pos k)

module _ (cfg : Config) (l : CcnLite) (me : Identity) where
  -- In the round-robin build without DOW_PSR and DOW_RAND_SEEDING, where the node has not asked for the
  -- same itself, at a node that is
  -- deputy or hands over and has registered for no letter, an interest for any data with chunk
  -- number k < CCNLRIOT_CACHE_SIZE is passed on under the name of the k-th entry of the store, if
  -- there is one, without an ACK, and the node is then handing over.
  pub producer_serves :
      (d : Draw) (n : Node) (pkt : Packet) (k : ℕ) (c : Content)
      → Asked cfg l me n pkt k
      → cfg.deputy ≡ true
      → k < cfg.cache_size
      → get_elem? n.store.contents k ≡ some c
      → let r = producer cfg l me d n pkt in
        (r.handled ≡ false) × (r.name ≡ c.pkt.name) × (r.ack ≡ none) × (r.node.mode ≡ handover)
  unfolding producer answer reply fall_back
  producer_serves d n pkt k c asked robin small e = ground (
    arith,
    asked,
    walk_found cfg l me asked.unregistered k k 0 none n.store.contents c (omega arith) e
        (omega arith),
  )

  -- In the round-robin build without DOW_PSR and DOW_RAND_SEEDING, where the node has not asked for the
  -- same itself, at a node that is
  -- deputy or hands over and has registered for no letter, an interest for any data with the
  -- number of a chunk behind the last entry of a store that is not larger than CCNLRIOT_CACHE_SIZE
  -- is answered by an ACK with the number of entries, if one can be built; the manager is told to
  -- go inactive, and the store stays as it was.
  pub producer_ends :
      (d : Draw) (n : Node) (pkt : Packet) (k : ℕ)
      → Asked cfg l me n pkt k
      → cfg.deputy ≡ true
      → d.ack_built ≡ true
      → length n.store.contents ≤ k
      → length n.store.contents ≤ cfg.cache_size
      → let r = producer cfg l me d n pkt in
        (r.handled ≡ true)
        × (r.ack ≡ some (length n.store.contents))
        × (r.node.sent ≡ n.sent ++ go_inactive ∷ [])
        × (r.node.store ≡ n.store)
  unfolding producer answer reply fall_back
  producer_ends d n pkt k asked robin built far small = ground (
    arith,
    asked,
    walk_end cfg l me asked.unregistered k k 0 none n.store.contents (omega arith) far
        (omega arith),
  )

abbrev pub has_some : Option Content → Bool
has_some none = false
has_some (some c) = true

walk_full :
    (cfg : Config) (l : CcnLite) (me : Identity) (p j i : ℕ) (fs : Option Content)
    (cs : List Content)
    → me.is_registered ≡ false
    → i + j ≡ cfg.cache_size
    → j ≤ length cs
    → cfg.cache_size ≤ p
    → (1 ≤ j) ⊎ (has_some fs ≡ true)
    → ((walk cfg l me (pos p) i fs cs).index ≡ cfg.cache_size)
      × (has_some (walk cfg l me (pos p) i fs cs).failsafe ≡ true)
unfolding walk
walk_full cfg l me p zero i fs [] un g e h r = ground arith
walk_full cfg l me p zero i fs (x ∷ cs) un g e h r = ground arith
walk_full cfg l me p (suc j) i fs [] un g e h r = absurd (omega arith)
walk_full cfg l me p (suc j) i fs (x ∷ cs) un g e h r =
    ground (
      arith,
      walk_full cfg l me p j (i + 1) (some x) cs un (omega arith) (omega arith) h (inr refl),
    )

module _ (cfg : Config) (l : CcnLite) (me : Identity) where
  -- In a build with none of DOW_DEPUTY, DOW_PSR and DOW_RAND_SEEDING, without DOW_INT_INT or where no
  -- interest of the node itself comes back, and where the store holds CCNLRIOT_CACHE_SIZE entries or more and that size is not 0: at a node that is deputy or
  -- hands over and has registered for no letter, an interest for any data with a chunk number from
  -- that size on makes the node tell the manager to go inactive, and leaves its mode.
  pub producer_far-go_inactive :
      (d : Draw) (n : Node) (pkt : Packet) (k : ℕ)
      → Asked cfg l me n pkt k
      → cfg.deputy ≡ false
      → 1 ≤ cfg.cache_size
      → cfg.cache_size ≤ length n.store.contents
      → cfg.cache_size ≤ k
      → let r = producer cfg l me d n pkt in
        (r.handled ≡ true) × (r.node.sent ≡ n.sent ++ go_inactive ∷ []) × (r.node.mode ≡ n.mode)
  unfolding producer answer reply fall_back
  producer_far-go_inactive d n pkt k asked plain room full far = ground (
    arith,
    asked,
    walk_full cfg l me k cfg.cache_size 0 none n.store.contents asked.unregistered (omega arith)
        full far (inl room),
  )
