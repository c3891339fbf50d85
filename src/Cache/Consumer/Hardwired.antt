-- ===== src/Cache/Consumer/Hardwired.antt =====
-- What a deputy with a manual number does with chunks that are broadcast.
use miniature_dangerzone.Common.{
  to_uint32, ℕ, ◌+◌, ◌%◌, ◌<◌, ◌≡◌, true, false, arith, none, two32, sub32, Bool-cases, inl, inr,
  ◌⊎◌, ap, ◌∙◌,
}
use miniature_dangerzone.Config.{Config}
use miniature_dangerzone.Ccn.{comp, Packet, Content, Identity, Store, CcnLite}
use miniature_dangerzone.Text.{strtol16, to_long, hex8}
use miniature_dangerzone.Text.Hex.{strtol16-hex8}
use miniature_dangerzone.Dow.{deputy, Node}
use miniature_dangerzone.Cache.Newest.{handle_content}
use miniature_dangerzone.Cache.Window.{check_in_range, check_in_range_iff}
use miniature_dangerzone.Cache.Consumer.{
  Draw, cache_it, broadcast_content, unexpected, is_ack, search_pit, consumer, is_in_window,
}

reads_back : (source : ℕ) → source < 2147483648 → to_uint32 (strtol16 (hex8 source)) ≡ source
reads_back source low = rw (strtol16-hex8 source (omega arith)) (unfold to_long in ground arith)

module _ (cfg : Config) (l : CcnLite) (strategy : Store → Content → Store) (me : Identity) where
  -- A deputy with a manual number, in a build where nobody asks for chunks, that gets a chunk which
  -- is no acknowledgement and that no pending interest asks for. If the source that the chunk names
  -- (numbers below 2^31 are named) is reached from the node's own number in fewer than
  -- CCNLRIOT_CACHE_SIZE - 1 steps (2^32 - 1 for size 0) on the ring of all sources, the chunk is handled as content for the
  -- cache. If not, the node stays as it was, and the packet is freed.
  pub consumer_hardwired :
      (from source : ℕ) (d : Draw) (n : Node) (pkt : Packet)
      → cfg.debug ≡ false
      → cfg.deputy ≡ false
      → cfg.per ≡ 0
      → n.mode ≡ deputy
      → me.manual_id ≡ true
      → is_ack cfg l strategy me pkt ≡ false
      → search_pit cfg l strategy me from d n pkt ≡ none
      → comp pkt.name 2 ≡ hex8 source
      → source < 2147483648
      → source < me.num_src
      → me.my_id < me.num_src
      → me.num_src < two32
      → let o = consumer cfg l strategy me from d n pkt in
        ((k : ℕ) × (k < sub32 cfg.cache_size 1)
          × ((me.my_id + k) % me.num_src ≡ source)
          × (o.node.store ≡ (handle_content cfg l strategy d.alloc n.store pkt).0))
        ⊎ (((o.node ≡ n) × (o.handled ≡ true) × (o.freed ≡ true)))
  unfolding consumer unexpected broadcast_content cache_it
  consumer_hardwired from source d n pkt release alone none_asked duty manual no_ack no_interest
        named low known me_known small =
      let window : is_in_window cfg l strategy me pkt
          ≡ check_in_range me.my_id source (sub32 cfg.cache_size 1) me.num_src =
        ap (λ x. check_in_range me.my_id x (sub32 cfg.cache_size 1) me.num_src)
          (ap (λ s. to_uint32 (strtol16 s)) named ∙ reads_back source low) in
      let way =
        check_in_range_iff me.my_id source (sub32 cfg.cache_size 1) me.num_src me_known known
          small in
      elim (Bool-cases (check_in_range me.my_id source (sub32 cfg.cache_size 1) me.num_src)) [
        | inl near ↦
            let (k, short, there) = way.0 near in inl (k, short, there, ground (arith, window))
        | inr away ↦ inr (ground (arith, window))
      ]
