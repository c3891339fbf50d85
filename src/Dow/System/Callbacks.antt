-- ===== src/Dow/System/Callbacks.antt =====
-- What the interest callback may do to the mode of the node.
use miniature_dangerzone.Common.{
  ◌+◌, ◌≡◌, ◌⊎◌, inl, inr, refl, arith, pos, u8, none, if◌then◌else◌, Option-cases, if_both, not,
  ◌&&◌, ◌||◌,
}
use miniature_dangerzone.Config.{Config}
use miniature_dangerzone.Ccn.{Packet, Identity, CcnLite}
use miniature_dangerzone.Dow.{handover, is_inactive, is_deputy, is_handover, Node}
use miniature_dangerzone.Cache.Consumer.{Draw}
use miniature_dangerzone.Cache.Producer.{
  Reply, note_letter, asks_for_any, flags_suffice, Spot, walk, fall_back, reply, answer, produce,
  bounced, producer,
}

module _ (cfg : Config) (l : CcnLite) (me : Identity) where
  reply_mode :
      (d : Draw) (s : Spot) (n : Node) (pkt : Packet)
      → (reply cfg l me d s n pkt).node.mode ≡ n.mode
  unfolding reply
  reply_mode d s n pkt = ground arith

  answer_mode :
      (d : Draw) (n : Node) (pkt : Packet)
      → let r = answer cfg l me d n pkt in (r.node.mode ≡ n.mode) ⊎ (r.node.mode ≡ handover)
  unfolding answer
  answer_mode d n pkt =
      let counted = record n { interest_count = u8 (n.interest_count + 1) } in
      elim (Option-cases pkt.name.chunknum) [
        | inl missing ↦ ground arith
        | inr (k, given) ↦
            let p = (if cfg.rand_seeding then pos d.random_chunk else k) in
            let s = fall_back cfg l me (walk cfg l me p 0 none n.store.contents) in
            let handing = (if cfg.deputy then record counted { mode = handover } else counted) in
            ground (arith, reply_mode d s handing pkt)
      ]

  produce_mode :
      (d : Draw) (n : Node) (pkt : Packet)
      → let r = produce cfg l me d n pkt in (r.node.mode ≡ n.mode) ⊎ (r.node.mode ≡ handover)
  unfolding produce
  produce_mode d n pkt =
      let n' = note_letter cfg l me n pkt in
      let same : n'.mode ≡ n.mode = ground arith in
      let answered = answer_mode d n' pkt in
      let P = λ (r : Reply). (r.node.mode ≡ n.mode) ⊎ (r.node.mode ≡ handover) in
      if_both P (is_inactive n.mode) _ _ (inl refl) (
        if_both P (asks_for_any cfg l me pkt && flags_suffice cfg l me n') _ _
          (if_both P (is_deputy n'.mode || is_handover n'.mode) _ _ (ground (arith, answered, same))
            (inl same))
          (if_both P (not cfg.int_int || is_handover n'.mode) _ _ (inl same) (inl same)))

  -- It stays, or the node hands over.
  pub producer_mode :
      (d : Draw) (n : Node) (pkt : Packet)
      → let r = producer cfg l me d n pkt in (r.node.mode ≡ n.mode) ⊎ (r.node.mode ≡ handover)
  unfolding producer bounced
  producer_mode d n pkt = ground (arith, produce_mode d n pkt)
