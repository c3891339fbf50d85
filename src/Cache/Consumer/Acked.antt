-- ===== src/Cache/Consumer/Acked.antt =====
-- What an acknowledgement does to the interests that are pending: `_remove_pit` in the consumer
-- callback.
use miniature_dangerzone.Common.{
  ℕ, ◌≡◌, refl, ap, ◌∙◌, ◌++◌, [], ◌∷◌, List, ℤ, pos, Bool, true, false, arith, ltb_ℤ, All, ◌==◌,
  some, ◌&&◌, leb,
}
use miniature_dangerzone.Config.{Config}
use miniature_dangerzone.Ccn.{
  Name, Packet, Content, Interest, Identity, Store, CcnLite, Removes, unlink_interest,
}
use miniature_dangerzone.Dow.{received_ack, is_stopped, is_handover, Node}
use miniature_dangerzone.Cache.Consumer.{
  Draw, has_chunk, find_pit, remove_pit, answer_pit, is_ack, consumer,
}

-- A pending interest that an acknowledgement of the chunk answers.
abbrev pub asks : CcnLite → Name → ℤ → Interest → Bool
asks l all num i = leb 1 (l.prefix_match all i.name) && has_chunk num i.name.chunknum

find_pit_first :
    (l : CcnLite) (all : Name) (num : ℤ) (before after : List Interest) (i : Interest)
    → All (λ x. asks l all num x ≡ false) before
    → asks l all num i ≡ true
    → find_pit l all num (before ++ i ∷ after) ≡ some i
unfolding find_pit
find_pit_first l all num [] after i none_before here = rw here refl
find_pit_first l all num (x ∷ xs) after i none_before here =
    rw none_before.0 (find_pit_first l all num xs after i none_before.1 here)

unlink_interest_first :
    (before after : List Interest) (i : Interest)
    → All (λ x. (x.addr == i.addr) ≡ false) before
    → unlink_interest i.addr (before ++ i ∷ after) ≡ before ++ after
unfolding unlink_interest
unlink_interest_first [] after i apart = ground arith
unlink_interest_first (x ∷ xs) after i apart =
    rw apart.0 (ap (◌∷◌ x) (unlink_interest_first xs after i apart.1))

remove_pit_first :
    (l : CcnLite) (all : Name) (num : ℤ) (s : Store) (before after : List Interest) (i : Interest)
    → Removes l
    → s.pit ≡ before ++ i ∷ after
    → All (λ x. asks l all num x ≡ false) before
    → asks l all num i ≡ true
    → All (λ x. (x.addr == i.addr) ≡ false) before
    → remove_pit l all num s ≡ record s { pit = before ++ after }
unfolding remove_pit
remove_pit_first l all num s before after i removes pit none_before here apart =
    let found : find_pit l all num s.pit ≡ some i =
      ap (find_pit l all num) pit ∙ find_pit_first l all num before after i none_before here in
    let gone : l.interest_remove i s.pit ≡ before ++ after =
      removes.interest_removed i s.pit
      ∙ ap (unlink_interest i.addr) pit
      ∙ unlink_interest_first before after i apart in
    rw (found, gone, remove_pit) refl

module _ (cfg : Config) (l : CcnLite) (strategy : Store → Content → Store) (me : Identity) where
  -- At a node that is neither stopped nor handing over, an acknowledgement of a chunk takes out the
  -- first of the pending interests that ask for that chunk of any data, where no interest in front of
  -- it has its address: those in front of it and those behind stay as they are. The content stays,
  -- and the manager gets one message.
  pub consumer_acknowledged :
      (from : ℕ) (d : Draw) (n : Node) (pkt : Packet) (before after : List Interest) (i : Interest)
      → Removes l
      → is_stopped n.mode ≡ false
      → is_handover n.mode ≡ false
      → is_ack cfg l strategy me pkt ≡ true
      → ltb_ℤ pkt.num (pos 0) ≡ false
      → n.store.pit ≡ before ++ i ∷ after
      → All (λ x. asks l me.all_pfx pkt.num x ≡ false) before
      → asks l me.all_pfx pkt.num i ≡ true
      → All (λ x. (x.addr == i.addr) ≡ false) before
      → let o = consumer cfg l strategy me from d n pkt in
        (o.node.store.pit ≡ before ++ after)
        × (o.node.store.contents ≡ n.store.contents)
        × (o.node.sent ≡ n.sent ++ received_ack ∷ [])
  unfolding consumer answer_pit
  consumer_acknowledged from d n pkt before after i removes running settled ack asked pit
        none_before here apart =
      let gone =
        remove_pit_first l me.all_pfx pkt.num n.store before after i removes pit none_before here
          apart in
      (ground (arith, gone), ground (arith, gone), ground (arith, gone))
