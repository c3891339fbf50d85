-- ===== src/Cache/Consumer/Own.antt =====
-- A node that is not deputy caches its own content, and flags it as the newest of its source.
use miniature_dangerzone.Common.{
  ℕ, ◌≤◌, ◌≡◌, refl, Bool, true, false, ◌&&◌, none, some, List, [], ◌∷◌, arith, pos, eqb_ℤ,
  if◌then◌else◌, count_if, map, Option-cases, inl, inr,
}
use miniature_dangerzone.Config.{Config, cont_len}
use miniature_dangerzone.Text.{hex8}
use miniature_dangerzone.Ccn.{
  compcnt, comp, memcmp_eq, Packet, Content, Identity, Store, CcnLite, Removes, Adds,
}
use miniature_dangerzone.Dow.{inactive, Node}
use miniature_dangerzone.Cache.Strategy.{cs_oldest_representative}
use miniature_dangerzone.Cache.Newest.{is_from, unflag, unflag_cs, removed_nothing, fresh}
use miniature_dangerzone.Cache.Newest.Sweep.{unflag_cs_lem}
use miniature_dangerzone.Cache.Newest.Order.{single_added}
use miniature_dangerzone.Cache.Consumer.{
  Draw, is_ack, own_content, unexpected, consumer, search_pit,
}

-- An entry of a source, by its number in hexadecimal, that is flagged as the newest one.
abbrev pub own_flagged : List ℕ → Content → Bool
own_flagged source x = x.user1 && is_from source x

cleared-count :
    (source : List ℕ) (cs : List Content)
    → count_if (own_flagged source) (map (λ x. if is_from source x then unflag x else x) cs) ≡ 0
cleared-count source [] = refl
cleared-count source (x ∷ cs) = ground (arith, cleared-count source cs)

swept_clean :
    (source : List ℕ) (cs : List Content)
    → count_if (own_flagged source) (unflag_cs source cs removed_nothing).1 ≡ 0
swept_clean source cs = rw (unflag_cs_lem source cs removed_nothing).0 (cleared-count source cs)

module _ (cfg : Config) (l : CcnLite) (strategy : Store → Content → Store) (me : Identity) where
  own_accepted :
      (d : Draw) (n : Node) (pkt : Packet) (a : ℕ) (s : Store)
      → memcmp_eq cont_len (hex8 me.my_id) (comp pkt.name 2) ≡ true
      → eqb_ℤ n.store.max_entries (pos 0) ≡ false
      → d.alloc ≡ some a
      → l.add2cache strategy
          (record n.store {
            contents = (unflag_cs (hex8 me.my_id) n.store.contents removed_nothing).1;
          })
          (record (fresh a pkt) { user1 = true; user2 = true })
        ≡ some s
      → (own_content cfg l strategy me d n pkt).node.store ≡ s
  unfolding own_content
  own_accepted d n pkt a s mine room got added = ground arith

module _ (cfg : Config) (l : CcnLite) (removes : Removes l) (me : Identity) where
  own_content_one_newest :
      (d : Draw) (n : Node) (pkt : Packet)
      → Adds l (cs_oldest_representative l me)
      → 4 ≤ compcnt pkt.name
      → memcmp_eq cont_len (hex8 me.my_id) (comp pkt.name 2) ≡ true
      → eqb_ℤ n.store.max_entries (pos 0) ≡ false
      → let o = own_content cfg l (cs_oldest_representative l me) me d n pkt in
        o.handled ≡ true
        → o.freed ≡ false
        → count_if (own_flagged (hex8 me.my_id)) o.node.store.contents ≡ 1
  unfolding own_content
  own_content_one_newest d n pkt adds long mine room handled kept = elim (Option-cases d.alloc) [
    | inl failed ↦ absurd (ground arith)
    | inr (a, got) ↦
        let source = hex8 me.my_id in
        let cs = (unflag_cs source n.store.contents removed_nothing).1 in
        let unflagged = record n.store { contents = cs } in
        let c = record (fresh a pkt) { user1 = true; user2 = true } in
        let strategy = cs_oldest_representative l me in
        elim (Option-cases (l.add2cache strategy unflagged c)) [
          | inl full ↦ absurd (ground arith)
          | inr (s, added) ↦
              let one =
                single_added cfg l removes me (own_flagged source) c unflagged s adds (λ x. refl)
                  (ground (arith, long, mine)) (swept_clean source n.store.contents) added in
              rw (own_accepted cfg l strategy me d n pkt a s mine room got added) one
        ]
  ]

  -- A node that is inactive, does not run in debug mode and finds no interest for the chunk gets a
  -- chunk of its own, not an acknowledgement, with at least four components in its name, and the
  -- limit of its store is not 0: if the callback handles the chunk and does not free it, the store
  -- then holds exactly one entry of the node's own that is flagged as its newest, whatever it held
  -- before.
  pub consumer_one_newest :
      (from : ℕ) (d : Draw) (n : Node) (pkt : Packet)
      → Adds l (cs_oldest_representative l me)
      → cfg.debug ≡ false
      → n.mode ≡ inactive
      → is_ack cfg l (cs_oldest_representative l me) me pkt ≡ false
      → search_pit cfg l (cs_oldest_representative l me) me from d n pkt ≡ none
      → 4 ≤ compcnt pkt.name
      → memcmp_eq cont_len (hex8 me.my_id) (comp pkt.name 2) ≡ true
      → eqb_ℤ n.store.max_entries (pos 0) ≡ false
      → (consumer cfg l (cs_oldest_representative l me) me from d n pkt).handled ≡ true
      → (consumer cfg l (cs_oldest_representative l me) me from d n pkt).freed ≡ false
      → count_if
          (own_flagged (hex8 me.my_id))
          (consumer cfg l (cs_oldest_representative l me) me from d n pkt).node.store.contents
        ≡ 1
  unfolding consumer unexpected
  consumer_one_newest from d n pkt adds release asleep no_ack no_interest long mine room handled
        kept =
      let own = own_content_one_newest d n pkt adds long mine room in ground (arith, own)
