-- ===== src/Dow/Takeover/Kept.antt =====
-- What the new deputy has in its store after a takeover.
use mathlib.Core.Path.{subst}
use miniature_dangerzone.Common.{
  ℕ, ◌<◌, ◌≡◌, refl, sym, ap, ◌∙◌, true, false, none, some, List, [], ◌∷◌, length, arith, All, ℤ,
  pos, eqb_ℤ, ltb, ◌&&◌, inl, inr, Option-cases,
}
use miniature_dangerzone.Config.{Config}
use miniature_dangerzone.Ccn.{Name, Content, Packet, Store, stamp, CcnLite, Identity, memcmp_eq}
use miniature_dangerzone.Dow.{deputy, Node}
use miniature_dangerzone.Cache.Newest.{
  removed_nothing, Removed, note_removed, fresh, change_at, restore, sweep, mark, tag, keep,
  handle_content,
}
use miniature_dangerzone.Cache.Consumer.{
  Draw, cont_ack, dow_content_size, clear_num, settle, remove_pit, answer_pit, cache_it, offered,
  asked_content, unexpected, match_pit, cont_is_dup, consumer,
}
use miniature_dangerzone.Dow.Takeover.Entries.{names}

-- What the application relies on: a store with room takes an entry of a new name in front of the
-- others, and leaves all else.
pub record Room (l : CcnLite) (strategy : Store → Content → Store) (capacity : ℕ) : Type 0 where
  pub takes :
      (s : Store) (c : Content)
      → length (names s.contents) < capacity
      → All (λ m. l.prefix_exact m c.pkt.name ≡ false) (names s.contents)
      → l.add2cache strategy s c ≡ some (record s { contents = c ∷ s.contents })

names-change_at :
    (a : ℕ) (f : Content → Content) (cs : List Content)
    → ((c : Content) → (f c).pkt.name ≡ c.pkt.name)
    → names (change_at a f cs) ≡ names cs
unfolding change_at
names-change_at a f [] same = refl
names-change_at a f (c ∷ cs) same = ground (arith, same c, names-change_at a f cs same)

names-sweep :
    (l : CcnLite) (n : Name) (ts : ℤ) (cs : List Content) (r : Removed)
    → names (sweep l n ts cs r).entries ≡ names cs
unfolding sweep
names-sweep l n ts [] r = refl
names-sweep l n ts (c ∷ cs) r =
    ground (arith, names-sweep l n ts cs r, names-sweep l n ts cs (note_removed c r))

names-tag :
    (cfg : Config) (l : CcnLite) (c : Content) (s : Store)
    → let (c', s') = tag cfg l c s in
      (c'.pkt ≡ c.pkt) × (names s'.contents ≡ names s.contents) × (s'.max_entries ≡ s.max_entries)
unfolding tag mark
names-tag cfg l c s =
    let w = sweep l c.pkt.name (stamp c) s.contents removed_nothing in
    let swept = names-sweep l c.pkt.name (stamp c) s.contents removed_nothing in
    elim (Option-cases w.newest) [
      | inl latest ↦ (ground arith, ground arith, ground arith)
      | inr (a, newer) ↦
          let marked =
            names-change_at a (restore (ltb 0 cfg.prio_cache && w.removed.prio_flag)) w.entries
              (λ x. refl) in
          (ground arith, ground arith, ground arith)
    ]

module _ (cfg : Config) (l : CcnLite) (strategy : Store → Content → Store) where
  keep-names :
      (capacity : ℕ) (c : Content) (s : Store)
      → Room l strategy capacity
      → eqb_ℤ s.max_entries (pos 0) ≡ false
      → length (names s.contents) < capacity
      → All (λ m. l.prefix_exact m c.pkt.name ≡ false) (names s.contents)
      → let s' = (keep cfg l strategy c s).0 in
        (names s'.contents ≡ c.pkt.name ∷ names s.contents) × (s'.max_entries ≡ s.max_entries)
  unfolding keep
  keep-names capacity c s room open_ short apart =
      let taken = room.takes s (record c { user2 = true }) short apart in
      rw (open_, taken) (refl, refl)

  -- A chunk of a new name comes in front of the entries of a store with room.
  handle_content-names :
      (capacity a : ℕ) (s : Store) (pkt : Packet)
      → Room l strategy capacity
      → eqb_ℤ s.max_entries (pos 0) ≡ false
      → length (names s.contents) < capacity
      → All (λ m. l.prefix_exact m pkt.name ≡ false) (names s.contents)
      → let s' = (handle_content cfg l strategy (some a) s pkt).0 in
        (names s'.contents ≡ pkt.name ∷ names s.contents) × (s'.max_entries ≡ s.max_entries)
  unfolding handle_content
  handle_content-names capacity a s pkt room open_ short apart =
      let served = record s { pit = l.serve_pending (fresh a pkt) s.pit } in
      let (same, kept, max) = names-tag cfg l (fresh a pkt) served in
      let (c', tagged) = tag cfg l (fresh a pkt) served in
      let name = ap (λ q. q.name) same in
      let (front, max') =
        keep-names capacity c' tagged room (ap (λ x. eqb_ℤ x (pos 0)) max ∙ open_)
          (subst (λ ns. length ns < capacity) (sym kept) short)
          (subst (λ ns. All (λ m. l.prefix_exact m c'.pkt.name ≡ false) ns) (sym kept)
            (subst (λ (n : Name). All (λ m. l.prefix_exact m n ≡ false) (names s.contents))
              (sym name) apart)) in
      (front ∙ ap (λ n. n ∷ names tagged.contents) name ∙ ap (λ ns. pkt.name ∷ ns) kept, max' ∙ max)

module _ (cfg : Config) (l : CcnLite) (strategy : Store → Content → Store) (me : Identity) where
  answer_pit_keeps :
      (all : Name) (num : ℤ) (s : Store)
      → ((answer_pit l all num s).contents ≡ s.contents)
        × ((answer_pit l all num s).max_entries ≡ s.max_entries)
  unfolding answer_pit remove_pit
  answer_pit_keeps all num s = ground arith

  settle-names : (a : ℕ) (s : Store) → names (settle (some a) s).contents ≡ names s.contents
  settle-names a s = names-change_at a clear_num s.contents (λ c. refl)

  -- What a deputy makes of its store with a chunk that it has asked for and does not have, where no
  -- other interest is pending for it.
  pub consumer_store :
      (a from : ℕ) (d : Draw) (n : Node) (pkt : Packet)
      → cfg.deputy ≡ true
      → cfg.debug ≡ false
      → cfg.int_int ≡ true
      → match_pit cfg l strategy me from d.loopback pkt.name n.store.pit ≡ none
      → cont_is_dup n.store.contents pkt ≡ false
      → d.alloc ≡ some a
      → n.mode ≡ deputy
      → memcmp_eq 3 pkt.value cont_ack ≡ false
      → pkt.contlen ≡ dow_content_size
      → (consumer cfg l strategy me from d n pkt).node.store
        ≡ settle
            (some a)
            (handle_content cfg l strategy (some a) (answer_pit l me.all_pfx pkt.num n.store) pkt).0
  unfolding consumer unexpected asked_content offered cache_it
  consumer_store a from d n pkt robin release bounces alone fresh_one got duty chunk size =
      ground arith

  -- It has the chunk in front.
  pub store-names :
      (capacity a : ℕ) (s : Store) (pkt : Packet)
      → Room l strategy capacity
      → eqb_ℤ s.max_entries (pos 0) ≡ false
      → length (names s.contents) < capacity
      → All (λ m. l.prefix_exact m pkt.name ≡ false) (names s.contents)
      → let s' =
          settle
            (some a)
            (handle_content cfg l strategy (some a) (answer_pit l me.all_pfx pkt.num s) pkt).0 in
        (names s'.contents ≡ pkt.name ∷ names s.contents) × (s'.max_entries ≡ s.max_entries)
  store-names capacity a s pkt room open_ short apart =
      let answered = answer_pit l me.all_pfx pkt.num s in
      let (kept, max) = answer_pit_keeps me.all_pfx pkt.num s in
      let same = ap names kept in
      let (front, max') =
        handle_content-names cfg l strategy capacity a answered pkt room
          (ap (λ x. eqb_ℤ x (pos 0)) max ∙ open_)
          (subst (λ ns. length ns < capacity) (sym same) short)
          (subst (λ ns. All (λ m. l.prefix_exact m pkt.name ≡ false) ns) (sym same) apart) in
      let s' = (handle_content cfg l strategy (some a) answered pkt).0 in
      (settle-names a s' ∙ front ∙ ap (λ ns. pkt.name ∷ ns) same, max' ∙ max)
