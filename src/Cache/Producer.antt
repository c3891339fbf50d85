-- ===== src/Cache/Producer.antt =====
-- `ccnlriot_producer` of ccnl_caching/ccnl_helper.c, the callback for an incoming interest.
pub mod Handover
pub mod Frame
use miniature_dangerzone.Common.{
  ℕ, ◌+◌, ◌-◌, Bool, true, false, not, ◌&&◌, ◌||◌, Option, none, some, List, [], ◌∷◌, ℤ, pos,
  minus_one, u8, sub8, ltb, leb, ltb_ℤ, eqb_ℤ, ◌==◌, if◌then◌else◌, any_if, get_or,
}
use miniature_dangerzone.Config.{Config, keep_alive_period}
use miniature_dangerzone.Ccn.{
  Name, compcnt, comp, Packet, Content, Interest, Identity, Store, CcnLite,
}
use miniature_dangerzone.Dow.{
  handover, is_deputy, is_handover, is_inactive, is_stopped, go_inactive, received_int, Node, send,
}
use miniature_dangerzone.Cache.Presence.{seen_interest}
use miniature_dangerzone.Cache.Newest.{change_at}
use miniature_dangerzone.Cache.Consumer.{Draw, put_store}

-- The node after the callback, whether it answers 1, whether it has freed the packet, the name that
-- the packet bears then, and the number of the ACK that was enqueued, if one was.
pub record Reply : Type 0 where
  pub node : Node
  pub handled : Bool
  pub freed : Bool
  pub name : Name
  pub ack : Option ℕ

abbrev drop_it : Node → Packet → Reply
drop_it n pkt = record { node = n; handled = true; freed = true; name = pkt.name; ack = none }

abbrev pass_on : Node → Packet → Reply
pass_on n pkt = record { node = n; handled = false; freed = false; name = pkt.name; ack = none }

-- Where the walk through the store ends: the count `i`, the entry `cit`, and `failsafe`.
pub record Spot : Type 0 where
  pub index : ℕ
  pub cit : Option Content
  pub failsafe : Option Content

-- `cc->num = i`
abbrev pub set_num : ℕ → Content → Content
set_num i c = record c { pkt = (record c.pkt { num = pos i }) }

module _ (cfg : Config) (l : CcnLite) (me : Identity) where
  abbrev pub is_mine : Content → Bool
  is_mine c = not me.is_registered || leb 2 (l.prefix_match me.my_pfx c.pkt.name)

  -- `while ((i < pos) && (i < CCNLRIOT_CACHE_SIZE) && (cit != NULL))`
  unfoldable pub walk : ℤ → ℕ → Option Content → List Content → Spot
  walk p i failsafe [] = record { index = i; cit = none; failsafe = failsafe }
  walk p i failsafe (c ∷ cs) =
      let go_on = (if is_mine c then walk p (i + 1) (some c) cs else walk p i failsafe cs) in
      if ltb_ℤ (pos i) p && ltb i cfg.cache_size
      then go_on
      else record { index = i; cit = some c; failsafe = failsafe }

  -- Outside the round-robin mode the last entry passed serves where the walk ran out.
  unfoldable pub fall_back : Spot → Spot
  fall_back s =
      if cfg.deputy
      then s
      else if leb cfg.cache_size s.index
      then record s { cit = s.failsafe }
      else elim s.cit [ none ↦ record s { cit = s.failsafe } | some c ↦ s ]

  -- The reply at the end of the store: an ACK, and the request to the manager to go inactive.
  abbrev send_end : Draw → ℕ → Node → Packet → Reply
  send_end d i n pkt = record {
    node = send go_inactive n;
    handled = true;
    freed = true;
    name = pkt.name;
    ack = (if d.ack_built then some i else none);
  }

  abbrev serve : ℕ → Content → Node → Packet → Reply
  serve i c n pkt = record {
    node =
        put_store (record n.store { contents = change_at c.addr (set_num i) n.store.contents }) n;
    handled = false;
    freed = false;
    name = c.pkt.name;
    ack = none;
  }

  unfoldable pub reply : Draw → Spot → Node → Packet → Reply
  reply d s n pkt = elim s.cit [
    | none ↦ if cfg.deputy then send_end d s.index n pkt else drop_it n pkt
    | some c ↦
        if leb cfg.cache_size s.index then send_end d s.index n pkt else serve s.index c n pkt
  ]

  -- The interest asks for any data, or for data under the registered letter.
  abbrev pub asks_for_any : Packet → Bool
  asks_for_any pkt =
      leb 1 (l.prefix_match me.all_pfx pkt.name)
      || (me.is_registered && leb 2 (l.prefix_match me.my_pfx pkt.name))

  abbrev pub flags_suffice : Node → Bool
  flags_suffice n = cfg.psr == 0 || leb (cfg.cache_size - 1) n.store.flagged_cache

  -- The answer of a deputy to such an interest.
  unfoldable pub answer : Draw → Node → Packet → Reply
  unfolding walk fall_back reply
  answer d n pkt =
      let counted = record n { interest_count = u8 (n.interest_count + 1) } in
      elim pkt.name.chunknum [
        | none ↦ drop_it counted pkt
        | some k ↦
            let p = (if cfg.rand_seeding then pos d.random_chunk else k) in
            let handing = (if cfg.deputy then record counted { mode = handover } else counted) in
            if eqb_ℤ k minus_one
            then drop_it counted pkt
            else reply d (fall_back (walk p 0 none n.store.contents)) handing pkt
      ]

  -- The first exact match in the PIT.
  unfoldable pub find_exact : Name → List Interest → Option Interest
  find_exact n [] = none
  find_exact n (i ∷ is) = if l.prefix_exact i.name n then some i else find_exact n is

  -- The part under DOW_INT_INT: the interest that the node has sent itself comes back, and it has the
  -- content.
  unfoldable pub bounced : Node → Packet → Option Node
  unfolding find_exact
  bounced n pkt = elim (find_exact pkt.name n.store.pit) [
    | none ↦ none
    | some i ↦
        let told = send received_int (record n {
          store = (record n.store { pit = l.interest_remove i n.store.pit });
          prevent_sleep = sub8 n.prevent_sleep 1;
        }) in
        if any_if (λ c. l.prefix_exact c.pkt.name pkt.name) n.store.contents
        then some (
            if is_handover n.mode
            then told
            else record told { sleep_timer = some keep_alive_period })
        else none
  ]

  abbrev pub note_letter : Node → Packet → Node
  note_letter n pkt =
      if cfg.apmdmr
        && (not (leb 1 (l.prefix_match me.all_pfx pkt.name)) && ltb 1 (compcnt pkt.name))
      then record n { presence = seen_interest (get_or (comp pkt.name 1) 0 0) n.presence }
      else n

  -- The part behind the one under DOW_INT_INT.
  unfoldable pub produce : Draw → Node → Packet → Reply
  unfolding answer
  produce d n pkt =
      let n' = note_letter n pkt in
      if is_inactive n.mode
      then drop_it n pkt
      else if asks_for_any pkt && flags_suffice n'
      then if is_deputy n'.mode || is_handover n'.mode then answer d n' pkt else drop_it n' pkt
      else if not cfg.int_int || is_handover n'.mode
      then drop_it n' pkt
      else pass_on n' pkt

  unfoldable pub producer : Draw → Node → Packet → Reply
  unfolding produce bounced
  producer d n pkt =
      if is_stopped n.mode
      then drop_it n pkt
      else if cfg.int_int
      then elim (bounced n pkt) [ some n' ↦ pass_on n' pkt | none ↦ produce d n pkt ]
      else produce d n pkt
