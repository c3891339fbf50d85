-- ===== src/Cache/Consumer.antt =====
-- `ccnlriot_consumer` of ccnl_caching/ccnl_helper.c, the callback for an incoming chunk, with
-- `_remove_pit` and `_cont_is_dup`.
pub mod Own
pub mod Hardwired
pub mod Acked
pub mod Frame
use miniature_dangerzone.Common.{
  to_uint32, ℕ, ◌+◌, ◌-◌, Bool, true, false, not, ◌&&◌, ◌||◌, Option, none, some, List, [], ◌∷◌, ℤ,
  pos, negsuc, minus_one, two32, sub32, ltb, leb, ltb_ℤ, eqb_ℤ, ◌==◌, if◌then◌else◌, any_if, get_or,
}
use miniature_dangerzone.Config.{Config, cont_len}
use miniature_dangerzone.Text.{hex8, strtol16}
use miniature_dangerzone.Ccn.{
  Name, comp, Packet, Content, Interest, Identity, Store, CcnLite, bytes_eq, memcmp_eq,
}
use miniature_dangerzone.Dow.{
  Mode, deputy, is_deputy, is_handover, is_stopped, received, received_ack, Node, send,
}
use miniature_dangerzone.Cache.Newest.{
  Removed, removed_nothing, unflag_cs, fresh, change_at, handle_content,
}
use miniature_dangerzone.Cache.Window.{check_in_range}

-- CCNLRIOT_CONT_ACK
abbrev pub cont_ack : List ℕ
cont_ack = b'A' ∷ b'C' ∷ b'K' ∷ []

-- sizeof(dow_content_t): nine characters and a 32-bit number, packed.
abbrev pub dow_content_size : ℕ
dow_content_size = 13

-- Two frames, neither NULL, of equal length and bytes.
abbrev pub same_frame : Option (List ℕ) → Option (List ℕ) → Bool
same_frame (some a) (some b) = bytes_eq a b
same_frame (some a) none = false
same_frame none b = false

unfoldable pub cont_is_dup : List Content → Packet → Bool
cont_is_dup cs pkt = any_if (λ c. same_frame c.pkt.frame pkt.frame) cs

-- `*(i->pkt->pfx->chunknum) == num`. The source reads through the pointer without a check; a NULL
-- pointer, where that read is undefined, is no match here.
abbrev pub has_chunk : ℤ → Option ℤ → Bool
has_chunk num none = false
has_chunk num (some k) = eqb_ℤ k num

-- The first pending interest for all data with the chunk number.
unfoldable pub find_pit : CcnLite → Name → ℤ → List Interest → Option Interest
find_pit l all num [] = none
find_pit l all num (i ∷ is) =
    if leb 1 (l.prefix_match all i.name) && has_chunk num i.name.chunknum
    then some i
    else find_pit l all num is

unfoldable pub remove_pit : CcnLite → Name → ℤ → Store → Store
remove_pit l all num s = elim (find_pit l all num s.pit) [
  | none ↦ s
  | some i ↦ record s { pit = l.interest_remove i s.pit }
]

-- `if (cc->num >= 0) { _remove_pit(relay, cc->num); }`
unfoldable pub answer_pit : CcnLite → Name → ℤ → Store → Store
unfolding remove_pit find_pit
answer_pit l all num s = if ltb_ℤ num (pos 0) then s else remove_pit l all num s

-- What a call meets outside: the allocation by `ccnl_content_new`, the draw DOW_DO_CACHE, the
-- number of the loopback face, the draw DOW_RANDOM_CHUNK, and whether an ACK can be built.
pub record Draw : Type 0 where
  pub alloc : Option ℕ
  pub do_cache : Bool
  pub loopback : ℕ
  pub random_chunk : ℕ
  pub ack_built : Bool

-- The node after a callback, whether it answers 1, and whether it has freed the packet.
pub record Outcome : Type 0 where
  pub node : Node
  pub handled : Bool
  pub freed : Bool

abbrev pub put_store : Store → Node → Node
put_store s n = record n { store = s }

-- `cc->num = -1`, which writes into the stored entry, since `cc` points into its packet.
abbrev pub clear_num : Content → Content
clear_num c = record c { pkt = (record c.pkt { num = minus_one }) }

abbrev pub settle : Option ℕ → Store → Store
settle none s = s
settle (some a) s = record s { contents = change_at a clear_num s.contents }

abbrev is_alloc : Option ℕ → Bool
is_alloc none = false
is_alloc (some a) = true

module _ (cfg : Config) (l : CcnLite) (strategy : Store → Content → Store) (me : Identity) where
  abbrev pub is_ack : Packet → Bool
  is_ack pkt = leb 1 (l.prefix_match me.all_pfx pkt.name) && memcmp_eq 3 pkt.value cont_ack

  -- The loop for an exact match in the PIT under DOW_INT_INT. A match on the chunk's own face is
  -- bound to the loopback face instead; `none` means that there is no match.
  unfoldable pub match_pit : ℕ → ℕ → Name → List Interest → Option (List Interest)
  match_pit from loopback n [] = none
  match_pit from loopback n (i ∷ is) =
      if l.prefix_exact i.name n
      then some ((if i.face == from then record i { pending = loopback } else i) ∷ is)
      else elim (match_pit from loopback n is) [ none ↦ none | some is' ↦ some (i ∷ is') ]

  -- A chunk for a node that is not deputy: only its own content is cached.
  unfoldable pub own_content : Draw → Node → Packet → Outcome
  own_content d n pkt =
      if not cfg.debug && not (memcmp_eq cont_len (hex8 me.my_id) (comp pkt.name 2))
      then record { node = n; handled = true; freed = true }
      else if eqb_ℤ n.store.max_entries (pos 0)
      then record { node = n; handled = true; freed = false }
      else elim d.alloc [
        | none ↦ record { node = n; handled = false; freed = false }
        | some a ↦
            let cs = (unflag_cs (hex8 me.my_id) n.store.contents removed_nothing).1 in
            let c = record (fresh a pkt) { user1 = true; user2 = true } in
            let unflagged = record n.store { contents = cs } in
            let note = λ (m : Node). if cfg.int_int then send received m else m in
            elim (l.add2cache strategy unflagged c) [
              | none ↦ record { node = note (put_store unflagged n); handled = true; freed = true }
              | some s ↦ record { node = note (put_store s n); handled = true; freed = false }
            ]
      ]

  -- `_ccnl_helper_handle_content` as the callback calls it.
  unfoldable pub cache_it : Draw → Node → Packet → Outcome
  cache_it d n pkt =
      let (s, ok) = handle_content cfg l strategy d.alloc n.store pkt in
      record { node = put_store s n; handled = ok; freed = is_alloc d.alloc && not ok }

  abbrev pub is_wanted : Draw → Packet → Bool
  is_wanted d pkt =
      (me.is_registered && get_or (comp pkt.name 1) 0 0 == me.registered) || d.do_cache

  abbrev pub is_in_window : Packet → Bool
  is_in_window pkt =
      check_in_range me.my_id (to_uint32 (strtol16 (comp pkt.name 2))) (sub32 cfg.cache_size 1)
        me.num_src

  abbrev untouched : Node → Outcome
  untouched n = record { node = n; handled = true; freed = false }

  -- What a deputy does with content where deputies ask for chunks (DOW_DEPUTY or DOW_PER): `none`
  -- is the early return behind the draw. Without DOW_INT_INT, the parentheses of the last condition do
  -- not balance in the source, so that no such build compiles; it is written as it is meant.
  unfoldable pub offered : Bool → Draw → Node → Packet → Option Outcome
  unfolding cache_it
  offered is_dup d n pkt =
      if cfg.int_int
      then some (if is_dup then untouched n else cache_it d n pkt)
      else if me.manual_id
      then some (if is_in_window pkt then cache_it d n pkt else untouched n)
      else if is_wanted d pkt
      then some (cache_it d n pkt)
      else none

  -- The end of that branch: waiters are told, and the chunk number is reset.
  abbrev notify : Draw → ℤ → Outcome → Outcome
  notify d num o =
      let told = (if ltb_ℤ num (pos 0) then o.node else send received o.node) in
      record o { node = put_store (settle d.alloc told.store) told }

  unfoldable pub asked_content : Bool → Draw → Node → Packet → Outcome
  unfolding offered answer_pit
  asked_content is_dup d n pkt =
      if pkt.contlen == dow_content_size
      then (let answered = put_store (answer_pit l me.all_pfx pkt.num n.store) n in
          elim (offered is_dup d answered pkt) [
            | none ↦ record { node = answered; handled = false; freed = false }
            | some o ↦ notify d pkt.num o
          ])
      else record { node = n; handled = false; freed = false }

  -- What a deputy does with content that was broadcast.
  unfoldable pub broadcast_content : Draw → Node → Packet → Outcome
  unfolding cache_it
  broadcast_content d n pkt =
      if me.manual_id
      then if is_in_window pkt
        then cache_it d n pkt
        else record { node = n; handled = true; freed = true }
      else if is_wanted d pkt
      then cache_it d n pkt
      else record { node = n; handled = false; freed = false }

  -- The part behind the search of the PIT, where no interest matches.
  unfoldable pub unexpected : Bool → Draw → Node → Packet → Outcome
  unfolding own_content asked_content broadcast_content
  unexpected is_dup d n pkt =
      let n' = (if cfg.debug then record n { mode = deputy } else n) in
      if is_deputy n'.mode
      then if cfg.deputy || ltb 0 cfg.per
        then asked_content is_dup d n' pkt
        else broadcast_content d n' pkt
      else own_content d n' pkt

  -- The search of the PIT, under DOW_INT_INT.
  abbrev pub search_pit : ℕ → Draw → Node → Packet → Option (List Interest)
  search_pit from d n pkt =
      if cfg.int_int && not (cont_is_dup n.store.contents pkt)
      then match_pit from d.loopback pkt.name n.store.pit
      else none

  unfoldable pub consumer : ℕ → Draw → Node → Packet → Outcome
  unfolding unexpected
  consumer from d n pkt =
      if is_stopped n.mode
      then record { node = n; handled = true; freed = true }
      else if cfg.deputy && is_handover n.mode
      then record { node = n; handled = true; freed = true }
      else if is_ack pkt
      then record {
        node = send received_ack (put_store (answer_pit l me.all_pfx pkt.num n.store) n);
        handled = true;
        freed = true;
      }
      else elim (search_pit from d n pkt) [
        | some pit ↦ record {
          node = put_store (record n.store { pit = pit }) n;
          handled = false;
          freed = false;
        }
        | none ↦ unexpected (cont_is_dup n.store.contents pkt) d n pkt
      ]
