-- ===== src/Cache/Newest.antt =====
-- How the store keeps track of the newest value of each source: `_unflag_cs` and
-- `_ccnl_helper_handle_content` of ccnl_caching/ccnl_helper.c.
pub mod Sweep
pub mod Order
pub mod Prio
use miniature_dangerzone.Common.{
  ℕ, ◌+◌, Bool, true, false, not, ◌&&◌, ◌||◌, Option, none, some, List, [], ◌∷◌, map, ℤ, pos, u8,
  ltb, leb, ltb_ℤ, eqb_ℤ, ◌==◌, if◌then◌else◌,
}
use miniature_dangerzone.Config.{Config, cont_len}
use miniature_dangerzone.Ccn.{
  Name, compcnt, comp, Packet, Content, stamp, Store, CcnLite, memcmp_eq,
}

-- ccnl_helper_removed_t, a set of two flags.
pub record Removed : Type 0 where
  pub newest_flag : Bool  -- CCNL_HELPER_REMOVED_NEWEST_FLAG
  pub prio_flag : Bool  -- CCNL_HELPER_REMOVED_PRIO_FLAG

-- CCNL_HELPER_REMOVED_NOTHING
abbrev pub removed_nothing : Removed
removed_nothing = record { newest_flag = false; prio_flag = false }

-- Both flags of an entry are cleared, and what was cleared is added to the set.
abbrev pub unflag : Content → Content
unflag c = record c { user1 = false; static = false }

abbrev pub note_removed : Content → Removed → Removed
note_removed c r = record {
  newest_flag = r.newest_flag || c.user1;
  prio_flag = r.prio_flag || c.static;
}

abbrev pub is_from : List ℕ → Content → Bool
is_from source c = ltb 3 (compcnt c.pkt.name) && memcmp_eq cont_len source (comp c.pkt.name 2)

-- The loop of `_unflag_cs`: what was removed, and the entries.
unfoldable pub unflag_cs : List ℕ → List Content → Removed → Removed × List Content
unflag_cs source [] r = (r, [])
unflag_cs source (c ∷ cs) r =
    let hit = is_from source c in
    let (r', cs') = unflag_cs source cs (if hit then note_removed c r else r) in
    (r', (if hit then unflag c else c) ∷ cs')

-- The state behind the loop of `_ccnl_helper_handle_content`; `newest` is the address that the
-- variable of that name points to.
pub record Swept : Type 0 where
  pub removed : Removed
  pub entries : List Content
  pub newest : Option ℕ

abbrev cons_entry : Content → Swept → Swept
cons_entry c w = record w { entries = c ∷ w.entries }

abbrev pub is_of : CcnLite → Name → Content → Bool
is_of l n cit = not (ltb (compcnt cit.pkt.name) 4) && leb 3 (l.prefix_match cit.pkt.name n)

-- The loop, for the name and the time stamp of the new chunk. It stops at an entry that is newer.
unfoldable pub sweep : CcnLite → Name → ℤ → List Content → Removed → Swept
sweep l n c_ts [] r = record { removed = r; entries = []; newest = none }
sweep l n c_ts (cit ∷ cs) r =
    let passed_over = cons_entry cit (sweep l n c_ts cs r) in
    let unflagged = cons_entry (unflag cit) (sweep l n c_ts cs (note_removed cit r)) in
    if is_of l n cit
    then if ltb_ℤ c_ts (stamp cit)
      then record {
        removed = note_removed cit r;
        entries = unflag cit ∷ cs;
        newest = some cit.addr;
      }
      else unflagged
    else passed_over

-- A change of the entry at an address.
unfoldable pub change_at : ℕ → (Content → Content) → List Content → List Content
change_at a f [] = []
change_at a f (c ∷ cs) = if c.addr == a then f c ∷ cs else c ∷ change_at a f cs

-- `newest->flags |= …`
abbrev pub restore : Bool → Content → Content
restore prio c = record c { user1 = true; static = c.static || prio }

-- The flags that the chunk or the newer entry gets behind the loop: the chunk, and the store.
unfoldable pub mark : Config → Swept → Content → Store → Content × Store
mark cfg w c s = elim w.newest [
  | none ↦
      if ltb 0 cfg.prio_cache
      then if not w.removed.newest_flag && ltb s.prio_cache_cnt cfg.prio_cache
        then (
          record c { user1 = true; static = true },
          record s { contents = w.entries; prio_cache_cnt = u8 (s.prio_cache_cnt + 1) },
        )
        else (
          record c { user1 = true; static = c.static || w.removed.prio_flag },
          record s { contents = w.entries },
        )
      else (record c { user1 = true }, record s { contents = w.entries })
  | some a ↦ (
    c,
    record s {
      contents = change_at a (restore (ltb 0 cfg.prio_cache && w.removed.prio_flag)) w.entries;
    },
  )
]

-- The loop, and what follows it: the chunk and the store with their flags.
unfoldable pub tag : Config → CcnLite → Content → Store → Content × Store
tag cfg l c s = mark cfg (sweep l c.pkt.name (stamp c) s.contents removed_nothing) c s

-- ccnl_content_new: a new entry without flags.
abbrev pub fresh : ℕ → Packet → Content
fresh a pkt = record { addr = a; pkt = pkt; user1 = false; user2 = false; static = false }

module _ (cfg : Config) (l : CcnLite) (strategy : Store → Content → Store) where
  -- The chunk with the second flag goes into the store, unless it takes none.
  unfoldable pub keep : Content → Store → Store × Bool
  keep c s =
      if eqb_ℤ s.max_entries (pos 0)
      then (s, false)
      else elim (l.add2cache strategy s (record c { user2 = true })) [
        | none ↦ (s, false)
        | some s' ↦ (s', true)
      ]

  -- `_ccnl_helper_handle_content`. The address is what `ccnl_content_new` allocates; `none` is NULL.
  unfoldable pub handle_content : Option ℕ → Store → Packet → Store × Bool
  handle_content none s pkt = (s, false)
  handle_content (some a) s pkt =
      let c = fresh a pkt in
      let served = record s { pit = l.serve_pending c s.pit } in
      let (c', tagged) = tag cfg l c served in keep c' tagged
