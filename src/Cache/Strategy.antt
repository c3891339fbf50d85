-- ===== src/Cache/Strategy.antt =====
-- The replacement strategy `cs_oldest_representative` of ccnl_caching/ccnl_helper.c, and
-- `ccnl_helper_reset`. The lock that the function gives up around a removal is not modelled: all
-- of it runs in the thread of CCN-lite, the only one that changes the store.
pub mod Scan
pub mod Victim
pub mod Kept
pub mod Late
use miniature_dangerzone.Common.{
  ℕ, ◌+◌, Bool, true, false, not, ◌&&◌, ◌||◌, Option, none, some, List, [], ◌∷◌, map, ℤ, pos, u8,
  ltb, leb, ltb_ℤ, eqb_ℤ, ◌==◌, if◌then◌else◌, get_or,
}
use miniature_dangerzone.Ccn.{Name, compcnt, comp, Content, stamp, Identity, Store, CcnLite}

-- `cit->flags &= ~CCNL_CONTENT_FLAGS_USER2` on every entry.
abbrev pub clear_user2 : Content → Content
clear_user2 c = record c { user2 = false }

unfoldable pub reset : Store → Store
reset s = record s { contents = map clear_user2 s.contents }

-- A pair of variables such as `oldest` and `oldest_ts`.
pub record Best : Type 0 where
  pub entry : Option Content
  pub ts : ℤ

abbrev pub no_best : Best
no_best = record { entry = none; ts = pos 0 }

-- `if ((ts == 0) || (c2_ts < ts)) { ts = c2_ts; entry = c2; }`, under a test.
unfoldable pub offer : Bool → Content → Best → Best
offer test c b =
    if test && (eqb_ℤ b.ts (pos 0) || ltb_ℤ (stamp c) b.ts)
    then record { entry = some c; ts = stamp c }
    else b

pub record Candidates : Type 0 where
  pub oldest : Best
  pub oldest_same : Best
  pub oldest_unflagged : Best
  pub oldest_unregistered : Best
  pub count_user2 : ℕ

abbrev pub no_scan : Candidates
no_scan = record {
  oldest = no_best;
  oldest_same = no_best;
  oldest_unflagged = no_best;
  oldest_unregistered = no_best;
  count_user2 = 0;
}

-- The tests of the loop's body.
abbrev pub is_evictable : Content → Bool
is_evictable c2 = not c2.static

-- The name is that of the new entry.
abbrev pub is_same : CcnLite → Name → Content → Bool
is_same l n c2 = is_evictable c2 && leb 3 (l.prefix_match n c2.pkt.name)

abbrev pub is_unflagged : Content → Bool
is_unflagged c2 = is_evictable c2 && not c2.user1

abbrev pub is_unregistered : Identity → Content → Bool
is_unregistered me c2 =
    is_evictable c2 && (me.is_registered && not (get_or (comp c2.pkt.name 1) 0 0 == me.registered))

-- `if (!_first_time_full) { ccnl_helper_reset(); _first_time_full = true; }`
unfoldable pub fill : Store → Store
unfolding reset
fill s = if s.first_time_full then s else record (reset s) { first_time_full = true }

module _ (l : CcnLite) where
  -- `ccnl_content_remove(relay, victim)`, and the count of entries that bear the second flag, which
  -- is kept in a `uint8_t`.
  unfoldable pub evict : Content → ℕ → Store → Store
  evict victim count s = record s {
    contents = l.content_remove victim s.contents;
    flagged_cache = u8 count;
  }

  -- The chain of tests behind the loop. `c_ts` is the time stamp of the new entry.
  unfoldable pub choose : ℤ → Candidates → Store → Store
  choose c_ts t s = if ltb_ℤ c_ts t.oldest_same.ts then s else elim t.oldest_same.entry [
    | some victim ↦ evict victim t.count_user2 s
    | none ↦ elim t.oldest_unflagged.entry [
      | some victim ↦ evict victim t.count_user2 s
      | none ↦ elim t.oldest_unregistered.entry [
        | some victim ↦ evict victim t.count_user2 s
        | none ↦
            if ltb_ℤ c_ts t.oldest.ts
            then s
            else elim t.oldest.entry [ some victim ↦ evict victim t.count_user2 s | none ↦ s ]
      ]
    ]
  ]

module _ (l : CcnLite) (me : Identity) where
  -- The body of the loop, for the new entry's name and a stored entry.
  unfoldable pub scan_step : Name → Content → Candidates → Candidates
  scan_step n c2 s = if ltb (compcnt n) 4 then s else record {
    oldest = offer (is_evictable c2) c2 s.oldest;
    oldest_same = offer (is_same l n c2) c2 s.oldest_same;
    oldest_unflagged = offer (is_unflagged c2) c2 s.oldest_unflagged;
    oldest_unregistered = offer (is_unregistered me c2) c2 s.oldest_unregistered;
    count_user2 = (if c2.user2 then s.count_user2 + 1 else s.count_user2);
  }

  unfoldable pub scan : Name → List Content → Candidates → Candidates
  scan n [] s = s
  scan n (c2 ∷ cs) s = scan n cs (scan_step n c2 s)

  -- The whole callback; it answers 1 on every path.
  unfoldable pub cs_oldest_representative : Store → Content → Store
  cs_oldest_representative s c =
      let s' = fill s in choose l (stamp c) (scan c.pkt.name s'.contents no_scan) s'
