-- ===== src/Cache/Presence.antt =====
-- How often a node has seen interests for each letter: `dow_pfx_pres`, `_prefix_seen_interest` and
-- `ccnl_helper_prefix_under_represented` of ccnl_caching/ccnl_helper.c.
pub mod Tally
use mathlib.Core.Path.{subst}
use miniature_dangerzone.Common.{
  ℕ, zero, suc, ◌+◌, ◌-◌, ◌≤◌, ◌<◌, ◌≡◌, refl, Bool, true, false, ◌&&◌, ◌||◌, List, [], ◌∷◌, arith,
  u32, two32, ltb, ◌==◌, if◌then◌else◌, length, ap, ◌∙◌, count_if, count_if-le-length, All,
  Bool-cases, inl, inr, ◌≢◌,
}
use miniature_dangerzone.Config.{apmdmr_min_int, max_prefixes}

-- dow_pfx_presence_t
pub record Presence : Type 0 where
  pub pfx : ℕ
  pub count : ℕ  -- unsigned

abbrev pub empty_slot : Presence
empty_slot = record { pfx = 0; count = 0 }

-- A table of so many free slots; `memset(dow_pfx_pres, 0, …)` makes one of DOW_MAX_PREFIXES.
unfoldable pub free_table : ℕ → List Presence
free_table zero = []
free_table (suc n) = empty_slot ∷ free_table n

unfoldable pub under_represented : ℕ → List Presence → Bool
under_represented p [] = false
under_represented p (e ∷ es) =
    if e.pfx == 0
    then false
    else if e.pfx == p && ltb e.count apmdmr_min_int
    then true
    else under_represented p es

unfoldable pub seen_interest : ℕ → List Presence → List Presence
seen_interest p [] = []
seen_interest p (e ∷ es) =
    if e.pfx == p || e.pfx == 0
    then record { pfx = p; count = u32 (e.count + 1) } ∷ es
    else e ∷ seen_interest p es

-- The table after a history of interests, the latest one first.
unfoldable pub table : List ℕ → List Presence
table [] = free_table max_prefixes
table (c ∷ h) = seen_interest c (table h)
