-- ===== src/Shell/Settings/Cached.antt =====
-- What the command `dc` of ccnl_caching/main.c puts into the cache, and what `cachesize` does with -1.
use miniature_dangerzone.Common.{
  ℕ, ◌≤◌, ◌≡◌, refl, true, false, some, List, [], ◌∷◌, arith, minus_one, length,
}
use miniature_dangerzone.Config.{Config}
use miniature_dangerzone.Text.{
  strtol10, is_space, skip_space, signed10, decimal_value, decimals, to_neg_long,
}
use miniature_dangerzone.Text.Buffer.{c_string, NoNul}
use miniature_dangerzone.Cache.Packets.{Made}
use miniature_dangerzone.Cache.Packets.Payloads.{create_cont_lem}
use miniature_dangerzone.Shell.Settings.{Settings, set_cs, start_dow, limit_store, debug_cache_date}

-- With an ID and a time stamp of at most eight bytes, `dc` sends one packet to the node itself, whose
-- payload reads as the time stamp, where the name and the packet can be built; it broadcasts nothing.
pub dc_caches :
    (cfg : Config) (a : ℕ) (id time : List ℕ) (more : List (List ℕ))
    → NoNul time
    → length id ≤ 8
    → length time ≤ 8
    → (made : Made) × (debug_cache_date cfg true true (some a) (id ∷ time ∷ more)
        ≡ some (0, some made))
      × (c_string made.payload.value ≡ time)
      × (made.to_self ≡ 1)
      × (made.broadcasts ≡ 0)
unfolding debug_cache_date
dc_caches cfg a id time more clean short_id short_time =
    let (made, built, _, reads, _, sent, own, _) =
      create_cont_lem cfg a time true false clean short_time in
    (made, ground (arith, short_id, short_time, built), reads, own, sent)

-- The words "-1" as a cache size: started with it, the node has no limit to its cache.
pub unlimited_cache :
    {P : Type 0} (cfg : Config) (args : List (List ℕ)) (s : Settings P)
    → (start_dow cfg args (set_cs ((b'-' ∷ b'1' ∷ []) ∷ []) s).1).manager.node.store.max_entries
      ≡ minus_one
unfolding start_dow set_cs limit_store strtol10 is_space skip_space signed10 decimal_value decimals
    to_neg_long
unlimited_cache cfg args s = refl
