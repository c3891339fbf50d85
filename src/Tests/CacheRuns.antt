-- ===== src/Tests/CacheRuns.antt =====
-- The content store at concrete inputs.
use mathlib.Core.List.{Memᴰ}
use miniature_dangerzone.Common.{
  ◌≤◌, ◌≡◌, refl, Bool, true, false, some, [], ◌∷◌, arith, count_if, ◌⊎◌,
}
use miniature_dangerzone.Config.{Config, default_config}
use miniature_dangerzone.Text.{
  hex8, strtol16, to_long, hex_digit, digit_value, is_space, skip_space, digits, skip_0x, signed,
  to_neg_long,
}
use miniature_dangerzone.Cache.Strategy.Late.{strategy_takes_first}
use miniature_dangerzone.Ccn.{Content, Store, Distinct, stamp, bytes_eq, unlink}
use miniature_dangerzone.Cache.Strategy.{
  fill, reset, offer, scan, scan_step, evict, choose, cs_oldest_representative,
}
use miniature_dangerzone.Cache.Strategy.Scan.{IsStamped}
use miniature_dangerzone.Cache.Strategy.Victim.{
  victim, give_up, strategy-victim, strategy-Choice, Choice, Refusal,
}
use miniature_dangerzone.Cache.Strategy.Kept.{
  strategy_keeps_static, strategy_keeps_representatives, represents_other,
}
use miniature_dangerzone.Cache.Newest.{handle_content, tag, mark, sweep, keep, unflag_cs, change_at}
use miniature_dangerzone.Cache.Newest.Sweep.{flagged}
use miniature_dangerzone.Cache.Newest.Order.{handle_content_one_newest, late_chunk_two_newest}
use miniature_dangerzone.Cache.Newest.Prio.{PrioBounded, handle_content-PrioBounded}
use miniature_dangerzone.Tests.World.{
  lite, lite-Removes, lite-Adds, common, me, full, arrived, store_of, entry, packet,
}

-- All that a run computes with.
program : Unit {0}
unfolding hex8 strtol16 to_long hex_digit digit_value is_space skip_space digits skip_0x signed
    to_neg_long stamp bytes_eq unlink fill reset offer scan scan_step evict choose
    cs_oldest_representative handle_content tag mark sweep keep unflag_cs change_at common
program = tt

-- The older value of source 1 gives way.
replaces_older :
    (cs_oldest_representative lite me full arrived).contents
    ≡ entry 30 true b'x' 2 50 ∷ entry 20 true b'x' 1 40 ∷ []
unfolding program
replaces_older = refl

full-IsStamped : IsStamped (fill full).contents
unfolding program
full-IsStamped = (refl, (refl, (refl, tt)))

full-Distinct : Distinct full.contents
full-Distinct = ((refl, (refl, tt)), ((refl, tt), (tt, tt)))

strategy-victim_example :
    cs_oldest_representative lite me full arrived
    ≡ give_up lite (fill full) (victim lite me arrived (fill full).contents)
unfolding program
strategy-victim_example = strategy-victim lite me full arrived (omega arith) refl full-IsStamped

strategy-Choice_example :
    let cs = (fill full).contents in
    (cs_oldest_representative lite me full arrived ≡ fill full) × Refusal lite me arrived cs
    ⊎ ((v : Content) × (cs_oldest_representative lite me full arrived
          ≡ evict lite v (count_if (λ x. x.user2) cs) (fill full))
        × Choice lite me arrived cs v
        × Memᴰ v cs)
unfolding program
strategy-Choice_example = strategy-Choice lite me full arrived (omega arith) refl full-IsStamped

strategy_keeps_static_example :
    count_if (λ x. x.static) (cs_oldest_representative lite me full arrived).contents
    ≡ count_if (λ x. x.static) full.contents
unfolding program
strategy_keeps_static_example =
    strategy_keeps_static lite lite-Removes me full arrived (omega arith) refl full-IsStamped
      full-Distinct

strategy_keeps_representatives_example :
    count_if
      (represents_other lite arrived)
      (cs_oldest_representative lite me full arrived).contents
    ≡ count_if (represents_other lite arrived) full.contents
unfolding program
strategy_keeps_representatives_example =
    strategy_keeps_representatives lite lite-Removes me full arrived (omega arith) refl
      full-IsStamped full-Distinct (omega arith)

-- A newer value of source 1.
abbrev later : Store × Bool
later =
    handle_content default_config lite (cs_oldest_representative lite me) (some 40) full
      (packet b'x' 1 60)

handle_content_one_newest_example :
    count_if (flagged lite (packet b'x' 1 60).name) later.0.contents ≡ 1
unfolding program
handle_content_one_newest_example =
    handle_content_one_newest default_config lite lite-Removes me 40 full later.0 (packet b'x' 1 60)
      (lite-Adds (cs_oldest_representative lite me)) (omega arith) refl
      ((λ p. refl), ((λ p. refl), ((λ p. refl), tt))) refl

-- Values of one source that arrived in the order 9, 5.
abbrev disordered : Store
disordered = store_of (entry 20 false b'x' 1 5 ∷ entry 10 true b'x' 1 9 ∷ [])

late_chunk_two_newest_example :
    2
    ≤ count_if
        (flagged lite (packet b'x' 1 3).name)
        (tag default_config lite (entry 30 false b'x' 1 3) disordered).1.contents
unfolding program
late_chunk_two_newest_example =
    late_chunk_two_newest default_config lite (entry 30 false b'x' 1 3) disordered
      (entry 20 false b'x' 1 5) (entry 10 true b'x' 1 9 ∷ []) refl refl refl (omega arith)

-- A build that may give priority to two entries, and has given it to one.
abbrev two_static : Config
two_static = record default_config { prio_cache = 2 }

abbrev one_static : Store
one_static =
    record (store_of
      (entry 30 true b'x' 2 50 ∷ record (entry 20 true b'x' 1 40) { static = true } ∷ [])) {
        prio_cache_cnt = 1;
      }

handle_content-PrioBounded_example :
    PrioBounded two_static
      (handle_content two_static lite
        (cs_oldest_representative lite me)
        (some 40)
        one_static
        (packet b'x' 1 60)).0
unfolding program
handle_content-PrioBounded_example =
    handle_content-PrioBounded two_static lite lite-Removes me (some 40) one_static
      (packet b'x' 1 60) (lite-Adds (cs_oldest_representative lite me)) (omega arith)
      (record { counted = omega arith; capped = omega arith })

-- Half an hour and more after the start: the second value of source 1 goes, though the first, which
-- stands behind it, is older.
abbrev late_store : Store
late_store = store_of (
    entry 30 true b'x' 1 2300000000
    ∷ entry 20 true b'x' 2 2250000000
    ∷ entry 10 false b'x' 1 2200000000
    ∷ [])

strategy_takes_first_example :
    cs_oldest_representative lite me late_store (entry 40 false b'x' 1 2400000000)
    ≡ evict lite (entry 30 true b'x' 1 2300000000) 3 (fill late_store)
unfolding program
strategy_takes_first_example =
    strategy_takes_first lite me late_store (entry 40 false b'x' 1 2400000000)
      (entry 30 true b'x' 1 2300000000) (omega arith)
      (record { time = 2400000000; spelled = refl; late = omega arith; bounded = omega arith })
      (
        record { time = 2300000000; spelled = refl; late = omega arith; bounded = omega arith },
        (
          record { time = 2250000000; spelled = refl; late = omega arith; bounded = omega arith },
          (
            record { time = 2200000000; spelled = refl; late = omega arith; bounded = omega arith },
            tt,
          ),
        ),
      )
      refl
