-- ===== src/Dow/Power.antt =====
-- How long the radio was on and off: the variables `dow_sleeping`, `dow_ts_*` and `dow_time_*` of
-- ccnl_caching/dow.c, which change in `_radio_sleep` and `dow_wakeup`, and `_stats` of main.c, which
-- prints them. All times are uint32_t microseconds.
use miniature_dangerzone.Common.{
  ℕ, ◌+◌, ◌<◌, ◌≡◌, Bool, true, false, arith, u32, sub32, two32, if◌then◌else◌, Bool-cases, inl,
  inr,
}

pub record Power : Type 0 where
  pub sleeping : Bool  -- dow_sleeping
  pub ts_wakeup : ℕ  -- dow_ts_wakeup
  pub ts_sleep : ℕ  -- dow_ts_sleep
  pub time_active : ℕ  -- dow_time_active
  pub time_sleeping : ℕ  -- dow_time_sleeping

-- The values of dow.c, with what `_loop` sets at its start.
unfoldable pub boot : ℕ → Power
boot now = record {
  sleeping = false;
  ts_wakeup = now;
  ts_sleep = 0;
  time_active = 0;
  time_sleeping = 0;
}

-- The part of `_radio_sleep` that keeps the times.
unfoldable pub fall_asleep : ℕ → Power → Power
fall_asleep now p = if p.sleeping then p else record p {
  ts_sleep = now;
  time_active = u32 (p.time_active + sub32 now p.ts_wakeup);
  sleeping = true;
}

-- The part of `dow_wakeup` that keeps the times.
unfoldable pub wake_up : ℕ → Power → Power
wake_up now p =
    if p.sleeping
    then record p {
      ts_wakeup = now;
      time_sleeping = u32 (p.time_sleeping + sub32 now p.ts_sleep);
      sleeping = false;
    }
    else p

-- What `stats` prints as the active and the sleeping time.
unfoldable pub stats : ℕ → Power → ℕ × ℕ
stats now p =
    if p.sleeping
    then (p.time_active, u32 (p.time_sleeping + sub32 now p.ts_wakeup))
    else (u32 (p.time_active + sub32 now p.ts_sleep), p.time_sleeping)

-- When the radio was last switched.
abbrev pub switched : Power → ℕ
switched p = if p.sleeping then p.ts_sleep else p.ts_wakeup

-- The two times add up, as uint32_t, to the time from the start to the last switch.
pub record Accounted (start : ℕ) (p : Power) : Type 0 where
  pub adds_up : u32 (start + (p.time_active + p.time_sleeping)) ≡ switched p
  pub wakeup_small : p.ts_wakeup < two32
  pub sleep_small : p.ts_sleep < two32

pub boot-Accounted : (now : ℕ) → now < two32 → Accounted now (boot now)
unfolding boot
boot-Accounted now h = record {
  adds_up = omega arith;
  wakeup_small = ground arith;
  sleep_small = ground arith;
}

pub fall_asleep-Accounted :
    (start now : ℕ) (p : Power)
    → now < two32
    → Accounted start p
    → Accounted start (fall_asleep now p)
unfolding fall_asleep
fall_asleep-Accounted start now p h a = record {
  adds_up = ground (arith, a);
  wakeup_small = ground (arith, a);
  sleep_small = ground (arith, a);
}

pub wake_up-Accounted :
    (start now : ℕ) (p : Power) → now < two32 → Accounted start p → Accounted start (wake_up now p)
unfolding wake_up
wake_up-Accounted start now p h a = record {
  adds_up = ground (arith, a);
  wakeup_small = ground (arith, a);
  sleep_small = ground (arith, a);
}

-- The arithmetic of that: `x` and `y` add up to the time from `start` to `switch`, and the time from
-- `other` to `now` is added to `x`.
overcount :
    (start now switch other x y : ℕ)
    → start < two32
    → switch < two32
    → other < two32
    → u32 (start + (x + y)) ≡ switch
    → u32 (u32 (x + sub32 now other) + y) ≡ u32 (sub32 now start + sub32 switch other)
overcount start now switch other x y hs hw ho e = omega arith

-- `stats` counts from the wrong one of the two time stamps. Where the active and the sleeping time
-- add up to the time from the start to the last switch, the sum of what it prints exceeds the time
-- since the start, as uint32_t, by the length of the last sleep for a node that has its radio on,
-- and by that of the last active time for one that has it off.
pub stats_overcounts :
    (start now : ℕ) (p : Power)
    → start < two32
    → Accounted start p
    → u32 ((stats now p).0 + (stats now p).1)
      ≡ u32 (
          sub32 now start
          + (if p.sleeping then sub32 p.ts_sleep p.ts_wakeup else sub32 p.ts_wakeup p.ts_sleep))
unfolding stats
stats_overcounts start now p h a = elim (Bool-cases p.sleeping) [
  | inl off ↦ ground (
    arith,
    a,
    overcount start now p.ts_sleep p.ts_wakeup p.time_sleeping p.time_active h a.sleep_small
        a.wakeup_small (ground (arith, a)),
  )
  | inr on ↦ ground (
    arith,
    a,
    overcount start now p.ts_wakeup p.ts_sleep p.time_active p.time_sleeping h a.wakeup_small
        a.sleep_small (ground (arith, a)),
  )
]
