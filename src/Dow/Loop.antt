-- ===== src/Dow/Loop.antt =====
-- The loop of the caching manager, `_loop` of ccnl_caching/dow.c, and what it does on each message.
pub mod Timer
pub mod Energy
pub mod Lone
use miniature_dangerzone.Common.{
  ℕ, zero, suc, ◌+◌, ◌-◌, ◌*◌, Bool, true, false, not, ◌&&◌, ◌||◌, List, [], ◌∷◌, ◌++◌, Option,
  none, some, ltb, leb, ◌==◌, u8, u16, u32, sub32, sub8, sub16, if◌then◌else◌, get_or,
}
use miniature_dangerzone.Config.{Config, keep_alive_period, sec_in_usec, deputy_shift}
use miniature_dangerzone.Ccn.{Name, Interest, Identity, Store}
use miniature_dangerzone.Cache.Strategy.{reset}
use miniature_dangerzone.Cache.Presence.{Presence, under_represented, free_table}
use miniature_dangerzone.Dow.{
  Mode, deputy, handover, inactive, stopped, is_deputy, is_handover, is_inactive, is_stopped, Msg,
  second, takeover, newdata, go_inactive, backtosleep, beacon, beacon_end, received, received_ack,
  received_int, Node,
}
use miniature_dangerzone.Dow.Power.{Power, boot}
use miniature_dangerzone.Dow.Wait.{Answer, no_answer, received_chunk, last_cn, Waiter, helper_int}
use miniature_dangerzone.Dow.Manager.{
  Radio, Item, Manager, Turn, Relay, cycle, data_period, first_phase, set_mode, set_pit,
  second_timer, command, radio_sleep, ask_from, send_interests, wakeup, take_over, sleep,
}
use miniature_dangerzone.Dow.Data.{event_delay, new_data}

-- ccnl_helper_subsribe
abbrev pub subscribe : Relay → ℕ → Manager → Manager
subscribe relay c m = record m {
  me = (record m.me {
    registered = c;
    is_registered = true;
    my_pfx = relay.name_of (b'/' ∷ b't' ∷ b'/' ∷ c ∷ []);
  });
}

-- The first letter of the table that is under-represented.
unfoldable pub wanted_letter : List Presence → List Presence → Option ℕ
unfolding under_represented
wanted_letter table [] = none
wanted_letter table (e ∷ es) =
    if under_represented e.pfx table then some e.pfx else wanted_letter table es

-- The end of the first phase under DOW_APMDMR.
unfoldable pub reconsider_letter : Relay → Manager → Manager
unfolding wanted_letter under_represented
reconsider_letter relay m =
    if under_represented m.me.registered m.node.presence
    then m
    else elim (wanted_letter m.node.presence m.node.presence) [
      | none ↦ m
      | some c ↦ subscribe relay c m
    ]

unfoldable pub phase : Config → Relay → Turn → Manager → Manager
unfolding reconsider_letter ask_from
phase cfg relay t m =
    let counted = record m { phase_counter = sub32 m.phase_counter 1 } in
    if not cfg.apmdmr || is_inactive m.node.mode
    then m
    else if counted.phase_counter == 0
    then send_interests cfg t (reconsider_letter relay counted)
    else counted

-- `ccnl_helper_publish_content` is called when the whole cache was refreshed.
abbrev pub republish : Config → Manager → Manager
republish cfg m =
    if ltb 0 cfg.psr && leb (cfg.cache_size - 1) m.node.store.flagged_cache
    then record m { published = m.published + 1 }
    else m

-- A deputy-to-be that is late takes over at once.
abbrev pub late : Config → Turn → Manager → Manager
late cfg t m =
    if cfg.deputy && leb (u32 (m.last_deputy_ts + u32 (m.sleep_period * sec_in_usec))) t.now
    then record m { period_counter = 0 }
    else m

-- The end of a sleeping cycle outside the round-robin mode.
unfoldable pub end_sleep : Config → Turn → Manager → Manager
unfolding wakeup free_table reset
end_sleep cfg t m =
    let awake =
      (if t.go_sleep
        then m
        else (let d = set_mode deputy m in
            let fresh = record d {
              beacons = d.beacons + 1;
              node = (record d.node { store = reset d.node.store });
            } in
            wakeup cfg t fresh)) in
    let cycled = record awake { period_counter = cycle } in
    let phased =
      (if cfg.apmdmr
        then record cycled {
          phase_counter = first_phase;
          node = (record cycled.node { presence = free_table 10 });
        }
        else cycled) in
    let timed = second_timer phased in
    if cfg.keep_alive_pfx
    then record timed { node = (record timed.node { interest_count = 0 }) }
    else timed

-- The end of an active cycle.
unfoldable pub end_active : Config → Relay → Turn → Manager → Manager
unfolding sleep
end_active cfg relay t m =
    let force_awake = cfg.keep_alive_pfx && ltb m.node.interest_count cfg.keep_alive_min_thr in
    let duration = (if force_awake then data_period else cycle) in
    let counted =
      (if cfg.keep_alive_pfx
        then record m { node = (record m.node { interest_count = 0 }) }
        else m) in
    if not force_awake && t.go_sleep
    then sleep cfg relay t cycle (set_mode inactive counted)
    else second_timer (record counted { period_counter = duration })

-- DOW_MSG_SECOND up to the test of the period counter.
unfoldable pub tick : Config → Relay → Turn → Manager → Manager
unfolding phase
tick cfg relay t m =
    let ticked = record m { second_timer = false; period_counter = sub32 m.period_counter 1 } in
    late cfg t (republish cfg (phase cfg relay t ticked))

-- The rest of it.
unfoldable pub end_period : Config → Relay → Turn → Manager → Manager
unfolding take_over end_sleep end_active
end_period cfg relay t m =
    if m.period_counter == 0
    then if cfg.deputy
      then take_over cfg relay t m
      else if is_inactive m.node.mode
      then end_sleep cfg t m
      else end_active cfg relay t m
    else second_timer m

-- DOW_MSG_SECOND
unfoldable pub on_second : Config → Relay → Turn → Manager → Manager
unfolding tick end_period
on_second cfg relay t m = end_period cfg relay t (tick cfg relay t m)

-- DOW_MSG_NEWDATA
unfoldable pub on_new_data : Config → Turn → Manager → Manager
unfolding new_data radio_sleep
on_new_data cfg t m =
    let m' = (if m.is_source then new_data cfg t m else m) in
    if not cfg.int_int && is_inactive m'.node.mode then radio_sleep cfg t m' else m'

-- What waiting starts with, and what it changes: the period counter, the second timer, and the timer of
-- new data.
abbrev pub waiter_of : Manager → Waiter
waiter_of m = record { buffer = []; period_counter = m.period_counter; postponed = 0; seconds = 0 }

abbrev pub put_waiter : Waiter → Manager → Manager
put_waiter w m = record m {
  period_counter = w.period_counter;
  second_timer = m.second_timer || ltb 0 w.seconds;
  data_timer = (if ltb 0 w.postponed then some sec_in_usec else m.data_timer);
}

-- `_populate_data`, which asks for a name without a chunk number and waits for the interest to come
-- back. Where the messages of the turn run out, it waits on.
unfoldable pub populate_data : Config → Turn → Manager → Manager
unfolding wakeup helper_int
populate_data cfg t m =
    let woken = wakeup cfg t m in
    let asking = record woken { asked = woken.asked ++ none ∷ [] } in
    elim (helper_int t.retransmit true t.waits (waiter_of woken)) [
      | none ↦ asking
      | some (sent, reply, w) ↦ put_waiter w asking
    ]

-- DOW_MSG_RECEIVED
unfoldable pub on_received : Config → Turn → Manager → Manager
unfolding populate_data
on_received cfg t m =
    if not cfg.int_int || is_deputy m.node.mode
    then m
    else populate_data cfg t
        (record m { node = (record m.node { prevent_sleep = u8 (m.node.prevent_sleep + 1) }) })

unfoldable pub handle : Config → Relay → Turn → Msg → Manager → Manager
unfolding on_second on_new_data on_received take_over sleep radio_sleep
handle cfg relay t second m = on_second cfg relay t m
handle cfg relay t takeover m = if cfg.deputy then take_over cfg relay t m else m
handle cfg relay t newdata m = on_new_data cfg t m
handle cfg relay t backtosleep m = if is_inactive m.node.mode then radio_sleep cfg t m else m
handle cfg relay t go_inactive m = sleep cfg relay t (sub16 m.size 1) m
handle cfg relay t beacon m = m
handle cfg relay t received_int m = m
handle cfg relay t received m = on_received cfg t m
handle cfg relay t beacon_end m = m
handle cfg relay t received_ack m = m

-- `while (dow_state != DOW_STATE_STOPPED)`, over the messages that come.
unfoldable pub loop : Config → Relay → List (Turn × Msg) → Manager → Manager
unfolding handle
loop cfg relay [] m = m
loop cfg relay ((t, msg) ∷ ms) m =
    let rest = loop cfg relay ms (handle cfg relay t msg m) in
    if is_stopped m.node.mode then m else rest

-- What `_loop` does in front of that: the position among the neighbours decides in the round-robin
-- mode, and the draw in the other. The clock is read once for all of it.
unfoldable pub start : Config → Relay → Turn → ℕ → Manager → Manager
unfolding sleep event_delay
start cfg relay t position m =
    let booted = record m { power = boot t.now } in
    let timed = record booted { data_timer = some (event_delay t) } in
    if cfg.debug
    then booted
    else if cfg.deputy
    then if position == 0
      then set_mode deputy timed
      else sleep cfg relay t position (set_mode inactive (record timed { last_deputy_ts = t.now }))
    else if t.go_sleep
    then sleep cfg relay t cycle (set_mode inactive timed)
    else second_timer
        (record (set_mode deputy timed) { beacons = timed.beacons + 1; period_counter = cycle })
