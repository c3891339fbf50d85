-- ===== src/Dow/Data.antt =====
-- New data of the node's own: `dow_new_data` of ccnl_caching/dow.c.
pub mod Twice
use miniature_dangerzone.Common.{
  ℕ, ◌/◌, ◌%◌, length, zero, suc, ◌+◌, ◌-◌, ◌*◌, Bool, true, false, not, ◌&&◌, ◌||◌, List, [], ◌∷◌,
  ◌++◌, Option, none, some, ltb, leb, ◌==◌, u8, u16, u32, sub32, sub8, if◌then◌else◌, get_or,
}
use miniature_dangerzone.Config.{Config, keep_alive_period, sec_in_usec, deputy_shift}
use miniature_dangerzone.Ccn.{Name, Interest, Identity, Store}
use miniature_dangerzone.Cache.Strategy.{reset}
use miniature_dangerzone.Cache.Presence.{Presence, under_represented, free_table}
use miniature_dangerzone.Dow.{
  Mode, deputy, handover, inactive, stopped, is_deputy, is_handover, is_inactive, is_stopped, Msg,
  second, takeover, newdata, go_inactive, backtosleep, beacon, beacon_end, received, received_ack,
  received_int, Node,
}
use miniature_dangerzone.Dow.Power.{Power, fall_asleep, wake_up}
use miniature_dangerzone.Dow.Wait.{Answer, no_answer, received_chunk, last_cn}
use miniature_dangerzone.Text.{hex8}
use miniature_dangerzone.Dow.Manager.{Item, Manager, Turn}

-- DOW_EVENT_PERIOD_JITTER: a second, and up to 2^25 - 1 microseconds.
unfoldable pub event_delay : Turn → ℕ
event_delay t = sec_in_usec + t.jitter % 33554432

-- The text of the name: the type or site prefix, the letter or type, the number, and the time.
unfoldable pub path_of : Turn → ℕ → Manager → List ℕ
unfolding hex8
path_of t value m =
    let tail = b'/' ∷ (hex8 m.me.my_id ++ (b'/' ∷ hex8 value)) in
    if ltb 0 (length m.sensors)
    then b'/' ∷ b't' ∷ b'/' ∷ get_or m.sensors (t.sensor_draw % length m.sensors) 0 ∷ tail
    else if m.me.is_registered
    then b'/' ∷ b't' ∷ b'/' ∷ m.me.registered ∷ tail
    else b'/' ∷ b's' ∷ b'/' ∷ b't' ∷ tail

-- The part under DOW_REBC_LAST: the value to be sent, and what is kept for the next time.
unfoldable pub choose_data : Config → Turn → Manager → ℕ × Manager
choose_data cfg t m =
    if not cfg.rebc_last
    then (t.now, m)
    else if not (m.old_data == 0) && m.send_old_data
    then (m.old_data, record m { send_old_data = false })
    else (t.now, record m { old_data = t.now; send_old_data = true })

-- What follows for the value that was chosen. A name that CCN-lite cannot build is only reported
-- there; it is taken to build this one. The delay is halved in every build, since DOW_REBC_LAST is
-- always defined.
unfoldable pub make_item : Config → Turn → ℕ → Manager → Manager
unfolding event_delay path_of
make_item cfg t value m = record m {
  data_timer = some (event_delay t / 2);
  published = m.published + (if not cfg.int_int && ltb 0 cfg.psr2 then 1 else 0);
  produced =
      m.produced
      ++ record {
        path = path_of t value m;
        value = hex8 value ++ 0 ∷ [];
        cached = true;
        broadcast = not cfg.int_int;
      }
        ∷ [];
}

unfoldable pub new_data : Config → Turn → Manager → Manager
unfolding make_item choose_data
new_data cfg t m =
    let (value, chosen) = choose_data cfg t m in
    if is_handover m.node.mode
    then record m { data_timer = some sec_in_usec }
    else make_item cfg t value chosen
