-- ===== src/Industry/Lux.antt =====
-- The light sensor of inria-industry/light_ccnl (light_sense.c), which asks for content by CCN-lite.
pub mod Levels
use miniature_dangerzone.Common.{
  ℕ, Bool, none, Option, some, List, [], ◌∷◌, ℤ, pos, minus_one, ltb_ℤ, eqb_ℤ, ◌==◌, if◌then◌else◌,
}
use miniature_dangerzone.Industry.{Event, alarm, confirm, warn}
use miniature_dangerzone.Industry.Request.{Client, Get, send_event}

-- LUX_THRESHOLD_WARN and LUX_THRESHOLD_ALARM
abbrev pub lux_threshold_warn : ℤ
lux_threshold_warn = pos 530

abbrev pub lux_threshold_alarm : ℤ
lux_threshold_alarm = pos 730

-- What `check_state` computes first.
unfoldable pub level : ℤ → ℕ
level lux =
    if ltb_ℤ lux_threshold_warn lux then 1 else if ltb_ℤ lux_threshold_alarm lux then 2 else 0

-- The `switch` of `check_state`
unfoldable pub event_at : ℕ → Option Event
event_at e =
    if e == 0
    then some confirm
    else if e == 1
    then some warn
    else if e == 2
    then some alarm
    else none

-- The event of a reading, where `state` of light_sense.c has this value before it.
unfoldable pub event_for : ℤ → ℤ → Option Event
unfolding level event_at
event_for lux state = if eqb_ℤ state (pos (level lux)) then none else event_at (level lux)

-- `state` of light_sense.c, and the rest of the node
pub record Sensor : Type 0 where
  pub state : ℤ
  pub client : Client

unfoldable pub report : Get → Option Event → Sensor → Sensor × List (List ℕ)
unfolding send_event
report get none s = (s, [])
report get (some e) s =
    (record s { client = (send_event get e s.client).0 }, (send_event get e s.client).1)

-- check_state: the node, and the names it asks for
unfoldable pub check_state : Get → ℤ → Sensor → Sensor × List (List ℕ)
unfolding event_for report
check_state get lux s = report get (event_for lux s.state) (record s { state = pos (level lux) })

-- The rounds of `sensethread`, with the last reading first.
unfoldable pub sensed : Get → List ℤ → Client → Sensor
unfolding check_state
sensed get [] c = record { state = minus_one; client = c }
sensed get (lux ∷ h) c = (check_state get lux (sensed get h c)).0
