-- ===== src/Industry/Accel.antt =====
-- The sensor node with the accelerometer (inria-industry/accel_udp/sense.c and evt_handler.c).
pub mod Settled
use miniature_dangerzone.Common.{
  ℕ, ◌+◌, Bool, true, false, ◌||◌, Option, none, some, List, [], ◌∷◌, ℤ, pos, negsuc, pos_part,
  neg_part, minus_one, eqb_ℤ, u8, ltb, ◌==◌, if◌then◌else◌,
}
use miniature_dangerzone.Industry.{Event, alarm, confirm, warn, event_number}

-- l3g4200d_data_t: three readings of 16 bits
pub record Reading : Type 0 where
  pub acc_x : ℤ
  pub acc_y : ℤ
  pub acc_z : ℤ

-- AXIS_THRESHOLD and REP_LIMIT
abbrev pub axis_threshold : ℕ
axis_threshold = 230

abbrev pub rep_limit : ℕ
rep_limit = 1

-- abs(a) > AXIS_THRESHOLD, which `int` can hold for every reading of 16 bits
abbrev pub exceeds : ℤ → Bool
exceeds a = ltb axis_threshold (pos_part a + neg_part a)

-- The direction that `check_state` computes first.
unfoldable pub direction : Reading → ℕ
direction r =
    if exceeds r.acc_x then 1 else if exceeds r.acc_y then 2 else if exceeds r.acc_z then 3 else 0

-- udpif_send: one datagram
pub record Datagram : Type 0 where
  pub dst : ℕ
  pub port : ℕ
  pub payload : List ℕ

-- The variables of sense.c and evt_handler.c, and the two LEDs.
pub record Sensor : Type 0 where
  pub state : ℤ
  pub rep_count : ℕ
  pub sequ_no : ℕ
  pub evt_no : ℕ
  pub led_green : Bool
  pub led_red : Bool

-- OBSERVER_NODES, with OBSERVER_NUMOF and RETRANSMISSIONS 1, and SERVER_PORT
abbrev pub observer : ℕ
observer = 1

abbrev pub server_port : ℕ
server_port = 65281

abbrev pub is_confirm : Event → Bool
is_confirm alarm = false
is_confirm confirm = true
is_confirm warn = false

-- send_event
unfoldable pub send_event : Event → Sensor → Sensor × Datagram
unfolding event_number
send_event e s =
    let no : ℕ = if is_confirm e then s.evt_no else u8 (s.evt_no + 1) in
    (
      record s { evt_no = no; sequ_no = u8 (s.sequ_no + 1) },
      record { dst = observer; port = server_port; payload = event_number e ∷ no ∷ s.sequ_no ∷ [] },
    )

-- evt_handler_ok, evt_handler_warn, evt_handler_alarm
unfoldable pub evt_handler : Event → Sensor → Sensor × Datagram
unfolding send_event
evt_handler confirm s = send_event confirm (record s { led_green = true; led_red = false })
evt_handler warn s = send_event warn (record s { led_green = true; led_red = true })
evt_handler alarm s = send_event alarm (record s { led_green = false; led_red = true })

-- The `switch` of `check_state` over `state - 1`: STATE_NORMAL is 0, STATE_DOWN2 1, STATE_DOWN1 2.
unfoldable pub event_of : ℕ → Option Event
event_of dir =
    if dir == 1
    then some confirm
    else if dir == 2
    then some alarm
    else if dir == 3
    then some warn
    else none

-- What `check_state` does to `state` and `rep_count` before it asks for REP_LIMIT.
unfoldable pub note_direction : ℕ → Sensor → Sensor
note_direction dir s =
    let same : Bool = eqb_ℤ s.state (pos dir) in
    record s {
      state = if same then s.state else pos dir;
      rep_count =
          if same then (if ltb s.rep_count rep_limit then s.rep_count + 1 else s.rep_count) else 0;
    }

-- The handler for a direction, if there is one.
unfoldable pub report : Option Event → Sensor → Sensor × List Datagram
unfolding evt_handler
report none s = (s, [])
report (some e) s = ((evt_handler e s).0, (evt_handler e s).1 ∷ [])

-- The rest of `check_state`. There `state` is the direction.
unfoldable pub act : ℕ → Sensor → Sensor × List Datagram
unfolding event_of report
act dir s =
    if s.rep_count == rep_limit
    then report (event_of dir) (record s { rep_count = rep_limit + 1 })
    else (s, [])

-- check_state
unfoldable pub check_state : Reading → Sensor → Sensor × List Datagram
unfolding direction note_direction act
check_state r s = act (direction r) (note_direction (direction r) s)

-- The node at its start.
abbrev pub sense_start : Sensor
sense_start = record {
  state = minus_one;
  rep_count = 0;
  sequ_no = 0;
  evt_no = 0;
  led_green = false;
  led_red = false;
}

-- The rounds of `sensethread`: the state after a series of readings, the last one first.
unfoldable pub sensed : List Reading → Sensor
unfolding check_state
sensed [] = sense_start
sensed (r ∷ rs) = (check_state r (sensed rs)).0
