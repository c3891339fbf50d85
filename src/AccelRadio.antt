-- ===== src/AccelRadio.antt =====
-- The sensor node that tells of its direction by radio (accel_radio/sense.c and evt_handler.c).
pub mod Axis
pub mod Debounced
use miniature_dangerzone.Common.{
  ℕ, ◌+◌, ◌*◌, Bool, true, false, ◌&&◌, Option, none, some, List, [], ◌∷◌, ℤ, pos, pos_part,
  neg_part, minus_one, eqb_ℤ, u8, ltb, ◌==◌, if◌then◌else◌,
}

-- The members of `evt_t` that are sent.
pub data Event : Type 0 where
  alarm confirm warn : Event

-- acc_data[0 .. 2], readings of 16 bits
pub record Reading : Type 0 where
  pub acc_x : ℤ
  pub acc_y : ℤ
  pub acc_z : ℤ

-- AXIS_THRESHOLD
abbrev pub axis_threshold : ℕ
axis_threshold = 230

-- REP_LIMIT
abbrev pub rep_limit : ℕ
rep_limit = 3

-- The variables of sense.c and evt_handler.c, the two LEDs, and how many packets were sent.
pub record Sensor : Type 0 where
  pub state : ℤ
  pub rep_count : ℕ
  pub sequ_no : ℕ
  pub evt_no : ℕ
  pub led_green : Bool
  pub led_red : Bool
  pub packets : ℕ

-- The size of a reading, and the sum of the squares of the three.
abbrev pub size : ℤ → ℕ
size a = pos_part a + neg_part a

abbrev pub square_sum : Reading → ℕ
square_sum r =
    size r.acc_x * size r.acc_x + size r.acc_y * size r.acc_y + size r.acc_z * size r.acc_z

-- math_modulus on the three readings: `root` is what `sqrtf` makes of a number, cut to an integer.
unfoldable pub math_modulus : (ℕ → ℕ) → Reading → ℕ
math_modulus root r = root (square_sum r)

-- a > AXIS_THRESHOLD || a < -AXIS_THRESHOLD
abbrev pub exceeds : ℤ → Bool
exceeds a = ltb axis_threshold (size a)

-- norm > 235 && norm < 275
abbrev pub at_rest : ℕ → Bool
at_rest norm = ltb 235 norm && ltb norm 275

-- An axis that is over the threshold: the same one again, or a new one.
unfoldable pub turn_to : ℕ → Sensor → Sensor
turn_to i s =
    if eqb_ℤ s.state (pos i)
    then if ltb s.rep_count rep_limit then record s { rep_count = s.rep_count + 1 } else s
    else record s { state = pos i; rep_count = 0 }

-- The body of the loop over the axes.
unfoldable pub see_axis : ℕ → ℤ → Sensor → Sensor
unfolding turn_to
see_axis i a s = if exceeds a then turn_to i s else s

-- The part of `check_state` in front of the question for REP_LIMIT. The norm is what `math_modulus`
-- computes.
unfoldable pub see_axes : ℕ → Reading → Sensor → Sensor
unfolding see_axis
see_axes norm r s =
    if at_rest norm then see_axis 2 r.acc_z (see_axis 1 r.acc_y (see_axis 0 r.acc_x s)) else s

-- send: an empty text to everybody, if the transceiver is there
abbrev pub send : Bool → Sensor → Sensor
send ready s = if ready then record s { packets = s.packets + 1 } else s

abbrev pub is_confirm : Event → Bool
is_confirm alarm = false
is_confirm confirm = true
is_confirm warn = false

-- send_event, which prints the event, its number and the sequence number
unfoldable pub send_event : Event → Sensor → Sensor × (Event × ℕ × ℕ)
send_event e s =
    let no : ℕ = if is_confirm e then s.evt_no else u8 (s.evt_no + 1) in
    (record s { evt_no = no; sequ_no = u8 (s.sequ_no + 1) }, (e, no, s.sequ_no))

-- evt_handler_ok, evt_handler_warn, evt_handler_alarm
unfoldable pub evt_handler : Bool → Event → Sensor → Sensor × (Event × ℕ × ℕ)
unfolding send_event
evt_handler ready confirm s =
    send_event confirm (record (send ready s) { led_green = true; led_red = false })
evt_handler ready warn s =
    send_event warn (record (send ready s) { led_green = true; led_red = true })
evt_handler ready alarm s =
    send_event alarm (record (send ready s) { led_green = false; led_red = true })

-- The `switch` over the state: STATE_NORMAL is 0, STATE_DOWN2 1, STATE_DOWN1 2.
unfoldable pub event_of : ℤ → Option Event
event_of state =
    if eqb_ℤ state (pos 0)
    then some confirm
    else if eqb_ℤ state (pos 2)
    then some warn
    else if eqb_ℤ state (pos 1)
    then some alarm
    else none

-- The handler for a state, if there is one.
unfoldable pub report : Bool → Option Event → Sensor → Sensor × List (Event × ℕ × ℕ)
unfolding evt_handler
report ready none s = (s, [])
report ready (some e) s = ((evt_handler ready e s).0, (evt_handler ready e s).1 ∷ [])

-- The rest of `check_state`.
unfoldable pub act : Bool → Sensor → Sensor × List (Event × ℕ × ℕ)
unfolding event_of report
act ready s =
    if s.rep_count == rep_limit
    then report ready (event_of s.state) (record s { rep_count = rep_limit + 1 })
    else (s, [])

-- check_state: the state, and what is printed
unfoldable pub check_state : Bool → (ℕ → ℕ) → Reading → Sensor → Sensor × List (Event × ℕ × ℕ)
unfolding math_modulus see_axes act
check_state ready root r s = act ready (see_axes (math_modulus root r) r s)

-- The node behind `main`, which turns the red LED on.
abbrev pub sense_start : Sensor
sense_start = record {
  state = minus_one;
  rep_count = 0;
  sequ_no = 0;
  evt_no = 0;
  led_green = false;
  led_red = true;
  packets = 0;
}

-- The rounds of `sensethread`: the state after a series of readings, the last one first.
unfoldable pub sensed : Bool → (ℕ → ℕ) → List Reading → Sensor
unfolding check_state
sensed ready root [] = sense_start
sensed ready root (r ∷ rs) = (check_state ready root r (sensed ready root rs)).0
