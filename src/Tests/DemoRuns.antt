-- ===== src/Tests/DemoRuns.antt =====
-- The demos of inria-industry and dagstuhl23_demo, and the packets and callbacks that go with the
-- computation, at concrete inputs.
use miniature_dangerzone.Common.{
  ℕ, zero, suc, ◌+◌, ◌*◌, ◌<◌, Bool, if◌then◌else◌, leb, map, ◌≡◌, ◌≢◌, ◌↔◌, ◌⊎◌, refl, true, false,
  none, some, List, [], ◌∷◌, ◌++◌, arith, ◌≤◌, ℤ, pos, negsuc, ◌<ℤ◌, length,
}
use miniature_dangerzone.Config.{default_config}
use miniature_dangerzone.Text.Buffer.{drop, overwrite, c_string}
use miniature_dangerzone.Industry.{alarm, confirm, event_number}
use miniature_dangerzone.Industry.Accel.{
  Reading, direction, event_of, note_direction, act, report, send_event, evt_handler, check_state,
  sensed,
}
use miniature_dangerzone.Industry.Accel.Settled.{called_for, sends, check_state-called_for}
use miniature_dangerzone.AccelRadio
use miniature_dangerzone.AccelRadio.Axis.{Roots, axis}
use miniature_dangerzone.AccelRadio.Debounced.{seen, called, printed, check_state_tells}
use miniature_dangerzone.Industry.Light.{
  colour_of, light_on_data, event_in, run_command, light_alarm_shell,
}
use miniature_dangerzone.Industry.Request.{Client, idle}
use miniature_dangerzone.Industry.Lux
use miniature_dangerzone.Industry.Lux.{event_for, Sensor}
use miniature_dangerzone.Industry.Lux.Levels.{on_change, event_for-on_change}
use miniature_dangerzone.Mqtt.{
  Session, qos0, subscribe, cmd_sub, sub_in_row, row, write_row, read_row, word, max_len_topic,
}
use miniature_dangerzone.Mqtt.Topics.{cmd_sub_outside}
use miniature_dangerzone.Dow.{Node, inactive}
use miniature_dangerzone.Cache.Strategy.{cs_oldest_representative}
use miniature_dangerzone.Cache.Consumer.{Draw}
use miniature_dangerzone.Computation.{Noted}
use miniature_dangerzone.Computation.Highest.{Arrival, heard, Covers, Among, heard_highest}
use miniature_dangerzone.Tests.World.{lite, me, full, packet}

-- All that a run computes with.
program : Unit {0}
unfolding direction event_number event_of note_direction act report send_event evt_handler
    check_state sensed light_on_data event_in run_command cmd_sub sub_in_row row write_row read_row
    drop overwrite c_string
program = tt

abbrev reading : ℤ → ℤ → Reading
reading x y = record { acc_x = x; acc_y = y; acc_z = pos 0 }

-- Turned on its second axis for the second time: the alarm, with the numbers 1 and 0.
tells_alarm :
    (check_state (reading (pos 3) (negsuc 300)) (sensed (reading (pos 3) (pos 300) ∷ []))).1
    ≡ record { dst = 1; port = 65281; payload = 4 ∷ 1 ∷ 0 ∷ [] } ∷ []
unfolding program
tells_alarm = refl

check_state-called_for_example :
    (check_state (reading (pos 3) (negsuc 300)) (sensed (reading (pos 3) (pos 300) ∷ []))).1
    ≡ sends
        (called_for (reading (pos 3) (negsuc 300) ∷ reading (pos 3) (pos 300) ∷ []))
        (sensed (reading (pos 3) (pos 300) ∷ []))
check_state-called_for_example =
    check_state-called_for (reading (pos 3) (negsuc 300)) (reading (pos 3) (pos 300) ∷ [])

-- The light on the command "alarm".
turns_red : run_command light_alarm_shell (colour_of confirm) ≡ record { r = 125; g = 0; b = 0 }
unfolding program
turns_red = refl

abbrev client : Client
client = record { state = idle; small_buf = []; i = 0 }

event_for-on_change_example :
    (event_for (pos 800) (Lux.sensed (λ n. true) (pos 100 ∷ []) client).state
      ≡ on_change (pos 800 ∷ pos 100 ∷ []))
    × (event_for (pos 800) (Lux.sensed (λ n. true) (pos 100 ∷ []) client).state ≢ some alarm)
event_for-on_change_example = event_for-on_change (λ n. true) (pos 800) (pos 100 ∷ []) client

abbrev zeros : ℕ → List ℕ
zeros zero = []
zeros (suc n) = 0 ∷ zeros n

abbrev session_at : ℕ → Session
session_at n = record { topic_cnt = pos n; topics = zeros 400 }

abbrev topic : List (List ℕ)
topic = (b'l' ∷ b'e' ∷ b'd' ∷ []) ∷ []

-- The fourth topic is subscribed to as it was given.
subscribes :
    cmd_sub (pos 0) (pos 0) topic (session_at 3)
    ≡ some (
      pos 0,
      record { topic_cnt = pos 4; topics = zeros 300 ++ (b'l' ∷ b'e' ∷ b'd' ∷ zeros 97) },
      subscribe (b'l' ∷ b'e' ∷ b'd' ∷ []) qos0 ∷ [],
    )
unfolding program
subscribes = refl

cmd_sub_outside_example : cmd_sub (pos 0) (pos 0) topic (session_at 4) ≡ none ↔ (
    (1 ≤ length topic)
    × (length (word topic 0) ≤ max_len_topic)
    × (((session_at 4).topic_cnt ≡ pos 4) ⊎ ((session_at 4).topic_cnt <ℤ pos 0)))
cmd_sub_outside_example = cmd_sub_outside (pos 0) (pos 0) topic (session_at 4)

-- A node that is not stopped, and two chunks, of the sources 9 and 4.
abbrev idle_node : Node
idle_node = record {
  mode = inactive;
  store = full;
  interest_count = 0;
  prevent_sleep = 0;
  presence = [];
  sent = [];
  sleep_timer = none;
}

abbrev draw : Draw
draw = record {
  alloc = some 40;
  do_cache = false;
  loopback = 99;
  random_chunk = 0;
  ack_built = true;
}

abbrev chunks : List Arrival
chunks =
    record { from = 1; draw = draw; packet = packet b'x' 4 70 }
    ∷ record { from = 1; draw = draw; packet = packet b'x' 9 60 }
    ∷ []

abbrev new_node : Noted
new_node = record {
  highest = 0;
  outcome = (record { node = idle_node; handled = true; freed = true });
}

heard_highest_example :
    (new_node.highest
      ≤ (heard default_config lite (cs_oldest_representative lite me) me chunks new_node).highest)
    × Covers default_config lite
        (cs_oldest_representative lite me)
        me
        (heard default_config lite (cs_oldest_representative lite me) me chunks new_node).highest
        chunks
        new_node
    × (((heard default_config lite (cs_oldest_representative lite me) me chunks new_node).highest
          ≡ new_node.highest)
        ⊎ Among
            (heard default_config lite
              (cs_oldest_representative lite me)
              me
              chunks
              new_node).highest
            chunks)
heard_highest_example =
    heard_highest default_config lite (cs_oldest_representative lite me) me chunks new_node

-- The root of a number, cut to a natural number.
unfoldable square_root : ℕ → ℕ
square_root zero = 0
square_root (suc n) = let k = square_root n in if leb ((k + 1) * (k + 1)) (suc n) then k + 1 else k

next_root :
    (n k : ℕ)
    → k * k ≤ n
    → n < (k + 1) * (k + 1)
    → (b : Bool) → leb ((k + 1) * (k + 1)) (suc n) ≡ b
    → let m : ℕ = if b then k + 1 else k in (m * m ≤ suc n) × (suc n < (m + 1) * (m + 1))
next_root n k below above true up = (ground (arith, up), grind (arith, up, above))
next_root n k below above false stay = (omega (arith, below), ground (arith, stay))

square_root_lem :
    (n : ℕ) → (square_root n * square_root n ≤ n) × (n < (square_root n + 1) * (square_root n + 1))
unfolding square_root
square_root_lem zero = (omega arith, omega arith)
square_root_lem (suc n) =
    let (below, above) = square_root_lem n in next_root n (square_root n) below above _ refl

square_root-Roots : Roots square_root
square_root-Roots n = (λ few. square_root_lem n, λ many. grind (arith, many, square_root_lem n))

abbrev level : AccelRadio.Reading
level = record { acc_x = pos 3; acc_y = negsuc 250; acc_z = pos 10 }

check_state_tells_example :
    map
      (λ x. x.0)
      (AccelRadio.check_state true square_root level
        (AccelRadio.sensed true square_root (level ∷ level ∷ level ∷ []))).1
    ≡ printed (
        called
          (axis (AccelRadio.math_modulus square_root level) level)
          (seen square_root (level ∷ level ∷ level ∷ [])))
check_state_tells_example =
    check_state_tells true square_root square_root-Roots (level ∷ level ∷ level ∷ []) level

-- Seen on its second axis for the fourth time, and then for the fifth: one alarm, with the numbers 1 and
-- 0.
fourth_alarms :
    ((AccelRadio.check_state true
        (λ n. 250)
        level
        (AccelRadio.sensed true (λ n. 250) (level ∷ level ∷ level ∷ []))).1
      ≡ (AccelRadio.alarm, 1, 0) ∷ [])
    × ((AccelRadio.check_state true
          (λ n. 250)
          level
          (AccelRadio.sensed true (λ n. 250) (level ∷ level ∷ level ∷ level ∷ []))).1
        ≡ [])
unfolding AccelRadio.check_state AccelRadio.sensed
fourth_alarms = (refl, refl)
