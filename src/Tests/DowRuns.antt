-- ===== src/Tests/DowRuns.antt =====
-- The caching manager at concrete inputs.
use miniature_dangerzone.Common.{
  ℕ, ◌+◌, ◌≤◌, ◌≡◌, refl, Bool, true, false, some, List, [], ◌∷◌, arith, ◌==◌, ◌⊎◌, if◌then◌else◌,
}
use miniature_dangerzone.Config.{Config, default_config, int_retries}
use miniature_dangerzone.Dow.{Msg, go_inactive}
use miniature_dangerzone.Dow.Power.{Power, Accounted}
use miniature_dangerzone.Dow.Wait.{
  Arrival, Round, other, timeout, received_ack, Waiter, timed_out, wait_for_chunk, Answer,
  received_chunk, last_cn, Try, helper_int,
}
use miniature_dangerzone.Dow.Wait.Ends.{wait_for_chunk_early}
use miniature_dangerzone.Dow.Wait.Tries.{is_answer, helper_int_returns}
use miniature_dangerzone.Dow.Manager.{idle, Turn}
use miniature_dangerzone.Dow.Loop.{on_second, loop, start}
use miniature_dangerzone.Dow.Loop.Energy.{run-Accounted}
use miniature_dangerzone.Dow.Loop.Timer.{Ticking, on_second-Ticking}
use miniature_dangerzone.Dow.Loop.Lone.{Asleep, seconds, lone_node-Asleep}
use miniature_dangerzone.Shell.{Command, stop, prefix, sensor}
use miniature_dangerzone.Tests.World.{relay, manager}

-- A turn at a time, with the radio idle and the answers to the interests.
abbrev turn_at : ℕ → Bool → Turn
turn_at now go_sleep = record {
  now = now;
  radio = some idle;
  go_sleep = go_sleep;
  answer = λ k. if k == 2 then last_cn else received_chunk;
  jitter = 12345;
  sensor_draw = 0;
  retransmit = 0;
  waits = [];
}

-- A node that starts awake, goes to sleep after a second, and wakes up again.
abbrev messages : List (Turn × Msg)
messages =
    (turn_at 1001000 true, Msg.second)
    ∷ (turn_at 2002000 false, Msg.second)
    ∷ (turn_at 2500000 false, Msg.newdata)
    ∷ []

run-Accounted_example :
    Accounted 1000
      (loop default_config relay messages
        (start default_config relay (turn_at 1000 false) 0 manager)).power
run-Accounted_example =
    run-Accounted default_config relay (turn_at 1000 false) 0 manager messages (omega arith)
      (omega arith, (omega arith, (omega arith, tt)))

-- Awake from 0 to 5 s, asleep to 9 s, and asked at 10 s: 14 seconds in all.
abbrev rested : Power
rested = record {
  sleeping = false;
  ts_wakeup = 9000000;
  ts_sleep = 5000000;
  time_active = 5000000;
  time_sleeping = 4000000;
}

abbrev waiter : Waiter
waiter = record { buffer = []; period_counter = 2; postponed = 0; seconds = 0 }

abbrev two_seconds : List Round
two_seconds =
    record { read = 1000; message = Arrival.second }
    ∷ record { read = 1000; message = Arrival.second }
    ∷ record { read = 1000; message = timeout }
    ∷ []

abbrev waited : Waiter
waited = record { buffer = []; period_counter = 1; postponed = 0; seconds = 2 }

-- With 100 ms to wait, messages after 60 ms and after 70 ms end it.
wait_for_chunk_early_example :
    (w' : Waiter) × (wait_for_chunk 1 false 1000
        (record { read = 1000 + 60000; message = other }
          ∷ record { read = 1000 + 70000; message = received_ack }
          ∷ [])
        waiter
      ≡ some (timed_out, w'))
wait_for_chunk_early_example =
    wait_for_chunk_early 1 1000 60000 70000 waiter other [] received_ack (omega arith) (omega arith)
      refl (omega arith) (omega arith) (omega arith)

abbrev vain : Try
vain = record { start = 1000; rounds = two_seconds }

abbrev tries : List Try
tries = vain ∷ vain ∷ vain ∷ []

helper_int_returns_example :
    (sent : ℕ) × (reply : Answer) × (w' : Waiter) × (helper_int 1 false tries waiter
      ≡ some (sent, reply, w'))
    × (sent ≤ int_retries)
    × ((sent ≡ int_retries) ⊎ (is_answer reply ≡ true))
helper_int_returns_example =
    helper_int_returns 1 false tries waiter (omega arith) (refl, (refl, (refl, tt)))

on_second-Ticking_example : Ticking (on_second default_config relay (turn_at 1000 true) manager)
on_second-Ticking_example = on_second-Ticking default_config relay (turn_at 1000 true) manager refl

abbrev robin : Config
robin = record default_config { deputy = true }

lone_node-Asleep_example : Asleep 4294967294 (
    loop default_config relay
      ((turn_at 1000 false, go_inactive) ∷ seconds (turn_at 2000 false ∷ turn_at 3000 false ∷ []))
      manager)
lone_node-Asleep_example =
    lone_node-Asleep default_config relay (turn_at 1000 false) (turn_at 2000 false)
      (turn_at 3000 false ∷ []) manager refl refl refl (omega arith)

-- A registered node gets two sensors, is asked to take another letter, and is stopped.
abbrev commands : List Command
commands =
    sensor ((b'a' ∷ []) ∷ []) ∷ sensor ((b'b' ∷ []) ∷ []) ∷ prefix ((b'c' ∷ []) ∷ []) ∷ stop ∷ []
