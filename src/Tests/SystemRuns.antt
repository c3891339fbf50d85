-- ===== src/Tests/SystemRuns.antt =====
-- A whole node of the caching application at concrete inputs.
use miniature_dangerzone.Common.{◌≡◌, ◌+◌, refl, true, false, none, some, [], ◌∷◌, arith, pos, inr}
use miniature_dangerzone.Config.{default_config}
use miniature_dangerzone.Ccn.{Packet}
use miniature_dangerzone.Dow.{inactive, is_inactive}
use miniature_dangerzone.Dow.Wait.{
  last_cn, Arrival, Round, helper_int, try_loop, wait_for_chunk, wait_loop, hear,
}
use miniature_dangerzone.Dow.Manager.{asleep, Manager, Turn, radio_off, radio_sleep, sleep, wakeup}
use miniature_dangerzone.Dow.Data.{event_delay}
use miniature_dangerzone.Dow.Loop.{start}
use miniature_dangerzone.Dow.Loop.{handle, on_received, populate_data}
use miniature_dangerzone.Dow.{Msg, second, received}
use miniature_dangerzone.Cache.Consumer.{Draw}
use miniature_dangerzone.Cache.Producer.{produce, producer, bounced, find_exact}
use miniature_dangerzone.Dow.System.{
  Env, put_node, hears_interest, delivers, ticks, Reaches, here, next,
}
use miniature_dangerzone.Dow.System.Wakes.{clock, Waking, Reaches-Waking}
use miniature_dangerzone.Dow.System.InTime.{
  Passes, begins, second_passes, other_passes, wakes_in_time,
}
use miniature_dangerzone.Tests.World.{lite, manager, relay}

abbrev env : Env
env = record {
  cfg = record default_config { deputy = true; int_int = true; cache_size = 3 };
  lite = lite;
  strategy = λ s c. s;
  relay = relay;
}

abbrev turn : Turn
turn = record {
  now = 1000;
  radio = some asleep;
  go_sleep = true;
  answer = λ k. last_cn;
  jitter = 12345;
  sensor_draw = 0;
  retransmit = 0;
  waits = [];
}

abbrev draw : Draw
draw = record {
  alloc = some 40;
  do_cache = true;
  loopback = 99;
  random_chunk = 0;
  ack_built = true;
}

-- An interest for all data.
abbrev interest : Packet
interest = record {
  name = (record { comps = (b'*' ∷ []) ∷ []; chunknum = some (pos 0) });
  contlen = 0;
  value = [];
  num = pos 0;
  frame = none;
}

-- One of three nodes, told of a chunk of its own.
abbrev of_three : Manager
of_three = record manager { size = 3; node = (record manager.node { sent = received ∷ [] }) }

-- The second of three nodes, which sleeps and lets an interest pass. Then it asks for its own chunk,
-- and counts two seconds until its interest comes back; the next one it counts in the loop.
abbrev begun : Manager
begun = start env.cfg relay turn 1 of_three

abbrev asked : Manager
asked = put_node (producer env.cfg lite begun.me draw begun.node interest).node begun

abbrev after_waiting : Round → Round → Round → Turn
after_waiting a b c = record turn { waits = record { start = 1000; rounds = a ∷ b ∷ c ∷ [] } ∷ [] }

abbrev waiting : Turn
waiting =
    after_waiting (record { read = 1000; message = Arrival.second })
      (record { read = 1001; message = Arrival.second })
      (record { read = 1002; message = Arrival.received_int })

abbrev populated : Manager
populated =
    handle env.cfg relay waiting Msg.received (put_node (record asked.node { sent = [] }) asked)

program : Unit {0}
unfolding start sleep radio_sleep radio_off event_delay produce producer bounced find_exact handle
    on_received populate_data wakeup helper_int try_loop wait_for_chunk wait_loop hear
program = tt

asked-Reaches : Reaches env begun asked
asked-Reaches = next here (hears_interest begun draw interest)

populated-Reaches : Reaches env begun populated
unfolding program
populated-Reaches = next asked-Reaches (delivers asked waiting Msg.received [] refl refl)

-- The wait has taken two seconds off.
waited_seconds : populated.period_counter + 2 ≡ begun.period_counter
unfolding program
waited_seconds = refl

ticked-Reaches : Reaches env begun (handle env.cfg relay turn second populated)
unfolding program
ticked-Reaches = next populated-Reaches (ticks populated turn refl refl)

Reaches-Waking_example : Waking (clock (handle env.cfg relay turn second populated))
Reaches-Waking_example =
    Reaches-Waking env refl refl turn 1 of_three (handle env.cfg relay turn second populated)
      (omega arith) (omega arith) (omega arith) ticked-Reaches

-- An inactive node with a second to go, which lets an interest pass.
abbrev last_second : Manager
last_second = record of_three { node = (record of_three.node { mode = inactive }) }

abbrev bothered : Manager
bothered =
    put_node (producer env.cfg lite last_second.me draw last_second.node interest).node last_second

bothered-Passes : Passes env last_second 0 bothered
bothered-Passes = other_passes begins (hears_interest last_second draw interest) tt

second-Passes : Passes env last_second 1 (handle env.cfg relay turn second bothered)
unfolding program
second-Passes = second_passes turn bothered-Passes refl refl

wakes_in_time_example : is_inactive (handle env.cfg relay turn second bothered).node.mode ≡ false
wakes_in_time_example =
    wakes_in_time env refl refl second-Passes
      (omega arith, omega arith, inr (refl, omega arith, omega arith)) (omega arith)
