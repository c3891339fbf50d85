-- ===== src/Lib.antt =====
-- A model of applications of this repository, which run on RIOT. The largest is the energy-aware
-- caching application on CCN-lite (ccnl_caching/): nodes put sensor values into their content stores,
-- and take turns, by rounds or by chance, to keep their radios on and to answer interests. Beside it
-- stand what ccnl_computation/ adds to that application, a network of ten nodes that fetches content
-- on layer 2 (l2_routing/), and the demos of inria-industry/ and dagstuhl23_demo/.
--
-- The parts, and where they are modelled:
--
-- - Config: the switches of ccnl_caching/dow.h and ccnlriot.h. Each `#if` of the source is a test of a
--   field, so that one definition stands for every build.
-- - Text, with Text/Hex: "%08X" and `strtol` in base 16, by which time stamps and numbers of nodes
--   get into names and out of them.
-- - Ccn, with Ccn/Unlink: names, packets, entries and interests, as far as the application reads
--   them, and the record `CcnLite` of what it calls there. CCN-lite is no part of the repository; the
--   laws `Removes` and `Adds` are what the application relies on, and Tests/World has an instance.
-- - Cache/Strategy and its children: `cs_oldest_representative` of ccnl_caching/ccnl_helper.c, which
--   CCN-lite calls when the store is full. One loop looks for four kinds of victims.
-- - Cache/Newest and its children: `_unflag_cs` and `_ccnl_helper_handle_content`, which keep the
--   flag of the newest value of each source and the count of prioritised entries.
-- - Cache/Consumer and its children: `ccnlriot_consumer`, for an incoming chunk, with `_remove_pit`,
--   `_cont_is_dup` and, in Cache/Window, `_check_in_range`.
-- - Cache/Producer and its children: `ccnlriot_producer`, for an incoming interest, with, in
--   Cache/Presence, `_prefix_seen_interest` and `ccnl_helper_prefix_under_represented`.
-- - Cache/Publish: `ccnl_helper_publish_content`.
-- - Cache/Packets: `ccnl_helper_create_cont` and `_send_ack`.
-- - Dow: the state that the callbacks share with the manager of ccnl_caching/dow.c. Its children:
--   Power (the account of active and sleeping time, and `_stats` of main.c), Wait (`_wait_for_chunk`
--   and `ccnl_helper_int`), Manager (`_radio_sleep`, `dow_sleep`, `dow_wakeup`, `dow_takeover`,
--   `_send_interests`), Data (`dow_new_data`), Loop (`_loop`, one function for each message), and
--   Beacon (ccnl_caching/beaconing.c, with the Bloom filter as a record). Takeover puts the two
--   nodes of a takeover together: `dow_takeover`, `ccnl_helper_int` and the content callback of the
--   new deputy with the interest callback and `_send_ack` of the old one. System is a whole node, as a
--   relation between states: callbacks, the messages they send, timers and commands, in any order.
-- - Shell: the commands of ccnl_caching/main.c that change the state, and, in Shell/Settings, those
--   that set what the node starts with.
-- - Computation: the content callback of ccnl_computation/ccnl_callbacks.c, which notes
--   `dow_highest_id` and then does what that of ccnl_caching does.
-- - Icn: the addresses, links, routes and packets of l2_routing/icn.h and l2.c. Its children: Route
--   (`_linkIsScheduled`, `_routeLookup`, and where packets travel by them), Node (the handlers of
--   l2.c, a function for each, and the start in main.c), and Net (the ten nodes together, as a
--   relation between states: a frame arrives, a frame is lost, a timer fires; in Net/Safe what holds
--   in every state that is reached, in Net/Fetch the way of one chunk).
-- - Industry: Accel (inria-industry/accel_udp/sense.c and evt_handler.c), Light
--   (inria-industry/light/light.c), Lux and Request (light_sense.c, evt_handler.c and main.c of
--   inria-industry/light_ccnl).
-- - AccelRadio: accel_radio/sense.c and evt_handler.c, with Axis (at rest no two axes are over the
--   threshold) and Debounced (when an event is told). What `sqrtf` makes of a number is an argument.
-- - Chain: the list of addresses, the routes and the fetching of content of ccnlriot/routes.h,
--   routes.c and main.c, with Line (where the routes lead) and Fetched (when fetching succeeds).
-- - Mqtt: the shell commands and the publisher of dagstuhl23_demo/main.c.
-- - Text/Buffer: strings in buffers, as `strncpy` with the length of the string leaves them.
--
-- How they interact: CCN-lite calls the two callbacks with a packet. They change the store and the
-- mode, and send messages to the manager (`sent` of the record `Node`); the manager handles one
-- message after the other, switches the radio, and sends interests, whose answers come back through
-- the callbacks.
--
-- Conventions. Machine integers are natural numbers with their wrap-around written out (Common/Word),
-- `int` and `long` are integers (Common/Int). An entry is known by its address. A test that reads
-- outside an array or through NULL, which is undefined, finds no bytes, or no match. What a call meets
-- outside, such as the clock, a draw, the state of the radio, or the result of an allocation, is an
-- argument (`Draw`, `Turn`). Loops over lists are structural recursion; `ask_from` has as many rounds
-- as the loop it models can have, CCNLRIOT_CACHE_SIZE + 2 at a takeover and DOW_PER else; waiting runs
-- over the messages that come, and is without a result when they run out. When the manager waits for
-- its own interest (`_populate_data`), it runs `ccnl_helper_int` on the messages of the turn, which
-- may take seconds off its period and postpone new data. At a takeover and under DOW_PER, the answer
-- to an interest is taken from the turn: what those waits do to the period counter is not modelled.
-- Of the callbacks only those of Dow/Takeover run while the manager waits.
--
-- In l2_routing, a handler answers `none` where it leaves the bit field of received chunks; the
-- network may lose and reorder frames, and the message of a timer brings any number, since the code
-- reads it through a pointer to a variable that is gone. Of the MQTT client, each call's result is an argument, and a command answers `none` where it
-- leaves its array. The numbers of the events of inria-industry are those of inria-industry/events.h.
--
-- Not modelled: `ccnl_helper_create_int`, which is calls into CCN-lite; the set-up of threads, network
-- interfaces and hashes; output; `dow_estimate_p`, which computes in floating point; the packet buffer
-- of l2_routing; `_create_content` of ccnlriot, which is calls into CCN-lite. Of ccnl_computation,
-- the functions that are those of ccnl_caching are not modelled a second time. The other applications of the repository are drivers,
-- set-up of the network stack, measurements, or copies of other projects' code.
pub mod Common
pub mod Text
pub mod Config
pub mod Ccn
pub mod Dow
pub mod Cache
pub mod Shell
pub mod Icn
pub mod Industry
pub mod AccelRadio
pub mod Mqtt
pub mod Computation
pub mod Chain
mod Tests
