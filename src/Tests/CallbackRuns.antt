-- ===== src/Tests/CallbackRuns.antt =====
-- The two callbacks at concrete inputs.
use miniature_dangerzone.Common.{
  ℕ, ◌+◌, ◌%◌, ◌<◌, ◌≡◌, ◌↔◌, refl, true, false, none, some, [], ◌∷◌, arith, ltb, count_if, inl,
  pos, ◌&&◌,
}
use miniature_dangerzone.Config.{Config, default_config, apmdmr_min_int}
use miniature_dangerzone.Text.{
  hex8, strtol16, to_long, hex_digit, digit_value, is_space, skip_space, digits, skip_0x, signed,
  to_neg_long,
}
use miniature_dangerzone.Ccn.{
  Packet, Interest, Identity, Store, stamp, bytes_eq, unlink, unlink_interest,
}
use miniature_dangerzone.Dow.{Mode, deputy, inactive, Node, go_inactive, received_ack}
use miniature_dangerzone.Cache.Strategy.{
  fill, reset, offer, scan, scan_step, evict, choose, cs_oldest_representative,
}
use miniature_dangerzone.Cache.Newest.{handle_content, tag, mark, sweep, keep, unflag_cs, change_at}
use miniature_dangerzone.Cache.Window.{check_in_range, check_in_range_iff}
use miniature_dangerzone.Cache.Presence.{under_represented, table}
use miniature_dangerzone.Cache.Presence.Tally.{occurrences, under_represented-table}
use miniature_dangerzone.Cache.Consumer.{
  Draw, Outcome, cont_ack, cont_is_dup, find_pit, remove_pit, answer_pit, match_pit, cache_it,
  own_content, offered, asked_content, broadcast_content, unexpected, consumer,
}
use miniature_dangerzone.Cache.Consumer.Own.{own_flagged, consumer_one_newest}
use miniature_dangerzone.Cache.Consumer.Frame.{Framed, consumer-Framed}
use miniature_dangerzone.Cache.Consumer.Acked.{consumer_acknowledged}
use miniature_dangerzone.Cache.Producer.{
  walk, fall_back, reply, answer, find_exact, bounced, produce, producer,
}
use miniature_dangerzone.Cache.Producer.Handover.{Asked, producer_far-go_inactive}
use miniature_dangerzone.Tests.World.{
  lite, lite-Removes, lite-Adds, common, all_equal, me, full, store_of, entry, packet,
}

-- All that a run computes with.
program : Unit {0}
unfolding hex8 strtol16 to_long hex_digit digit_value is_space skip_space digits skip_0x signed
    to_neg_long stamp bytes_eq unlink unlink_interest fill reset offer scan scan_step evict choose
    cs_oldest_representative handle_content tag mark sweep keep unflag_cs change_at common all_equal
    check_in_range cont_is_dup find_pit remove_pit answer_pit match_pit cache_it own_content offered
    asked_content broadcast_content unexpected consumer walk fall_back reply answer find_exact
    bounced produce producer
program = tt

-- Node 1 of 5 reaches node 4 in three steps.
check_in_range_iff_example :
    (check_in_range 3 1 4 5 ≡ true) ↔ ((k : ℕ) × (k < 4) × ((3 + k) % 5 ≡ 1))
check_in_range_iff_example = check_in_range_iff 3 1 4 5 (omega arith) (omega arith) (omega arith)

under_represented-table_example : under_represented b'x' (table (b'x' ∷ b'y' ∷ b'x' ∷ [])) ≡ (
    ltb 0 (occurrences b'x' (b'x' ∷ b'y' ∷ b'x' ∷ []))
    && ltb (occurrences b'x' (b'x' ∷ b'y' ∷ b'x' ∷ [])) apmdmr_min_int)
under_represented-table_example =
    under_represented-table b'x' (b'x' ∷ b'y' ∷ b'x' ∷ []) (omega arith)
      (omega arith, (omega arith, (omega arith, tt))) (omega arith) (omega arith)

abbrev node_of : Mode → Store → Node
node_of m s = record {
  mode = m;
  store = s;
  interest_count = 0;
  prevent_sleep = 0;
  presence = [];
  sent = [];
  sleep_timer = none;
}

abbrev draw : Draw
draw = record {
  alloc = some 40;
  do_cache = true;
  loopback = 99;
  random_chunk = 0;
  ack_built = true;
}

abbrev unregistered : Identity
unregistered = record me { is_registered = false }

-- An interest for chunk k of all data.
abbrev interest : ℕ → Packet
interest k = record {
  name = (record { comps = (b'*' ∷ []) ∷ []; chunknum = some (pos k) });
  contlen = 0;
  value = [];
  num = pos 0;
  frame = none;
}

abbrev plain : Config
plain = record default_config { cache_size = 3 }

far-Asked : Asked plain lite unregistered (node_of deputy full) (interest 7) 7
unfolding program
far-Asked = record {
  no_bounce = inl refl;
  no_threshold = refl;
  no_draw = refl;
  unregistered = refl;
  on_duty = inl refl;
  for_all = refl;
  chunk = refl;
}

producer_far-go_inactive_example :
    let r = producer plain lite unregistered draw (node_of deputy full) (interest 7) in
    (r.handled ≡ true) × (r.node.sent ≡ go_inactive ∷ []) × (r.node.mode ≡ deputy)
unfolding program
producer_far-go_inactive_example =
    producer_far-go_inactive plain lite unregistered draw (node_of deputy full) (interest 7) 7
      far-Asked refl (omega arith) (omega arith) (omega arith)

-- An interest under the letter x, at a node whose first entry stands under y.
abbrev for_x : Packet
for_x = record (interest 0) {
  name = (record { comps = (b't' ∷ []) ∷ (b'x' ∷ []) ∷ []; chunknum = some (pos 0) });
}

abbrev mixed : Store
mixed = store_of (entry 20 true b'y' 1 40 ∷ entry 10 true b'x' 2 50 ∷ [])

-- A value of the node itself, number 7.
abbrev own : Packet
own = packet b'x' 7 60

abbrev kept_own : Outcome
kept_own =
    consumer plain lite (cs_oldest_representative lite me) me 5 draw (node_of inactive full) own

consumer_one_newest_example : count_if (own_flagged (hex8 7)) kept_own.node.store.contents ≡ 1
unfolding program
consumer_one_newest_example =
    consumer_one_newest plain lite lite-Removes me 5 draw (node_of inactive full) own
      (lite-Adds (cs_oldest_representative lite me)) refl refl refl refl (omega arith) refl refl
      refl refl

consumer-Framed_example : Framed (node_of inactive full) kept_own.node
unfolding program
consumer-Framed_example =
    consumer-Framed plain lite (cs_oldest_representative lite me) me 5 draw (node_of inactive full)
      own refl

-- Three interests that the node waits for, and the acknowledgement of the second.
abbrev pending : ℕ → Interest
pending k = record { addr = 100 + k; name = (interest k).name; face = 1; pending = 1 }

abbrev asking : Store
asking = record full { pit = pending 0 ∷ pending 1 ∷ pending 2 ∷ [] }

abbrev ack : Packet
ack = record (interest 1) { contlen = 13; value = cont_ack; num = pos 1 }

abbrev acked : Outcome
acked = consumer plain lite (cs_oldest_representative lite me) me 5 draw (node_of deputy asking) ack

consumer_acknowledged_example :
    (acked.node.store.pit ≡ pending 0 ∷ pending 2 ∷ [])
    × (acked.node.store.contents ≡ asking.contents)
    × (acked.node.sent ≡ received_ack ∷ [])
unfolding program
consumer_acknowledged_example =
    consumer_acknowledged plain lite (cs_oldest_representative lite me) me 5 draw
      (node_of deputy asking) ack (pending 0 ∷ []) (pending 2 ∷ []) (pending 1) lite-Removes refl
      refl refl refl refl (refl, tt) refl (refl, tt)
