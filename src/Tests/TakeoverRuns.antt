-- ===== src/Tests/TakeoverRuns.antt =====
-- A takeover between two nodes of the caching application at a concrete input: the old deputy has
-- three entries, the new one has none.
use miniature_dangerzone.Common.{
  ℕ, zero, suc, ◌+◌, ◌<◌, ◌≡◌, refl, true, false, none, some, Option, [], ◌∷◌, ◌++◌, List, arith,
  inl, ap, map, pos, get_elem?, All, if◌then◌else◌,
}
use mathlib.Core.List.{reverse}
use mathlib.Core.Path.{subst}
use miniature_dangerzone.Config.{default_config}
use miniature_dangerzone.Text.{hex8, hex_digit}
use miniature_dangerzone.Ccn.{Name, Packet, Content, Store, bytes_eq, unlink, unlink_interest}
use miniature_dangerzone.Cache.Newest.{handle_content, keep, tag, mark, sweep, change_at}
use miniature_dangerzone.Dow.{Mode, deputy, inactive, go_inactive, Node}
use miniature_dangerzone.Dow.Wait.{last_cn, helper_int, try_loop, wait_for_chunk, wait_loop, hear}
use miniature_dangerzone.Dow.Takeover.{
  Pair, Setting, FullNames, asking, came_back, answer_to, exchange, after, delivered, answers,
}
use miniature_dangerzone.Dow.Takeover.Entries.{erase, names}
use miniature_dangerzone.Dow.Takeover.Steps.{Fair, Along, Unasked}
use miniature_dangerzone.Dow.Takeover.Complete.{take_over_complete}
use miniature_dangerzone.Dow.Takeover.Kept.{Room}
use miniature_dangerzone.Dow.Takeover.Copied.{Unknown, Takes, take_over_copies, length-names}
use miniature_dangerzone.Cache.Consumer.{
  Draw, consumer, match_pit, unexpected, asked_content, offered, cache_it, answer_pit, remove_pit,
  find_pit, cont_is_dup,
}
use miniature_dangerzone.Dow.Manager.{asleep, Manager, Turn, take_over}
use miniature_dangerzone.Dow.Loop.{handle}
use miniature_dangerzone.Dow.Loop.Timer.{up_from}
use miniature_dangerzone.Cache.Producer.{
  set_num, producer, produce, bounced, find_exact, answer, walk, fall_back, reply,
}
use miniature_dangerzone.Tests.World.{relay, manager, lite, common, all_equal, me, full, store_of}

-- All that a run computes with.
program : Unit {0}
unfolding hex8 hex_digit bytes_eq common all_equal
program = tt

bytes_eq_refl : (xs : List ℕ) → bytes_eq xs xs ≡ true
unfolding bytes_eq
bytes_eq_refl [] = refl
bytes_eq_refl (x ∷ xs) = ground (arith, bytes_eq_refl xs)

all_equal_refl : (xs : List (List ℕ)) → all_equal xs xs ≡ true
unfolding all_equal
all_equal_refl [] = refl
all_equal_refl (x ∷ xs) = rw (bytes_eq_refl x) (all_equal_refl xs)

-- The first entry under the name.
first_named : Name → List Content → Option Packet
first_named n [] = none
first_named n (c ∷ cs) = if all_equal n.comps c.pkt.name.comps then some c.pkt else first_named n cs

first_named_later :
    (n : Name) (cs : List Content) (k : ℕ) (c : Content)
    → All (λ m. (lite.prefix_exact m n ≡ false) × (lite.prefix_exact n m ≡ false)) (names cs)
    → get_elem? cs k ≡ some c
    → all_equal c.pkt.name.comps n.comps ≡ false
first_named_later n [] k c apart at = cc
first_named_later n (x ∷ cs) zero c apart at = ground arith
first_named_later n (x ∷ cs) (suc k) c apart at = first_named_later n cs k c apart.1 at

first_named_found :
    (cs : List Content) (k : ℕ) (c : Content)
    → FullNames lite (names cs)
    → get_elem? cs k ≡ some c
    → first_named c.pkt.name cs ≡ some c.pkt
unfolding first_named
first_named_found [] k c full at = cc
first_named_found (x ∷ cs) zero c full at = ground (arith, all_equal_refl x.pkt.name.comps)
first_named_found (x ∷ cs) (suc k) c full at =
    rw (first_named_later x.pkt.name cs k c full.1 at) (first_named_found cs k c full.2 at)

abbrev draw : ℕ → Draw
draw k = record {
  alloc = some (100 + k);
  do_cache = true;
  loopback = 99;
  random_chunk = 0;
  ack_built = true;
}

abbrev setting : Setting
setting = record {
  cfg = record default_config { deputy = true; int_int = true; cache_size = 3 };
  lite = lite;
  strategy = λ s c. s;
  me_old = record me { is_registered = false };
  me_new = record me { my_id = 8; is_registered = false };
  content_for = first_named;
  enter = λ k is.
      record {
        addr = 200 + k;
        name = record { comps = (b'*' ∷ []) ∷ []; chunknum = some (pos k) };
        face = 99;
        pending = 99;
      }
      ∷ is;
  ack_alloc = 60;
  face = 1;
  retransmit = 0;
  waiter = record { buffer = []; period_counter = 24; postponed = 0; seconds = 0 };
  old_draw = draw;
  new_draw = draw;
  start = λ k. 1000;
  read = λ k. 1500;
}

abbrev node_of : Mode → Store → Node
node_of m s = record {
  mode = m;
  store = s;
  interest_count = 0;
  prevent_sleep = 0;
  presence = [];
  sent = [];
  sleep_timer = none;
}

abbrev pair : Pair
pair = record { old = node_of deputy full; new = node_of deputy (store_of []) }

abbrev chunks : List Content
chunks = map erase full.contents

setting-Fair : Fair setting chunks
unfolding program
setting-Fair = record {
  robin = refl;
  release = refl;
  bounces = refl;
  no_threshold = refl;
  no_draw = refl;
  unregistered = refl;
  for_all = λ k. refl;
  ack_for_all = refl;
  not_named = λ k. (refl, (refl, (refl, tt)));
  acks = λ k. refl;
  in_time = λ k. refl;
  small = omega arith;
  distinct = ((refl, (refl, tt)), ((refl, tt), (tt, tt)));
  full = (refl, ((refl, refl), ((refl, refl), tt)), (refl, ((refl, refl), tt), (refl, tt, tt)));
  chunks = ((refl, refl), ((refl, refl), ((refl, refl), tt)));
}

pair-Along : Along chunks pair
pair-Along = record { erased = refl; on_duty = inl refl; new_deputy = refl }

-- All that the callbacks compute with.
callbacks : Unit {0}
unfolding program after exchange came_back answer_to producer produce bounced find_exact answer walk
    fall_back reply consumer match_pit unexpected asked_content offered cache_it answer_pit
    remove_pit find_pit cont_is_dup first_named handle_content keep tag mark sweep change_at unlink
    unlink_interest helper_int try_loop wait_for_chunk wait_loop hear
callbacks = tt

-- The entry that was found is the one that stands there.
at_chunk : (P : Content → Type 0) (a c : Content) → some a ≡ some c → P a → P c
at_chunk P a c at here = subst P (ap (λ o. elim o [ none ↦ a | some x ↦ x ]) at) here

abbrev Alone : ℕ → Content → Type 0
Alone k c =
    match_pit setting.cfg setting.lite setting.strategy setting.me_new setting.face
      (setting.new_draw k).loopback c.pkt.name
      (asking setting k (after setting pair k).new).store.pit
    ≡ none

pair-Unasked : (k : ℕ) → k < 3 → Unasked setting chunks (after setting pair k) k
unfolding callbacks
pair-Unasked zero lt c at = at_chunk (Alone 0) _ c at refl
pair-Unasked (suc zero) lt c at = at_chunk (Alone 1) _ c at refl
pair-Unasked (suc (suc zero)) lt c at = at_chunk (Alone 2) _ c at refl
pair-Unasked (suc (suc (suc k))) lt c at = absurd (omega (arith, lt))

abbrev UnknownAt : ℕ → Content → Type 0
UnknownAt k c = cont_is_dup (after setting pair k).new.store.contents (set_num k c).pkt ≡ false

pair-Unknown : (k : ℕ) → k < 3 → Unknown setting chunks (after setting pair k) k
unfolding callbacks
pair-Unknown zero lt c at = at_chunk (UnknownAt 0) _ c at refl
pair-Unknown (suc zero) lt c at = at_chunk (UnknownAt 1) _ c at refl
pair-Unknown (suc (suc zero)) lt c at = at_chunk (UnknownAt 2) _ c at refl
pair-Unknown (suc (suc (suc k))) lt c at = absurd (omega (arith, lt))

lite-Room : (strategy : Store → Content → Store) → Room lite strategy 3
lite-Room strategy = record { takes = λ s c short apart. ground (arith, length-names s.contents) }

new-Takes : Takes setting chunks []
new-Takes = record {
  capacity = 3;
  room = lite-Room (λ s c. s);
  allocates = λ k. (100 + k, refl);
  fits = omega arith;
  apart = (tt, (tt, (tt, tt)));
}

take_over_copies_example :
    names (after setting pair 3).new.store.contents ≡ reverse (names chunks) ++ []
take_over_copies_example =
    take_over_copies setting chunks pair first_named_found setting-Fair pair-Along pair-Unasked
      pair-Unknown refl new-Takes

-- A turn at a time, with the state of the radio, whose interests get the answers of the exchanges.
abbrev turn : ℕ → Turn
turn now = record {
  now = now;
  radio = some asleep;
  go_sleep = false;
  answer = answers setting pair;
  jitter = 12345;
  sensor_draw = 0;
  retransmit = 0;
  waits = [];
}

abbrev manager_of : Node → Manager
manager_of n = record manager { node = n }

abbrev old_manager : Manager
old_manager = manager_of (after setting pair 4).old

take_over_complete_example :
    let m' = take_over setting.cfg relay (turn 900) (manager_of (node_of inactive (store_of []))) in
    (m'.asked ≡ up_from 0 4)
    × ((k : ℕ)
        → k < 3
        → (c : Content) × (get_elem? chunks k ≡ some c)
          × (delivered setting pair k ≡ some (set_num k c).pkt))
    × (answers setting pair 3 ≡ last_cn)
    × (m'.node ≡ pair.new)
    × ((after setting pair 4).new.mode ≡ deputy)
    × (map erase old_manager.node.store.contents ≡ chunks)
    × (old_manager.node.sent ≡ go_inactive ∷ [])
    × ((handle setting.cfg relay (turn 2000) go_inactive old_manager).node.mode ≡ inactive)
take_over_complete_example =
    take_over_complete setting chunks pair first_named_found setting-Fair pair-Along pair-Unasked
      relay (turn 900) (turn 2000) (manager_of (node_of inactive (store_of []))) old_manager refl
      refl refl
