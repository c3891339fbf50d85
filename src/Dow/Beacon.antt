-- ===== src/Dow/Beacon.antt =====
-- How the nodes of the round-robin mode find their order: ccnl_caching/beaconing.c. The Bloom filter
-- is a part of the operating system, and is the record `Bloom`.
pub mod Rank
pub mod Rounds
use miniature_dangerzone.Common.{
  ℕ, ◌+◌, ◌-◌, ◌≡◌, Bool, true, false, not, ◌||◌, List, [], ◌∷◌, Option, none, some, ltb, ◌==◌, u8,
  sub8, u16, u32, sub32, if◌then◌else◌,
}
use miniature_dangerzone.Config.{sec_in_usec}

-- bloom_check and bloom_add
pub record Bloom (Filter : Type 0) : Type 0 where
  pub check : Filter → ℕ → Bool
  pub add : Filter → ℕ → Filter

-- What the filter promises: it forgets nothing that was added.
pub record Remembers {Filter : Type 0} (b : Bloom Filter) : Type 0 where
  pub holds_new : (f : Filter) (i : ℕ) → b.check (b.add f i) i ≡ true
  pub holds_old : (f : Filter) (i j : ℕ) → b.check f i ≡ true → b.check (b.add f j) i ≡ true

-- A received packet: its size, and its bytes read as `beacon_t`.
pub record Snip : Type 0 where
  pub size : ℕ
  pub magic_key : ℕ
  pub id : ℕ

-- BEACONING_MK
abbrev pub magic : ℕ
magic = 5889

-- sizeof(beacon_t), packed
abbrev pub beacon_size : ℕ
beacon_size = 6

-- dow_neighbors, dow_size and dow_position
pub record Neighbours (Filter : Type 0) : Type 0 where
  pub filter : Filter
  pub size : ℕ
  pub position : ℕ

-- DOW_BEACONING_COUNT and DOW_BEACONING_WAIT
abbrev pub beacon_count : ℕ
beacon_count = 3

abbrev pub beacon_wait : ℕ
beacon_wait = 4000000

-- DOW_MSG_BEACON and DOW_MSG_BEACON_END
pub data Kind : Type 0 where
  send_next end_it : Kind

-- The variables of `beaconing_start`, and the message and delay that the timer is set to.
pub record Beaconing (Filter : Type 0) : Type 0 where
  pub neighbours : Neighbours Filter
  pub remaining : ℕ  -- remaining_beacons, a uint8_t
  pub ended : Bool  -- end_beaconing
  pub sent : ℕ  -- how often `beaconing_send` was called
  pub timer : Option (Kind × ℕ)

-- The messages of the loop: from the timer, from the network, and others.
pub data Notice : Type 0 where
  timed : Kind → Notice
  arrived : Snip → Notice
  unexpected : Notice

module _ {Filter : Type 0} (b : Bloom Filter) (my_id : ℕ) where
  unfoldable pub handle_beacon : Snip → Neighbours Filter → Neighbours Filter
  handle_beacon p n =
      if not (p.size == beacon_size) || not (p.magic_key == magic)
      then n
      else if b.check n.filter p.id
      then n
      else record {
        filter = b.add n.filter p.id;
        size = u16 (n.size + 1);
        position = (if ltb p.id my_id then u16 (n.position + 1) else n.position);
      }

  -- The state in front of the loop, for the first random delay.
  unfoldable pub begin : ℕ → Neighbours Filter → Beaconing Filter
  begin delay n = record {
    neighbours = n;
    remaining = beacon_count;
    ended = false;
    sent = 0;
    timer = some (send_next, u32 (delay + beacon_wait));
  }

  -- One round of the loop, for the random delay of the next beacon and the time since the start.
  unfoldable pub on_notice : ℕ → ℕ → Notice → Beaconing Filter → Beaconing Filter
  unfolding handle_beacon
  on_notice delay since (timed send_next) s =
      let left = sub8 s.remaining 1 in
      record s {
        sent = s.sent + 1;
        remaining = left;
        timer = some (
            if ltb 0 left
            then (send_next, delay)
            else (end_it, sub32 (beacon_wait + beacon_wait) since));
      }
  on_notice delay since (timed end_it) s = record s { ended = true; timer = none }
  on_notice delay since (arrived p) s = record s { neighbours = handle_beacon p s.neighbours }
  on_notice delay since unexpected s = s
