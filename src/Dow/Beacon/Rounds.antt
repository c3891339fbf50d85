-- ===== src/Dow/Beacon/Rounds.antt =====
-- How beaconing goes on and ends, as the steps that are possible when the timer brings back the
-- message it was set to, and packets and other messages come at any time.
use miniature_dangerzone.Common.{
  ℕ, ◌+◌, ◌≡◌, refl, false, Option, none, some, arith, ltb, if◌then◌else◌, inl, ◌⊎◌,
}
use miniature_dangerzone.Dow.Beacon.{
  Bloom, Snip, Neighbours, beacon_count, Kind, send_next, end_it, Beaconing, timed, arrived,
  unexpected, begin, on_notice,
}

module _ {Filter : Type 0} (b : Bloom Filter) (my_id : ℕ) where
  -- One round of the loop, which only runs while `end_beaconing` is false.
  pub data Step : Beaconing Filter → Beaconing Filter → Type 0 where
    fires :
        (s : Beaconing Filter) (k : Kind) (due delay since : ℕ)
        → s.ended ≡ false
        → s.timer ≡ some (k, due)
        → Step s (on_notice b my_id delay since (timed k) s)
    hears :
        (s : Beaconing Filter) (p : Snip)
        → s.ended ≡ false
        → Step s (on_notice b my_id 0 0 (arrived p) s)
    ignores : (s : Beaconing Filter) → s.ended ≡ false → Step s (on_notice b my_id 0 0 unexpected s)

  pub data Reaches (s0 : Beaconing Filter) : Beaconing Filter → Type 0 where
    stays : Reaches s0 s0
    goes : (s s' : Beaconing Filter) → Reaches s0 s → Step s s' → Reaches s0 s'

  abbrev pub timer_kind : Option (Kind × ℕ) → Option Kind
  timer_kind none = none
  timer_kind (some (k, due)) = some k

  -- The beacons sent and those to be sent are three, and the end comes behind the last of them. Until
  -- then the timer is set: to the next beacon while one is to be sent, and else to the end.
  pub record InRound (s : Beaconing Filter) : Type 0 where
    pub counted : s.sent + s.remaining ≡ beacon_count
    pub last : (s.ended ≡ false) ⊎ (s.remaining ≡ 0)
    pub armed :
        timer_kind s.timer
        ≡ (if s.ended then none else if ltb 0 s.remaining then some send_next else some end_it)

  begin-InRound : (delay : ℕ) (n : Neighbours Filter) → InRound (begin b my_id delay n)
  unfolding begin
  begin-InRound delay n = record { counted = refl; last = inl refl; armed = refl }

  Step-InRound : (s s' : Beaconing Filter) → Step s s' → InRound s → InRound s'
  unfolding on_notice
  Step-InRound s s' (fires _ send_next due delay since runs set) r = record {
    counted = ground (arith, r, runs, set);
    last = ground (arith, r, runs, set);
    armed = ground (arith, r, runs, set);
  }
  Step-InRound s s' (fires _ end_it due delay since runs set) r = record {
    counted = ground (arith, r);
    last = ground (arith, r, runs, set);
    armed = ground (arith, r);
  }
  Step-InRound s s' (hears _ p runs) r = record {
    counted = r.counted;
    last = r.last;
    armed = r.armed;
  }
  Step-InRound s s' (ignores _ runs) r = r

  -- Whatever is heard on the way, every state of the loop is in order: beaconing has sent its three
  -- beacons when it has ended, and until then the timer is set, so that it goes on.
  pub begin-Reaches :
      (delay : ℕ) (n : Neighbours Filter) (s : Beaconing Filter)
      → Reaches (begin b my_id delay n) s
      → InRound s
  begin-Reaches delay n s stays = begin-InRound delay n
  begin-Reaches delay n s (goes s1 _ before step) =
      Step-InRound s1 s step (begin-Reaches delay n s1 before)
