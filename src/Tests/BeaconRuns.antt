-- ===== src/Tests/BeaconRuns.antt =====
-- Beaconing, and publishing old content, at concrete inputs.
use miniature_dangerzone.Common.{ℕ, ◌+◌, ◌<◌, ◌≤◌, ◌≡◌, refl, List, [], ◌∷◌, arith, ◌==◌, any_if}
use miniature_dangerzone.Dow.Beacon.{
  Bloom, Remembers, Snip, beacon_size, magic, Neighbours, send_next, Beaconing, handle_beacon,
  begin, on_notice, timed,
}
use miniature_dangerzone.Dow.Beacon.Rank.{hear_all, hear_all_ranked}
use miniature_dangerzone.Dow.Beacon.Rounds.{stays, goes, fires, InRound, begin-Reaches}

-- A filter without false positives: the list of what was added.
abbrev exact : Bloom (List ℕ)
exact = record { check = λ f i. any_if (λ j. j == i) f; add = λ f i. i ∷ f }

exact-Remembers : Remembers exact
exact-Remembers = record {
  holds_new = λ f i. ground arith;
  holds_old = λ f i j known. ground arith;
}

abbrev beacon_of : ℕ → Snip
beacon_of i = record { size = beacon_size; magic_key = magic; id = i }

abbrev alone : Neighbours (List ℕ)
alone = record { filter = []; size = 1; position = 0 }

abbrev heard : List Snip
heard = beacon_of 3 ∷ beacon_of 9 ∷ beacon_of 3 ∷ []

-- Node 7 hears the nodes 3 and 9.
finds_place : (hear_all exact 7 heard alone).position ≡ 1
unfolding hear_all handle_beacon
finds_place = refl

hear_all_ranked_example :
    ((hear_all exact 7 heard alone).position < (hear_all exact 7 heard alone).size)
    × ((hear_all exact 7 heard alone).size ≤ 1 + 3)
hear_all_ranked_example = hear_all_ranked exact 7 heard alone (omega arith) (omega arith)

abbrev first : Beaconing (List ℕ)
first = begin exact 7 1000 alone

abbrev once : Beaconing (List ℕ)
once = on_notice exact 7 2000 0 (timed send_next) first

begin-Reaches_example : InRound exact 7 once
unfolding begin
begin-Reaches_example =
    begin-Reaches exact 7 1000 alone once
      (goes first once stays (fires first send_next 4001000 2000 0 refl refl))
