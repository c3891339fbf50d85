-- ===== src/Tests/NetRuns.antt =====
-- The network of l2_routing and the chain of ccnlriot at concrete inputs.
use miniature_dangerzone.Common.{
  ◌==◌, ◌↔◌, true, ◌-◌, ◌≡◌, ◌⊎◌, refl, none, some, [], ◌∷◌, arith, ◌≤◌,
}
use miniature_dangerzone.Chain.{prefix1, prefix2}
use miniature_dangerzone.Chain.Line.{follow, id_at, routes_line}
use miniature_dangerzone.Icn.{same_addr, node_id, interest, content}
use miniature_dangerzone.Icn.Route.{link_is_scheduled, lookup_loop, route_lookup, next_hop}
use miniature_dangerzone.Icn.Route.Paths.{travel, arrived, dropped_at, travel_ends}
use miniature_dangerzone.Icn.Node.{
  Node, Outcome, bf_isset, first_missing, get_smallest_missing, icn_send, init_content,
  schedule_retry, request_chunk, after_lookup, init_interest, init_background, on_interest,
  take_chunk, pass_down, on_content, rcv_kind, send_interest, on_event, fresh, start,
  send_background,
}
use miniature_dangerzone.Icn.Node.Interest.{interest_frame}
use miniature_dangerzone.Icn.Node.Receive.{run, packet_from, frame_to, second_takes_all}
use miniature_dangerzone.Icn.Net.{
  Flight, World, set_node, from_node, wake, next_chunk, Reaches, stays, goes, boot,
}
use miniature_dangerzone.Icn.Net.Safe.{WorldFits, Reaches-WorldFits}
use miniature_dangerzone.Icn.Node.Interest.{Asked, init_interest_lem}
use miniature_dangerzone.Chain.{get_content, chunk_numbers}
use miniature_dangerzone.Chain.Fetched.{AllAnswered, get_content_lem}

-- All that a run computes with.
program : Unit {0}
unfolding same_addr link_is_scheduled lookup_loop route_lookup next_hop travel bf_isset
    first_missing get_smallest_missing icn_send init_content schedule_retry request_chunk
    after_lookup init_interest init_background on_interest take_chunk pass_down on_content rcv_kind
    on_event fresh start run
program = tt

-- From node 9 to node 5, over 2 and 1.
reaches_5 : travel 3 (node_id 9) (node_id 5) ≡ arrived
unfolding program
reaches_5 = refl

travel_ends_example :
    (travel 5 (node_id 3) (node_id 8) ≡ arrived)
    ⊎ ((travel 5 (node_id 3) (node_id 8) ≡ dropped_at (node_id 0)) × (7 ≤ 8))
travel_ends_example = travel_ends 3 8 (omega arith) (omega arith)

-- Which nodes start by themselves.
starters :
    (start (fresh (node_id 7)) ≡ some (send_interest 0))
    × (start (fresh (node_id 3)) ≡ some send_background)
    × (start (fresh (node_id 0)) ≡ none)
unfolding program
starters = (refl, refl, refl)

second_takes_all_example :
    (s' : Node) × (run
        (packet_from (node_id 3) interest 8
          ∷ packet_from (node_id 4) interest 9
          ∷ packet_from (node_id 0) content 8
          ∷ packet_from (node_id 0) content 9
          ∷ [])
        (fresh (node_id 1))
      ≡ some (
        s',
        frame_to (node_id 0) interest 8
            ∷ frame_to (node_id 0) interest 9
            ∷ frame_to (node_id 4) content 8
            ∷ frame_to (node_id 4) content 9
            ∷ [],
      ))
    × (s'.pit_ctr ≡ 0)
unfolding program
second_takes_all_example =
    second_takes_all (node_id 3) (node_id 4) (node_id 0) (node_id 0) 8 9 (fresh (node_id 1)) refl
      refl refl refl

abbrev asked_first : Outcome
asked_first = (
  record (fresh (node_id 7)) { send_counter = 1; retry_vt = some 0; periodic_vt = some 1 },
  interest_frame 0 ∷ [],
)

abbrev asking : World
asking = record { nodes = set_node boot.nodes 7 asked_first.0; air = from_node 7 asked_first.1 }

boot-asking : Reaches boot asking
unfolding program
boot-asking = goes boot asking stays (wake boot 7 (send_interest 0) asked_first (next_chunk 0) refl)

Reaches-WorldFits_example : WorldFits asking
Reaches-WorldFits_example = Reaches-WorldFits asking boot-asking

abbrev first_flight : Flight
first_flight = record { src = 7; frame = interest_frame 0 }

init_interest_lem_example :
    (out : Outcome) × (init_interest 0 (fresh (node_id 7)) ≡ some out)
    × Asked 0 (fresh (node_id 7)) out
unfolding fresh
init_interest_lem_example = init_interest_lem 0 (fresh (node_id 7)) refl (omega arith)

routes_line_example :
    (follow prefix1 7 (id_at 7) ≡ some (id_at 0))
    × (follow prefix2 (19 - 7) (id_at 7) ≡ some (id_at 19))
routes_line_example = routes_line 7 (omega arith)

-- Each chunk comes for the fourth interest.
get_content_lem_example :
    ((get_content (λ c k. k == 3)).0 ≡ true ↔ AllAnswered (λ c k. k == 3) chunk_numbers 0)
    × ((get_content (λ c k. k == 3)).1 ≤ 100)
get_content_lem_example = get_content_lem (λ c k. k == 3)
