-- ===== src/Icn/Net/Fetch.antt =====
-- How a chunk gets to the node that wants it, when its interest is alone in the network.
use miniature_dangerzone.Common.{
  ℕ, ◌+◌, ◌-◌, ◌<◌, ◌≡◌, refl, true, false, some, [], ◌∷◌, arith, ap, ◌∙◌, u16, u32, ltb,
}
use miniature_dangerzone.Icn.{
  same_addr, node_id, content_store, interest, content, Packet, interest_text, content_text,
}
use miniature_dangerzone.Icn.Route.{link_is_scheduled, next_hop}
use miniature_dangerzone.Icn.Node.{
  Node, Frame, Outcome, number_of_chunks, has_content, icn_send, init_content, on_interest,
  rcv_kind, received_packet, on_event,
}
use miniature_dangerzone.Icn.Node.Interest.{interest_frame}
use miniature_dangerzone.Icn.Node.Receive.{relay_interest, relay_content}
use miniature_dangerzone.Icn.Net.{World, set_node, from_node, Step, deliver, Reaches, stays, goes}
use miniature_dangerzone.Icn.Net.Roles.{
  Relay, relay_9, relay_2, relay_1, Relay-RelayFits, NodeFits, dispatch,
}
use miniature_dangerzone.Icn.Net.Ends.{taken, client_content}

-- A single frame on its way.
abbrev one : (ℕ → Node) → ℕ → ℕ → Packet → World
one nodes src dst p = record {
  nodes = nodes;
  air = record { src = src; frame = record { dst = node_id dst; packet = p } } ∷ [];
}

abbrev pend : ℕ → Node → Node
pend down s = record s {
  pit_entry = node_id down;
  pit_ctr = 1;
  send_counter = u16 (s.send_counter + 1);
}

abbrev serve : Node → Node
serve s = record s { pit_ctr = 0; send_counter = u16 (s.send_counter + 1) }

arrives :
    (nodes : ℕ → Node) (src i : ℕ) (p : Packet) (out : Outcome)
    → i < 10
    → on_event (received_packet (some (node_id src)) p) (nodes i) ≡ some out
    → Step (one nodes src i p) (record { nodes = set_node nodes i out.0; air = from_node i out.1 })
arrives nodes src i p out lt h = deliver (one nodes src i p) [] [] _ i out refl lt refl h

hop_up :
    (nodes : ℕ → Node) (i up down : ℕ) (p : Packet)
    → Relay i up down
    → i < 10
    → p.kind ≡ interest
    → (nodes i).my_id ≡ node_id i
    → (nodes i).pit_ctr ≡ 0
    → Step (one nodes down i p) (one (set_node nodes i (pend down (nodes i))) i up p)
unfolding rcv_kind
hop_up nodes i up down p r lt k me idle =
    let rf = Relay-RelayFits i up down r in
    let relay : has_content (nodes i) ≡ false =
      ap (λ a. same_addr a content_store) me ∙ rf.no_store in
    let route = ap (λ a. next_hop a content_store) me ∙ rf.to_store in
    let frame : Frame = record { dst = node_id up; packet = p } in
    let out = relay_interest (node_id down) (node_id up) p (nodes i) relay route in
    arrives nodes down i p (pend down (nodes i), frame ∷ []) lt
      (dispatch (node_id down) p (nodes i) interest k
        ∙ ap some (
            out
            ∙ ap (λ n. (record (pend down (nodes i)) { pit_ctr = u32 (n + 1) }, frame ∷ [])) idle))

hop_down :
    (nodes : ℕ → Node) (i up down src : ℕ) (p : Packet)
    → Relay i up down
    → i < 10
    → p.kind ≡ content
    → (nodes i).my_id ≡ node_id i
    → (nodes i).pit_ctr ≡ 1
    → (nodes i).pit_entry ≡ node_id down
    → Step (one nodes src i p) (one (set_node nodes i (serve (nodes i))) i down p)
unfolding rcv_kind
hop_down nodes i up down src p r lt k me waits entry =
    let rf = Relay-RelayFits i up down r in
    let route =
      ap (λ a. next_hop a (nodes i).pit_entry) me ∙ ap (next_hop (node_id i)) entry ∙ rf.to_below in
    let frame : Frame = record { dst = node_id down; packet = p } in
    let out = relay_content (node_id down) p (nodes i) (ap (ltb 0) waits) route in
    arrives nodes src i p (serve (nodes i), frame ∷ []) lt
      (dispatch (node_id src) p (nodes i) content k
        ∙ (out ∙ ap (λ n. some (record (serve (nodes i)) { pit_ctr = n - 1 }, frame ∷ [])) waits))

abbrev ask : ℕ → Packet
ask seq = record { kind = interest; seq = seq; payload = interest_text }

abbrev chunk : ℕ → Packet
chunk seq = record { kind = content; seq = seq; payload = content_text }

abbrev sent : Node → Node
sent s = record s { send_counter = u16 (s.send_counter + 1) }

hop_store :
    (nodes : ℕ → Node) (seq : ℕ)
    → (nodes 0).my_id ≡ node_id 0
    → Step (one nodes 1 0 (ask seq)) (one (set_node nodes 0 (sent (nodes 0))) 0 1 (chunk seq))
unfolding on_event rcv_kind on_interest init_content icn_send next_hop link_is_scheduled same_addr
hop_store nodes seq me =
    arrives nodes 1 0 (ask seq)
      (sent (nodes 0), record { dst = node_id 1; packet = chunk seq } ∷ []) (omega arith)
      (rw me refl)

hop_client :
    (nodes : ℕ → Node) (seq : ℕ)
    → seq < number_of_chunks
    → NodeFits 7 (nodes 7)
    → Step
        (one nodes 9 7 (chunk seq))
        (record { nodes = set_node nodes 7 (taken seq (nodes 7)); air = [] })
unfolding on_event rcv_kind
hop_client nodes seq lt fits =
    arrives nodes 9 7 (chunk seq) (taken seq (nodes 7), []) (omega arith)
      (client_content (chunk seq) (nodes 7) lt fits)

pub taken_is_set : (seq : ℕ) (s : Node) → (taken seq s).received seq ≡ true
taken_is_set seq s = ground arith

-- The three relays have no interest pending.
abbrev pub Idle : (ℕ → Node) → Type 0
Idle nodes = ((nodes 9).pit_ctr ≡ 0) × ((nodes 2).pit_ctr ≡ 0) × ((nodes 1).pit_ctr ≡ 0)

-- The way of the chunk, with what node 7 is left with.
pub fetch_taken :
    (nodes : ℕ → Node) (seq : ℕ)
    → ((i : ℕ) → i < 10 → NodeFits i (nodes i))
    → Idle nodes
    → seq < number_of_chunks
    → (w : World) × Reaches
        (record { nodes = nodes; air = from_node 7 (interest_frame seq ∷ []) })
        w
      × (w.air ≡ [])
      × (w.nodes 7 ≡ taken seq (nodes 7))
      × Idle w.nodes
fetch_taken nodes seq fits idle lt =
    let n1 = set_node nodes 9 (pend 7 (nodes 9)) in
    let n2 = set_node n1 2 (pend 9 (n1 2)) in
    let n3 = set_node n2 1 (pend 2 (n2 1)) in
    let n4 = set_node n3 0 (sent (n3 0)) in
    let n5 = set_node n4 1 (serve (n4 1)) in
    let n6 = set_node n5 2 (serve (n5 2)) in
    let n7 = set_node n6 9 (serve (n6 9)) in
    let w0 = one nodes 7 9 (ask seq) in
    let w1 = one n1 9 2 (ask seq) in
    let w2 = one n2 2 1 (ask seq) in
    let w3 = one n3 1 0 (ask seq) in
    let w4 = one n4 0 1 (chunk seq) in
    let w5 = one n5 1 2 (chunk seq) in
    let w6 = one n6 2 9 (chunk seq) in
    let w7 = one n7 9 7 (chunk seq) in
    let w8 : World = record { nodes = set_node n7 7 (taken seq (n7 7)); air = [] } in
    let id9 = (fits 9 (omega arith)).named in
    let id2 = (fits 2 (omega arith)).named in
    let id1 = (fits 1 (omega arith)).named in
    let id0 = (fits 0 (omega arith)).named in
    let s1 = hop_up nodes 9 2 7 (ask seq) relay_9 (omega arith) refl id9 idle.0 in
    let s2 = hop_up n1 2 1 9 (ask seq) relay_2 (omega arith) refl id2 idle.1 in
    let s3 = hop_up n2 1 0 2 (ask seq) relay_1 (omega arith) refl id1 idle.2 in
    let s4 = hop_store n3 seq id0 in
    let s5 = hop_down n4 1 0 2 0 (chunk seq) relay_1 (omega arith) refl id1 refl refl in
    let s6 = hop_down n5 2 1 9 1 (chunk seq) relay_2 (omega arith) refl id2 refl refl in
    let s7 = hop_down n6 9 2 7 2 (chunk seq) relay_9 (omega arith) refl id9 refl refl in
    let s8 = hop_client n7 seq lt (fits 7 (omega arith)) in
    let r = goes w2 w3 (goes w1 w2 (goes w0 w1 stays s1) s2) s3 in
    let r' = goes w6 w7 (goes w5 w6 (goes w4 w5 (goes w3 w4 r s4) s5) s6) s7 in
    (w8, goes w7 w8 r' s8, refl, refl, (refl, refl, refl))

-- Where the nodes are in order and no interest is pending at the relays, the interest that node 7 has
-- sent for one of the hundred chunks can be brought to node 0 and its answer back: then nothing is on
-- its way any more, node 7 has the chunk, and the relays are idle again.
pub fetch :
    (nodes : ℕ → Node) (seq : ℕ)
    → ((i : ℕ) → i < 10 → NodeFits i (nodes i))
    → Idle nodes
    → seq < number_of_chunks
    → (w : World) × Reaches
        (record { nodes = nodes; air = from_node 7 (interest_frame seq ∷ []) })
        w
      × (w.air ≡ [])
      × ((w.nodes 7).received seq ≡ true)
      × Idle w.nodes
fetch nodes seq fits idle lt =
    let (w, path, quiet, seven, idle_again) = fetch_taken nodes seq fits idle lt in
    (w, path, quiet, ap (λ s. s.received seq) seven ∙ taken_is_set seq (nodes 7), idle_again)
