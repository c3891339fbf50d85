-- ===== src/Icn/Node/Receive.antt =====
-- What a node does with the packets it receives (`rcv` of l2_routing/l2.c).
use miniature_dangerzone.Common.{
  ℕ, ◌+◌, ◌-◌, ◌≤◌, ◌≡◌, ◌↔◌, refl, true, false, Option, none, some, List, [], ◌∷◌, ◌++◌, arith,
  ltb, u16, u32, ap, ◌∙◌,
}
use miniature_dangerzone.Icn.{
  Addr, content_store, Kind, interest, content, background, unknown, Packet,
}
use miniature_dangerzone.Icn.Route.{next_hop}
use miniature_dangerzone.Icn.Node.{
  Node, Frame, Outcome, field_bits, want_content, has_content, bf_isset, icn_send, take_chunk,
  pass_down, on_interest, on_content, rcv_kind, Event, received_packet, on_event,
}

-- The cases in which a packet makes the node read or write beyond `received_chunks`.
abbrev pub BeyondField : Packet → Node → Type 0
BeyondField p s =
    (p.kind ≡ content) × (s.pit_ctr ≡ 0) × (want_content s ≡ true) × (field_bits ≤ p.seq)

take_chunk_defined : (seq : ℕ) (s : Node) → take_chunk seq s ≡ none ↔ (field_bits ≤ seq)
unfolding take_chunk bf_isset
take_chunk_defined seq s = ground arith

rcv_kind_undefined :
    (k : Kind) (src : Addr) (p : Packet) (s : Node)
    → rcv_kind k src p s ≡ none
      ↔ ((k ≡ content) × (s.pit_ctr ≡ 0) × (want_content s ≡ true) × (field_bits ≤ p.seq))
unfolding rcv_kind on_content
rcv_kind_undefined interest src p s = ground arith
rcv_kind_undefined content src p s = ground (arith, take_chunk_defined p.seq s)
rcv_kind_undefined background src p s = ground arith
rcv_kind_undefined (unknown k) src p s = ground arith

-- A packet makes a node read or write beyond `received_chunks` exactly if it is content with a number
-- of 128 or more and reaches the node that wants the content while no interest is pending there.
pub rcv_undefined :
    (src : Addr) (p : Packet) (s : Node)
    → on_event (received_packet (some src) p) s ≡ none ↔ BeyondField p s
unfolding on_event
rcv_undefined src p s = rcv_kind_undefined p.kind src p s

-- A series of messages: the state at the end, and all frames in their order.
unfoldable pub run : List Event → Node → Option Outcome
unfolding on_event
run [] s = some (s, [])
run (e ∷ es) s = elim (on_event e s) [
  | none ↦ none
  | some out ↦ elim (run es out.0) [ none ↦ none | some rest ↦ some (rest.0, out.1 ++ rest.1) ]
]

abbrev pub packet : Kind → ℕ → Packet
packet k seq = record { kind = k; seq = seq; payload = [] }

abbrev pub packet_from : Addr → Kind → ℕ → Event
packet_from src k seq = received_packet (some src) (record { kind = k; seq = seq; payload = [] })

abbrev pub frame_to : Addr → Kind → ℕ → Frame
frame_to dst k seq = record { dst = dst; packet = record { kind = k; seq = seq; payload = [] } }

-- What the two handlers of a relay do, where there is a route.
pub relay_interest :
    (src hop : Addr) (p : Packet) (s : Node)
    → has_content s ≡ false
    → next_hop s.my_id content_store ≡ some hop
    → on_interest src p s ≡ (
      record s {
        pit_entry = src;
        pit_ctr = u32 (s.pit_ctr + 1);
        send_counter = u16 (s.send_counter + 1);
      },
      record { dst = hop; packet = p } ∷ [],
    )
unfolding on_interest icn_send
relay_interest src hop p s relay route = rw (relay, route, icn_send) refl

pub relay_content :
    (hop : Addr) (p : Packet) (s : Node)
    → ltb 0 s.pit_ctr ≡ true
    → next_hop s.my_id s.pit_entry ≡ some hop
    → on_content p s
      ≡ some (
        record s { pit_ctr = s.pit_ctr - 1; send_counter = u16 (s.send_counter + 1) },
        record { dst = hop; packet = p } ∷ [],
      )
unfolding on_content pass_down icn_send
relay_content hop p s pending route = rw (pending, route, pass_down, icn_send) refl

run_cons :
    (e : Event) (es : List Event) (s : Node) (out rest : Outcome)
    → on_event e s ≡ some out
    → run es out.0 ≡ some rest
    → run (e ∷ es) s ≡ some (rest.0, out.1 ++ rest.1)
unfolding run
run_cons e es s out rest h k = rw (h, run) (rw k refl)

-- When two neighbours ask a relay in turn, the content for the first one is sent to the second one as
-- well: the later interest has overwritten the only PIT entry, and the counter keeps both.
pub second_takes_all :
    (a b hop src : Addr) (i j : ℕ) (s : Node)
    → has_content s ≡ false
    → s.pit_ctr ≡ 0
    → next_hop s.my_id content_store ≡ some hop
    → next_hop s.my_id b ≡ some b
    → (s' : Node) × (run
          (packet_from a interest i
            ∷ packet_from b interest j
            ∷ packet_from src content i
            ∷ packet_from src content j
            ∷ [])
          s
        ≡ some (
          s',
          frame_to hop interest i
              ∷ frame_to hop interest j
              ∷ frame_to b content i
              ∷ frame_to b content j
              ∷ [],
        ))
      × (s'.pit_ctr ≡ 0)
unfolding run on_event rcv_kind
second_takes_all a b hop src i j s relay idle up down =
    let s1 : Node = record s {
      pit_entry = a;
      pit_ctr = 1;
      send_counter = u16 (s.send_counter + 1);
    } in
    let s2 : Node = record s1 {
      pit_entry = b;
      pit_ctr = 2;
      send_counter = u16 (s1.send_counter + 1);
    } in
    let s3 : Node = record s2 { pit_ctr = 1; send_counter = u16 (s2.send_counter + 1) } in
    let s4 : Node = record s3 { pit_ctr = 0; send_counter = u16 (s3.send_counter + 1) } in
    let one : on_interest a (packet interest i) s ≡ (s1, frame_to hop interest i ∷ []) =
      relay_interest a hop (packet interest i) s relay up
      ∙ ap (λ n. (record s1 { pit_ctr = u32 (n + 1) }, frame_to hop interest i ∷ [])) idle in
    let two = relay_interest b hop (packet interest j) s1 relay up in
    let three = relay_content b (packet content i) s2 refl down in
    let four = relay_content b (packet content j) s3 refl down in
    (
      s4,
      run_cons (packet_from a interest i)
          (packet_from b interest j ∷ packet_from src content i ∷ packet_from src content j ∷ []) s
          (s1, frame_to hop interest i ∷ []) _ (ap some one)
          (run_cons (packet_from b interest j)
            (packet_from src content i ∷ packet_from src content j ∷ []) s1
            (s2, frame_to hop interest j ∷ []) _ (ap some two)
            (run_cons (packet_from src content i) (packet_from src content j ∷ []) s2
              (s3, frame_to b content i ∷ []) _ three
              (run_cons (packet_from src content j) [] s3 (s4, frame_to b content j ∷ []) (s4, [])
                four refl))),
      refl,
    )
