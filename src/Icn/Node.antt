-- ===== src/Icn/Node.antt =====
-- A node of the network: its state and what it does on a message (l2_routing/l2.c), and how it starts
-- (`main` of l2_routing/main.c). The frames that it hands to the stack are part of the result. A
-- handler answers `none` where it reads or writes beyond `received_chunks`.
pub mod Interest
pub mod Receive
use miniature_dangerzone.Common.{
  ℕ, zero, suc, ◌+◌, ◌-◌, Bool, true, false, ◌||◌, Option, none, some, List, [], ◌∷◌, u16, u32, ltb,
  ◌==◌, if◌then◌else◌,
}
use miniature_dangerzone.Icn.{
  Addr, same_addr, node_id, content_store, Kind, interest, content, background, unknown, Packet,
  interest_text, content_text,
}
use miniature_dangerzone.Icn.Route.{next_hop}

-- NUMBER_OF_CHUNKS, FLOW_THR, and the size of `received_chunks` in bits
abbrev pub number_of_chunks : ℕ
number_of_chunks = 100

abbrev pub flow_thr : ℕ
flow_thr = 4

abbrev pub field_bits : ℕ
field_bits = 128

-- The variables of l2.c. A timer that is set holds the number that its message is meant to carry.
-- Only the bits of `received` below `field_bits` exist.
pub record Node : Type 0 where
  pub my_id : Addr
  pub pit_entry : Addr
  pub pit_ctr : ℕ
  pub send_counter : ℕ
  pub receive_counter : ℕ
  pub received : ℕ → Bool  -- received_chunks
  pub retry_vt : Option ℕ
  pub periodic_vt : Option ℕ
  pub bg_vt : Bool

-- A packet on its way: the destination of the header is a neighbour.
pub record Frame : Type 0 where
  pub dst : Addr
  pub packet : Packet

-- What a handler leaves: the state, and the frames sent.
abbrev pub Outcome : Type 0
Outcome = Node × List Frame

-- HAS_CONTENT, WANT_CONTENT, BACKGROUND_NODE
abbrev pub has_content : Node → Bool
has_content s = same_addr s.my_id content_store

abbrev pub want_content : Node → Bool
want_content s = same_addr s.my_id (node_id 7)

abbrev pub background_node : Node → Bool
background_node s =
    same_addr s.my_id (node_id 3) || same_addr s.my_id (node_id 5) || same_addr s.my_id (node_id 6)

-- bf_isset and bf_set, `none` beyond the field
unfoldable pub bf_isset : (ℕ → Bool) → ℕ → Option Bool
bf_isset f i = if ltb i field_bits then some (f i) else none

abbrev pub bf_set : (ℕ → Bool) → ℕ → ℕ → Bool
bf_set f i = λ j. i == j || f j

-- The loop of `_getSmallestMissing`, with the numbers that are left to look at; `none` is -1.
unfoldable pub first_missing : (ℕ → Bool) → ℕ → ℕ → Option ℕ
first_missing f zero i = none
first_missing f (suc left) i = if f i then first_missing f left (suc i) else some i

-- _getSmallestMissing
unfoldable pub get_smallest_missing : (ℕ → Bool) → Option ℕ
unfolding first_missing
get_smallest_missing f = first_missing f number_of_chunks 0

-- icn_send
unfoldable pub icn_send : Addr → Packet → Node → Outcome
icn_send dst p s = elim (next_hop s.my_id dst) [
  | none ↦ (s, [])
  | some hop ↦
      (record s { send_counter = u16 (s.send_counter + 1) }, record { dst = hop; packet = p } ∷ [])
]

-- icn_initContent
unfoldable pub init_content : Addr → ℕ → Node → Outcome
init_content last_hop seq s =
    icn_send last_hop (record { kind = content; seq = seq; payload = content_text }) s

-- The retransmission that `icn_initInterest` schedules first.
unfoldable pub schedule_retry : Node → Node
schedule_retry s = elim (get_smallest_missing s.received) [
  | none ↦ s
  | some m ↦ record s { retry_vt = some m }
]

-- The timer of the next interest is set.
abbrev pub set_periodic : ℕ → Outcome → Outcome
set_periodic seq sent = (record sent.0 { periodic_vt = some seq }, sent.1)

-- The rest of `icn_initInterest`, behind its early returns, with TIMED_SENDING.
unfoldable pub request_chunk : ℕ → Node → Outcome
request_chunk seq s =
    if ltb seq number_of_chunks
    then set_periodic (seq + 1)
        (icn_send content_store (record { kind = interest; seq = seq; payload = interest_text }) s)
    else (s, [])

-- What `icn_initInterest` does when it knows whether the chunk is there, with FLOW_CONTROL.
unfoldable pub after_lookup : ℕ → Option Bool → Node → Option Outcome
unfolding request_chunk
after_lookup seq none s = none
after_lookup seq (some true) s = some (s, [])
after_lookup seq (some false) s =
    if ltb (s.receive_counter + flow_thr) seq then some (s, []) else some (request_chunk seq s)

-- icn_initInterest
unfoldable pub init_interest : ℕ → Node → Option Outcome
unfolding after_lookup schedule_retry
init_interest seq s =
    if want_content s
    then after_lookup seq (bf_isset s.received seq) (schedule_retry s)
    else some (s, [])

-- icn_initBackground
unfoldable pub init_background : Node → Outcome
init_background s =
    let sent : Outcome =
      icn_send content_store (record { kind = background; seq = 0; payload = content_text }) s in
    (record sent.0 { bg_vt = true }, sent.1)

-- `rcv` for an interest: it is answered, or `pit_entry` becomes the sender and it is passed on.
unfoldable pub on_interest : Addr → Packet → Node → Outcome
unfolding init_content
on_interest src p s =
    if has_content s
    then init_content src p.seq s
    else icn_send content_store p (record s { pit_entry = src; pit_ctr = u32 (s.pit_ctr + 1) })

-- A chunk that the node keeps for itself.
unfoldable pub take_chunk : ℕ → Node → Option Outcome
take_chunk seq s = elim (bf_isset s.received seq) [
  | none ↦ none
  | some there ↦ some (
    record s {
      received = if there then s.received else bf_set s.received seq;
      receive_counter = if ltb s.receive_counter seq then seq else s.receive_counter;
    },
    [],
  )
]

-- The chunk goes to the node of `pit_entry`.
unfoldable pub pass_down : Packet → Node → Outcome
pass_down p s =
    let sent : Outcome = icn_send s.pit_entry p s in
    (record sent.0 { pit_ctr = sent.0.pit_ctr - 1 }, sent.1)

-- `rcv` for content
unfoldable pub on_content : Packet → Node → Option Outcome
unfolding pass_down take_chunk
on_content p s =
    if ltb 0 s.pit_ctr
    then some (pass_down p s)
    else if want_content s
    then take_chunk p.seq s
    else some (s, [])

-- `rcv` for a packet behind a header with its sender
unfoldable pub rcv_kind : Kind → Addr → Packet → Node → Option Outcome
unfolding on_interest on_content
rcv_kind interest src p s = some (on_interest src p s)
rcv_kind content src p s = on_content p s
rcv_kind background src p s = some (s, [])
rcv_kind (unknown k) src p s = some (s, [])

-- A message to `_eventloop`. A packet comes with its sender, or with `none` behind another header
-- than that of a network interface.
pub data Event : Type 0 where
  received_packet : Option Addr → Packet → Event
  resend_interest send_interest : ℕ → Event
  send_background unexpected : Event

-- _eventloop, for one message
unfoldable pub on_event : Event → Node → Option Outcome
unfolding rcv_kind init_interest init_background
on_event (received_packet (some src) p) s = rcv_kind p.kind src p s
on_event (received_packet none p) s = some (s, [])
on_event (resend_interest seq) s = init_interest seq s
on_event (send_interest seq) s = init_interest seq s
on_event send_background s = some (init_background s)
on_event unexpected s = some (s, [])

-- The node with an address, before the first message.
unfoldable pub fresh : Addr → Node
fresh me = record {
  my_id = me;
  pit_entry = 0 ∷ 0 ∷ 0 ∷ 0 ∷ 0 ∷ 0 ∷ 0 ∷ 0 ∷ [];
  pit_ctr = 0;
  send_counter = 0;
  receive_counter = 0;
  received = λ i. false;
  retry_vt = none;
  periodic_vt = none;
  bg_vt = false;
}

-- The message that `main` provides for.
unfoldable pub start : Node → Option Event
start s =
    if want_content s
    then some (send_interest 0)
    else if background_node s
    then some send_background
    else none
