-- ===== src/Icn/Node/Interest.antt =====
-- What the node that wants the content asks for (`icn_initInterest` of l2_routing/l2.c).
use miniature_dangerzone.Common.{
  ℕ, zero, suc, ◌+◌, ◌≤◌, ◌<◌, ◌≡◌, inl, inr, refl, Bool, true, false, some, [], ◌∷◌, arith,
  Bool-cases, Option-cases, if_split, not, ◌&&◌, sym, leb, ltb, u16, ◌==◌, ap, ◌∙◌, if◌then◌else◌,
}
use miniature_dangerzone.Icn.{same_addr, node_id, content_store, interest, Packet, interest_text}
use miniature_dangerzone.Icn.Route.{link_is_scheduled, lookup_loop, route_lookup, next_hop}
use miniature_dangerzone.Icn.Node.{
  Node, Frame, Outcome, number_of_chunks, flow_thr, field_bits, want_content, bf_isset,
  first_missing, get_smallest_missing, icn_send, schedule_retry, request_chunk, after_lookup,
  init_interest,
}

-- The loop finds a number that is missing, and passes over none that is.
first_missing_lem :
    (f : ℕ → Bool) (left i m : ℕ)
    → i ≤ m
    → m < i + left
    → f m ≡ false
    → (k : ℕ) × (first_missing f left i ≡ some k) × (k ≤ m) × (f k ≡ false)
unfolding first_missing
first_missing_lem f zero i m lo hi h = ground arith
first_missing_lem f (suc left) i m lo hi h = elim (Bool-cases (f i)) [
  | inl there ↦
      let next : suc i ≤ m = elim (Bool-cases (i == m)) [
        | inl same ↦ grind (arith, there, h)
        | inr other ↦ ground (arith, lo, other)
      ] in
      let (k, found, le, missing) = first_missing_lem f left (suc i) m next (omega arith) h in
      (k, rw there found, le, missing)
  | inr missing ↦ (i, ground (arith, missing), lo, missing)
]

missing_found :
    (f : ℕ → Bool) (m : ℕ)
    → m < number_of_chunks
    → f m ≡ false
    → (k : ℕ) × (get_smallest_missing f ≡ some k) × (k ≤ m) × (f k ≡ false)
unfolding get_smallest_missing
missing_found f m lt h = first_missing_lem f number_of_chunks 0 m (omega arith) lt h

-- The frame of an interest that node 7 sends.
abbrev pub interest_frame : ℕ → Frame
interest_frame seq = record {
  dst = node_id 9;
  packet = record { kind = interest; seq = seq; payload = interest_text };
}

-- A chunk is asked for if it is missing and no more than FLOW_THR ahead of the highest one received.
abbrev pub may_ask : ℕ → Node → Bool
may_ask seq s =
    ltb seq number_of_chunks && not (s.received seq) && leb seq (s.receive_counter + flow_thr)

route_to_content : next_hop (node_id 7) content_store ≡ some (node_id 9)
unfolding next_hop link_is_scheduled route_lookup lookup_loop same_addr
route_to_content = refl

asking :
    (p : Packet) (s : Node)
    → s.my_id ≡ node_id 7
    → icn_send content_store p s ≡ (
      record s { send_counter = u16 (s.send_counter + 1) },
      record { dst = node_id 9; packet = p } ∷ [],
    )
unfolding icn_send
asking p s me =
    let hop = ap (λ i. next_hop i content_store) me ∙ route_to_content in rw (hop, icn_send) refl

-- What a message for chunk `seq` leads to.
pub record Asked (seq : ℕ) (s : Node) (out : Outcome) : Type 0 where
  pub sent : out.1 ≡ (if may_ask seq s then interest_frame seq ∷ [] else [])
  pub goes_on : out.0.periodic_vt ≡ (if may_ask seq s then some (seq + 1) else s.periodic_vt)
  pub retries :
      (m : ℕ)
      → m < number_of_chunks
      → s.received m ≡ false
      → (k : ℕ) × (out.0.retry_vt ≡ some k) × (k ≤ m) × (s.received k ≡ false)
  pub keeps :
      (out.0.received ≡ s.received)
      × (out.0.pit_ctr ≡ s.pit_ctr)
      × (out.0.my_id ≡ s.my_id)
      × (out.0.receive_counter ≡ s.receive_counter)

-- The same of what follows the scheduling of the retransmission, but for that.
record Sent (seq : ℕ) (s : Node) (out : Outcome) : Type 0 where
  frames : out.1 ≡ (if may_ask seq s then interest_frame seq ∷ [] else [])
  next : out.0.periodic_vt ≡ (if may_ask seq s then some (seq + 1) else s.periodic_vt)
  same :
      (out.0.received ≡ s.received)
      × (out.0.pit_ctr ≡ s.pit_ctr)
      × (out.0.my_id ≡ s.my_id)
      × (out.0.retry_vt ≡ s.retry_vt)
      × (out.0.receive_counter ≡ s.receive_counter)

request_chunk-Sent :
    (seq : ℕ) (s : Node)
    → s.my_id ≡ node_id 7
    → s.received seq ≡ false
    → ltb (s.receive_counter + flow_thr) seq ≡ false
    → Sent seq s (request_chunk seq s)
unfolding request_chunk
request_chunk-Sent seq s me missing near =
    if_split (Sent seq s) (ltb seq number_of_chunks) _ _
      (λ known.
        let frame = asking (record { kind = interest; seq = seq; payload = interest_text }) s me in
        record {
          frames = ground (arith, frame, known, missing, near);
          next = ground (arith, known, missing, near);
          same = (
            ground (arith, frame),
            ground (arith, frame),
            ground (arith, frame),
            ground (arith, frame),
            ground (arith, frame),
          );
        })
      (λ beyond. record {
        frames = ground (arith, beyond);
        next = ground (arith, beyond);
        same = (refl, refl, refl, refl, refl);
      })

after_lookup-Sent :
    (seq : ℕ) (s : Node)
    → s.my_id ≡ node_id 7
    → (out : Outcome) × (after_lookup seq (some (s.received seq)) s ≡ some out) × Sent seq s out
unfolding after_lookup
after_lookup-Sent seq s me = elim (Bool-cases (s.received seq)) [
  | inl there ↦ (
    (s, []),
    ground (arith, there),
    record {
      frames = ground (arith, there);
      next = ground (arith, there);
      same = (refl, refl, refl, refl, refl);
    },
  )
  | inr missing ↦ elim (Bool-cases (ltb (s.receive_counter + flow_thr) seq)) [
    | inl far ↦ (
      (s, []),
      ground (arith, missing, far),
      record {
        frames = ground (arith, far, missing);
        next = ground (arith, far, missing);
        same = (refl, refl, refl, refl, refl);
      },
    )
    | inr near ↦ (
      request_chunk seq s,
      ground (arith, missing, near),
      request_chunk-Sent seq s me missing near,
    )
  ]
]

-- What `schedule_retry` leaves as it is, and what it sets.
record Scheduled (s : Node) (s' : Node) : Type 0 where
  same :
      (s'.my_id ≡ s.my_id)
      × (s'.receive_counter ≡ s.receive_counter)
      × (s'.received ≡ s.received)
      × (s'.pit_ctr ≡ s.pit_ctr)
      × (s'.periodic_vt ≡ s.periodic_vt)
  set :
      (m : ℕ)
      → m < number_of_chunks
      → s.received m ≡ false
      → (k : ℕ) × (s'.retry_vt ≡ some k) × (k ≤ m) × (s.received k ≡ false)

schedule_retry-Scheduled : (s : Node) → Scheduled s (schedule_retry s)
unfolding schedule_retry
schedule_retry-Scheduled s = elim (Option-cases (get_smallest_missing s.received)) [
  | inl complete ↦
      rw (complete, schedule_retry)
        (record {
          same = (refl, refl, refl, refl, refl);
          set = λ m lt h. ground (arith, complete, missing_found s.received m lt h);
        })
  | inr (k, found) ↦
      rw (found, schedule_retry)
        (record {
          same = (refl, refl, refl, refl, refl);
          set = λ m lt h.
              let (j, same, le, missing) = missing_found s.received m lt h in
              (j, sym found ∙ same, le, missing);
        })
]

pub wants : (s : Node) → s.my_id ≡ node_id 7 → want_content s ≡ true
unfolding same_addr
wants s me = ap (λ i. same_addr i (node_id 7)) me

-- On a message for chunk `seq` that lies within `received_chunks`, node 7 sends an interest for it to
-- node 9 exactly if it is one of the hundred chunks, has not been received and is at most four ahead
-- of the highest chunk received; then it sets the timer for the next chunk. While any of the hundred
-- chunks is missing, it also sets the retransmission timer, to a chunk that is missing and no later than
-- it. What has been received stays as it is, and so do the count of pending interests and the highest
-- number received.
pub init_interest_lem :
    (seq : ℕ) (s : Node)
    → s.my_id ≡ node_id 7
    → seq < field_bits
    → (out : Outcome) × (init_interest seq s ≡ some out) × Asked seq s out
unfolding init_interest bf_isset
init_interest_lem seq s me lt =
    let sched = schedule_retry-Scheduled s in
    let (id_same, counter_same, received_same, ctr_same, next_same) = sched.same in
    let here = ap (λ f. f seq) received_same in
    let ask : may_ask seq (schedule_retry s) ≡ may_ask seq s = ground (arith, here, counter_same) in
    let (out, found, sent) = after_lookup-Sent seq (schedule_retry s) (id_same ∙ me) in
    let (received_kept, ctr_kept, id_kept, retry_kept, highest_kept) = sent.same in
    (
      out,
      ground (arith, wants s me, lt, here, found),
      record {
        sent = ground (arith, sent.frames, ask);
        goes_on = ground (arith, sent.next, ask, next_same);
        retries = λ m below missing.
            let (k, set, le, free) = sched.set m below missing in (k, retry_kept ∙ set, le, free);
        keeps = (
          received_kept ∙ received_same,
          ctr_kept ∙ ctr_same,
          id_kept ∙ id_same,
          highest_kept ∙ counter_same,
        );
      },
    )
