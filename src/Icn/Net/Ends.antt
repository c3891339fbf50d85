-- ===== src/Icn/Net/Ends.antt =====
-- What the two ends of the way and the background nodes do, and with the relays every node.
use miniature_dangerzone.Common.{
  ℕ, ◌+◌, ◌<◌, ◌≡◌, inl, inr, refl, true, false, none, Bool-cases, some, [], ◌∷◌, arith, All, ltb,
  u16, ap, ◌∙◌, sym, if◌then◌else◌, if_split,
}
use mathlib.Core.Path.{subst}
use miniature_dangerzone.Icn.{
  Addr, same_addr, node_id, content_store, Kind, interest, content, background, Packet,
  content_text,
}
use miniature_dangerzone.Icn.Route.{link_is_scheduled, next_hop}
use miniature_dangerzone.Icn.Node.{
  Node, Outcome, number_of_chunks, field_bits, want_content, after_lookup, bf_isset, bf_set,
  icn_send, init_content, init_background, init_interest, take_chunk, on_interest, on_content,
  rcv_kind, Event, received_packet, send_background, on_event,
}
use miniature_dangerzone.Icn.Node.Interest.{init_interest_lem, may_ask, interest_frame, wants}
use miniature_dangerzone.Icn.Net.{Timed, next_chunk, again, noise_3, noise_5, noise_6}
use miniature_dangerzone.Icn.Net.Roles.{
  Along, up_79, up_92, up_21, up_10, down_01, down_12, down_29, down_97, noise_30, noise_50,
  noise_60, relay_9, relay_2, relay_1, FrameFits, PitFits, NodeFits, Fine, dispatch, relay-up,
  relay-down,
}

-- At the content store: the interest is answered with the chunk.
pub store-answers :
    (p : Packet) (s : Node)
    → p.kind ≡ interest
    → p.seq < number_of_chunks
    → NodeFits 0 s
    → Fine 0 (received_packet (some (node_id 1)) p) s
unfolding rcv_kind on_interest init_content icn_send next_hop link_is_scheduled same_addr
store-answers p s k lt fits = (
  (
    record s { send_counter = u16 (s.send_counter + 1) },
    record {
      dst = node_id 1;
      packet = record { kind = content; seq = p.seq; payload = content_text };
    }
        ∷ [],
  ),
  dispatch (node_id 1) p s interest k ∙ rw fits.named refl,
  record { named = fits.named; pending = fits.pending },
  ((1, down_01, omega arith, refl, lt), tt),
)

-- The state with a chunk taken.
abbrev pub taken : ℕ → Node → Node
taken seq s = record s {
  received = if s.received seq then s.received else bf_set s.received seq;
  receive_counter = if ltb s.receive_counter seq then seq else s.receive_counter;
}

pub client_quiet : (i : ℕ) (s : Node) → i ≡ 7 → PitFits i s → s.pit_ctr ≡ 0
client_quiet i s seven (inl idle) = idle
client_quiet i s seven (inr (a, b, relay_9, e)) = ground (arith, seven)
client_quiet i s seven (inr (a, b, relay_2, e)) = ground (arith, seven)
client_quiet i s seven (inr (a, b, relay_1, e)) = ground (arith, seven)

pub client_content :
    (p : Packet) (s : Node)
    → p.seq < number_of_chunks
    → NodeFits 7 s
    → on_content p s ≡ some (taken p.seq s, [])
unfolding on_content take_chunk bf_isset
client_content p s lt fits =
    ground (arith, lt, wants s fits.named, client_quiet 7 s refl fits.pending)

-- At the node that wants the content, no interest is ever pending, and it takes the chunk.
pub client-takes :
    (src : Addr) (p : Packet) (s : Node)
    → p.kind ≡ content
    → p.seq < number_of_chunks
    → NodeFits 7 s
    → Fine 7 (received_packet (some src) p) s
unfolding rcv_kind
client-takes src p s k lt fits = (
  (taken p.seq s, []),
  dispatch src p s content k ∙ client_content p s lt fits,
  record { named = fits.named; pending = fits.pending },
  tt,
)

noise-dropped :
    (i : ℕ) (src : Addr) (p : Packet) (s : Node)
    → p.kind ≡ background
    → NodeFits i s
    → Fine i (received_packet (some src) p) s
unfolding rcv_kind
noise-dropped i src p s k fits = ((s, []), dispatch src p s background k, fits, tt)

background_sent :
    (i : ℕ) (s : Node)
    → Along background i 0
    → next_hop (node_id i) content_store ≡ some content_store
    → NodeFits i s
    → Fine i send_background s
unfolding on_event init_background icn_send
background_sent i s link route fits =
    let hop = ap (λ n. next_hop n content_store) fits.named ∙ route in
    (
      (
        record s { send_counter = u16 (s.send_counter + 1); bg_vt = true },
        record {
          dst = content_store;
          packet = record { kind = background; seq = 0; payload = content_text };
        }
            ∷ [],
      ),
      rw (hop, icn_send) refl,
      record { named = fits.named; pending = fits.pending },
      ((0, link, omega arith, refl, omega arith), tt),
    )

pub chunk_asked :
    (seq : ℕ) (s : Node)
    → seq < field_bits
    → NodeFits 7 s
    → (out : Outcome) × (init_interest seq s ≡ some out)
      × NodeFits 7 out.0
      × All (FrameFits 7) out.1
chunk_asked seq s le fits =
    let (out, found, asked) = init_interest_lem seq s fits.named le in
    let (same, ctr_same, id_same, highest_same) = asked.keeps in
    (
      out,
      found,
      record {
        named = id_same ∙ fits.named;
        pending = inl (ctr_same ∙ client_quiet 7 s refl fits.pending);
      },
      subst (All (FrameFits 7)) (sym asked.sent) (
          if_split (All (FrameFits 7)) (may_ask seq s) (interest_frame seq ∷ []) []
            (λ may. ((9, up_79, omega arith, refl, ground (arith, may)), tt)) (λ no_ask. tt)),
    )

-- The one result of an event is the one that fits.
pub same_out :
    (i : ℕ) (e : Event) (s : Node) (out : Outcome)
    → Fine i e s
    → on_event e s ≡ some out
    → NodeFits i out.0 × All (FrameFits i) out.1
same_out i e s out (o, found, node, frames) h =
    let same : o ≡ out = ground (arith, found, h) in
    (subst (λ x. NodeFits i x.0) same node, subst (λ x. All (FrameFits i) x.1) same frames)

chunk_asked_fits :
    (seq : ℕ) (s : Node) (out : Outcome)
    → NodeFits 7 s
    → init_interest seq s ≡ some out
    → NodeFits 7 out.0 × All (FrameFits 7) out.1
chunk_asked_fits seq s out fits h = elim (Bool-cases (ltb seq field_bits)) [
  | inl inside ↦
      let (o, found, node, frames) = chunk_asked seq s (ground (arith, inside)) fits in
      let same : o ≡ out = ground (arith, found, h) in
      (subst (λ x. NodeFits 7 x.0) same node, subst (λ x. All (FrameFits 7) x.1) same frames)
  | inr outside ↦
      absurd (ground (arith, h, init_interest_outside seq s (wants s fits.named) outside))
]
  where
    init_interest_outside :
        (seq : ℕ) (s : Node)
        → want_content s ≡ true
        → ltb seq field_bits ≡ false
        → init_interest seq s ≡ none
    init_interest_outside seq s want outside =
        unfold init_interest bf_isset after_lookup in ground (arith, want, outside)

-- What follows a message that a node sends itself fits.
pub Timed-fits :
    (i : ℕ) (e : Event) (s : Node) (out : Outcome)
    → Timed i e
    → NodeFits i s
    → on_event e s ≡ some out
    → NodeFits i out.0 × All (FrameFits i) out.1
unfolding on_event next_hop link_is_scheduled same_addr
Timed-fits i e s out (next_chunk n) fits h = chunk_asked_fits n s out fits h
Timed-fits i e s out (again n) fits h = chunk_asked_fits n s out fits h
Timed-fits i e s out noise_3 fits h = same_out 3 e s out (background_sent 3 s noise_30 refl fits) h
Timed-fits i e s out noise_5 fits h = same_out 5 e s out (background_sent 5 s noise_50 refl fits) h
Timed-fits i e s out noise_6 fits h = same_out 6 e s out (background_sent 6 s noise_60 refl fits) h

-- The same of every packet that is on one of its links.
pub Along-Fine :
    (k : Kind) (i j : ℕ) (p : Packet) (s : Node)
    → Along k i j
    → p.kind ≡ k
    → p.seq < number_of_chunks
    → NodeFits j s
    → Fine j (received_packet (some (node_id i)) p) s
Along-Fine k i j p s up_79 same lt fits = relay-up 9 2 7 p s relay_9 same lt fits
Along-Fine k i j p s up_92 same lt fits = relay-up 2 1 9 p s relay_2 same lt fits
Along-Fine k i j p s up_21 same lt fits = relay-up 1 0 2 p s relay_1 same lt fits
Along-Fine k i j p s up_10 same lt fits = store-answers p s same lt fits
Along-Fine k i j p s down_01 same lt fits = relay-down 1 0 2 (node_id 0) p s relay_1 same lt fits
Along-Fine k i j p s down_12 same lt fits = relay-down 2 1 9 (node_id 1) p s relay_2 same lt fits
Along-Fine k i j p s down_29 same lt fits = relay-down 9 2 7 (node_id 2) p s relay_9 same lt fits
Along-Fine k i j p s down_97 same lt fits = client-takes (node_id 9) p s same lt fits
Along-Fine k i j p s noise_30 same lt fits = noise-dropped 0 (node_id 3) p s same fits
Along-Fine k i j p s noise_50 same lt fits = noise-dropped 0 (node_id 5) p s same fits
Along-Fine k i j p s noise_60 same lt fits = noise-dropped 0 (node_id 6) p s same fits
