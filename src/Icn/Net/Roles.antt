-- ===== src/Icn/Net/Roles.antt =====
-- What each node does in the network, by its place on the way from node 7 to node 0, which leads over
-- the nodes 9, 2 and 1.
use miniature_dangerzone.Common.{
  ℕ, ◌+◌, ◌-◌, ◌<◌, ◌≡◌, ◌⊎◌, inl, inr, refl, false, some, [], ◌∷◌, arith, All, Bool-cases, ltb,
  u16, u32, ap, ◌∙◌, sym,
}
use mathlib.Core.Path.{subst}
use miniature_dangerzone.Icn.{
  Addr, same_addr, node_id, content_store, Kind, interest, content, background, Packet,
}
use miniature_dangerzone.Icn.Route.{link_is_scheduled, lookup_loop, route_lookup, next_hop}
use miniature_dangerzone.Icn.Node.{
  Node, Frame, Outcome, number_of_chunks, want_content, has_content, on_content, rcv_kind, Event,
  received_packet, on_event,
}
use miniature_dangerzone.Icn.Node.Receive.{relay_interest, relay_content}

-- The links on which a packet of each kind travels, by the numbers of the nodes.
pub data Along : Kind → ℕ → ℕ → Type 0 where
  up_79 : Along interest 7 9
  up_92 : Along interest 9 2
  up_21 : Along interest 2 1
  up_10 : Along interest 1 0
  down_01 : Along content 0 1
  down_12 : Along content 1 2
  down_29 : Along content 2 9
  down_97 : Along content 9 7
  noise_30 : Along background 3 0
  noise_50 : Along background 5 0
  noise_60 : Along background 6 0

-- The relays, with the node above and the node below.
pub data Relay : ℕ → ℕ → ℕ → Type 0 where
  relay_9 : Relay 9 2 7
  relay_2 : Relay 2 1 9
  relay_1 : Relay 1 0 2

-- A packet that node `i` may send.
abbrev pub FrameFits : ℕ → Frame → Type 0
FrameFits i f =
    (j : ℕ) × Along f.packet.kind i j
    × (j < 10)
    × (f.dst ≡ node_id j)
    × (f.packet.seq < number_of_chunks)

-- The PIT entry of a relay is the node below it while an interest is pending; elsewhere none ever is.
abbrev pub PitFits : ℕ → Node → Type 0
PitFits i s =
    (s.pit_ctr ≡ 0) ⊎ ((up : ℕ) × (down : ℕ) × Relay i up down × (s.pit_entry ≡ node_id down))

pub record NodeFits (i : ℕ) (s : Node) : Type 0 where
  pub named : s.my_id ≡ node_id i
  pub pending : PitFits i s

-- What an event leads to at a node that fits, if it fits.
abbrev pub Fine : ℕ → Event → Node → Type 0
Fine i e s =
    (out : Outcome) × (on_event e s ≡ some out) × NodeFits i out.0 × All (FrameFits i) out.1

pub record RelayFits (i up down : ℕ) : Type 0 where
  pub to_store : next_hop (node_id i) content_store ≡ some (node_id up)
  pub to_below : next_hop (node_id i) (node_id down) ≡ some (node_id down)
  pub no_store : same_addr (node_id i) content_store ≡ false
  pub no_client : same_addr (node_id i) (node_id 7) ≡ false
  pub small : (up < 10) × (down < 10)
  pub above : Along interest i up
  pub below : Along content i down

pub Relay-RelayFits : (i up down : ℕ) → Relay i up down → RelayFits i up down
unfolding next_hop link_is_scheduled route_lookup lookup_loop same_addr
Relay-RelayFits i up down relay_9 = record {
  to_store = refl;
  to_below = refl;
  no_store = refl;
  no_client = refl;
  small = (omega arith, omega arith);
  above = up_92;
  below = down_97;
}
Relay-RelayFits i up down relay_2 = record {
  to_store = refl;
  to_below = refl;
  no_store = refl;
  no_client = refl;
  small = (omega arith, omega arith);
  above = up_21;
  below = down_29;
}
Relay-RelayFits i up down relay_1 = record {
  to_store = refl;
  to_below = refl;
  no_store = refl;
  no_client = refl;
  small = (omega arith, omega arith);
  above = up_10;
  below = down_12;
}

pub dispatch :
    (src : Addr) (p : Packet) (s : Node) (k : Kind)
    → p.kind ≡ k
    → on_event (received_packet (some src) p) s ≡ rcv_kind k src p s
unfolding on_event
dispatch src p s k same = ap (λ m. rcv_kind m src p s) same

-- An interest from the node below becomes the PIT entry and goes to the node above.
pub relay-up :
    (i up down : ℕ) (p : Packet) (s : Node)
    → Relay i up down
    → p.kind ≡ interest
    → p.seq < number_of_chunks
    → NodeFits i s
    → Fine i (received_packet (some (node_id down)) p) s
unfolding rcv_kind
relay-up i up down p s r k lt fits =
    let rf = Relay-RelayFits i up down r in
    let relay : has_content s ≡ false =
      ap (λ a. same_addr a content_store) fits.named ∙ rf.no_store in
    let route = ap (λ a. next_hop a content_store) fits.named ∙ rf.to_store in
    let out = relay_interest (node_id down) (node_id up) p s relay route in
    (
      (
        record s {
          pit_entry = node_id down;
          pit_ctr = u32 (s.pit_ctr + 1);
          send_counter = u16 (s.send_counter + 1);
        },
        record { dst = node_id up; packet = p } ∷ [],
      ),
      dispatch (node_id down) p s interest k ∙ ap some out,
      record { named = fits.named; pending = inr (up, down, r, refl) },
      ((up, subst (λ m. Along m i up) (sym k) rf.above, rf.small.0, refl, lt), tt),
    )

content_idle :
    (p : Packet) (s : Node)
    → ltb 0 s.pit_ctr ≡ false
    → want_content s ≡ false
    → on_content p s ≡ some (s, [])
unfolding on_content
content_idle p s idle client = rw (idle, client) refl

-- Content goes to the node below while an interest is pending, and is dropped else.
pub relay-down :
    (i up down : ℕ) (src : Addr) (p : Packet) (s : Node)
    → Relay i up down
    → p.kind ≡ content
    → p.seq < number_of_chunks
    → NodeFits i s
    → Fine i (received_packet (some src) p) s
unfolding rcv_kind
relay-down i up down src p s r k lt fits =
    let rf = Relay-RelayFits i up down r in
    let client : want_content s ≡ false =
      ap (λ a. same_addr a (node_id 7)) fits.named ∙ rf.no_client in
    let idle : ltb 0 s.pit_ctr ≡ false → Fine i (received_packet (some src) p) s = λ none_left.
      ((s, []), dispatch src p s content k ∙ content_idle p s none_left client, fits, tt) in
    elim fits.pending [
      | inl empty ↦ idle (ground (arith, empty))
      | inr (a, b, r', entry) ↦ elim (Bool-cases (ltb 0 s.pit_ctr)) [
        | inl waiting ↦
            let rf' = Relay-RelayFits i a b r' in
            let route : next_hop s.my_id s.pit_entry ≡ some (node_id b) =
              ap (λ n. next_hop n s.pit_entry) fits.named
              ∙ ap (next_hop (node_id i)) entry
              ∙ rf'.to_below in
            (
              (
                record s { pit_ctr = s.pit_ctr - 1; send_counter = u16 (s.send_counter + 1) },
                record { dst = node_id b; packet = p } ∷ [],
              ),
              dispatch src p s content k ∙ relay_content (node_id b) p s waiting route,
              record { named = fits.named; pending = inr (a, b, r', entry) },
              ((b, subst (λ m. Along m i b) (sym k) rf'.below, rf'.small.1, refl, lt), tt),
            )
        | inr none_left ↦ idle none_left
      ]
    ]
