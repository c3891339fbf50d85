-- ===== src/Dow/Takeover.antt =====
-- A takeover in the caching application (ccnl_caching/): the new deputy asks the old one for chunk
-- after chunk. `dow_takeover`, `ccnl_helper_int` and `ccnlriot_consumer` of the new node meet
-- `ccnlriot_producer` and `_send_ack` of the old one, with CCN-lite and the radio between them.
pub mod Entries
pub mod Steps
pub mod Complete
pub mod Copied
pub mod Kept
use miniature_dangerzone.Common.{
  ℕ, zero, suc, ◌≡◌, Bool, true, false, List, [], ◌∷◌, Option, none, some, pos, map, get_elem?, All,
  if◌then◌else◌,
}
use miniature_dangerzone.Config.{Config}
use miniature_dangerzone.Ccn.{Name, compcnt, Packet, Content, Interest, Identity, Store, CcnLite}
use miniature_dangerzone.Dow.{Msg, Node}
use miniature_dangerzone.Dow.Wait.{Arrival, Round, Waiter, Answer, no_answer, Try, helper_int}
use miniature_dangerzone.Cache.Consumer.{Draw, dow_content_size, put_store, consumer}
use miniature_dangerzone.Cache.Producer.{Reply, producer}
use miniature_dangerzone.Cache.Packets.{Payload, send_ack}

-- The two nodes.
pub record Pair : Type 0 where
  pub old : Node
  pub new : Node

-- What the exchange of chunks meets: the build, CCN-lite, the strategy and the identity of each node,
-- and, for each chunk number, the draws of the callbacks and the times at which the wait starts and
-- reads the clock. `content_for` is what CCN-lite sends for the name of an interest that the callback
-- passes on, and `enter` what it does to its table of pending interests when the node sends one.
pub record Setting : Type 0 where
  pub cfg : Config
  pub lite : CcnLite
  pub strategy : Store → Content → Store
  pub me_old : Identity
  pub me_new : Identity
  pub content_for : Name → List Content → Option Packet
  pub enter : ℕ → List Interest → List Interest
  pub ack_alloc : ℕ
  pub face : ℕ
  pub retransmit : ℕ
  pub waiter : Waiter
  pub old_draw : ℕ → Draw
  pub new_draw : ℕ → Draw
  pub start : ℕ → ℕ
  pub read : ℕ → ℕ

-- The new node's interest for a chunk of any data.
abbrev pub request : Setting → ℕ → Packet
request s k = record {
  name = record s.me_new.all_pfx { chunknum = some (pos k) };
  contlen = 0;
  value = [];
  num = pos 0;
  frame = none;
}

-- An acknowledgement as it comes to the new node.
abbrev pub ack_packet : Setting → Payload → Packet
ack_packet s payload = record {
  name = s.me_old.all_pfx;
  contlen = dow_content_size;
  value = payload.value;
  num = payload.num;
  frame = none;
}

-- The packet that answers the interest, if there is one.
unfoldable pub came_back : Setting → Reply → Option Packet
came_back s r = elim r.ack [
  | some i ↦ elim (send_ack s.cfg true (some s.ack_alloc) (pos i)) [
    | some (some payload) ↦ some (ack_packet s payload)
    | _ ↦ none
  ]
  | none ↦ if r.handled then none else s.content_for r.name r.node.store.contents
]

-- What the loop that waits makes of a message of the callback.
abbrev pub arrival : Msg → Arrival
arrival Msg.received = Arrival.received
arrival Msg.received_ack = Arrival.received_ack
arrival Msg.received_int = Arrival.received_int
arrival Msg.newdata = Arrival.newdata
arrival Msg.second = Arrival.second
arrival _ = Arrival.other

-- What `ccnl_helper_int` answers where its first interest brings these messages. Where that does not
-- end the first wait, the others bring nothing either.
unfoldable pub answer_to : Setting → ℕ → List Msg → Answer
answer_to s k sent =
    let rounds : List Round = map (λ m. record { read = s.read k; message = arrival m }) sent in
    let first : Try = record { start = s.start k; rounds = rounds } in
    elim (helper_int s.retransmit false (first ∷ []) s.waiter) [
      | none ↦ no_answer
      | some (tries, answer, w) ↦ answer
    ]

abbrev pub old_reply : Setting → ℕ → Pair → Reply
old_reply s k p = producer s.cfg s.lite s.me_old (s.old_draw k) p.old (request s k)

-- The new node when its interest is pending, with the messages of the callback to come.
abbrev pub asking : Setting → ℕ → Node → Node
asking s k n = record n { store = record n.store { pit = s.enter k n.store.pit }; sent = [] }

-- The exchange for one chunk number: the nodes behind it, and the answer.
unfoldable pub exchange : Setting → ℕ → Pair → Pair × Answer
unfolding came_back answer_to
exchange s k p =
    let r = old_reply s k p in
    let n = asking s k p.new in
    elim (came_back s r) [
      | none ↦ (record { old = r.node; new = record n { sent = p.new.sent } }, no_answer)
      | some pkt ↦
          let o = consumer s.cfg s.lite s.strategy s.me_new s.face (s.new_draw k) n pkt in
          (
            record { old = r.node; new = record o.node { sent = p.new.sent } },
            answer_to s k o.node.sent,
          )
    ]

-- The nodes when the interests for the first `k` chunk numbers have been answered.
unfoldable pub after : Setting → Pair → ℕ → Pair
after s p zero = p
after s p (suc k) = (exchange s k (after s p k)).0

-- What comes back for a chunk number, and the answer that `dow_takeover` gets.
abbrev pub delivered : Setting → Pair → ℕ → Option Packet
delivered s p k = came_back s (old_reply s k (after s p k))

abbrev pub answers : Setting → Pair → ℕ → Answer
answers s p k = (exchange s k (after s p k)).1

-- The names have four components each, and no two are equal.
abbrev pub FullNames : CcnLite → List Name → Type 0
FullNames l [] = Unit
FullNames l (n ∷ ns) =
    (compcnt n ≡ 4)
    × All (λ m. (l.prefix_exact m n ≡ false) × (l.prefix_exact n m ≡ false)) ns
    × FullNames l ns

-- What the application relies on: where the names in a store are full and different, CCN-lite
-- sends the entry that is asked for by its name.
abbrev pub Sends : Setting → Type 0
Sends s =
    (cs : List Content) (k : ℕ) (c : Content)
    → FullNames s.lite (map (λ x. x.pkt.name) cs)
    → get_elem? cs k ≡ some c
    → s.content_for c.pkt.name cs ≡ some c.pkt
