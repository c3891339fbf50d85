-- ===== src/Icn.antt =====
-- The network of l2_routing: the addresses of the nodes, the schedule of links and the routing table
-- (l2_routing/icn.h and the tables of l2_routing/l2.c), and the packets that travel on it.
pub mod Route
pub mod Node
pub mod Net
use miniature_dangerzone.Common.{
  ℕ, zero, suc, Bool, true, false, ◌&&◌, ◌||◌, Option, none, some, List, [], ◌∷◌, ◌==◌,
  if◌then◌else◌, get_or, any_if,
}

-- eui64_t, as its eight bytes
abbrev pub Addr : Type 0
Addr = List ℕ

-- memcmp(a, b, ADDR_LEN_64B) == 0
unfoldable pub same_addr : Addr → Addr → Bool
same_addr [] [] = true
same_addr [] (y ∷ ys) = false
same_addr (x ∷ xs) [] = false
same_addr (x ∷ xs) (y ∷ ys) = x == y && same_addr xs ys

abbrev pub node_ids : List Addr
node_ids =
    (0x05 ∷ 0x43 ∷ 0x32 ∷ 0xff ∷ 0x03 ∷ 0xda ∷ 0xc0 ∷ 0x81 ∷ [])
    ∷ (0x05 ∷ 0x43 ∷ 0x32 ∷ 0xff ∷ 0x03 ∷ 0xdd ∷ 0x94 ∷ 0x81 ∷ [])
    ∷ (0x05 ∷ 0x43 ∷ 0x32 ∷ 0xff ∷ 0x03 ∷ 0xdb ∷ 0xa4 ∷ 0x78 ∷ [])
    ∷ (0x05 ∷ 0x43 ∷ 0x32 ∷ 0xff ∷ 0x03 ∷ 0xd7 ∷ 0xb1 ∷ 0x80 ∷ [])
    ∷ (0x05 ∷ 0x43 ∷ 0x32 ∷ 0xff ∷ 0x03 ∷ 0xde ∷ 0xb8 ∷ 0x81 ∷ [])
    ∷ (0x05 ∷ 0x43 ∷ 0x32 ∷ 0xff ∷ 0x03 ∷ 0xd5 ∷ 0x95 ∷ 0x67 ∷ [])
    ∷ (0x05 ∷ 0x43 ∷ 0x32 ∷ 0xff ∷ 0x02 ∷ 0xd6 ∷ 0x38 ∷ 0x61 ∷ [])
    ∷ (0x05 ∷ 0x43 ∷ 0x32 ∷ 0xff ∷ 0x03 ∷ 0xdb ∷ 0x99 ∷ 0x83 ∷ [])
    ∷ (0x05 ∷ 0x43 ∷ 0x32 ∷ 0xff ∷ 0x03 ∷ 0xd9 ∷ 0xa9 ∷ 0x68 ∷ [])
    ∷ (0x05 ∷ 0x43 ∷ 0x32 ∷ 0xff ∷ 0x03 ∷ 0xda ∷ 0x98 ∷ 0x75 ∷ [])
    ∷ []

-- node_ids[i]
abbrev pub node_id : ℕ → Addr
node_id i = get_or node_ids i []

-- CONTENT_STORE
abbrev pub content_store : Addr
content_store = node_id 0

-- icn_link_t
pub record Link : Type 0 where
  pub sender : Addr
  pub receiver : Addr

abbrev pub link : ℕ → ℕ → Link
link i j = record { sender = node_id i; receiver = node_id j }

abbrev pub ssf_int : List Link
ssf_int =
    link 7 9
    ∷ link 4 6
    ∷ link 3 4
    ∷ link 3 5
    ∷ link 2 9
    ∷ link 2 4
    ∷ link 2 6
    ∷ link 2 8
    ∷ link 1 2
    ∷ link 1 3
    ∷ link 1 4
    ∷ link 1 5
    ∷ link 1 6
    ∷ link 0 1
    ∷ link 0 3
    ∷ link 0 5
    ∷ link 0 6
    ∷ []

-- icn_routing_entry_t: a default route has NULL for its destination.
pub record Entry : Type 0 where
  pub id : Addr
  pub dst : Option Addr
  pub next_hop : Addr

abbrev pub default_route : ℕ → ℕ → Entry
default_route i next = record { id = node_id i; dst = none; next_hop = node_id next }

abbrev pub route_to : ℕ → ℕ → ℕ → Entry
route_to i j next = record { id = node_id i; dst = some (node_id j); next_hop = node_id next }

abbrev pub routing_table : List Entry
routing_table =
    default_route 1 0
    ∷ default_route 2 1
    ∷ default_route 3 0
    ∷ default_route 4 1
    ∷ default_route 5 0
    ∷ default_route 6 0
    ∷ default_route 7 9
    ∷ default_route 8 2
    ∷ default_route 9 2
    ∷ route_to 0 2 1
    ∷ route_to 0 4 1
    ∷ []

-- icn_packet_type_t, where a packet may carry any other number
pub data Kind : Type 0 where
  interest content background : Kind
  unknown : ℕ → Kind

-- icn_pkt_t. What is behind the text in `payload` is not set.
pub record Packet : Type 0 where
  pub kind : Kind
  pub seq : ℕ
  pub payload : List ℕ

-- "/ndn/RIOT/sensor"
abbrev pub interest_text : List ℕ
interest_text =
    b'/' ∷ b'n' ∷ b'd' ∷ b'n' ∷ b'/' ∷ b'R' ∷ b'I' ∷ b'O' ∷ b'T' ∷ b'/' ∷ b's' ∷ b'e' ∷ b'n' ∷ b's'
    ∷ b'o' ∷ b'r' ∷ 0 ∷ []

-- "Go! are you ready? Start the riot!"
abbrev pub content_text : List ℕ
content_text =
    b'G' ∷ b'o' ∷ b'!' ∷ b' ' ∷ b'a' ∷ b'r' ∷ b'e' ∷ b' ' ∷ b'y' ∷ b'o' ∷ b'u' ∷ b' ' ∷ b'r' ∷ b'e'
    ∷ b'a' ∷ b'd' ∷ b'y' ∷ b'?' ∷ b' ' ∷ b'S' ∷ b't' ∷ b'a' ∷ b'r' ∷ b't' ∷ b' ' ∷ b't' ∷ b'h'
    ∷ b'e' ∷ b' ' ∷ b'r' ∷ b'i' ∷ b'o' ∷ b't' ∷ b'!' ∷ 0 ∷ []
