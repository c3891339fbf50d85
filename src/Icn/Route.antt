-- ===== src/Icn/Route.antt =====
-- The choice of the next hop (`_linkIsScheduled` and `_routeLookup` of l2_routing/l2.c).
pub mod Paths
use miniature_dangerzone.Common.{
  Bool, ◌&&◌, ◌||◌, Option, none, some, List, [], ◌∷◌, if◌then◌else◌, any_if,
}
use miniature_dangerzone.Icn.{Addr, same_addr, Link, ssf_int, Entry, routing_table}

-- A link connects the node to `dst`, in one direction or the other.
abbrev pub connects : Addr → Addr → Link → Bool
connects me dst l =
    (same_addr me l.sender && same_addr dst l.receiver)
    || (same_addr dst l.sender && same_addr me l.receiver)

-- _linkIsScheduled
unfoldable pub link_is_scheduled : Addr → Addr → Bool
link_is_scheduled me dst = any_if (connects me dst) ssf_int

-- The loop of `_routeLookup`, with the default route seen so far. The source compares eight bytes
-- at the address `routing_table[i].dst` before it asks whether that is NULL; a read there is
-- undefined, and here it finds other bytes than those of `dst`.
unfoldable pub lookup_loop : Addr → Addr → List Entry → Option Addr → Option Addr
lookup_loop me dst [] next = next
lookup_loop me dst (e ∷ es) next =
    if same_addr me e.id
    then elim e.dst [
      | none ↦ lookup_loop me dst es (some e.next_hop)
      | some d ↦ if same_addr dst d then some e.next_hop else lookup_loop me dst es next
    ]
    else lookup_loop me dst es next

-- _routeLookup
unfoldable pub route_lookup : Addr → Addr → Option Addr
unfolding lookup_loop
route_lookup me dst = lookup_loop me dst routing_table none

-- The address that `icn_send` puts into the header of the frame, if it does not drop the packet.
unfoldable pub next_hop : Addr → Addr → Option Addr
unfolding link_is_scheduled route_lookup
next_hop me dst = if link_is_scheduled me dst then some dst else route_lookup me dst
