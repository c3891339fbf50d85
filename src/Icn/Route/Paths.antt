-- ===== src/Icn/Route/Paths.antt =====
-- Where packets travel hop by hop, by the choice that `icn_send` of l2_routing/l2.c makes at each node.
use miniature_dangerzone.Common.{
  ℕ, zero, suc, ◌≤◌, ◌<◌, ◌≡◌, ◌⊎◌, inl, inr, refl, Bool, true, false, ◌&&◌, Option, none, some,
  List, [], ◌∷◌, if◌then◌else◌, each_below, each_below_at, arith, All, Bool-cases, Option-cases,
  leb, ap, ◌∙◌,
}
use miniature_dangerzone.Icn.{Addr, same_addr, node_id, Entry, routing_table}
use miniature_dangerzone.Icn.Route.{link_is_scheduled, lookup_loop, route_lookup, next_hop}

-- Addresses compare as equal exactly if they are.
pub same_addr_eq : (a b : Addr) → same_addr a b ≡ true → a ≡ b
unfolding same_addr
same_addr_eq [] [] h = refl
same_addr_eq [] (y ∷ ys) h = ground arith
same_addr_eq (x ∷ xs) [] h = ground arith
same_addr_eq (x ∷ xs) (y ∷ ys) h = ground (arith, same_addr_eq xs ys)

-- The next hop of an entry is a neighbour of the node that has the entry.
abbrev Sound : Entry → Type 0
Sound e = link_is_scheduled e.id e.next_hop ≡ true

table-Sound : All Sound routing_table
unfolding link_is_scheduled same_addr
table-Sound =
    (refl, (refl, (refl, (refl, (refl, (refl, (refl, (refl, (refl, (refl, (refl, tt)))))))))))

abbrev IsNeighbour : Addr → Option Addr → Type 0
IsNeighbour me none = Unit
IsNeighbour me (some hop) = link_is_scheduled me hop ≡ true

lookup_loop-IsNeighbour :
    (me dst : Addr) (es : List Entry) (next : Option Addr)
    → All Sound es
    → IsNeighbour me next
    → IsNeighbour me (lookup_loop me dst es next)
unfolding lookup_loop
lookup_loop-IsNeighbour me dst [] next h k = k
lookup_loop-IsNeighbour me dst (e ∷ es) next h k = elim (Bool-cases (same_addr me e.id)) [
  | inl own ↦
      let near : link_is_scheduled me e.next_hop ≡ true =
        ap (λ i. link_is_scheduled i e.next_hop) (same_addr_eq me e.id own) ∙ h.0 in
      elim (Option-cases e.dst) [
        | inl default ↦ ground (arith, lookup_loop-IsNeighbour me dst es (some e.next_hop) h.1 near)
        | inr (d, dedicated) ↦ ground (arith, near, lookup_loop-IsNeighbour me dst es next h.1 k)
      ]
  | inr other ↦ ground (arith, lookup_loop-IsNeighbour me dst es next h.1 k)
]

-- Whatever the destination is, the address that `icn_send` puts into the header is a neighbour of
-- the node in the schedule of links.
pub next_hop_scheduled :
    (me dst hop : Addr) → next_hop me dst ≡ some hop → link_is_scheduled me hop ≡ true
unfolding next_hop route_lookup
next_hop_scheduled me dst hop h = elim (Bool-cases (link_is_scheduled me dst)) [
  | inl direct ↦ ground (arith, direct)
  | inr far ↦ ground (arith, far, lookup_loop-IsNeighbour me dst routing_table none table-Sound tt)
]

-- What becomes of a packet that each node on its way sends on.
pub data Fate : Type 0 where
  arrived under_way : Fate
  dropped_at : Addr → Fate

unfoldable pub travel : ℕ → Addr → Addr → Fate
unfolding next_hop same_addr
travel zero me dst = if same_addr me dst then arrived else under_way
travel (suc hops) me dst =
    if same_addr me dst
    then arrived
    else elim (next_hop me dst) [ none ↦ dropped_at me | some hop ↦ travel hops hop dst ]

-- At its destination, or lost at node 0 where that is one of the last three.
abbrev ends_well : ℕ → Fate → Bool
ends_well j arrived = true
ends_well j under_way = false
ends_well j (dropped_at a) = same_addr a (node_id 0) && leb 7 j

all_routes :
    each_below (λ i. each_below (λ j. ends_well j (travel 5 (node_id i) (node_id j))) 10) 10 ≡ true
unfolding travel
all_routes = refl

ends_well-cases :
    (j : ℕ) (f : Fate)
    → ends_well j f ≡ true
    → (f ≡ arrived) ⊎ ((f ≡ dropped_at (node_id 0)) × (7 ≤ j))
unfolding same_addr
ends_well-cases j arrived h = inl refl
ends_well-cases j under_way h = ground arith
ends_well-cases j (dropped_at a) h =
    inr (ap dropped_at (same_addr_eq a (node_id 0) (ground (arith, h))), ground (arith, h))

-- Between any two of the ten nodes, a packet that every node on its way sends on has arrived or is
-- dropped after at most five hops, and it is dropped only at node 0 and only on its way to node 7,
-- 8 or 9: there is no loop, and each node reaches the content store.
pub travel_ends :
    (i j : ℕ)
    → i < 10
    → j < 10
    → (travel 5 (node_id i) (node_id j) ≡ arrived)
      ⊎ ((travel 5 (node_id i) (node_id j) ≡ dropped_at (node_id 0)) × (7 ≤ j))
travel_ends i j p q = ends_well-cases j (travel 5 (node_id i) (node_id j)) (
    each_below_at (λ k. ends_well k (travel 5 (node_id i) (node_id k))) 10 j
      (each_below_at (λ k. each_below (λ n. ends_well n (travel 5 (node_id k) (node_id n))) 10) 10 i
        all_routes p)
      q)
