-- ===== src/Chain/Line.antt =====
-- Where the routes of ccnlriot lead.
use miniature_dangerzone.Common.{
  ℕ, zero, suc, ◌-◌, ◌<◌, ◌≡◌, refl, Bool, true, false, ◌&&◌, Option, none, some, List, [], ◌∷◌,
  arith, ap, get_or, each_below, each_below_at,
}
use miniature_dangerzone.Chain.{
  Address, ccnlriot_id, addr_same, pos_from, get_pos, Prefix, prefix1, prefix2, Route, second_route,
  routes_at, routes_setup,
}

-- The first entry for a prefix
unfoldable pub via : Prefix → List Route → Option Address
via p [] = none
via prefix1 ((prefix1, a) ∷ rs) = some a
via prefix1 ((prefix2, a) ∷ rs) = via prefix1 rs
via prefix2 ((prefix1, a) ∷ rs) = via prefix2 rs
via prefix2 ((prefix2, a) ∷ rs) = some a

abbrev all_added : Prefix → Bool
all_added p = true

-- Where an interest for a prefix is after a number of hops, if there is a route at every node before.
unfoldable pub follow : Prefix → ℕ → Address → Option Address
unfolding via routes_setup
follow p zero a = some a
follow p (suc n) a = elim (via p (routes_setup all_added a)) [ none ↦ none | some b ↦ follow p n b ]

abbrev pub id_at : ℕ → Address
id_at i = get_or ccnlriot_id i []

abbrev is_at : Option Address → ℕ → Bool
is_at none i = false
is_at (some a) i = addr_same a (id_at i)

line_table :
    each_below
      (λ i. is_at (follow prefix1 i (id_at i)) 0 && is_at (follow prefix2 (19 - i) (id_at i)) 19)
      20
    ≡ true
unfolding follow via routes_setup routes_at second_route get_pos pos_from addr_same
line_table = refl

addr_same_eq : (a b : Address) → addr_same a b ≡ true → a ≡ b
unfolding addr_same
addr_same_eq [] [] h = refl
addr_same_eq [] (y ∷ b) h = ground arith
addr_same_eq (x ∷ a) [] h = ground arith
addr_same_eq (x ∷ a) (y ∷ b) h = ground (arith, addr_same_eq a b)

is_at_eq : (o : Option Address) (i : ℕ) → is_at o i ≡ true → o ≡ some (id_at i)
is_at_eq none i h = ground arith
is_at_eq (some a) i h = ap some (addr_same_eq a (id_at i) h)

-- Where every node of the list has set up its routes, an interest for the first prefix gets from the
-- node at place i to the first node of the list in i hops, and one for the second prefix to the last,
-- at place 19, in 19 - i hops.
pub routes_line :
    (i : ℕ)
    → i < 20
    → (follow prefix1 i (id_at i) ≡ some (id_at 0))
      × (follow prefix2 (19 - i) (id_at i) ≡ some (id_at 19))
routes_line i lt =
    let cell =
      each_below_at
        (λ k. is_at (follow prefix1 k (id_at k)) 0 && is_at (follow prefix2 (19 - k) (id_at k)) 19)
        20 i line_table lt in
    (
      is_at_eq (follow prefix1 i (id_at i)) 0 (ground (arith, cell)),
      is_at_eq (follow prefix2 (19 - i) (id_at i)) 19 (ground (arith, cell)),
    )
