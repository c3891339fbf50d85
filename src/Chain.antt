-- ===== src/Chain.antt =====
-- The chain of nodes of ccnlriot: the list of addresses (ccnlriot/routes.h), the routes that each node
-- sets up (routes.c), and fetching content along the chain (main.c). CCN-lite adds the routes and
-- carries the interests; whether it does is an argument.
pub mod Line
pub mod Fetched
use miniature_dangerzone.Common.{
  ℕ, zero, suc, ◌+◌, ◌-◌, Bool, true, false, ◌++◌, Option, none, some, List, [], ◌∷◌, ltb, ◌==◌,
  if◌then◌else◌, get_elem?,
}

-- One address, of CCNLRIOT_ADDRLEN bytes
abbrev pub Address : Type 0
Address = List ℕ

-- ccnlriot_id with USE_LONG, on a board
abbrev pub ccnlriot_id : List Address
ccnlriot_id =
    (0x36 ∷ 0x32 ∷ 0x48 ∷ 0x33 ∷ 0x46 ∷ 0xdf ∷ 0xaa ∷ 0x02 ∷ [])
    ∷ (0x36 ∷ 0x32 ∷ 0x48 ∷ 0x33 ∷ 0x46 ∷ 0xdb ∷ 0xae ∷ 0x02 ∷ [])
    ∷ (0x36 ∷ 0x32 ∷ 0x48 ∷ 0x33 ∷ 0x46 ∷ 0xd5 ∷ 0xaf ∷ 0x12 ∷ [])
    ∷ (0x36 ∷ 0x32 ∷ 0x48 ∷ 0x33 ∷ 0x46 ∷ 0xd9 ∷ 0xa6 ∷ 0x02 ∷ [])
    ∷ (0x36 ∷ 0x32 ∷ 0x48 ∷ 0x33 ∷ 0x46 ∷ 0xd9 ∷ 0xac ∷ 0x26 ∷ [])
    ∷ (0x36 ∷ 0x32 ∷ 0x48 ∷ 0x33 ∷ 0x46 ∷ 0xd7 ∷ 0xaa ∷ 0x22 ∷ [])
    ∷ (0x36 ∷ 0x32 ∷ 0x48 ∷ 0x33 ∷ 0x46 ∷ 0xd7 ∷ 0x6f ∷ 0x16 ∷ [])
    ∷ (0x36 ∷ 0x32 ∷ 0x48 ∷ 0x33 ∷ 0x46 ∷ 0xd8 ∷ 0xaa ∷ 0x22 ∷ [])
    ∷ (0x36 ∷ 0x32 ∷ 0x48 ∷ 0x33 ∷ 0x46 ∷ 0xdb ∷ 0xa9 ∷ 0x12 ∷ [])
    ∷ (0x36 ∷ 0x32 ∷ 0x48 ∷ 0x33 ∷ 0x46 ∷ 0xda ∷ 0xa8 ∷ 0x26 ∷ [])
    ∷ (0x36 ∷ 0x32 ∷ 0x48 ∷ 0x33 ∷ 0x46 ∷ 0xd4 ∷ 0xa7 ∷ 0x22 ∷ [])
    ∷ (0x36 ∷ 0x32 ∷ 0x48 ∷ 0x33 ∷ 0x46 ∷ 0xd9 ∷ 0xaa ∷ 0x06 ∷ [])
    ∷ (0x36 ∷ 0x32 ∷ 0x48 ∷ 0x33 ∷ 0x46 ∷ 0xd4 ∷ 0x77 ∷ 0x06 ∷ [])
    ∷ (0x36 ∷ 0x32 ∷ 0x48 ∷ 0x33 ∷ 0x46 ∷ 0xd8 ∷ 0xaf ∷ 0x12 ∷ [])
    ∷ (0x36 ∷ 0x32 ∷ 0x48 ∷ 0x33 ∷ 0x46 ∷ 0xd5 ∷ 0xaa ∷ 0x16 ∷ [])
    ∷ (0x36 ∷ 0x32 ∷ 0x48 ∷ 0x33 ∷ 0x46 ∷ 0xd4 ∷ 0xaa ∷ 0x12 ∷ [])
    ∷ (0x36 ∷ 0x32 ∷ 0x48 ∷ 0x33 ∷ 0x46 ∷ 0xdb ∷ 0xab ∷ 0x2a ∷ [])
    ∷ (0x36 ∷ 0x32 ∷ 0x48 ∷ 0x33 ∷ 0x46 ∷ 0xd8 ∷ 0xaa ∷ 0x16 ∷ [])
    ∷ (0x36 ∷ 0x32 ∷ 0x48 ∷ 0x33 ∷ 0x46 ∷ 0xde ∷ 0xac ∷ 0x02 ∷ [])
    ∷ (0x36 ∷ 0x32 ∷ 0x48 ∷ 0x33 ∷ 0x46 ∷ 0xd4 ∷ 0xad ∷ 0x16 ∷ [])
    ∷ []

-- CCNLRIOT_NUMBER_OF_NODES, CCNLRIOT_CONSUMERS, CCNLRIOT_CHUNKNUMBERS and CCNLRIOT_INT_RETRIES
abbrev pub number_of_nodes : ℕ
number_of_nodes = 20

abbrev pub consumers : ℕ
consumers = 1

abbrev pub chunk_numbers : ℕ
chunk_numbers = 10

abbrev pub int_retries : ℕ
int_retries = 10

-- _addr_cmp, as whether it answers 0
unfoldable pub addr_same : Address → Address → Bool
addr_same [] [] = true
addr_same [] (y ∷ b) = false
addr_same (x ∷ a) [] = false
addr_same (x ∷ a) (y ∷ b) = if x == y then addr_same a b else false

-- The loop of `_get_pos` from the place `i` on; `none` is -1.
unfoldable pub pos_from : Address → List Address → ℕ → Option ℕ
unfolding addr_same
pos_from a [] i = none
pos_from a (b ∷ ids) i = if addr_same a b then some i else pos_from a ids (suc i)

-- _get_pos
unfoldable pub get_pos : Address → Option ℕ
unfolding pos_from
get_pos a = pos_from a ccnlriot_id 0

-- The prefixes that are routed: CCNLRIOT_PREFIX1 and CCNLRIOT_PREFIX2
pub data Prefix : Type 0 where
  prefix1 prefix2 : Prefix

-- An entry of the FIB: a prefix and the neighbour that it leads to.
abbrev pub Route : Type 0
Route = Prefix × Address

abbrev pub route : Prefix → ℕ → List Route
route p i = elim (get_elem? ccnlriot_id i) [ none ↦ [] | some a ↦ (p, a) ∷ [] ]

-- The second half of ccnlriot_routes_setup.
unfoldable pub second_route : ℕ → List Route
second_route my_pos = if ltb my_pos (number_of_nodes - 1) then route prefix2 (my_pos + 1) else []

-- ccnlriot_routes_setup at a place in the list, where `added p` says whether CCN-lite adds the entry
-- for a prefix: the entries that there are afterwards.
unfoldable pub routes_at : (Prefix → Bool) → ℕ → List Route
unfolding second_route
routes_at added my_pos =
    let second : List Route = if added prefix2 then second_route my_pos else [] in
    if ltb 0 my_pos
    then (if added prefix1 then route prefix1 (my_pos - 1) ++ second else [])
    else second

-- ccnlriot_routes_setup of the node with an address
unfoldable pub routes_setup : (Prefix → Bool) → Address → List Route
unfolding get_pos routes_at
routes_setup added a = elim (get_pos a) [ none ↦ [] | some my_pos ↦ routes_at added my_pos ]

-- The tries for one chunk in `_get_content`, from the number `cnt` on: whether one was answered, and
-- how many interests were sent. `answered cnt` says whether a chunk comes for that interest.
unfoldable pub tries : (ℕ → Bool) → ℕ → ℕ → Bool × ℕ
tries answered zero cnt = (false, 0)
tries answered (suc left) cnt =
    let rest : Bool × ℕ = tries answered left (suc cnt) in
    if answered cnt then (true, 1) else (rest.0, suc rest.1)

-- The loop of `_get_content` over the chunks from `i` on: `success`, and the interests sent.
unfoldable pub chunks_from : (ℕ → ℕ → Bool) → ℕ → ℕ → ℕ × ℕ
unfolding tries
chunks_from answered zero i = (0, 0)
chunks_from answered (suc left) i =
    let here : Bool × ℕ = tries (answered i) int_retries 0 in
    let rest : ℕ × ℕ = chunks_from answered left (suc i) in
    ((if here.0 then 1 else 0) + rest.0, here.1 + rest.1)

-- _get_content: whether it reports success, and the interests sent
unfoldable pub get_content : (ℕ → ℕ → Bool) → Bool × ℕ
unfolding chunks_from
get_content answered =
    let all : ℕ × ℕ = chunks_from answered chunk_numbers 0 in (all.0 == chunk_numbers, all.1)

-- What `main` does when the routes are set up, by the place in the list.
pub data Role : Type 0 where
  creates_content waits_for_shell : Role
  gets_content : Address → Role

unfoldable pub role_at : Option ℕ → Role
role_at none = waits_for_shell
role_at (some zero) = creates_content
role_at (some (suc i)) =
    if ltb (suc i) (number_of_nodes - consumers)
    then waits_for_shell
    else elim (get_elem? ccnlriot_id i) [ none ↦ waits_for_shell | some a ↦ gets_content a ]
