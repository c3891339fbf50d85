-- ===== src/Dow/Takeover/Entries.antt =====
-- The entries of the old deputy's store, whose chunk numbers change while it serves them.
use mathlib.Core.Path.{subst}
use miniature_dangerzone.Common.{
  ℕ, zero, suc, ◌<◌, ◌≡◌, refl, ap, some, List, [], ◌∷◌, map, length, get_elem?, All, minus_one,
  arith, ◌==◌, false,
}
use miniature_dangerzone.Ccn.{Name, Content, Distinct}
use miniature_dangerzone.Cache.Newest.{change_at}
use miniature_dangerzone.Cache.Producer.{set_num}

-- An entry without its chunk number.
abbrev pub erase : Content → Content
erase c = record c { pkt = (record c.pkt { num = minus_one }) }

abbrev pub names : List Content → List Name
names cs = map (λ c. c.pkt.name) cs

pub length-map-erase : (cs : List Content) → length (map erase cs) ≡ length cs
length-map-erase [] = refl
length-map-erase (c ∷ cs) = omega (arith, length-map-erase cs)

pub names-map-erase : (cs : List Content) → names (map erase cs) ≡ names cs
names-map-erase [] = refl
names-map-erase (c ∷ cs) = ap (λ ns. c.pkt.name ∷ ns) (names-map-erase cs)

pub get_elem?-map-erase :
    (cs : List Content) (k : ℕ) (c : Content)
    → get_elem? cs k ≡ some c
    → get_elem? (map erase cs) k ≡ some (erase c)
get_elem?-map-erase [] k c h = cc
get_elem?-map-erase (x ∷ cs) zero c h = ground arith
get_elem?-map-erase (x ∷ cs) (suc k) c h = get_elem?-map-erase cs k c h

pub get_elem?_below {ℓ} :
    {A : Type ℓ} (xs : List A) (k : ℕ) → k < length xs → (x : A) × (get_elem? xs k ≡ some x)
get_elem?_below [] k h = absurd (omega arith)
get_elem?_below (x ∷ xs) zero h = (x, refl)
get_elem?_below (x ∷ xs) (suc k) h = get_elem?_below xs k (omega arith)

pub All-get_elem? {ℓ κ} :
    {A : Type ℓ} (P : A → Type κ) (xs : List A) (k : ℕ) (x : A)
    → All P xs
    → get_elem? xs k ≡ some x
    → P x
All-get_elem? P [] k x all h = cc
All-get_elem? P (y ∷ xs) zero x all h = subst P (cc) all.0
All-get_elem? P (y ∷ xs) (suc k) x all h = All-get_elem? P xs k x all.1 h

-- A new number for one entry leaves the rest of every entry.
pub erase-change_at :
    (a i : ℕ) (cs : List Content) → map erase (change_at a (set_num i) cs) ≡ map erase cs
unfolding change_at
erase-change_at a i [] = refl
erase-change_at a i (c ∷ cs) = ground (arith, erase-change_at a i cs)

Distinct-later :
    (a : ℕ) (cs : List Content) (k : ℕ) (c : Content)
    → All (λ x. (x.addr == a) ≡ false) (map erase cs)
    → get_elem? cs k ≡ some c
    → (a == c.addr) ≡ false
Distinct-later a [] k c d h = cc
Distinct-later a (x ∷ cs) zero c d h = ground arith
Distinct-later a (x ∷ cs) (suc k) c d h = Distinct-later a cs k c d.1 h

-- Where the addresses differ, the entry that is changed is the one at its place.
pub change_at_found :
    (i : ℕ) (cs : List Content) (k : ℕ) (c : Content)
    → Distinct (map erase cs)
    → get_elem? cs k ≡ some c
    → get_elem? (change_at c.addr (set_num i) cs) k ≡ some (set_num i c)
unfolding change_at
change_at_found i [] k c d h = cc
change_at_found i (x ∷ cs) zero c d h = ground arith
change_at_found i (x ∷ cs) (suc k) c d h =
    ground (arith, Distinct-later x.addr cs k c d.0 h, change_at_found i cs k c d.1 h)
