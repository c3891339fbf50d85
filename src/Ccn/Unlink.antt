-- ===== src/Ccn/Unlink.antt =====
-- What taking an entry out of a content store does to the number of entries that pass a test.
use mathlib.Core.List.{Memᴰ}
use miniature_dangerzone.Common.{
  ℕ, ◌+◌, ◌≤◌, ◌≡◌, Bool, false, List, [], ◌∷◌, arith, ◌==◌, if◌then◌else◌, count_if, All,
}
use miniature_dangerzone.Ccn.{Content, unlink, Distinct}

-- Taking an entry out never raises a count, and of a store without a doubled address it takes out
-- that entry.
pub count_if-unlink-le :
    (p : Content → Bool) (a : ℕ) (cs : List Content) → count_if p (unlink a cs) ≤ count_if p cs
unfolding unlink
count_if-unlink-le p a [] = omega arith
count_if-unlink-le p a (c ∷ cs) = ground (arith, count_if-unlink-le p a cs)

All-mem :
    (a : ℕ) (cs : List Content) (v : Content)
    → All (λ x. (x.addr == a) ≡ false) cs
    → Memᴰ v cs
    → (v.addr == a) ≡ false
All-mem a [] v h m = elim m [ ]
All-mem a (x ∷ cs) v h (Memᴰ.head e) = rw e h.0
All-mem a (x ∷ cs) v h (Memᴰ.tail m) = All-mem a cs v h.1 m

pub count_if-unlink :
    (p : Content → Bool) (cs : List Content) (v : Content)
    → Distinct cs
    → Memᴰ v cs
    → count_if p (unlink v.addr cs) + (if p v then 1 else 0) ≡ count_if p cs
unfolding unlink
count_if-unlink p [] v d m = elim m [ ]
count_if-unlink p (x ∷ cs) v d (Memᴰ.head e) = rw (e) (ground arith)
count_if-unlink p (x ∷ cs) v d (Memᴰ.tail m) =
    ground (arith, All-mem x.addr cs v d.0 m, count_if-unlink p cs v d.1 m)
