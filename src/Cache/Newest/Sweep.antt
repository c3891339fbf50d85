-- ===== src/Cache/Newest/Sweep.antt =====
-- What the loops over the store do to the flags.
use miniature_dangerzone.Common.{
  ℕ, ◌+◌, ◌≤◌, ◌≡◌, refl, Bool, true, false, ◌&&◌, ◌||◌, none, List, [], ◌∷◌, arith, map, ℤ, ltb_ℤ,
  if◌then◌else◌, count_if, any_if, All, Bool-cases, inl, inr, ap,
}
use miniature_dangerzone.Ccn.{Name, Content, stamp, CcnLite}
use miniature_dangerzone.Cache.Newest.{
  Removed, unflag, note_removed, is_from, unflag_cs, is_of, sweep,
}

-- An entry of the source of a name that is flagged as the newest one.
abbrev pub flagged : CcnLite → Name → Content → Bool
flagged l n x = x.user1 && is_of l n x

-- No entry of the source is newer.
abbrev pub IsLatest : CcnLite → Name → ℤ → List Content → Type 0
IsLatest l n t cs = All (λ x. is_of l n x ≡ true → ltb_ℤ t (stamp x) ≡ false) cs

-- Where no entry is newer, the loop runs through and leaves no flag of the source.
pub sweep_latest :
    (l : CcnLite) (n : Name) (t : ℤ) (cs : List Content) (r : Removed)
    → IsLatest l n t cs
    → ((sweep l n t cs r).newest ≡ none) × (count_if (flagged l n) (sweep l n t cs r).entries ≡ 0)
unfolding sweep
sweep_latest l n t [] r h = (refl, refl)
sweep_latest l n t (x ∷ cs) r h = elim (Bool-cases (is_of l n x)) [
  | inl hit ↦ ground (arith, h.0 hit, sweep_latest l n t cs (note_removed x r) h.1)
  | inr miss ↦ ground (arith, sweep_latest l n t cs r h.1)
]

abbrev pub one_if : Bool → ℕ
one_if b = if b then 1 else 0

-- A static flag that the loop notes is one that it has taken away.
pub sweep-static-le :
    (l : CcnLite) (n : Name) (t : ℤ) (cs : List Content) (r : Removed)
    → count_if (λ x. x.static) (sweep l n t cs r).entries
        + one_if (sweep l n t cs r).removed.prio_flag
      ≤ count_if (λ x. x.static) cs + one_if r.prio_flag
unfolding sweep
sweep-static-le l n t [] r = omega arith
sweep-static-le l n t (x ∷ cs) r =
    ground (arith, sweep-static-le l n t cs (note_removed x r), sweep-static-le l n t cs r)

-- `_unflag_cs` clears both flags of each entry of the source and changes no other entry, and it
-- reports a flag exactly if it has met it at such an entry.
pub unflag_cs_lem :
    (source : List ℕ) (cs : List Content) (r : Removed)
    → ((unflag_cs source cs r).1 ≡ map (λ x. if is_from source x then unflag x else x) cs)
      × ((unflag_cs source cs r).0.newest_flag
          ≡ (r.newest_flag || any_if (λ x. is_from source x && x.user1) cs))
      × ((unflag_cs source cs r).0.prio_flag
          ≡ (r.prio_flag || any_if (λ x. is_from source x && x.static) cs))
unfolding unflag_cs
unflag_cs_lem source [] r = ground arith
unflag_cs_lem source (x ∷ cs) r = elim (Bool-cases (is_from source x)) [
  | inl hit ↦
      let (same, newest, prio) = unflag_cs_lem source cs (note_removed x r) in
      rw hit (ap (◌∷◌ (unflag x)) same, ground arith, ground arith)
  | inr miss ↦
      let (same, newest, prio) = unflag_cs_lem source cs r in
      rw miss (ap (◌∷◌ x) same, newest, prio)
]
