-- ===== src/Dow/Takeover/Copied.antt =====
-- The store of the new deputy when a takeover has brought it every chunk.
use mathlib.Core.Path.{subst}
use mathlib.Core.List.{reverse, reverse-cons, append_assoc}
use miniature_dangerzone.Common.{
  ℕ, zero, suc, ◌+◌, ◌≤◌, ◌<◌, ◌≡◌, refl, sym, ap, ◌∙◌, false, none, some, List, [], ◌∷◌, ◌++◌,
  length, get_elem?, arith, All, pos, eqb_ℤ, Option-cases, inl, inr,
}
use miniature_dangerzone.Ccn.{Name, Content, CcnLite}
use miniature_dangerzone.Cache.Consumer.{cont_is_dup}
use miniature_dangerzone.Cache.Producer.{set_num}
use miniature_dangerzone.Dow.Takeover.{Pair, Setting, Sends, FullNames, asking, after}
use miniature_dangerzone.Dow.Takeover.Entries.{names, All-get_elem?}
use miniature_dangerzone.Dow.Takeover.Steps.{Fair, Along, Unasked, IsChunk, exchange-store}
use miniature_dangerzone.Dow.Takeover.Complete.{Along-after, chunk_comes}
use miniature_dangerzone.Dow.Takeover.Kept.{Room, consumer_store, store-names}

-- The first `k` names, the last in front, in front of others.
abbrev pub brought : ℕ → List Name → List Name → List Name
brought zero ns old = old
brought (suc k) ns old = elim (get_elem? ns k) [
  | none ↦ brought k ns old
  | some n ↦ n ∷ brought k ns old
]

brought_more :
    (k : ℕ) (n : Name) (ns old : List Name)
    → get_elem? ns k ≡ some n
    → brought (suc k) ns old ≡ n ∷ brought k ns old
brought_more k n ns old there = ground arith

brought_no_more :
    (k : ℕ) (ns old : List Name) → get_elem? ns k ≡ none → brought (suc k) ns old ≡ brought k ns old
brought_no_more k ns old gone = ground arith

brought_cons :
    (k : ℕ) (n : Name) (ns old : List Name) → brought (suc k) (n ∷ ns) old ≡ brought k ns (n ∷ old)
brought_cons zero n ns old = refl
brought_cons (suc k) n ns old = ground (arith, brought_cons k n ns old)

brought_all : (ns old : List Name) → brought (length ns) ns old ≡ reverse ns ++ old
brought_all [] old = refl
brought_all (n ∷ ns) old =
    brought_cons (length ns) n ns old
    ∙ brought_all ns (n ∷ old)
    ∙ sym (ap (λ xs. xs ++ old) (reverse-cons n ns) ∙ append_assoc (reverse ns) (n ∷ []) old)

length-brought : (k : ℕ) (ns old : List Name) → length (brought k ns old) ≤ k + length old
length-brought zero ns old = omega arith
length-brought (suc k) ns old = ground (arith, length-brought k ns old)

pub length-names : (cs : List Content) → length (names cs) ≡ length cs
length-names [] = refl
length-names (c ∷ cs) = omega (arith, length-names cs)

get_elem?-names :
    (cs : List Content) (k : ℕ) (c : Content)
    → get_elem? cs k ≡ some c
    → get_elem? (names cs) k ≡ some c.pkt.name
get_elem?-names [] k c h = cc
get_elem?-names (x ∷ cs) zero c h = ground arith
get_elem?-names (x ∷ cs) (suc k) c h = get_elem?-names cs k c h

module _ (l : CcnLite) where
  -- An earlier name does not match a later one.
  full-apart :
      (ns : List Name) (j k : ℕ) (a b : Name)
      → FullNames l ns
      → j < k
      → get_elem? ns j ≡ some a
      → get_elem? ns k ≡ some b
      → l.prefix_exact a b ≡ false
  full-apart [] j k a b full lt here there = cc
  full-apart (n ∷ ns) j zero a b full lt here there = absurd (omega arith)
  full-apart (n ∷ ns) zero (suc k) a b full lt here there =
      subst (λ x. l.prefix_exact x b ≡ false) {x = n} (cc)
        (All-get_elem? (λ m. (l.prefix_exact m n ≡ false) × (l.prefix_exact n m ≡ false)) ns k b
          full.1 there).1
  full-apart (n ∷ ns) (suc j) (suc k) a b full lt here there =
      full-apart ns j k a b full.2 (omega (arith, lt)) here there

  brought_apart :
      (j k : ℕ) (ns old : List Name) (b : Name)
      → FullNames l ns
      → j ≤ k
      → get_elem? ns k ≡ some b
      → All (λ m. l.prefix_exact m b ≡ false) old
      → All (λ m. l.prefix_exact m b ≡ false) (brought j ns old)
  brought_apart zero k ns old b full le there apart = apart
  brought_apart (suc j) k ns old b full le there apart =
      let Apart : Name → Type 0 = λ m. l.prefix_exact m b ≡ false in
      let rest = brought_apart j k ns old b full (omega (arith, le)) there apart in
      elim (Option-cases (get_elem? ns j)) [
        | inl gone ↦ subst (λ ms. All Apart ms) (sym (brought_no_more j ns old gone)) rest
        | inr (a, here) ↦
            subst (λ ms. All Apart ms) (sym (brought_more j a ns old here))
              (full-apart ns j k a b full (omega (arith, le)) here there, rest)
      ]

-- The new node has room for the chunks `cs` beside what it has, whose names are `old` and match none
-- of theirs, and memory is there for each.
pub record Takes (s : Setting) (cs : List Content) (old : List Name) : Type 0 where
  pub capacity : ℕ
  pub room : Room s.lite s.strategy capacity
  pub allocates : (k : ℕ) → (a : ℕ) × ((s.new_draw k).alloc ≡ some a)
  pub fits : length cs + length old ≤ capacity
  pub apart : All (λ c. All (λ m. s.lite.prefix_exact m c.pkt.name ≡ false) old) cs

-- The new node does not have the chunk that comes: no entry has the same frame.
abbrev pub Unknown : Setting → List Content → Pair → ℕ → Type 0
Unknown s cs p k =
    (c : Content)
    → get_elem? cs k ≡ some c
    → cont_is_dup p.new.store.contents (set_num k c).pkt ≡ false

module _ (s : Setting) (cs : List Content) (p : Pair) (sends : Sends s) (fair : Fair s cs)
    (along : Along cs p) (unasked : (k : ℕ) → k < length cs → Unasked s cs (after s p k) k)
    (unknown : (k : ℕ) → k < length cs → Unknown s cs (after s p k) k)
    (caches : eqb_ℤ p.new.store.max_entries (pos 0) ≡ false)
    (takes : Takes s cs (names p.new.store.contents)) where
  -- One chunk more.
  copies :
      (k : ℕ)
      → k ≤ length cs
      → (names (after s p k).new.store.contents ≡ brought k (names cs) (names p.new.store.contents))
        × ((after s p k).new.store.max_entries ≡ p.new.store.max_entries)
  unfolding after
  copies zero le = (refl, refl)
  copies (suc k) le =
      let here = after s p k in
      let start = names p.new.store.contents in
      let (so_far, max) = copies k (omega arith) in
      let (on_way, quiet) = Along-after s cs p sends fair along unasked k (omega arith) in
      let ((c, at, came), answer) = chunk_comes s cs p sends fair along unasked k (omega arith) in
      let name = get_elem?-names cs k c at in
      let (chunk, size) = All-get_elem? IsChunk cs k c fair.chunks at in
      let (a, got) = takes.allocates k in
      let stored =
        exchange-store s cs here k sends fair on_way (set_num k c).pkt came
        ∙ consumer_store s.cfg s.lite s.strategy s.me_new a s.face (s.new_draw k)
            (asking s k here.new) (set_num k c).pkt fair.robin fair.release fair.bounces
            (unasked k (omega arith) c at) (unknown k (omega arith) c at) got on_way.new_deputy
            chunk size in
      let apart =
        brought_apart s.lite k k (names cs) start c.pkt.name fair.full (omega arith) name (
          All-get_elem? (λ x. All (λ m. s.lite.prefix_exact m x.pkt.name ≡ false) start) cs k c
            takes.apart at) in
      let (front, max') =
        store-names s.cfg s.lite s.strategy s.me_new takes.capacity a (asking s k here.new).store
          (set_num k c).pkt takes.room (ap (λ x. eqb_ℤ x (pos 0)) max ∙ caches)
          (subst (λ ns. length ns < takes.capacity) (sym so_far)
            (omega (arith, length-brought k (names cs) start, takes.fits)))
          (subst (λ ns. All (λ m. s.lite.prefix_exact m c.pkt.name ≡ false) ns) (sym so_far)
            apart) in
      (
        ap (λ t. names t.contents) stored
            ∙ front
            ∙ ap (λ ns. c.pkt.name ∷ ns) so_far
            ∙ sym (brought_more k c.pkt.name (names cs) start name),
        ap (λ t. t.max_entries) stored ∙ max' ∙ max,
      )

  -- In the setting of `Fair`, where CCN-lite sends entries by their names, the old node is deputy or
  -- hands over and has the chunks `cs`, the new one is deputy, caches, and has room and memory for
  -- them beside what it has; when each comes, no interest for it is pending at the new node, and no
  -- entry there has its frame. When all have come, the names in its store are those of the old node's
  -- chunks, the last in front, and behind them those that it had.
  pub take_over_copies :
      names (after s p (length cs)).new.store.contents
      ≡ reverse (names cs) ++ names p.new.store.contents
  take_over_copies =
      (copies (length cs) (omega arith)).0
      ∙ ap (λ n. brought n (names cs) (names p.new.store.contents)) (sym (length-names cs))
      ∙ brought_all (names cs) (names p.new.store.contents)
