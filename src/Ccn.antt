-- ===== src/Ccn.antt =====
-- The data of CCN-lite that the caching application reads and writes (ccnl_caching/ccnl_helper.c),
-- and what it calls in CCN-lite, which is no part of the repository, as the record `CcnLite`.
pub mod Unlink
use miniature_dangerzone.Common.{
  ℕ, ◌+◌, ◌≤◌, ◌≡◌, ◌⊎◌, Bool, true, Option, some, List, [], ◌∷◌, ℤ, ◌==◌, if◌then◌else◌, length,
  get_or, take, count_if, All, false, ◌&&◌,
}
use mathlib.Core.List.{Memᴰ}
use miniature_dangerzone.Text.{strtol16}

-- struct ccnl_prefix_s: the components of a name as bytes, and the chunk number, which may be NULL.
pub record Name : Type 0 where
  pub comps : List (List ℕ)
  pub chunknum : Option ℤ

-- compcnt
abbrev pub compcnt : Name → ℕ
compcnt p = length p.comps

-- comp[i]. The source reads past the array where there is no such component; that read is
-- undefined, and here it finds no bytes. A component is not ended by NUL: the byte behind it is a
-- type octet of the packet, at which `strtol` stops, as it does at the end of the list.
abbrev pub comp : Name → ℕ → List ℕ
comp p i = get_or p.comps i []

-- struct ccnl_pkt_s, with the payload read as `dow_content_t`: the text and the chunk number.
-- `frame` is what `buf` holds, if it is not NULL, with -1 for the chunk number: two packets are
-- compared in this form only.
pub record Packet : Type 0 where
  pub name : Name
  pub contlen : ℕ
  pub value : List ℕ
  pub num : ℤ
  pub frame : Option (List ℕ)

-- struct ccnl_content_s: its address, which is its identity, and the three flags that are used.
pub record Content : Type 0 where
  pub addr : ℕ
  pub pkt : Packet
  pub user1 : Bool  -- CCNL_CONTENT_FLAGS_USER1: the newest value of its source
  pub user2 : Bool  -- CCNL_CONTENT_FLAGS_USER2: added since the cache was full for the first time
  pub static : Bool  -- CCNL_CONTENT_FLAGS_STATIC: never replaced

-- The time stamp that the fourth component of a name spells, as `strtol` reads it.
unfoldable pub stamp : Content → ℤ
stamp c = strtol16 (comp c.pkt.name 3)

-- struct ccnl_interest_s, as far as it is read: the face it came from, and that of its first pending entry.
pub record Interest : Type 0 where
  pub addr : ℕ
  pub name : Name
  pub face : ℕ  -- i->from->faceid
  pub pending : ℕ  -- i->pending->face

-- What the node knows of itself: `dow_my_id`, `dow_is_registered`, the letter
-- `dow_registered_prefix[1]`, `dow_manual_id`, `dow_num_src`, and the two names
-- `ccnl_helper_all_pfx` and `ccnl_helper_my_pfx`.
pub record Identity : Type 0 where
  pub my_id : ℕ
  pub is_registered : Bool
  pub registered : ℕ
  pub manual_id : Bool
  pub num_src : ℕ
  pub all_pfx : Name
  pub my_pfx : Name

-- The content store of `ccnl_relay` and the variables of ccnl_helper.c that go with it.
pub record Store : Type 0 where
  pub contents : List Content
  pub pit : List Interest
  pub max_entries : ℤ  -- max_cache_entries; -1 is no limit
  pub first_time_full : Bool  -- _first_time_full
  pub flagged_cache : ℕ  -- ccnl_helper_flagged_cache
  pub prio_cache_cnt : ℕ  -- dow_prio_cache_cnt

-- What the application calls in CCN-lite. `prefix_match a b` is `ccnl_prefix_cmp(a, NULL, b,
-- CMP_MATCH)`, the number of leading components in common, and a negative result, which no test of
-- the source tells from 0, is 0. `prefix_exact a b` says that the comparison by CMP_EXACT is 0.
-- `content_remove`, `interest_remove`, `serve_pending` and `add2cache` change the relay; the last calls the
-- strategy that the application has registered, and answers `none` for NULL.
pub record CcnLite : Type 0 where
  pub prefix_match : Name → Name → ℕ
  pub prefix_exact : Name → Name → Bool
  pub content_remove : Content → List Content → List Content
  pub interest_remove : Interest → List Interest → List Interest
  pub serve_pending : Content → List Interest → List Interest
  pub add2cache : (Store → Content → Store) → Store → Content → Option Store

-- `memcmp(a, b, n) == 0`. A component shorter than that is unequal to every longer text.
unfoldable pub bytes_eq : List ℕ → List ℕ → Bool
bytes_eq [] [] = true
bytes_eq [] (_ ∷ _) = false
bytes_eq (_ ∷ _) [] = false
bytes_eq (x ∷ xs) (y ∷ ys) = x == y && bytes_eq xs ys

abbrev pub memcmp_eq : ℕ → List ℕ → List ℕ → Bool
memcmp_eq n a b = bytes_eq (take n a) (take n b)

-- The entry of an address taken out of a store.
unfoldable pub unlink : ℕ → List Content → List Content
unlink a [] = []
unlink a (c ∷ cs) = if c.addr == a then cs else c ∷ unlink a cs

unfoldable pub unlink_interest : ℕ → List Interest → List Interest
unlink_interest a [] = []
unlink_interest a (i ∷ is) = if i.addr == a then is else i ∷ unlink_interest a is

-- What the application relies on: removing takes out the entry at that address and no other.
pub record Removes (l : CcnLite) : Type 0 where
  pub content_removed : (c : Content) (cs : List Content) → l.content_remove c cs ≡ unlink c.addr cs
  pub interest_removed :
      (i : Interest) (is : List Interest) → l.interest_remove i is ≡ unlink_interest i.addr is

-- What the application relies on: an accepted entry is in the store. Beside it the store holds
-- nothing but what it held before, or what the strategy left of that, if it was called. All is said
-- by counting the entries that pass a test. A variable of the application changes in the strategy
-- alone.
pub record Adds (l : CcnLite) (strategy : Store → Content → Store) : Type 0 where
  pub holds_new :
      (s s' : Store) (c : Content)
      → l.add2cache strategy s c ≡ some s'
      → (p : Content → Bool) → p c ≡ true
      → 1 ≤ count_if p s'.contents
  pub only_known :
      (s s' : Store) (c : Content)
      → l.add2cache strategy s c ≡ some s'
      → (p : Content → Bool)
      → (count_if p s'.contents ≤ count_if p (c ∷ s.contents))
        ⊎ (count_if p s'.contents ≤ count_if p (c ∷ (strategy s c).contents))
  pub variable_kept :
      (s s' : Store) (c : Content)
      → l.add2cache strategy s c ≡ some s'
      → (s'.prio_cache_cnt ≡ s.prio_cache_cnt) ⊎ (s'.prio_cache_cnt ≡ (strategy s c).prio_cache_cnt)

-- No two entries of a store have one address.
abbrev pub Distinct : List Content → Type 0
Distinct [] = Unit
Distinct (c ∷ cs) = All (λ x. (x.addr == c.addr) ≡ false) cs × Distinct cs
