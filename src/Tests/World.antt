-- ===== src/Tests/World.antt =====
-- A small CCN-lite with room for three entries, which meets what the application relies on, and
-- names, entries and stores for the runs.
use miniature_dangerzone.Common.{
  ℕ, suc, refl, Bool, true, false, none, some, List, [], ◌∷◌, arith, pos, ltb, if◌then◌else◌,
  length,
}
use miniature_dangerzone.Text.{hex8}
use miniature_dangerzone.Dow.{deputy}
use miniature_dangerzone.Dow.Manager.{Manager, Relay}
use miniature_dangerzone.Ccn.{
  Name, Packet, Content, Identity, Store, CcnLite, Removes, Adds, bytes_eq, unlink, unlink_interest,
}

unfoldable pub common : List (List ℕ) → List (List ℕ) → ℕ
unfolding bytes_eq
common [] b = 0
common (x ∷ a) [] = 0
common (x ∷ a) (y ∷ b) = if bytes_eq x y then suc (common a b) else 0

unfoldable pub all_equal : List (List ℕ) → List (List ℕ) → Bool
unfolding bytes_eq
all_equal [] [] = true
all_equal (x ∷ a) (y ∷ b) = if bytes_eq x y then all_equal a b else false
all_equal _ _ = false

abbrev pub push : Store → Content → Store
push s c = record s { contents = c ∷ s.contents }

abbrev pub lite : CcnLite
lite = record {
  prefix_match = λ a b. common a.comps b.comps;
  prefix_exact = λ a b. all_equal a.comps b.comps;
  content_remove = λ c. unlink c.addr;
  interest_remove = λ i. unlink_interest i.addr;
  serve_pending = λ c is. is;
  add2cache = λ strategy s c.
      if ltb (length s.contents) 3 then some (push s c) else some (push (strategy s c) c);
}

pub lite-Removes : Removes lite
lite-Removes = record { content_removed = λ c cs. refl; interest_removed = λ i is. refl }

pub lite-Adds : (strategy : Store → Content → Store) → Adds lite strategy
lite-Adds strategy = record {
  holds_new = λ s s' c added p here. ground arith;
  only_known = λ s s' c added p. ground arith;
  variable_kept = λ s s' c added. ground arith;
}

abbrev pub letter_t : List ℕ
letter_t = b't' ∷ []

-- /t/<letter>/<id>/<time>
abbrev pub named : ℕ → ℕ → ℕ → Name
named letter id time = record {
  comps = letter_t ∷ (letter ∷ []) ∷ hex8 id ∷ hex8 time ∷ [];
  chunknum = none;
}

abbrev pub packet : ℕ → ℕ → ℕ → Packet
packet letter id time = record {
  name = named letter id time;
  contlen = 13;
  value = hex8 time;
  num = pos 0;
  frame = some (hex8 time);
}

abbrev pub entry : ℕ → Bool → ℕ → ℕ → ℕ → Content
entry a newest letter id time = record {
  addr = a;
  pkt = packet letter id time;
  user1 = newest;
  user2 = true;
  static = false;
}

abbrev pub me : Identity
me = record {
  my_id = 7;
  is_registered = true;
  registered = b'x';
  manual_id = false;
  num_src = 0;
  all_pfx = (record { comps = (b'*' ∷ []) ∷ []; chunknum = some (pos 0) });
  my_pfx = (record { comps = letter_t ∷ (b'x' ∷ []) ∷ []; chunknum = some (pos 0) });
}

abbrev pub store_of : List Content → Store
store_of cs = record {
  contents = cs;
  pit = [];
  max_entries = pos 3;
  first_time_full = true;
  flagged_cache = 0;
  prio_cache_cnt = 0;
}

-- Two values of source 1, the newer one flagged, and one of source 2.
abbrev pub full : Store
full = store_of (entry 30 true b'x' 2 50 ∷ entry 20 true b'x' 1 40 ∷ entry 10 false b'x' 1 20 ∷ [])

abbrev pub arrived : Content
arrived = entry 40 false b'x' 3 60

abbrev pub relay : Relay
relay = record {
  clear_pit_but_own = λ is. [];
  clear_pit_own = λ is. is;
  name_of = λ text. record { comps = text ∷ []; chunknum = none };
}

abbrev pub manager : Manager
manager = record {
  node = (record {
    mode = deputy;
    store = full;
    interest_count = 0;
    prevent_sleep = 0;
    presence = [];
    sent = [];
    sleep_timer = none;
  });
  power = (record {
    sleeping = false;
    ts_wakeup = 0;
    ts_sleep = 0;
    time_active = 0;
    time_sleeping = 0;
  });
  me = me;
  size = 1;
  period_counter = 1;
  sleep_period = 0;
  last_deputy_ts = 0;
  phase_counter = 3;
  second_timer = true;
  data_timer = none;
  radio_timer = none;
  commands = [];
  asked = [];
  published = 0;
  beacons = 0;
  is_source = true;
  sensors = [];
  old_data = 0;
  send_old_data = false;
  produced = [];
}
