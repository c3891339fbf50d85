-- ===== src/Dow/Takeover/Steps.antt =====
-- One step of a takeover: what the callbacks of the two nodes do with one chunk number.
use mathlib.Core.Path.{subst}
use miniature_dangerzone.Common.{
  ℕ, ◌≤◌, ◌<◌, ◌≡◌, ◌⊎◌, inl, inr, any_if, Option-cases, refl, sym, ap, ◌∙◌, true, false, none,
  some, List, [], ◌∷◌, ◌++◌, map, pos, length, get_elem?, All, arith, leb, ltb_ℤ, sub32,
}
use miniature_dangerzone.Text.Buffer.{overwrite}
use miniature_dangerzone.Config.{Config}
use miniature_dangerzone.Ccn.{
  Name, Packet, Content, Identity, Store, CcnLite, Distinct, memcmp_eq, bytes_eq,
}
use miniature_dangerzone.Dow.{deputy, handover, received, received_ack, go_inactive, Node}
use miniature_dangerzone.Dow.Wait.{
  received_chunk, last_cn, Arrival, Round, Waiter, Result, got, ack_bytes, helper_int, try_loop,
  wait_for_chunk, wait_loop, hear, is_negative, patience,
}
use miniature_dangerzone.Cache.Newest.{change_at}
use miniature_dangerzone.Cache.Consumer.{
  Draw, Outcome, cont_ack, dow_content_size, is_ack, cache_it, offered, asked_content, unexpected,
  match_pit, consumer,
}
use miniature_dangerzone.Cache.Producer.{
  Reply, set_num, fall_back, reply, answer, find_exact, bounced, producer,
}
use miniature_dangerzone.Cache.Packets.{Payload, cleared, create_cont, ack_of, send_ack, my_cont}
use miniature_dangerzone.Cache.Producer.Handover.{Asked, producer_serves, producer_ends, walk_found}
use miniature_dangerzone.Dow.Takeover.{
  Pair, Setting, request, ack_packet, came_back, answer_to, old_reply, asking, exchange, Sends,
  FullNames,
}
use miniature_dangerzone.Dow.Takeover.Entries.{
  erase, names, length-map-erase, names-map-erase, get_elem?-map-erase, get_elem?_below,
  All-get_elem?, erase-change_at, change_at_found,
}

-- The clock has not run out when the message is looked for.
abbrev pub InTime : Setting → ℕ → Type 0
InTime s k = is_negative (sub32 (patience s.retransmit) (sub32 (s.read k) (s.start k))) ≡ false

-- A first message that ends the wait gives its result.
wait_ends :
    (retransmit start : ℕ) (r : Round) (w w' : Waiter) (result : Result)
    → is_negative (sub32 (patience retransmit) (sub32 r.read start)) ≡ false
    → hear false r.message w ≡ (some result, w')
    → wait_for_chunk retransmit false start (r ∷ []) w ≡ some (result, w')
unfolding wait_for_chunk wait_loop
wait_ends retransmit start r w w' result time heard = rw time (ground arith)

-- The answer to one message.
answer_received :
    (s : Setting) (k : ℕ) → InTime s k → answer_to s k (received ∷ []) ≡ received_chunk
unfolding answer_to helper_int try_loop hear bytes_eq
answer_received s k time =
    let ends =
      wait_ends s.retransmit (s.start k) (record { read = s.read k; message = Arrival.received })
        (record s.waiter { buffer = [] }) (record s.waiter { buffer = [] }) (got 1) time refl in
    rw (ends, answer_to, helper_int, try_loop)

answer_ack : (s : Setting) (k : ℕ) → InTime s k → answer_to s k (received_ack ∷ []) ≡ last_cn
unfolding answer_to helper_int try_loop hear bytes_eq
answer_ack s k time =
    let ends =
      wait_ends s.retransmit (s.start k)
        (record { read = s.read k; message = Arrival.received_ack })
        (record s.waiter { buffer = [] }) (record s.waiter { buffer = ack_bytes }) (got 4) time
        refl in
    rw (ends, answer_to, helper_int, try_loop)

module _ (cfg : Config) (l : CcnLite) (me : Identity) where
  -- Serving a chunk writes its number into the entry, and sends the manager nothing.
  producer_numbers :
      (d : Draw) (n : Node) (pkt : Packet) (k : ℕ) (c : Content)
      → Asked cfg l me n pkt k
      → cfg.deputy ≡ true
      → k < cfg.cache_size
      → get_elem? n.store.contents k ≡ some c
      → let r = producer cfg l me d n pkt in
        (r.node.store.contents ≡ change_at c.addr (set_num k) n.store.contents)
        × (r.node.sent ≡ n.sent)
  unfolding producer answer reply fall_back
  producer_numbers d n pkt k c asked robin small e = ground (
    arith,
    asked,
    walk_found cfg l me asked.unregistered k k 0 none n.store.contents c (omega arith) e
        (omega arith),
  )

module _ (cfg : Config) (l : CcnLite) (strategy : Store → Content → Store) (me : Identity) where
  -- A deputy that has asked for a chunk for which no other interest is pending tells the manager that
  -- it has come.
  consumer_hears :
      (from : ℕ) (d : Draw) (n : Node) (pkt : Packet)
      → cfg.deputy ≡ true
      → cfg.debug ≡ false
      → cfg.int_int ≡ true
      → match_pit cfg l strategy me from d.loopback pkt.name n.store.pit ≡ none
      → n.mode ≡ deputy
      → n.sent ≡ []
      → memcmp_eq 3 pkt.value cont_ack ≡ false
      → pkt.contlen ≡ dow_content_size
      → ltb_ℤ pkt.num (pos 0) ≡ false
      → let o = consumer cfg l strategy me from d n pkt in
        (o.node.sent ≡ received ∷ []) × (o.node.mode ≡ deputy)
  unfolding consumer unexpected asked_content offered cache_it
  consumer_hears from d n pkt robin release bounces alone duty quiet chunk size num = ground arith

  consumer_hears_ack :
      (from : ℕ) (d : Draw) (n : Node) (pkt : Packet)
      → n.mode ≡ deputy
      → n.sent ≡ []
      → is_ack cfg l strategy me pkt ≡ true
      → let o = consumer cfg l strategy me from d n pkt in
        (o.node.sent ≡ received_ack ∷ []) × (o.node.mode ≡ deputy)
  unfolding consumer
  consumer_hears_ack from d n pkt duty quiet ack = ground arith

-- A chunk, and no acknowledgement.
abbrev pub IsChunk : Content → Type 0
IsChunk c = (memcmp_eq 3 c.pkt.value cont_ack ≡ false) × (c.pkt.contlen ≡ dow_content_size)

-- The round-robin build with DOW_INT_INT and without DOW_DEBUG, DOW_PSR and DOW_RAND_SEEDING; a node
-- that has registered for no letter gives the chunks `cs`, without their numbers, to another; both read
-- the interests and the acknowledgements as such for any data, no chunk is called like such an interest,
-- acknowledgements can be built, and every answer comes in time. The store is no larger than
-- CCNLRIOT_CACHE_SIZE, its entries are chunks under full and different names, and their addresses differ.
pub record Fair (s : Setting) (cs : List Content) : Type 0 where
  pub robin : s.cfg.deputy ≡ true
  pub release : s.cfg.debug ≡ false
  pub bounces : s.cfg.int_int ≡ true
  pub no_threshold : s.cfg.psr ≡ 0
  pub no_draw : s.cfg.rand_seeding ≡ false
  pub unregistered : s.me_old.is_registered ≡ false
  pub for_all : (k : ℕ) → leb 1 (s.lite.prefix_match s.me_old.all_pfx (request s k).name) ≡ true
  pub ack_for_all : leb 1 (s.lite.prefix_match s.me_new.all_pfx s.me_old.all_pfx) ≡ true
  pub not_named : (k : ℕ) → All (λ n. s.lite.prefix_exact n (request s k).name ≡ false) (names cs)
  pub acks : (k : ℕ) → (s.old_draw k).ack_built ≡ true
  pub in_time : (k : ℕ) → InTime s k
  pub small : length cs ≤ s.cfg.cache_size
  pub distinct : Distinct cs
  pub full : FullNames s.lite (names cs)
  pub chunks : All IsChunk cs

-- No interest for a chunk itself is pending at the new node when that chunk comes.
abbrev pub Unasked : Setting → List Content → Pair → ℕ → Type 0
Unasked s cs p k =
    (c : Content)
    → get_elem? cs k ≡ some c
    → match_pit s.cfg s.lite s.strategy s.me_new s.face (s.new_draw k).loopback c.pkt.name
        (asking s k p.new).store.pit
      ≡ none

-- The two nodes on the way: the old one has these chunks, and is deputy or hands over; the new one is
-- deputy.
pub record Along (cs : List Content) (p : Pair) : Type 0 where
  pub erased : map erase p.old.store.contents ≡ cs
  pub on_duty : (p.old.mode ≡ deputy) ⊎ (p.old.mode ≡ handover)
  pub new_deputy : p.new.mode ≡ deputy

not_negative : (k : ℕ) → ltb_ℤ (pos k) (pos 0) ≡ false
not_negative k = ground arith

came_back_content :
    (s : Setting) (r : Reply) (pkt : Packet)
    → r.ack ≡ none
    → r.handled ≡ false
    → s.content_for r.name r.node.store.contents ≡ some pkt
    → came_back s r ≡ some pkt
unfolding came_back
came_back_content s r pkt no_ack open_ found = ground arith

came_back_ack :
    (s : Setting) (r : Reply) (i : ℕ)
    → r.ack ≡ some i
    → (payload : Payload) × (memcmp_eq 3 payload.value cont_ack ≡ true)
      × (payload.num ≡ pos i)
      × (came_back s r ≡ some (ack_packet s payload))
unfolding came_back send_ack create_cont ack_of my_cont bytes_eq
came_back_ack s r i ack =
    (record { value = overwrite (cont_ack ++ 0 ∷ []) cleared; num = pos i }, refl, refl, rw ack)

module _ (cfg : Config) (l : CcnLite) (me : Identity) where
  none-named :
      (q : Name) (cs : List Content)
      → All (λ n. l.prefix_exact n q ≡ false) (names cs)
      → any_if (λ c. l.prefix_exact c.pkt.name q) cs ≡ false
  none-named q [] apart = refl
  none-named q (c ∷ cs) apart = ground (arith, apart, none-named q cs apart.1)

  bounced-none :
      (n : Node) (pkt : Packet)
      → any_if (λ c. l.prefix_exact c.pkt.name pkt.name) n.store.contents ≡ false
      → bounced cfg l me n pkt ≡ none
  unfolding bounced
  bounced-none n pkt absent = elim (Option-cases (find_exact cfg l me pkt.name n.store.pit)) [
    | inl gone ↦ rw (gone, bounced) refl
    | inr (i, found) ↦ rw (found, absent, bounced) refl
  ]

module _ (s : Setting) (cs : List Content) (p : Pair) (k : ℕ) (sends : Sends s) (fair : Fair s cs)
    (along : Along cs p) where
  Asked-here : Asked s.cfg s.lite s.me_old p.old (request s k) k
  Asked-here = record {
    no_bounce = inr (
        bounced-none s.cfg s.lite s.me_old p.old (request s k) (
          none-named s.cfg s.lite s.me_old (request s k).name p.old.store.contents (
            subst (All (λ n. s.lite.prefix_exact n (request s k).name ≡ false))
              (sym (ap names along.erased) ∙ names-map-erase p.old.store.contents)
              (fair.not_named k))));
    no_threshold = fair.no_threshold;
    no_draw = fair.no_draw;
    unregistered = fair.unregistered;
    on_duty = along.on_duty;
    for_all = fair.for_all k;
    chunk = refl;
  }

  length_here : length p.old.store.contents ≡ length cs
  length_here = sym (length-map-erase p.old.store.contents) ∙ ap length along.erased

  -- The entry, and what the old node sends: that entry with its number. Its store has the same
  -- chunks, and it tells its manager nothing.
  came_chunk :
      (c : Content)
      → get_elem? p.old.store.contents k ≡ some c
      → k < length cs
      → let r = old_reply s k p in
        (came_back s r ≡ some (set_num k c).pkt)
        × (map erase r.node.store.contents ≡ cs)
        × (r.node.mode ≡ handover)
        × (r.node.sent ≡ p.old.sent)
  came_chunk c at lt =
      let lt' : k < s.cfg.cache_size = omega (arith, fair.small) in
      let (handled, name, ack, mode) =
        producer_serves s.cfg s.lite s.me_old (s.old_draw k) p.old (request s k) k c Asked-here
          fair.robin lt' at in
      let (contents, sent) =
        producer_numbers s.cfg s.lite s.me_old (s.old_draw k) p.old (request s k) k c Asked-here
          fair.robin lt' at in
      let same = erase-change_at c.addr k p.old.store.contents ∙ along.erased in
      let found =
        change_at_found k p.old.store.contents k c (subst Distinct (sym along.erased) fair.distinct)
          at in
      let changed = change_at c.addr (set_num k) p.old.store.contents in
      let full =
        subst (FullNames s.lite) (sym (sym (names-map-erase changed) ∙ ap names same)) fair.full in
      let sent_back = sends changed k (set_num k c) full found in
      (
        came_back_content s (old_reply s k p) (set_num k c).pkt ack handled (cc),
        ap (map erase) contents ∙ same,
        mode,
        sent,
      )

  heard_from : Packet → Outcome
  heard_from pkt =
      consumer s.cfg s.lite s.strategy s.me_new s.face (s.new_draw k) (asking s k p.new) pkt

  exchange_came :
      (pkt : Packet)
      → came_back s (old_reply s k p) ≡ some pkt
      → exchange s k p ≡ (
        record {
          old = (old_reply s k p).node;
          new = record (heard_from pkt).node { sent = p.new.sent };
        },
        answer_to s k (heard_from pkt).node.sent,
      )
  unfolding exchange heard_from
  exchange_came pkt came = rw (came, exchange)

  pub exchange-store :
      (pkt : Packet)
      → came_back s (old_reply s k p) ≡ some pkt
      → (exchange s k p).0.new.store
        ≡ (consumer s.cfg s.lite s.strategy s.me_new s.face
            (s.new_draw k)
            (asking s k p.new)
            pkt).node.store
  unfolding heard_from
  exchange-store pkt came = ap (λ x. x.0.new.store) (exchange_came pkt came)

  -- The exchange for a chunk that the old node has.
  pub exchange_chunk :
      k < length cs
      → Unasked s cs p k
      → let q = (exchange s k p).0 in
        ((c : Content) × (get_elem? cs k ≡ some c)
          × (came_back s (old_reply s k p) ≡ some (set_num k c).pkt))
        × Along cs q
        × ((exchange s k p).1 ≡ received_chunk)
        × (q.old.sent ≡ p.old.sent)
        × (q.new.sent ≡ p.new.sent)
  unfolding heard_from
  exchange_chunk lt unasked =
      let (c, at) = get_elem?_below p.old.store.contents k (omega (arith, length_here)) in
      let (came, same, mode, quiet) = came_chunk c at lt in
      let here =
        subst (λ xs. get_elem? xs k ≡ some (erase c)) along.erased
          (get_elem?-map-erase p.old.store.contents k c at) in
      let (chunk, size) = All-get_elem? IsChunk cs k (erase c) fair.chunks here in
      let (heard, deputy_still) =
        consumer_hears s.cfg s.lite s.strategy s.me_new s.face (s.new_draw k) (asking s k p.new)
          (set_num k c).pkt fair.robin fair.release fair.bounces (unasked (erase c) here)
          along.new_deputy refl chunk size (not_negative k) in
      let e = exchange_came (set_num k c).pkt came in
      let answered = answer_received s k (fair.in_time k) in
      (
        (erase c, here, came),
        record {
          erased = ap (λ x. map erase x.0.old.store.contents) e ∙ same;
          on_duty = inr (ap (λ x. x.0.old.mode) e ∙ mode);
          new_deputy = ap (λ x. x.0.new.mode) e ∙ deputy_still;
        },
        ap (λ x. x.1) e ∙ ap (answer_to s k) heard ∙ answered,
        ap (λ x. x.0.old.sent) e ∙ quiet,
        ap (λ x. x.0.new.sent) e,
      )

  -- The exchange behind the last one: an acknowledgement comes, and the old node's manager is told to
  -- go inactive.
  pub exchange_end :
      k ≡ length cs
      → let q = (exchange s k p).0 in
        (map erase q.old.store.contents ≡ cs)
        × (q.new.mode ≡ deputy)
        × ((exchange s k p).1 ≡ last_cn)
        × (q.old.sent ≡ p.old.sent ++ go_inactive ∷ [])
        × (q.new.sent ≡ p.new.sent)
  unfolding heard_from
  exchange_end last =
      let (handled, ack, told, store) =
        producer_ends s.cfg s.lite s.me_old (s.old_draw k) p.old (request s k) k Asked-here
          fair.robin (fair.acks k) (omega (arith, length_here))
          (omega (arith, length_here, fair.small)) in
      let (payload, is_ack, num, came) =
        came_back_ack s (old_reply s k p) (length p.old.store.contents) ack in
      let (heard, deputy_still) =
        consumer_hears_ack s.cfg s.lite s.strategy s.me_new s.face (s.new_draw k) (asking s k p.new)
          (ack_packet s payload) along.new_deputy refl (rw (fair.ack_for_all, is_ack)) in
      let answered = answer_ack s k (fair.in_time k) in
      let e = exchange_came (ack_packet s payload) came in
      (
        ap (λ x. map erase x.0.old.store.contents) e
            ∙ ap (λ t. map erase t.contents) store
            ∙ along.erased,
        ap (λ x. x.0.new.mode) e ∙ deputy_still,
        ap (λ x. x.1) e ∙ ap (answer_to s k) heard ∙ answered,
        ap (λ x. x.0.old.sent) e ∙ told,
        ap (λ x. x.0.new.sent) e,
      )
