-- ===== src/Dow/Takeover/Complete.antt =====
-- A whole takeover: `dow_takeover` of the new deputy over the exchanges with the old one, and what
-- the old one's manager then does.
use miniature_dangerzone.Common.{
  ℕ, zero, suc, ◌≤◌, ◌<◌, ◌≡◌, refl, sym, ap, ◌∙◌, true, some, List, [], ◌∷◌, ◌++◌, map, length,
  get_elem?, arith,
}
use miniature_dangerzone.Config.{Config}
use miniature_dangerzone.Ccn.{Content}
use miniature_dangerzone.Dow.{deputy, inactive, go_inactive}
use miniature_dangerzone.Dow.Wait.{received_chunk, last_cn}
use miniature_dangerzone.Dow.Manager.{
  Manager, Turn, Relay, set_mode, set_pit, is_last, wakeup, take_over, sleep, radio_sleep,
  radio_off,
}
use miniature_dangerzone.Dow.Loop.{handle}
use miniature_dangerzone.Dow.Loop.Timer.{up_from, take_over-asked}
use miniature_dangerzone.Cache.Producer.{set_num}
use miniature_dangerzone.Dow.Takeover.{Pair, Setting, Sends, after, delivered, answers}
use miniature_dangerzone.Dow.Takeover.Entries.{erase}
use miniature_dangerzone.Dow.Takeover.Steps.{Fair, Along, Unasked, exchange_chunk, exchange_end}

take_over_node :
    (cfg : Config) (relay : Relay) (t : Turn) (m : Manager)
    → cfg.int_int ≡ true
    → (take_over cfg relay t m).node
      ≡ record (set_pit (relay.clear_pit_own m.node.store.pit) m).node { mode = deputy }
unfolding take_over wakeup
take_over_node cfg relay t m bounces = ground arith

radio_sleep-mode :
    (cfg : Config) (t : Turn) (m : Manager) → (radio_sleep cfg t m).node.mode ≡ m.node.mode
unfolding radio_sleep radio_off
radio_sleep-mode cfg t m = ground arith

goes_inactive :
    (cfg : Config) (relay : Relay) (t : Turn) (m : Manager)
    → (handle cfg relay t go_inactive m).node.mode ≡ inactive
unfolding handle sleep
goes_inactive cfg relay t m = ground (
  arith,
  radio_sleep-mode cfg t (set_mode inactive (set_pit (relay.clear_pit_but_own m.node.store.pit) m)),
)

module _ (s : Setting) (cs : List Content) (p : Pair) (sends : Sends s) (fair : Fair s cs)
    (along : Along cs p) (unasked : (k : ℕ) → k < length cs → Unasked s cs (after s p k) k) where
  -- The nodes when the first `k` chunks have come.
  pub Along-after :
      (k : ℕ) → k ≤ length cs → Along cs (after s p k) × ((after s p k).old.sent ≡ p.old.sent)
  unfolding after
  Along-after zero le = (along, refl)
  Along-after (suc k) le =
      let (so_far, quiet) = Along-after k (omega arith) in
      let (chunk, next, answer, same, new) =
        exchange_chunk s cs (after s p k) k sends fair so_far (omega arith)
          (unasked k (omega arith)) in
      (next, same ∙ quiet)

  pub chunk_comes :
      (k : ℕ)
      → k < length cs
      → ((c : Content) × (get_elem? cs k ≡ some c) × (delivered s p k ≡ some (set_num k c).pkt))
        × (answers s p k ≡ received_chunk)
  chunk_comes k lt =
      let (so_far, quiet) = Along-after k (omega arith) in
      let (chunk, next, answer, same, new) =
        exchange_chunk s cs (after s p k) k sends fair so_far lt (unasked k lt) in
      (chunk, answer)

  -- In the setting of `Fair`, where CCN-lite sends entries by their names, the old node is deputy or
  -- hands over and has the chunks `cs`, and `dow_takeover` of the new node gets the answers of the
  -- exchanges that begin with the new node as deputy and the interests for its own data cleared, where
  -- no interest for a chunk itself is pending at the new node when that chunk comes. Then it sends
  -- interests for the chunk numbers from 0 to the number of chunks, one for each; what comes back for the k-th is the k-th entry of the old
  -- node's store with the number k, as long as there is one, and then an acknowledgement, with which
  -- it ends. After the exchanges the new node is deputy, the old node's store has the same chunks, and
  -- its manager has got one message more, on which it makes the node inactive.
  pub take_over_complete :
      (relay : Relay) (t told : Turn) (m old : Manager)
      → p.new ≡ record (set_pit (relay.clear_pit_own m.node.store.pit) m).node { mode = deputy }
      → t.answer ≡ answers s p
      → old.node ≡ (after s p (suc (length cs))).old
      → let m' = take_over s.cfg relay t m in
        (m'.asked ≡ m.asked ++ up_from 0 (suc (length cs)))
        × ((k : ℕ)
            → k < length cs
            → (c : Content) × (get_elem? cs k ≡ some c)
              × (delivered s p k ≡ some (set_num k c).pkt))
        × (answers s p (length cs) ≡ last_cn)
        × (m'.node ≡ p.new)
        × ((after s p (suc (length cs))).new.mode ≡ deputy)
        × (map erase old.node.store.contents ≡ cs)
        × (old.node.sent ≡ p.old.sent ++ go_inactive ∷ [])
        × ((handle s.cfg relay told go_inactive old).node.mode ≡ inactive)
  unfolding after
  take_over_complete relay t told m old begins answered behind =
      let n = length cs in
      let (so_far, quiet) = Along-after n (omega arith) in
      let (same, new_deputy, last, sent, new) =
        exchange_end s cs (after s p n) n sends fair so_far refl in
      let (asked, mode) =
        take_over-asked s.cfg relay t m n fair.robin (omega (arith, fair.small))
          (λ j lt. ap (λ f. is_last (f j)) answered ∙ ap is_last (chunk_comes j lt).1)
          (ap (λ f. is_last (f n)) answered ∙ ap is_last last) in
      (
        asked,
        λ k lt. (chunk_comes k lt).0,
        last,
        take_over_node s.cfg relay t m fair.bounces ∙ sym begins,
        new_deputy,
        ap (λ o. map erase o.store.contents) behind ∙ same,
        ap (λ o. o.sent) behind ∙ sent ∙ ap (λ xs. xs ++ go_inactive ∷ []) quiet,
        goes_inactive s.cfg relay told old,
      )
