-- ===== src/Dow/Loop/Timer.antt =====
-- The timer that drives the manager, and how a takeover asks for the store of the last deputy.
use miniature_dangerzone.Common.{
  ℕ, zero, suc, ◌+◌, ◌≤◌, ◌<◌, ◌≡◌, refl, true, false, not, ◌&&◌, List, [], ◌∷◌, ◌++◌, Option, some,
  arith, if_both, if_split, if◌then◌else◌, ltb, ◌==◌, ap, u8, ◌∙◌,
}
use miniature_dangerzone.Config.{Config}
use miniature_dangerzone.Dow.{deputy, is_inactive, inactive}
use miniature_dangerzone.Dow.Manager.{
  Manager, Turn, Relay, is_last, wakeup, ask_from, take_over, sleep, cycle, set_mode, set_pit,
}
use miniature_dangerzone.Dow.Wait.{Answer}
use miniature_dangerzone.Dow.Loop.{tick, end_period, end_sleep, end_active, on_second}

-- The timer is set, and the period has at least a second to go.
abbrev pub Ticking : Manager → Type 0
Ticking m = (m.second_timer ≡ true) × (1 ≤ m.period_counter)

sleep-Ticking :
    (cfg : Config) (relay : Relay) (t : Turn) (k : ℕ) (m : Manager)
    → cfg.deputy ≡ false
    → 1 ≤ u8 k
    → Ticking (sleep cfg relay t k m)
unfolding sleep
sleep-Ticking cfg relay t k m plain h = ground arith

end_sleep-Ticking : (cfg : Config) (t : Turn) (m : Manager) → Ticking (end_sleep cfg t m)
unfolding end_sleep
end_sleep-Ticking cfg t m = ground arith

end_active-Ticking :
    (cfg : Config) (relay : Relay) (t : Turn) (m : Manager)
    → cfg.deputy ≡ false
    → Ticking (end_active cfg relay t m)
unfolding end_active
end_active-Ticking cfg relay t m plain =
    let force_awake = cfg.keep_alive_pfx && ltb m.node.interest_count cfg.keep_alive_min_thr in
    let counted =
      (if cfg.keep_alive_pfx
        then record m { node = (record m.node { interest_count = 0 }) }
        else m) in
    if_both Ticking (not force_awake && t.go_sleep) _ _
      (sleep-Ticking cfg relay t cycle (set_mode inactive counted) plain (omega arith))
      (ground arith)

end_period-Ticking :
    (cfg : Config) (relay : Relay) (t : Turn) (m : Manager)
    → cfg.deputy ≡ false
    → Ticking (end_period cfg relay t m)
unfolding end_period
end_period-Ticking cfg relay t m plain =
    if_split Ticking (m.period_counter == 0) _ _
      (λ over.
        if_split Ticking cfg.deputy _ _ (λ robin. absurd (ground (arith, robin, plain)))
          (λ p.
            if_both Ticking (is_inactive m.node.mode) _ _ (end_sleep-Ticking cfg t m)
              (end_active-Ticking cfg relay t m plain)))
      (λ goes_on. (refl, ground (arith, goes_on)))

-- Outside the round-robin build, whatever DOW_MSG_SECOND meets, in every mode and with every draw,
-- the second timer is set again behind it, and the period counter is not 0.
pub on_second-Ticking :
    (cfg : Config) (relay : Relay) (t : Turn) (m : Manager)
    → cfg.deputy ≡ false
    → Ticking (on_second cfg relay t m)
unfolding on_second
on_second-Ticking cfg relay t m plain = end_period-Ticking cfg relay t (tick cfg relay t m) plain

-- The chunk numbers from `cn` on, so many.
abbrev pub up_from : ℕ → ℕ → List (Option ℕ)
up_from cn zero = []
up_from cn (suc k) = some cn ∷ up_from (cn + 1) k

move : (cn i : ℕ) → cn + 1 + i ≡ cn + suc i
move cn i = omega arith

ask_from_stops :
    (answer : ℕ → Answer) (left cn k : ℕ)
    → k < left
    → ((i : ℕ) → i < k → is_last (answer (cn + i)) ≡ false)
    → is_last (answer (cn + k)) ≡ true
    → ask_from answer left cn ≡ up_from cn (suc k)
unfolding ask_from
ask_from_stops answer zero cn k h others stop = absurd (omega arith)
ask_from_stops answer (suc left) cn zero h others stop =
    let ends : is_last (answer cn) ≡ true =
      ap (λ (n : ℕ). is_last (answer n)) (omega arith) ∙ stop in
    rw ends refl
ask_from_stops answer (suc left) cn (suc k) h others stop =
    let goes_on : is_last (answer cn) ≡ false =
      ap (λ (n : ℕ). is_last (answer n)) (omega arith) ∙ others 0 (omega arith) in
    let rest =
      ask_from_stops answer left (cn + 1) k (omega arith)
        (λ i less.
          ap (λ (n : ℕ). is_last (answer n)) (move cn i) ∙ others (suc i) (omega (arith, less)))
        (ap (λ (n : ℕ). is_last (answer n)) (move cn k) ∙ stop) in
    rw (goes_on, rest) refl

wakeup-asked :
    (cfg : Config) (t : Turn) (m : Manager) → cfg.deputy ≡ true → (wakeup cfg t m).asked ≡ m.asked
unfolding wakeup
wakeup-asked cfg t m robin = ground arith

wakeup-node : (cfg : Config) (t : Turn) (m : Manager) → (wakeup cfg t m).node ≡ m.node
unfolding wakeup
wakeup-node cfg t m = ground arith

-- In the round-robin build, where the answer for chunk k is the first that says there are no more
-- chunks, and k is at most CCNLRIOT_CACHE_SIZE + 1: a node that takes over asks for the chunks 0
-- to k, in this order, each once, and is deputy then.
pub take_over-asked :
    (cfg : Config) (relay : Relay) (t : Turn) (m : Manager) (k : ℕ)
    → cfg.deputy ≡ true
    → k < cfg.cache_size + 2
    → ((i : ℕ) → i < k → is_last (t.answer i) ≡ false)
    → is_last (t.answer k) ≡ true
    → ((take_over cfg relay t m).asked ≡ m.asked ++ up_from 0 (suc k))
      × ((take_over cfg relay t m).node.mode ≡ deputy)
unfolding take_over
take_over-asked cfg relay t m k robin room others stop =
    let asks =
      ask_from_stops t.answer (cfg.cache_size + 2) 0 k room
        (λ i less. ap (λ (n : ℕ). is_last (t.answer n)) (omega arith) ∙ others i less)
        (ap (λ (n : ℕ). is_last (t.answer n)) (omega arith) ∙ stop) in
    let noted = record m { last_deputy_ts = t.now } in
    let cleared =
      (if cfg.int_int then set_pit (relay.clear_pit_own m.node.store.pit) noted else noted) in
    let before = wakeup-asked cfg t (set_mode deputy cleared) robin in
    let same = wakeup-node cfg t (set_mode deputy cleared) in
    let kept : cleared.asked ≡ m.asked = ground arith in
    (rw (before, kept, asks) refl, rw same refl)
