-- ===== src/Dow/System/Wakes.antt =====
-- In the round-robin build an inactive node is always woken up.
use mathlib.Core.Path.{subst}
use miniature_dangerzone.Common.{
  ℕ, ◌+◌, ◌≤◌, ◌<◌, ◌≡◌, ◌⊎◌, ◌||◌, inl, inr, refl, sym, ap, ◌∙◌, Bool, true, false, arith, u8,
  sub16, sub32, if_both, if_split, Bool-cases, Option-cases, ltb, none, some, if◌then◌else◌, ◌==◌,
  not, ◌&&◌,
}
use miniature_dangerzone.Config.{Config}
use miniature_dangerzone.Dow.{
  Mode, deputy, inactive, is_inactive, is_deputy, Msg, second, takeover, newdata, go_inactive,
  backtosleep, beacon, beacon_end, received, received_ack, received_int,
}
use miniature_dangerzone.Dow.Manager.{
  Manager, Turn, Relay, set_mode, radio_off, radio_sleep, wakeup, take_over, sleep,
}
use miniature_dangerzone.Ccn.{Packet}
use miniature_dangerzone.Cache.Consumer.{Draw, consumer}
use miniature_dangerzone.Cache.Consumer.Frame.{consumer-Framed}
use miniature_dangerzone.Cache.Producer.{producer}
use miniature_dangerzone.Shell.{Command, stop, prefix, sensor, sub_prefix, add_sensor, run_command}
use miniature_dangerzone.Dow.System.{
  Env, put_node, Step, hears_interest, hears_content, delivers, ticks, data_due, radio_due,
  sleep_due, commanded, Reaches, here, next,
}
use miniature_dangerzone.Dow.System.Callbacks.{producer_mode}
use miniature_dangerzone.Dow.Power.{boot}
use miniature_dangerzone.Dow.Wait.{helper_int}
use miniature_dangerzone.Dow.Wait.Ends.{helper_int_period}
use miniature_dangerzone.Dow.Data.{event_delay, new_data, choose_data, make_item}
use miniature_dangerzone.Dow.Loop.{
  phase, reconsider_letter, tick, end_period, on_second, on_new_data, on_received, handle, start,
  waiter_of, populate_data,
}

-- What drives the manager.
abbrev pub Clock : Type 0
Clock = Mode × Bool × ℕ × ℕ

abbrev pub clock : Manager → Clock
clock m = (m.node.mode, m.second_timer, m.period_counter, m.size)

pub radio_sleep-clock :
    (cfg : Config) (t : Turn) (m : Manager) → clock (radio_sleep cfg t m) ≡ clock m
unfolding radio_sleep radio_off
radio_sleep-clock cfg t m = ground arith

pub wakeup-clock : (cfg : Config) (t : Turn) (m : Manager) → clock (wakeup cfg t m) ≡ clock m
unfolding wakeup
wakeup-clock cfg t m = ground arith

pub new_data-clock : (cfg : Config) (t : Turn) (m : Manager) → clock (new_data cfg t m) ≡ clock m
unfolding new_data choose_data make_item
new_data-clock cfg t m = ground arith

phase-clock :
    (cfg : Config) (relay : Relay) (t : Turn) (m : Manager) → clock (phase cfg relay t m) ≡ clock m
unfolding phase reconsider_letter
phase-clock cfg relay t m = ground arith

-- 255 rounds of DOW_Y seconds
abbrev pub longest : ℕ
longest = 6120

-- The number of nodes fits its byte, and where the node is inactive, its second timer is set and there
-- are between one and so many seconds to go.
abbrev pub Waking : Clock → Type 0
Waking c =
    (2 ≤ c.3)
    × (c.3 ≤ 256)
    × ((is_inactive c.0 ≡ false) ⊎ ((c.1 ≡ true) × (1 ≤ c.2) × (c.2 ≤ longest)))

module _ (cfg : Config) (relay : Relay) (t : Turn) (robin : cfg.deputy ≡ true) where
  take_over-Waking :
      (m : Manager) → 2 ≤ m.size → m.size ≤ 256 → Waking (clock (take_over cfg relay t m))
  unfolding take_over wakeup
  take_over-Waking m two few = ground arith

  sleep-Waking :
      (k : ℕ) (m : Manager)
      → 1 ≤ u8 k
      → 2 ≤ m.size
      → m.size ≤ 256
      → Waking (clock (sleep cfg relay t k m))
  unfolding sleep radio_sleep radio_off
  sleep-Waking k m some_ two few = ground arith

  pub tick_clock :
      (m : Manager)
      → let m' = tick cfg relay t m in
        (m'.node.mode ≡ m.node.mode)
        × (m'.size ≡ m.size)
        × ((m'.period_counter ≡ 0) ⊎ (m'.period_counter ≡ sub32 m.period_counter 1))
  unfolding tick
  tick_clock m =
      let ticked = record m { second_timer = false; period_counter = sub32 m.period_counter 1 } in
      let same = phase-clock cfg relay t ticked in
      let mode = ap (λ (c : Clock). c.0) same in
      let pc = ap (λ (c : Clock). c.2) same in
      let size = ap (λ (c : Clock). c.3) same in (ground arith, ground arith, ground arith)

  on_second-Waking : (m : Manager) → Waking (clock m) → Waking (clock (on_second cfg relay t m))
  unfolding on_second end_period
  on_second-Waking m w =
      let m' = tick cfg relay t m in
      let (mode, size, pc) = tick_clock m in
      if_split (λ (k : Manager). Waking (clock k)) (m'.period_counter == 0) _ _
        (λ over.
          if_split (λ (k : Manager). Waking (clock k)) cfg.deputy _ _
            (λ yes_. take_over-Waking m' (omega (arith, size, w)) (omega (arith, size, w)))
            (λ plain. absurd (ground (arith, robin, plain))))
        (λ more.
          (omega (arith, size, w), omega (arith, size, w), ground (arith, more, w, mode, pc)))

  on_new_data-Waking : (m : Manager) → Waking (clock m) → Waking (clock (on_new_data cfg t m))
  unfolding on_new_data
  on_new_data-Waking m w =
      let m' = (if m.is_source then new_data cfg t m else m) in
      let same : clock m' ≡ clock m =
        if_both (λ (k : Manager). clock k ≡ clock m) m.is_source _ _ (new_data-clock cfg t m)
          refl in
      if_both (λ (k : Manager). Waking (clock k)) (not cfg.int_int && is_inactive m'.node.mode) _ _
        (subst Waking (sym (radio_sleep-clock cfg t m' ∙ same)) w) (subst Waking (sym same) w)

  populate_data-Waking : (m : Manager) → Waking (clock m) → Waking (clock (populate_data cfg t m))
  unfolding populate_data
  populate_data-Waking m w =
      let woken = wakeup cfg t m in
      let w' : Waking (clock woken) = subst Waking (sym (wakeup-clock cfg t m)) w in
      elim (Option-cases (helper_int t.retransmit true t.waits (waiter_of woken))) [
        | inl stuck ↦ rw stuck w'
        | inr ((sent, reply, left), ends) ↦ rw ends (
          w'.0,
          w'.1,
          elim w'.2 [
            | inl awake ↦ inl awake
            | inr (set, some_, few) ↦
                let kept =
                  helper_int_period t.retransmit true t.waits (waiter_of woken) left sent reply
                    some_ (omega (arith, few)) ends in
                inr (ap (λ b. b || ltb 0 left.seconds) set, kept.0, omega (arith, kept, few))
          ],
        )
      ]

  on_received-Waking : (m : Manager) → Waking (clock m) → Waking (clock (on_received cfg t m))
  unfolding on_received
  on_received-Waking m w =
      let counted = record m {
        node = (record m.node { prevent_sleep = u8 (m.node.prevent_sleep + 1) });
      } in
      if_both (λ (k : Manager). Waking (clock k)) (not cfg.int_int || is_deputy m.node.mode) _ _ w
        (populate_data-Waking counted w)

  -- Whatever message comes.
  pub handle-Waking :
      (msg : Msg) (m : Manager) → Waking (clock m) → Waking (clock (handle cfg relay t msg m))
  unfolding handle
  handle-Waking second m w = on_second-Waking m w
  handle-Waking takeover m w =
      if_both (λ (k : Manager). Waking (clock k)) cfg.deputy _ _ (take_over-Waking m w.0 w.1) w
  handle-Waking newdata m w = on_new_data-Waking m w
  handle-Waking go_inactive m w = sleep-Waking (sub16 m.size 1) m (omega (arith, w)) w.0 w.1
  handle-Waking backtosleep m w =
      if_both (λ (k : Manager). Waking (clock k)) (is_inactive m.node.mode) _ _
        (subst Waking (sym (radio_sleep-clock cfg t m)) w) w
  handle-Waking beacon m w = w
  handle-Waking beacon_end m w = w
  handle-Waking received m w = on_received-Waking m w
  handle-Waking received_ack m w = w
  handle-Waking received_int m w = w

  -- A node that is not the first sleeps at the start.
  asleep_at_start : Manager → Manager
  asleep_at_start m =
      let timed = record m { power = boot t.now; data_timer = some (event_delay t) } in
      set_mode inactive (record timed { last_deputy_ts = t.now })

  start_clock :
      (position : ℕ) (m : Manager)
      → cfg.debug ≡ false
      → (((start cfg relay t position m).node.mode ≡ deputy)
          × ((start cfg relay t position m).size ≡ m.size))
        ⊎ ((1 ≤ position)
            × (start cfg relay t position m ≡ sleep cfg relay t position (asleep_at_start m)))
  unfolding start asleep_at_start
  start_clock position m release = elim (Bool-cases (position == 0)) [
    | inl first ↦ inl (ground (arith, first), ground (arith, first))
    | inr other ↦ inr (ground (arith, other), ground (arith, other))
  ]

  start-Waking :
      (position : ℕ) (m : Manager)
      → cfg.debug ≡ false
      → position < 256
      → 2 ≤ m.size
      → m.size ≤ 256
      → Waking (clock (start cfg relay t position m))
  unfolding asleep_at_start
  start-Waking position m release near two few = elim (start_clock position m release) [
    | inl (awake, size) ↦ (omega (arith, size), omega (arith, size), inl (ground (arith, awake)))
    | inr (other, same) ↦
        subst (λ (k : Manager). Waking (clock k)) (sym same)
          (sleep-Waking position (asleep_at_start m) (omega (arith, other)) two few)
  ]

module _ (e : Env) (robin : e.cfg.deputy ≡ true) (release : e.cfg.debug ≡ false) where
  producer-Waking :
      (m : Manager) (d : Draw) (pkt : Packet)
      → Waking (clock m)
      → Waking (clock (put_node (producer e.cfg e.lite m.me d m.node pkt).node m))
  producer-Waking m d pkt w =
      let mode = producer_mode e.cfg e.lite m.me d m.node pkt in (w.0, w.1, ground (arith, mode, w))

  consumer-Waking :
      (m : Manager) (from : ℕ) (d : Draw) (pkt : Packet)
      → Waking (clock m)
      → Waking (clock (put_node (consumer e.cfg e.lite e.strategy m.me from d m.node pkt).node m))
  consumer-Waking m from d pkt w =
      let framed = consumer-Framed e.cfg e.lite e.strategy m.me from d m.node pkt release in
      (w.0, w.1, ground (arith, framed.same_mode, w))

  run_command-Waking :
      (m : Manager) (c : Command)
      → Waking (clock m)
      → Waking (clock (run_command e.cfg e.relay c m).1)
  unfolding run_command sub_prefix add_sensor
  run_command-Waking m stop w = (w.0, w.1, inl refl)
  run_command-Waking m (prefix args) w = ground (arith, w)
  run_command-Waking m (sensor args) w = ground (arith, w)

  pub Step-Waking : {m m' : Manager} → Step e m m' → Waking (clock m) → Waking (clock m')
  Step-Waking (hears_interest m d pkt) w = producer-Waking m d pkt w
  Step-Waking (hears_content m from d pkt) w = consumer-Waking m from d pkt w
  Step-Waking (delivers m t msg rest runs sent) w =
      handle-Waking e.cfg e.relay t robin msg (put_node (record m.node { sent = rest }) m) w
  Step-Waking (ticks m t runs set) w = handle-Waking e.cfg e.relay t robin second m w
  Step-Waking (data_due m t delay runs set) w =
      handle-Waking e.cfg e.relay t robin newdata (record m { data_timer = none }) w
  Step-Waking (radio_due m t delay runs set) w =
      handle-Waking e.cfg e.relay t robin backtosleep (record m { radio_timer = none }) w
  Step-Waking (sleep_due m t delay runs set) w =
      handle-Waking e.cfg e.relay t robin backtosleep
        (put_node (record m.node { sleep_timer = none }) m) w
  Step-Waking (commanded m c) w = run_command-Waking m c w

  Reaches-Waking_from : {m m' : Manager} → Waking (clock m) → Reaches e m m' → Waking (clock m')
  Reaches-Waking_from w here = w
  Reaches-Waking_from w (next path step) = Step-Waking step (Reaches-Waking_from w path)

  -- In the round-robin build without DOW_DEBUG, with 2 to 256 nodes and a position that fits a byte:
  -- in every state that the node reaches from the start of the manager, by interests, chunks, messages
  -- of the callbacks and of the timers, and commands, in any order, the second timer of an inactive
  -- node is set, and its period counter is at least 1 and at most 6120.
  pub Reaches-Waking :
      (t : Turn) (position : ℕ) (m m' : Manager)
      → position < 256
      → 2 ≤ m.size
      → m.size ≤ 256
      → Reaches e (start e.cfg e.relay t position m) m'
      → Waking (clock m')
  Reaches-Waking t position m m' near two few path =
      Reaches-Waking_from (start-Waking e.cfg e.relay t robin position m release near two few) path
