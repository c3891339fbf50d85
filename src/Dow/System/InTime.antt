-- ===== src/Dow/System/InTime.antt =====
-- How long an inactive node of the round-robin build sleeps, whatever happens while it does.
use mathlib.Core.Path.{subst}
use miniature_dangerzone.Common.{
  ℕ, zero, suc, ◌+◌, ◌≤◌, ◌≡◌, ◌⊎◌, inl, inr, refl, sym, ◌∙◌, Bool, true, false, arith, if_both,
  if_split, Bool-cases, Option-cases, ap, if◌then◌else◌, ◌==◌, not, ◌&&◌, ◌||◌, u8, none,
}
use miniature_dangerzone.Config.{Config}
use miniature_dangerzone.Dow.{
  is_inactive, is_deputy, Msg, second, takeover, newdata, go_inactive, backtosleep, beacon,
  beacon_end, received, received_ack, received_int,
}
use miniature_dangerzone.Cache.Consumer.Frame.{consumer-Framed}
use miniature_dangerzone.Shell.{Command, stop, prefix, sensor, sub_prefix, add_sensor, run_command}
use miniature_dangerzone.Dow.Manager.{Manager, Turn, Relay, radio_sleep, wakeup, take_over}
use miniature_dangerzone.Dow.Data.{new_data}
use miniature_dangerzone.Dow.Loop.{
  tick, end_period, on_second, on_new_data, on_received, handle, waiter_of, populate_data,
}
use miniature_dangerzone.Dow.Wait.{helper_int}
use miniature_dangerzone.Dow.Wait.Ends.{helper_int_period}
use miniature_dangerzone.Dow.System.{
  Env, put_node, Runs, Step, hears_interest, hears_content, delivers, ticks, data_due, radio_due,
  sleep_due, commanded,
}
use miniature_dangerzone.Dow.System.Callbacks.{producer_mode}
use miniature_dangerzone.Dow.System.Wakes.{
  Clock, clock, Waking, radio_sleep-clock, wakeup-clock, new_data-clock, tick_clock, handle-Waking,
  Step-Waking,
}

abbrev pub is_go_inactive : Msg → Bool
is_go_inactive go_inactive = true
is_go_inactive _ = false

-- A step that does not tell the node to go inactive.
abbrev pub IsCalm : {e : Env} {m m' : Manager} → Step e m m' → Type 0
IsCalm (delivers m t msg rest runs sent) = is_go_inactive msg ≡ false
IsCalm (hears_interest m d pkt) = Unit
IsCalm (hears_content m from d pkt) = Unit
IsCalm (ticks m t runs set) = Unit
IsCalm (data_due m t delay runs set) = Unit
IsCalm (radio_due m t delay runs set) = Unit
IsCalm (sleep_due m t delay runs set) = Unit
IsCalm (commanded m c) = Unit

-- The states that are reached by such steps, with the second timer going off so many times.
pub data Passes (e : Env) (m : Manager) : ℕ → Manager → Type 0 where
  begins : Passes e m zero m
  second_passes :
      {n : ℕ} {m' : Manager} (t : Turn)
      → Passes e m n m'
      → Runs m'
      → m'.second_timer ≡ true
      → Passes e m (suc n) (handle e.cfg e.relay t second m')
  other_passes :
      {n : ℕ} {m' m'' : Manager}
      → Passes e m n m'
      → (s : Step e m' m'') → IsCalm s
      → Passes e m n m''

-- The node is not inactive behind a step, or it was before, and the period counter has come down by
-- so much at least.
abbrev pub Falls : ℕ → Clock → Clock → Type 0
Falls by c c' = (is_inactive c'.0 ≡ false) ⊎ ((is_inactive c.0 ≡ true) × (c'.2 + by ≤ c.2))

stays_put : (c c' : Clock) → c' ≡ c → Falls 0 c c'
stays_put c c' same = subst (Falls 0 c) (sym same) (elim (Bool-cases (is_inactive c.0)) [
  | inl asleep ↦ inr (asleep, omega arith)
  | inr awake ↦ inl awake
])

module _ (cfg : Config) (relay : Relay) (t : Turn) (robin : cfg.deputy ≡ true) where
  take_over-Falls :
      (by : ℕ) (c : Clock) (m : Manager) → Falls by c (clock (take_over cfg relay t m))
  unfolding take_over wakeup
  take_over-Falls by c m = inl (ground arith)

  on_second-Falls :
      (m : Manager) → Waking (clock m) → Falls 1 (clock m) (clock (on_second cfg relay t m))
  unfolding on_second end_period
  on_second-Falls m w =
      let m' = tick cfg relay t m in
      let (mode, size, pc) = tick_clock cfg relay t robin m in
      let P = λ (k : Manager). Falls 1 (clock m) (clock k) in
      if_split P (m'.period_counter == 0) _ _
        (λ over.
          if_split P cfg.deputy _ _ (λ yes_. take_over-Falls 1 (clock m) m')
            (λ plain. absurd (ground (arith, robin, plain))))
        (λ more. ground (arith, more, w, mode, pc))

  on_new_data-Falls : (m : Manager) → Falls 0 (clock m) (clock (on_new_data cfg t m))
  unfolding on_new_data
  on_new_data-Falls m =
      let m' = (if m.is_source then new_data cfg t m else m) in
      let same : clock m' ≡ clock m =
        if_both (λ (k : Manager). clock k ≡ clock m) m.is_source _ _ (new_data-clock cfg t m)
          refl in
      if_both (λ (k : Manager). Falls 0 (clock m) (clock k))
        (not cfg.int_int && is_inactive m'.node.mode) _ _
        (stays_put (clock m) (clock (radio_sleep cfg t m')) (radio_sleep-clock cfg t m' ∙ same))
        (stays_put (clock m) (clock m') same)

  populate_data-Falls :
      (m : Manager) → Waking (clock m) → Falls 0 (clock m) (clock (populate_data cfg t m))
  unfolding populate_data
  populate_data-Falls m w =
      let woken = wakeup cfg t m in
      let same = wakeup-clock cfg t m in
      let w' : Waking (clock woken) = subst Waking (sym same) w in
      let pc = ap (λ (c : Clock). c.2) same in
      let mode = ap (λ (c : Clock). c.0) same in
      elim (Option-cases (helper_int t.retransmit true t.waits (waiter_of woken))) [
        | inl stuck ↦ rw stuck (stays_put (clock m) (clock woken) same)
        | inr ((sent, reply, left), ends) ↦ rw ends (elim w'.2 [
          | inl awake ↦ inl awake
          | inr (set, some_, few) ↦
              let kept =
                helper_int_period t.retransmit true t.waits (waiter_of woken) left sent reply some_
                  (omega (arith, few)) ends in
              elim (Bool-cases (is_inactive m.node.mode)) [
                | inl asleep ↦ inr (asleep, omega (arith, kept, pc))
                | inr awake ↦ inl (ap is_inactive mode ∙ awake)
              ]
        ])
      ]

  on_received-Falls :
      (m : Manager) → Waking (clock m) → Falls 0 (clock m) (clock (on_received cfg t m))
  unfolding on_received
  on_received-Falls m w =
      let counted = record m {
        node = (record m.node { prevent_sleep = u8 (m.node.prevent_sleep + 1) });
      } in
      if_both (λ (k : Manager). Falls 0 (clock m) (clock k))
        (not cfg.int_int || is_deputy m.node.mode) _ _ (stays_put (clock m) (clock m) refl)
        (populate_data-Falls counted w)

  handle-Falls :
      (msg : Msg) (m : Manager)
      → is_go_inactive msg ≡ false
      → Waking (clock m)
      → Falls 0 (clock m) (clock (handle cfg relay t msg m))
  unfolding handle
  handle-Falls second m calm w = ground (arith, on_second-Falls m w)
  handle-Falls takeover m calm w =
      if_both (λ (k : Manager). Falls 0 (clock m) (clock k)) cfg.deputy _ _
        (take_over-Falls 0 (clock m) m) (stays_put (clock m) (clock m) refl)
  handle-Falls newdata m calm w = on_new_data-Falls m
  handle-Falls go_inactive m calm w = cc
  handle-Falls backtosleep m calm w =
      if_both (λ (k : Manager). Falls 0 (clock m) (clock k)) (is_inactive m.node.mode) _ _
        (stays_put (clock m) (clock (radio_sleep cfg t m)) (radio_sleep-clock cfg t m))
        (stays_put (clock m) (clock m) refl)
  handle-Falls beacon m calm w = stays_put (clock m) (clock m) refl
  handle-Falls beacon_end m calm w = stays_put (clock m) (clock m) refl
  handle-Falls received m calm w = on_received-Falls m w
  handle-Falls received_ack m calm w = stays_put (clock m) (clock m) refl
  handle-Falls received_int m calm w = stays_put (clock m) (clock m) refl

module _ (e : Env) (robin : e.cfg.deputy ≡ true) (release : e.cfg.debug ≡ false) where
  commanded-Falls :
      (m : Manager) (c : Command) → Falls 0 (clock m) (clock (run_command e.cfg e.relay c m).1)
  unfolding run_command sub_prefix add_sensor
  commanded-Falls m stop = inl refl
  commanded-Falls m (prefix args) =
      stays_put (clock m) (clock (run_command e.cfg e.relay (prefix args) m).1) (ground arith)
  commanded-Falls m (sensor args) =
      stays_put (clock m) (clock (run_command e.cfg e.relay (sensor args) m).1) (ground arith)

  Step-Falls :
      {m m' : Manager} (s : Step e m m')
      → IsCalm s
      → Waking (clock m)
      → Falls 0 (clock m) (clock m')
  Step-Falls (hears_interest m d pkt) calm w =
      let mode = producer_mode e.cfg e.lite m.me d m.node pkt in ground (arith, mode)
  Step-Falls (hears_content m from d pkt) calm w =
      let framed = consumer-Framed e.cfg e.lite e.strategy m.me from d m.node pkt release in
      ground (arith, framed.same_mode)
  Step-Falls (delivers m t msg rest runs sent) calm w =
      handle-Falls e.cfg e.relay t robin msg (put_node (record m.node { sent = rest }) m) calm w
  Step-Falls (ticks m t runs set) calm w = handle-Falls e.cfg e.relay t robin second m refl w
  Step-Falls (data_due m t delay runs set) calm w =
      handle-Falls e.cfg e.relay t robin newdata (record m { data_timer = none }) refl w
  Step-Falls (radio_due m t delay runs set) calm w =
      handle-Falls e.cfg e.relay t robin backtosleep (record m { radio_timer = none }) refl w
  Step-Falls (sleep_due m t delay runs set) calm w =
      handle-Falls e.cfg e.relay t robin backtosleep
        (put_node (record m.node { sleep_timer = none }) m) refl w
  Step-Falls (commanded m c) calm w = commanded-Falls m c

  handle-second-Falls :
      (t : Turn) (m : Manager)
      → Waking (clock m)
      → Falls 1 (clock m) (clock (handle e.cfg e.relay t second m))
  unfolding handle
  handle-second-Falls t m w = on_second-Falls e.cfg e.relay t robin m w

  Passes-Waking :
      {m : Manager} {n : ℕ} {m' : Manager} → Passes e m n m' → Waking (clock m) → Waking (clock m')
  Passes-Waking begins w = w
  Passes-Waking (second_passes {m'} t path runs set) w =
      handle-Waking e.cfg e.relay t robin second m' (Passes-Waking path w)
  Passes-Waking (other_passes path s calm) w = Step-Waking e robin release s (Passes-Waking path w)

  Passes-Falls :
      {m : Manager} {n : ℕ} {m' : Manager}
      → Passes e m n m'
      → Waking (clock m)
      → is_inactive m'.node.mode ≡ true
      → n + m'.period_counter ≤ m.period_counter
  Passes-Falls begins w still = omega arith
  Passes-Falls {m} (second_passes {n} {m'} t path runs set) w still =
      let one = handle-second-Falls t m' (Passes-Waking path w) in
      let before = λ (asleep : is_inactive m'.node.mode ≡ true). Passes-Falls path w asleep in
      elim one [
        | inl awake ↦ absurd (ground arith)
        | inr (asleep, fewer) ↦ omega (arith, before asleep)
      ]
  Passes-Falls {m} (other_passes {n} {m'} path s calm) w still =
      elim (Step-Falls s calm (Passes-Waking path w)) [
        | inl awake ↦ absurd (ground arith)
        | inr (asleep, fewer) ↦ omega (arith, Passes-Falls path w asleep)
      ]

  -- In the round-robin build without DOW_DEBUG, where there are 2 to 256 nodes, the second timer of an
  -- inactive node is set and its period counter is between 1 and 6120: whatever interests and chunks
  -- come in, whatever the other timers and the commands do, whatever messages the callbacks have sent,
  -- but for that to go inactive, and whatever comes while the node waits for its own interest, once
  -- the loop of the manager has taken the message of the second timer as often as the counter says
  -- the node is not inactive any more. Those that come during a wait are not counted.
  pub wakes_in_time :
      {n : ℕ} {m m' : Manager}
      → Passes e m n m'
      → Waking (clock m)
      → m.period_counter ≤ n
      → is_inactive m'.node.mode ≡ false
  wakes_in_time {n} {m} {m'} path w enough = elim (Bool-cases (is_inactive m'.node.mode)) [
    | inl still ↦ absurd (ground (arith, Passes-Falls path w still, Passes-Waking path w))
    | inr awake ↦ awake
  ]
