-- ===== src/Dow/Loop/Energy.antt =====
-- The account of active and sleeping time over the manager's whole run.
use mathlib.Core.Path.{subst}
use miniature_dangerzone.Common.{
  ℕ, ◌<◌, ◌≡◌, refl, false, List, [], ◌∷◌, some, arith, All, if_both, two32, sub32, if◌then◌else◌,
  Bool-cases, inl, inr, ◌==◌, ◌⊎◌, sym,
}
use miniature_dangerzone.Config.{Config}
use miniature_dangerzone.Dow.{
  is_inactive, inactive, Msg, second, takeover, newdata, go_inactive, backtosleep, beacon,
  beacon_end, received, received_ack, received_int, is_stopped,
}
use miniature_dangerzone.Dow.Power.{
  Power, Accounted, boot, fall_asleep, wake_up, boot-Accounted, fall_asleep-Accounted,
  wake_up-Accounted,
}
use miniature_dangerzone.Dow.Manager.{
  Manager, Turn, Relay, radio_off, radio_sleep, wakeup, take_over, sleep, cycle, set_mode,
}
use miniature_dangerzone.Dow.Data.{new_data, choose_data, make_item, event_delay}
use miniature_dangerzone.Dow.Loop.{
  tick, end_period, reconsider_letter, phase, end_sleep, end_active, on_second, on_new_data,
  on_received, handle, loop, start,
}

-- What one step may do to the times: nothing, one sleep, one wake-up, or a wake-up behind a sleep.
abbrev pub Switched : ℕ → Power → Power → Type 0
Switched now p p' = (p' ≡ p) ⊎ ((p' ≡ fall_asleep now p) ⊎ (p' ≡ wake_up now p))

radio_sleep-Switched :
    (cfg : Config) (t : Turn) (m : Manager) → Switched t.now m.power (radio_sleep cfg t m).power
unfolding radio_sleep radio_off
radio_sleep-Switched cfg t m = ground arith

wakeup-Switched :
    (cfg : Config) (t : Turn) (m : Manager) → (wakeup cfg t m).power ≡ wake_up t.now m.power
unfolding wakeup
wakeup-Switched cfg t m = ground arith

take_over-Switched :
    (cfg : Config) (relay : Relay) (t : Turn) (m : Manager)
    → (take_over cfg relay t m).power ≡ wake_up t.now m.power
unfolding take_over
take_over-Switched cfg relay t m = grind (arith, wakeup-Switched)

sleep-Switched :
    (cfg : Config) (relay : Relay) (t : Turn) (k : ℕ) (m : Manager)
    → Switched t.now m.power (sleep cfg relay t k m).power
unfolding sleep
sleep-Switched cfg relay t k m = grind (arith, radio_sleep-Switched)

phase-Power :
    (cfg : Config) (relay : Relay) (t : Turn) (m : Manager) → (phase cfg relay t m).power ≡ m.power
unfolding phase reconsider_letter
phase-Power cfg relay t m = ground arith

new_data-Power : (cfg : Config) (t : Turn) (m : Manager) → (new_data cfg t m).power ≡ m.power
unfolding new_data choose_data make_item
new_data-Power cfg t m = ground arith

end_sleep-Switched :
    (cfg : Config) (t : Turn) (m : Manager) → Switched t.now m.power (end_sleep cfg t m).power
unfolding end_sleep
end_sleep-Switched cfg t m = grind (arith, wakeup-Switched)

end_active-Switched :
    (cfg : Config) (relay : Relay) (t : Turn) (m : Manager)
    → Switched t.now m.power (end_active cfg relay t m).power
unfolding end_active
end_active-Switched cfg relay t m =
    let counted =
      (if cfg.keep_alive_pfx
        then record m { node = (record m.node { interest_count = 0 }) }
        else m) in
    ground (arith, sleep-Switched cfg relay t cycle (set_mode inactive counted))

tick-Power :
    (cfg : Config) (relay : Relay) (t : Turn) (m : Manager) → (tick cfg relay t m).power ≡ m.power
unfolding tick
tick-Power cfg relay t m =
    let ticked = record m { second_timer = false; period_counter = sub32 m.period_counter 1 } in
    ground (arith, phase-Power cfg relay t ticked)

end_period-Switched :
    (cfg : Config) (relay : Relay) (t : Turn) (m : Manager)
    → Switched t.now m.power (end_period cfg relay t m).power
unfolding end_period
end_period-Switched cfg relay t m =
    let P = λ (k : Manager). Switched t.now m.power k.power in
    if_both P (m.period_counter == 0) _ _
      (if_both P cfg.deputy _ _ (inr (inr (take_over-Switched cfg relay t m))) (
        if_both P (is_inactive m.node.mode) _ _ (end_sleep-Switched cfg t m)
          (end_active-Switched cfg relay t m)))
      (inl refl)

on_second-Switched :
    (cfg : Config) (relay : Relay) (t : Turn) (m : Manager)
    → Switched t.now m.power (on_second cfg relay t m).power
unfolding on_second
on_second-Switched cfg relay t m =
    subst (λ p. Switched t.now p (end_period cfg relay t (tick cfg relay t m)).power)
      (tick-Power cfg relay t m) (end_period-Switched cfg relay t (tick cfg relay t m))

on_new_data-Switched :
    (cfg : Config) (t : Turn) (m : Manager) → Switched t.now m.power (on_new_data cfg t m).power
unfolding on_new_data
on_new_data-Switched cfg t m =
    let m' = (if m.is_source then new_data cfg t m else m) in
    let same : m'.power ≡ m.power = ground (arith, new_data-Power cfg t m) in
    ground (arith, radio_sleep-Switched cfg t m', same)

on_received-Switched :
    (cfg : Config) (t : Turn) (m : Manager) → Switched t.now m.power (on_received cfg t m).power
unfolding on_received
on_received-Switched cfg t m = grind (arith, wakeup-Switched)

handle-Switched :
    (cfg : Config) (relay : Relay) (t : Turn) (msg : Msg) (m : Manager)
    → Switched t.now m.power (handle cfg relay t msg m).power
unfolding handle
handle-Switched cfg relay t second m = on_second-Switched cfg relay t m
handle-Switched cfg relay t takeover m = grind (arith, take_over-Switched)
handle-Switched cfg relay t newdata m = on_new_data-Switched cfg t m
handle-Switched cfg relay t go_inactive m = grind (arith, sleep-Switched)
handle-Switched cfg relay t backtosleep m = grind (arith, radio_sleep-Switched)
handle-Switched cfg relay t beacon m = inl refl
handle-Switched cfg relay t beacon_end m = inl refl
handle-Switched cfg relay t received m = on_received-Switched cfg t m
handle-Switched cfg relay t received_ack m = inl refl
handle-Switched cfg relay t received_int m = inl refl

Switched-Accounted :
    (origin now : ℕ) (p p' : Power)
    → now < two32
    → Switched now p p'
    → Accounted origin p
    → Accounted origin p'
Switched-Accounted origin now p p' h s a = elim s [
  | inl same ↦ subst (Accounted origin) (sym same) a
  | inr (inl asleep) ↦
      subst (Accounted origin) (sym asleep) (fall_asleep-Accounted origin now p h a)
  | inr (inr awake) ↦ subst (Accounted origin) (sym awake) (wake_up-Accounted origin now p h a)
]

loop-Accounted :
    (cfg : Config) (relay : Relay) (origin : ℕ) (ms : List (Turn × Msg)) (m : Manager)
    → All (λ x. x.0.now < two32) ms
    → Accounted origin m.power
    → Accounted origin (loop cfg relay ms m).power
unfolding loop
loop-Accounted cfg relay origin [] m h a = a
loop-Accounted cfg relay origin ((t, msg) ∷ ms) m h a =
    let s = handle-Switched cfg relay t msg m in
    let later =
      loop-Accounted cfg relay origin ms (handle cfg relay t msg m) h.1
        (Switched-Accounted origin t.now m.power (handle cfg relay t msg m).power h.0 s a) in
    elim (Bool-cases (is_stopped m.node.mode)) [ inl ends ↦ rw ends a | inr runs ↦ rw runs later ]

start-Accounted :
    (cfg : Config) (relay : Relay) (t : Turn) (position : ℕ) (m : Manager)
    → t.now < two32
    → Accounted t.now (start cfg relay t position m).power
unfolding start
start-Accounted cfg relay t position m h =
    let booted = record m { power = boot t.now } in
    let timed = record booted { data_timer = some (event_delay t) } in
    let late_sleep =
      sleep-Switched cfg relay t position
        (set_mode inactive (record timed { last_deputy_ts = t.now })) in
    let early_sleep = sleep-Switched cfg relay t cycle (set_mode inactive timed) in
    let s : Switched t.now (boot t.now) (start cfg relay t position m).power =
      ground (arith, late_sleep, early_sleep) in
    Switched-Accounted t.now t.now (boot t.now) (start cfg relay t position m).power h s
      (boot-Accounted t.now h)

-- From the start of the manager on, whatever messages come, at whatever 32-bit times, and whatever
-- they meet, the active and the sleeping time add up, as uint32_t, to the time from the start to
-- the last switch of the radio.
pub run-Accounted :
    (cfg : Config) (relay : Relay) (t : Turn) (position : ℕ) (m : Manager) (ms : List (Turn × Msg))
    → t.now < two32
    → All (λ x. x.0.now < two32) ms
    → Accounted t.now (loop cfg relay ms (start cfg relay t position m)).power
run-Accounted cfg relay t position m ms h hs =
    loop-Accounted cfg relay t.now ms (start cfg relay t position m) hs
      (start-Accounted cfg relay t position m h)
