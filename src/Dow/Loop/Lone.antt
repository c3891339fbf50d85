-- ===== src/Dow/Loop/Lone.antt =====
-- A node that is told to go inactive in a build without beacons, where it knows of no neighbours.
use mathlib.Core.Path.{subst}
use miniature_dangerzone.Common.{
  ℕ, ◌+◌, ◌-◌, ◌≤◌, ◌<◌, ◌≡◌, refl, false, List, [], ◌∷◌, arith, two32, sub32, if_split, ◌==◌,
  length, map, ap, ◌∙◌, sym,
}
use miniature_dangerzone.Config.{Config}
use miniature_dangerzone.Dow.{is_stopped, inactive, Msg, second, go_inactive}
use miniature_dangerzone.Dow.Manager.{Manager, Turn, Relay, radio_off, radio_sleep, sleep}
use miniature_dangerzone.Dow.Loop.{tick, end_period, phase, on_second, handle, loop}

-- Inactive, with so much of the period to go.
abbrev pub Asleep : ℕ → Manager → Type 0
Asleep k m = (m.node.mode ≡ inactive) × (m.period_counter ≡ k)

tick-Asleep :
    (cfg : Config) (relay : Relay) (t : Turn) (m : Manager) (k : ℕ)
    → cfg.deputy ≡ false
    → Asleep k m
    → Asleep (sub32 k 1) (tick cfg relay t m)
unfolding tick phase
tick-Asleep cfg relay t m k plain a = ground (arith, a)

end_period-Asleep :
    (cfg : Config) (relay : Relay) (t : Turn) (m : Manager) (k : ℕ)
    → 1 ≤ k
    → Asleep k m
    → Asleep k (end_period cfg relay t m)
unfolding end_period
end_period-Asleep cfg relay t m k h a =
    if_split (Asleep k) (m.period_counter == 0) _ _ (λ over. absurd (ground (arith, over, a)))
      (λ goes_on. a)

on_second-Asleep :
    (cfg : Config) (relay : Relay) (t : Turn) (m : Manager) (k : ℕ)
    → cfg.deputy ≡ false
    → 1 ≤ sub32 k 1
    → Asleep k m
    → Asleep (sub32 k 1) (on_second cfg relay t m)
unfolding on_second
on_second-Asleep cfg relay t m k plain h a =
    end_period-Asleep cfg relay t (tick cfg relay t m) (sub32 k 1) h
      (tick-Asleep cfg relay t m k plain a)

-- So many seconds.
abbrev pub seconds : List Turn → List (Turn × Msg)
seconds ts = map (λ t. (t, second)) ts

-- A node that runs handles the first message, and goes on.
loop_step :
    (cfg : Config) (relay : Relay) (t : Turn) (msg : Msg) (ms : List (Turn × Msg)) (m : Manager)
    → is_stopped m.node.mode ≡ false
    → loop cfg relay ((t, msg) ∷ ms) m ≡ loop cfg relay ms (handle cfg relay t msg m)
unfolding loop
loop_step cfg relay t msg ms m running = rw running refl

handle-second :
    (cfg : Config) (relay : Relay) (t : Turn) (m : Manager)
    → handle cfg relay t second m ≡ on_second cfg relay t m
unfolding handle
handle-second cfg relay t m = refl

handle-go_inactive :
    (cfg : Config) (relay : Relay) (t : Turn) (m : Manager)
    → m.size ≡ 1
    → handle cfg relay t go_inactive m ≡ sleep cfg relay t 0 m
unfolding handle
handle-go_inactive cfg relay t m alone = rw alone refl

runs : (m : Manager) → m.node.mode ≡ inactive → is_stopped m.node.mode ≡ false
runs m h = rw h refl

loop-Asleep :
    (cfg : Config) (relay : Relay) (ts : List Turn) (m : Manager) (k left : ℕ)
    → cfg.deputy ≡ false
    → left + length ts ≡ k
    → 1 ≤ left
    → k < two32
    → Asleep k m
    → Asleep left (loop cfg relay (seconds ts) m)
unfolding loop
loop-Asleep cfg relay [] m k left plain e h small a = (a.0, a.1 ∙ omega arith)
loop-Asleep cfg relay (t ∷ ts) m k left plain e h small a =
    let fewer : sub32 k 1 ≡ left + length ts = omega arith in
    let one = on_second-Asleep cfg relay t m k plain (omega arith) a in
    subst (Asleep left)
      (sym (
        loop_step cfg relay t second (seconds ts) m (runs m a.0)
        ∙ ap (loop cfg relay (seconds ts)) (handle-second cfg relay t m)))
      (loop-Asleep cfg relay ts (on_second cfg relay t m) (sub32 k 1) left plain (sym fewer) h
        (omega arith) one)

sleep-Asleep :
    (cfg : Config) (relay : Relay) (t : Turn) (m : Manager)
    → cfg.deputy ≡ false
    → Asleep 0 (sleep cfg relay t 0 m)
unfolding sleep radio_sleep radio_off
sleep-Asleep cfg relay t m plain = ground arith

-- A node outside the round-robin build that knows of no other node (`dow_size` is 1), is not
-- stopped and is told to go inactive: n seconds later, for 0 < n < 2^32 - 1, if no other message
-- comes, it is still inactive, and its period counter is 2^32 - n.
pub lone_node-Asleep :
    (cfg : Config) (relay : Relay) (t t1 : Turn) (ts : List Turn) (m : Manager)
    → cfg.deputy ≡ false
    → m.size ≡ 1
    → is_stopped m.node.mode ≡ false
    → length ts + 2 < two32
    → Asleep (two32 - 1 - length ts) (loop cfg relay ((t, go_inactive) ∷ seconds (t1 ∷ ts)) m)
lone_node-Asleep cfg relay t t1 ts m plain alone running few =
    let asleep = sleep cfg relay t 0 m in
    let a0 = sleep-Asleep cfg relay t m plain in
    let a1 = on_second-Asleep cfg relay t1 asleep 0 plain (omega arith) a0 in
    let steps =
      loop_step cfg relay t go_inactive (seconds (t1 ∷ ts)) m running
      ∙ ap (loop cfg relay (seconds (t1 ∷ ts))) (handle-go_inactive cfg relay t m alone)
      ∙ loop_step cfg relay t1 second (seconds ts) asleep (runs asleep a0.0)
      ∙ ap (loop cfg relay (seconds ts)) (handle-second cfg relay t1 asleep) in
    subst (Asleep (two32 - 1 - length ts)) (sym steps) (
      loop-Asleep cfg relay ts (on_second cfg relay t1 asleep) (sub32 0 1) (two32 - 1 - length ts)
        plain (omega arith) (omega arith) (omega arith) a1)
