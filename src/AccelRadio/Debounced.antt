-- ===== src/AccelRadio/Debounced.antt =====
-- When the node tells of a direction.
use miniature_dangerzone.Common.{
  ℕ, suc, ◌≡◌, inl, inr, refl, Bool, false, Option, none, some, List, [], ◌∷◌, ℤ, pos, minus_one,
  arith, ltb, ◌==◌, if◌then◌else◌, map, Bool-cases, ap, ◌∙◌,
}
use miniature_dangerzone.AccelRadio.{
  Event, alarm, confirm, warn, Reading, Sensor, turn_to, send_event, evt_handler, event_of, report,
  act, check_state, sensed, math_modulus,
}
use miniature_dangerzone.AccelRadio.Axis.{Roots, axis, turn_if, see_axes-axis}

-- How often an axis was seen running.
abbrev pub running : ℕ → List ℕ → ℕ
running i [] = 0
running i (j ∷ js) = if j == i then suc (running i js) else 0

abbrev pub seen_too : Option ℕ → List ℕ → List ℕ
seen_too none js = js
seen_too (some i) js = i ∷ js

-- The axes that were seen, without the readings that show none, the last one first.
abbrev pub seen : (ℕ → ℕ) → List Reading → List ℕ
seen root [] = []
seen root (r ∷ rs) = seen_too (axis (math_modulus root r) r) (seen root rs)

-- What a round calls for: the event of an axis that is seen for the fourth time running.
abbrev pub called : Option ℕ → List ℕ → Option Event
called none js = none
called (some i) js = if running i js == 3 then event_of (pos i) else none

-- What the state remembers of the axes.
abbrev pub last_state : List ℕ → ℤ
last_state [] = minus_one
last_state (i ∷ js) = pos i

abbrev pub last_count : List ℕ → ℕ
last_count [] = 0
last_count (i ∷ js) = if ltb (running i js) 3 then running i js else 4

pub record Remembers (js : List ℕ) (s : Sensor) : Type 0 where
  pub state_is : s.state ≡ last_state js
  pub count_is : s.rep_count ≡ last_count js

-- What an event prints.
abbrev pub printed : Option Event → List Event
printed none = []
printed (some e) = e ∷ []

report_keeps :
    (ready : Bool) (o : Option Event) (s : Sensor)
    → ((report ready o s).0.state ≡ s.state)
      × ((report ready o s).0.rep_count ≡ s.rep_count)
      × (map (λ x. x.0) (report ready o s).1 ≡ printed o)
unfolding report evt_handler send_event
report_keeps ready none s = (refl, refl, refl)
report_keeps ready (some alarm) s = (ground arith, ground arith, refl)
report_keeps ready (some confirm) s = (ground arith, ground arith, refl)
report_keeps ready (some warn) s = (ground arith, ground arith, refl)

act_keeps :
    (ready : Bool) (s : Sensor)
    → ((act ready s).0.state ≡ s.state)
      × ((act ready s).0.rep_count ≡ (if s.rep_count == 3 then 4 else s.rep_count))
      × (map (λ x. x.0) (act ready s).1
          ≡ (if s.rep_count == 3 then printed (event_of s.state) else []))
unfolding act
act_keeps ready s =
    let told = report_keeps ready (event_of s.state) (record s { rep_count = 4 }) in
    elim (Bool-cases (s.rep_count == 3)) [
      | inl fourth ↦ rw fourth told
      | inr other ↦ rw other (refl, refl, refl)
    ]

-- The count behind a turn.
abbrev pub count_of : ℕ → List ℕ → ℕ
count_of i js = if ltb (running i js) 4 then running i js else 4

turned :
    (i : ℕ) (js : List ℕ) (s : Sensor)
    → Remembers js s
    → ((turn_to i s).state ≡ pos i) × ((turn_to i s).rep_count ≡ count_of i js)
unfolding turn_to
turned i [] s m = (ground (arith, m), ground (arith, m))
turned i (j ∷ js) s m = elim (Bool-cases (j == i)) [
  | inl again ↦ (ground (arith, m, again), ground (arith, m, again))
  | inr other ↦ (ground (arith, m, other), ground (arith, m, other))
]

-- The count of the last axis is not what the program waits for.
not_waiting : (js : List ℕ) → (last_count js == 3) ≡ false
not_waiting [] = refl
not_waiting (i ∷ js) = ground arith

-- What is made of that count, and whether it is what the program waits for.
counted :
    (n : ℕ)
    → (if (if ltb n 4 then n else 4) == 3 then 4 else (if ltb n 4 then n else 4))
      ≡ (if ltb n 3 then n else 4)
counted n = ground arith

told :
    (n : ℕ) (o : Option Event)
    → (if (if ltb n 4 then n else 4) == 3 then printed o else [])
      ≡ printed (if n == 3 then o else none)
told n o = elim (Bool-cases (n == 3)) [
  | inl third ↦ ground (arith, third)
  | inr other ↦ ground (arith, other)
]

-- One round, for an axis or none.
round :
    (ready : Bool) (o : Option ℕ) (js : List ℕ) (s : Sensor)
    → Remembers js s
    → Remembers (seen_too o js) (act ready (turn_if o s)).0
      × (map (λ x. x.0) (act ready (turn_if o s)).1 ≡ printed (called o js))
round ready none js s m =
    let (state, count, out) = act_keeps ready s in
    let quiet : (s.rep_count == 3) ≡ false = ap (λ n. n == 3) m.count_is ∙ not_waiting js in
    (
      record {
        state_is = state ∙ m.state_is;
        count_is = count ∙ ap (λ b. if b then 4 else s.rep_count) quiet ∙ m.count_is;
      },
      out ∙ ap (λ b. if b then printed (event_of s.state) else []) quiet,
    )
round ready (some i) js s m =
    let (state, count, out) = act_keeps ready (turn_to i s) in
    let (is, rep) = turned i js s m in
    (
      record {
        state_is = state ∙ is;
        count_is = count ∙ ap (λ n. if n == 3 then 4 else n) rep ∙ counted (running i js);
      },
      out
          ∙ ap (λ n. if n == 3 then printed (event_of (turn_to i s).state) else []) rep
          ∙ ap (λ c. if count_of i js == 3 then printed (event_of c) else []) is
          ∙ told (running i js) (event_of (pos i)),
    )

module _ (ready : Bool) (root : ℕ → ℕ) (roots : Roots root) where
  check_state_round :
      (r : Reading) (js : List ℕ) (s : Sensor)
      → Remembers js s
      → Remembers (seen_too (axis (math_modulus root r) r) js) (check_state ready root r s).0
        × (map (λ x. x.0) (check_state ready root r s).1
            ≡ printed (called (axis (math_modulus root r) r) js))
  unfolding check_state
  check_state_round r js s m =
      rw (see_axes-axis root roots r s) (round ready (axis (math_modulus root r) r) js s m)

  sensed-Remembers : (h : List Reading) → Remembers (seen root h) (sensed ready root h)
  unfolding sensed
  sensed-Remembers [] = record { state_is = refl; count_is = refl }
  sensed-Remembers (r ∷ rs) =
      (check_state_round r (seen root rs) (sensed ready root rs) (sensed-Remembers rs)).0

  -- After any readings, the next reading makes `check_state` print one event exactly when it shows an
  -- axis over the threshold at rest which the readings showed three times running before (readings that
  -- show no axis left out), and not more often: then it is that axis's event. `sqrtf` is
  -- correct on sums up to a bound, and not small above it.
  pub check_state_tells :
      (h : List Reading) (r : Reading)
      → map (λ x. x.0) (check_state ready root r (sensed ready root h)).1
        ≡ printed (called (axis (math_modulus root r) r) (seen root h))
  check_state_tells h r =
      (check_state_round r (seen root h) (sensed ready root h) (sensed-Remembers h)).1
