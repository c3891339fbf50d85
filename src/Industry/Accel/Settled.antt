-- ===== src/Industry/Accel/Settled.antt =====
-- When the sensor node of inria-industry/accel_udp tells its observer about a direction.
use miniature_dangerzone.Common.{
  ℕ, ◌≡◌, ◌⊎◌, inl, inr, refl, Bool, true, false, not, ◌&&◌, Option, none, some, List, [], ◌∷◌, ℤ,
  pos, eqb_ℤ, eq_of_eqb, minus_one, arith, Bool-cases, Option-cases, ◌==◌, if◌then◌else◌, ap, ◌∙◌,
}
use miniature_dangerzone.Industry.{Event, alarm, confirm, warn}
use miniature_dangerzone.Industry.Accel.{
  Reading, direction, Datagram, Sensor, send_event, evt_handler, event_of, note_direction, report,
  act, check_state, sensed,
}

-- Whether the direction was the same at the reading before.
abbrev pub stood : ℕ → List Reading → Bool
stood dir [] = false
stood dir (r ∷ rs) = direction r == dir

-- What the readings call for, the last one first: the event of a direction when it is seen for the
-- second time running, and not for the third.
abbrev pub called_for : List Reading → Option Event
called_for [] = none
called_for (r ∷ []) = none
called_for (r ∷ q ∷ rs) =
    if (direction q == direction r) && not (stood (direction q) rs)
    then event_of (direction r)
    else none

-- What the state remembers of the readings.
abbrev pub last_state : List Reading → ℤ
last_state [] = minus_one
last_state (r ∷ rs) = pos (direction r)

abbrev pub last_count : List Reading → ℕ
last_count [] = 0
last_count (r ∷ rs) = if stood (direction r) rs then 2 else 0

pub record Remembers (h : List Reading) (s : Sensor) : Type 0 where
  pub state_is : s.state ≡ last_state h
  pub count_is : s.rep_count ≡ last_count h

report_keeps :
    (o : Option Event) (s : Sensor)
    → ((report o s).0.state ≡ s.state) × ((report o s).0.rep_count ≡ s.rep_count)
unfolding report evt_handler send_event
report_keeps none s = (refl, refl)
report_keeps (some alarm) s = (refl, refl)
report_keeps (some confirm) s = (refl, refl)
report_keeps (some warn) s = (refl, refl)

act_count :
    (dir : ℕ) (s : Sensor)
    → ((act dir s).0.state ≡ s.state)
      × ((act dir s).0.rep_count ≡ (if s.rep_count == 1 then 2 else s.rep_count))
unfolding act
act_count dir s = elim (Bool-cases (s.rep_count == 1)) [
  | inl second ↦ ground (arith, second, report_keeps (event_of dir) (record s { rep_count = 2 }))
  | inr other ↦ ground (arith, other)
]

count_even : (h : List Reading) → (last_count h ≡ 0) ⊎ (last_count h ≡ 2)
count_even [] = inl refl
count_even (r ∷ rs) = ground arith

same_direction : (dir : ℕ) (h : List Reading) → eqb_ℤ (last_state h) (pos dir) ≡ stood dir h
same_direction dir [] = ground arith
same_direction dir (r ∷ rs) = ground arith

noted :
    (dir : ℕ) (h : List Reading) (s : Sensor)
    → Remembers h s
    → ((note_direction dir s).state ≡ pos dir)
      × ((note_direction dir s).rep_count
          ≡ (if stood dir h then (if last_count h == 0 then 1 else 2) else 0))
unfolding note_direction
noted dir h s m =
    let same : eqb_ℤ s.state (pos dir) ≡ stood dir h =
      ap (λ z. eqb_ℤ z (pos dir)) m.state_is ∙ same_direction dir h in
    elim (Bool-cases (stood dir h)) [
      | inl again ↦ (
        ground (arith, same, again, eq_of_eqb s.state (pos dir)),
        ground (arith, same, again, m.count_is, count_even h),
      )
      | inr new ↦ (ground (arith, same, new), ground (arith, same, new))
    ]

-- After any readings, the state is the last direction, and the counter is 2 if that was seen at the
-- last two readings and 0 if it was not.
pub sensed-Remembers : (h : List Reading) → Remembers h (sensed h)
unfolding sensed check_state
sensed-Remembers [] = record { state_is = refl; count_is = refl }
sensed-Remembers (r ∷ rs) =
    let (state_noted, count_noted) = noted (direction r) rs (sensed rs) (sensed-Remembers rs) in
    let (state_kept, count_kept) =
      act_count (direction r) (note_direction (direction r) (sensed rs)) in
    record {
      state_is = state_kept ∙ state_noted;
      count_is = ground (arith, count_kept, count_noted);
    }

-- The datagram about an event, from a node in state `s`.
abbrev pub about : Event → Sensor → Datagram
about e s = (send_event e s).1

report_sends :
    (o : Option Event) (s : Sensor)
    → (report o s).1 ≡ elim o [ none ↦ [] | some e ↦ about e s ∷ [] ]
unfolding report evt_handler send_event
report_sends none s = refl
report_sends (some alarm) s = refl
report_sends (some confirm) s = refl
report_sends (some warn) s = refl

same_about :
    (e : Event) (s t : Sensor) → s.evt_no ≡ t.evt_no → s.sequ_no ≡ t.sequ_no → about e s ≡ about e t
unfolding send_event
same_about e s t h k = ground (arith, h, k)

abbrev pub sends : Option Event → Sensor → List Datagram
sends none s = []
sends (some e) s = about e s ∷ []

act-sends :
    (dir : ℕ) (s : Sensor)
    → (act dir s).1 ≡ (if s.rep_count == 1 then sends (event_of dir) s else [])
unfolding act send_event
act-sends dir s = elim (Bool-cases (s.rep_count == 1)) [
  | inl second ↦ ground (
    arith,
    second,
    report_sends (event_of dir) (record s { rep_count = 2 }),
    Option-cases (event_of dir),
  )
  | inr other ↦ ground (arith, other)
]

note_numbers :
    (o : Option Event) (dir : ℕ) (s : Sensor) → sends o (note_direction dir s) ≡ sends o s
unfolding note_direction send_event
note_numbers none dir s = refl
note_numbers (some e) dir s = refl

second_time :
    (r : Reading) (h : List Reading)
    → (if (if stood (direction r) h then (if last_count h == 0 then 1 else 2) else 0) == 1
        then event_of (direction r)
        else none)
      ≡ called_for (r ∷ h)
second_time r [] = refl
second_time r (q ∷ rs) = ground arith

sends_if :
    (b : Bool) (o : Option Event) (s : Sensor)
    → (if b then sends o s else []) ≡ sends (if b then o else none) s
sends_if true o s = refl
sends_if false o s = refl

-- After any series of readings, a further reading makes the node send exactly the datagram that the
-- readings call for: it tells of a direction when it has been seen at two readings running and not
-- at the one before, and sends nothing otherwise. The datagram has the numbers that the node has.
pub check_state-called_for :
    (r : Reading) (h : List Reading)
    → (check_state r (sensed h)).1 ≡ sends (called_for (r ∷ h)) (sensed h)
unfolding check_state
check_state-called_for r h =
    let dir = direction r in
    let n = note_direction dir (sensed h) in
    let (_, count_noted) = noted dir h (sensed h) (sensed-Remembers h) in
    act-sends dir n
    ∙ sends_if (n.rep_count == 1) (event_of dir) n
    ∙ ap (λ c. sends (if c == 1 then event_of dir else none) n) count_noted
    ∙ ap (λ o. sends o n) (second_time r h)
    ∙ note_numbers (called_for (r ∷ h)) dir (sensed h)
