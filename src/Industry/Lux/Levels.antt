-- ===== src/Industry/Lux/Levels.antt =====
-- What the light sensor reports.
use miniature_dangerzone.Common.{
  ◌≡◌, ◌≢◌, refl, Bool, Option, none, some, List, [], ◌∷◌, ℤ, pos, minus_one, ltb_ℤ, arith,
  if◌then◌else◌, ap, ◌∙◌, sym,
}
use miniature_dangerzone.Industry.{Event, alarm, confirm, warn}
use miniature_dangerzone.Industry.Request.{Client, Get}
use miniature_dangerzone.Industry.Lux.{
  lux_threshold_warn, level, event_at, event_for, Sensor, report, check_state, sensed,
}

-- Whether a reading is above the lower threshold.
abbrev pub bright : ℤ → Bool
bright lux = ltb_ℤ lux_threshold_warn lux

-- The event that a series of readings calls for, the last one first: one when it gets bright and one
-- when it gets dark, and one for the first reading.
abbrev pub on_change : List ℤ → Option Event
on_change [] = none
on_change (lux ∷ []) = some (if bright lux then warn else confirm)
on_change (lux ∷ before ∷ h) =
    if bright lux
    then (if bright before then none else some warn)
    else if bright before
    then some confirm
    else none

level_is : (lux : ℤ) → level lux ≡ (if bright lux then 1 else 0)
unfolding level
level_is lux = ground arith

report_state : (get : Get) (o : Option Event) (s : Sensor) → (report get o s).0.state ≡ s.state
unfolding report
report_state get none s = refl
report_state get (some e) s = refl

state_after :
    (get : Get) (lux : ℤ) (h : List ℤ) (c : Client)
    → (sensed get (lux ∷ h) c).state ≡ pos (level lux)
unfolding sensed check_state
state_after get lux h c = report_state get (event_for lux (sensed get h c).state) _

event_first : (lux : ℤ) → event_for lux minus_one ≡ on_change (lux ∷ [])
unfolding event_for event_at
event_first lux = ground (arith, level_is lux)

event_later :
    (lux before : ℤ) (h : List ℤ)
    → event_for lux (pos (level before)) ≡ on_change (lux ∷ before ∷ h)
unfolding event_for event_at
event_later lux before h = ground (arith, level_is lux, level_is before)

no_alarm : (lux : ℤ) (h : List ℤ) → on_change (lux ∷ h) ≢ some alarm
no_alarm lux [] bad = ground (arith, bad)
no_alarm lux (before ∷ h) bad = ground (arith, bad)

-- After any readings, a further one has an event exactly if it is on the other side of the lower
-- threshold than the one before, or is the first: the warning above the threshold, and the
-- confirmation below. It never has the alarm, not even above the higher threshold, whose test comes
-- second and never holds.
pub event_for-on_change :
    (get : Get) (lux : ℤ) (h : List ℤ) (c : Client)
    → (event_for lux (sensed get h c).state ≡ on_change (lux ∷ h))
      × (event_for lux (sensed get h c).state ≢ some alarm)
unfolding sensed
event_for-on_change get lux [] c =
    let first = event_first lux in (first, λ bad. no_alarm lux [] (sym first ∙ bad))
event_for-on_change get lux (before ∷ h) c =
    let later = ap (event_for lux) (state_after get before h c) ∙ event_later lux before h in
    (later, λ bad. no_alarm lux (before ∷ h) (sym later ∙ bad))
