-- ===== src/Industry/Light.antt =====
-- The light node (inria-industry/light/light.c), with its colours (light/demo.h).
pub mod Shows
use miniature_dangerzone.Common.{
  to_uint32, ℕ, Bool, none, Option, some, List, [], ◌∷◌, ◌==◌, if◌then◌else◌, length, get_or, ltb,
  u8,
}
use miniature_dangerzone.Text.{strtol10}
use miniature_dangerzone.Industry.{Event, alarm, confirm, warn, event_number}

-- rgb_t, of which the LED shows one
pub record Colour : Type 0 where
  pub r : ℕ
  pub g : ℕ
  pub b : ℕ

-- LIGHT_COLOR_OK, LIGHT_COLOR_WARN, LIGHT_COLOR_ALARM
abbrev pub colour_of : Event → Colour
colour_of confirm = record { r = 0; g = 125; b = 0 }
colour_of warn = record { r = 0; g = 40; b = 125 }
colour_of alarm = record { r = 125; g = 0; b = 0 }

-- The event that the `switch` of `light_on_data` finds in the first byte.
unfoldable pub event_in : ℕ → Option Event
unfolding event_number
event_in d =
    if d == event_number confirm
    then some confirm
    else if d == event_number warn
    then some warn
    else if d == event_number alarm
    then some alarm
    else none

-- light_on_data: the colour afterwards, where it was `led`
unfoldable pub light_on_data : List ℕ → Colour → Colour
unfolding event_in
light_on_data received led =
    if length received == 3
    then elim (event_in (get_or received 0 0)) [ none ↦ led | some e ↦ colour_of e ]
    else led

-- (uint8_t)atoi(s)
unfoldable pub to_channel : List ℕ → ℕ
unfolding strtol10
to_channel s = u8 (to_uint32 (strtol10 s))

-- A shell command of the node, with the words behind its name where they are read.
pub data Command : Type 0 where
  light_off_shell light_ok_shell light_warn_shell light_alarm_shell : Command
  light_set_shell : List (List ℕ) → Command

unfoldable pub run_command : Command → Colour → Colour
unfolding light_on_data event_number to_channel
run_command light_off_shell led = record { r = 0; g = 0; b = 0 }
run_command light_ok_shell led = light_on_data (event_number confirm ∷ 12 ∷ 33 ∷ []) led
run_command light_warn_shell led = light_on_data (event_number warn ∷ 12 ∷ 33 ∷ []) led
run_command light_alarm_shell led = light_on_data (event_number alarm ∷ 12 ∷ 33 ∷ []) led
run_command (light_set_shell args) led = if ltb (length args) 3 then led else record {
  r = to_channel (get_or args 0 []);
  g = to_channel (get_or args 1 []);
  b = to_channel (get_or args 2 []);
}
