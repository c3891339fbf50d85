-- ===== src/Industry/Light/Shows.antt =====
-- What the light shows of the datagrams of the sensor node.
use miniature_dangerzone.Common.{◌≡◌, refl, none, some, Option, List, [], ◌∷◌, ap, ◌∙◌}
use miniature_dangerzone.Industry.{Event, alarm, confirm, warn, event_number}
use miniature_dangerzone.Industry.Accel.{Reading, Datagram, Sensor, send_event, check_state, sensed}
use miniature_dangerzone.Industry.Accel.Settled.{about, sends, called_for, check_state-called_for}
use miniature_dangerzone.Industry.Light.{Colour, colour_of, event_in, light_on_data}

-- The colour after a series of datagrams, the first one first.
unfoldable pub lit : List Datagram → Colour → Colour
unfolding light_on_data
lit [] led = led
lit (d ∷ ds) led = lit ds (light_on_data d.payload led)

pub shows :
    (e : Event) (s : Sensor) (led : Colour) → light_on_data (about e s).payload led ≡ colour_of e
unfolding light_on_data event_in event_number send_event
shows alarm s led = refl
shows confirm s led = refl
shows warn s led = refl

abbrev pub colour_for : Option Event → Colour → Colour
colour_for none led = led
colour_for (some e) led = colour_of e

lit-sends : (o : Option Event) (s : Sensor) (led : Colour) → lit (sends o s) led ≡ colour_for o led
unfolding lit
lit-sends none s led = refl
lit-sends (some e) s led = shows e s led

-- A light that is given the payloads of all datagrams that the sensor node sends on a reading shows
-- the colour of the event that the readings call for, and keeps its colour where they call for none.
pub sensor_lights :
    (r : Reading) (h : List Reading) (led : Colour)
    → lit (check_state r (sensed h)).1 led ≡ colour_for (called_for (r ∷ h)) led
sensor_lights r h led =
    ap (λ ds. lit ds led) (check_state-called_for r h)
    ∙ lit-sends (called_for (r ∷ h)) (sensed h) led
