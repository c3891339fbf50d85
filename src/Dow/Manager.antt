-- ===== src/Dow/Manager.antt =====
-- The caching manager of ccnl_caching/dow.c: its state, how it switches the radio, and how it asks
-- for chunks.
use miniature_dangerzone.Common.{
  ℕ, zero, suc, ◌+◌, ◌*◌, Bool, true, false, not, ◌&&◌, List, [], ◌∷◌, ◌++◌, Option, none, some,
  ltb, u8, if◌then◌else◌,
}
use miniature_dangerzone.Config.{Config, keep_alive_period, deputy_shift}
use miniature_dangerzone.Ccn.{Name, Interest, Identity}
use miniature_dangerzone.Dow.{Mode, deputy, inactive, Node}
use miniature_dangerzone.Dow.Power.{Power, fall_asleep, wake_up}
use miniature_dangerzone.Dow.Wait.{Answer, last_cn, Try}

-- What the driver says of the state of the radio.
pub data Radio : Type 0 where
  idle asleep busy : Radio

-- A call of `ccnl_helper_create_cont`: the text of the name, the value, and the two flags.
pub record Item : Type 0 where
  pub path : List ℕ
  pub value : List ℕ
  pub cached : Bool
  pub broadcast : Bool

pub record Manager : Type 0 where
  pub node : Node
  pub power : Power
  pub me : Identity
  pub size : ℕ  -- dow_size, a uint16_t
  pub period_counter : ℕ  -- dow_period_counter
  pub sleep_period : ℕ  -- _sleep_period
  pub last_deputy_ts : ℕ  -- _last_deputy_ts
  pub phase_counter : ℕ  -- _dow_phase_counter, an int32_t as its 32 bits
  pub second_timer : Bool  -- whether `dow_timer` is set
  pub data_timer : Option ℕ  -- the delay `dow_data_timer` was last set to
  pub radio_timer : Option ℕ  -- the delay `_sleep_timer` of dow.c was last set to
  pub commands : List Radio  -- what the radio was set to, oldest first
  pub asked : List (Option ℕ)  -- the interests that were sent, by their chunk numbers, oldest first
  pub published : ℕ  -- how often old content was published
  pub beacons : ℕ  -- how often the number of the node was sent
  pub is_source : Bool  -- dow_is_source
  pub sensors : List ℕ  -- the letters of dow_sensors
  pub old_data : ℕ  -- _old_data
  pub send_old_data : Bool  -- _send_old_data
  pub produced : List Item  -- the data that was made, oldest first

-- What one message meets outside: the clock, the state of the radio if it can be read, the draw
-- DOW_GO_SLEEP, the answer to the interest for each chunk, and the random
-- numbers for the delay of the next data and for the sensor.
pub record Turn : Type 0 where
  pub now : ℕ
  pub radio : Option Radio
  pub go_sleep : Bool
  pub answer : ℕ → Answer
  pub jitter : ℕ
  pub sensor_draw : ℕ
  pub retransmit : ℕ
  pub waits : List Try

-- What the manager calls in CCN-lite: the two commands that clear interests, and the name of a text.
pub record Relay : Type 0 where
  pub clear_pit_but_own : List Interest → List Interest
  pub clear_pit_own : List Interest → List Interest
  pub name_of : List ℕ → Name

-- `(uint32_t) (DOW_X * DOW_D)`, which is 1.023 cut to 1
abbrev pub cycle : ℕ
cycle = 1

-- DOW_D
abbrev pub data_period : ℕ
data_period = 33

-- DOW_FIRST_PHASE
abbrev pub first_phase : ℕ
first_phase = 3

abbrev pub set_mode : Mode → Manager → Manager
set_mode mode m = record m { node = (record m.node { mode = mode }) }

abbrev pub set_pit : List Interest → Manager → Manager
set_pit pit m = record m { node = (record m.node { store = (record m.node.store { pit = pit }) }) }

abbrev pub is_empty : List Interest → Bool
is_empty [] = true
is_empty (_ ∷ _) = false

abbrev pub is_last : Answer → Bool
is_last last_cn = true
is_last _ = false

-- dow_second_timer
abbrev pub second_timer : Manager → Manager
second_timer m = record m { second_timer = true }

abbrev pub command : Radio → Manager → Manager
command r m = record m { commands = m.commands ++ r ∷ [] }

-- The part of `_radio_sleep` behind the one under DOW_INT_INT.
unfoldable pub radio_off : Turn → Manager → Manager
radio_off t m =
    let m' = record m { power = fall_asleep t.now m.power } in
    elim t.radio [
      | none ↦ m'
      | some idle ↦ command asleep m'
      | some asleep ↦ m'
      | some busy ↦ record m' { radio_timer = some keep_alive_period }
    ]

unfoldable pub radio_sleep : Config → Turn → Manager → Manager
unfolding radio_off
radio_sleep cfg t m =
    if cfg.int_int && ltb 0 m.node.prevent_sleep
    then if is_empty m.node.store.pit
      then radio_off t (record m { node = (record m.node { prevent_sleep = 0 }) })
      else record m { radio_timer = some keep_alive_period }
    else radio_off t m

-- The interests for chunks from `cn` on, up to an answer that says it was the last one; `left` is
-- how many the loop may still send.
unfoldable pub ask_from : (ℕ → Answer) → ℕ → ℕ → List (Option ℕ)
ask_from answer zero cn = []
ask_from answer (suc left) cn =
    let rest = ask_from answer left (cn + 1) in some cn ∷ (if is_last (answer cn) then [] else rest)

-- `_send_interests`
abbrev pub send_interests : Config → Turn → Manager → Manager
send_interests cfg t m = record m { asked = m.asked ++ ask_from t.answer cfg.per 0 }

unfoldable pub wakeup : Config → Turn → Manager → Manager
unfolding ask_from
wakeup cfg t m =
    let m' = record m { power = wake_up t.now m.power } in
    let refresh =
      λ (k : Manager). if not cfg.deputy && ltb 0 cfg.per then send_interests cfg t k else k in
    elim t.radio [
      | none ↦ m'
      | some asleep ↦ refresh (command idle m')
      | some idle ↦ refresh m'
      | some busy ↦ refresh m'
    ]

-- `dow_takeover`. Its loop sends at most CCNLRIOT_CACHE_SIZE + 2 interests.
unfoldable pub take_over : Config → Relay → Turn → Manager → Manager
unfolding wakeup ask_from
take_over cfg relay t m =
    let noted = record m { last_deputy_ts = t.now } in
    let cleared =
      (if cfg.int_int then set_pit (relay.clear_pit_own m.node.store.pit) noted else noted) in
    let woken = wakeup cfg t (set_mode deputy cleared) in
    record woken { asked = woken.asked ++ ask_from t.answer (cfg.cache_size + 2) 0 }

-- `dow_sleep`, whose argument is a uint8_t.
unfoldable pub sleep : Config → Relay → Turn → ℕ → Manager → Manager
unfolding radio_sleep
sleep cfg relay t periods m =
    let cleared = set_pit (relay.clear_pit_but_own m.node.store.pit) m in
    let m' = radio_sleep cfg t (set_mode inactive cleared) in
    let p = u8 periods in
    second_timer (
      if cfg.deputy
      then record m' { period_counter = p * deputy_shift; sleep_period = p * deputy_shift }
      else record m' { period_counter = p })
