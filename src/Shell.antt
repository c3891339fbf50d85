-- ===== src/Shell.antt =====
-- The shell commands of ccnl_caching/main.c that change the state of the node; those that set what
-- the node starts with are in Settings.
pub mod Settings
use miniature_dangerzone.Common.{
  ℕ, ◌+◌, ◌≤◌, ◌≡◌, refl, true, false, not, ◌&&◌, List, [], ◌∷◌, ◌++◌, arith, ltb, leb,
  if◌then◌else◌, length, get_or, ap, ◌∙◌,
}
use miniature_dangerzone.Config.{Config, sensor_max_nr}
use miniature_dangerzone.Dow.{stopped}
use miniature_dangerzone.Dow.Manager.{Manager, Relay, set_mode}
use miniature_dangerzone.Dow.Loop.{subscribe}

-- A command that is modelled, with the words behind its name.
pub data Command : Type 0 where
  stop : Command
  prefix sensor : List (List ℕ) → Command

-- argv[1][0], where an empty word has its NUL there
abbrev pub letter : List (List ℕ) → ℕ
letter args = get_or (get_or args 0 []) 0 0

-- _sub_prefix: what it returns, and the state.
unfoldable pub sub_prefix : Relay → List (List ℕ) → Manager → ℕ × Manager
sub_prefix relay args m =
    if m.me.is_registered
    then (1, m)
    else if ltb (length args) 1
    then (1, m)
    else (0, subscribe relay (letter args) m)

-- _add_sensor
unfoldable pub add_sensor : Config → Relay → List (List ℕ) → Manager → ℕ × Manager
add_sensor cfg relay args m =
    let added = record m { sensors = m.sensors ++ letter args ∷ [] } in
    if ltb (length args) 1
    then (1, m)
    else if leb sensor_max_nr (length m.sensors)
    then (1, m)
    else if cfg.repl_strat && not m.me.is_registered
    then (0, subscribe relay (letter args) added)
    else (0, added)

unfoldable pub run_command : Config → Relay → Command → Manager → ℕ × Manager
unfolding sub_prefix add_sensor
run_command cfg relay stop m = (0, set_mode stopped m)
run_command cfg relay (prefix args) m = sub_prefix relay args m
run_command cfg relay (sensor args) m = add_sensor cfg relay args m

-- The state after a series of commands.
unfoldable pub session : Config → Relay → List Command → Manager → Manager
unfolding run_command
session cfg relay [] m = m
session cfg relay (c ∷ cs) m = session cfg relay cs (run_command cfg relay c m).1

-- There are at most DOW_SENSOR_MAX_NR sensors, and where content is replaced by the strategy, a node
-- with a sensor has registered for a letter.
pub record WellSet (cfg : Config) (m : Manager) : Type 0 where
  pub few : length m.sensors ≤ sensor_max_nr
  pub subscribed : ((cfg.repl_strat && ltb 0 (length m.sensors)) && not m.me.is_registered) ≡ false

length-snoc : (xs : List ℕ) (x : ℕ) → length (xs ++ x ∷ []) ≡ length xs + 1
length-snoc [] x = refl
length-snoc (y ∷ xs) x = ground (arith, length-snoc xs x)

run_command-WellSet :
    (cfg : Config) (relay : Relay) (c : Command) (m : Manager)
    → WellSet cfg m
    → WellSet cfg (run_command cfg relay c m).1
unfolding run_command sub_prefix add_sensor
run_command-WellSet cfg relay stop m w = record { few = w.few; subscribed = w.subscribed }
run_command-WellSet cfg relay (prefix args) m w = record {
  few = ground (arith, w);
  subscribed = ground (arith, w);
}
run_command-WellSet cfg relay (sensor args) m w =
    let one = length-snoc m.sensors (letter args) in
    record { few = ground (arith, w, one); subscribed = ground (arith, w, one) }

-- From a state in which it is so, the commands stop, prefix and sensor keep at most
-- DOW_SENSOR_MAX_NR sensors, and, where content is replaced by the strategy, a letter for every
-- node that has a sensor.
pub session-WellSet :
    (cfg : Config) (relay : Relay) (cs : List Command) (m : Manager)
    → WellSet cfg m
    → WellSet cfg (session cfg relay cs m)
unfolding session
session-WellSet cfg relay [] m w = w
session-WellSet cfg relay (c ∷ cs) m w =
    session-WellSet cfg relay cs (run_command cfg relay c m).1 (run_command-WellSet cfg relay c m w)

registered_stays :
    (cfg : Config) (relay : Relay) (c : Command) (m : Manager)
    → m.me.is_registered ≡ true
    → (run_command cfg relay c m).1.me ≡ m.me
unfolding run_command sub_prefix add_sensor
registered_stays cfg relay stop m h = refl
registered_stays cfg relay (prefix args) m h = rw h refl
registered_stays cfg relay (sensor args) m h = ground arith

-- A node that has registered for a letter keeps it, and all that it knows of itself, whatever of
-- the commands stop, prefix and sensor follow.
pub session_keeps_letter :
    (cfg : Config) (relay : Relay) (cs : List Command) (m : Manager)
    → m.me.is_registered ≡ true
    → (session cfg relay cs m).me ≡ m.me
unfolding session
session_keeps_letter cfg relay [] m h = refl
session_keeps_letter cfg relay (c ∷ cs) m h =
    let same = registered_stays cfg relay c m h in
    session_keeps_letter cfg relay cs (run_command cfg relay c m).1
      (ap (λ k. k.is_registered) same ∙ h)
    ∙ same
