-- ===== src/Dow/System.antt =====
-- A whole node of the caching application (ccnl_caching/): the callbacks, which CCN-lite calls at any
-- time, the manager, which gets their messages and those of its timers, and the shell.
pub mod Callbacks
pub mod Wakes
pub mod InTime
use miniature_dangerzone.Common.{ℕ, ◌≡◌, false, true, List, ◌∷◌, Option, none, some}
use miniature_dangerzone.Config.{Config}
use miniature_dangerzone.Ccn.{Packet, Content, Store, CcnLite}
use miniature_dangerzone.Dow.{Msg, second, newdata, backtosleep, is_stopped, Node}
use miniature_dangerzone.Dow.Manager.{Manager, Turn, Relay}
use miniature_dangerzone.Dow.Loop.{handle}
use miniature_dangerzone.Cache.Consumer.{Draw, consumer}
use miniature_dangerzone.Cache.Producer.{producer}
use miniature_dangerzone.Shell.{Command, run_command}

-- The build, CCN-lite, and the strategy that is registered there.
pub record Env : Type 0 where
  pub cfg : Config
  pub lite : CcnLite
  pub strategy : Store → Content → Store
  pub relay : Relay

abbrev pub put_node : Node → Manager → Manager
put_node n m = record m { node = n }

abbrev pub Runs : Manager → Type 0
Runs m = is_stopped m.node.mode ≡ false

-- One step: an interest or a chunk comes in, the manager takes the first message of its queue or one
-- of a timer that is set, or a command is given. A timer that has gone off is not set any more.
pub data Step (e : Env) : Manager → Manager → Type 0 where
  hears_interest :
      (m : Manager) (d : Draw) (pkt : Packet)
      → Step e m (put_node (producer e.cfg e.lite m.me d m.node pkt).node m)
  hears_content :
      (m : Manager) (from : ℕ) (d : Draw) (pkt : Packet)
      → Step e m (put_node (consumer e.cfg e.lite e.strategy m.me from d m.node pkt).node m)
  delivers :
      (m : Manager) (t : Turn) (msg : Msg) (rest : List Msg)
      → Runs m
      → m.node.sent ≡ msg ∷ rest
      → Step e m (handle e.cfg e.relay t msg (put_node (record m.node { sent = rest }) m))
  ticks :
      (m : Manager) (t : Turn)
      → Runs m
      → m.second_timer ≡ true
      → Step e m (handle e.cfg e.relay t second m)
  data_due :
      (m : Manager) (t : Turn) (delay : ℕ)
      → Runs m
      → m.data_timer ≡ some delay
      → Step e m (handle e.cfg e.relay t newdata (record m { data_timer = none }))
  radio_due :
      (m : Manager) (t : Turn) (delay : ℕ)
      → Runs m
      → m.radio_timer ≡ some delay
      → Step e m (handle e.cfg e.relay t backtosleep (record m { radio_timer = none }))
  sleep_due :
      (m : Manager) (t : Turn) (delay : ℕ)
      → Runs m
      → m.node.sleep_timer ≡ some delay
      → Step e m
          (handle e.cfg e.relay t backtosleep (put_node (record m.node { sleep_timer = none }) m))
  commanded : (m : Manager) (c : Command) → Step e m (run_command e.cfg e.relay c m).1

-- The states that a state can get to.
pub data Reaches (e : Env) (m : Manager) : Manager → Type 0 where
  here : Reaches e m m
  next : {m' m'' : Manager} → Reaches e m m' → Step e m' m'' → Reaches e m m''
