-- ===== src/Dow.antt =====
-- The state of the caching manager (ccnl_caching/dow.c, dow.h) that the callbacks of
-- ccnl_caching/ccnl_helper.c share with it.
pub mod Power
pub mod Wait
pub mod Manager
pub mod Data
pub mod Loop
pub mod Beacon
pub mod Takeover
pub mod System
use miniature_dangerzone.Common.{ℕ, Bool, List, ◌++◌, [], ◌∷◌, Option, true, false}
use miniature_dangerzone.Ccn.{Store}
use miniature_dangerzone.Cache.Presence.{Presence}

-- dow_state_t
pub data Mode : Type 0 where
  deputy handover inactive stopped : Mode

abbrev pub is_deputy : Mode → Bool
is_deputy deputy = true
is_deputy _ = false

abbrev pub is_handover : Mode → Bool
is_handover handover = true
is_handover _ = false

abbrev pub is_inactive : Mode → Bool
is_inactive inactive = true
is_inactive _ = false

abbrev pub is_stopped : Mode → Bool
is_stopped stopped = true
is_stopped _ = false

-- The message types DOW_MSG_*.
pub data Msg : Type 0 where
  second takeover newdata go_inactive backtosleep beacon beacon_end : Msg
  received received_ack received_int : Msg

pub record Node : Type 0 where
  pub mode : Mode  -- dow_state
  pub store : Store
  pub interest_count : ℕ  -- dow_my_prefix_interest_count, a uint8_t
  pub prevent_sleep : ℕ  -- dow_prevent_sleep, a uint8_t
  pub presence : List Presence  -- dow_pfx_pres
  pub sent : List Msg  -- what was sent to `dow_pid`, oldest first
  pub sleep_timer : Option ℕ  -- the delay that `_sleep_timer` was last set to, if it is set

abbrev pub send : Msg → Node → Node
send m n = record n { sent = n.sent ++ m ∷ [] }
