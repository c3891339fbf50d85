-- ===== src/Industry.antt =====
-- The demos of inria-industry: the events that the nodes tell one another (`evt_t` of inria-industry/events.h).
pub mod Accel
pub mod Light
pub mod Lux
pub mod Request
use miniature_dangerzone.Common.{ℕ}

-- The members of `evt_t` that are sent or compared, with their numbers.
pub data Event : Type 0 where
  alarm confirm warn : Event

unfoldable pub event_number : Event → ℕ
event_number alarm = 4
event_number confirm = 5
event_number warn = 6
