-- ===== src/Industry/Request.antt =====
-- The state of the light sensor node over CCN-lite and how it asks for content: `interest` and
-- `blinker_thread` of inria-industry/light_ccnl/main.c, and `send_event` of its evt_handler.c.
pub mod Name
use miniature_dangerzone.Common.{
  ℕ, zero, suc, ◌+◌, Bool, true, false, Option, none, some, List, [], ◌∷◌, ◌++◌, ltb, ◌==◌,
  if◌then◌else◌, length,
}
use miniature_dangerzone.Text.Buffer.{overwrite, c_string}
use miniature_dangerzone.Industry.{Event, alarm, confirm, warn}

-- state_t
pub data State : Type 0 where
  idle waiting ready : State

abbrev pub is_ready : State → Bool
is_ready idle = false
is_ready waiting = false
is_ready ready = true

-- `state` and `small_buf`, and `i` of the thread that blinks
pub record Client : Type 0 where
  pub state : State
  pub small_buf : List ℕ
  pub i : ℕ

-- `ccnl_riot_client_get` is no part of the repository: it is given a name and answers whether any
-- content came.
abbrev pub Get : Type 0
Get = List ℕ → Bool

-- interest: the state, and the name asked for
unfoldable pub interest : Get → List ℕ → Client → Client × List ℕ
unfolding overwrite c_string
interest get argv s =
    let buf : List ℕ = overwrite argv s.small_buf in
    let name : List ℕ = c_string buf in
    (record s { small_buf = buf; state = if get name then ready else s.state }, name)

-- "/riot/appserver/test"
abbrev pub riot_interest : List ℕ
riot_interest =
    b'/' ∷ b'r' ∷ b'i' ∷ b'o' ∷ b't' ∷ b'/' ∷ b'a' ∷ b'p' ∷ b'p' ∷ b's' ∷ b'e' ∷ b'r' ∷ b'v' ∷ b'e'
    ∷ b'r' ∷ b'/' ∷ b't' ∷ b'e' ∷ b's' ∷ b't' ∷ []

-- The case of WARN and ALARM in `send_event`.
unfoldable pub ask : Get → Client → Client × List (List ℕ)
unfolding interest
ask get s =
    let asked : Client × List ℕ = interest get riot_interest (record s { state = waiting }) in
    if is_ready s.state then (s, []) else (asked.0, asked.1 ∷ [])

-- send_event: the state, and the names asked for
unfoldable pub send_event : Get → Event → Client → Client × List (List ℕ)
unfolding ask
send_event get confirm s = (s, [])
send_event get warn s = ask get s
send_event get alarm s = ask get s

-- One round of `blinker_thread`.
unfoldable pub blink : Client → Client
blink s = record s {
  i = if is_ready s.state then (if ltb 10 s.i then 0 else s.i + 1) else s.i;
  state = if is_ready s.state then (if ltb 10 s.i then idle else ready) else s.state;
}

unfoldable pub blinks : ℕ → Client → Client
unfolding blink
blinks zero s = s
blinks (suc n) s = blinks n (blink s)
