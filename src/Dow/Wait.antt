-- ===== src/Dow/Wait.antt =====
-- Waiting for an answer: `_wait_for_chunk` and `ccnl_helper_int` of ccnl_caching/ccnl_helper.c.
pub mod Ends
pub mod Tries
use miniature_dangerzone.Common.{
  ℕ, zero, suc, ◌+◌, ◌-◌, ◌*◌, Bool, true, false, List, [], ◌∷◌, Option, none, some, ℤ, pos, negsuc,
  ltb, leb, ltb_ℤ, ◌==◌, u32, sub32, if◌then◌else◌, length, take,
}
use miniature_dangerzone.Config.{int_timeout, int_retries}
use miniature_dangerzone.Ccn.{memcmp_eq}
use miniature_dangerzone.Cache.Consumer.{cont_ack}

-- The messages that the loop tells apart: those of the callbacks, a packet from CCN-lite with its
-- bytes, a packet of another type, the timeout, new data, the second timer, and any other.
pub data Arrival : Type 0 where
  received received_ack received_int : Arrival
  chunk : List ℕ → Arrival
  unknown_content timeout newdata second other : Arrival

-- One round of the loop: what `xtimer_now()` gives at its top, and the message it then receives.
pub record Round : Type 0 where
  pub read : ℕ
  pub message : Arrival

-- What the loop changes: the buffer, `dow_period_counter`, and how often it has postponed new data
-- by a second and set the second timer again.
pub record Waiter : Type 0 where
  pub buffer : List ℕ
  pub period_counter : ℕ
  pub postponed : ℕ
  pub seconds : ℕ

-- What the function returns: a number of bytes or CCNLRIOT_RECEIVED_CHUNK, or -ETIMEDOUT.
pub data Result : Type 0 where
  got : ℕ → Result
  timed_out : Result

-- CCNLRIOT_BUF_SIZE
abbrev pub buf_size : ℕ
buf_size = 128

-- `int32_t` below 0
abbrev pub is_negative : ℕ → Bool
is_negative w = leb 2147483648 w

-- `memcpy` of so many bytes at the front of the buffer.
unfoldable pub overwrite : List ℕ → List ℕ → List ℕ
overwrite [] old = old
overwrite (x ∷ xs) [] = x ∷ xs
overwrite (x ∷ xs) (_ ∷ old) = x ∷ overwrite xs old

-- "ACK" with its NUL
abbrev pub ack_bytes : List ℕ
ack_bytes = b'A' ∷ b'C' ∷ b'K' ∷ 0 ∷ []

abbrev pub step_second : Waiter → Waiter
step_second w = record w {
  period_counter = (if w.period_counter == 1 then 1 else sub32 w.period_counter 1);
  seconds = w.seconds + 1;
}

-- What one message does: the end with a result, or one more round.
unfoldable pub hear : Bool → Arrival → Waiter → Option Result × Waiter
unfolding overwrite
hear wait_for_int received w = if wait_for_int then (none, w) else (some (got 1), w)
hear wait_for_int received_ack w =
    if wait_for_int
    then (none, w)
    else (some (got 4), record w { buffer = overwrite ack_bytes w.buffer })
hear wait_for_int received_int w = if wait_for_int then (some (got 1), w) else (none, w)
hear wait_for_int (chunk bytes) w =
    let kept = take buf_size bytes in
    (some (got (length kept)), record w { buffer = overwrite kept w.buffer })
hear wait_for_int unknown_content w = (none, w)
hear wait_for_int timeout w = (some timed_out, w)
hear wait_for_int newdata w = (none, record w { postponed = w.postponed + 1 })
hear wait_for_int second w = (none, step_second w)
hear wait_for_int other w = (none, w)

-- The loop, for the time `now` that was read before it, and the `int32_t` that remains. `none` says
-- that it still waits when the messages run out.
unfoldable pub wait_loop : Bool → ℕ → ℕ → List Round → Waiter → Option (Result × Waiter)
unfolding hear
wait_loop wait_for_int now remaining [] w = none
wait_loop wait_for_int now remaining (r ∷ rs) w =
    let left = sub32 remaining (sub32 r.read now) in
    let (ends, w') = hear wait_for_int r.message w in
    let rest = wait_loop wait_for_int now left rs w' in
    if is_negative left
    then some (timed_out, w)
    else elim ends [ none ↦ rest | some result ↦ some (result, w') ]

-- (CCNL_MAX_INTEREST_RETRANSMIT ? CCNL_MAX_INTEREST_RETRANSMIT : 1) * CCNLRIOT_INT_TIMEOUT
abbrev pub patience : ℕ → ℕ
patience retransmit = (if retransmit == 0 then 1 else retransmit) * int_timeout

unfoldable pub wait_for_chunk : ℕ → Bool → ℕ → List Round → Waiter → Option (Result × Waiter)
unfolding wait_loop
wait_for_chunk retransmit wait_for_int now rs w =
    wait_loop wait_for_int now (patience retransmit) rs w

-- CCNLRIOT_TIMEOUT, CCNLRIOT_RECEIVED_CHUNK, CCNLRIOT_LAST_CN
pub data Answer : Type 0 where
  no_answer received_chunk last_cn : Answer

-- One round of waiting: the time at its start, and the messages.
pub record Try : Type 0 where
  pub start : ℕ
  pub rounds : List Round

abbrev is_success : Result → Bool
is_success (got n) = ltb 0 n
is_success timed_out = false

abbrev pub conclude : Bool → Waiter → Answer
conclude success w =
    if success then if memcmp_eq 3 w.buffer cont_ack then last_cn else received_chunk else no_answer

-- The loop over the interests: how many were sent, the answer, and what has changed.
unfoldable pub try_loop : ℕ → Bool → ℕ → List Try → Waiter → Option (ℕ × Answer × Waiter)
unfolding wait_for_chunk
try_loop retransmit wait_for_int zero ts w = some (0, no_answer, w)
try_loop retransmit wait_for_int (suc left) [] w = none
try_loop retransmit wait_for_int (suc left) (t ∷ ts) w =
    elim (wait_for_chunk retransmit wait_for_int t.start t.rounds w) [
      | none ↦ none
      | some (result, w') ↦
          let rest = try_loop retransmit wait_for_int left ts w' in
          if is_success result
          then some (1, conclude true w', w')
          else elim rest [ none ↦ none | some (sent, answer, w'') ↦ some (suc sent, answer, w'') ]
    ]

-- `ccnl_helper_int`, which first clears the buffer.
unfoldable pub helper_int : ℕ → Bool → List Try → Waiter → Option (ℕ × Answer × Waiter)
unfolding try_loop
helper_int retransmit wait_for_int ts w =
    try_loop retransmit wait_for_int int_retries ts (record w { buffer = [] })
