-- ===== src/Dow/Wait/Ends.antt =====
-- That waiting ends, what it leaves of the period, and when it ends too early.
use miniature_dangerzone.Common.{
  ℕ, zero, suc, ◌+◌, ◌-◌, ◌≤◌, ◌<◌, ◌≡◌, Bool, true, false, List, [], ◌∷◌, Option, none, some, inl,
  inr, arith, sub32, two32, any_if, Option-cases, ◌∙◌,
}
use miniature_dangerzone.Dow.Wait.{
  Arrival, timeout, newdata, second, other, unknown_content, Round, Waiter, Result, timed_out, hear,
  is_negative, wait_loop, patience, wait_for_chunk, Answer, Try, try_loop, helper_int,
}
use miniature_dangerzone.Config.{int_retries}

abbrev pub is_timeout : Arrival → Bool
is_timeout timeout = true
is_timeout _ = false

-- The message of the timer is among those that come.
abbrev pub has_timeout : List Round → Bool
has_timeout rs = any_if (λ r. is_timeout r.message) rs

abbrev pub is_done {ℓ} : {A : Type ℓ} → Option A → Bool
is_done none = false
is_done (some _) = true

timeout-hear :
    (wait_for_int : Bool) (a : Arrival) (w : Waiter)
    → is_timeout a ≡ true
    → (hear wait_for_int a w).0 ≡ some timed_out
unfolding hear
timeout-hear wait_for_int a w h = ground arith

pub wait_loop_ends :
    (wait_for_int : Bool) (now remaining : ℕ) (rs : List Round) (w : Waiter)
    → has_timeout rs ≡ true
    → is_done (wait_loop wait_for_int now remaining rs w) ≡ true
unfolding wait_loop
wait_loop_ends wait_for_int now remaining [] w h = absurd (ground arith)
wait_loop_ends wait_for_int now remaining (r ∷ rs) w h =
    let left = sub32 remaining (sub32 r.read now) in
    let later = λ (k : has_timeout rs ≡ true).
      wait_loop_ends wait_for_int now left rs (hear wait_for_int r.message w).1 k in
    let stops = timeout-hear wait_for_int r.message w in
    elim (Option-cases (hear wait_for_int r.message w).0) [
      | inl goes_on ↦ ground (arith, later, stops)
      | inr (result, ends) ↦ ground arith
    ]

-- The waiter keeps a period counter that is not 0.
hear_period :
    (wait_for_int : Bool) (a : Arrival) (w : Waiter)
    → 1 ≤ w.period_counter
    → w.period_counter < two32
    → let w' = (hear wait_for_int a w).1 in
      (1 ≤ w'.period_counter)
      × (w'.period_counter ≤ w.period_counter)
      × (w.period_counter + w.seconds ≤ w'.period_counter + w'.seconds)
unfolding hear
hear_period wait_for_int a w h small = ground arith

-- A wait that starts with a period counter other than 0 and ends leaves it other than 0 and not
-- greater than before, and takes off at most one for each message of the second timer.
pub wait_loop_period :
    (wait_for_int : Bool) (now remaining : ℕ) (rs : List Round) (w w' : Waiter) (result : Result)
    → 1 ≤ w.period_counter
    → w.period_counter < two32
    → wait_loop wait_for_int now remaining rs w ≡ some (result, w')
    → (1 ≤ w'.period_counter)
      × (w'.period_counter ≤ w.period_counter)
      × (w.period_counter + w.seconds ≤ w'.period_counter + w'.seconds)
unfolding wait_loop
wait_loop_period wait_for_int now remaining [] w w' result h small e = absurd (ground arith)
wait_loop_period wait_for_int now remaining (r ∷ rs) w w' result h small e =
    let left = sub32 remaining (sub32 r.read now) in
    let w1 = (hear wait_for_int r.message w).1 in
    let one = hear_period wait_for_int r.message w h small in
    elim (Option-cases (hear wait_for_int r.message w).0) [
      | inl goes_on ↦
          let later = wait_loop_period wait_for_int now left rs w1 w' result one.0 (omega arith) in
          ground (arith, later, one)
      | inr (result1, ends) ↦ ground (arith, one)
    ]

try_loop_period :
    (retransmit : ℕ) (wait_for_int : Bool) (left : ℕ) (ts : List Try) (w w' : Waiter) (sent : ℕ)
    (reply : Answer)
    → 1 ≤ w.period_counter
    → w.period_counter < two32
    → try_loop retransmit wait_for_int left ts w ≡ some (sent, reply, w')
    → (1 ≤ w'.period_counter) × (w'.period_counter ≤ w.period_counter)
unfolding try_loop wait_for_chunk
try_loop_period retransmit wait_for_int zero ts w w' sent reply h small e = ground (arith, e)
try_loop_period retransmit wait_for_int (suc left) [] w w' sent reply h small e =
    absurd (ground arith)
try_loop_period retransmit wait_for_int (suc left) (t ∷ ts) w w' sent reply h small e =
    elim (Option-cases (wait_loop wait_for_int t.start (patience retransmit) t.rounds w)) [
      | inl stuck ↦ absurd (ground arith)
      | inr ((result, w1), ends) ↦
          let one =
            wait_loop_period wait_for_int t.start (patience retransmit) t.rounds w w1 result h small
              ends in
          elim (Option-cases (try_loop retransmit wait_for_int left ts w1)) [
            | inl never ↦ ground (arith, one)
            | inr ((sent1, answer1, w2), later) ↦
                let rest =
                  try_loop_period retransmit wait_for_int left ts w1 w2 sent1 answer1 one.0
                    (omega (arith, one)) later in
                ground (arith, rest, one)
          ]
    ]

-- So does the whole of `ccnl_helper_int`, where it returns.
pub helper_int_period :
    (retransmit : ℕ) (wait_for_int : Bool) (ts : List Try) (w w' : Waiter) (sent : ℕ)
    (reply : Answer)
    → 1 ≤ w.period_counter
    → w.period_counter < two32
    → helper_int retransmit wait_for_int ts w ≡ some (sent, reply, w')
    → (1 ≤ w'.period_counter) × (w'.period_counter ≤ w.period_counter)
unfolding helper_int
helper_int_period retransmit wait_for_int ts w w' sent reply h small e =
    try_loop_period retransmit wait_for_int int_retries ts (record w { buffer = [] }) w' sent reply
      h small e

-- The messages that a wait for a chunk passes over.
abbrev pub is_passed : Arrival → Bool
is_passed unknown_content = true
is_passed newdata = true
is_passed second = true
is_passed other = true
is_passed _ = false

wait_loop_late :
    (wait_for_int : Bool) (now remaining : ℕ) (r : Round) (rs : List Round) (w : Waiter)
    → is_negative (sub32 remaining (sub32 r.read now)) ≡ true
    → wait_loop wait_for_int now remaining (r ∷ rs) w ≡ some (timed_out, w)
unfolding wait_loop
wait_loop_late wait_for_int now remaining r rs w late = ground arith

wait_loop_passes :
    (wait_for_int : Bool) (now remaining : ℕ) (r : Round) (rs : List Round) (w : Waiter)
    → is_negative (sub32 remaining (sub32 r.read now)) ≡ false
    → (hear wait_for_int r.message w).0 ≡ none
    → wait_loop wait_for_int now remaining (r ∷ rs) w
      ≡ wait_loop wait_for_int now
          (sub32 remaining (sub32 r.read now))
          rs
          (hear wait_for_int r.message w).1
unfolding wait_loop
wait_loop_passes wait_for_int now remaining r rs w able passes = rw able (ground arith)

-- A wait for a chunk that gets one message which it passes over, and reads the clock `a` and then
-- `b` microseconds after its start, with a <= b, gives up with a timeout at `b` where a + b is
-- more than its patience, although `b` is not. The patience is below 2^31 and the clock does not
-- wrap.
pub wait_for_chunk_early :
    (retransmit now a b : ℕ) (w : Waiter) (first : Arrival) (rest : List Round)
    (second_message : Arrival)
    → now + b < two32
    → patience retransmit < 2147483648
    → is_passed first ≡ true
    → a ≤ b
    → b ≤ patience retransmit
    → patience retransmit < a + b
    → (w' : Waiter) × (wait_for_chunk retransmit false now
          (record { read = now + a; message = first }
            ∷ record { read = now + b; message = second_message }
            ∷ rest)
          w
        ≡ some (timed_out, w'))
unfolding wait_for_chunk
wait_for_chunk_early retransmit now a b w first rest second_message small able passed le fits over =
    let p = patience retransmit in
    let once : sub32 p (sub32 (now + a) now) ≡ p - a = omega arith in
    let twice : is_negative (sub32 (sub32 p (sub32 (now + a) now)) (sub32 (now + b) now)) ≡ true =
      rw once (ground arith) in
    let still : is_negative (sub32 p (sub32 (now + a) now)) ≡ false = rw once (ground arith) in
    let passes : (hear false first w).0 ≡ none = unfold hear in ground arith in
    let next : Round = record { read = now + b; message = second_message } in
    (
      (hear false first w).1,
      wait_loop_passes false now p (record { read = now + a; message = first }) (next ∷ rest) w
            still passes
          ∙ wait_loop_late false now (sub32 p (sub32 (now + a) now)) next rest
              (hear false first w).1 twice,
    )
