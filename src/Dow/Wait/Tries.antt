-- ===== src/Dow/Wait/Tries.antt =====
-- How many interests `ccnl_helper_int` sends.
use miniature_dangerzone.Common.{
  ℕ, zero, suc, ◌≤◌, ◌≡◌, refl, Bool, true, false, List, [], ◌∷◌, some, inl, inr, ◌⊎◌, arith,
  length, All, Option-cases,
}
use miniature_dangerzone.Config.{int_retries}
use miniature_dangerzone.Dow.Wait.{
  Waiter, wait_loop, patience, wait_for_chunk, Answer, no_answer, Try, try_loop, helper_int,
}
use miniature_dangerzone.Dow.Wait.Ends.{is_done, has_timeout, wait_loop_ends}

abbrev pub is_answer : Answer → Bool
is_answer no_answer = false
is_answer _ = true

try_loop_ends :
    (retransmit : ℕ) (wait_for_int : Bool) (left : ℕ) (ts : List Try) (w : Waiter)
    → left ≤ length ts
    → All (λ t. has_timeout t.rounds ≡ true) ts
    → is_done (try_loop retransmit wait_for_int left ts w) ≡ true
unfolding try_loop wait_for_chunk
try_loop_ends retransmit wait_for_int zero ts w h all = refl
try_loop_ends retransmit wait_for_int (suc left) [] w h all = absurd (omega arith)
try_loop_ends retransmit wait_for_int (suc left) (t ∷ ts) w h all =
    let waits = wait_loop_ends wait_for_int t.start (patience retransmit) t.rounds w all.0 in
    elim (Option-cases (wait_loop wait_for_int t.start (patience retransmit) t.rounds w)) [
      | inl stuck ↦ absurd (ground arith)
      | inr ((result, w1), ends) ↦
          let later = try_loop_ends retransmit wait_for_int left ts w1 (omega arith) all.1 in
          ground (arith, later)
    ]

try_loop_sent :
    (retransmit : ℕ) (wait_for_int : Bool) (left : ℕ) (ts : List Try) (w : Waiter) (sent : ℕ)
    (reply : Answer) (w' : Waiter)
    → try_loop retransmit wait_for_int left ts w ≡ some (sent, reply, w')
    → (sent ≤ left) × ((sent ≡ left) ⊎ (is_answer reply ≡ true))
unfolding try_loop
try_loop_sent retransmit wait_for_int zero ts w sent reply w' e = ground arith
try_loop_sent retransmit wait_for_int (suc left) [] w sent reply w' e = absurd (ground arith)
try_loop_sent retransmit wait_for_int (suc left) (t ∷ ts) w sent reply w' e =
    elim (Option-cases (wait_for_chunk retransmit wait_for_int t.start t.rounds w)) [
      | inl stuck ↦ absurd (ground arith)
      | inr ((result, w1), ends) ↦
          elim (Option-cases (try_loop retransmit wait_for_int left ts w1)) [
            | inl never ↦ ground arith
            | inr ((sent1, answer1, w2), later) ↦
                let rest =
                  try_loop_sent retransmit wait_for_int left ts w1 sent1 answer1 w2 later in
                ground (arith, rest)
          ]
    ]

-- Where each of three waits gets the message of its timer, if nothing else ends it before,
-- `ccnl_helper_int` returns. It has sent at most three interests, and exactly three if it
-- reports a timeout.
pub helper_int_returns :
    (retransmit : ℕ) (wait_for_int : Bool) (ts : List Try) (w : Waiter)
    → int_retries ≤ length ts
    → All (λ t. has_timeout t.rounds ≡ true) ts
    → (sent : ℕ) × (reply : Answer) × (w' : Waiter) × (helper_int retransmit wait_for_int ts w
        ≡ some (sent, reply, w'))
      × (sent ≤ int_retries)
      × ((sent ≡ int_retries) ⊎ (is_answer reply ≡ true))
unfolding helper_int
helper_int_returns retransmit wait_for_int ts w enough all =
    let w0 = record w { buffer = [] } in
    let done = try_loop_ends retransmit wait_for_int int_retries ts w0 enough all in
    elim (Option-cases (try_loop retransmit wait_for_int int_retries ts w0)) [
      | inl stuck ↦ absurd (ground arith)
      | inr ((sent, reply, w'), ends) ↦
          let (few, which) =
            try_loop_sent retransmit wait_for_int int_retries ts w0 sent reply w' ends in
          (sent, reply, w', ends, few, which)
    ]
