-- ===== src/Industry/Request/Name.antt =====
-- Which name the light sensor node asks for, and how long it stays in the state READY.
use miniature_dangerzone.Common.{
  ℕ, zero, suc, ◌+◌, ◌≤◌, ◌≡◌, refl, List, ◌∷◌, ◌++◌, arith, length, ap, ◌∙◌,
}
use miniature_dangerzone.Text.Buffer.{drop, overwrite, c_string, NoNul, c_string-app, c_string-drop}
use miniature_dangerzone.Industry.Request.{idle, ready, Client, Get, interest, blink, blinks}

-- `interest` does not end the name in its buffer: where the buffer holds a name that is no shorter
-- than the one to be asked for, the node asks for that name with the end of the older one behind it.
pub stale_tail :
    (get : Get) (argv old rest : List ℕ) (s : Client)
    → NoNul argv
    → NoNul old
    → length argv ≤ length old
    → s.small_buf ≡ old ++ 0 ∷ rest
    → (interest get argv s).1 ≡ argv ++ drop (length argv) old
unfolding interest overwrite
stale_tail get argv old rest s fresh ended le holds =
    ap (λ b. c_string (argv ++ drop (length argv) b)) holds
    ∙ c_string-app argv (drop (length argv) (old ++ 0 ∷ rest)) fresh
    ∙ ap (λ b. argv ++ b) (c_string-drop (length argv) old rest ended le)

blink_on : (s : Client) → s.state ≡ ready → s.i ≤ 10 → blink s ≡ record s { i = s.i + 1 }
unfolding blink
blink_on s r le = ground (arith, r, le)

blink_last : (s : Client) → s.state ≡ ready → s.i ≡ 11 → blink s ≡ record s { i = 0; state = idle }
unfolding blink
blink_last s r last = ground (arith, r, last)

stays_ready :
    (n : ℕ) (s : Client) → s.state ≡ ready → n + s.i ≤ 11 → blinks n s ≡ record s { i = n + s.i }
unfolding blinks
stays_ready zero s r le = ground arith
stays_ready (suc n) s r le =
    ap (blinks n) (blink_on s r (omega arith))
    ∙ stays_ready n (record s { i = s.i + 1 }) r (omega arith)
    ∙ ap (λ i. record s { i = i }) (omega arith)

blinks-suc : (n : ℕ) (s : Client) → blinks (suc n) s ≡ blink (blinks n s)
unfolding blinks
blinks-suc zero s = refl
blinks-suc (suc n) s = blinks-suc n (blink s)

-- A node that is READY with a count of `i` is still READY after 11 - i rounds of blinking, and with the
-- round after them it is IDLE, and the count is 0 again.
pub ready_ends :
    (n : ℕ) (s : Client)
    → s.state ≡ ready
    → n + s.i ≡ 11
    → ((blinks n s).state ≡ ready) × (blinks (suc n) s ≡ record s { i = 0; state = idle })
ready_ends n s r sum =
    let same = stays_ready n s r (omega arith) in
    (
      ap (λ x. x.state) same ∙ r,
      blinks-suc n s ∙ ap blink same ∙ blink_last (record s { i = n + s.i }) r sum,
    )
