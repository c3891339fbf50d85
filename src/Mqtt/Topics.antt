-- ===== src/Mqtt/Topics.antt =====
-- What `_cmd_sub` of dagstuhl23_demo/main.c subscribes to, and when it leaves its array.
use miniature_dangerzone.Common.{
  ℕ, ◌+◌, ◌*◌, ◌≤◌, ◌<◌, ◌≡◌, ◌↔◌, ◌⊎◌, inl, inr, none, some, List, [], ◌∷◌, ◌++◌, arith,
  Bool-cases, ℤ, pos, negsuc, ◌≤ℤ◌, ◌<ℤ◌, ltb, if◌then◌else◌, length, take, ap, ◌∙◌,
}
use miniature_dangerzone.Text.Buffer.{
  drop, overwrite, c_string, NoNul, c_string-app, drop-drop, drop-take, length-app, length-drop,
  length-take,
}
use miniature_dangerzone.Mqtt.{
  max_topics, max_len_topic, Session, Call, Qos, negative, disconnect, network_disconnect,
  cmd_discon, qos0, get_qos, subscribe, Result, word, row, write_row, read_row, sub_in_row, cmd_sub,
}

row-none : (z : ℤ) → row z ≡ none ↔ ((z <ℤ pos 0) ⊎ (pos max_topics ≤ℤ z))
unfolding row
row-none (pos n) = ground arith
row-none (negsuc n) = ground arith

-- `_cmd_sub` turns to a row outside of its array, which it writes to and subscribes to, exactly if it is given a topic of at most a hundred bytes while
-- the count of topics is 4, which its guard lets through, or negative.
pub cmd_sub_outside :
    (ret discon : ℤ) (args : List (List ℕ)) (s : Session)
    → cmd_sub ret discon args s ≡ none ↔ (
        (1 ≤ length args)
        × (length (word args 0) ≤ max_len_topic)
        × ((s.topic_cnt ≡ pos 4) ⊎ (s.topic_cnt <ℤ pos 0)))
unfolding cmd_sub
cmd_sub_outside ret discon args s = ground (arith, row-none s.topic_cnt)

read-write :
    (n : ℕ) (name topics : List ℕ)
    → NoNul name
    → n * max_len_topic ≤ length topics
    → read_row n (write_row n name topics)
      ≡ name ++ c_string (drop (n * max_len_topic + length name) topics)
unfolding read_row write_row overwrite
read-write n name topics clean le =
    ap c_string (drop-take (n * max_len_topic) topics _ le)
    ∙ c_string-app name _ clean
    ∙ ap (λ b. name ++ c_string b) (drop-drop (length name) (n * max_len_topic) topics)

pub length-write_row :
    (n : ℕ) (name topics : List ℕ)
    → n * max_len_topic + length name ≤ length topics
    → length (write_row n name topics) ≡ length topics
unfolding write_row overwrite
length-write_row n name topics le =
    let behind = drop (n * max_len_topic) topics in
    length-app (take (n * max_len_topic) topics) (name ++ drop (length name) behind)
    ∙ ground (
      arith,
      length-app name (drop (length name) behind),
      length-take (n * max_len_topic) topics (omega (arith, le)),
      length-drop (length name) behind,
      length-drop (n * max_len_topic) topics,
      le,
    )

first_call :
    (n : ℕ) (ret discon : ℤ) (name : List ℕ) (qos : Qos) (s : Session)
    → (rest : List Call) × ((sub_in_row n ret discon name qos s).2
        ≡ subscribe (read_row n (write_row n name s.topics)) qos ∷ rest)
unfolding sub_in_row cmd_discon
first_call n ret discon name qos s = elim (Bool-cases (negative ret)) [
  | inl refused ↦ (disconnect ∷ network_disconnect ∷ [], ground (arith, refused))
  | inr taken ↦ ([], ground (arith, taken))
]

-- The topic that is subscribed to in row `n` is the name that was given, and behind it whatever the
-- array holds from there up to the next NUL: the copy does not end the name.
pub sub_topic :
    (ret discon : ℤ) (args : List (List ℕ)) (n : ℕ) (s : Session)
    → 1 ≤ length args
    → NoNul (word args 0)
    → length (word args 0) ≤ max_len_topic
    → s.topic_cnt ≡ pos n
    → n < max_topics
    → length s.topics ≡ 400
    → (r : Result) × (qos : Qos) × (rest : List Call) × (cmd_sub ret discon args s ≡ some r)
      × (r.2
          ≡ subscribe
              (word args 0 ++ c_string (drop (n * max_len_topic + length (word args 0)) s.topics))
              qos
            ∷ rest)
unfolding cmd_sub row
sub_topic ret discon args n s given clean short cnt lt full =
    let name = word args 0 in
    let qos : Qos = if ltb 1 (length args) then get_qos (word args 1) else qos0 in
    let (rest, calls) = first_call n ret discon name qos s in
    let named = read-write n name s.topics clean (omega (arith, lt, full)) in
    (
      sub_in_row n ret discon name qos s,
      qos,
      rest,
      ground (arith, given, short, cnt, lt),
      calls ∙ ap (λ t. subscribe t qos ∷ rest) named,
    )
