-- ===== src/Mqtt.antt =====
-- The MQTT client of dagstuhl23_demo/main.c: its shell commands and its publisher.
pub mod Topics
use miniature_dangerzone.Common.{
  ℕ, suc, ◌+◌, ◌-◌, ◌*◌, Bool, true, false, Option, none, some, List, [], ◌∷◌, ◌++◌, ℤ, pos, negsuc,
  minus_one, ltb_ℤ, eqb_ℤ, pos_part, ltb, leb, ◌==◌, if◌then◌else◌, length, get_or, take,
}
use miniature_dangerzone.Text.{strtol10}
use miniature_dangerzone.Text.Buffer.{drop, overwrite, c_string}

-- MAX_TOPICS and MAX_LEN_TOPIC
abbrev pub max_topics : ℕ
max_topics = 4

abbrev pub max_len_topic : ℕ
max_len_topic = 100

-- `topic_cnt`, and the bytes of `_topic_to_subscribe`, row behind row
pub record Session : Type 0 where
  pub topic_cnt : ℤ
  pub topics : List ℕ

-- enum QoS
pub data Qos : Type 0 where
  qos0 qos1 qos2 : Qos

-- The calls of the MQTT client, which is no part of the repository, with what they are given.
pub data Call : Type 0 where
  subscribe : List ℕ → Qos → Call
  unsubscribe : List ℕ → Call
  publish : List ℕ → List ℕ → Qos → Call
  disconnect network_connect connect network_disconnect : Call

-- A command's return value, the state, and the calls it has made.
abbrev pub Result : Type 0
Result = ℤ × Session × List Call

-- get_qos
unfoldable pub get_qos : List ℕ → Qos
unfolding strtol10
get_qos str =
    if eqb_ℤ (strtol10 str) (pos 1)
    then qos1
    else if eqb_ℤ (strtol10 str) (pos 2)
    then qos2
    else qos0

abbrev pub forget_topics : Session → Session
forget_topics s = record s { topic_cnt = pos 0 }

-- _cmd_discon, where MQTTDisconnect returns `res`
unfoldable pub cmd_discon : ℤ → Session → Result
cmd_discon res s = (res, forget_topics s, disconnect ∷ network_disconnect ∷ [])

abbrev pub negative : ℤ → Bool
negative z = ltb_ℤ z (pos 0)

-- What the calls of `_con` return.
pub record Answers : Type 0 where
  pub net : ℤ  -- NetworkConnect
  pub client : ℤ  -- MQTTConnect
  pub discon : ℤ  -- MQTTDisconnect

-- _con
unfoldable pub con : Answers → Session → Result
unfolding cmd_discon
con a s =
    let left : Result = cmd_discon a.discon s in
    if negative a.net
    then (a.net, s, network_connect ∷ [])
    else if negative a.client
    then (a.client, left.1, network_connect ∷ connect ∷ left.2)
    else (if ltb_ℤ (pos 0) a.client then pos 0 else pos 1, s, network_connect ∷ connect ∷ [])

-- _pub, where MQTTPublish returns `rc`
unfoldable pub do_pub : ℤ → Answers → List ℕ → List ℕ → Qos → Session → Result
unfolding con cmd_discon
do_pub rc a topic msg qos s =
    let left : Result = cmd_discon a.discon s in
    let back : Result = con a left.1 in
    if negative rc
    then (rc, back.1, publish topic msg qos ∷ left.2 ++ back.2)
    else (rc, s, publish topic msg qos ∷ [])

-- The words behind a command's name, of which `argc` counts one less.
abbrev pub word : List (List ℕ) → ℕ → List ℕ
word args i = get_or args i []

-- "cmnd/delock/POWER"
abbrev pub default_topic : List ℕ
default_topic =
    b'c' ∷ b'm' ∷ b'n' ∷ b'd' ∷ b'/' ∷ b'd' ∷ b'e' ∷ b'l' ∷ b'o' ∷ b'c' ∷ b'k' ∷ b'/' ∷ b'P' ∷ b'O'
    ∷ b'W' ∷ b'E' ∷ b'R' ∷ []

-- _cmd_pub
unfoldable pub cmd_pub : ℤ → Answers → List (List ℕ) → Session → Result
unfolding do_pub get_qos
cmd_pub rc a args s =
    if ltb (length args) 1
    then (pos 1, s, [])
    else do_pub rc a default_topic (word args 0)
        (if length args == 2 then get_qos (word args 1) else qos0) s

-- The row of `_topic_to_subscribe` at `topic_cnt`, if there is one.
unfoldable pub row : ℤ → Option ℕ
row (pos n) = if ltb n max_topics then some n else none
row (negsuc n) = none

-- strncpy to the start of a row, which may run into the next one
unfoldable pub write_row : ℕ → List ℕ → List ℕ → List ℕ
unfolding overwrite drop
write_row n s topics =
    take (n * max_len_topic) topics ++ overwrite s (drop (n * max_len_topic) topics)

-- The string at the start of a row
unfoldable pub read_row : ℕ → List ℕ → List ℕ
unfolding c_string drop
read_row n topics = c_string (drop (n * max_len_topic) topics)

-- The rest of `_cmd_sub` in row `n`, where MQTTSubscribe returns `ret`
unfoldable pub sub_in_row : ℕ → ℤ → ℤ → List ℕ → Qos → Session → Result
unfolding write_row read_row cmd_discon
sub_in_row n ret discon name qos s =
    let kept : Session = record s { topics = write_row n name s.topics } in
    let left : Result = cmd_discon discon kept in
    let asked : Call = subscribe (read_row n kept.topics) qos in
    if negative ret
    then (ret, left.1, asked ∷ left.2)
    else (ret, record kept { topic_cnt = pos (suc n) }, asked ∷ [])

-- _cmd_sub; `none` where it uses a row outside of `_topic_to_subscribe`
unfoldable pub cmd_sub : ℤ → ℤ → List (List ℕ) → Session → Option Result
unfolding row sub_in_row get_qos
cmd_sub ret discon args s =
    if ltb (length args) 1
    then some (pos 1, s, [])
    else if ltb_ℤ (pos max_topics) s.topic_cnt
    then some (minus_one, s, [])
    else if ltb max_len_topic (length (word args 0))
    then some (minus_one, s, [])
    else elim (row s.topic_cnt) [
      | none ↦ none
      | some n ↦ some (
          sub_in_row n ret discon (word args 0)
            (if ltb 1 (length args) then get_qos (word args 1) else qos0) s)
    ]

abbrev pub pred_ℤ : ℤ → ℤ
pred_ℤ (pos n) = if n == 0 then negsuc 0 else pos (n - 1)
pred_ℤ (negsuc n) = negsuc (suc n)

-- _cmd_unsub, where MQTTUnsubscribe returns `ret`
unfoldable pub cmd_unsub : ℤ → ℤ → List (List ℕ) → Session → Result
unfolding cmd_discon
cmd_unsub ret discon args s =
    let left : Result = cmd_discon discon s in
    let asked : Call = unsubscribe (word args 0) in
    if ltb (length args) 1
    then (pos 1, s, [])
    else if negative ret
    then (ret, left.1, asked ∷ left.2)
    else (ret, record s { topic_cnt = pred_ℤ s.topic_cnt }, asked ∷ [])

-- A command of the shell, or a message of the publisher's thread, with what the calls return.
pub data Command : Type 0 where
  pub_command : ℤ → Answers → List (List ℕ) → Command
  sub_command unsub_command : ℤ → ℤ → List (List ℕ) → Command
  publisher : ℤ → Answers → List ℕ → List ℕ → Command

unfoldable pub run_command : Command → Session → Option Result
unfolding cmd_pub cmd_sub cmd_unsub do_pub
run_command (pub_command rc a args) s = some (cmd_pub rc a args s)
run_command (sub_command ret discon args) s = cmd_sub ret discon args s
run_command (unsub_command ret discon args) s = some (cmd_unsub ret discon args s)
run_command (publisher rc a topic msg) s = some (do_pub rc a topic msg qos0 s)
