-- ===== src/Computation.antt =====
-- The application of ccnl_computation. Its callbacks (ccnl_callbacks.c) are those of the caching
-- application, but for the highest number of a source that it remembers in `dow_highest_id`.
pub mod Highest
use miniature_dangerzone.Common.{to_uint32, ℕ, Bool, true, List, [], ◌∷◌, ltb, if◌then◌else◌}
use miniature_dangerzone.Config.{Config}
use miniature_dangerzone.Text.{strtol16}
use miniature_dangerzone.Ccn.{comp, Packet, Content, Identity, Store, CcnLite}
use miniature_dangerzone.Dow.{is_stopped, Node}
use miniature_dangerzone.Cache.Consumer.{Draw, Outcome, consumer}

-- `cont_id` of `ccnlriot_consumer`: the third component of the name, which is read whether or not
-- there is one.
unfoldable pub cont_id : Packet → ℕ
unfolding strtol16
cont_id pkt = to_uint32 (strtol16 (comp pkt.name 2))

-- dow_highest_id after a chunk, which a stopped node does not look at
unfoldable pub note_id : Bool → Packet → ℕ → ℕ
unfolding cont_id
note_id is_off pkt highest =
    if is_off then highest else if ltb highest (cont_id pkt) then cont_id pkt else highest

-- A callback's outcome, with `dow_highest_id`
pub record Noted : Type 0 where
  pub highest : ℕ
  pub outcome : Outcome

-- ccnlriot_consumer of ccnl_callbacks.c
unfoldable pub noting_consumer :
    Config → CcnLite → (Store → Content → Store) → Identity → ℕ → Draw → ℕ → Node → Packet → Noted
unfolding note_id consumer
noting_consumer cfg l strategy me from d highest n pkt = record {
  highest = note_id (is_stopped n.mode) pkt highest;
  outcome = consumer cfg l strategy me from d n pkt;
}
