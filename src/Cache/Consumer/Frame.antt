-- ===== src/Cache/Consumer/Frame.antt =====
-- What the consumer callback leaves alone in the state of the caching manager.
use miniature_dangerzone.Common.{ℕ, ◌≡◌, ◌++◌, [], ◌∷◌, Bool, false, arith, ◌⊎◌}
use miniature_dangerzone.Config.{Config}
use miniature_dangerzone.Ccn.{Packet, Content, Identity, Store, CcnLite}
use miniature_dangerzone.Dow.{received, received_ack, Node}
use miniature_dangerzone.Cache.Consumer.{
  Draw, cache_it, own_content, offered, asked_content, broadcast_content, unexpected, consumer,
  cont_is_dup,
}

-- Nothing but the store and the messages differs, and at most one message was sent.
pub record Framed (before after : Node) : Type 0 where
  pub same_mode : after.mode ≡ before.mode
  pub same_count : after.interest_count ≡ before.interest_count
  pub same_prevent : after.prevent_sleep ≡ before.prevent_sleep
  pub same_presence : after.presence ≡ before.presence
  pub same_timer : after.sleep_timer ≡ before.sleep_timer
  pub told :
      (after.sent ≡ before.sent)
      ⊎ ((after.sent ≡ before.sent ++ received ∷ [])
          ⊎ (after.sent ≡ before.sent ++ received_ack ∷ []))

module _ (cfg : Config) (l : CcnLite) (strategy : Store → Content → Store) (me : Identity) where
  own_content-Framed :
      (d : Draw) (n : Node) (pkt : Packet) → Framed n (own_content cfg l strategy me d n pkt).node
  unfolding own_content
  own_content-Framed d n pkt = record {
    same_mode = ground arith;
    same_count = ground arith;
    same_prevent = ground arith;
    same_presence = ground arith;
    same_timer = ground arith;
    told = ground arith;
  }

  broadcast_content-Framed :
      (d : Draw) (n : Node) (pkt : Packet)
      → Framed n (broadcast_content cfg l strategy me d n pkt).node
  unfolding broadcast_content cache_it
  broadcast_content-Framed d n pkt = record {
    same_mode = ground arith;
    same_count = ground arith;
    same_prevent = ground arith;
    same_presence = ground arith;
    same_timer = ground arith;
    told = ground arith;
  }

  asked_content-Framed :
      (is_dup : Bool) (d : Draw) (n : Node) (pkt : Packet)
      → Framed n (asked_content cfg l strategy me is_dup d n pkt).node
  unfolding asked_content offered cache_it
  asked_content-Framed is_dup d n pkt = record {
    same_mode = ground arith;
    same_count = ground arith;
    same_prevent = ground arith;
    same_presence = ground arith;
    same_timer = ground arith;
    told = ground arith;
  }

  unexpected-Framed :
      (is_dup : Bool) (d : Draw) (n : Node) (pkt : Packet)
      → cfg.debug ≡ false
      → Framed n (unexpected cfg l strategy me is_dup d n pkt).node
  unfolding unexpected
  unexpected-Framed is_dup d n pkt release =
      let own = own_content-Framed d n pkt in
      let asked = asked_content-Framed is_dup d n pkt in
      let cast = broadcast_content-Framed d n pkt in
      record {
        same_mode = ground (arith, own, asked, cast);
        same_count = ground (arith, own, asked, cast);
        same_prevent = ground (arith, own, asked, cast);
        same_presence = ground (arith, own, asked, cast);
        same_timer = ground (arith, own, asked, cast);
        told = ground (arith, own.told, asked.told, cast.told);
      }

  -- Outside debug mode the callback changes nothing of the manager's state but the store, and
  -- sends it at most one message, which says that content or an acknowledgement has come.
  pub consumer-Framed :
      (from : ℕ) (d : Draw) (n : Node) (pkt : Packet)
      → cfg.debug ≡ false
      → Framed n (consumer cfg l strategy me from d n pkt).node
  unfolding consumer
  consumer-Framed from d n pkt release =
      let rest = unexpected-Framed (cont_is_dup n.store.contents pkt) d n pkt release in
      record {
        same_mode = ground (arith, rest);
        same_count = ground (arith, rest);
        same_prevent = ground (arith, rest);
        same_presence = ground (arith, rest);
        same_timer = ground (arith, rest);
        told = ground (arith, rest.told);
      }
