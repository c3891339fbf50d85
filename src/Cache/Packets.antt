-- ===== src/Cache/Packets.antt =====
-- How content and acknowledgements are built (`ccnl_helper_create_cont` and `_send_ack` of
-- ccnl_caching/ccnl_helper.c). Whether CCN-lite builds the packet and what `ccnl_content_new` answers
-- are arguments.
pub mod Payloads
use miniature_dangerzone.Common.{
  ℕ, ◌+◌, Bool, false, ◌&&◌, ◌||◌, Option, none, some, List, [], ◌∷◌, ◌++◌, ℤ, minus_one, ltb,
  if◌then◌else◌, length,
}
use miniature_dangerzone.Config.{Config, cont_len}
use miniature_dangerzone.Text.Buffer.{overwrite}
use miniature_dangerzone.Cache.Consumer.{cont_ack}

-- dow_content_t
pub record Payload : Type 0 where
  pub value : List ℕ
  pub num : ℤ

-- The array of DOW_CONT_LEN + 1 bytes after the call of memset
abbrev pub cleared : List ℕ
cleared = 0 ∷ 0 ∷ 0 ∷ 0 ∷ 0 ∷ 0 ∷ 0 ∷ 0 ∷ 0 ∷ []

-- `my_cont`
unfoldable pub my_cont : List ℕ → Payload
unfolding overwrite
my_cont value = record { value = overwrite value cleared; num = minus_one }

-- What a call does: the pointer returned, whether what it points to is freed, and how often the
-- packet was broadcast and sent to the node itself.
pub record Made : Type 0 where
  pub result : Option ℕ
  pub freed : Bool
  pub payload : Payload
  pub broadcasts : ℕ
  pub to_self : ℕ

abbrev pub refused : List ℕ → Made
refused value = record {
  result = none;
  freed = false;
  payload = record { value = value; num = minus_one };
  broadcasts = 0;
  to_self = 0;
}

-- ccnl_helper_create_cont of a value of `len` bytes; `none` where it reads through a NULL pointer.
unfoldable pub create_cont : Config → Bool → Option ℕ → List ℕ → Bool → Bool → Option Made
unfolding my_cont
create_cont cfg built alloc value cache send =
    if ltb (cont_len + 1) (length value)
    then some (refused value)
    else if built
    then elim alloc [
      | none ↦ if cache || (send && ltb 0 cfg.bc_count) then none else some (refused value)
      | some a ↦ some (record {
        result = some a;
        freed = cache;
        payload = my_cont value;
        broadcasts = if send then cfg.bc_count else 0;
        to_self = if cache then 1 else 0;
      })
    ]
    else some (refused value)

-- The payload that `_send_ack` hands to the face, if there is one.
unfoldable pub ack_of : Made → ℤ → Option Payload
ack_of made num = elim made.result [
  | none ↦ none
  | some a ↦ some (record made.payload { num = num })
]

-- _send_ack
unfoldable pub send_ack : Config → Bool → Option ℕ → ℤ → Option (Option Payload)
unfolding create_cont ack_of
send_ack cfg built alloc num = elim (create_cont cfg built alloc (cont_ack ++ 0 ∷ []) false false) [
  | none ↦ none
  | some made ↦ some (ack_of made num)
]
