-- ===== src/Shell/Settings.antt =====
-- The shell commands of ccnl_caching/main.c that set what the node starts with, and the one that puts
-- a value into its own cache.
pub mod Cached
use miniature_dangerzone.Common.{
  to_uint32, ℕ, ◌+◌, ◌-◌, Bool, true, false, ◌||◌, ◌&&◌, Option, none, some, List, [], ◌∷◌, ◌++◌, ℤ,
  pos, negsuc, two32, u16, ltb, if◌then◌else◌, length, get_or,
}
use miniature_dangerzone.Config.{Config}
use miniature_dangerzone.Text.{strtol10}
use miniature_dangerzone.Ccn.{Identity, Store}
use miniature_dangerzone.Cache.Consumer.{put_store}
use miniature_dangerzone.Cache.Packets.{Made, create_cont}
use miniature_dangerzone.Dow.{Node}
use miniature_dangerzone.Dow.Manager.{Manager}

-- What the commands set: the manager's state, `dow_cache_size`, and DOW_P, of which the model knows no
-- more than that it is there.
pub record Settings (P : Type 0) : Type 0 where
  pub manager : Manager
  pub cache_size : ℕ
  pub p : P

abbrev pub nth : List (List ℕ) → ℕ → List ℕ
nth args i = get_or args i []

-- The three arguments of `_start_dow`.
unfoldable pub set_identity : Config → List (List ℕ) → Identity → Identity
unfolding strtol10
set_identity cfg args me = record me {
  my_id = if ltb 0 (length args) then to_uint32 (strtol10 (nth args 0)) else me.my_id;
  manual_id = (ltb 0 (length args) && cfg.hardwired) || me.manual_id;
  num_src = if ltb 1 (length args) then u16 (to_uint32 (strtol10 (nth args 1))) else me.num_src;
}

-- What `int` holds of a value of `unsigned`.
abbrev pub to_int : ℕ → ℤ
to_int n = if ltb n 2147483648 then pos n else negsuc (two32 - 1 - n)

-- `ccnl_relay.max_cache_entries = dow_cache_size` at the start of `_loop`
unfoldable pub limit_store : ℕ → Node → Node
limit_store size n = put_store (record n.store { max_entries = to_int size }) n

module _ {P : Type 0} where
  -- _start_dow, with what the loop that it starts takes over from the settings.
  unfoldable pub start_dow : Config → List (List ℕ) → Settings P → Settings P
  unfolding set_identity limit_store
  start_dow cfg args s =
      let m = s.manager in
      record s {
        manager = (record m {
          node = limit_store s.cache_size m.node;
          me = set_identity cfg args m.me;
          is_source = if ltb 2 (length args) then false else m.is_source;
        });
      }

  -- _set_cs: what it returns, and the settings
  unfoldable pub set_cs : List (List ℕ) → Settings P → ℕ × Settings P
  unfolding strtol10
  set_cs args s =
      if ltb (length args) 1
      then (1, s)
      else (0, record s { cache_size = to_uint32 (strtol10 (nth args 0)) })

  -- _set_p, where `strtof` reads the number
  unfoldable pub set_p : (List ℕ → P) → List (List ℕ) → Settings P → ℕ × Settings P
  set_p strtof args s =
      if ltb (length args) 1 then (1, s) else (0, record s { p = strtof (nth args 0) })

-- The name that `_debug_cache_date` builds, which always fits into `pfx`: /s/t/<ID>/<timestamp>.
unfoldable pub debug_path : List (List ℕ) → List ℕ
debug_path args = b'/' ∷ b's' ∷ b'/' ∷ b't' ∷ b'/' ∷ (nth args 0 ++ (b'/' ∷ nth args 1))

-- _debug_cache_date: what it returns, and what is made of the value, if the name can be built. The
-- last result is `none` where `ccnl_helper_create_cont` reads through a NULL pointer.
unfoldable pub debug_cache_date :
    Config → Bool → Bool → Option ℕ → List (List ℕ) → Option (ℕ × Option Made)
unfolding create_cont
debug_cache_date cfg named built alloc args =
    if ltb (length args) 2 || ltb 8 (length (nth args 0)) || ltb 8 (length (nth args 1))
    then some (1, none)
    else if named
    then elim (create_cont cfg built alloc (nth args 1 ++ 0 ∷ []) true false) [
      | none ↦ none
      | some made ↦ some (0, some made)
    ]
    else some (0, none)
