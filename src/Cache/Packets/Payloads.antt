-- ===== src/Cache/Packets/Payloads.antt =====
-- What the payloads hold that `ccnl_helper_create_cont` builds.
use miniature_dangerzone.Common.{
  ℕ, ◌≤◌, ◌≡◌, refl, Bool, true, some, List, [], ◌∷◌, ◌++◌, arith, minus_one, if◌then◌else◌, length,
  ap, ◌∙◌,
}
use miniature_dangerzone.Config.{Config, cont_len}
use miniature_dangerzone.Text.Buffer.{drop, overwrite, c_string, NoNul, length-app, length-drop}
use miniature_dangerzone.Cache.Packets.{cleared, my_cont, Made, create_cont}

-- Of a value in at most nine bytes, the payload has nine.
my_cont-length : (value : List ℕ) → length value ≤ 9 → length (my_cont value).value ≡ 9
unfolding my_cont overwrite
my_cont-length value le =
    length-app value (drop (length value) cleared)
    ∙ ground (arith, length-drop (length value) cleared, le)

c_string-ended : (text rest : List ℕ) → NoNul text → c_string ((text ++ 0 ∷ []) ++ rest) ≡ text
unfolding c_string
c_string-ended [] rest clean = refl
c_string-ended (c ∷ text) rest clean = rw clean.0 (ap (◌∷◌ c) (c_string-ended text rest clean.1))

-- A text of at most eight bytes, none of them NUL, that is given with the NUL behind it comes out of a
-- packet that can be built as it was: the payload has nine bytes, it reads as the text, and its number
-- is -1. The packet is broadcast DOW_BC_COUNT times if it is to be sent, and if it is to be cached, it
-- is sent to the node itself, once, and freed.
pub create_cont_lem :
    (cfg : Config) (a : ℕ) (text : List ℕ) (cache send : Bool)
    → NoNul text
    → length text ≤ cont_len
    → (made : Made) × (create_cont cfg true (some a) (text ++ 0 ∷ []) cache send ≡ some made)
      × (length made.payload.value ≡ 9)
      × (c_string made.payload.value ≡ text)
      × (made.payload.num ≡ minus_one)
      × (made.broadcasts ≡ (if send then cfg.bc_count else 0))
      × (made.to_self ≡ (if cache then 1 else 0))
      × (made.freed ≡ cache)
unfolding create_cont
create_cont_lem cfg a text cache send clean short =
    let value = text ++ 0 ∷ [] in
    let size : length value ≤ 9 = ground (arith, length-app text (0 ∷ []), short) in
    (
      record {
        result = some a;
        freed = cache;
        payload = my_cont value;
        broadcasts = if send then cfg.bc_count else 0;
        to_self = if cache then 1 else 0;
      },
      ground (arith, size),
      my_cont-length value size,
      (unfold my_cont overwrite in c_string-ended text (drop (length value) cleared) clean),
      (unfold my_cont in refl),
      refl,
      refl,
      refl,
    )
