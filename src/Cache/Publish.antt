-- ===== src/Cache/Publish.antt =====
-- Publishing old content: `ccnl_helper_publish_content` of ccnl_caching/ccnl_helper.c, in a build
-- with DOW_PSR or DOW_PSR2.
use miniature_dangerzone.Common.{
  ℕ, ◌+◌, ◌-◌, ◌<◌, ◌≡◌, refl, List, [], ◌∷◌, arith, u8, ltb, if◌then◌else◌, length, ◌++◌, ap, ◌∙◌,
  if_split,
}
use miniature_dangerzone.Ccn.{Content}

-- The first loop, from the count `i` on: what is behind the start position.
unfoldable pub skip_to : ℕ → ℕ → List Content → List Content
skip_to start i [] = []
skip_to start i (c ∷ cs) = if ltb i start then skip_to start (i + 1) cs else c ∷ cs

-- The entries that are broadcast, where the store has `contentcnt` entries; the position is a uint8_t.
unfoldable pub publish_content : ℕ → List Content → List Content
unfolding skip_to
publish_content chunks cs = skip_to (u8 (length cs + 256 - u8 chunks)) 0 cs

length-skip_to :
    (start i : ℕ) (cs : List Content) → length (skip_to start i cs) ≡ length cs - (start - i)
unfolding skip_to
length-skip_to start i [] = ground arith
length-skip_to start i (c ∷ cs) = ground (arith, length-skip_to start (i + 1) cs)

skip_to-suffix :
    (start i : ℕ) (cs : List Content) → (front : List Content) × (cs ≡ front ++ skip_to start i cs)
unfolding skip_to
skip_to-suffix start i [] = ([], refl)
skip_to-suffix start i (c ∷ cs) =
    let (front, e) = skip_to-suffix start (i + 1) cs in
    if_split (λ (rest : List Content). (f : List Content) × (c ∷ cs ≡ f ++ rest)) (ltb i start) _ _
      (λ skips. (c ∷ front, ap (λ l. c ∷ l) e)) (λ starts. ([], refl))

-- What is published is the end of the store. Of a store with fewer than 256 entries, for a number
-- of chunks below 256, it is exactly that many last entries, if there are so many; if there are
-- fewer, it is nothing.
pub publish_content_last :
    (chunks : ℕ) (cs : List Content)
    → length cs < 256
    → chunks < 256
    → ((front : List Content) × (cs ≡ front ++ publish_content chunks cs))
      × (length (publish_content chunks cs) ≡ (if ltb (length cs) chunks then 0 else chunks))
unfolding publish_content
publish_content_last chunks cs small few = (
  skip_to-suffix (u8 (length cs + 256 - u8 chunks)) 0 cs,
  length-skip_to (u8 (length cs + 256 - u8 chunks)) 0 cs ∙ ground arith,
)
