-- ===== src/Computation/Highest.antt =====
-- What `dow_highest_id` of ccnl_computation comes to.
use miniature_dangerzone.Common.{
  to_uint32, ℕ, ◌≤◌, ◌<◌, ◌^◌, ◌≡◌, ◌⊎◌, inl, inr, refl, Bool, false, List, [], ◌∷◌, arith, ap, ◌∙◌,
  sym,
}
use mathlib.Core.Path.{subst}
use miniature_dangerzone.Config.{Config}
use miniature_dangerzone.Text.{hex8, strtol16, to_long}
use miniature_dangerzone.Text.Hex.{strtol16-hex8}
use miniature_dangerzone.Ccn.{comp, Packet, Content, Identity, Store, CcnLite}
use miniature_dangerzone.Dow.{is_stopped}
use miniature_dangerzone.Cache.Consumer.{Draw}
use miniature_dangerzone.Computation.{cont_id, note_id, Noted, noting_consumer}

-- What the callback is given with a chunk.
pub record Arrival : Type 0 where
  pub from : ℕ
  pub draw : Draw
  pub packet : Packet

-- A name that carries the number of its source as "%08X" prints it is read as that number.
pub cont_id-hex8 : (x : ℕ) (pkt : Packet) → comp pkt.name 2 ≡ hex8 x → x < 2 ^ 31 → cont_id pkt ≡ x
unfolding cont_id to_long
cont_id-hex8 x pkt named lt =
    ap (λ t. to_uint32 (strtol16 t)) named
    ∙ ap to_uint32 (strtol16-hex8 x (omega arith))
    ∙ ground (arith, lt)

-- The number is that of one of the chunks.
abbrev pub Among : ℕ → List Arrival → Type 0
Among h [] = ⊥
Among h (a ∷ rest) = (cont_id a.packet ≡ h) ⊎ Among h rest

module _ (cfg : Config) (l : CcnLite) (strategy : Store → Content → Store) (me : Identity) where
  -- The callbacks for a series of chunks, the last one first.
  unfoldable pub heard : List Arrival → Noted → Noted
  unfolding noting_consumer
  heard [] s = s
  heard (a ∷ rest) s =
      let before : Noted = heard rest s in
      noting_consumer cfg l strategy me a.from a.draw before.highest before.outcome.node a.packet

  -- No chunk that found the node not stopped, and whose name carries a number below 2^31, has a
  -- greater one.
  abbrev pub Covers : ℕ → List Arrival → Noted → Type 0
  Covers h [] s = Unit
  Covers h (a ∷ rest) s =
      ((x : ℕ)
        → is_stopped (heard rest s).outcome.node.mode ≡ false
        → comp a.packet.name 2 ≡ hex8 x
        → x < 2 ^ 31
        → x ≤ h)
      × Covers h rest s

  Covers-more :
      (h k : ℕ) (arrivals : List Arrival) (s : Noted)
      → h ≤ k
      → Covers h arrivals s
      → Covers k arrivals s
  Covers-more h k [] s le c = tt
  Covers-more h k (a ∷ rest) s le c =
      (λ x runs named lt. omega (arith, c.0 x runs named lt, le), Covers-more h k rest s le c.1)

  note_grows : (off : Bool) (pkt : Packet) (h : ℕ) → h ≤ note_id off pkt h
  unfolding note_id
  note_grows off pkt h = ground arith

  note_covers :
      (off : Bool) (pkt : Packet) (h x : ℕ)
      → off ≡ false
      → comp pkt.name 2 ≡ hex8 x
      → x < 2 ^ 31
      → x ≤ note_id off pkt h
  unfolding note_id
  note_covers off pkt h x runs named lt = ground (arith, runs, cont_id-hex8 x pkt named lt)

  note_is :
      (off : Bool) (pkt : Packet) (h : ℕ)
      → (note_id off pkt h ≡ h) ⊎ (cont_id pkt ≡ note_id off pkt h)
  unfolding note_id
  note_is off pkt h = ground arith

  -- After any series of chunks, `dow_highest_id` is no less than it was; it is at least the number of
  -- every source below 2^31 of which a chunk has come while the node was not stopped; and it is the
  -- number it was or one that a chunk has carried.
  pub heard_highest :
      (arrivals : List Arrival) (s : Noted)
      → (s.highest ≤ (heard arrivals s).highest)
        × Covers (heard arrivals s).highest arrivals s
        × (((heard arrivals s).highest ≡ s.highest) ⊎ Among (heard arrivals s).highest arrivals)
  unfolding heard noting_consumer
  heard_highest [] s = (omega arith, tt, inl refl)
  heard_highest (a ∷ rest) s =
      let (grows, covers, is_one) = heard_highest rest s in
      let before = heard rest s in
      let off = is_stopped before.outcome.node.mode in
      let more = note_grows off a.packet before.highest in
      (
        omega (arith, grows, more),
        (
          λ x runs named lt. note_covers off a.packet before.highest x runs named lt,
          Covers-more before.highest (note_id off a.packet before.highest) rest s more covers,
        ),
        elim (note_is off a.packet before.highest) [
          | inl same ↦ elim is_one [
            | inl first ↦ inl (same ∙ first)
            | inr among ↦ inr (inr (subst (λ h. Among h rest) (sym same) among))
          ]
          | inr new ↦ inr (inl new)
        ],
      )
