-- ===== src/Icn/Net/Safe.antt =====
-- What holds of the network in whatever order frames arrive, and whichever of them are lost.
use miniature_dangerzone.Common.{
  ℕ, ◌<◌, ◌≡◌, refl, true, some, List, [], ◌∷◌, ◌++◌, not, ◌||◌, ◌==◌, arith, All, inl, ap, sym,
  ◌∙◌, if_split, each_below, each_below_at,
}
use mathlib.Core.Path.{subst}
use miniature_dangerzone.Icn.{same_addr, node_id}
use miniature_dangerzone.Icn.Node.{Node, Frame, Event, received_packet, fresh}
use miniature_dangerzone.Icn.Net.{
  Flight, World, set_node, from_node, Step, deliver, lose, wake, Reaches, stays, goes, boot, Timed,
  next_chunk, again, noise_3, noise_5, noise_6,
}
use miniature_dangerzone.Icn.Net.Roles.{Along, FrameFits, NodeFits, Fine}
use miniature_dangerzone.Icn.Net.Ends.{same_out, Timed-fits, Along-Fine}

abbrev pub FlightFits : Flight → Type 0
FlightFits f = FrameFits f.src f.frame

-- Each of the ten nodes fits, and each frame on its way is on one of its links.
pub record WorldFits (w : World) : Type 0 where
  pub nodes_fit : (i : ℕ) → i < 10 → NodeFits i (w.nodes i)
  pub air_fits : All FlightFits w.air

different_ids :
    each_below (λ i. each_below (λ j. not (same_addr (node_id i) (node_id j)) || i == j) 10) 10
    ≡ true
unfolding same_addr
different_ids = refl

same_ids : each_below (λ k. same_addr (node_id k) (node_id k)) 10 ≡ true
unfolding same_addr
same_ids = refl

same_addr_refl : (i : ℕ) → i < 10 → same_addr (node_id i) (node_id i) ≡ true
same_addr_refl i lt = each_below_at (λ k. same_addr (node_id k) (node_id k)) 10 i same_ids lt

node_id_inj : (i j : ℕ) → i < 10 → j < 10 → node_id i ≡ node_id j → i ≡ j
node_id_inj i j p q same =
    let row =
      each_below_at (λ k. each_below (λ n. not (same_addr (node_id k) (node_id n)) || k == n) 10) 10
        i different_ids p in
    let cell = each_below_at (λ n. not (same_addr (node_id i) (node_id n)) || i == n) 10 j row q in
    let equal = ap (same_addr (node_id i)) (sym same) ∙ same_addr_refl i p in
    ground (arith, cell, equal)

module _ {A : Type 0} (P : A → Type 0) where
  All-++ : (xs ys : List A) → All P xs → All P ys → All P (xs ++ ys)
  All-++ [] ys h k = k
  All-++ (x ∷ xs) ys h k = (h.0, All-++ xs ys h.1 k)

  All-split : (xs ys : List A) → All P (xs ++ ys) → All P xs × All P ys
  All-split [] ys h = (tt, h)
  All-split (x ∷ xs) ys h = let (a, b) = All-split xs ys h.1 in ((h.0, a), b)

flights_fit : (i : ℕ) (fs : List Frame) → All (FrameFits i) fs → All FlightFits (from_node i fs)
flights_fit i [] h = tt
flights_fit i (f ∷ fs) h = (h.0, flights_fit i fs h.1)

-- What is left, and the one taken out, of the frames on their way.
taken_out :
    (air before after : List Flight) (f : Flight)
    → air ≡ before ++ f ∷ after
    → All FlightFits air
    → All FlightFits before × All FlightFits after × FlightFits f
taken_out air before after f split h =
    let (a, b) = All-split FlightFits before (f ∷ after) (subst (All FlightFits) split h) in
    (a, b.1, b.0)

pub set_node_fits :
    (w : World) (i : ℕ) (s : Node)
    → ((j : ℕ) → j < 10 → NodeFits j (w.nodes j))
    → NodeFits i s
    → (j : ℕ) → j < 10
    → NodeFits j (set_node w.nodes i s j)
set_node_fits w i s all one j lt =
    if_split (NodeFits j) (j == i) s (w.nodes j)
      (λ same. subst (λ k. NodeFits k s) (ground (arith, same)) one) (λ other. all j lt)

-- A frame that fits is dealt with by the node it is addressed to.
arrival :
    (f : Flight) (i : ℕ) (s : Node)
    → FlightFits f
    → i < 10
    → f.frame.dst ≡ node_id i
    → NodeFits i s
    → Fine i (received_packet (some (node_id f.src)) f.frame.packet) s
arrival f i s (j, link, small, to, lt) below here fits =
    let same : i ≡ j = node_id_inj i j below small (sym here ∙ to) in
    Along-Fine f.frame.packet.kind f.src i f.frame.packet s
      (subst (Along f.frame.packet.kind f.src) (sym same) link) refl lt fits

Timed-small : (i : ℕ) (e : Event) → Timed i e → i < 10
Timed-small i e (next_chunk n) = omega arith
Timed-small i e (again n) = omega arith
Timed-small i e noise_3 = omega arith
Timed-small i e noise_5 = omega arith
Timed-small i e noise_6 = omega arith

boot-WorldFits : WorldFits boot
unfolding fresh
boot-WorldFits = record {
  nodes_fit = λ i lt. record { named = refl; pending = inl refl };
  air_fits = tt;
}

Step-WorldFits : (w w' : World) → Step w w' → WorldFits w → WorldFits w'
Step-WorldFits w w' (deliver _ before after f i out split lt here h) fits =
    let (b, a, one) = taken_out w.air before after f split fits.air_fits in
    let (node, frames) =
      same_out i _ _ out (arrival f i (w.nodes i) one lt here (fits.nodes_fit i lt)) h in
    record {
      nodes_fit = set_node_fits w i out.0 fits.nodes_fit node;
      air_fits =
          All-++ FlightFits before _ b (All-++ FlightFits after _ a (flights_fit i out.1 frames));
    }
Step-WorldFits w w' (lose _ before after f split) fits =
    let (b, a, one) = taken_out w.air before after f split fits.air_fits in
    record { nodes_fit = fits.nodes_fit; air_fits = All-++ FlightFits before after b a }
Step-WorldFits w w' (wake _ i e out timed h) fits =
    let (node, frames) =
      Timed-fits i e (w.nodes i) out timed (fits.nodes_fit i (Timed-small i e timed)) h in
    record {
      nodes_fit = set_node_fits w i out.0 fits.nodes_fit node;
      air_fits = All-++ FlightFits w.air _ fits.air_fits (flights_fit i out.1 frames);
    }

pub reached_fits : (w0 w : World) → WorldFits w0 → Reaches w0 w → WorldFits w
reached_fits w0 w fits stays = fits
reached_fits w0 w fits (goes v _ before step) =
    Step-WorldFits v w step (reached_fits w0 v fits before)

-- Whatever frames are lost and in whatever order the others arrive, whenever the timers fire, and whatever
-- number each brings back, as long as no node leaves `received_chunks`:
-- every interest in the air is on a link of the way from node 7 over 9, 2 and 1 to node 0, every
-- chunk on one of the way back, background traffic goes from node 3, 5 or 6 to node 0, each number is
-- below 100, and only at 9, 2 and 1 is an interest ever pending, with the node below as PIT entry.
pub Reaches-WorldFits : (w : World) → Reaches boot w → WorldFits w
Reaches-WorldFits w r = reached_fits boot w boot-WorldFits r
