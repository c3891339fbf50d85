-- ===== src/Icn/Net.antt =====
-- The ten nodes of l2_routing together. The stack and the radio are no part of the repository: a frame
-- that a node has sent reaches the node it is addressed to, in any order, or is lost.
pub mod Roles
pub mod Ends
pub mod Safe
pub mod Fetch
use miniature_dangerzone.Common.{
  ℕ, ◌≤◌, ◌<◌, ◌≡◌, Option, some, List, [], ◌∷◌, ◌++◌, map, ◌==◌, if◌then◌else◌,
}
use miniature_dangerzone.Icn.{node_id}
use miniature_dangerzone.Icn.Node.{
  Node, Frame, Outcome, Event, received_packet, send_interest, resend_interest, send_background,
  on_event, fresh, number_of_chunks,
}

-- A frame on its way, with the number of the node that has sent it.
pub record Flight : Type 0 where
  pub src : ℕ
  pub frame : Frame

pub record World : Type 0 where
  pub nodes : ℕ → Node
  pub air : List Flight

abbrev pub set_node : (ℕ → Node) → ℕ → Node → ℕ → Node
set_node nodes i s = λ j. if j == i then s else nodes j

abbrev pub from_node : ℕ → List Frame → List Flight
from_node i frames = map (λ f. record { src = i; frame = f }) frames

-- Which messages a node sends itself, by its timers and from `main`: the node that wants the content
-- those with the number of a chunk, the background nodes theirs. The number is read through a pointer
-- to a variable that is gone, so that it may be any. Where it lies behind `received_chunks`, what
-- follows is not defined, and there is no step.
pub data Timed : ℕ → Event → Type 0 where
  next_chunk : (n : ℕ) → Timed 7 (send_interest n)
  again : (n : ℕ) → Timed 7 (resend_interest n)
  noise_3 : Timed 3 send_background
  noise_5 : Timed 5 send_background
  noise_6 : Timed 6 send_background

pub data Step : World → World → Type 0 where
  deliver :
      (w : World) (before after : List Flight) (f : Flight) (i : ℕ) (out : Outcome)
      → w.air ≡ before ++ f ∷ after
      → i < 10
      → f.frame.dst ≡ node_id i
      → on_event (received_packet (some (node_id f.src)) f.frame.packet) (w.nodes i) ≡ some out
      → Step w (record {
        nodes = set_node w.nodes i out.0;
        air = before ++ (after ++ from_node i out.1);
      })
  lose :
      (w : World) (before after : List Flight) (f : Flight)
      → w.air ≡ before ++ f ∷ after
      → Step w (record { nodes = w.nodes; air = before ++ after })
  wake :
      (w : World) (i : ℕ) (e : Event) (out : Outcome)
      → Timed i e
      → on_event e (w.nodes i) ≡ some out
      → Step w (record { nodes = set_node w.nodes i out.0; air = w.air ++ from_node i out.1 })

pub data Reaches (w0 : World) : World → Type 0 where
  stays : Reaches w0 w0
  goes : (w w' : World) → Reaches w0 w → Step w w' → Reaches w0 w'

-- The nodes after they have started, before any message.
abbrev pub boot : World
boot = record { nodes = λ i. fresh (node_id i); air = [] }
