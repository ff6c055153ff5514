-- ===== src/Roads/Dijkstra/Potential.antt =====
-- How many links are left to the nodes that are not expanded.
use model_lib.Base.{
  ℕ, ◌+◌, ◌*◌, ◌≤◌, String, ◌≡◌, Bool, false, List, [], ◌∷◌, length, arith, Bool-cases, inl, inr,
  if◌then◌else◌,
}
use model_lib.Base.Eq.{◌==◌, string_eq, ==_iff}
use model_lib.Roads.Network.{
  RoadEdgeSnapshot, Link, has_text, links_of, insert_link, neighbours, insert_links, link_before,
}

unfoldable pub potential : List String → List RoadEdgeSnapshot → ℕ
potential closed [] = 0
potential closed (edge ∷ rest) =
    (if has_text edge.from_node_id closed then 0 else 1)
    + (if has_text edge.to_node_id closed then 0 else 1)
    + potential closed rest

pub potential-bound :
    (closed : List String) (edges : List RoadEdgeSnapshot)
    → potential closed edges ≤ 2 * length edges
unfolding potential
potential-bound closed [] = omega arith
potential-bound closed (edge ∷ rest) = ground (arith, potential-bound closed rest)

pub potential_less :
    (node : String) (closed : List String) (edges : List RoadEdgeSnapshot)
    → potential (node ∷ closed) edges ≤ potential closed edges
unfolding potential has_text
potential_less node closed [] = omega arith
potential_less node closed (edge ∷ rest) = ground (arith, potential_less node closed rest)

length-insert_link : (l : Link) (ls : List Link) → length (insert_link l ls) ≡ length ls + 1
unfolding insert_link
length-insert_link l [] = omega arith
length-insert_link l (k ∷ ls) = elim (Bool-cases (link_before k l)) [
  | inl b ↦ rw b (omega (arith, length-insert_link l ls))
  | inr b ↦ rw b (omega arith)
]

length-insert_links :
    (ls sorted : List Link) → length (insert_links ls sorted) ≡ length ls + length sorted
unfolding insert_links
length-insert_links [] sorted = omega arith
length-insert_links (l ∷ ls) sorted =
    omega (arith, length-insert_link l (insert_links ls sorted), length-insert_links ls sorted)

length-links_of :
    (node : String) (edge : RoadEdgeSnapshot)
    → length (links_of node edge)
      ≤ (if edge.from_node_id == node then 1 else 0) + (if edge.to_node_id == node then 1 else 0)
unfolding links_of
length-links_of node edge = ground arith

pub length-neighbours :
    (usable : RoadEdgeSnapshot → Bool) (node : String) (closed : List String)
    (edges : List RoadEdgeSnapshot)
    → has_text node closed ≡ false
    → length (neighbours usable edges node) + potential (node ∷ closed) edges
      ≤ potential closed edges
unfolding neighbours potential has_text
length-neighbours usable node closed [] e = omega arith
length-neighbours usable node closed (edge ∷ rest) e = ground (
  arith,
  e,
  length-neighbours usable node closed rest e,
  length-links_of node edge,
  length-insert_links (links_of node edge) (neighbours usable rest node),
  ==_iff edge.from_node_id node,
  ==_iff node edge.from_node_id,
  ==_iff edge.to_node_id node,
  ==_iff node edge.to_node_id,
)
