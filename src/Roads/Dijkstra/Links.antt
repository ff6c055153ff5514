-- ===== src/Roads/Dijkstra/Links.antt =====
-- The neighbours of a node are the ends of the roads that are available there.
use mathlib.Core.Path.{subst}
use model_lib.Base.{
  String, ◌≡◌, refl, sym, ap, ◌∙◌, Bool, true, false, ◌&&◌, List, [], ◌∷◌, ◌++◌, ◌⊎◌, inl, inr,
  arith, Bool-cases, if◌then◌else◌,
}
use model_lib.Base.Eq.{◌==◌, string_eq, ==_iff}
use model_lib.Roads.Network.{
  RoadEdgeSnapshot, Link, is_available, links_of, link_before, insert_link, insert_links,
  neighbours,
}
use model_lib.Roads.Dijkstra.{Query, links}
use model_lib.Roads.Dijkstra.Heap.{Elem}

-- A road from a node along an edge, in the edge's direction or, where it has both, against it
pub record Joins (node : String) (l : Link) : Type 0 where
  pub joined :
      ((l.edge.from_node_id ≡ node) × (l.next ≡ l.edge.to_node_id))
      ⊎ ((l.edge.bidirectional ≡ true)
          × (l.edge.to_node_id ≡ node)
          × (l.next ≡ l.edge.from_node_id))

-- A road of the network that the vehicle may take
pub record Connects (q : Query) (node : String) (l : Link) : Type 0 where
  pub stands : Elem l.edge q.snapshot.edges
  pub available : is_available l.edge q.vehicle_weight_tons q.excluded_edge_ids ≡ true
  pub joins : Joins node l

swap_first : {A B C : Type 0} → A ⊎ (B ⊎ C) → B ⊎ (A ⊎ C)
swap_first (inl a) = inr (inl a)
swap_first (inr (inl b)) = inl b
swap_first (inr (inr c)) = inr (inr c)

second : {A B C : Type 0} → (B → C) → A ⊎ B → A ⊎ C
second f (inl a) = inl a
second f (inr b) = inr (f b)

insert_link-Elem : (l a : Link) (ls : List Link) → Elem l (insert_link a ls) → (l ≡ a) ⊎ Elem l ls
unfolding insert_link
insert_link-Elem l a [] m = m
insert_link-Elem l a (b ∷ ls) m = elim (Bool-cases (link_before b a)) [
  | inl e ↦ swap_first (second (insert_link-Elem l a ls) (rw e at m))
  | inr e ↦ rw e at m
]

Elem-insert_link : (l a : Link) (ls : List Link) → (l ≡ a) ⊎ Elem l ls → Elem l (insert_link a ls)
unfolding insert_link
Elem-insert_link l a [] m = m
Elem-insert_link l a (b ∷ ls) m = elim (Bool-cases (link_before b a)) [
  | inl e ↦ rw e (second (Elem-insert_link l a ls) (swap_first m))
  | inr e ↦ rw e m
]

regroup : {A B C : Type 0} → (A ⊎ B) ⊎ C → A ⊎ (B ⊎ C)
regroup (inl (inl a)) = inl a
regroup (inl (inr b)) = inr (inl b)
regroup (inr c) = inr (inr c)

group : {A B C : Type 0} → A ⊎ (B ⊎ C) → (A ⊎ B) ⊎ C
group (inl a) = inl (inl a)
group (inr (inl b)) = inl (inr b)
group (inr (inr c)) = inr c

insert_links-Elem :
    (l : Link) (new ls : List Link) → Elem l (insert_links new ls) → Elem l new ⊎ Elem l ls
unfolding insert_links
insert_links-Elem l [] ls m = inr m
insert_links-Elem l (a ∷ new) ls m =
    group (second (insert_links-Elem l new ls) (insert_link-Elem l a (insert_links new ls) m))

Elem-insert_links :
    (l : Link) (new ls : List Link) → Elem l new ⊎ Elem l ls → Elem l (insert_links new ls)
unfolding insert_links
Elem-insert_links l [] ls (inr m) = m
Elem-insert_links l [] ls (inl m) = elim m [ ]
Elem-insert_links l (a ∷ new) ls m =
    Elem-insert_link l a (insert_links new ls) (second (Elem-insert_links l new ls) (regroup m))

append-Elem : (l : Link) (xs ys : List Link) → Elem l (xs ++ ys) → Elem l xs ⊎ Elem l ys
append-Elem l [] ys m = inr m
append-Elem l (x ∷ xs) ys m = group (second (append-Elem l xs ys) m)

Elem-append : (l : Link) (xs ys : List Link) → Elem l xs ⊎ Elem l ys → Elem l (xs ++ ys)
Elem-append l [] ys (inr m) = m
Elem-append l [] ys (inl m) = elim m [ ]
Elem-append l (x ∷ xs) ys m = second (Elem-append l xs ys) (regroup m)

one-Elem : (b : Bool) (l a : Link) → Elem l (if b then a ∷ [] else []) → (b ≡ true) × (l ≡ a)
one-Elem true l a (inl p) = (refl, p)
one-Elem true l a (inr m) = elim m [ ]
one-Elem false l a m = elim m [ ]

Elem-one : (b : Bool) (l a : Link) → b ≡ true → l ≡ a → Elem l (if b then a ∷ [] else [])
Elem-one b l a e p = rw e (inl p)

both : (a b : Bool) → (a && b) ≡ true → (a ≡ true) × (b ≡ true)
both a b e = ground (arith, e)

links_of-Elem :
    (node : String) (edge : RoadEdgeSnapshot) (l : Link)
    → Elem l (links_of node edge)
    → (l.edge ≡ edge) × Joins node l
unfolding links_of
links_of-Elem node edge l m = elim (append-Elem l _ _ m) [
  | inl f ↦
      let (e, p) = one-Elem (edge.from_node_id == node) l _ f in
      (
        ap (λ (x : Link). x.edge) p,
        subst (Joins node) (sym p)
            (record { joined = inl ((==_iff edge.from_node_id node).0 e, refl) }),
      )
  | inr t ↦
      let (e, p) = one-Elem (edge.bidirectional && edge.to_node_id == node) l _ t in
      let (way, to) = both edge.bidirectional (edge.to_node_id == node) e in
      (
        ap (λ (x : Link). x.edge) p,
        subst (Joins node) (sym p)
            (record { joined = inr (way, (==_iff edge.to_node_id node).0 to, refl) }),
      )
]

Elem-links_of : (node : String) (l : Link) → Joins node l → Elem l (links_of node l.edge)
unfolding links_of
Elem-links_of node l j = elim j.joined [
  | inl (f, n) ↦ Elem-append l _ _ (
      inl (
        Elem-one (l.edge.from_node_id == node) l _ ((==_iff l.edge.from_node_id node).1 f)
          (λ i. record { next = n i; edge = l.edge })))
  | inr (way, to, n) ↦ Elem-append l _ _ (
      inr (
        Elem-one (l.edge.bidirectional && l.edge.to_node_id == node) l _
          (ground (arith, way, to, ==_iff l.edge.to_node_id node))
          (λ i. record { next = n i; edge = l.edge })))
]

module _ (usable : RoadEdgeSnapshot → Bool) (node : String) (l : Link) where
  neighbours-Elem :
      (edges : List RoadEdgeSnapshot)
      → Elem l (neighbours usable edges node)
      → Elem l.edge edges × (usable l.edge ≡ true) × Joins node l
  unfolding neighbours
  neighbours-Elem [] m = elim m [ ]
  neighbours-Elem (edge ∷ rest) m = elim (Bool-cases (usable edge)) [
    | inl u ↦
        elim (insert_links-Elem l (links_of node edge) (neighbours usable rest node) (rw u at m)) [
          | inl k ↦ let (p, j) = links_of-Elem node edge l k in (inl p, ap usable p ∙ u, j)
          | inr k ↦ let (s, v, j) = neighbours-Elem rest k in (inr s, v, j)
        ]
    | inr u ↦ let (s, v, j) = neighbours-Elem rest (rw u at m) in (inr s, v, j)
  ]

  Elem-neighbours :
      (edges : List RoadEdgeSnapshot)
      → Elem l.edge edges
      → usable l.edge ≡ true
      → Joins node l
      → Elem l (neighbours usable edges node)
  unfolding neighbours
  Elem-neighbours [] m v j = elim m [ ]
  Elem-neighbours (edge ∷ rest) (inl p) v j = rw (ap usable (sym p) ∙ v) (
      Elem-insert_links l (links_of node edge) (neighbours usable rest node)
        (inl (subst (λ x. Elem l (links_of node x)) p (Elem-links_of node l j))))
  Elem-neighbours (edge ∷ rest) (inr m) v j = elim (Bool-cases (usable edge)) [
    | inl u ↦ rw u (
        Elem-insert_links l (links_of node edge) (neighbours usable rest node)
          (inr (Elem-neighbours rest m v j)))
    | inr u ↦ rw u (Elem-neighbours rest m v j)
  ]

pub links-Connects :
    (q : Query) (node : String) (l : Link) → Elem l (links q node) → Connects q node l
unfolding links
links-Connects q node l m =
    let (s, v, j) = neighbours-Elem _ node l q.snapshot.edges m in
    record { stands = s; available = v; joins = j }

pub Connects-links :
    (q : Query) (node : String) (l : Link) → Connects q node l → Elem l (links q node)
unfolding links
Connects-links q node l c = Elem-neighbours _ node l q.snapshot.edges c.stands c.available c.joins
