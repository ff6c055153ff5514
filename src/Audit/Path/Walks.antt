-- ===== src/Audit/Path/Walks.antt =====
-- What a connected path is.
use model_lib.Base.{
  ◌+◌, String, ◌≡◌, ◌≢◌, refl, ◌↔◌, ◌⊎◌, inl, inr, true, Option, none, some, List, [], ◌∷◌, length,
  Bool-cases, arith,
}
use model_lib.Base.Eq.{◌==◌, nat_eq, string_eq, option_eq, ==_iff}
use model_lib.Audit.Value.{Value, Entries, get, is_true, text_key}
use model_lib.Audit.Path.{edge_by_id, connects, follows, path_connects, is_empty}

-- An edge leads from one node to another: that way, or the other way round if it goes both ways.
abbrev pub Leads : Option Entries → String → String → Type 0
Leads none start end = ⊥
Leads (some edge) start end =
    ((text_key edge "from_node_id" ≡ some start) × (text_key edge "to_node_id" ≡ some end))
    ⊎ ((is_true (get edge "bidirectional") ≡ true)
        × (text_key edge "to_node_id" ≡ some start)
        × (text_key edge "from_node_id" ≡ some end))

-- Each edge leads from a node to the next one, and both lists end together.
abbrev pub Walks : Value → List String → List String → Type 0
Walks edges (start ∷ end ∷ nodes) (e ∷ es) =
    Leads (edge_by_id edges e) start end × Walks edges (end ∷ nodes) es
Walks edges (start ∷ []) [] = Unit
Walks edges _ _ = ⊥

connects-Leads :
    (edge : Option Entries) (start end : String)
    → (connects edge start end ≡ true) ↔ Leads edge start end
unfolding connects
connects-Leads none start end = ground arith
connects-Leads (some edge) start end = ground (
  arith,
  ==_iff (text_key edge "from_node_id") (some start),
  ==_iff (text_key edge "to_node_id") (some end),
  ==_iff (text_key edge "to_node_id") (some start),
  ==_iff (text_key edge "from_node_id") (some end),
)

follows-Walks :
    (edges : Value) (nodes es : List String)
    → length nodes ≡ length es + 1
    → (follows edges nodes es ≡ true) ↔ Walks edges nodes es
unfolding follows
follows-Walks edges (start ∷ end ∷ nodes) (e ∷ es) h = ground (
  arith,
  connects-Leads (edge_by_id edges e) start end,
  follows-Walks edges (end ∷ nodes) es (ground arith),
)
follows-Walks edges (start ∷ []) [] h = ground arith
follows-Walks edges [] [] h = ground arith
follows-Walks edges [] (e ∷ es) h = ground arith
follows-Walks edges (start ∷ []) (e ∷ es) h = ground arith
follows-Walks edges (start ∷ end ∷ nodes) [] h = ground arith

length-Walks :
    (edges : Value) (nodes es : List String) → Walks edges nodes es → length nodes ≡ length es + 1
length-Walks edges (start ∷ end ∷ nodes) (e ∷ es) w =
    ground (arith, length-Walks edges (end ∷ nodes) es w.1)
length-Walks edges (start ∷ []) [] w = refl
length-Walks edges [] [] w = absurd w
length-Walks edges [] (e ∷ es) w = absurd w
length-Walks edges (start ∷ []) (e ∷ es) w = absurd w
length-Walks edges (start ∷ end ∷ nodes) [] w = absurd w

nonempty-Walks :
    (edges : Value) (nodes : List String) (e : String) (es : List String)
    → (path_connects nodes (e ∷ es) edges ≡ true) ↔ Walks edges nodes (e ∷ es)
unfolding path_connects is_empty
nonempty-Walks edges nodes e es = elim (Bool-cases (length nodes == length (e ∷ es) + 1)) [
  | inl q ↦ ground (
    arith,
    follows-Walks edges nodes (e ∷ es) ((==_iff (length nodes) (length (e ∷ es) + 1)).0 q),
  )
  | inr q ↦
      ground (arith, length-Walks edges nodes (e ∷ es), ==_iff (length nodes) (length (e ∷ es) + 1))
]

-- The audit finds a path connected exactly when it has an edge and each of its edges, looked up in
-- the road network, leads from one of its nodes to the next, up to the last node.
pub path_connects-Walks :
    (edges : Value) (nodes es : List String)
    → (path_connects nodes es edges ≡ true) ↔ ((es ≢ []) × Walks edges nodes es)
unfolding path_connects is_empty
path_connects-Walks edges nodes [] = ground arith
path_connects-Walks edges nodes (e ∷ es) = ground (arith, nonempty-Walks edges nodes e es)

pub path_connects_lem :
    (edges : Value) (nodes es : List String)
    → path_connects nodes es edges ≡ true
    → Walks edges nodes es
path_connects_lem edges nodes es h = ((path_connects-Walks edges nodes es).0 h).1
