-- ===== src/Graph/Validate/Sound.antt =====
-- What a validated graph is like.
use cherry_wiki.Base.{
  ℕ, ◌≤◌, ◌<◌, String, true, false, not, ◌||◌, Option, none, some, List, [], ◌∷◌, length, ltb, ◌==◌,
  if◌then◌else◌, All, ◌≡◌, refl, ap, arith, Bool-cases, inl, inr,
}
use cherry_wiki.Base.Text.{includes}
use cherry_wiki.Graph.Data.{
  Numbers, GraphNode, GraphEdge, GraphOutput, ConfidenceLabel, ambiguous, confidence_label,
}
use cherry_wiki.Graph.Validate.{
  Message, ValidationResult, is_empty, node_error, add_error, add_node, check_nodes, ids,
  check_label, add_edge, is_nil, check_edge, check_edges, check_all, refused, no_nodes,
  validate_graph_output,
}

-- An edge between two of the nodes, with a relation and a known label.
pub record IsEdgeOf {N : Type 0} (node_ids : List String) (edge : GraphEdge N) : Type 0 where
  pub source_in : includes node_ids edge.source ≡ true
  pub target_in : includes node_ids edge.target ≡ true
  pub related : is_empty edge.relation ≡ false
  pub labelled : (l : ConfidenceLabel) × (confidence_label edge.confidence ≡ some l)

ambiguous-label : confidence_label "AMBIGUOUS" ≡ some ambiguous
unfolding confidence_label
ambiguous-label = refl

module _ {N : Type 0} (ops : Numbers N) where
  AllEdgesOf : List String → Option (GraphEdge N) → Type 0
  AllEdgesOf node_ids none = Unit
  AllEdgesOf node_ids (some edge) = IsEdgeOf node_ids edge

  check_label-IsEdgeOf :
      (node_ids : List String) (edge : GraphEdge N) (o : Option ConfidenceLabel)
      → confidence_label edge.confidence ≡ o
      → includes node_ids edge.source ≡ true
      → includes node_ids edge.target ≡ true
      → is_empty edge.relation ≡ false
      → AllEdgesOf node_ids (check_label ops o edge).1
  unfolding AllEdgesOf
  check_label-IsEdgeOf node_ids edge none e s t r = record {
    source_in = s;
    target_in = t;
    related = r;
    labelled = (ambiguous, ambiguous-label);
  }
  check_label-IsEdgeOf node_ids edge (some l) e s t r = record {
    source_in = s;
    target_in = t;
    related = r;
    labelled = (l, e);
  }

  check_edge-IsEdgeOf :
      (node_ids : List String) (edge : GraphEdge N)
      → AllEdgesOf node_ids (check_edge ops node_ids edge).1
  unfolding AllEdgesOf
  check_edge-IsEdgeOf node_ids edge =
      elim (Bool-cases (is_empty edge.source || (is_empty edge.target || is_empty edge.relation))) [
        | inl missing ↦ rw (missing, if◌then◌else◌) tt
        | inr there ↦ elim (Bool-cases (includes node_ids edge.source)) [
          | inr e ↦ rw (there, if◌then◌else◌) (rw (e, not, if◌then◌else◌) tt)
          | inl s ↦ elim (Bool-cases (includes node_ids edge.target)) [
            | inr e ↦
                rw (there, if◌then◌else◌)
                  (rw (s, not, if◌then◌else◌) (rw (e, not, if◌then◌else◌) tt))
            | inl t ↦
                rw (there, if◌then◌else◌)
                  (rw (s, not, if◌then◌else◌)
                    (rw (t, not, if◌then◌else◌)
                      (check_label-IsEdgeOf node_ids edge (confidence_label edge.confidence) refl s
                        t (ground arith))))
          ]
        ]
      ]

  add_edge-All :
      (node_ids : List String) (o : Option (GraphEdge N)) (edges : List (GraphEdge N))
      → All (IsEdgeOf node_ids) edges
      → AllEdgesOf node_ids o
      → All (IsEdgeOf node_ids) (add_edge ops o edges)
  unfolding AllEdgesOf
  add_edge-All node_ids none edges h p = h
  add_edge-All node_ids (some e) edges h p = (p, h)

  check_edges-All :
      (node_ids : List String) (edges : List (GraphEdge N))
      → All (IsEdgeOf node_ids) (check_edges ops node_ids edges).1
  check_edges-All node_ids [] = tt
  check_edges-All node_ids (edge ∷ edges) =
      add_edge-All node_ids (check_edge ops node_ids edge).1 (check_edges ops node_ids edges).1
        (check_edges-All node_ids edges) (check_edge-IsEdgeOf node_ids edge)

add_node-All :
    (o : Option Message) (node : GraphNode) (nodes : List GraphNode)
    → node_error node ≡ o
    → All (λ n. node_error n ≡ none) nodes
    → All (λ n. node_error n ≡ none) (add_node o node nodes)
add_node-All none node nodes e h = (e, h)
add_node-All (some m) node nodes e h = h

check_nodes-All : (nodes : List GraphNode) → All (λ n. node_error n ≡ none) (check_nodes nodes).1
check_nodes-All [] = tt
check_nodes-All (node ∷ nodes) =
    add_node-All (node_error node) node (check_nodes nodes).1 refl (check_nodes-All nodes)

add_node_all :
    (o : Option Message) (errors : List Message) (node : GraphNode) (kept nodes : List GraphNode)
    → (errors ≡ [] → kept ≡ nodes)
    → add_error o errors ≡ []
    → add_node o node kept ≡ node ∷ nodes
add_node_all none errors node kept nodes all e = ap (λ l. node ∷ l) (all e)
add_node_all (some m) errors node kept nodes all e = absurd (cc)

check_nodes_all :
    (nodes : List GraphNode) → (check_nodes nodes).0 ≡ [] → (check_nodes nodes).1 ≡ nodes
check_nodes_all [] e = refl
check_nodes_all (node ∷ nodes) e =
    add_node_all (node_error node) (check_nodes nodes).0 node (check_nodes nodes).1 nodes
      (check_nodes_all nodes) e

no_errors :
    {N : Type 0} (ops : Numbers N) (errors : List Message) → is_nil ops errors ≡ true → errors ≡ []
no_errors ops [] e = refl
no_errors ops (m ∷ errors) e = absurd (cc)

-- What validation promises of a graph: every kept edge joins two kept nodes and has a relation and
-- a known label; every kept node is complete; and a graph is valid only if it has nodes, keeps to the
-- limits, and all its nodes are kept.
pub record IsSound {N : Type 0} (node_limit edge_limit : ℕ) (parsed : GraphOutput N)
    (r : ValidationResult N) : Type 0 where
  pub closed : All (IsEdgeOf (ids r.valid_nodes)) r.valid_edges
  pub good : All (λ n. node_error n ≡ none) r.valid_nodes
  pub complete :
      r.valid ≡ true
      → (0 < length parsed.nodes)
        × (length parsed.nodes ≤ node_limit)
        × (length parsed.edges ≤ edge_limit)
        × (r.valid_nodes ≡ parsed.nodes)

check_all-IsSound :
    {N : Type 0} (ops : Numbers N) (node_limit edge_limit : ℕ) (parsed : GraphOutput N)
    → 0 < length parsed.nodes
    → length parsed.nodes ≤ node_limit
    → length parsed.edges ≤ edge_limit
    → IsSound node_limit edge_limit parsed (check_all ops parsed)
check_all-IsSound ops node_limit edge_limit parsed some_nodes few few' = record {
  closed = check_edges-All ops (ids (check_nodes parsed.nodes).1) parsed.edges;
  good = check_nodes-All parsed.nodes;
  complete = λ v. (
    some_nodes,
    few,
    few',
    check_nodes_all parsed.nodes (no_errors ops (check_nodes parsed.nodes).0 v),
  );
}

pub validate_graph_output-IsSound :
    {N : Type 0} (ops : Numbers N) (node_limit edge_limit : ℕ) (parsed : GraphOutput N)
    → IsSound node_limit edge_limit parsed (validate_graph_output ops node_limit edge_limit parsed)
unfolding validate_graph_output
validate_graph_output-IsSound ops node_limit edge_limit parsed =
    let none_kept : (e : Message) → IsSound node_limit edge_limit parsed (refused ops e) =
      λ e. record { closed = tt; good = tt; complete = λ v. absurd (cc) } in
    elim (Bool-cases (length parsed.nodes == 0)) [
      | inl empty ↦ rw (empty, if◌then◌else◌) (none_kept no_nodes)
      | inr some_nodes ↦ elim (Bool-cases (ltb node_limit (length parsed.nodes))) [
        | inl many ↦ rw (some_nodes, if◌then◌else◌) (rw (many, if◌then◌else◌) (none_kept _))
        | inr few ↦ elim (Bool-cases (ltb edge_limit (length parsed.edges))) [
          | inl many ↦
              rw (some_nodes, if◌then◌else◌)
                (rw (few, if◌then◌else◌) (rw (many, if◌then◌else◌) (none_kept _)))
          | inr few' ↦
              rw (some_nodes, if◌then◌else◌)
                (rw (few, if◌then◌else◌)
                  (rw (few', if◌then◌else◌)
                    (check_all-IsSound ops node_limit edge_limit parsed (ground arith)
                      (ground arith) (ground arith))))
        ]
      ]
    ]
