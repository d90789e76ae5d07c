-- ===== src/Graph/Validate.antt =====
-- packages/graph-core/src/validator.ts.
pub mod Sound
use cherry_wiki.Base.{
  ℕ, String, Bool, true, false, not, ◌&&◌, ◌||◌, Option, none, some, List, [], ◌∷◌, ◌++◌, map,
  length, keep, ltb, ◌==◌, ◌=ₛ◌, if◌then◌else◌,
}
use cherry_wiki.Base.Text.{includes, utf16_length}
use cherry_wiki.Graph.Data.{
  Numbers, GraphNode, GraphEdge, GraphOutput, ConfidenceLabel, confidence_label,
}

abbrev pub max_nodes : ℕ
max_nodes = 50000

abbrev pub max_edges : ℕ
max_edges = 200000

-- The messages, by what they report.
pub data Message : Type 0 where
  no_nodes : Message
  too_many_nodes : ℕ → ℕ → Message
  too_many_edges : ℕ → ℕ → Message
  node_incomplete : String → String → Message
  label_too_long : String → Message
  edge_incomplete : String → String → String → Message
  no_source : String → Message
  no_target : String → Message
  label_normalized : String → Message

pub record ValidationResult (N : Type 0) : Type 0 where
  pub valid : Bool
  pub errors : List Message
  pub warnings : List Message
  pub valid_nodes : List GraphNode
  pub valid_edges : List (GraphEdge N)

abbrev pub is_empty : String → Bool
is_empty s = s =ₛ ""

-- What a node comes to: the error that it is reported with, if any.
abbrev pub node_error : GraphNode → Option Message
node_error node =
    if is_empty node.id || is_empty node.label
    then some (node_incomplete node.id node.label)
    else if ltb 256 (utf16_length node.label)
    then some (label_too_long node.id)
    else none

abbrev pub add_error : Option Message → List Message → List Message
add_error none errors = errors
add_error (some e) errors = e ∷ errors

abbrev pub add_node : Option Message → GraphNode → List GraphNode → List GraphNode
add_node none node nodes = node ∷ nodes
add_node (some e) node nodes = nodes

-- The loop over the nodes.
abbrev pub check_nodes : List GraphNode → List Message × List GraphNode
check_nodes [] = ([], [])
check_nodes (node ∷ nodes) =
    let (errors, valid) = check_nodes nodes in
    (add_error (node_error node) errors, add_node (node_error node) node valid)

abbrev pub ids : List GraphNode → List String
ids = map (λ node. node.id)

module _ {N : Type 0} (ops : Numbers N) where
  abbrev pub check_label :
      Option ConfidenceLabel → GraphEdge N → Option Message × Option (GraphEdge N)
  check_label none edge = (
    some (label_normalized edge.confidence),
    some (record edge { confidence = "AMBIGUOUS"; confidence_score = ops.decimal 2 1 }),
  )
  check_label (some label) edge = (none, some edge)

  -- What an edge comes to: a warning, and the edge that is kept.
  abbrev pub check_edge : List String → GraphEdge N → Option Message × Option (GraphEdge N)
  check_edge node_ids edge =
      if is_empty edge.source || (is_empty edge.target || is_empty edge.relation)
      then (some (edge_incomplete edge.source edge.target edge.relation), none)
      else if not (includes node_ids edge.source)
      then (some (no_source edge.source), none)
      else if not (includes node_ids edge.target)
      then (some (no_target edge.target), none)
      else check_label (confidence_label edge.confidence) edge

  abbrev pub add_edge : Option (GraphEdge N) → List (GraphEdge N) → List (GraphEdge N)
  add_edge none edges = edges
  add_edge (some edge) edges = edge ∷ edges

  -- The loop over the edges.
  abbrev pub check_edges : List String → List (GraphEdge N) → List Message × List (GraphEdge N)
  check_edges node_ids [] = ([], [])
  check_edges node_ids (edge ∷ edges) =
      let (warnings, valid) = check_edges node_ids edges in
      let (warning, kept) = check_edge node_ids edge in
      (add_error warning warnings, add_edge kept valid)

  abbrev pub refused : Message → ValidationResult N
  refused e = record {
    valid = false;
    errors = e ∷ [];
    warnings = [];
    valid_nodes = [];
    valid_edges = [];
  }

  abbrev pub is_nil : List Message → Bool
  is_nil [] = true
  is_nil (e ∷ errors) = false

  abbrev pub check_all : GraphOutput N → ValidationResult N
  check_all parsed =
      let (errors, nodes) = check_nodes parsed.nodes in
      let (warnings, edges) = check_edges (ids nodes) parsed.edges in
      record {
        valid = is_nil errors;
        errors = errors;
        warnings = warnings;
        valid_nodes = nodes;
        valid_edges = edges;
      }

  unfoldable pub validate_graph_output : ℕ → ℕ → GraphOutput N → ValidationResult N
  validate_graph_output node_limit edge_limit parsed =
      if length parsed.nodes == 0
      then refused no_nodes
      else if ltb node_limit (length parsed.nodes)
      then refused (too_many_nodes (length parsed.nodes) node_limit)
      else if ltb edge_limit (length parsed.edges)
      then refused (too_many_edges (length parsed.edges) edge_limit)
      else check_all parsed
