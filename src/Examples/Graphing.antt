-- ===== src/Examples/Graphing.antt =====
-- The graph code at concrete graphs. Numbers are thousandths here.
use cherry_wiki.Base.{
  ℕ, ◌*◌, ◌/◌, ◌^◌, ◌==◌, String, true, min, max, none, some, [], ◌∷◌, map, length, ◌≡◌, refl,
  arith,
}
use cherry_wiki.Graph.Data.{Numbers, GraphNode, GraphEdge, GraphOutput, confidence_label}
use cherry_wiki.Base.Text.{utf16_length}
use cherry_wiki.Base.Sorting.{sort_by}
use cherry_wiki.Graph.Validate.{
  node_incomplete, no_target, label_normalized, ValidationResult, validate_graph_output,
}
use cherry_wiki.Graph.Communities.{
  numbered, detect_by_propagation, detect_communities, build_adjacency, propagate_labels, passes,
  pass, best_label,
}
use cherry_wiki.Graph.Communities.Partition.{IsPartition, detect_by_propagation-IsPartition}
use cherry_wiki.Graph.Parse.{parsed, parse_graph_json}
use cherry_wiki.Graph.Parse.Written.{write_graph, parse_graph_json-write_graph}
use cherry_wiki.Graph.Import.{import_run}
use cherry_wiki.Graph.Import.Closed.{IsClosed, import_run-IsClosed}

abbrev thousandths : Numbers ℕ
thousandths = record {
  decimal = λ n d. n * 1000 / 10 ^ d;
  is_finite = λ x. true;
  is_equal = λ x y. x == y;
  times = λ x y. x * y / 1000;
  min_of = min;
  max_of = max;
  to_fixed_12 = λ x. x;
}

abbrev node : String → GraphNode
node id = record {
  id = id;
  label = id;
  norm_label = id;
  type = "concept";
  community = none;
  source_file = some "a.md";
  source_location = none;
}

abbrev edge : String → String → String → GraphEdge ℕ
edge source target confidence = record {
  source = source;
  target = target;
  relation = "cites";
  confidence = confidence;
  confidence_score = 500;
}

-- Two triangles with an edge between them, an incomplete node and an edge to nowhere.
abbrev graph : GraphOutput ℕ
graph = record {
  nodes = map node ("a" ∷ "b" ∷ "c" ∷ "" ∷ "x" ∷ "y" ∷ "z" ∷ []);
  edges =
      edge "a" "b" "EXTRACTED"
      ∷ edge "b" "c" "GUESSED"
      ∷ edge "a" "c" "INFERRED"
      ∷ edge "x" "y" "INFERRED"
      ∷ edge "y" "z" "INFERRED"
      ∷ edge "x" "z" "INFERRED"
      ∷ edge "c" "w" "INFERRED"
      ∷ [];
}

abbrev checked : ValidationResult ℕ
checked = validate_graph_output thousandths 10 10 graph

reports :
    (checked.errors ≡ node_incomplete "" "" ∷ [])
    × (checked.warnings ≡ label_normalized "GUESSED" ∷ no_target "w" ∷ [])
unfolding validate_graph_output utf16_length confidence_label
reports = (refl, refl)

-- The label is that of a node with the most neighbours, the smallest of them.
triangles :
    (detect_communities checked.valid_nodes checked.valid_edges).communities
    ≡ record { community_key = numbered 1; label = "a"; node_count = 3 }
      ∷ record { community_key = numbered 2; label = "x"; node_count = 3 }
      ∷ []
unfolding validate_graph_output detect_communities detect_by_propagation build_adjacency
    propagate_labels passes pass best_label utf16_length sort_by confidence_label
triangles = refl

detect_by_propagation-IsPartition_example :
    IsPartition
      (map node ("a" ∷ "b" ∷ "c" ∷ []))
      (detect_by_propagation (map node ("a" ∷ "b" ∷ "c" ∷ [])) (edge "a" "b" "EXTRACTED" ∷ []))
detect_by_propagation-IsPartition_example =
    detect_by_propagation-IsPartition (map node ("a" ∷ "b" ∷ "c" ∷ []))
      (edge "a" "b" "EXTRACTED" ∷ [])

import_run-IsClosed_example :
    IsClosed
      (length checked.valid_nodes)
      (some 20)
      (import_run thousandths
        (λ s. s)
        "t"
        "s"
        "r"
        checked.valid_nodes
        checked.valid_edges
        []
        (some 20)).operation
import_run-IsClosed_example =
    import_run-IsClosed thousandths (λ s. s) "t" "s" "r" 10 10 graph [] (some 20)

parse_graph_json-write_graph_example :
    parse_graph_json thousandths (some (write_graph graph)) ≡ parsed graph []
parse_graph_json-write_graph_example =
    parse_graph_json-write_graph thousandths graph (omega arith) (omega arith)
      (refl, (refl, (refl, (refl, (refl, (refl, (refl, tt)))))))
