-- ===== src/Graph/Import.antt =====
-- packages/graph-core/src/import-service.ts. The service is a function of the validated graph; the
-- SHA-256 digest is an argument.
pub mod Closed
use cherry_wiki.Base.{
  ℕ, suc, ◌*◌, String, Bool, true, false, not, Option, none, some, List, [], ◌∷◌, map, length, ltb,
  ◌=ₛ◌, if◌then◌else◌,
}
use cherry_wiki.Base.Text.{includes}
use cherry_wiki.Graph.Data.{
  Numbers, GraphNode, GraphEdge, ConfidenceLabel, ambiguous, confidence_label, map_confidence,
  compute_stable_key,
}
use cherry_wiki.Graph.Communities.{CommunityKey, GraphCommunity, detect_communities}

pub record SourceRef : Type 0 where
  pub file : String
  pub location : Option String

pub record ImportNode : Type 0 where
  pub node_key : String
  pub stable_key : String
  pub label : String
  pub norm_label : String
  pub type : String
  pub community_id : Option CommunityKey
  pub source_refs : List SourceRef

pub record ImportEdge (N : Type 0) : Type 0 where
  pub source_node_key : String
  pub target_node_key : String
  pub relation_type : String
  pub confidence_label : ConfidenceLabel
  pub raw_score : N
  pub effective_score : N
  pub evidence_count : ℕ

pub record Alias : Type 0 where
  pub stable_key : String
  pub alias : String

-- The warning of the shrink guard, with the numbers that its percentage comes from.
pub data ImportWarning : Type 0 where
  shrink_guard : ℕ → ℕ → ImportWarning

pub record ImportStats : Type 0 where
  pub nodes_created : ℕ
  pub nodes_matched : ℕ
  pub edges_created : ℕ
  pub communities_created : ℕ
  pub aliases_created : ℕ
  pub warnings : List ImportWarning
  pub shrink_detected : Bool

pub record ImportOperation (N : Type 0) : Type 0 where
  pub nodes : List ImportNode
  pub edges : List (ImportEdge N)
  pub communities : List GraphCommunity
  pub aliases : List Alias
  pub stats : ImportStats

-- The operation of a run, with what it is for.
pub record RunOperation (N : Type 0) : Type 0 where
  pub operation : ImportOperation N
  pub tenant_id : String
  pub space_id : String
  pub run_id : String

unfoldable pub source_refs_for : Option String → Option String → List SourceRef
source_refs_for none location = []
source_refs_for (some file) location =
    if file =ₛ "" then [] else record { file = file; location = location } ∷ []

-- `1 - nodes / previous > 0.8`: as doubles this is `5 * nodes < previous` for counts below 2 ^ 48.
abbrev pub shrinks : ℕ → Option ℕ → Bool
shrinks n none = false
shrinks n (some previous) = ltb (5 * n) previous

abbrev previous_of : Option ℕ → ℕ
previous_of none = 0
previous_of (some previous) = previous

abbrev pub empty_import_operation : {N : Type 0} → List ImportWarning → ImportOperation N
empty_import_operation warnings = record {
  nodes = [];
  edges = [];
  communities = [];
  aliases = [];
  stats = record {
    nodes_created = 0;
    nodes_matched = 0;
    edges_created = 0;
    communities_created = 0;
    aliases_created = 0;
    warnings = warnings;
    shrink_detected = true;
  };
}

abbrev label_or_ambiguous : Option ConfidenceLabel → ConfidenceLabel
label_or_ambiguous none = ambiguous
label_or_ambiguous (some label) = label

abbrev pub count_matched : List String → List ImportNode → ℕ
count_matched existing [] = 0
count_matched existing (node ∷ nodes) =
    if includes existing node.stable_key
    then suc (count_matched existing nodes)
    else count_matched existing nodes

module _ {N : Type 0} (ops : Numbers N) (sha256 : String → String) where
  abbrev pub import_node : String → (String → Option CommunityKey) → GraphNode → ImportNode
  import_node space_id assignments node = record {
    node_key = node.id;
    stable_key = compute_stable_key sha256 space_id node.norm_label node.type;
    label = node.label;
    norm_label = node.norm_label;
    type = node.type;
    community_id = assignments node.id;
    source_refs = source_refs_for node.source_file node.source_location;
  }

  abbrev pub import_edge : GraphEdge N → ImportEdge N
  import_edge edge =
      let label = label_or_ambiguous (confidence_label edge.confidence) in
      let confidence = map_confidence ops label edge.confidence_score in
      record {
        source_node_key = edge.source;
        target_node_key = edge.target;
        relation_type = edge.relation;
        confidence_label = label;
        raw_score = confidence.raw_confidence_score;
        effective_score = confidence.effective_confidence_score;
        evidence_count = 1;
      }

  abbrev pub operation_of :
      String
      → List String
      → (String → Option CommunityKey)
      → List GraphCommunity
      → List GraphNode
      → List (GraphEdge N)
      → ImportOperation N
  operation_of space_id existing assignments communities valid_nodes valid_edges =
      let nodes = map (import_node space_id assignments) valid_nodes in
      let edges = map import_edge valid_edges in
      let aliases =
        map (λ node. record { stable_key = node.stable_key; alias = node.node_key }) nodes in
      record {
        nodes = nodes;
        edges = edges;
        communities = communities;
        aliases = aliases;
        stats = record {
          nodes_created = length nodes;
          nodes_matched = count_matched existing nodes;
          edges_created = length edges;
          communities_created = length communities;
          aliases_created = length aliases;
          warnings = [];
          shrink_detected = false;
        };
      }

  unfoldable pub prepare_import :
      String → List GraphNode → List (GraphEdge N) → List String → Option ℕ → ImportOperation N
  prepare_import space_id valid_nodes valid_edges existing previous =
      let found = detect_communities valid_nodes valid_edges in
      if shrinks (length valid_nodes) previous
      then empty_import_operation (shrink_guard (length valid_nodes) (previous_of previous) ∷ [])
      else operation_of space_id existing found.assignments found.communities valid_nodes
          valid_edges

  unfoldable pub import_run :
      String
      → String
      → String
      → List GraphNode
      → List (GraphEdge N)
      → List String
      → Option ℕ
      → RunOperation N
  unfolding prepare_import
  import_run tenant_id space_id run_id valid_nodes valid_edges existing previous = record {
    operation = prepare_import space_id valid_nodes valid_edges existing previous;
    tenant_id = tenant_id;
    space_id = space_id;
    run_id = run_id;
  }
