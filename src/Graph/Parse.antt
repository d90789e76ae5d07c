-- ===== src/Graph/Parse.antt =====
-- packages/graph-core/src/parser.ts, on the values that JSON.parse makes: the keys of an object differ.
pub mod Written
use cherry_wiki.Base.{
  ℕ, suc, String, Bool, true, false, Option, none, some, List, [], ◌∷◌, map, length, ltb, ◌=ₛ◌,
  if◌then◌else◌,
}
use cherry_wiki.Graph.Data.{Numbers, GraphNode, GraphEdge, GraphOutput, normalize_label}
use cherry_wiki.Graph.Validate.{max_nodes, max_edges}
use cherry_wiki.Graph.Communities.{or_else}

mutual
  pub data Json (N : Type 0) : Type 0 where
    null : Json N
    bool : Bool → Json N
    number : N → Json N
    text : String → Json N
    array : Items N → Json N
    object : Fields N → Json N

  pub data Items (N : Type 0) : Type 0 where
    end : Items N
    item : Json N → Items N → Items N

  pub data Fields (N : Type 0) : Type 0 where
    empty : Fields N
    field : String → Json N → Fields N → Fields N

pub data ParseResult (N : Type 0) : Type 0 where
  malformed : ParseResult N
  nodes_exceed : ℕ → ParseResult N
  edges_exceed : ℕ → ParseResult N
  parsed : GraphOutput N → List (Json N) → ParseResult N

module _ {N : Type 0} (ops : Numbers N) where
  abbrev pub items : Items N → List (Json N)
  items end = []
  items (item x xs) = x ∷ items xs

  -- `record[key]`.
  abbrev pub read : String → Fields N → Option (Json N)
  read key empty = none
  read key (field other value fields) = if other =ₛ key then some value else read key fields

  -- `isRecord(value) ? value : {}`.
  abbrev pub record_of : Json N → Fields N
  record_of (object fields) = fields
  record_of null = empty
  record_of (bool b) = empty
  record_of (number x) = empty
  record_of (text s) = empty
  record_of (array xs) = empty

  abbrev pub string_of : Option (Json N) → Option String
  string_of (some (text s)) = some s
  string_of _ = none

  abbrev number_of : Option (Json N) → Option N
  number_of (some (number x)) = if ops.is_finite x then some x else none
  number_of _ = none

  abbrev array_of : Option (Json N) → List (Json N)
  array_of (some (array xs)) = items xs
  array_of _ = []

  abbrev read_string : Fields N → String → Option String
  read_string fields key = string_of (read key fields)

  abbrev read_number : Fields N → String → Option N
  read_number fields key = number_of (read key fields)

  abbrev read_array : Fields N → String → List (Json N)
  read_array fields key = array_of (read key fields)

  abbrev pub node_of : Fields N → GraphNode
  node_of fields =
      let label = or_else (read_string fields "label") "" in
      record {
        id = or_else (read_string fields "id") "";
        label = label;
        norm_label = or_else (read_string fields "norm_label") (normalize_label label);
        type = or_else (read_string fields "type") "concept";
        community = read_string fields "community";
        source_file = read_string fields "source_file";
        source_location = read_string fields "source_location";
      }

  unfoldable pub parse_node : Json N → GraphNode
  parse_node value = node_of (record_of value)

  abbrev pub edge_of : Fields N → GraphEdge N
  edge_of fields = record {
    source = or_else (read_string fields "source") "";
    target = or_else (read_string fields "target") "";
    relation = or_else (read_string fields "relation") "";
    confidence = or_else (read_string fields "confidence") "AMBIGUOUS";
    confidence_score = or_else (read_number fields "confidence_score") (ops.decimal 2 1);
  }

  unfoldable pub parse_edge : Json N → GraphEdge N
  parse_edge value = edge_of (record_of value)

  -- `links` before `edges`.
  abbrev pub raw_edges : List (Json N) → List (Json N) → List (Json N)
  raw_edges [] edges = edges
  raw_edges (link ∷ links) edges = link ∷ links

  abbrev pub graph_of : List (Json N) → List (Json N) → List (Json N) → ParseResult N
  graph_of nodes edges hyperedges =
      if ltb max_nodes (length nodes)
      then nodes_exceed (length nodes)
      else if ltb max_edges (length edges)
      then edges_exceed (length edges)
      else parsed (record { nodes = map parse_node nodes; edges = map parse_edge edges }) hyperedges

  abbrev pub parse_fields : Fields N → ParseResult N
  parse_fields fields =
      graph_of (read_array fields "nodes")
        (raw_edges (read_array fields "links") (read_array fields "edges"))
        (read_array fields "hyperedges")

  -- What JSON.parse makes of the text; none when it throws.
  unfoldable pub parse_graph_json : Option (Json N) → ParseResult N
  parse_graph_json none = malformed
  parse_graph_json (some value) = parse_fields (record_of value)
