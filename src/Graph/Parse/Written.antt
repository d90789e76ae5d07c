-- ===== src/Graph/Parse/Written.antt =====
-- A graph that is written in the format is read back.
use cherry_wiki.Base.{
  suc, ◌≤◌, String, true, false, Option, none, some, List, [], ◌∷◌, map, length, All, ltb,
  if◌then◌else◌, ◌≡◌, refl, ap, ◌∙◌, arith,
}
use cherry_wiki.Graph.Data.{Numbers, GraphNode, GraphEdge, GraphOutput}
use cherry_wiki.Graph.Validate.{max_nodes, max_edges}
use cherry_wiki.Graph.Parse.{
  Json, null, text, number, array, object, Items, end, item, Fields, empty, field, parsed, items,
  read, string_of, parse_node, parse_edge, parse_graph_json,
}

-- The format: an optional text is left out or null.
abbrev pub text_or_null : {N : Type 0} → Option String → Json N
text_or_null none = null
text_or_null (some s) = text s

abbrev pub text_field : {N : Type 0} → String → Option String → Fields N → Fields N
text_field key none fields = fields
text_field key (some s) fields = field key (text s) fields

abbrev pub write_node : {N : Type 0} → GraphNode → Json N
write_node node = object (
    field "id" (text node.id) (
      field "label" (text node.label) (
        field "norm_label" (text node.norm_label) (
          field "type" (text node.type) (
            field "community" (text_or_null node.community) (
              text_field "source_file" node.source_file
                (text_field "source_location" node.source_location empty)))))))

abbrev pub write_edge : {N : Type 0} → GraphEdge N → Json N
write_edge edge = object (
    field "source" (text edge.source) (
      field "target" (text edge.target) (
        field "relation" (text edge.relation) (
          field "confidence" (text edge.confidence)
            (field "confidence_score" (number edge.confidence_score) empty)))))

abbrev pub list_items : {A N : Type 0} → (A → Json N) → List A → Items N
list_items f [] = end
list_items f (x ∷ xs) = item (f x) (list_items f xs)

abbrev pub write_graph : {N : Type 0} → GraphOutput N → Json N
write_graph graph = object (
    field "nodes" (array (list_items write_node graph.nodes)) (
      field "edges" (array (list_items write_edge graph.edges))
        (field "hyperedges" (array end) empty)))

module _ {N : Type 0} (ops : Numbers N) where
  community_back : (o : Option String) → string_of ops (some (text_or_null o)) ≡ o
  community_back none = refl
  community_back (some s) = refl

  file_back :
      (f l : Option String)
      → string_of ops (
          read ops "source_file"
            (text_field "source_file" f (text_field "source_location" l empty)))
        ≡ f
  file_back none none = refl
  file_back none (some l) = refl
  file_back (some f) l = refl

  location_back :
      (f l : Option String)
      → string_of ops (
          read ops "source_location"
            (text_field "source_file" f (text_field "source_location" l empty)))
        ≡ l
  location_back none none = refl
  location_back none (some l) = refl
  location_back (some f) none = refl
  location_back (some f) (some l) = refl

  parse_node-write_node : (node : GraphNode) → parse_node ops (write_node node) ≡ node
  unfolding parse_node
  parse_node-write_node node =
      rw
        (
          community_back node.community,
          file_back node.source_file node.source_location,
          location_back node.source_file node.source_location,
        )
        refl

  parse_edge-write_edge :
      (edge : GraphEdge N)
      → ops.is_finite edge.confidence_score ≡ true
      → parse_edge ops (write_edge edge) ≡ edge
  unfolding parse_edge
  parse_edge-write_edge edge finite = rw (finite, if◌then◌else◌) refl

  nodes_back :
      (nodes : List GraphNode)
      → map (parse_node ops) (items ops (list_items write_node nodes)) ≡ nodes
  nodes_back [] = refl
  nodes_back (node ∷ nodes) =
      ap (λ n. n ∷ map (parse_node ops) (items ops (list_items write_node nodes)))
        (parse_node-write_node node)
      ∙ ap (λ l. node ∷ l) (nodes_back nodes)

  edges_back :
      (edges : List (GraphEdge N))
      → All (λ e. ops.is_finite e.confidence_score ≡ true) edges
      → map (parse_edge ops) (items ops (list_items write_edge edges)) ≡ edges
  edges_back [] h = refl
  edges_back (edge ∷ edges) (p, h) =
      ap (λ n. n ∷ map (parse_edge ops) (items ops (list_items write_edge edges)))
        (parse_edge-write_edge edge p)
      ∙ ap (λ l. edge ∷ l) (edges_back edges h)

  length-items :
      {A : Type 0} (f : A → Json N) (xs : List A) → length (items ops (list_items f xs)) ≡ length xs
  length-items f [] = refl
  length-items f (x ∷ xs) = ap suc (length-items f xs)

  -- A graph with at most 50000 nodes and 200000 edges whose scores are finite is read back as it was, after it is written as an object with its nodes under nodes and its edges under edges, an optional text null or left out.
  pub parse_graph_json-write_graph :
      (graph : GraphOutput N)
      → length graph.nodes ≤ max_nodes
      → length graph.edges ≤ max_edges
      → All (λ e. ops.is_finite e.confidence_score ≡ true) graph.edges
      → parse_graph_json ops (some (write_graph graph)) ≡ parsed graph []
  unfolding parse_graph_json
  parse_graph_json-write_graph graph few few' finite =
      let few_items : ltb max_nodes (length (items ops (list_items write_node graph.nodes)))
          ≡ false =
        ground (arith, length-items write_node graph.nodes) in
      let few_items' : ltb max_edges (length (items ops (list_items write_edge graph.edges)))
          ≡ false =
        ground (arith, length-items write_edge graph.edges) in
      rw (few_items, if◌then◌else◌)
        (rw (few_items', if◌then◌else◌)
          (ap
              (λ ns.
                parsed
                  (record {
                    nodes = ns;
                    edges = map (parse_edge ops) (items ops (list_items write_edge graph.edges));
                  })
                  [])
              (nodes_back graph.nodes)
            ∙ ap (λ es. parsed (record { nodes = graph.nodes; edges = es }) [])
                (edges_back graph.edges finite)))
