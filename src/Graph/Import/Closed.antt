-- ===== src/Graph/Import/Closed.antt =====
-- Importing a validated graph.
use cherry_wiki.Base.{
  ℕ, suc, ◌≤◌, ◌<◌, ◌*◌, ◌∙◌, ◌↔◌, some, none, false, String, true, Option, List, [], ◌∷◌, map,
  length, All, if◌then◌else◌, ◌≡◌, refl, sym, ap, subst, arith, Bool-cases, inl, inr,
}
use cherry_wiki.Base.Text.{includes}
use cherry_wiki.Graph.Data.{Numbers, GraphNode, GraphEdge, GraphOutput}
use cherry_wiki.Graph.Validate.{ids, validate_graph_output}
use cherry_wiki.Graph.Validate.Sound.{IsEdgeOf, validate_graph_output-IsSound}
use cherry_wiki.Graph.Communities.{CommunityKey, GraphCommunity, detect_communities}
use cherry_wiki.Graph.Communities.Given.{is_defined, HasDefined, detect_communities-HasDefined}
use cherry_wiki.Graph.Import.{
  ImportNode, ImportOperation, shrinks, count_matched, import_node, import_edge, prepare_import,
  import_run,
}

-- The keys that the edges of the operation may name.
abbrev node_keys : List ImportNode → List String
node_keys = map (λ node. node.node_key)

-- Edges join nodes of the operation, nodes have communities of the operation, nodes that exist already
-- are among the nodes; a run with fewer than a fifth of the nodes of the previous one, and no other,
-- is flagged and left out.
pub record IsClosed {N : Type 0} (n : ℕ) (previous : Option ℕ) (op : ImportOperation N)
    : Type 0 where
  pub joined :
      All
        (λ e.
          (includes (node_keys op.nodes) e.source_node_key ≡ true)
          × (includes (node_keys op.nodes) e.target_node_key ≡ true))
        op.edges
  pub defined : All (λ node. is_defined node.community_id op.communities ≡ true) op.nodes
  pub matched : op.stats.nodes_matched ≤ length op.nodes
  pub guarded : (op.stats.shrink_detected ≡ true) ↔ ((p : ℕ) × (previous ≡ some p) × (5 * n < p))
  pub dropped : op.stats.shrink_detected ≡ true → op.nodes ≡ []
  pub whole : op.stats.shrink_detected ≡ false → length op.nodes ≡ n

shrinks-fifth :
    (n : ℕ) (previous : Option ℕ)
    → shrinks n previous ≡ true
    → (p : ℕ) × (previous ≡ some p) × (5 * n < p)
shrinks-fifth n none h = absurd (cc)
shrinks-fifth n (some p) h = (p, refl, ground arith)

fifth-shrinks :
    (n : ℕ) (previous : Option ℕ)
    → (p : ℕ) × (previous ≡ some p) × (5 * n < p)
    → shrinks n previous ≡ true
fifth-shrinks n previous (p, e, few) = rw e (ground (arith, few))

matched_bounded :
    (existing : List String) (nodes : List ImportNode) → count_matched existing nodes ≤ length nodes
matched_bounded existing [] = omega arith
matched_bounded existing (node ∷ nodes) = ground (arith, matched_bounded existing nodes)

length-imported : {A B : Type 0} (f : A → B) (xs : List A) → length (map f xs) ≡ length xs
length-imported f [] = refl
length-imported f (x ∷ xs) = ap suc (length-imported f xs)

module _ {N : Type 0} (ops : Numbers N) (sha256 : String → String) (space_id : String)
    (m : String → Option CommunityKey) where
  imported_keys :
      (nodes : List GraphNode)
      → node_keys (map (import_node ops sha256 space_id m) nodes) ≡ ids nodes
  imported_keys [] = refl
  imported_keys (node ∷ nodes) = ap (λ l. node.id ∷ l) (imported_keys nodes)

  imported_edges :
      (keys : List String) (edges : List (GraphEdge N))
      → All (IsEdgeOf keys) edges
      → All
          (λ e. (includes keys e.source_node_key ≡ true) × (includes keys e.target_node_key ≡ true))
          (map (import_edge ops sha256) edges)
  imported_edges keys [] h = tt
  imported_edges keys (edge ∷ edges) (p, h) =
      ((p.source_in, p.target_in), imported_edges keys edges h)

  imported_nodes :
      (cs : List GraphCommunity) (nodes : List GraphNode)
      → All (λ node. is_defined (m node.id) cs ≡ true) nodes
      → All
          (λ node. is_defined node.community_id cs ≡ true)
          (map (import_node ops sha256 space_id m) nodes)
  imported_nodes cs [] h = tt
  imported_nodes cs (node ∷ nodes) (p, h) = (p, imported_nodes cs nodes h)

prepare_import-IsClosed :
    {N : Type 0} (ops : Numbers N) (sha256 : String → String) (space_id : String)
    (nodes : List GraphNode) (edges : List (GraphEdge N)) (existing : List String)
    (previous : Option ℕ)
    → All (IsEdgeOf (ids nodes)) edges
    → IsClosed
        (length nodes)
        previous
        (prepare_import ops sha256 space_id nodes edges existing previous)
unfolding prepare_import HasDefined
prepare_import-IsClosed ops sha256 space_id nodes edges existing previous joined =
    let found = detect_communities nodes edges in
    elim (Bool-cases (shrinks (length nodes) previous)) [
      | inl small ↦
          rw (small, if◌then◌else◌)
            (record {
              joined = tt;
              defined = tt;
              matched = omega arith;
              guarded = (λ _. shrinks-fifth (length nodes) previous small, λ _. refl);
              dropped = λ _. refl;
              whole = λ h. absurd (cc h);
            })
      | inr large ↦
          rw (large, if◌then◌else◌)
            (record {
              joined =
                  subst
                    (λ keys.
                      All
                        (λ e.
                          (includes keys e.source_node_key ≡ true)
                          × (includes keys e.target_node_key ≡ true))
                        (map (import_edge ops sha256) edges))
                    (sym (imported_keys ops sha256 space_id found.assignments nodes))
                    (imported_edges ops sha256 space_id found.assignments (ids nodes) edges joined);
              defined =
                  imported_nodes ops sha256 space_id found.assignments found.communities nodes
                    (detect_communities-HasDefined nodes edges);
              matched =
                  matched_bounded existing
                    (map (import_node ops sha256 space_id found.assignments) nodes);
              guarded = (
                λ h. absurd (cc h),
                λ h. absurd (cc (sym large ∙ fifth-shrinks (length nodes) previous h)),
              );
              dropped = λ h. absurd (cc h);
              whole =
                  λ _. length-imported (import_node ops sha256 space_id found.assignments) nodes;
            })
    ]

-- Whatever graph is parsed, validated and then imported: every edge of the operation joins two of its nodes, every community that a node names is one of its communities, no more nodes count as matched than there are, and the operation is flagged as shrunk exactly if the number of nodes of a run before is known and the valid nodes are fewer than a fifth of it, whatever the number of edges; a flagged operation has no nodes, and another has one for every valid node.
pub import_run-IsClosed :
    {N : Type 0} (ops : Numbers N) (sha256 : String → String) (tenant_id space_id run_id : String)
    (node_limit edge_limit : ℕ) (parsed : GraphOutput N) (existing : List String)
    (previous : Option ℕ)
    → let valid = validate_graph_output ops node_limit edge_limit parsed in
      IsClosed
        (length valid.valid_nodes)
        previous
        (import_run ops sha256 tenant_id space_id run_id valid.valid_nodes valid.valid_edges
          existing previous).operation
unfolding import_run
import_run-IsClosed ops sha256 tenant_id space_id run_id node_limit edge_limit parsed existing
      previous =
    let valid = validate_graph_output ops node_limit edge_limit parsed in
    prepare_import-IsClosed ops sha256 space_id valid.valid_nodes valid.valid_edges existing
      previous (validate_graph_output-IsSound ops node_limit edge_limit parsed).closed
