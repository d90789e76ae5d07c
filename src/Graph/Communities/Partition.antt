-- ===== src/Graph/Communities/Partition.antt =====
-- The communities that propagation finds divide the nodes.
use cherry_wiki.Base.{
  ℕ, suc, ◌≤◌, String, Bool, true, Option, none, List, [], ◌∷◌, length, keep, some_of, All, All-and,
  eq_refl, ◌≡◌, refl, sym, ap, ◌∙◌, arith,
}
use cherry_wiki.Base.Text.{includes}
use cherry_wiki.Base.Sets.{text_le}
use cherry_wiki.Base.Sorting.{sort_by, keep-sort_by, All-sort_by}
use cherry_wiki.Graph.Data.{GraphNode, GraphEdge}
use cherry_wiki.Graph.Communities.{
  CommunityKey, numbered, GraphCommunity, DetectResult, Group, Adjacency, assign_from,
  communities_from, node_ids, ordered_groups, or_else, build_adjacency, propagate_labels, label_of,
  detect_by_propagation,
}
use cherry_wiki.Graph.Communities.Groups.{groups_of, ordered_groups-AreGroups}
use cherry_wiki.Graph.Communities.Assigned.{
  key_is, index_of, over_none, assign_from_lem, name_key, NodesOf, counted, found,
}

-- The keys are community-n, community-(n+1) and so on.
abbrev pub IsNumbered : ℕ → List GraphCommunity → Type 0
IsNumbered n [] = Unit
IsNumbered n (c ∷ cs) = (c.community_key ≡ numbered n) × IsNumbered (suc n) cs

communities_from-IsNumbered :
    (name : String → String) (adjacency : Adjacency) (n : ℕ) (groups : List Group)
    → IsNumbered n (communities_from name adjacency n groups)
communities_from-IsNumbered name adjacency n [] = tt
communities_from-IsNumbered name adjacency n (g ∷ groups) =
    (refl, communities_from-IsNumbered name adjacency (suc n) groups)

-- Every node has one of the communities, and each community counts its nodes.
pub record IsPartition (nodes : List GraphNode) (r : DetectResult) : Type 0 where
  pub in_order : IsNumbered 1 r.communities
  pub counted_nodes :
      All
        (λ c.
          c.node_count
          ≡ length (keep (λ node. key_is c.community_key (r.assignments node.id)) nodes))
        r.communities
  pub covered_nodes :
      All
        (λ node. some_of (λ c. key_is c.community_key (r.assignments node.id)) r.communities ≡ true)
        nodes

still_included :
    (y : String) (ids xs : List String)
    → All (λ x. includes ids x ≡ true) xs
    → All (λ x. includes (y ∷ ids) x ≡ true) xs
still_included y ids [] h = tt
still_included y ids (x ∷ xs) (e, h) = (ground (arith, e), still_included y ids xs h)

all_included : (ids : List String) → All (λ x. includes ids x ≡ true) ids
all_included [] = tt
all_included (id ∷ ids) = (ground (arith, eq_refl id), still_included id ids ids (all_included ids))

keep-node_ids :
    (q : String → Bool) (nodes : List GraphNode)
    → length (keep (λ node. q node.id) nodes) ≡ length (keep q (node_ids nodes))
keep-node_ids q [] = refl
keep-node_ids q (node ∷ nodes) = ground (arith, keep-node_ids q nodes)

All-node_ids :
    (P : String → Type 0) (nodes : List GraphNode)
    → All P (node_ids nodes)
    → All (λ node. P node.id) nodes
All-node_ids P [] h = tt
All-node_ids P (node ∷ nodes) (p, h) = (p, All-node_ids P nodes h)

All-list :
    {A : Type 0} (P Q : A → Type 0) (xs : List A) → ((x : A) → P x → Q x) → All P xs → All Q xs
All-list P Q [] f h = tt
All-list P Q (x ∷ xs) f (p, h) = (f x p, All-list P Q xs f h)

keep_same_on :
    (f g : String → Option CommunityKey) (k : CommunityKey) (xs : List String)
    → All (λ x. f x ≡ g x) xs
    → length (keep (λ x. key_is k (f x)) xs) ≡ length (keep (λ x. key_is k (g x)) xs)
keep_same_on f g k [] h = refl
keep_same_on f g k (x ∷ xs) (e, h) =
    let here = ap (key_is k) e in ground (arith, keep_same_on f g k xs h)

divided :
    (value name : String → String) (adjacency : Adjacency) (nodes : List GraphNode)
    → let ids = sort_by text_le (node_ids nodes) in
      let groups = ordered_groups value ids in
      IsPartition nodes (record {
        assignments = assign_from 1 groups (λ id. none);
        communities = communities_from name adjacency 1 groups;
      })
unfolding NodesOf
divided value name adjacency nodes =
    let ids = sort_by text_le (node_ids nodes) in
    let groups = ordered_groups value ids in
    let communities = communities_from name adjacency 1 groups in
    let a = ordered_groups-AreGroups value ids in
    let key_of : String → Option CommunityKey = assign_from 1 groups (λ id. none) in
    let agree : All (λ x. key_of x ≡ index_of 1 groups (value x)) ids =
      All-list (λ x. includes ids x ≡ true) (λ x. key_of x ≡ index_of 1 groups (value x)) ids
        (λ x known.
          assign_from_lem value ids 1 groups (λ id. none) x known a.exact a.single
          ∙ over_none (index_of 1 groups (value x)))
        (all_included ids) in
    record {
      in_order = communities_from-IsNumbered name adjacency 1 groups;
      counted_nodes =
          All-list (NodesOf value ids (name_key value ids 1 groups))
            (λ c.
              c.node_count ≡ length (keep (λ node. key_is c.community_key (key_of node.id)) nodes))
            communities
            (λ c count.
              count
              ∙ sym (
                  keep-node_ids (λ x. key_is c.community_key (key_of x)) nodes
                  ∙ (sym (
                        keep-sort_by text_le (λ x. key_is c.community_key (key_of x))
                          (node_ids nodes))
                      ∙ keep_same_on key_of (λ x. index_of 1 groups (value x)) c.community_key ids
                          agree)))
            (counted value ids name adjacency 1 groups a.exact a.single);
      covered_nodes =
          All-node_ids (λ x. some_of (λ c. key_is c.community_key (key_of x)) communities ≡ true)
            nodes
            (All-sort_by text_le
              (λ x. some_of (λ c. key_is c.community_key (key_of x)) communities ≡ true)
              (node_ids nodes)
              (All-and (λ x. key_of x ≡ index_of 1 groups (value x))
                (λ x. 1 ≤ groups_of (value x) groups)
                (λ x. some_of (λ c. key_is c.community_key (key_of x)) communities ≡ true) ids
                (λ x same one.
                  ap (λ o. some_of (λ c. key_is c.community_key o) communities) same
                  ∙ found value ids name adjacency 1 groups (value x) one)
                agree a.covered));
    }

-- Whatever the nodes and edges are, label propagation puts every node into one of the communities that it defines, which are numbered from 1, and the node count of each community is the number of the nodes that are assigned to it.
pub detect_by_propagation-IsPartition :
    {N : Type 0} (nodes : List GraphNode) (edges : List (GraphEdge N))
    → IsPartition nodes (detect_by_propagation nodes edges)
unfolding detect_by_propagation
detect_by_propagation-IsPartition nodes edges =
    let adjacency = build_adjacency nodes edges in
    let label = propagate_labels (sort_by text_le (node_ids nodes)) adjacency in
    divided (λ id. or_else (label id) id) (λ id. or_else (label_of nodes id) id) adjacency nodes
