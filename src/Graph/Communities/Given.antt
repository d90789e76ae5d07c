-- ===== src/Graph/Communities/Given.antt =====
-- The communities that a node has: of the result of detection, each one is defined in it.
use cherry_wiki.Base.{
  ℕ, String, Bool, true, false, ◌||◌, Option, none, some, List, [], ◌∷◌, map, length, some_of, All,
  All-and, ◌==◌, ◌=ₛ◌, eq_refl, if◌then◌else◌, ◌≡◌, refl, arith, Bool-cases, inl, inr,
}
use cherry_wiki.Graph.Data.{GraphNode, GraphEdge}
use cherry_wiki.Graph.Communities.{
  CommunityKey, given, GraphCommunity, DetectResult, is_some, count_label, count_if, assign_given,
  given_from, detect_from_node_field, detect_by_propagation, detect_communities,
}
use cherry_wiki.Graph.Communities.Assigned.{key_is, or_true}
use cherry_wiki.Graph.Communities.Partition.{detect_by_propagation-IsPartition}

-- A key is one of the communities, if there is one.
abbrev pub is_defined : Option CommunityKey → List GraphCommunity → Bool
is_defined none cs = true
is_defined (some k) cs = some_of (λ c. key_is c.community_key (some k)) cs

abbrev community_of : String × ℕ → GraphCommunity
community_of (c, n) = record { community_key = given c; label = c; node_count = n }

or_map : (a b c : Bool) → (b ≡ true → c ≡ true) → (a || b) ≡ true → (a || c) ≡ true
or_map false b c f e = f e
or_map true b c f e = refl

counted_label :
    (c : String) (counts : List (String × ℕ))
    → is_defined (some (given c)) (map community_of (count_label c counts)) ≡ true
counted_label c [] = ground (arith, eq_refl c)
counted_label c ((d, n) ∷ counts) = elim (Bool-cases (d =ₛ c)) [
  | inl same ↦ rw (same, if◌then◌else◌) (rw (same) refl)
  | inr other ↦
      rw (other, if◌then◌else◌)
        (or_true (d =ₛ c)
          (some_of (λ x. key_is x.community_key (some (given c)))
            (map community_of (count_label c counts)))
          (counted_label c counts))
]

still_defined :
    (o : Option CommunityKey) (c : String) (counts : List (String × ℕ))
    → is_defined o (map community_of counts) ≡ true
    → is_defined o (map community_of (count_label c counts)) ≡ true
still_defined none c counts e = refl
still_defined (some k) c [] e = absurd (cc)
still_defined (some k) c ((d, n) ∷ counts) e = elim (Bool-cases (d =ₛ c)) [
  | inl same ↦ rw (same, if◌then◌else◌) e
  | inr other ↦
      rw (other, if◌then◌else◌)
        (or_map (key_is (given d) (some k))
          (some_of (λ x. key_is x.community_key (some k)) (map community_of counts))
          (some_of (λ x. key_is x.community_key (some k)) (map community_of (count_label c counts)))
          (λ later. still_defined (some k) c counts later) e)
]

AllDefined : (String → Option CommunityKey) → List (String × ℕ) → Type 0
AllDefined m counts = (x : String) → is_defined (m x) (map community_of counts) ≡ true

assigned :
    (o : Option String) (id : String) (m : String → Option CommunityKey)
    (counts : List (String × ℕ))
    → AllDefined m counts
    → AllDefined (assign_given o id m) (count_if o counts)
unfolding AllDefined
assigned none id m counts h x = h x
assigned (some c) id m counts h x = elim (Bool-cases (id =ₛ x)) [
  | inl same ↦ rw (same, if◌then◌else◌) (counted_label c counts)
  | inr other ↦ rw (other, if◌then◌else◌) (still_defined (m x) c counts (h x))
]

given_from-AllDefined :
    (nodes : List GraphNode) (m : String → Option CommunityKey) (counts : List (String × ℕ))
    → AllDefined m counts
    → (x : String)
    → is_defined ((given_from nodes m counts).assignments x) (given_from nodes m counts).communities
      ≡ true
unfolding AllDefined
given_from-AllDefined [] m counts h x = h x
given_from-AllDefined (node ∷ nodes) m counts h x =
    given_from-AllDefined nodes (assign_given node.community node.id m)
      (count_if node.community counts) (assigned node.community node.id m counts h) x

defined_when_found :
    (o : Option CommunityKey) (cs : List GraphCommunity)
    → some_of (λ c. key_is c.community_key o) cs ≡ true
    → is_defined o cs ≡ true
defined_when_found none cs e = refl
defined_when_found (some k) cs e = e

-- Every community that a node has is one of those that are defined.
unfoldable pub HasDefined : List GraphNode → DetectResult → Type 0
HasDefined nodes r = All (λ node. is_defined (r.assignments node.id) r.communities ≡ true) nodes

everywhere :
    (P : GraphNode → Type 0) (nodes : List GraphNode) → ((node : GraphNode) → P node) → All P nodes
everywhere P [] f = tt
everywhere P (node ∷ nodes) f = (f node, everywhere P nodes f)

detect_from_node_field-HasDefined :
    (nodes : List GraphNode) → HasDefined nodes (detect_from_node_field nodes)
unfolding HasDefined AllDefined detect_from_node_field
detect_from_node_field-HasDefined nodes =
    everywhere
      (λ node.
        is_defined ((detect_from_node_field nodes).assignments node.id)
          (detect_from_node_field nodes).communities
        ≡ true)
      nodes (λ node. given_from-AllDefined nodes (λ id. none) [] (λ x. refl) node.id)

detect_by_propagation-HasDefined :
    {N : Type 0} (nodes : List GraphNode) (edges : List (GraphEdge N))
    → HasDefined nodes (detect_by_propagation nodes edges)
unfolding HasDefined
detect_by_propagation-HasDefined nodes edges =
    let r = detect_by_propagation nodes edges in
    let covered = (detect_by_propagation-IsPartition nodes edges).covered_nodes in
    All-and
      (λ node. some_of (λ c. key_is c.community_key (r.assignments node.id)) r.communities ≡ true)
      (λ node. some_of (λ c. key_is c.community_key (r.assignments node.id)) r.communities ≡ true)
      (λ node. is_defined (r.assignments node.id) r.communities ≡ true) nodes
      (λ node e e'. defined_when_found (r.assignments node.id) r.communities e) covered covered

pub detect_communities-HasDefined :
    {N : Type 0} (nodes : List GraphNode) (edges : List (GraphEdge N))
    → HasDefined nodes (detect_communities nodes edges)
unfolding HasDefined detect_communities
detect_communities-HasDefined nodes edges = elim (Bool-cases (length nodes == 0)) [
  | inl nil ↦ rw (nil, if◌then◌else◌) (everywhere (λ node. true ≡ true) nodes (λ node. refl))
  | inr more ↦ elim (Bool-cases (some_of (λ node. is_some node.community) nodes)) [
    | inl field ↦
        rw (more, if◌then◌else◌)
          (rw (field, if◌then◌else◌) (detect_from_node_field-HasDefined nodes))
    | inr plain ↦
        rw (more, if◌then◌else◌)
          (rw (plain, if◌then◌else◌) (detect_by_propagation-HasDefined nodes edges))
  ]
]
