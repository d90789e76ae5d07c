-- ===== src/Graph/Communities.antt =====
-- packages/graph-core/src/communities.ts. A Map or Set is a function where it is only read by key,
-- and a list in the order of insertion where it is iterated. Texts are ordered by code points.
pub mod Groups
pub mod Assigned
pub mod Partition
pub mod Given
use Prim.Native.String.{compare}
use text.Mathlib.Text.{is_lt}
use cherry_wiki.Base.{
  ℕ, zero, suc, String, Bool, true, false, not, ◌&&◌, ◌||◌, Option, none, some, List, [], ◌∷◌, ◌++◌,
  map, length, some_of, ltb, ◌==◌, ◌=ₛ◌, if◌then◌else◌, set_key,
}
use cherry_wiki.Base.Text.{includes}
use cherry_wiki.Base.Sorting.{sort_by}
use cherry_wiki.Base.Sets.{text_lt, text_le, insert}
use cherry_wiki.Graph.Data.{GraphNode, GraphEdge}

-- `numbered n` is the text `community-n`; `given` is one that the nodes carry.
pub data CommunityKey : Type 0 where
  numbered : ℕ → CommunityKey
  given : String → CommunityKey

pub record GraphCommunity : Type 0 where
  pub community_key : CommunityKey
  pub label : String
  pub node_count : ℕ

pub record DetectResult : Type 0 where
  pub assignments : String → Option CommunityKey
  pub communities : List GraphCommunity

abbrev pub or_else : {A : Type 0} → Option A → A → A
or_else none a = a
or_else (some x) a = x

abbrev pub is_some : {A : Type 0} → Option A → Bool
is_some none = false
is_some (some x) = true

abbrev pub Adjacency : Type 0
Adjacency = String → Option (List String)

abbrev add_neighbour : Option (List String) → String → Option (List String)
add_neighbour none x = none
add_neighbour (some xs) x = some (insert x xs)

abbrev link : String → String → Adjacency → Adjacency
link source target adjacency = set_key source (add_neighbour (adjacency source) target) adjacency

abbrev no_neighbours : List GraphNode → Adjacency
no_neighbours [] = λ id. none
no_neighbours (node ∷ nodes) = set_key node.id (some []) (no_neighbours nodes)

abbrev add_edges : {N : Type 0} → List (GraphEdge N) → Adjacency → Adjacency
add_edges [] adjacency = adjacency
add_edges (edge ∷ edges) adjacency = add_edges edges (
    if not (is_some (adjacency edge.source))
      || (not (is_some (adjacency edge.target)) || edge.source =ₛ edge.target)
    then adjacency
    else link edge.target edge.source (link edge.source edge.target adjacency))

unfoldable pub build_adjacency : {N : Type 0} → List GraphNode → List (GraphEdge N) → Adjacency
build_adjacency nodes edges = add_edges edges (no_neighbours nodes)

abbrev pub Labels : Type 0
Labels = String → Option String

abbrev count_label : String → List (String × ℕ) → List (String × ℕ)
count_label value [] = (value, 1) ∷ []
count_label value ((other, n) ∷ tally) =
    if other =ₛ value then (other, suc n) ∷ tally else (other, n) ∷ count_label value tally

abbrev count_if : Option String → List (String × ℕ) → List (String × ℕ)
count_if none tally = tally
count_if (some value) tally = count_label value tally

abbrev tally_labels : List String → Labels → List (String × ℕ) → List (String × ℕ)
tally_labels [] label tally = tally
tally_labels (neighbour ∷ rest) label tally =
    tally_labels rest label (count_if (label neighbour) tally)

-- The choice so far; none while `bestCount` is -1.
abbrev better : Option (String × ℕ) → String → ℕ → Bool
better none value count = true
better (some (chosen, best)) value count = ltb best count || (count == best && text_lt value chosen)

abbrev choose : List (String × ℕ) → Option (String × ℕ) → String
choose [] none = ""
choose [] (some (chosen, best)) = chosen
choose ((value, count) ∷ tally) best =
    choose tally (if better best value count then some (value, count) else best)

unfoldable pub best_label : List String → Labels → String
best_label neighbours label = choose (tally_labels neighbours label []) none

abbrev is_label : Option String → String → Bool
is_label none value = false
is_label (some old) value = old =ₛ value

abbrev relabel : String → Option (List String) → Labels → Bool × Labels
relabel id none label = (false, label)
relabel id (some []) label = (false, label)
relabel id (some (n ∷ ns)) label =
    let next = best_label (n ∷ ns) label in
    if not (next =ₛ "") && not (is_label (label id) next)
    then (true, set_key id (some next) label)
    else (false, label)

-- One pass; whether a label changed.
unfoldable pub pass : List String → Adjacency → Labels → Bool × Labels
unfolding best_label
pass [] adjacency label = (false, label)
pass (id ∷ ids) adjacency label =
    let (here, label') = relabel id (adjacency id) label in
    let (later, label'') = pass ids adjacency label' in (here || later, label'')

unfoldable pub passes : ℕ → List String → Adjacency → Labels → Labels
unfolding pass
passes zero ids adjacency label = label
passes (suc n) ids adjacency label =
    let (changed, label') = pass ids adjacency label in
    let rest = passes n ids adjacency label' in if changed then rest else label'

abbrev own_labels : List String → Labels
own_labels [] = λ id. none
own_labels (id ∷ ids) = set_key id (some id) (own_labels ids)

unfoldable pub propagate_labels : List String → Adjacency → Labels
unfolding passes
propagate_labels ids adjacency = passes 20 ids adjacency (own_labels ids)

-- An entry of the Map of groups.
pub record Group : Type 0 where
  pub value : String
  pub members : List String

abbrev pub add_member : String → String → List Group → List Group
add_member value id [] = record { value = value; members = id ∷ [] } ∷ []
add_member value id (g ∷ groups) =
    if g.value =ₛ value
    then record g { members = g.members ++ id ∷ [] } ∷ groups
    else g ∷ add_member value id groups

abbrev pub group_from : (String → String) → List String → List Group → List Group
group_from value [] groups = groups
group_from value (id ∷ ids) groups = group_from value ids (add_member (value id) id groups)

abbrev head_of : List String → String
head_of [] = ""
head_of (x ∷ xs) = x

-- More members first, then the smaller first member.
abbrev pub comes_first : Group → Group → Bool
comes_first a b =
    ltb (length b.members) (length a.members)
    || (length a.members == length b.members && text_le (head_of a.members) (head_of b.members))

abbrev pub assign_all :
    List String → CommunityKey → (String → Option CommunityKey) → String → Option CommunityKey
assign_all [] key m = m
assign_all (id ∷ ids) key m = assign_all ids key (set_key id (some key) m)

abbrev pub assign_from :
    ℕ → List Group → (String → Option CommunityKey) → String → Option CommunityKey
assign_from n [] m = m
assign_from n (g ∷ groups) m = assign_from (suc n) groups (assign_all g.members (numbered n) m)

abbrev degree : Adjacency → String → ℕ
degree adjacency id = length (or_else (adjacency id) [])

abbrev representative : Adjacency → List String → String → String
representative adjacency [] rep = rep
representative adjacency (id ∷ ids) rep =
    let d = degree adjacency id in
    let best = degree adjacency rep in
    representative adjacency ids (if ltb best d || (d == best && text_lt id rep) then id else rep)

-- `labelByNode`: the last node of an id has its label.
abbrev label_of : List GraphNode → String → Option String
label_of [] id = none
label_of (node ∷ nodes) id = elim (label_of nodes id) [
  | some l ↦ some l
  | none ↦ if node.id =ₛ id then some node.label else none
]

abbrev pub communities_from : (String → String) → Adjacency → ℕ → List Group → List GraphCommunity
communities_from name adjacency n [] = []
communities_from name adjacency n (g ∷ groups) =
    record {
      community_key = numbered n;
      label = name (representative adjacency g.members (head_of g.members));
      node_count = length g.members;
    }
    ∷ communities_from name adjacency (suc n) groups

abbrev pub node_ids : List GraphNode → List String
node_ids = map (λ node. node.id)

abbrev pub ordered_groups : (String → String) → List String → List Group
ordered_groups value ids = sort_by comes_first (group_from value ids [])

unfoldable pub detect_by_propagation :
    {N : Type 0} → List GraphNode → List (GraphEdge N) → DetectResult
unfolding build_adjacency propagate_labels
detect_by_propagation nodes edges =
    let adjacency = build_adjacency nodes edges in
    let ids = sort_by text_le (node_ids nodes) in
    let label = propagate_labels ids adjacency in
    let groups = ordered_groups (λ id. or_else (label id) id) ids in
    record {
      assignments = assign_from 1 groups (λ id. none);
      communities = communities_from (λ id. or_else (label_of nodes id) id) adjacency 1 groups;
    }

abbrev assign_given :
    Option String → String → (String → Option CommunityKey) → String → Option CommunityKey
assign_given none id m = m
assign_given (some c) id m = set_key id (some (given c)) m

abbrev given_from :
    List GraphNode → (String → Option CommunityKey) → List (String × ℕ) → DetectResult
given_from [] m counts = record {
  assignments = m;
  communities =
      map (λ (c, n). record { community_key = given c; label = c; node_count = n }) counts;
}
given_from (node ∷ nodes) m counts =
    given_from nodes (assign_given node.community node.id m) (count_if node.community counts)

unfoldable pub detect_from_node_field : List GraphNode → DetectResult
detect_from_node_field nodes = given_from nodes (λ id. none) []

unfoldable pub detect_communities :
    {N : Type 0} → List GraphNode → List (GraphEdge N) → DetectResult
unfolding detect_by_propagation detect_from_node_field
detect_communities nodes edges =
    if length nodes == 0
    then record { assignments = λ id. none; communities = [] }
    else if some_of (λ node. is_some node.community) nodes
    then detect_from_node_field nodes
    else detect_by_propagation nodes edges
