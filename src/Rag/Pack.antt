-- ===== src/Rag/Pack.antt =====
-- packages/rag-core/src/context-packer.ts: the choice of what goes into a prompt, under the token
-- budgets. Scores are compared only, so their type and order are arguments, and so is the token
-- counter. The joined texts and the annotation of conflicts between graph and pages are left out.
pub mod Budget
pub mod Greedy
use cherry_wiki.Base.{
  ℕ, suc, ◌+◌, ◌-◌, ◌<◌, min, String, Bool, true, false, not, Option, none, some, List, [], ◌∷◌,
  ◌++◌, ltb, length, if◌then◌else◌, ◌=ₛ◌,
}
use cherry_wiki.Rag.Amount.{Amount, floor_or_zero, ceil_or_zero}

-- GraphCandidateType.
pub data CandidateType : Type 0 where
  graph_node graph_edge graph_path community : CandidateType

pub record Candidate : Type 0 where
  pub type : CandidateType
  pub id : String
  pub content : String

pub record Hit : Type 0 where
  pub chunk_id : String
  pub content : String

-- FusedRetrievalResult, without its score.
pub data Source : Type 0 where
  wiki_chunk : Hit → Source
  graph : Candidate → Source

pub record RetrievalConfig : Type 0 where
  pub context_token_budget : Amount
  pub wiki_context_budget : Amount
  pub graph_context_budget : Amount
  pub community_summary_budget : Amount

abbrev pub separator_tokens : ℕ
separator_tokens = 2

abbrev pub is_wiki : Source → Bool
is_wiki (wiki_chunk hit) = true
is_wiki (graph candidate) = false

abbrev is_community_type : CandidateType → Bool
is_community_type community = true
is_community_type _ = false

abbrev pub is_community : Source → Bool
is_community (wiki_chunk hit) = false
is_community (graph candidate) = is_community_type candidate.type

abbrev pub is_graph : Source → Bool
is_graph (wiki_chunk hit) = false
is_graph (graph candidate) = not (is_community_type candidate.type)

abbrev pub content_of : Source → String
content_of (wiki_chunk hit) = hit.content
content_of (graph candidate) = candidate.content

-- ContextItem.
pub record ContextItem {ℓ} (S : Type ℓ) : Type ℓ where
  pub source : Source
  pub text : String
  pub score : S
  pub tokens : ℕ

pub record PackedItems {ℓ} (S : Type ℓ) : Type ℓ where
  pub included : List (ContextItem S)
  pub tokens : ℕ
  pub truncated : ℕ

abbrev pub cost {ℓ} : {S : Type ℓ} → List (ContextItem S) → ContextItem S → ℕ
cost [] item = item.tokens
cost (first ∷ rest) item = item.tokens + separator_tokens

-- The loop of packItems, from what is included and used so far.
unfoldable pub pack_from {ℓ} :
    {S : Type ℓ} → ℕ → List (ContextItem S) → ℕ → List (ContextItem S) → List (ContextItem S) × ℕ
pack_from budget included used [] = (included, used)
pack_from budget included used (item ∷ items) =
    let fits = pack_from budget (included ++ item ∷ []) (used + cost included item) items in
    let skipped = pack_from budget included used items in
    if ltb budget (used + cost included item) then skipped else fits

unfoldable pub pack_items {ℓ} : {S : Type ℓ} → List (ContextItem S) → Amount → ℕ → PackedItems S
unfolding floor_or_zero
pack_items items category_budget remaining =
    let packed = pack_from (min (floor_or_zero category_budget) remaining) [] 0 items in
    record { included = packed.0; tokens = packed.1; truncated = length items - length packed.0 }

-- `higher a b`: the score a is greater than b, the test of the comparison `right - left`.
module _ {ℓ} {S : Type ℓ} (higher : S → S → Bool) (token_counter : String → Amount) where
  -- Array.prototype.sort is stable: an item moves before those that it beats.
  unfoldable pub insert_item : ContextItem S → List (ContextItem S) → List (ContextItem S)
  insert_item item [] = item ∷ []
  insert_item item (other ∷ rest) =
      if higher other.score item.score then other ∷ insert_item item rest else item ∷ other ∷ rest

  unfoldable pub sort_items : List (ContextItem S) → List (ContextItem S)
  unfolding insert_item
  sort_items [] = []
  sort_items (item ∷ items) = insert_item item (sort_items items)

  -- makeContextItem, on the results of one kind.
  unfoldable pub make_items : (Source → Bool) → List (Source × S) → List (ContextItem S)
  unfolding ceil_or_zero
  make_items kind [] = []
  make_items kind ((source, score) ∷ results) =
      let rest = make_items kind results in
      if kind source
      then record {
        source = source;
        text = content_of source;
        score = score;
        tokens = ceil_or_zero (token_counter (content_of source));
      }
        ∷ rest
      else rest

  -- makeWikiItems, makeGraphItems and makeCommunityItems.
  unfoldable pub items_of : (Source → Bool) → List (Source × S) → List (ContextItem S)
  unfolding make_items sort_items
  items_of kind results = sort_items (make_items kind results)

  pub record Packs : Type ℓ where
    pub wiki : PackedItems S
    pub graph : PackedItems S
    pub community : PackedItems S

  -- The three calls of packItems in packContext. A budget that is left never falls below 0.
  unfoldable pub pack_context : List (Source × S) → RetrievalConfig → Packs
  unfolding pack_items items_of
  pack_context results config =
      let total = floor_or_zero config.context_token_budget in
      let wiki = pack_items (items_of is_wiki results) config.wiki_context_budget total in
      let graph =
        pack_items (items_of is_graph results) config.graph_context_budget (total - wiki.tokens) in
      record {
        wiki = wiki;
        graph = graph;
        community =
            pack_items (items_of is_community results) config.community_summary_budget
              (total - wiki.tokens - graph.tokens);
      }

  unfoldable pub total_tokens : Packs → ℕ
  total_tokens p = p.wiki.tokens + p.graph.tokens + p.community.tokens

  unfoldable pub truncated_items : Packs → ℕ
  truncated_items p = p.wiki.truncated + p.graph.truncated + p.community.truncated
