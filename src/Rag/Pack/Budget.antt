-- ===== src/Rag/Pack/Budget.antt =====
-- The token budgets of packContext.
use cherry_wiki.Base.{
  ℕ, ◌+◌, ◌-◌, ◌≤◌, min, String, Bool, List, [], ◌∷◌, ◌++◌, length, length-append, ltb,
  if◌then◌else◌, Bool-cases, inl, inr, arith, ◌≡◌, refl,
}
use cherry_wiki.Rag.Pack.{
  ContextItem, Source, RetrievalConfig, cost, separator_tokens, pack_from, pack_items, pack_context,
  total_tokens, items_of, is_wiki, is_graph, is_community,
}
use cherry_wiki.Rag.Amount.{Amount, floor_or_zero}

module _ {ℓ} {S : Type ℓ} where
  -- The tokens of a text that joins the items: theirs, and one separator between two of them.
  pub joined_tokens : List (ContextItem S) → ℕ
  joined_tokens [] = 0
  joined_tokens (item ∷ []) = item.tokens
  joined_tokens (item ∷ next ∷ rest) = item.tokens + separator_tokens + joined_tokens (next ∷ rest)

  joined_tokens-append :
      (xs : List (ContextItem S)) (item : ContextItem S)
      → joined_tokens (xs ++ item ∷ []) ≡ joined_tokens xs + cost xs item
  unfolding joined_tokens
  joined_tokens-append [] item = omega arith
  joined_tokens-append (x ∷ []) item = omega arith
  joined_tokens-append (x ∷ y ∷ rest) item = omega (arith, joined_tokens-append (y ∷ rest) item)

  pack_from-fits :
      (budget : ℕ) (included : List (ContextItem S)) (used : ℕ) (items : List (ContextItem S))
      → used ≡ joined_tokens included
      → used ≤ budget
      → ((pack_from budget included used items).1 ≤ budget)
        × ((pack_from budget included used items).1
            ≡ joined_tokens ((pack_from budget included used items).0))
        × (length ((pack_from budget included used items).0) ≤ length included + length items)
  unfolding pack_from
  pack_from-fits budget included used [] same fits = (fits, same, omega arith)
  pack_from-fits budget included used (item ∷ items) same fits =
      elim (Bool-cases (ltb budget (used + cost included item))) [
        | inl over ↦
            let (a, b, c) = pack_from-fits budget included used items same fits in
            rw (over, if◌then◌else◌) (a, b, omega arith)
        | inr within ↦
            let (a, b, c) =
              pack_from-fits budget (included ++ item ∷ []) (used + cost included item) items
                (omega (arith, joined_tokens-append included item)) (ground arith) in
            rw (within, if◌then◌else◌) (a, b, omega (arith, length-append included (item ∷ [])))
      ]

  -- A pack stays within the budget of its kind and within what is left of the whole budget, its count is exactly the tokens of its items with a separator between two of them, and each item is either included or counted as truncated.
  pub pack_items_budget :
      (items : List (ContextItem S)) (category : Amount) (remaining : ℕ)
      → ((pack_items items category remaining).tokens ≤ floor_or_zero category)
        × ((pack_items items category remaining).tokens ≤ remaining)
        × ((pack_items items category remaining).tokens
            ≡ joined_tokens ((pack_items items category remaining).included))
        × (length ((pack_items items category remaining).included)
              + (pack_items items category remaining).truncated
            ≡ length items)
  unfolding pack_items joined_tokens
  pack_items_budget items category remaining =
      let (fits, exact, short) =
        pack_from-fits (min (floor_or_zero category) remaining) [] 0 items refl (omega arith) in
      (omega arith, omega arith, exact, omega arith)

module _ {ℓ} {S : Type ℓ} (higher : S → S → Bool) (token_counter : String → Amount) where
  -- Whatever the scores and the token counter, the tokens of the items that are included in the three packs of a context, each pack's with a separator between two of its items, are together at most the whole token budget, those of each pack are at most the budget of its kind, and the reported total is their sum. The conflict annotations that are added to the texts of graph items afterwards are not counted.
  pub pack_context_budget :
      (results : List (Source × S)) (config : RetrievalConfig)
      → let packs = pack_context higher token_counter results config in
        let wiki = joined_tokens packs.wiki.included in
        let graph = joined_tokens packs.graph.included in
        let community = joined_tokens packs.community.included in
        (wiki + graph + community ≤ floor_or_zero config.context_token_budget)
        × (wiki ≤ floor_or_zero config.wiki_context_budget)
        × (graph ≤ floor_or_zero config.graph_context_budget)
        × (community ≤ floor_or_zero config.community_summary_budget)
        × (total_tokens higher token_counter packs ≡ wiki + graph + community)
  unfolding pack_context total_tokens
  pack_context_budget results config =
      let total = floor_or_zero config.context_token_budget in
      let items = items_of higher token_counter in
      let wiki = pack_items (items is_wiki results) config.wiki_context_budget total in
      let left = total - wiki.tokens in
      let graph = pack_items (items is_graph results) config.graph_context_budget left in
      let (w, w', we, _) =
        pack_items_budget (items is_wiki results) config.wiki_context_budget total in
      let (g, g', ge, _) =
        pack_items_budget (items is_graph results) config.graph_context_budget left in
      let (c, c', ce, _) =
        pack_items_budget (items is_community results) config.community_summary_budget
          (left - graph.tokens) in
      (omega arith, omega arith, omega arith, omega arith, omega arith)
