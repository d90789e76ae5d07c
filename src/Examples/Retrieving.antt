-- ===== src/Examples/Retrieving.antt =====
-- Retrieval at concrete inputs.
use cherry_wiki.Base.{
  map, Option, ℕ, ◌+◌, ◌≤◌, ◌<◌, min, String, Bool, true, false, none, some, List, [], ◌∷◌, ltb,
  ◌⊎◌, ◌≡◌, refl,
}
use mathlib.Core.List.{Memᴰ}
use cherry_wiki.Base.Text.{is_space}
use cherry_wiki.Rag.Amount.{Amount, finite, floor_or_zero}
use cherry_wiki.Rag.Pack.{
  graph_node, community, Source, wiki_chunk, graph, RetrievalConfig, ContextItem, pack_from,
  pack_items, pack_context, total_tokens, truncated_items, cost,
}
use cherry_wiki.Rag.Pack.Budget.{joined_tokens, pack_context_budget}
use cherry_wiki.Rag.Pack.Greedy.{pack_items_greedy}
use cherry_wiki.Rag.Chunk.{
  Text, ChunkOptions, Window, normalize_chunk_options, split_content, slice,
}
use mathlib.Core.Option as Option
use cherry_wiki.Rag.Chunk.{Document, Section}
use cherry_wiki.Rag.Chunk.Page.{ChunkResult, chunk_page}
use cherry_wiki.Rag.Chunk.Page.Numbered.{Numbered, AllFit, chunk_page-Numbered}
use cherry_wiki.Rag.Chunk.Cover.{max_chars_of, split_content_covers}

abbrev hit : String → Source
hit content = wiki_chunk (record { chunk_id = content; content = content })

abbrev node : String → Source
node content = graph (record { type = graph_node; id = content; content = content })

abbrev summary : String → Source
summary content = graph (record { type = community; id = content; content = content })

-- A token counter: four tokens for every text.
abbrev four : String → Amount
four text = finite 3 true

abbrev results : List (Source × ℕ)
results = (hit "a", 1) ∷ (hit "b", 5) ∷ (node "n", 3) ∷ (summary "c", 2) ∷ []

abbrev config : RetrievalConfig
config = record {
  context_token_budget = finite 15 false;
  wiki_context_budget = finite 9 false;
  graph_context_budget = finite 5 false;
  community_summary_budget = finite 5 false;
}

abbrev above : ℕ → ℕ → Bool
above a b = ltb b a

abbrev item : String → ContextItem ℕ
item content = record { source = hit content; text = content; score = 1; tokens = 4 }

abbrev items : List (ContextItem ℕ)
items = item "a" ∷ item "b" ∷ item "c" ∷ []

-- The second chunk does not fit beside the first, so the graph and the summary get the rest.
packed_test :
    (total_tokens above four (pack_context above four results config) ≡ 12)
    × (truncated_items above four (pack_context above four results config) ≡ 1)
unfolding pack_context pack_from total_tokens truncated_items
packed_test = (refl, refl)

pack_context_budget_example :
    let packs = pack_context above four results config in
    let wiki = joined_tokens packs.wiki.included in
    let graph = joined_tokens packs.graph.included in
    let community = joined_tokens packs.community.included in
    (wiki + graph + community ≤ floor_or_zero config.context_token_budget)
    × (wiki ≤ floor_or_zero config.wiki_context_budget)
    × (graph ≤ floor_or_zero config.graph_context_budget)
    × (community ≤ floor_or_zero config.community_summary_budget)
    × (total_tokens above four packs ≡ wiki + graph + community)
pack_context_budget_example = pack_context_budget above four results config

pack_items_greedy_example :
    Memᴰ (item "c") ((pack_items items (finite 10 false) 12).included)
    ⊎ (min (floor_or_zero (finite 10 false)) 12
        < (pack_items items (finite 10 false) 12).tokens
          + cost ((pack_items items (finite 10 false) 12).included) (item "c"))
pack_items_greedy_example =
    pack_items_greedy items (finite 10 false) 12 (item "c") (Memᴰ.tail (Memᴰ.tail (Memᴰ.head refl)))

-- "hello world", split with windows of four units that overlap by none.
abbrev greeting : Text
greeting = 104 ∷ 101 ∷ 108 ∷ 108 ∷ 111 ∷ 32 ∷ 119 ∷ 111 ∷ 114 ∷ 108 ∷ 100 ∷ []

abbrev narrow : ChunkOptions
narrow = record { max_chunk_tokens = some (finite 1 false); overlap_tokens = none }

narrow_test :
    split_content greeting (normalize_chunk_options narrow)
    ≡ some
        ((104 ∷ 101 ∷ 108 ∷ 108 ∷ []) ∷ (111 ∷ 32 ∷ 119 ∷ 111 ∷ []) ∷ (114 ∷ 108 ∷ 100 ∷ []) ∷ [])
unfolding split_content normalize_chunk_options
narrow_test = refl

d_visible : is_space 100 ≡ false
unfolding is_space
d_visible = refl

split_content_covers_example :
    (chunks : List Text) × (w : Window) × (split_content greeting (normalize_chunk_options narrow)
      ≡ some chunks)
    × Memᴰ (slice w.first w.last greeting) chunks
    × (w.first ≤ 10)
    × (10 < w.last)
    × (w.last ≤ w.first + max_chars_of (normalize_chunk_options narrow))
split_content_covers_example = split_content_covers greeting narrow 10 100 refl d_visible

abbrev document : Document
document = record { content = none; content_markdown = some greeting }

abbrev section : ℕ → ℕ → ℕ → Section
section index first last = record {
  id = none;
  section_id = some "s";
  section_index = index;
  content = none;
  content_markdown = none;
  start_offset = some first;
  end_offset = some last;
}

-- The sections are taken by their index: "hello", then "world".
abbrev sections : List Section
sections = section 2 6 11 ∷ section 1 0 5 ∷ []

abbrev texts : Option (List ChunkResult) → List (ℕ × Text)
texts none = []
texts (some chunks) = map (λ (c : ChunkResult). (c.chunk_index, c.content)) chunks

sections_test :
    texts (chunk_page document document sections narrow)
    ≡ (0, 104 ∷ 101 ∷ 108 ∷ 108 ∷ [])
      ∷ (1, 111 ∷ [])
      ∷ (2, 119 ∷ 111 ∷ 114 ∷ 108 ∷ [])
      ∷ (3, 100 ∷ [])
      ∷ []
unfolding chunk_page normalize_chunk_options Option.bind
sections_test = refl

chunk_page-Numbered_example :
    (chunks : List ChunkResult) × (chunk_page document document sections narrow ≡ some chunks)
    × Numbered 0 chunks
    × AllFit (max_chars_of (normalize_chunk_options narrow)) chunks
chunk_page-Numbered_example = chunk_page-Numbered document document sections narrow
