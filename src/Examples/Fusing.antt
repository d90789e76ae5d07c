-- ===== src/Examples/Fusing.antt =====
-- Fusion with scores that are numbers: a rank contributes 60 divided by it, a penalty halves.
use cherry_wiki.Base.{
  ℕ, ◌+◌, ◌/◌, String, Bool, true, false, some, List, [], ◌∷◌, map, ltb, ◌≡◌, refl,
}
use cherry_wiki.Base.Sorting.{insert_by, sort_by}
use cherry_wiki.Rag.Amount.{finite}
use cherry_wiki.Rag.Fusion.{
  SearchHit, FusedHit, Scores, rrf_fuse, fused_by_chunk_id, add_ranked_results,
  normalize_positive_integer,
}
use cherry_wiki.Rag.Fusion.Lookup.{lookup, first_hit, entry, fused-lookup}

abbrev ops : Scores ℕ
ops = record {
  add = λ a b. a + b;
  contribution = λ rank. 60 / rank;
  penalize = λ a. a / 2;
  is_less = ltb;
}

abbrev hit : String → Bool → SearchHit Unit
hit id risk = record { chunk_id = id; injection_risk = risk; details = tt }

-- The word search repeats a chunk and finds `a` to be a risk.
abbrev vector_results : List (SearchHit Unit)
vector_results = hit "a" false ∷ hit "b" false ∷ []

abbrev bm25_results : List (SearchHit Unit)
bm25_results = hit "b" false ∷ hit "b" true ∷ hit "a" true ∷ hit "c" false ∷ []

abbrev scores : List (FusedHit Unit ℕ) → List (String × ℕ)
scores = map (λ f. (f.hit.chunk_id, f.score))

fused_test :
    scores (rrf_fuse ops (some (finite 2 true)) vector_results bm25_results)
    ≡ ("b", 90) ∷ ("a", 40) ∷ []
unfolding rrf_fuse fused_by_chunk_id add_ranked_results normalize_positive_integer insert_by sort_by
fused_test = refl

fused-lookup_example :
    lookup ops "a" (fused_by_chunk_id ops vector_results bm25_results)
    ≡ entry ops (first_hit ops 1 "a" vector_results) (first_hit ops 1 "a" bm25_results)
fused-lookup_example = fused-lookup ops vector_results bm25_results "a"
