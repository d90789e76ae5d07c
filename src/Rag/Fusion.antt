-- ===== src/Rag/Fusion.antt =====
-- packages/rag-core/src/rrf-fusion.ts: the fusion of two ranked lists of chunks by reciprocal ranks.
-- Scores are floating point numbers, of which the code adds, scales and compares some: their type
-- and these operations are arguments. The Map of fused hits is a list in the order of insertion.
pub mod Lookup
pub mod Chosen
use cherry_wiki.Base.{
  ℕ, zero, suc, String, Bool, true, false, ◌||◌, Option, none, some, List, [], ◌∷◌, map, every,
  take, ◌=ₛ◌, if◌then◌else◌,
}
use cherry_wiki.Base.Text.{includes}
use cherry_wiki.Base.Sorting.{sort_by}
use cherry_wiki.Rag.Amount.{Amount, not_finite, negative, finite}

-- A SearchHit or RetrievalResult without its score; `details` are the fields that fusion passes on.
pub record SearchHit (D : Type 0) : Type 0 where
  pub chunk_id : String
  pub injection_risk : Bool
  pub details : D

pub record FusedHit (D Score : Type 0) : Type 0 where
  pub hit : SearchHit D
  pub score : Score

unfoldable pub normalize_positive_integer : Option Amount → ℕ → ℕ
normalize_positive_integer none fallback = fallback
normalize_positive_integer (some not_finite) fallback = fallback
normalize_positive_integer (some negative) fallback = fallback
normalize_positive_integer (some (finite zero false)) fallback = fallback
normalize_positive_integer (some (finite n fraction)) fallback = n

-- `contribution` of a rank is 1 / (k + rank), and `penalize` multiplies by the injection penalty,
-- with the options k and injectionPenalty or their defaults; `is_less` is `<`.
pub record Scores (Score : Type 0) : Type 0 where
  pub add : Score → Score → Score
  pub contribution : ℕ → Score
  pub penalize : Score → Score
  pub is_less : Score → Score → Bool

module _ {D Score : Type 0} (ops : Scores Score) where
  -- What is there already for a chunk gains a score, and the risk of the new hit.
  abbrev pub join : FusedHit D Score → SearchHit D → Score → FusedHit D Score
  join existing hit contribution = record {
    score = ops.add existing.score contribution;
    hit =
        if hit.injection_risk then record existing.hit { injection_risk = true } else existing.hit;
  }

  abbrev pub add_hit : SearchHit D → Score → List (FusedHit D Score) → List (FusedHit D Score)
  add_hit hit contribution [] = record { hit = hit; score = contribution } ∷ []
  add_hit hit contribution (f ∷ fused) =
      if f.hit.chunk_id =ₛ hit.chunk_id
      then join f hit contribution ∷ fused
      else f ∷ add_hit hit contribution fused

  -- The loop of `addRankedResults`, from the hit of a rank on.
  abbrev pub add_from :
      ℕ → List String → List (SearchHit D) → List (FusedHit D Score) → List (FusedHit D Score)
  add_from rank seen [] fused = fused
  add_from rank seen (hit ∷ hits) fused =
      if includes seen hit.chunk_id
      then add_from (suc rank) seen hits fused
      else add_from (suc rank) (hit.chunk_id ∷ seen) hits
          (add_hit hit (ops.contribution rank) fused)

  unfoldable pub add_ranked_results :
      List (SearchHit D) → List (FusedHit D Score) → List (FusedHit D Score)
  add_ranked_results hits fused = add_from 1 [] hits fused

  unfoldable pub fused_by_chunk_id :
      List (SearchHit D) → List (SearchHit D) → List (FusedHit D Score)
  unfolding add_ranked_results
  fused_by_chunk_id vector_results bm25_results =
      add_ranked_results bm25_results (add_ranked_results vector_results [])

  abbrev pub penalized : FusedHit D Score → FusedHit D Score
  penalized f = if f.hit.injection_risk then record f { score = ops.penalize f.score } else f

  -- `right.score - left.score` is not above 0.
  abbrev pub ranks_before : FusedHit D Score → FusedHit D Score → Bool
  ranks_before left right = if ops.is_less left.score right.score then false else true

  unfoldable pub rrf_fuse :
      Option Amount → List (SearchHit D) → List (SearchHit D) → List (FusedHit D Score)
  unfolding fused_by_chunk_id
  rrf_fuse top_k vector_results bm25_results =
      let fused = map penalized (fused_by_chunk_id vector_results bm25_results) in
      if every (λ f. f.hit.injection_risk) fused
      then []
      else take (normalize_positive_integer top_k 8) (sort_by ranks_before fused)
