-- ===== src/Rag/Fusion/Lookup.antt =====
-- What the fusion makes of each chunk, by its place in the two lists.
use cherry_wiki.Base.{
  ℕ, suc, String, true, false, ◌||◌, Option, none, some, List, [], ◌∷◌, ◌=ₛ◌, eq_iff, ◌≡◌, refl,
  sym, ap, ◌∙◌, arith, if◌then◌else◌, Bool-cases, inl, inr,
}
use cherry_wiki.Base.Text.{includes}
use cherry_wiki.Rag.Fusion.{
  SearchHit, FusedHit, Scores, join, add_hit, add_from, add_ranked_results, fused_by_chunk_id,
}

not_both : (a b c : String) → (a =ₛ b) ≡ false → (a =ₛ c) ≡ true → (b =ₛ c) ≡ false
not_both a b c h k = ground (arith, eq_iff a b, eq_iff a c, eq_iff b c, (eq_iff a c).0 k)

module _ {D Score : Type 0} (ops : Scores Score) where
  abbrev pub lookup : String → List (FusedHit D Score) → Option (FusedHit D Score)
  lookup id [] = none
  lookup id (f ∷ fused) = if f.hit.chunk_id =ₛ id then some f else lookup id fused

  -- The first hit of a chunk, with its score.
  abbrev pub first_hit : ℕ → String → List (SearchHit D) → Option (SearchHit D × Score)
  first_hit rank id [] = none
  first_hit rank id (hit ∷ hits) =
      if hit.chunk_id =ₛ id then some (hit, ops.contribution rank) else first_hit (suc rank) id hits

  -- A chunk's entry after the first hit of one more list.
  abbrev joined :
      Option (FusedHit D Score) → Option (SearchHit D × Score) → Option (FusedHit D Score)
  joined o none = o
  joined none (some (hit, score)) = some (record { hit = hit; score = score })
  joined (some f) (some (hit, score)) = some (join ops f hit score)

  -- A chunk's entry by its first hit in each of the two lists.
  abbrev pub entry :
      Option (SearchHit D × Score) → Option (SearchHit D × Score) → Option (FusedHit D Score)
  entry none none = none
  entry none (some (hit, score)) = some (record { hit = hit; score = score })
  entry (some (hit, score)) none = some (record { hit = hit; score = score })
  entry (some (hit, score)) (some (again, more)) = some (record {
    hit = record hit { injection_risk = again.injection_risk || hit.injection_risk };
    score = ops.add score more;
  })

  joined-entry : (a b : Option (SearchHit D × Score)) → joined (joined none a) b ≡ entry a b
  joined-entry none none = refl
  joined-entry none (some (hit, score)) = refl
  joined-entry (some (hit, score)) none = refl
  joined-entry (some (hit, score)) (some (again, more)) = elim (Bool-cases again.injection_risk) [
    | inl e ↦ rw (e, if◌then◌else◌) refl
    | inr e ↦ rw (e, if◌then◌else◌) refl
  ]

  join-id :
      (f : FusedHit D Score) (hit : SearchHit D) (score : Score)
      → (join ops f hit score).hit.chunk_id ≡ f.hit.chunk_id
  join-id f hit score = elim (Bool-cases hit.injection_risk) [
    | inl e ↦ rw (e, if◌then◌else◌) refl
    | inr e ↦ rw (e, if◌then◌else◌) refl
  ]

  -- What is looked up after the first element of the fused ones has been joined with a hit.
  lookup-join :
      (id : String) (f : FusedHit D Score) (hit : SearchHit D) (score : Score)
      (fused : List (FusedHit D Score))
      → f.hit.chunk_id ≡ hit.chunk_id
      → lookup id (join ops f hit score ∷ fused) ≡ (
          if hit.chunk_id =ₛ id
          then joined (lookup id (f ∷ fused)) (some (hit, score))
          else lookup id (f ∷ fused))
  lookup-join id f hit score fused same = elim (Bool-cases (hit.chunk_id =ₛ id)) [
    | inl e ↦
        let here = ap (λ c. c =ₛ id) (join-id f hit score ∙ same) ∙ e in
        let there = ap (λ c. c =ₛ id) same ∙ e in rw (here, there, e, if◌then◌else◌) refl
    | inr e ↦
        let here = ap (λ c. c =ₛ id) (join-id f hit score ∙ same) ∙ e in
        let there = ap (λ c. c =ₛ id) same ∙ e in rw (here, there, e, if◌then◌else◌) refl
  ]

  lookup-add_hit :
      (id : String) (hit : SearchHit D) (score : Score) (fused : List (FusedHit D Score))
      → lookup id (add_hit ops hit score fused) ≡ (
          if hit.chunk_id =ₛ id
          then joined (lookup id fused) (some (hit, score))
          else lookup id fused)
  lookup-add_hit id hit score [] = refl
  lookup-add_hit id hit score (f ∷ fused) = elim (Bool-cases (f.hit.chunk_id =ₛ hit.chunk_id)) [
    | inl same ↦
        rw (same, if◌then◌else◌)
          (lookup-join id f hit score fused ((eq_iff f.hit.chunk_id hit.chunk_id).0 same))
    | inr other ↦ elim (Bool-cases (f.hit.chunk_id =ₛ id)) [
      | inl here ↦
          let apart = not_both f.hit.chunk_id hit.chunk_id id other here in
          rw (other, here, apart, if◌then◌else◌) refl
      | inr there ↦ rw (other, there, if◌then◌else◌) (lookup-add_hit id hit score fused)
    ]
  ]

  -- A list of hits adds to a chunk that it has not seen its first hit of the chunk.
  lookup-add_from :
      (id : String) (rank : ℕ) (seen : List String) (hits : List (SearchHit D))
      (fused : List (FusedHit D Score))
      → lookup id (add_from ops rank seen hits fused) ≡ (
          if includes seen id
          then lookup id fused
          else joined (lookup id fused) (first_hit rank id hits))
  lookup-add_from id rank seen [] fused = ground arith
  lookup-add_from id rank seen (hit ∷ hits) fused = elim (Bool-cases (includes seen hit.chunk_id)) [
    | inl old ↦ elim (Bool-cases (hit.chunk_id =ₛ id)) [
      | inl here ↦
          let known = ap (includes seen) (sym ((eq_iff hit.chunk_id id).0 here)) ∙ old in
          let rest = lookup-add_from id (suc rank) seen hits fused in
          rw (old, known, if◌then◌else◌) (rest ∙ rw (known, if◌then◌else◌) refl)
      | inr there ↦ rw (old, there, if◌then◌else◌) (lookup-add_from id (suc rank) seen hits fused)
    ]
    | inr new ↦
        let more = add_hit ops hit (ops.contribution rank) fused in
        let rest = lookup-add_from id (suc rank) (hit.chunk_id ∷ seen) hits more in
        let added = lookup-add_hit id hit (ops.contribution rank) fused in
        elim (Bool-cases (hit.chunk_id =ₛ id)) [
          | inl here ↦
              let unknown = ap (includes seen) (sym ((eq_iff hit.chunk_id id).0 here)) ∙ new in
              rw (new, unknown, here, if◌then◌else◌) (ground (arith, rest, added))
          | inr there ↦ rw (new, there, if◌then◌else◌) (ground (arith, rest, added))
        ]
  ]

  -- A chunk is among the fused hits exactly when one of the two searches found it: it is then its first hit of the vector search, or else of the word search, its score is the contribution of the first rank that it has in each search that found it, added up, and it is a risk if that hit is or if its first hit of the word search is.
  pub fused-lookup :
      (vector_results bm25_results : List (SearchHit D)) (id : String)
      → lookup id (fused_by_chunk_id ops vector_results bm25_results)
        ≡ entry (first_hit 1 id vector_results) (first_hit 1 id bm25_results)
  unfolding fused_by_chunk_id add_ranked_results
  fused-lookup vector_results bm25_results id =
      lookup-add_from id 1 [] bm25_results (add_from ops 1 [] vector_results [])
      ∙ ap (λ o. joined o (first_hit 1 id bm25_results)) (lookup-add_from id 1 [] vector_results [])
      ∙ joined-entry (first_hit 1 id vector_results) (first_hit 1 id bm25_results)
