-- ===== src/Rag/Chunk/Tiling.antt =====
-- The windows of the splitting loop, and their shape.
use cherry_wiki.Base.{
  ℕ, zero, suc, ◌+◌, ◌-◌, ◌≤◌, ◌<◌, min, max, true, false, Option, none, some, List, [], ◌∷◌, ltb,
  ◌==◌, if◌then◌else◌, Bool-cases, inl, inr, arith, ◌≡◌, refl,
}
use cherry_wiki.Rag.Chunk.{
  Window, ChunkOptions, windows_from, normalize_chunk_options, max_tokens_of,
}
use cherry_wiki.Rag.Amount.{Amount, not_finite, negative, finite}

-- Windows from `start` to the end of a text: every one but the last is as wide as allowed, and the next starts the overlap before it ends.
unfoldable pub Tiled : ℕ → ℕ → ℕ → ℕ → List Window → Type 0
Tiled total max_chars overlap_chars start [] = total ≤ start
Tiled total max_chars overlap_chars start (w ∷ []) =
    (w.first ≡ start) × (w.last ≡ total) × (start < total) × (total ≤ start + max_chars)
Tiled total max_chars overlap_chars start (w ∷ v ∷ ws) =
    (w.first ≡ start)
    × (w.last ≡ start + max_chars)
    × (w.last < total)
    × Tiled total max_chars overlap_chars (w.last - overlap_chars) (v ∷ ws)

Tiled-start :
    (total max_chars overlap_chars start start' : ℕ) (ws : List Window)
    → start ≡ start'
    → Tiled total max_chars overlap_chars start ws
    → Tiled total max_chars overlap_chars start' ws
Tiled-start total max_chars overlap_chars start start' ws e t = rw e at t

Tiled-cons :
    (total max_chars overlap_chars start : ℕ) (w : Window) (ws : List Window)
    → w.first ≡ start
    → w.last ≡ start + max_chars
    → w.last < total
    → overlap_chars < max_chars
    → Tiled total max_chars overlap_chars (w.last - overlap_chars) ws
    → Tiled total max_chars overlap_chars start (w ∷ ws)
unfolding Tiled
Tiled-cons total max_chars overlap_chars start w [] f l short less t = absurd (omega arith)
Tiled-cons total max_chars overlap_chars start w (v ∷ ws) f l short less t = (f, l, short, t)

-- The loop ends within one turn for each unit that is left, and its windows tile the text.
pub windows_from-Tiled :
    (fuel total max_chars overlap_chars start : ℕ)
    → overlap_chars < max_chars
    → start ≤ total
    → total < start + fuel
    → (ws : List Window) × (windows_from fuel total max_chars overlap_chars start ≡ some ws)
      × Tiled total max_chars overlap_chars start ws
unfolding windows_from Tiled
windows_from-Tiled zero total max_chars overlap_chars start less inside enough =
    absurd (omega arith)
windows_from-Tiled (suc fuel) total max_chars overlap_chars start less inside enough =
    let last = min total (start + max_chars) in
    elim (Bool-cases (ltb start total)) [
      | inr done ↦ ([], rw (done, if◌then◌else◌), ground arith)
      | inl more ↦ elim (Bool-cases (last == total)) [
        | inl end ↦ (
          record { first = start; last = last } ∷ [],
          rw (more, if◌then◌else◌) (rw (end, if◌then◌else◌)),
          (refl, ground arith, ground arith, ground arith),
        )
        | inr further ↦
            let (ws, e, t) =
              windows_from-Tiled fuel total max_chars overlap_chars
                (max (start + 1) (last - overlap_chars)) less (ground arith) (ground arith) in
            (
              record { first = start; last = last } ∷ ws,
              rw (more, if◌then◌else◌) (rw (further, if◌then◌else◌) (rw e)),
              Tiled-cons total max_chars overlap_chars start (record { first = start; last = last })
                  ws refl (ground arith) (ground arith) less
                  (Tiled-start total max_chars overlap_chars
                    (max (start + 1) (last - overlap_chars)) (last - overlap_chars) ws
                    (ground arith) t),
            )
      ]
    ]

max_tokens-positive : (o : Option Amount) → 0 < max_tokens_of o
max_tokens-positive none = omega arith
max_tokens-positive (some not_finite) = omega arith
max_tokens-positive (some negative) = omega arith
max_tokens-positive (some (finite zero false)) = omega arith
max_tokens-positive (some (finite zero true)) = omega arith
max_tokens-positive (some (finite (suc n) fraction)) = omega arith

-- Whatever the options, the overlap of the normalized options is less than the width.
pub normalize_less :
    (options : ChunkOptions)
    → (normalize_chunk_options options).overlap_tokens
      < (normalize_chunk_options options).max_chunk_tokens
unfolding normalize_chunk_options
normalize_less options = omega (arith, max_tokens-positive options.max_chunk_tokens)
