-- ===== src/Rag/Chunk/Page/Numbered.antt =====
-- What the chunks of a page are, whatever its sections.
use cherry_wiki.Base.{
  ℕ, suc, ◌+◌, ◌-◌, ◌≤◌, String, false, Option, some, List, [], ◌∷◌, ◌++◌, length, drop,
  length-take, All, Bool-cases, inl, inr, arith, ◌≡◌, refl, ap, ◌∙◌, if◌then◌else◌,
}
use mathlib.Core.Option as Option
use cherry_wiki.Rag.Chunk.{
  Text, Window, ChunkOptions, Document, Section, slice, is_blank_text, chunks_of, split_content,
  normalize_chunk_options, get_page_content,
}
use cherry_wiki.Rag.Chunk.Tiling.{Tiled}
use cherry_wiki.Rag.Chunk.Cover.{max_chars_of, overlap_chars_of, split_content_ends}
use cherry_wiki.Rag.Chunk.Page.{
  ChunkResult, push_chunks, push_targets, chunk_page, chunk_targets, sort_sections,
}

-- The chunks are numbered from `n` on.
abbrev pub Numbered : ℕ → List ChunkResult → Type 0
Numbered n [] = Unit
Numbered n (c ∷ cs) = (c.chunk_index ≡ n) × Numbered (suc n) cs

-- A text that is not blank and no longer than a width.
abbrev pub IsFit : ℕ → Text → Type 0
IsFit wide text = (is_blank_text text ≡ false) × (length text ≤ wide)

abbrev pub AllFit : ℕ → List ChunkResult → Type 0
AllFit wide = All (λ c. IsFit wide c.content)

Numbered-append :
    (n : ℕ) (xs : List ChunkResult) (c : ChunkResult)
    → Numbered n xs
    → c.chunk_index ≡ n + length xs
    → Numbered n (xs ++ c ∷ [])
Numbered-append n [] c h e = (omega arith, tt)
Numbered-append n (x ∷ xs) c (i, h) e = (i, Numbered-append (suc n) xs c h (omega arith))

AllFit-append :
    (wide : ℕ) (xs : List ChunkResult) (c : ChunkResult)
    → AllFit wide xs
    → IsFit wide c.content
    → AllFit wide (xs ++ c ∷ [])
AllFit-append wide [] c h f = (f, tt)
AllFit-append wide (x ∷ xs) c (g, h) f = (g, AllFit-append wide xs c h f)

push_chunks_lem :
    (wide : ℕ) (section_id : Option String) (texts : List Text) (chunks : List ChunkResult)
    → All (IsFit wide) texts
    → Numbered 0 chunks
    → AllFit wide chunks
    → Numbered 0 (push_chunks section_id texts chunks)
      × AllFit wide (push_chunks section_id texts chunks)
unfolding push_chunks
push_chunks_lem wide section_id [] chunks f n a = (n, a)
push_chunks_lem wide section_id (text ∷ texts) chunks (f, fs) n a =
    let c : ChunkResult = record {
      chunk_index = length chunks;
      content = text;
      section_id = section_id;
    } in
    push_chunks_lem wide section_id texts (chunks ++ c ∷ []) fs
      (Numbered-append 0 chunks c n (omega arith)) (AllFit-append wide chunks c a f)

Tiled-All :
    (total wide overlap start : ℕ) (ws : List Window)
    → Tiled total wide overlap start ws
    → All (λ (w : Window). w.last ≤ w.first + wide) ws
unfolding Tiled
Tiled-All total wide overlap start [] t = tt
Tiled-All total wide overlap start (w ∷ []) (f, l, s, b) = (omega arith, tt)
Tiled-All total wide overlap start (w ∷ v ∷ ws) (f, l, s, t) =
    (omega arith, Tiled-All total wide overlap (w.last - overlap) (v ∷ ws) t)

chunks_of-IsFit :
    (wide : ℕ) (content : Text) (ws : List Window)
    → All (λ (w : Window). w.last ≤ w.first + wide) ws
    → All (IsFit wide) (chunks_of content ws)
unfolding chunks_of
chunks_of-IsFit wide content [] a = tt
chunks_of-IsFit wide content (w ∷ ws) (narrow, a) =
    elim (Bool-cases (is_blank_text (slice w.first w.last content))) [
      | inl blank ↦ rw (blank, if◌then◌else◌) (chunks_of-IsFit wide content ws a)
      | inr shown ↦
          rw (shown, if◌then◌else◌)
            (
              (shown, omega (arith, length-take (w.last - w.first) (drop w.first content))),
              chunks_of-IsFit wide content ws a,
            )
    ]

split_content-IsFit :
    (content : Text) (options : ChunkOptions)
    → (texts : List Text) × (split_content content (normalize_chunk_options options) ≡ some texts)
      × All (IsFit (max_chars_of (normalize_chunk_options options))) texts
split_content-IsFit content options =
    let (ws, t, e) = split_content_ends content options in
    elim (Bool-cases (is_blank_text content)) [
      | inl blank ↦ ([], e ∙ ap (λ b. some (if b then [] else chunks_of content ws)) blank, tt)
      | inr shown ↦ (
        chunks_of content ws,
        e ∙ ap (λ b. some (if b then [] else chunks_of content ws)) shown,
        chunks_of-IsFit (max_chars_of (normalize_chunk_options options)) content ws (
            Tiled-All (length content) (max_chars_of (normalize_chunk_options options))
              (overlap_chars_of (normalize_chunk_options options)) 0 ws t),
      )
    ]

module _ (options : ChunkOptions) where
  abbrev Good : List ChunkResult → Type 0
  Good chunks = Numbered 0 chunks × AllFit (max_chars_of (normalize_chunk_options options)) chunks

  push_targets-Good :
      (targets : List (Option String × Text)) (chunks : List ChunkResult)
      → Good chunks
      → (done : List ChunkResult) × (push_targets (normalize_chunk_options options) targets chunks
          ≡ some done)
        × Good done
  unfolding push_targets Option.bind
  push_targets-Good [] chunks g = (chunks, refl, g)
  push_targets-Good ((section_id, text) ∷ targets) chunks (n, a) =
      let (texts, e, f) = split_content-IsFit text options in
      let wide = max_chars_of (normalize_chunk_options options) in
      let (done, e', g) =
        push_targets-Good targets (push_chunks section_id texts chunks)
          (push_chunks_lem wide section_id texts chunks f n a) in
      (done, rw e e', g)

-- Cutting a page into chunks always ends, and the chunks are numbered from 0 on in their order, none is blank, and none has more units than the normalized options allow.
pub chunk_page-Numbered :
    (page version : Document) (sections : List Section) (options : ChunkOptions)
    → (chunks : List ChunkResult) × (chunk_page page version sections options ≡ some chunks)
      × Numbered 0 chunks
      × AllFit (max_chars_of (normalize_chunk_options options)) chunks
unfolding chunk_page
chunk_page-Numbered page version sections options =
    let content = get_page_content page version in
    elim (Bool-cases (is_blank_text content)) [
      | inl blank ↦ ([], rw (blank, if◌then◌else◌), tt, tt)
      | inr shown ↦
          let (chunks, e, good) =
            push_targets-Good options (chunk_targets content (sort_sections sections)) []
              (tt, tt) in
          (chunks, rw (shown, if◌then◌else◌) e, good.0, good.1)
    ]
