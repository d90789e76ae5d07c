-- ===== src/Rag/Chunk/Page.antt =====
-- chunkPage of packages/rag-core/src/chunker.ts: the chunks of a page, section by section, with
-- their numbers and sections. Hashes, token counts, injection flags and the fixed fields of source
-- and access are left out.
pub mod Numbered
use cherry_wiki.Base.{
  ℕ, String, Option, none, some, List, [], ◌∷◌, ◌++◌, leb, length, if◌then◌else◌,
}
use mathlib.Core.Option as Option
use cherry_wiki.Rag.Chunk.{
  Text, ChunkOptions, NormalizedOptions, Document, Section, is_blank_text, split_content,
  normalize_chunk_options, get_page_content, get_section_content,
}

-- ChunkResult.
pub record ChunkResult : Type 0 where
  pub chunk_index : ℕ
  pub content : Text
  pub section_id : Option String

-- The sections sorted by their index: a section moves before those of a higher one.
unfoldable pub insert_section : Section → List Section → List Section
insert_section s [] = s ∷ []
insert_section s (t ∷ ts) =
    if leb s.section_index t.section_index then s ∷ t ∷ ts else t ∷ insert_section s ts

unfoldable pub sort_sections : List Section → List Section
unfolding insert_section
sort_sections [] = []
sort_sections (s ∷ ss) = insert_section s (sort_sections ss)

abbrev first_id : Option String → Option String → Option String
first_id (some id) other = some id
first_id none other = other

unfoldable pub section_targets : Text → List Section → List (Option String × Text)
unfolding get_section_content
section_targets content [] = []
section_targets content (s ∷ ss) =
    (first_id s.id s.section_id, get_section_content s content) ∷ section_targets content ss

unfoldable pub chunk_targets : Text → List Section → List (Option String × Text)
unfolding section_targets
chunk_targets content [] = (none, content) ∷ []
chunk_targets content (s ∷ ss) = section_targets content (s ∷ ss)

-- The inner loop: each text becomes a chunk numbered by those that are there.
unfoldable pub push_chunks : Option String → List Text → List ChunkResult → List ChunkResult
push_chunks section_id [] chunks = chunks
push_chunks section_id (text ∷ texts) chunks =
    push_chunks section_id texts (
      chunks
      ++ record { chunk_index = length chunks; content = text; section_id = section_id } ∷ [])

-- The outer loop.
unfoldable pub push_targets :
    NormalizedOptions → List (Option String × Text) → List ChunkResult → Option (List ChunkResult)
unfolding push_chunks split_content
push_targets options [] chunks = some chunks
push_targets options ((section_id, text) ∷ targets) chunks =
    Option.bind (split_content text options)
      (λ texts. push_targets options targets (push_chunks section_id texts chunks))

unfoldable pub chunk_page :
    Document → Document → List Section → ChunkOptions → Option (List ChunkResult)
unfolding get_page_content sort_sections chunk_targets push_targets
chunk_page page version sections options =
    let content = get_page_content page version in
    if is_blank_text content
    then some []
    else push_targets (normalize_chunk_options options)
        (chunk_targets content (sort_sections sections)) []
