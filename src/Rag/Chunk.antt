-- ===== src/Rag/Chunk.antt =====
-- packages/rag-core/src/chunker.ts: a text cut into overlapping windows of a fixed width. A text is
-- the list of its UTF-16 units, which is what `length` and `slice` count.
pub mod Tiling
pub mod Cover
pub mod Page
use cherry_wiki.Base.{
  String, ℕ, zero, suc, ◌+◌, ◌*◌, ◌-◌, min, max, Bool, true, false, not, Option, none, some, List,
  [], ◌∷◌, ◌++◌, ltb, ◌==◌, length, take, drop, keep, every, map, if◌then◌else◌,
}
use mathlib.Core.Option as Option
use cherry_wiki.Base.Text.{is_space}
use cherry_wiki.Rag.Amount.{Amount, not_finite, negative, finite}

abbrev pub Text : Type 0
Text = List ℕ

pub record ChunkOptions : Type 0 where
  pub max_chunk_tokens : Option Amount
  pub overlap_tokens : Option Amount

-- Required<ChunkOptions>.
pub record NormalizedOptions : Type 0 where
  pub max_chunk_tokens : ℕ
  pub overlap_tokens : ℕ

abbrev default_max_chunk_tokens : ℕ
default_max_chunk_tokens = 512

abbrev default_overlap_tokens : ℕ
default_overlap_tokens = 64

abbrev chars_per_token : ℕ
chars_per_token = 4

abbrev max_tokens_of : Option Amount → ℕ
max_tokens_of none = default_max_chunk_tokens
max_tokens_of (some not_finite) = default_max_chunk_tokens
max_tokens_of (some negative) = default_max_chunk_tokens
max_tokens_of (some (finite zero false)) = default_max_chunk_tokens
max_tokens_of (some (finite zero true)) = max 1 0
max_tokens_of (some (finite (suc n) fraction)) = max 1 (suc n)

abbrev raw_overlap_of : Option Amount → ℕ
raw_overlap_of none = default_overlap_tokens
raw_overlap_of (some not_finite) = default_overlap_tokens
raw_overlap_of (some negative) = default_overlap_tokens
raw_overlap_of (some (finite n fraction)) = n

unfoldable pub normalize_chunk_options : ChunkOptions → NormalizedOptions
normalize_chunk_options options = record {
  max_chunk_tokens = max_tokens_of options.max_chunk_tokens;
  overlap_tokens =
      min (raw_overlap_of options.overlap_tokens)
        (max 0 (max_tokens_of options.max_chunk_tokens - 1));
}

-- `value.slice(start, end)` of offsets within the text.
abbrev pub slice : ℕ → ℕ → Text → Text
slice first last text = take (last - first) (drop first text)

-- `value.trim().length === 0`.
abbrev pub is_blank_text : Text → Bool
is_blank_text text = every is_space text

pub record Window : Type 0 where
  pub first : ℕ
  pub last : ℕ

-- The loop of splitContentByTokenWindow in a text of `total` units, from `start`; none when the
-- fuel runs out.
unfoldable pub windows_from : ℕ → ℕ → ℕ → ℕ → ℕ → Option (List Window)
windows_from zero total max_chars overlap_chars start = none
windows_from (suc fuel) total max_chars overlap_chars start =
    let last = min total (start + max_chars) in
    let rest =
      windows_from fuel total max_chars overlap_chars (max (start + 1) (last - overlap_chars)) in
    let window : Window = record { first = start; last = last } in
    if ltb start total
    then if last == total then some (window ∷ []) else Option.map (λ ws. window ∷ ws) rest
    else some []

-- What the loop pushes: the slices that are not blank.
unfoldable pub chunks_of : Text → List Window → List Text
unfolding is_space
chunks_of content [] = []
chunks_of content (w ∷ ws) =
    let chunk = slice w.first w.last content in
    if is_blank_text chunk then chunks_of content ws else chunk ∷ chunks_of content ws

unfoldable pub split_content : Text → NormalizedOptions → Option (List Text)
unfolding windows_from chunks_of is_space
split_content content options =
    let windows =
      windows_from (suc (length content)) (length content)
        (options.max_chunk_tokens * chars_per_token) (options.overlap_tokens * chars_per_token) 0 in
    if is_blank_text content then some [] else Option.map (chunks_of content) windows

-- PageLike and VersionLike, of which the content is read.
pub record Document : Type 0 where
  pub content : Option Text
  pub content_markdown : Option Text

pub record Section : Type 0 where
  pub id : Option String
  pub section_id : Option String
  pub section_index : ℕ
  pub content : Option Text
  pub content_markdown : Option Text
  pub start_offset : Option ℕ
  pub end_offset : Option ℕ

abbrev or_else : Option Text → Text → Text
or_else (some text) other = text
or_else none other = other

unfoldable pub get_page_content : Document → Document → Text
get_page_content page version =
    or_else version.content_markdown
      (or_else version.content (or_else page.content_markdown (or_else page.content [])))

abbrev offset_slice : Option ℕ → Option ℕ → Text → Text
offset_slice (some first) (some last) text = slice first last text
offset_slice _ _ text = []

unfoldable pub get_section_content : Section → Text → Text
get_section_content section page_content = or_else section.content (
    or_else section.content_markdown
      (offset_slice section.start_offset section.end_offset page_content))
