-- ===== src/Rag/Chunk/Cover.antt =====
-- The splitting of a text as a whole: its end, and which units its chunks hold.
use cherry_wiki.Base.{
  ℕ, suc, ◌+◌, ◌*◌, ◌-◌, ◌≤◌, ◌<◌, false, some, List, [], ◌∷◌, if◌then◌else◌, length, drop,
  get_elem?, get-drop, get-take, get-length, every-get, Bool-cases, ltb, inl, inr, arith, ◌≡◌, refl,
  ap, ◌∙◌,
}
use mathlib.Core.Option as Option
use mathlib.Core.List.{Memᴰ}
use cherry_wiki.Base.Text.{is_space}
use cherry_wiki.Rag.Chunk.{
  Window, Text, ChunkOptions, NormalizedOptions, normalize_chunk_options, chunks_of, split_content,
  slice, is_blank_text, chars_per_token,
}
use cherry_wiki.Rag.Chunk.Tiling.{Tiled, windows_from-Tiled, normalize_less}

-- The widths in units that a text is split by.
abbrev pub max_chars_of : NormalizedOptions → ℕ
max_chars_of options = options.max_chunk_tokens * chars_per_token

abbrev pub overlap_chars_of : NormalizedOptions → ℕ
overlap_chars_of options = options.overlap_tokens * chars_per_token

Tiled-window :
    (total max_chars overlap_chars start i : ℕ) (ws : List Window)
    → Tiled total max_chars overlap_chars start ws
    → start ≤ i
    → i < total
    → (w : Window) × Memᴰ w ws × (w.first ≤ i) × (i < w.last) × (w.last ≤ w.first + max_chars)
unfolding Tiled
Tiled-window total max_chars overlap_chars start i [] t from_start within = absurd (omega arith)
Tiled-window total max_chars overlap_chars start i (w ∷ []) (f, l, short, wide) from_start within =
    (w, Memᴰ.head refl, omega arith, omega arith, omega arith)
Tiled-window total max_chars overlap_chars start i (w ∷ v ∷ ws) (f, l, short, t) from_start within =
    elim (Bool-cases (ltb i w.last)) [
      | inl here ↦ (w, Memᴰ.head refl, omega arith, ground arith, omega arith)
      | inr later ↦
          let (x, m, low, high, wide) =
            Tiled-window total max_chars overlap_chars (w.last - overlap_chars) i (v ∷ ws) t
              (ground arith) within in
          (x, Memᴰ.tail m, low, high, wide)
    ]

-- A slice that holds a unit that is no space is not blank.
slice_holds :
    (content : Text) (w : Window) (i u : ℕ)
    → get_elem? content i ≡ some u
    → is_space u ≡ false
    → w.first ≤ i
    → i < w.last
    → is_blank_text (slice w.first w.last content) ≡ false
slice_holds content w i u there visible low high =
    elim (Bool-cases (is_blank_text (slice w.first w.last content))) [
      | inr shown ↦ shown
      | inl blank ↦
          let at_slice : get_elem? (slice w.first w.last content) (i - w.first) ≡ some u =
            get-take (w.last - w.first) (i - w.first) (drop w.first content) (omega arith)
            ∙ get-drop w.first (i - w.first) content
            ∙ ap (get_elem? content) (omega arith)
            ∙ there in
          let spaced =
            every-get is_space (slice w.first w.last content) (i - w.first) u blank at_slice in
          absurd (cc)
    ]

whole_text_shown :
    (content : Text) (i u : ℕ)
    → get_elem? content i ≡ some u
    → is_space u ≡ false
    → is_blank_text content ≡ false
whole_text_shown content i u there visible = elim (Bool-cases (is_blank_text content)) [
  | inr shown ↦ shown
  | inl blank ↦ let spaced = every-get is_space content i u blank there in absurd (cc)
]

chunks_of-Mem :
    (content : Text) (ws : List Window) (w : Window)
    → Memᴰ w ws
    → is_blank_text (slice w.first w.last content) ≡ false
    → Memᴰ (slice w.first w.last content) (chunks_of content ws)
unfolding chunks_of
chunks_of-Mem content [] w m shown = elim m [ ]
chunks_of-Mem content (v ∷ ws) w (Memᴰ.head e) shown =
    let blank : is_blank_text (slice v.first v.last content) ≡ false = rw e at shown in
    rw (blank, if◌then◌else◌) (Memᴰ.head (ap (λ (x : Window). slice x.first x.last content) e))
chunks_of-Mem content (v ∷ ws) w (Memᴰ.tail m) shown =
    elim (Bool-cases (is_blank_text (slice v.first v.last content))) [
      | inl blank ↦ rw (blank, if◌then◌else◌) (chunks_of-Mem content ws w m shown)
      | inr pushed ↦ rw (pushed, if◌then◌else◌) (Memᴰ.tail (chunks_of-Mem content ws w m shown))
    ]

pub split_content_ends :
    (content : Text) (options : ChunkOptions)
    → (ws : List Window) × Tiled
        (length content)
        (max_chars_of (normalize_chunk_options options))
        (overlap_chars_of (normalize_chunk_options options))
        0
        ws
      × (split_content content (normalize_chunk_options options)
          ≡ some (if is_blank_text content then [] else chunks_of content ws))
unfolding split_content
split_content_ends content options =
    let (ws, e, t) =
      windows_from-Tiled (suc (length content)) (length content)
        (max_chars_of (normalize_chunk_options options))
        (overlap_chars_of (normalize_chunk_options options)) 0
        (omega (arith, normalize_less options)) (omega arith) (omega arith) in
    (
      ws,
      t,
      elim (Bool-cases (is_blank_text content)) [
        | inl blank ↦ rw (blank, if◌then◌else◌)
        | inr shown ↦ rw (shown, if◌then◌else◌) (ap (Option.map (chunks_of content)) e)
      ],
    )

-- Every unit of a text that is no white space is in a window whose slice is one of the chunks, and which is no wider than the options allow.
pub split_content_covers :
    (content : Text) (options : ChunkOptions) (i u : ℕ)
    → get_elem? content i ≡ some u
    → is_space u ≡ false
    → (chunks : List Text) × (w : Window) × (split_content content (normalize_chunk_options options)
        ≡ some chunks)
      × Memᴰ (slice w.first w.last content) chunks
      × (w.first ≤ i)
      × (i < w.last)
      × (w.last ≤ w.first + max_chars_of (normalize_chunk_options options))
split_content_covers content options i u there visible =
    let (ws, t, e) = split_content_ends content options in
    let (w, m, low, high, wide) =
      Tiled-window (length content) (max_chars_of (normalize_chunk_options options))
        (overlap_chars_of (normalize_chunk_options options)) 0 i ws t (omega arith)
        (get-length i content u there) in
    (
      chunks_of content ws,
      w,
      e
          ∙ ap (λ b. some (if b then [] else chunks_of content ws))
              (whole_text_shown content i u there visible),
      chunks_of-Mem content ws w m (slice_holds content w i u there visible low high),
      low,
      high,
      wide,
    )
