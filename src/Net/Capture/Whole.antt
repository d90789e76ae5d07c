-- ===== src/Net/Capture/Whole.antt =====
-- What is captured of a response is all of it or nothing.
use mathlib.Core.List.{append-nil, append_assoc}
use cherry_wiki.Base.{
  ℕ, ◌+◌, ◌≤◌, ◌<◌, true, false, none, some, List, [], ◌∷◌, ◌++◌, length, length-append, ltb,
  if◌then◌else◌, ◌≡◌, refl, ap, sym, ◌∙◌, subst, arith, ◌⊎◌, inl, inr, Bool-cases,
}
use cherry_wiki.Net.Capture.{
  Chunk, CaptureState, nothing_captured, max_cached_response_bytes, capture_chunk, res_write,
  write_all, res_end, capture, concat,
}

abbrev pub bytes_of : Chunk → List ℕ
bytes_of none = []
bytes_of (some bytes) = bytes

-- The body of a response.
abbrev pub body_of : List Chunk → List ℕ
body_of [] = []
body_of (chunk ∷ chunks) = bytes_of chunk ++ body_of chunks

abbrev pub IsWhole : List ℕ → CaptureState → Type 0
IsWhole body c =
    ((c.exceeded_size_limit ≡ false)
      × (concat c.chunks ≡ body)
      × (c.total_bytes ≡ length body)
      × (length body ≤ max_cached_response_bytes))
    ⊎ ((c.exceeded_size_limit ≡ true) × (c.chunks ≡ []) × (max_cached_response_bytes < length body))

concat_end : (xs : List (List ℕ)) (x : List ℕ) → concat (xs ++ x ∷ []) ≡ concat xs ++ x
unfolding concat
concat_end [] x = append-nil x
concat_end (y ∷ xs) x = ap (λ l. y ++ l) (concat_end xs x) ∙ sym (append_assoc y (concat xs) x)

capture_chunk-IsWhole :
    (body : List ℕ) (chunk : Chunk) (c : CaptureState)
    → IsWhole body c
    → IsWhole (body ++ bytes_of chunk) (capture_chunk chunk c)
unfolding capture_chunk
capture_chunk-IsWhole body none c (inl (still_open, all, size, fits)) =
    ground (arith, append-nil body)
capture_chunk-IsWhole body (some bytes) c (inl (still_open, all, size, fits)) =
    elim (Bool-cases (ltb max_cached_response_bytes (c.total_bytes + length bytes))) [
      | inl big ↦
          rw (still_open, big, if◌then◌else◌)
            (inr (refl, refl, ground (arith, length-append body bytes)))
      | inr small ↦
          rw (still_open, small, if◌then◌else◌)
            (inl (
              refl,
              concat_end c.chunks bytes ∙ ap (λ l. l ++ bytes) all,
              ground (arith, length-append body bytes),
              ground (arith, length-append body bytes),
            ))
    ]
capture_chunk-IsWhole body chunk c (inr (over, none_left, big)) =
    rw (over, if◌then◌else◌)
      (inr (refl, none_left, omega (arith, length-append body (bytes_of chunk))))

write_all-IsWhole :
    (body : List ℕ) (chunks : List Chunk) (c : CaptureState)
    → IsWhole body c
    → IsWhole (body ++ body_of chunks) (write_all false chunks c)
unfolding res_write
write_all-IsWhole body [] c w = subst (λ b. IsWhole b c) (sym (append-nil body)) w
write_all-IsWhole body (chunk ∷ chunks) c w =
    let c' = capture_chunk chunk c in
    subst (λ b. IsWhole b (write_all false chunks c'))
      (append_assoc body (bytes_of chunk) (body_of chunks))
      (write_all-IsWhole (body ++ bytes_of chunk) chunks c' (capture_chunk-IsWhole body chunk c w))

forwarded : (inner : List Chunk) (c : CaptureState) → write_all true inner c ≡ c
unfolding res_write
forwarded [] c = refl
forwarded (chunk ∷ inner) c = forwarded inner c

-- Whatever chunks a response is written in, and whatever part of its last chunk the original end writes again, the capture holds the whole body, each byte once and in its order, if this is at most 1048576 bytes long; if it is longer, the capture is marked as too large and empty.
pub capture-IsWhole :
    (inner written : List Chunk) (last : Chunk)
    → IsWhole (body_of written ++ bytes_of last) (capture inner written last)
unfolding capture res_end concat
capture-IsWhole inner written last =
    let c = write_all false written nothing_captured in
    subst (λ d. IsWhole (body_of written ++ bytes_of last) d)
      (sym (forwarded inner (capture_chunk last c)))
      (capture_chunk-IsWhole (body_of written) last c
        (write_all-IsWhole [] written nothing_captured (inl (refl, refl, refl, omega arith))))
