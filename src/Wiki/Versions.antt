-- ===== src/Wiki/Versions.antt =====
-- New version numbers.
use cherry_wiki.Base.{ℕ, ◌+◌, ◌≤◌, ◌<◌, List, [], ◌∷◌, All, arith}
use cherry_wiki.Wiki.{max_of, get_next_version_no}

below : (bound : ℕ) (n : ℕ) (ns : List ℕ) → max_of n ns < bound → All (λ m. m < bound) (n ∷ ns)
below bound n [] h = (omega arith, tt)
below bound n (m ∷ ms) h = (omega arith, below bound m ms (omega arith))

-- The next version number is at least 1 and above every number that a version of the page has.
pub get_next_version_no_fresh :
    (ns : List ℕ) → (1 ≤ get_next_version_no ns) × All (λ n. n < get_next_version_no ns) ns
unfolding get_next_version_no
get_next_version_no_fresh [] = (omega arith, tt)
get_next_version_no_fresh (n ∷ ns) = (omega arith, below (max_of n ns + 1) n ns (omega arith))
