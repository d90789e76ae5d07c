-- ===== src/Examples/Publishing.antt =====
-- The publishing of pages at concrete inputs.
use cherry_wiki.Base.{[], ◌∷◌, ◌≡◌, refl, ◌↔◌}
use cherry_wiki.Wiki.{status, thrown, publish, archive, get_next_version_no}
use cherry_wiki.Wiki.Lifecycle.{archives, Step, Answers, Answers-iff}

archive_test :
    (archive "published" ≡ status "archived")
    × (publish "archived" ≡ thrown "INVALID_PUBLISH_TRANSITION")
unfolding archive publish
archive_test = (refl, refl)

Answers-iff_example : Answers archives "published" "archived" ↔ Step archives "published" "archived"
Answers-iff_example = Answers-iff archives "published" "archived"

next_version : get_next_version_no (2 ∷ 7 ∷ 3 ∷ []) ≡ 8
unfolding get_next_version_no
next_version = refl
