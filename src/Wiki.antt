-- ===== src/Wiki.antt =====
-- packages/wiki-core: the publishing of a page (state-machine.ts) and its version numbers
-- (version.ts). A status comes from the database as a text.
pub mod Lifecycle
pub mod Versions
use cherry_wiki.Base.{ℕ, ◌+◌, max, String, Bool, List, [], ◌∷◌, ◌=ₛ◌, if◌then◌else◌}

-- The answer of a method: a value, or the message of the error that it throws.
pub data Answer : Type 0 where
  status : String → Answer
  thrown : String → Answer

unfoldable pub can_publish : String → Bool
can_publish current_status = current_status =ₛ "draft"

unfoldable pub publish : String → Answer
unfolding can_publish
publish current_status =
    if can_publish current_status
    then status "published"
    else if current_status =ₛ "published"
    then thrown "VERSION_ALREADY_PUBLISHED"
    else thrown "INVALID_PUBLISH_TRANSITION"

unfoldable pub can_unpublish : String → Bool
can_unpublish current_status = current_status =ₛ "published"

unfoldable pub unpublish : String → Answer
unfolding can_unpublish
unpublish current_status =
    if can_unpublish current_status
    then status "draft"
    else if current_status =ₛ "draft"
    then thrown "VERSION_ALREADY_DRAFT"
    else thrown "INVALID_UNPUBLISH_TRANSITION"

unfoldable pub can_archive : String → Bool
can_archive current_status = current_status =ₛ "published"

unfoldable pub archive : String → Answer
unfolding can_archive
archive current_status =
    if can_archive current_status then status "archived" else thrown "INVALID_ARCHIVE_TRANSITION"

pub record Rollback : Type 0 where
  pub content : String
  pub version_no : ℕ
  pub source : String
  pub status : String

unfoldable pub rollback : String → ℕ → Rollback
rollback target_version_content current_max_version_no = record {
  content = target_version_content;
  version_no = current_max_version_no + 1;
  source = "rollback";
  status = "published";
}

-- `Math.max` of the numbers of a list that is not empty.
abbrev pub max_of : ℕ → List ℕ → ℕ
max_of n [] = n
max_of n (m ∷ ms) = max n (max_of m ms)

unfoldable pub get_next_version_no : List ℕ → ℕ
get_next_version_no [] = 1
get_next_version_no (n ∷ ns) = max_of n ns + 1
