-- ===== src/Access/Sessions/Owned.antt =====
-- The other methods of apps/api/src/auth/session.service.ts: what a user sees and revokes.
pub mod Revoked
use cherry_wiki.Base.{
  ℕ, String, Bool, true, false, ◌&&◌, Option, none, some, List, [], ◌∷◌, ◌++◌, map, keep, take, ltb,
  leb, ◌==◌, ◌=ₛ◌, if◌then◌else◌, ◌||◌,
}
use cherry_wiki.Base.Sorting.{sort_by}
use cherry_wiki.Access.Sessions.{SessionRow, is_of, is_active, is_none, revoke_where}

-- AuthRequestMetadata.
pub record Metadata : Type 0 where
  pub ip : Option String
  pub user_agent : Option String
  pub request_id : Option String

pub record RevokeSessionInput : Type 0 where
  pub tenant_id : String
  pub user_id : String
  pub session_id : String
  pub metadata : Metadata

pub record AuditEntry : Type 0 where
  pub tenant_id : String
  pub actor_user_id : String
  pub action : String
  pub resource_type : String
  pub resource_id : String
  pub metadata : Metadata

pub record SessionSummary : Type 0 where
  pub id : String
  pub ip : Option String
  pub user_agent : Option String
  pub created_at : ℕ
  pub last_used_at : Option ℕ
  pub is_current : Bool

abbrev pub first_of : (SessionRow → Bool) → List SessionRow → Option SessionRow
first_of test [] = none
first_of test (row ∷ rows) = if test row then some row else first_of test rows

abbrev pub has_id : String → SessionRow → Bool
has_id id row = row.id =ₛ id

unfoldable pub find_session_by_id : String → List SessionRow → Option SessionRow
find_session_by_id id = first_of (has_id id)

unfoldable pub find_owned_session : String → String → String → List SessionRow → Option SessionRow
find_owned_session tenant user id = first_of (λ row. is_of tenant user row && has_id id row)

abbrev or_kept : Option ℕ → Option ℕ → Option ℕ
or_kept none old = old
or_kept (some t) old = some t

unfoldable pub revoke_session_by_id : String → ℕ → Option ℕ → List SessionRow → List SessionRow
revoke_session_by_id id revoked_at last_used_at = map (λ row.
    if has_id id row
    then record row {
      revoked_at = some revoked_at;
      last_used_at = or_kept last_used_at row.last_used_at;
    }
    else row)

unfoldable pub revoke_all_active_sessions_for_user :
    String → String → ℕ → List SessionRow → List SessionRow
revoke_all_active_sessions_for_user tenant user revoked_at =
    revoke_where (λ row. is_of tenant user row && is_none row.revoked_at) revoked_at

abbrev pub audit_entry : RevokeSessionInput → AuditEntry
audit_entry input = record {
  tenant_id = input.tenant_id;
  actor_user_id = input.user_id;
  action = "auth.session_revoke";
  resource_type = "session";
  resource_id = input.session_id;
  metadata = input.metadata;
}

abbrev revoke_found :
    Option SessionRow
    → RevokeSessionInput
    → ℕ
    → List SessionRow
    → Option (List SessionRow × AuditEntry)
revoke_found none input now rows = none
revoke_found (some session) input now rows =
    some (revoke_session_by_id input.session_id now none rows, audit_entry input)

-- `revokeSession`: none where it throws that there is no such session; else the rows and what the
-- audit gets.
unfoldable pub revoke_session :
    RevokeSessionInput → ℕ → List SessionRow → Option (List SessionRow × AuditEntry)
unfolding find_owned_session
revoke_session input now rows =
    revoke_found (find_owned_session input.tenant_id input.user_id input.session_id rows) input now
      rows

-- `orderBy(desc(last_used_at), desc(created_at))`, where the database puts nulls first.
abbrev pub is_used_later : SessionRow → SessionRow → Bool
is_used_later a b = used a.last_used_at b.last_used_at (leb b.created_at a.created_at)
  where
    used : Option ℕ → Option ℕ → Bool → Bool
    used none none later = later
    used none (some u) later = true
    used (some t) none later = false
    used (some t) (some u) later = ltb u t || (t == u && later)

abbrev pub get_session_activity_time : SessionRow → ℕ
get_session_activity_time row = elim row.last_used_at [ none ↦ row.created_at | some t ↦ t ]

abbrev first_row_id : List SessionRow → Option String
first_row_id [] = none
first_row_id (row ∷ rows) = some row.id

abbrev or_first : Option String → Option String → Option String
or_first none inferred = inferred
or_first (some id) inferred = some id

abbrev is_the : Option String → String → Bool
is_the none id = false
is_the (some current) id = id =ₛ current

abbrev pub to_summary : Option String → SessionRow → SessionSummary
to_summary current row = record {
  id = row.id;
  ip = row.ip;
  user_agent = row.user_agent;
  created_at = row.created_at;
  last_used_at = row.last_used_at;
  is_current = is_the current row.id;
}

-- The rows that `listActiveSessions` answers, in its order.
unfoldable pub listed_rows : String → String → ℕ → List SessionRow → List SessionRow
listed_rows tenant user now rows =
    sort_by (λ a b. leb (get_session_activity_time b) (get_session_activity_time a))
      (take 20 (sort_by is_used_later (keep (is_active tenant user now) rows)))

unfoldable pub list_active_sessions :
    String → String → Option String → ℕ → List SessionRow → List SessionSummary
unfolding listed_rows
list_active_sessions tenant user current now rows =
    let sorted = listed_rows tenant user now rows in
    map (to_summary (or_first current (first_row_id sorted))) sorted
