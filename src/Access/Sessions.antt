-- ===== src/Access/Sessions.antt =====
-- createSession of apps/api/src/auth/session.service.ts, and the table sessions of packages/shared/src/schema/core.ts:
-- the sessions of the users, of whom each has a limited number. Instants are milliseconds; a call is
-- one step.
pub mod Limit
pub mod Owned
use cherry_wiki.Base.{
  ℕ, ◌-◌, String, Bool, true, false, ◌&&◌, Option, none, some, List, [], ◌∷◌, ◌++◌, map, length,
  keep, take, ltb, leb, ◌==◌, ◌=ₛ◌, if◌then◌else◌,
}
use cherry_wiki.Base.Text.{includes}
use cherry_wiki.Base.Sorting.{sort_by}

pub record SessionRow : Type 0 where
  pub id : String
  pub tenant_id : String
  pub user_id : String
  pub refresh_token_hash : String
  pub ip : Option String
  pub user_agent : Option String
  pub last_used_at : Option ℕ
  pub expires_at : ℕ
  pub revoked_at : Option ℕ
  pub created_at : ℕ

-- What `createSession` is given; without an `id`, the row gets a random one.
pub record CreateSessionInput : Type 0 where
  pub id : Option String
  pub tenant_id : String
  pub user_id : String
  pub refresh_token_hash : String
  pub expires_at : ℕ
  pub ip : Option String
  pub user_agent : Option String
  pub last_used_at : Option ℕ

abbrev pub max_active_sessions_per_user : ℕ
max_active_sessions_per_user = 10

abbrev or_else : Option String → String → String
or_else none other = other
or_else (some id) other = id

-- The row that is inserted, at the clock of the database.
abbrev pub to_row : CreateSessionInput → String → ℕ → SessionRow
to_row input random created_at = record {
  id = or_else input.id random;
  tenant_id = input.tenant_id;
  user_id = input.user_id;
  refresh_token_hash = input.refresh_token_hash;
  ip = input.ip;
  user_agent = input.user_agent;
  last_used_at = input.last_used_at;
  expires_at = input.expires_at;
  revoked_at = none;
  created_at = created_at;
}

abbrev pub is_none : Option ℕ → Bool
is_none none = true
is_none (some t) = false

abbrev pub is_of : String → String → SessionRow → Bool
is_of tenant user row = (row.tenant_id =ₛ tenant) && (row.user_id =ₛ user)

abbrev pub is_active : String → String → ℕ → SessionRow → Bool
is_active tenant user now row =
    is_of tenant user row && (is_none row.revoked_at && ltb now row.expires_at)

-- `orderBy(asc(created_at))`, where equal instants keep the order of the table.
abbrev pub is_older : SessionRow → SessionRow → Bool
is_older a b = leb a.created_at b.created_at

abbrev pub ids_of : List SessionRow → List String
ids_of = map (λ row. row.id)

-- An update of the column `revoked_at` of the rows that satisfy a test.
abbrev pub revoke_where : (SessionRow → Bool) → ℕ → List SessionRow → List SessionRow
revoke_where test at = map (λ row. if test row then record row { revoked_at = some at } else row)

-- The oldest active sessions that are too many.
unfoldable pub sessions_to_revoke : String → String → ℕ → List SessionRow → List SessionRow
sessions_to_revoke tenant user now rows =
    let active = keep (is_active tenant user now) rows in
    take (length active - max_active_sessions_per_user) (sort_by is_older active)

abbrev pub is_listed : String → String → List String → SessionRow → Bool
is_listed tenant user ids row =
    is_of tenant user row && (includes ids row.id && is_none row.revoked_at)

unfoldable pub revoke_oldest_active_sessions_over_limit :
    String → String → ℕ → List SessionRow → List SessionRow
revoke_oldest_active_sessions_over_limit tenant user now rows =
    if leb (length (keep (is_active tenant user now) rows)) max_active_sessions_per_user
    then rows
    else revoke_where (is_listed tenant user (ids_of (sessions_to_revoke tenant user now rows))) now
        rows

unfoldable pub create_session :
    CreateSessionInput → String → ℕ → ℕ → List SessionRow → SessionRow × List SessionRow
create_session input random created_at now rows =
    let session = to_row input random created_at in
    (
      session,
      revoke_oldest_active_sessions_over_limit session.tenant_id session.user_id now
          (rows ++ session ∷ []),
    )
