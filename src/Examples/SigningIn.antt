-- ===== src/Examples/SigningIn.antt =====
-- A user with ten sessions who signs in once more.
use cherry_wiki.Base.{
  Bool, All, List, Option, String, [], false, keep, length, map, none, not, some_of, refl, some,
  suc, true, ℕ, ◌&&◌, ◌++◌, ◌=ₛ◌, ◌∷◌, ◌≡◌, ◌≤◌, ◌⊎◌,
}
use cherry_wiki.Base.Sorting.{insert_by, sort_by}
use cherry_wiki.Access.Sessions.{
  SessionRow, CreateSessionInput, is_active, ids_of, to_row, create_session, sessions_to_revoke,
  revoke_oldest_active_sessions_over_limit, max_active_sessions_per_user,
}
use cherry_wiki.Access.Sessions.Owned.{
  RevokeSessionInput, revoke_session, audit_entry, list_active_sessions, listed_rows,
}
use cherry_wiki.Access.Sessions.Owned.Revoked.{revoke_session-unlisted}
use cherry_wiki.Access.Sessions.Limit.{Revoked, create_session_bounded, create_session-Revoked}

abbrev input : CreateSessionInput
input = record {
  id = none;
  tenant_id = "t";
  user_id = "u";
  refresh_token_hash = "h";
  expires_at = 1000;
  ip = none;
  user_agent = none;
  last_used_at = none;
}

abbrev signed_in : ℕ → List String → List SessionRow
signed_in t [] = []
signed_in t (id ∷ ids) = to_row input id t ∷ signed_in (suc t) ids

-- The third is the oldest.
abbrev rows : List SessionRow
rows =
    signed_in 7 ("a" ∷ "b" ∷ []) ++ signed_in 5 ("c" ∷ "d" ∷ "e" ∷ "f" ∷ "g" ∷ "h" ∷ "i" ∷ "j" ∷ [])

create_session_bounded_example :
    length (keep (is_active "t" "u" 20) (create_session input "k" 20 20 rows).1)
    ≤ max_active_sessions_per_user
create_session_bounded_example = create_session_bounded input "k" 20 20 rows

create_session-Revoked_example :
    Revoked "t" "u" 20 (rows ++ to_row input "k" 20 ∷ []) (create_session input "k" 20 20 rows).1
create_session-Revoked_example = create_session-Revoked input "k" 20 20 rows

left_active :
    ids_of (keep (is_active "t" "u" 20) (create_session input "k" 20 20 rows).1)
    ≡ "a" ∷ "b" ∷ "d" ∷ "e" ∷ "f" ∷ "g" ∷ "h" ∷ "i" ∷ "j" ∷ "k" ∷ []
unfolding create_session revoke_oldest_active_sessions_over_limit sessions_to_revoke insert_by
    sort_by
left_active = refl

abbrev revocation : RevokeSessionInput
revocation = record {
  tenant_id = "t";
  user_id = "u";
  session_id = "d";
  metadata = record { ip = none; user_agent = none; request_id = some "r" };
}

revoke_session-unlisted_example :
    ((revoke_session revocation 20 rows ≡ none)
      × All (λ row. ((row.tenant_id =ₛ "t" && row.user_id =ₛ "u") && row.id =ₛ "d") ≡ false) rows)
    ⊎ ((after : List SessionRow) × (some_of
            (λ row. (row.tenant_id =ₛ "t" && row.user_id =ₛ "u") && row.id =ₛ "d")
            rows
          ≡ true)
        × (revoke_session revocation 20 rows ≡ some (after, audit_entry revocation))
        × (keep (λ row. not (row.id =ₛ "d")) after ≡ keep (λ row. not (row.id =ₛ "d")) rows)
        × ((tenant user : String) (current : Option String) (later : ℕ)
            → All
                (λ s. (s.id =ₛ "d") ≡ false)
                (list_active_sessions tenant user current later after)))
revoke_session-unlisted_example = revoke_session-unlisted revocation 20 rows

-- The latest first; without a given session the first counts as the current one.
listed_test :
    map {B = String × Bool}
      (λ s. (s.id, s.is_current))
      (list_active_sessions "t" "u" none 20 (signed_in 7 ("a" ∷ "b" ∷ [])))
    ≡ ("b", true) ∷ ("a", false) ∷ []
unfolding list_active_sessions listed_rows insert_by sort_by
listed_test = refl
