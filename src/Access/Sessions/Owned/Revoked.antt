-- ===== src/Access/Sessions/Owned/Revoked.antt =====
-- A revoked session is not listed.
use cherry_wiki.Base.{
  ℕ, String, Bool, true, false, not, some_of, ◌&&◌, Option, none, some, List, [], ◌∷◌, map, keep,
  All, All-take, ◌≡◌, refl, ap, arith, ◌=ₛ◌, if◌then◌else◌, Bool-cases, Option-cases, inl, inr, ◌⊎◌,
}
use cherry_wiki.Base.Sorting.{sort_by-All}
use cherry_wiki.Access.Sessions.{SessionRow, is_of, is_active}
use cherry_wiki.Access.Sessions.Owned.{
  RevokeSessionInput, audit_entry, first_of, has_id, find_owned_session, revoke_session_by_id,
  revoke_session, listed_rows, list_active_sessions, to_summary,
}

-- No active session has the id of a revoked one.
none_active :
    (tenant user id : String) (now at : ℕ) (last : Option ℕ) (rows : List SessionRow)
    → All
        (λ row. (row.id =ₛ id) ≡ false)
        (keep (is_active tenant user now) (revoke_session_by_id id at last rows))
unfolding revoke_session_by_id
none_active tenant user id now at last [] = tt
none_active tenant user id now at last (row ∷ rows) = elim (Bool-cases (row.id =ₛ id)) [
  | inl e ↦
      rw (e, if◌then◌else◌)
        (elim (Bool-cases (is_of tenant user row)) [
          | inl mine ↦ rw mine (none_active tenant user id now at last rows)
          | inr other ↦ rw other (none_active tenant user id now at last rows)
        ])
  | inr e ↦ rw (e, if◌then◌else◌) (ground (arith, none_active tenant user id now at last rows))
]

summaries_of :
    (id : String) (current : Option String) (rows : List SessionRow)
    → All (λ row. (row.id =ₛ id) ≡ false) rows
    → All (λ s. (s.id =ₛ id) ≡ false) (map (to_summary current) rows)
summaries_of id current [] h = tt
summaries_of id current (row ∷ rows) (e, h) = (e, summaries_of id current rows h)

not_listed :
    (tenant user id : String) (current : Option String) (now at : ℕ) (last : Option ℕ)
    (rows : List SessionRow)
    → All
        (λ s. (s.id =ₛ id) ≡ false)
        (list_active_sessions tenant user current now (revoke_session_by_id id at last rows))
unfolding list_active_sessions listed_rows
not_listed tenant user id current now at last rows = summaries_of id _ _ (
    sort_by-All _ _ _
      (All-take _ 20 _ (sort_by-All _ _ _ (none_active tenant user id now at last rows))))

others_kept :
    (id : String) (at : ℕ) (last : Option ℕ) (rows : List SessionRow)
    → keep (λ row. not (has_id id row)) (revoke_session_by_id id at last rows)
      ≡ keep (λ row. not (has_id id row)) rows
unfolding revoke_session_by_id
others_kept id at last [] = refl
others_kept id at last (row ∷ rows) = elim (Bool-cases (row.id =ₛ id)) [
  | inl e ↦ rw (e, if◌then◌else◌) (rw e (others_kept id at last rows))
  | inr e ↦ rw (e, if◌then◌else◌) (rw e (ap (λ l. row ∷ l) (others_kept id at last rows)))
]

some_owned :
    (test : SessionRow → Bool) (row : SessionRow) (rows : List SessionRow)
    → first_of test rows ≡ some row
    → some_of test rows ≡ true
some_owned test found [] e = absurd (cc)
some_owned test found (row ∷ rows) e = elim (Bool-cases (test row)) [
  | inl here ↦ rw here refl
  | inr there ↦ rw there (some_owned test found rows (ground arith))
]

none_owned :
    (test : SessionRow → Bool) (rows : List SessionRow)
    → first_of test rows ≡ none
    → All (λ row. test row ≡ false) rows
none_owned test [] e = tt
none_owned test (row ∷ rows) e = elim (Bool-cases (test row)) [
  | inl here ↦ absurd (ground arith)
  | inr there ↦ (there, none_owned test rows (ground arith))
]

-- A user's revocation of a session is refused exactly when no row of the user has its id; otherwise a row of the user has it, the audit gets its entry, the rows with other ids are as before, and no list of active sessions, of any user and at any time, has the session any more.
pub revoke_session-unlisted :
    (input : RevokeSessionInput) (now : ℕ) (rows : List SessionRow)
    → ((revoke_session input now rows ≡ none)
        × All
            (λ row.
              ((row.tenant_id =ₛ input.tenant_id && row.user_id =ₛ input.user_id)
                && row.id =ₛ input.session_id)
              ≡ false)
            rows)
      ⊎ ((after : List SessionRow) × (some_of
              (λ row.
                (row.tenant_id =ₛ input.tenant_id && row.user_id =ₛ input.user_id)
                && row.id =ₛ input.session_id)
              rows
            ≡ true)
          × (revoke_session input now rows ≡ some (after, audit_entry input))
          × (keep (λ row. not (row.id =ₛ input.session_id)) after
              ≡ keep (λ row. not (row.id =ₛ input.session_id)) rows)
          × ((tenant user : String) (current : Option String) (later : ℕ)
              → All
                  (λ s. (s.id =ₛ input.session_id) ≡ false)
                  (list_active_sessions tenant user current later after)))
unfolding revoke_session find_owned_session
revoke_session-unlisted input now rows =
    let owned =
      first_of (λ row. is_of input.tenant_id input.user_id row && has_id input.session_id row)
        rows in
    elim (Option-cases owned) [
      | inl missing ↦ inl (rw missing refl, none_owned _ rows missing)
      | inr (session, found) ↦ inr (
        revoke_session_by_id input.session_id now none rows,
        some_owned _ session rows found,
        rw found refl,
        others_kept input.session_id now none rows,
        λ tenant user current later.
            not_listed tenant user input.session_id current later now none rows,
      )
    ]
