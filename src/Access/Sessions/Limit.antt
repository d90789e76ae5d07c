-- ===== src/Access/Sessions/Limit.antt =====
-- How many active sessions a user has, and which.
use cherry_wiki.Base.{
  ℕ, zero, suc, ◌-◌, ◌+◌, ◌≤◌, String, Bool, map, some, ◌&&◌, ◌=ₛ◌, true, false, not, List, [], ◌∷◌,
  ◌++◌, length, keep, take, drop, All-and, All-drop, All-take, All-split, keep-All, All-keep,
  length-drop, length-keep, keep-drop, leb, All, if◌then◌else◌, eq_refl, ◌≡◌, refl, sym, ap, ◌∙◌,
  subst, ◌⊎◌, length-take, take-append-drop, arith, Bool-cases, inl, inr,
}
use mathlib.Core.List.{Perm}
use cherry_wiki.Base.Text.{includes}
use cherry_wiki.Base.Sorting.{
  sort_by, keep-sort_by, length-sort_by, sort_by-All, All-sort_by, sort_by-IsSorted, sort_by-perm,
  IsSorted,
}
use cherry_wiki.Access.Sessions.{
  SessionRow, is_none, is_active, is_older, is_listed, ids_of, revoke_where, sessions_to_revoke,
  max_active_sessions_per_user, revoke_oldest_active_sessions_over_limit, create_session,
  CreateSessionInput, to_row,
}

abbrev unlisted : List String → SessionRow → Bool
unlisted ids row = not (includes ids row.id)

-- The active sessions after a revocation are the unlisted ones of those before.
active-revoke_where :
    (tenant user : String) (now : ℕ) (ids : List String) (rows : List SessionRow)
    → keep (is_active tenant user now) (revoke_where (is_listed tenant user ids) now rows)
      ≡ keep (unlisted ids) (keep (is_active tenant user now) rows)
active-revoke_where tenant user now ids [] = refl
active-revoke_where tenant user now ids (row ∷ rows) =
    ground (arith, active-revoke_where tenant user now ids rows)

includes_later :
    (i : String) (ids : List String) (xs : List SessionRow)
    → All (λ row. unlisted ids row ≡ false) xs
    → All (λ row. unlisted (i ∷ ids) row ≡ false) xs
includes_later i ids [] h = tt
includes_later i ids (x ∷ xs) (e, h) = (ground (arith, e), includes_later i ids xs h)

All-listed : (xs : List SessionRow) → All (λ row. unlisted (ids_of xs) row ≡ false) xs
All-listed [] = tt
All-listed (x ∷ xs) = (rw (eq_refl x.id) refl, includes_later x.id (ids_of xs) xs (All-listed xs))

is_older_total : (a b : SessionRow) → is_older a b ≡ false → is_older b a ≡ true
is_older_total a b h = ground arith

is_older_trans :
    (a b c : SessionRow) → is_older a b ≡ true → is_older b c ≡ true → is_older a c ≡ true
is_older_trans a b c h k = ground arith

none_first :
    (xs : List SessionRow)
    → All {A = SessionRow} (λ y. All (λ (x : SessionRow). x.created_at ≤ y.created_at) []) xs
none_first [] = tt
none_first (x ∷ xs) = (tt, none_first xs)

-- The sessions that a sorted list begins with are older than the others.
older_first :
    (n : ℕ) (xs : List SessionRow)
    → IsSorted is_older xs
    → All (λ y. All (λ x. x.created_at ≤ y.created_at) (take n xs)) (drop n xs)
older_first zero xs h = none_first xs
older_first (suc n) [] h = tt
older_first (suc n) (x ∷ xs) (first, h) =
    All-and (λ y. is_older x y ≡ true) (λ y. All (λ z. z.created_at ≤ y.created_at) (take n xs)) _
      (drop n xs) (λ y e rest. (ground arith, rest)) (All-drop _ n xs first) (older_first n xs h)

module _ (tenant user : String) (now : ℕ) (rows : List SessionRow) where
  abbrev active : List SessionRow
  active = keep (is_active tenant user now) rows

  abbrev sorted : List SessionRow
  sorted = sort_by is_older active

  abbrev excess : ℕ
  excess = length active - max_active_sessions_per_user

  -- The unlisted sessions are few.
  unlisted_bounded :
      length (keep (unlisted (ids_of (take excess sorted))) active) ≤ max_active_sessions_per_user
  unlisted_bounded =
      let p = unlisted (ids_of (take excess sorted)) in
      let same = keep-sort_by is_older p active in
      let tail = ap length (keep-drop p excess sorted (All-listed (take excess sorted))) in
      let few = length-keep p (drop excess sorted) in
      let rest = length-drop excess sorted in
      let all = length-sort_by is_older active in omega arith

  revoke_bounded :
      length (
        keep
          (is_active tenant user now)
          (revoke_oldest_active_sessions_over_limit tenant user now rows))
      ≤ max_active_sessions_per_user
  unfolding revoke_oldest_active_sessions_over_limit sessions_to_revoke
  revoke_bounded = elim (Bool-cases (leb (length active) max_active_sessions_per_user)) [
    | inl few ↦ rw (few, if◌then◌else◌) (ground arith)
    | inr many ↦
        rw (many, if◌then◌else◌)
          (rw (active-revoke_where tenant user now (ids_of (take excess sorted)) rows)
            unlisted_bounded)
  ]

  -- The unlisted sessions are no older than the listed ones.
  unlisted_newest :
      All
        (λ y. All (λ x. x.created_at ≤ y.created_at) (take excess sorted))
        (keep (unlisted (ids_of (take excess sorted))) active)
  unlisted_newest =
      let chosen = take excess sorted in
      let p = unlisted (ids_of chosen) in
      let Older : SessionRow → Type 0 = λ y. All (λ x. x.created_at ≤ y.created_at) chosen in
      let Kept : SessionRow → Type 0 = λ y. p y ≡ true → Older y in
      All-keep Older p active (
        All-sort_by is_older Kept active (
          All-split Kept excess sorted
            (All-and (λ y. p y ≡ false) (λ y. p y ≡ false) Kept chosen
              (λ y e f k. absurd (ground arith)) (All-listed chosen) (All-listed chosen))
            (All-and Older Older Kept (drop excess sorted) (λ y o q k. o)
              (older_first excess sorted
                (sort_by-IsSorted is_older is_older_total is_older_trans active))
              (older_first excess sorted
                (sort_by-IsSorted is_older is_older_total is_older_trans active)))))

  -- What a revocation of the oldest does: nothing, or it revokes as many active sessions as are too
  -- many, which with `others` are the active ones, each once; and those that stay active are no older than these.
  pub Revoked : List SessionRow → Type 0
  Revoked after =
      ((length active ≤ max_active_sessions_per_user) × (after ≡ rows))
      ⊎ ((chosen : List SessionRow) × (length chosen + max_active_sessions_per_user ≡ length active)
          × (others : List SessionRow) × Perm (chosen ++ others) active
          × All (λ x. is_active tenant user now x ≡ true) chosen
          × (after
              ≡ map
                  (λ row.
                    if (row.tenant_id =ₛ tenant && row.user_id =ₛ user)
                      && (includes (ids_of chosen) row.id && is_none row.revoked_at)
                    then record row { revoked_at = some now }
                    else row)
                  rows)
          × All (λ y. All (λ x. x.created_at ≤ y.created_at) chosen)
              (keep (is_active tenant user now) after))

  revoke-Revoked : Revoked (revoke_oldest_active_sessions_over_limit tenant user now rows)
  unfolding revoke_oldest_active_sessions_over_limit sessions_to_revoke Revoked
  revoke-Revoked = elim (Bool-cases (leb (length active) max_active_sessions_per_user)) [
    | inl few ↦ inl (ground arith, rw (few, if◌then◌else◌) refl)
    | inr many ↦
        let chosen = take excess sorted in
        let after = revoke_where (is_listed tenant user (ids_of chosen)) now rows in
        let size = length-take excess sorted in
        let all = length-sort_by is_older active in
        let is_after : revoke_oldest_active_sessions_over_limit tenant user now rows ≡ after =
          rw (many, if◌then◌else◌) refl in
        inr (
          chosen,
          ground arith,
          drop excess sorted,
          subst (λ l. Perm l active) (sym (take-append-drop excess sorted))
              (sort_by-perm is_older active),
          All-take _ excess sorted
              (sort_by-All is_older _ active (keep-All (is_active tenant user now) rows)),
          is_after,
          subst (All (λ y. All (λ x. x.created_at ≤ y.created_at) chosen))
              (sym (active-revoke_where tenant user now (ids_of chosen) rows)
                ∙ ap (keep (is_active tenant user now)) (sym is_after))
              unlisted_newest,
        )
  ]

-- Whatever sessions there are, once a session has been created its user has at most ten active ones.
pub create_session_bounded :
    (input : CreateSessionInput) (random : String) (created_at now : ℕ) (rows : List SessionRow)
    → length (
        keep
          (is_active input.tenant_id input.user_id now)
          (create_session input random created_at now rows).1)
      ≤ max_active_sessions_per_user
unfolding create_session
create_session_bounded input random created_at now rows =
    revoke_bounded input.tenant_id input.user_id now (rows ++ to_row input random created_at ∷ [])

-- When a session is created and its user then has no more than ten active ones, nothing else changes; otherwise as many of the user's active sessions as are too many are chosen, each once, exactly the rows of the user that have their ids and are not revoked are revoked, and the sessions that stay active are no older than any that was chosen.
pub create_session-Revoked :
    (input : CreateSessionInput) (random : String) (created_at now : ℕ) (rows : List SessionRow)
    → Revoked input.tenant_id input.user_id now
        (rows ++ to_row input random created_at ∷ [])
        (create_session input random created_at now rows).1
unfolding create_session
create_session-Revoked input random created_at now rows =
    revoke-Revoked input.tenant_id input.user_id now (rows ++ to_row input random created_at ∷ [])
