-- ===== src/Access/Groups/Joined.antt =====
-- The members of a group after an update.
use cherry_wiki.Base.{
  String, Bool, true, not, ◌&&◌, ◌||◌, Option, some, List, [], ◌∷◌, ◌++◌, map, keep, ◌=ₛ◌, eq_iff,
  eq_refl, if◌then◌else◌, ◌≡◌, refl, ap, ◌∙◌, arith, Bool-cases, ◌⊎◌, inl, inr,
}
use cherry_wiki.Base.Text.{includes}
use cherry_wiki.Base.Sets.{insert_all, includes-insert_all}
use cherry_wiki.Access.Groups.{
  MemberRow, UserRow, Tables, MemberChange, added, removed, diff_members, filled,
}
use cherry_wiki.Access.Groups.Service.{Context, Event, user_changed, replace_group_members}
use cherry_wiki.Access.Groups.Admin.{changed_user}
use cherry_wiki.Access.Groups.Versions.{plus}
use cherry_wiki.Access.Groups.Members.{told_user, is_member, version_of_user, members_cleared}

includes-users-append :
    (xs ys : List MemberChange) (u : String)
    → includes (map changed_user (xs ++ ys)) u
      ≡ (includes (map changed_user xs) u || includes (map changed_user ys) u)
includes-users-append [] ys u = refl
includes-users-append (x ∷ xs) ys u = ground (arith, includes-users-append xs ys u)

kept_changes :
    (f : String → MemberChange)
    → ((x : String) → changed_user (f x) ≡ x)
    → (q : String → Bool) (xs : List String) (u : String)
    → includes (map changed_user (map f (keep q xs))) u ≡ (includes xs u && q u)
kept_changes f same q [] u = refl
kept_changes f same q (x ∷ xs) u =
    let rest = kept_changes f same q xs u in
    let id = ap (λ y. y =ₛ u) (same x) in
    elim (Bool-cases (x =ₛ u)) [
      | inl here ↦
          let at = ap q ((eq_iff x u).0 here) in
          elim (Bool-cases (q x)) [
            | inl keeps ↦ rw (keeps, if◌then◌else◌) (ground (arith, rest, id, at, here, keeps))
            | inr drops ↦ rw (drops, if◌then◌else◌) (ground (arith, rest, at, here, drops))
          ]
      | inr other ↦ elim (Bool-cases (q x)) [
        | inl keeps ↦ rw (keeps, if◌then◌else◌) (ground (arith, rest, id, other))
        | inr drops ↦ rw (drops, if◌then◌else◌) (ground (arith, rest, other))
      ]
    ]

-- The users that a change of the members concerns.
pub diff_members_lem :
    (current wanted : List String) (u : String)
    → includes (map changed_user (diff_members current wanted)) u ≡ (
        (includes wanted u && not (includes current u))
        || (includes current u && not (includes wanted u)))
diff_members_lem current wanted u =
    let joins = map added (keep (λ x. not (includes current x)) (insert_all wanted [])) in
    let leaves = map removed (keep (λ x. not (includes wanted x)) (insert_all current [])) in
    let first =
      kept_changes added (λ x. refl) (λ x. not (includes current x)) (insert_all wanted []) u in
    let second =
      kept_changes removed (λ x. refl) (λ x. not (includes wanted x)) (insert_all current []) u in
    let some_wanted = includes-insert_all wanted [] u in
    let some_current = includes-insert_all current [] u in
    includes-users-append joins leaves u ∙ ground (arith, first, second, some_wanted, some_current)

pub told_changed :
    (tenant u : String) (changes : List MemberChange)
    → told_user tenant u (map (λ change. user_changed tenant (changed_user change)) changes)
      ≡ includes (map changed_user changes) u
told_changed tenant u [] = refl
told_changed tenant u (change ∷ changes) =
    ground (arith, told_changed tenant u changes, eq_refl tenant)

pub is_member-append :
    (xs ys : List MemberRow) (tenant group u : String)
    → is_member (xs ++ ys) tenant group u
      ≡ (is_member xs tenant group u || is_member ys tenant group u)
is_member-append [] ys tenant group u = refl
is_member-append (x ∷ xs) ys tenant group u = ground (arith, is_member-append xs ys tenant group u)

module _ (c : Context) where
  pub new_members :
      (group u : String) (ids : List String)
      → is_member
          (map
            (λ id. record {
              tenant_id = c.tenant_id;
              group_id = group;
              user_id = id;
              created_at = c.now;
            })
            ids)
          c.tenant_id
          group
          u
        ≡ includes ids u
  new_members group u [] = refl
  new_members group u (id ∷ ids) =
      ground (arith, new_members group u ids, eq_refl c.tenant_id, eq_refl group)

  -- After an update the members are those that are asked for, and who joins or leaves gets a new
  -- permission version and a message.
  pub record HasMembers (group : String) (wanted : Option (List String))
      (before after : List MemberRow) (users users' : List UserRow) (published : List Event)
      : Type 0 where
    pub members_exact :
        (ids : List String)
        → wanted ≡ some ids
        → (u : String) → is_member after c.tenant_id group u ≡ includes (filled ids) u
    pub users_told :
        (u : String)
        → (is_member after c.tenant_id group u ≡ is_member before c.tenant_id group u)
          ⊎ ((told_user c.tenant_id u published ≡ true)
              × (version_of_user c u users' ≡ plus 1 (version_of_user c u users)))

  pub members_replaced :
      (group u : String) (ids : List String) (db : Tables)
      → is_member (replace_group_members c group ids db).members c.tenant_id group u
        ≡ includes ids u
  members_replaced group u ids db =
      let new_rows =
        map
          (λ id. record {
            tenant_id = c.tenant_id;
            group_id = group;
            user_id = id;
            created_at = c.now;
          })
          ids in
      is_member-append
        (keep (λ row. not (row.tenant_id =ₛ c.tenant_id && row.group_id =ₛ group)) db.members)
        new_rows c.tenant_id group u
      ∙ (ap (λ b. b || is_member new_rows c.tenant_id group u)
            (members_cleared c db.members group u)
          ∙ new_members group u ids)
