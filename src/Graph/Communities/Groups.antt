-- ===== src/Graph/Communities/Groups.antt =====
-- The groups are the nodes of each label, in order, and no label has two.
use cherry_wiki.Base.{
  ℕ, ◌≤◌, String, Bool, false, List, [], ◌∷◌, ◌++◌, length, keep, All, ◌==◌, ◌=ₛ◌, eq_iff, eq_refl,
  if◌then◌else◌, ◌≡◌, refl, sym, ap, ◌∙◌, subst, arith, Bool-cases, inl, inr,
}
use mathlib.Core.List.{append-nil, append_assoc}
use cherry_wiki.Base.Sorting.{sort_by, keep-sort_by, sort_by-All}
use cherry_wiki.Graph.Communities.{Group, add_member, group_from, comes_first, ordered_groups}

keep-append :
    {A : Type 0} (p : A → Bool) (xs ys : List A) → keep p (xs ++ ys) ≡ keep p xs ++ keep p ys
keep-append p [] ys = refl
keep-append p (x ∷ xs) ys = ground (arith, keep-append p xs ys)

-- How many groups have the label.
abbrev pub groups_of : String → List Group → ℕ
groups_of v groups = length (keep (λ g. g.value =ₛ v) groups)

module _ (value : String → String) where
  -- The nodes of a label.
  abbrev pub members_of : String → List String → List String
  members_of v ids = keep (λ x. value x =ₛ v) ids

  pub record AreGroups (ids : List String) (groups : List Group) : Type 0 where
    pub exact : All (λ g. g.members ≡ members_of g.value ids) groups
    pub single : (v : String) → groups_of v groups ≤ 1
    pub covered : All (λ x. 1 ≤ groups_of (value x) groups) ids

  groups_of-add_member :
      (v w id : String) (groups : List Group)
      → groups_of v (add_member w id groups) ≡ (
          if w =ₛ v
          then (if groups_of v groups == 0 then 1 else groups_of v groups)
          else groups_of v groups)
  groups_of-add_member v w id [] = ground arith
  groups_of-add_member v w id (g ∷ groups) = elim (Bool-cases (g.value =ₛ w)) [
    | inl same ↦
        let here = ap (λ u. u =ₛ v) ((eq_iff g.value w).0 same) in
        rw (same, if◌then◌else◌) (ground arith)
    | inr other ↦
        rw (other, if◌then◌else◌)
          (ground (
            arith,
            groups_of-add_member v w id groups,
            eq_iff g.value v,
            eq_iff w v,
            eq_iff g.value w,
          ))
  ]

  one_more :
      (v id : String) (ids : List String)
      → members_of v (ids ++ id ∷ []) ≡ members_of v ids ++ (if value id =ₛ v then id ∷ [] else [])
  one_more v id ids = keep-append (λ x. value x =ₛ v) ids (id ∷ [])

  -- The groups of other labels stay as they are.
  others_exact :
      (id : String) (ids : List String) (groups : List Group)
      → groups_of (value id) groups ≡ 0
      → All (λ g. g.members ≡ members_of g.value ids) groups
      → All (λ g. g.members ≡ members_of g.value (ids ++ id ∷ [])) groups
  others_exact id ids [] none_of h = tt
  others_exact id ids (g ∷ groups) none_of (e, h) = elim (Bool-cases (g.value =ₛ value id)) [
    | inl same ↦ absurd (ground arith)
    | inr other ↦
        let apart : (value id =ₛ g.value) ≡ false =
          ground (arith, eq_iff g.value (value id), eq_iff (value id) g.value) in
        (
          e
              ∙ sym (
                  one_more g.value id ids
                  ∙ rw (apart, if◌then◌else◌) (append-nil (members_of g.value ids))),
          others_exact id ids groups (ground arith) h,
        )
  ]

  add_member_exact :
      (id : String) (ids : List String) (groups : List Group)
      → groups_of (value id) groups ≤ 1
      → (groups_of (value id) groups ≡ 0 → members_of (value id) ids ≡ [])
      → All (λ g. g.members ≡ members_of g.value ids) groups
      → All (λ g. g.members ≡ members_of g.value (ids ++ id ∷ [])) (add_member (value id) id groups)
  add_member_exact id ids [] single new h = (
    sym (
        one_more (value id) id ids
        ∙ rw (eq_refl (value id), if◌then◌else◌) (ap (λ l. l ++ id ∷ []) (new refl))),
    tt,
  )
  add_member_exact id ids (g ∷ groups) single new (e, h) = elim (Bool-cases (g.value =ₛ value id)) [
    | inl same ↦
        let at = (eq_iff g.value (value id)).0 same in
        rw (same, if◌then◌else◌)
          (
            ap (λ l. l ++ id ∷ []) e
                ∙ sym (one_more g.value id ids ∙ rw (at, eq_refl (value id), if◌then◌else◌) refl),
            others_exact id ids groups (ground arith) h,
          )
    | inr other ↦
        let apart : (value id =ₛ g.value) ≡ false =
          ground (arith, eq_iff g.value (value id), eq_iff (value id) g.value) in
        rw (other, if◌then◌else◌)
          (
            e
                ∙ sym (
                    one_more g.value id ids
                    ∙ rw (apart, if◌then◌else◌) (append-nil (members_of g.value ids))),
            add_member_exact id ids groups (ground arith) (λ z. new (ground arith)) h,
          )
  ]

  nobody_of :
      (w : String) (groups : List Group) (ids : List String)
      → groups_of w groups ≡ 0
      → All (λ x. 1 ≤ groups_of (value x) groups) ids
      → members_of w ids ≡ []
  nobody_of w groups [] z h = refl
  nobody_of w groups (x ∷ ids) z (one, h) = elim (Bool-cases (value x =ₛ w)) [
    | inl same ↦
        let at = ap (λ u. groups_of u groups) ((eq_iff (value x) w).0 same) in absurd (omega arith)
    | inr other ↦ rw (other, if◌then◌else◌) (nobody_of w groups ids z h)
  ]

  covered_more :
      (w id : String) (groups : List Group) (ids : List String)
      → All (λ x. 1 ≤ groups_of (value x) groups) ids
      → All (λ x. 1 ≤ groups_of (value x) (add_member w id groups)) ids
  covered_more w id groups [] h = tt
  covered_more w id groups (x ∷ ids) (one, h) =
      (ground (arith, groups_of-add_member (value x) w id groups), covered_more w id groups ids h)

  All-snoc :
      (P : String → Type 0) (xs : List String) (x : String) → All P xs → P x → All P (xs ++ x ∷ [])
  All-snoc P [] x h p = (p, tt)
  All-snoc P (y ∷ xs) x (q, h) p = (q, All-snoc P xs x h p)

  add_member-AreGroups :
      (id : String) (ids : List String) (groups : List Group)
      → AreGroups ids groups
      → AreGroups (ids ++ id ∷ []) (add_member (value id) id groups)
  add_member-AreGroups id ids groups a = record {
    exact =
        add_member_exact id ids groups (a.single (value id))
          (λ z. nobody_of (value id) groups ids z a.covered) a.exact;
    single = λ v. ground (arith, groups_of-add_member v (value id) id groups, a.single v);
    covered =
        All-snoc (λ x. 1 ≤ groups_of (value x) (add_member (value id) id groups)) ids id
          (covered_more (value id) id groups ids a.covered)
          (ground
            (arith, groups_of-add_member (value id) (value id) id groups, eq_refl (value id)));
  }

  group_from-AreGroups :
      (ids done : List String) (groups : List Group)
      → AreGroups done groups
      → AreGroups (done ++ ids) (group_from value ids groups)
  group_from-AreGroups [] done groups a = subst (λ l. AreGroups l groups) (sym (append-nil done)) a
  group_from-AreGroups (id ∷ ids) done groups a =
      subst (λ l. AreGroups l (group_from value ids (add_member (value id) id groups)))
        (append_assoc done (id ∷ []) ids)
        (group_from-AreGroups ids (done ++ id ∷ []) (add_member (value id) id groups)
          (add_member-AreGroups id done groups a))

  covered_sorted :
      (groups : List Group) (ids : List String)
      → All (λ x. 1 ≤ groups_of (value x) groups) ids
      → All (λ x. 1 ≤ groups_of (value x) (sort_by comes_first groups)) ids
  covered_sorted groups [] h = tt
  covered_sorted groups (x ∷ ids) (one, h) = (
    omega (arith, keep-sort_by comes_first (λ g. g.value =ₛ value x) groups),
    covered_sorted groups ids h,
  )

  pub ordered_groups-AreGroups : (ids : List String) → AreGroups ids (ordered_groups value ids)
  ordered_groups-AreGroups ids =
      let groups = group_from value ids [] in
      let a =
        group_from-AreGroups ids [] []
          (record { exact = tt; single = λ v. omega arith; covered = tt }) in
      record {
        exact = sort_by-All comes_first (λ g. g.members ≡ members_of g.value ids) groups a.exact;
        single =
            λ v. omega (arith, a.single v, keep-sort_by comes_first (λ g. g.value =ₛ v) groups);
        covered = covered_sorted groups ids a.covered;
      }
