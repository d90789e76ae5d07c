-- ===== src/Access/Groups/Maps.antt =====
-- What the maps of permissions hold: those of a request, and those of the table.
use cherry_wiki.Base.{
  String, Bool, true, false, not, ◌&&◌, ◌||◌, List, [], ◌∷◌, ◌++◌, some_of, every, ◌=ₛ◌, eq_iff,
  eq_refl, if◌then◌else◌, set_key, ◌≡◌, refl, sym, ap, ◌∙◌, subst, arith, Bool-cases, inl, inr,
}
use cherry_wiki.Base.Text.{includes, trim, trim_start, trim_end, is_space}
use cherry_wiki.Base.Sets.{
  text_le, insert_all, IsDistinct, none_twice, includes-sort, sort-IsDistinct, includes-insert,
  includes-insert_all, insert_all-IsDistinct,
}
use cherry_wiki.Base.Sorting.{sort_by}
use cherry_wiki.Access.Roles.{permission_points, is_permission_point}
use cherry_wiki.Access.Groups.{
  validation_error, Outcome, refused, done, next, PermissionMap, empty_map, put, filled,
  PermissionInput, normalize_permission_list, normalize_permissions,
}

pub every_at :
    (q : String → Bool) (xs : List String) (x : String)
    → every q xs ≡ true
    → includes xs x ≡ true
    → q x ≡ true
every_at q [] x h e = absurd (cc)
every_at q (y ∷ xs) x h e = elim (Bool-cases (y =ₛ x)) [
  | inl same ↦ sym (ap q ((eq_iff y x).0 same)) ∙ ground arith
  | inr other ↦ every_at q xs x (ground arith) (ground arith)
]

pub every_from :
    (q : String → Bool) (xs : List String)
    → ((x : String) → includes xs x ≡ true → q x ≡ true)
    → every q xs ≡ true
every_from q [] f = refl
every_from q (x ∷ xs) f =
    let here = f x (ground (arith, eq_refl x)) in
    let rest = every_from q xs (λ y e. f y (ground (arith, e))) in ground (arith, here, rest)

-- A point is a text that trimming leaves, and not the empty one.
trimmed_points : every (λ p. trim p =ₛ p && not (p =ₛ "")) permission_points ≡ true
unfolding trim trim_start trim_end is_space
trimmed_points = refl

point-trim : (p : String) → is_permission_point p ≡ true → (trim p ≡ p) × ((p =ₛ "") ≡ false)
unfolding is_permission_point
point-trim p e =
    let both = every_at (λ q. trim q =ₛ q && not (q =ₛ "")) permission_points p trimmed_points e in
    ((eq_iff (trim p) p).0 (ground arith), ground arith)

-- Points are kept as they are.
pub filled_same : (ps : List String) → every is_permission_point ps ≡ true → filled ps ≡ ps
filled_same [] h = refl
filled_same (p ∷ ps) h =
    let (same, full) = point-trim p (ground arith) in
    rw (same, full, not, if◌then◌else◌) (ap (λ l. p ∷ l) (filled_same ps (ground arith)))

filled-append : (xs ys : List String) → filled (xs ++ ys) ≡ filled xs ++ filled ys
filled-append [] ys = refl
filled-append (x ∷ xs) ys = ground (arith, filled-append xs ys)

pub includes-append :
    (xs ys : List String) (p : String) → includes (xs ++ ys) p ≡ (includes xs p || includes ys p)
includes-append [] ys p = refl
includes-append (x ∷ xs) ys p = ground (arith, includes-append xs ys p)

-- What a list that is normalized comes to.
pub record IsNormal (ps v : List String) : Type 0 where
  pub among : (p : String) → includes v p ≡ includes (filled ps) p
  pub distinct : IsDistinct v
  pub points : every is_permission_point v ≡ true

abbrev pub value : {A : Type 0} → A → Outcome A → A
value a (refused e) = a
value a (done b) = b

good_list :
    (ps : List String)
    → every is_permission_point (filled ps) ≡ true
    → IsNormal ps (sort_by text_le (insert_all (filled ps) []))
good_list ps good =
    let same : (p : String)
        → includes (sort_by text_le (insert_all (filled ps) [])) p ≡ includes (filled ps) p =
      λ p. includes-sort (insert_all (filled ps) []) p ∙ includes-insert_all (filled ps) [] p in
    record {
      among = same;
      distinct =
          sort-IsDistinct (insert_all (filled ps) [])
            (insert_all-IsDistinct (filled ps) [] none_twice);
      points =
          every_from is_permission_point (sort_by text_le (insert_all (filled ps) []))
            (λ x e. every_at is_permission_point (filled ps) x good (sym (same x) ∙ e));
    }

good_or_refused :
    (b : Bool) (ps v : List String)
    → every is_permission_point (filled ps) ≡ b
    → (if b then done (sort_by text_le (insert_all (filled ps) [])) else refused validation_error)
      ≡ done v
    → IsNormal ps v
good_or_refused true ps v good e = subst (IsNormal ps) (ap (value []) e) (good_list ps good)
good_or_refused false ps v good e = absurd (cc)

pub normalize_permission_list-IsNormal :
    (ps v : List String) → normalize_permission_list ps ≡ done v → IsNormal ps v
unfolding normalize_permission_list
normalize_permission_list-IsNormal ps v e =
    good_or_refused (every is_permission_point (filled ps)) ps v refl e

-- The map holds exactly those permissions.
pub record IsMapOf (m : PermissionMap) (has : String → String → Bool) : Type 0 where
  pub member : (k p : String) → includes (m.at k) p ≡ has k p
  pub distinct_at : (k : String) → IsDistinct (m.at k)
  pub points_at : (k : String) → every is_permission_point (m.at k) ≡ true
  pub keyed : (k p : String) → includes (m.at k) p ≡ true → includes m.keys k ≡ true

-- A request asks for a permission of an id, white space aside.
unfoldable pub is_requested : List PermissionInput → String → String → Bool
is_requested items k p =
    some_of (λ item. not (k =ₛ "") && (trim item.id =ₛ k && includes (filled item.permissions) p))
      items

pub IsMapOf-same :
    (m : PermissionMap) (has has' : String → String → Bool)
    → ((k p : String) → has k p ≡ has' k p)
    → IsMapOf m has
    → IsMapOf m has'
IsMapOf-same m has has' same h = record {
  member = λ k p. h.member k p ∙ same k p;
  distinct_at = h.distinct_at;
  points_at = h.points_at;
  keyed = h.keyed;
}

pub empty_map-IsMapOf : IsMapOf empty_map (λ k p. false)
empty_map-IsMapOf = record {
  member = λ k p. refl;
  distinct_at = λ k. none_twice;
  points_at = λ k. refl;
  keyed = λ k p e. absurd (cc);
}

pub put-IsMapOf :
    (m : PermissionMap) (has : String → String → Bool) (id : String) (ps v : List String)
    → IsMapOf m has
    → IsNormal ps v
    → IsMapOf (put id v m) (λ k p. if id =ₛ k then includes (filled ps) p else has k p)
put-IsMapOf m has id ps v h n = record {
  member = λ k p. elim (Bool-cases (id =ₛ k)) [
    | inl same ↦ rw (same, if◌then◌else◌) (n.among p)
    | inr other ↦ rw (other, if◌then◌else◌) (h.member k p)
  ];
  distinct_at = λ k. elim (Bool-cases (id =ₛ k)) [
    | inl same ↦ rw (same, if◌then◌else◌) n.distinct
    | inr other ↦ rw (other, if◌then◌else◌) (h.distinct_at k)
  ];
  points_at = λ k. elim (Bool-cases (id =ₛ k)) [
    | inl same ↦ rw (same, if◌then◌else◌) n.points
    | inr other ↦ rw (other, if◌then◌else◌) (h.points_at k)
  ];
  keyed = λ k p e. elim (Bool-cases (id =ₛ k)) [
    | inl same ↦ includes-insert id k m.keys ∙ ground (arith, same)
    | inr other ↦
        let at' : set_key id v m.at k ≡ m.at k = rw (other, if◌then◌else◌) refl in
        let known = h.keyed k p (sym (ap (λ l. includes l p) at') ∙ e) in
        includes-insert id k m.keys ∙ ground (arith, known)
  ];
}

pub next-done :
    {A B : Type 0} (o : Outcome A) (f : A → Outcome B) (b : B)
    → next o f ≡ done b
    → (a : A) × (o ≡ done a) × (f a ≡ done b)
next-done (refused x) f b e = absurd (cc)
next-done (done a) f b e = (a, refl, e)

added_to :
    (m : PermissionMap) (has : String → String → Bool) (id : String) (more : List String)
    (k p : String)
    → IsMapOf m has
    → (if id =ₛ k then includes (filled (m.at id ++ more)) p else has k p)
      ≡ (has k p || (id =ₛ k && includes (filled more) p))
added_to m has id more k p h = elim (Bool-cases (id =ₛ k)) [
  | inl same ↦
      let at = ap (λ x. has x p) ((eq_iff id k).0 same) in
      let list =
        filled-append (m.at id) more
        ∙ ap (λ l. l ++ filled more) (filled_same (m.at id) (h.points_at id)) in
      let both = ap (λ l. includes l p) list ∙ includes-append (m.at id) (filled more) p in
      rw (same, if◌then◌else◌) (both ∙ ap (λ b. b || includes (filled more) p) (h.member id p ∙ at))
  | inr other ↦ rw (other, if◌then◌else◌) (ground arith)
]

-- The map of a request.
normalize_permissions_from :
    (items : List PermissionInput) (m r : PermissionMap) (has : String → String → Bool)
    → IsMapOf m has
    → normalize_permissions items m ≡ done r
    → IsMapOf r (λ k p. has k p || is_requested items k p)
unfolding normalize_permissions is_requested
normalize_permissions_from [] m r has h e =
    subst (λ x. IsMapOf x (λ k p. has k p || false)) (ap (value m) e)
      (IsMapOf-same m has (λ k p. has k p || false) (λ k p. ground arith) h)
normalize_permissions_from (item ∷ items) m r has h e =
    let id = trim item.id in
    let list = normalize_permission_list (m.at id ++ item.permissions) in
    let more = next list (λ v. normalize_permissions items (put id v m)) in
    let asked : String → String → Bool =
      λ k p. not (k =ₛ "") && (id =ₛ k && includes (filled item.permissions) p) in
    elim (Bool-cases (id =ₛ "")) [
      | inl blank ↦
          let e' = sym (ap (λ b. if b then normalize_permissions items m else more) blank) ∙ e in
          IsMapOf-same r (λ k p. has k p || is_requested items k p)
            (λ k p. has k p || (asked k p || is_requested items k p))
            (λ k p. ground (arith, eq_iff id "", eq_iff k "", eq_iff id k))
            (normalize_permissions_from items m r has h e')
      | inr named ↦
          let e' = sym (ap (λ b. if b then normalize_permissions items m else more) named) ∙ e in
          let (v, ev, rest) = next-done list (λ v. normalize_permissions items (put id v m)) r e' in
          let n = normalize_permission_list-IsNormal (m.at id ++ item.permissions) v ev in
          let h' =
            IsMapOf-same (put id v m)
              (λ k p.
                if id =ₛ k then includes (filled (m.at id ++ item.permissions)) p else has k p)
              (λ k p. has k p || asked k p)
              (λ k p.
                added_to m has id item.permissions k p h
                ∙ ground (arith, eq_iff id "", eq_iff k "", eq_iff id k, named))
              (put-IsMapOf m has id (m.at id ++ item.permissions) v h n) in
          IsMapOf-same r (λ k p. (has k p || asked k p) || is_requested items k p)
            (λ k p. has k p || (asked k p || is_requested items k p)) (λ k p. ground arith)
            (normalize_permissions_from items (put id v m) r (λ k p. has k p || asked k p) h' rest)
    ]

pub normalize_permissions-IsMapOf :
    (items : List PermissionInput) (r : PermissionMap)
    → normalize_permissions items empty_map ≡ done r
    → IsMapOf r (is_requested items)
normalize_permissions-IsMapOf items r e =
    normalize_permissions_from items empty_map r (λ k p. false) empty_map-IsMapOf e
