-- ===== src/Graph/Communities/Assigned.antt =====
-- The communities that the groups of propagation are given, and the assignment of the nodes to them.
use cherry_wiki.Base.{
  ℕ, suc, ◌≤◌, ◌<◌, String, Bool, true, false, ◌&&◌, ◌||◌, Option, none, some, List, [], ◌∷◌,
  length, keep, some_of, All, ◌==◌, ◌=ₛ◌, eq_iff, eq_refl, if◌then◌else◌, set_key, ◌≡◌, refl, sym,
  ap, ◌∙◌, arith, Bool-cases, inl, inr,
}
use cherry_wiki.Base.Text.{includes}
use cherry_wiki.Graph.Communities.{
  CommunityKey, numbered, given, GraphCommunity, Group, Adjacency, assign_all, assign_from,
  communities_from,
}
use cherry_wiki.Graph.Communities.Groups.{groups_of, members_of}

abbrev pub key_is : CommunityKey → Option CommunityKey → Bool
key_is (numbered m) (some (numbered n)) = m == n
key_is (given c) (some (given d)) = c =ₛ d
key_is _ _ = false

-- The community of a label.
abbrev pub index_of : ℕ → List Group → String → Option CommunityKey
index_of n [] v = none
index_of n (g ∷ groups) v = if g.value =ₛ v then some (numbered n) else index_of (suc n) groups v

abbrev over : Option CommunityKey → Option CommunityKey → Option CommunityKey
over none old = old
over (some k) old = some k

pub over_none : (o : Option CommunityKey) → over o none ≡ o
over_none none = refl
over_none (some k) = refl

pub or_true : (a b : Bool) → b ≡ true → (a || b) ≡ true
or_true false b e = e
or_true true b e = refl

index_none :
    (n : ℕ) (groups : List Group) (v : String) → groups_of v groups ≡ 0 → index_of n groups v ≡ none
index_none n [] v z = refl
index_none n (g ∷ groups) v z = elim (Bool-cases (g.value =ₛ v)) [
  | inl same ↦ absurd (ground arith)
  | inr other ↦ rw (other, if◌then◌else◌) (index_none (suc n) groups v (ground arith))
]

index_later :
    (n m : ℕ) (groups : List Group) (v : String)
    → m < n
    → key_is (numbered m) (index_of n groups v) ≡ false
index_later n m [] v lt = refl
index_later n m (g ∷ groups) v lt = ground (arith, index_later (suc n) m groups v)

assign_all_lem :
    (ids : List String) (k : CommunityKey) (m : String → Option CommunityKey) (x : String)
    → assign_all ids k m x ≡ (if includes ids x then some k else m x)
assign_all_lem [] k m x = refl
assign_all_lem (id ∷ ids) k m x = ground (arith, assign_all_lem ids k (set_key id (some k) m) x)

module _ (value : String → String) (ids : List String) where
  includes-members_of :
      (v x : String) (xs : List String)
      → includes (members_of value v xs) x ≡ (includes xs x && value x =ₛ v)
  includes-members_of v x [] = refl
  includes-members_of v x (y ∷ xs) = elim (Bool-cases (y =ₛ x)) [
    | inl same ↦
        let at = ap (λ u. value u =ₛ v) ((eq_iff y x).0 same) in
        ground (arith, includes-members_of v x xs)
    | inr other ↦ ground (arith, includes-members_of v x xs)
  ]

  pub assign_from_lem :
      (n : ℕ) (groups : List Group) (m : String → Option CommunityKey) (x : String)
      → includes ids x ≡ true
      → All (λ g. g.members ≡ members_of value g.value ids) groups
      → ((v : String) → groups_of v groups ≤ 1)
      → assign_from n groups m x ≡ over (index_of n groups (value x)) (m x)
  assign_from_lem n [] m x known exact single = refl
  assign_from_lem n (g ∷ groups) m x known (e, exact) single =
      let m' = assign_all g.members (numbered n) m in
      let rest = assign_from_lem (suc n) groups m' x known exact (λ v. ground (arith, single v)) in
      let here = assign_all_lem g.members (numbered n) m x in
      let mine = ap (λ l. includes l x) e ∙ includes-members_of g.value x ids in
      elim (Bool-cases (g.value =ₛ value x)) [
        | inl same ↦
            let back : (value x =ₛ g.value) ≡ true =
              ground (arith, eq_iff g.value (value x), eq_iff (value x) g.value) in
            let gone = index_none (suc n) groups (value x) (ground (arith, single (value x))) in
            let inside : includes g.members x ≡ true = ground (arith) in
            let mine' = here ∙ ap (λ b. if b then some (numbered n) else m x) inside in
            rw (same, if◌then◌else◌) (rest ∙ (ap (λ o. over o (m' x)) gone ∙ mine'))
        | inr other ↦
            let back : (value x =ₛ g.value) ≡ false =
              ground (arith, eq_iff g.value (value x), eq_iff (value x) g.value) in
            let outside : includes g.members x ≡ false = ground (arith) in
            let same' = here ∙ ap (λ b. if b then some (numbered n) else m x) outside in
            rw (other, if◌then◌else◌) (rest ∙ ap (over (index_of (suc n) groups (value x))) same')
      ]

  abbrev pub name_key : ℕ → List Group → String → Option CommunityKey
  name_key n groups x = index_of n groups (value x)

  unfoldable pub NodesOf : (String → Option CommunityKey) → GraphCommunity → Type 0
  NodesOf key_of c = c.node_count ≡ length (keep (λ x. key_is c.community_key (key_of x)) ids)

  keep-same :
      (p q : String → Bool) (xs : List String)
      → ((x : String) → p x ≡ q x)
      → length (keep p xs) ≡ length (keep q xs)
  keep-same p q [] same = refl
  keep-same p q (x ∷ xs) same = ground (arith, same x, keep-same p q xs same)

  -- A community after the n-th is not that of a group that comes first.
  abbrev IsAfter : ℕ → GraphCommunity → Type 0
  IsAfter n c = (m : ℕ) × (c.community_key ≡ numbered m) × (n < m)

  communities_from-IsAfter :
      (name : String → String) (adjacency : Adjacency) (n k : ℕ) (groups : List Group)
      → k < n
      → All (IsAfter k) (communities_from name adjacency n groups)
  communities_from-IsAfter name adjacency n k [] lt = tt
  communities_from-IsAfter name adjacency n k (g ∷ groups) lt =
      ((n, refl, lt), communities_from-IsAfter name adjacency (suc n) k groups (omega arith))

  later_nodes :
      (n : ℕ) (g : Group) (groups : List Group) (cs : List GraphCommunity)
      → groups_of g.value groups ≡ 0
      → All (IsAfter n) cs
      → All (NodesOf (name_key (suc n) groups)) cs
      → All (NodesOf (name_key n (g ∷ groups))) cs
  unfolding NodesOf
  later_nodes n g groups [] z after h = tt
  later_nodes n g groups (c ∷ cs) z ((m, e, lt), after) (count, h) = (
    count
        ∙ keep-same (λ x. key_is c.community_key (name_key (suc n) groups x))
            (λ x. key_is c.community_key (name_key n (g ∷ groups) x)) ids
            (λ x. elim (Bool-cases (g.value =ₛ value x)) [
              | inl same ↦
                  let gone =
                    ap (index_of (suc n) groups) (sym ((eq_iff g.value (value x)).0 same))
                    ∙ index_none (suc n) groups g.value z in
                  rw (gone, same, e, if◌then◌else◌) (ground arith)
              | inr other ↦ rw (other, if◌then◌else◌) refl
            ]),
    later_nodes n g groups cs z after h,
  )

  pub counted :
      (name : String → String) (adjacency : Adjacency) (n : ℕ) (groups : List Group)
      → All (λ g. g.members ≡ members_of value g.value ids) groups
      → ((v : String) → groups_of v groups ≤ 1)
      → All (NodesOf (name_key n groups)) (communities_from name adjacency n groups)
  unfolding NodesOf
  counted name adjacency n [] exact single = tt
  counted name adjacency n (g ∷ groups) (e, exact) single = (
    ap length e
        ∙ keep-same (λ x. value x =ₛ g.value) (λ x. key_is (numbered n) (name_key n (g ∷ groups) x))
            ids
            (λ x. ground (
              arith,
              eq_iff g.value (value x),
              eq_iff (value x) g.value,
              index_later (suc n) n groups (value x),
            )),
    later_nodes n g groups (communities_from name adjacency (suc n) groups)
        (ground (arith, single g.value, eq_refl g.value))
        (communities_from-IsAfter name adjacency (suc n) n groups (omega arith))
        (counted name adjacency (suc n) groups exact (λ v. ground (arith, single v))),
  )

  pub found :
      (name : String → String) (adjacency : Adjacency) (n : ℕ) (groups : List Group) (v : String)
      → 1 ≤ groups_of v groups
      → some_of
          (λ c. key_is c.community_key (index_of n groups v))
          (communities_from name adjacency n groups)
        ≡ true
  found name adjacency n [] v one = absurd (omega arith)
  found name adjacency n (g ∷ groups) v one = elim (Bool-cases (g.value =ₛ v)) [
    | inl same ↦ rw (same, if◌then◌else◌) (ground arith)
    | inr other ↦
        let tail = communities_from name adjacency (suc n) groups in
        let e : index_of n (g ∷ groups) v ≡ index_of (suc n) groups v =
          rw (other, if◌then◌else◌) refl in
        or_true (key_is (numbered n) (index_of n (g ∷ groups) v))
          (some_of (λ c. key_is c.community_key (index_of n (g ∷ groups) v)) tail)
          (ap (λ o. some_of (λ c. key_is c.community_key o) tail) e
            ∙ found name adjacency (suc n) groups v (ground arith))
  ]
