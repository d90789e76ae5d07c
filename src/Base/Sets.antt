-- ===== src/Base/Sets.antt =====
-- Lists of texts as sets: Set.add in the order of insertion, sort(), and how many members there are.
use Prim.Native.Nat.{ℕ, ◌+◌, ◌≤◌, ◌<◌}
use Prim.Native.String.{String, compare}
use mathlib.Core.Path.{◌≡◌, refl, sym, ap, ◌∙◌}
use mathlib.Core.Logic.{inl, inr}
use mathlib.Core.Bool.{Bool, true, false, ◌&&◌, ◌||◌, not}
use mathlib.Core.List.{List, [], ◌∷◌, ◌++◌}
use native.Mathlib.Omega.{arith}
use text.Mathlib.Text.{◌==◌ as ◌=ₛ◌, is_lt}
use text.Mathlib.TextEquality.{eq_iff}
use text.Mathlib.TextPositions.{eq_refl}
use cherry_wiki.Base.Tests.{ltb, if◌then◌else◌, Bool-cases}
use cherry_wiki.Base.Lists.{length, keep, every, length-keep}
use cherry_wiki.Base.Sorting.{sort_by, keep-sort_by}
use cherry_wiki.Base.Text.{includes}

abbrev pub text_lt : String → String → Bool
text_lt a b = is_lt (compare a b)

-- `sort()` of texts, by code points.
abbrev pub text_le : String → String → Bool
text_le a b = not (text_lt b a)

-- Adding to a Set.
abbrev pub insert : String → List String → List String
insert x xs = if includes xs x then xs else xs ++ x ∷ []

-- `new Set(xs)`, on the members that there are.
abbrev pub insert_all : List String → List String → List String
insert_all [] acc = acc
insert_all (x ∷ xs) acc = insert_all xs (insert x acc)

abbrev pub count : String → List String → ℕ
count x xs = length (keep (λ y. y =ₛ x) xs)

pub IsDistinct : List String → Type 0
IsDistinct xs = (x : String) → count x xs ≤ 1

pub none_twice : IsDistinct []
unfolding IsDistinct
none_twice x = omega arith

pub includes-count : (xs : List String) (x : String) → includes xs x ≡ ltb 0 (count x xs)
includes-count [] x = refl
includes-count (y ∷ xs) x = ground (arith, includes-count xs x)

pub includes-sort :
    (xs : List String) (x : String) → includes (sort_by text_le xs) x ≡ includes xs x
includes-sort xs x =
    includes-count (sort_by text_le xs) x
    ∙ (ap (ltb 0) (keep-sort_by text_le (λ y. y =ₛ x) xs) ∙ sym (includes-count xs x))

pub sort-IsDistinct : (xs : List String) → IsDistinct xs → IsDistinct (sort_by text_le xs)
unfolding IsDistinct
sort-IsDistinct xs h x = ground (arith, keep-sort_by text_le (λ y. y =ₛ x) xs, h x)

includes-add :
    (xs : List String) (y x : String) → includes (xs ++ y ∷ []) x ≡ (includes xs x || y =ₛ x)
includes-add [] y x = ground arith
includes-add (z ∷ xs) y x = ground (arith, includes-add xs y x)

pub includes-insert :
    (y x : String) (xs : List String) → includes (insert y xs) x ≡ (includes xs x || y =ₛ x)
includes-insert y x xs = elim (Bool-cases (includes xs y)) [
  | inl known ↦
      rw (known, if◌then◌else◌)
        (elim (Bool-cases (y =ₛ x)) [
          | inl same ↦
              let known' : includes xs x ≡ true =
                sym (ap (includes xs) ((eq_iff y x).0 same)) ∙ known in
              ground (arith, same, known')
          | inr other ↦ ground (arith, other)
        ])
  | inr new ↦ rw (new, if◌then◌else◌) (includes-add xs y x)
]

pub includes-insert_all :
    (xs acc : List String) (x : String)
    → includes (insert_all xs acc) x ≡ (includes acc x || includes xs x)
includes-insert_all [] acc x = ground arith
includes-insert_all (y ∷ xs) acc x =
    ground (arith, includes-insert y x acc, includes-insert_all xs (insert y acc) x)

count-add :
    (xs : List String) (y x : String) → count x (xs ++ y ∷ []) ≡ count x xs + count x (y ∷ [])
count-add [] y x = omega arith
count-add (z ∷ xs) y x = ground (arith, count-add xs y x)

insert-IsDistinct : (y : String) (xs : List String) → IsDistinct xs → IsDistinct (insert y xs)
unfolding IsDistinct
insert-IsDistinct y xs h x = elim (Bool-cases (includes xs y)) [
  | inl known ↦ rw (known, if◌then◌else◌) (h x)
  | inr new ↦
      let plus = count-add xs y x in
      rw (new, if◌then◌else◌)
        (elim (Bool-cases (y =ₛ x)) [
          | inl same ↦
              let gone : includes xs x ≡ false =
                sym (ap (includes xs) ((eq_iff y x).0 same)) ∙ new in
              ground (arith, plus, includes-count xs x, gone, same)
          | inr other ↦ ground (arith, plus, h x, other)
        ])
]

pub insert_all-IsDistinct : (xs acc : List String) → IsDistinct acc → IsDistinct (insert_all xs acc)
insert_all-IsDistinct [] acc h = h
insert_all-IsDistinct (x ∷ xs) acc h =
    insert_all-IsDistinct xs (insert x acc) (insert-IsDistinct x acc h)

without : String → List String → List String
without x = keep (λ y. not (y =ₛ x))

includes-without :
    (x p : String) (xs : List String) → includes (without x xs) p ≡ (includes xs p && not (x =ₛ p))
unfolding without
includes-without x p [] = refl
includes-without x p (y ∷ xs) = elim (Bool-cases (y =ₛ x)) [
  | inl same ↦
      let at = ap (λ z. z =ₛ p) ((eq_iff y x).0 same) in
      rw (same, not, if◌then◌else◌) (ground (arith, at, includes-without x p xs))
  | inr other ↦
      rw (other, not, if◌then◌else◌)
        (elim (Bool-cases (y =ₛ p)) [
          | inl here ↦
              let apart : (x =ₛ p) ≡ false = elim (Bool-cases (x =ₛ p)) [
                | inl e ↦
                    let yx = (eq_iff y p).0 here ∙ sym ((eq_iff x p).0 e) in
                    let clash : false ≡ true = sym other ∙ (ap (λ z. z =ₛ x) yx ∙ eq_refl x) in
                    absurd (cc)
                | inr e ↦ e
              ] in
              ground (arith, here, apart, includes-without x p xs)
          | inr there ↦ ground (arith, there, includes-without x p xs)
        ])
]

length-without : (x : String) (xs : List String) → length (without x xs) + count x xs ≡ length xs
unfolding without
length-without x [] = refl
length-without x (y ∷ xs) = ground (arith, length-without x xs)

every-without :
    (x : String) (l r : List String)
    → every (includes r) l ≡ true
    → count x l ≡ 0
    → every (includes (without x r)) l ≡ true
every-without x [] r sub z = refl
every-without x (y ∷ l) r sub z = elim (Bool-cases (y =ₛ x)) [
  | inl same ↦ absurd (ground arith)
  | inr other ↦
      let apart : (x =ₛ y) ≡ false = ground (arith, eq_iff x y, eq_iff y x) in
      ground
        (arith, includes-without x y r, apart, every-without x l r (ground arith) (ground arith))
]

pub every-includes :
    (l r : List String) (p : String)
    → every (includes r) l ≡ true
    → includes l p ≡ true
    → includes r p ≡ true
every-includes [] r p sub e = absurd (cc)
every-includes (x ∷ l) r p sub e = elim (Bool-cases (x =ₛ p)) [
  | inl same ↦ sym (ap (includes r) ((eq_iff x p).0 same)) ∙ ground arith
  | inr other ↦ every-includes l r p (ground arith) (ground arith)
]

-- Distinct members of a list that has another one still: they are fewer.
members_fewer :
    (l r : List String) (p : String)
    → IsDistinct l
    → every (includes r) l ≡ true
    → includes r p ≡ true
    → includes l p ≡ false
    → length l < length r
unfolding IsDistinct without
members_fewer [] r p d sub there missing =
    ground (arith, includes-count r p, length-keep (λ y. y =ₛ p) r)
members_fewer (x ∷ l) r p d sub there missing =
    let once : count x l ≡ 0 = ground (arith, d x, eq_refl x) in
    let fewer =
      members_fewer l (without x r) p (λ y. ground (arith, d y))
        (every-without x l r (ground arith) once) (includes-without x p r ∙ ground arith)
        (ground arith) in
    ground (arith, fewer, length-without x r, includes-count r x)

-- Two lists of as many members, the first distinct and among the second, have the same members.
pub same_members :
    (l r : List String)
    → IsDistinct l
    → length l ≡ length r
    → every (includes r) l ≡ true
    → (p : String) → includes l p ≡ includes r p
same_members l r d e sub p = elim (Bool-cases (includes l p)) [
  | inl here ↦ here ∙ sym (every-includes l r p sub here)
  | inr missing ↦ elim (Bool-cases (includes r p)) [
    | inl there ↦ absurd (omega (arith, members_fewer l r p d sub there missing, e))
    | inr gone ↦ missing ∙ sym gone
  ]
]
