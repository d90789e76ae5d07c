-- ===== src/Rag/Pack/Greedy.antt =====
-- Which items a pack leaves out.
use cherry_wiki.Base.{
  ℕ, ◌+◌, ◌≤◌, ◌<◌, min, List, [], ◌∷◌, ◌++◌, ltb, if◌then◌else◌, Bool-cases, ◌⊎◌, inl, inr, arith,
  ap, ltb→lt,
}
use mathlib.Core.List.Memᴰ
use mathlib.Core.List.{Memᴰ}
use cherry_wiki.Rag.Pack.{ContextItem, cost, pack_from, pack_items}
use cherry_wiki.Rag.Amount.{Amount, floor_or_zero}

module _ {ℓ} {S : Type ℓ} where
  cost-append :
      (included : List (ContextItem S)) (next item : ContextItem S)
      → cost included item ≤ cost (included ++ next ∷ []) item
  cost-append [] next item = omega arith
  cost-append (first ∷ rest) next item = omega arith

  pack_from-grows :
      (budget : ℕ) (included : List (ContextItem S)) (used : ℕ) (items : List (ContextItem S))
      (x : ContextItem S)
      → (used + cost included x
          ≤ (pack_from budget included used items).1
            + cost ((pack_from budget included used items).0) x)
        × (Memᴰ x included → Memᴰ x ((pack_from budget included used items).0))
  unfolding pack_from
  pack_from-grows budget included used [] x = (omega arith, λ m. m)
  pack_from-grows budget included used (item ∷ items) x =
      elim (Bool-cases (ltb budget (used + cost included item))) [
        | inl over ↦ rw (over, if◌then◌else◌) (pack_from-grows budget included used items x)
        | inr within ↦
            let (a, b) =
              pack_from-grows budget (included ++ item ∷ []) (used + cost included item) items x in
            rw (within, if◌then◌else◌)
              (omega (arith, cost-append included item x), λ m. b (Memᴰ.append_left (item ∷ []) m))
      ]

  pack_from-greedy :
      (budget : ℕ) (included : List (ContextItem S)) (used : ℕ) (items : List (ContextItem S))
      (x : ContextItem S)
      → Memᴰ x items
      → Memᴰ x ((pack_from budget included used items).0)
        ⊎ (budget
            < (pack_from budget included used items).1
              + cost ((pack_from budget included used items).0) x)
  unfolding pack_from
  pack_from-greedy budget included used [] x m = elim m [ ]
  pack_from-greedy budget included used (item ∷ items) x (Memᴰ.head e) =
      elim (Bool-cases (ltb budget (used + cost included item))) [
        | inl over ↦
            rw (over, if◌then◌else◌)
              (inr (
                omega (
                  arith,
                  ltb→lt budget (used + cost included item) over,
                  ap (cost included) e,
                  (pack_from-grows budget included used items x).0,
                )))
        | inr within ↦
            rw (within, if◌then◌else◌)
              (inl (
                (pack_from-grows budget (included ++ item ∷ []) (used + cost included item) items
                    x).1
                  (Memᴰ.append_right included (Memᴰ.head e))))
      ]
  pack_from-greedy budget included used (item ∷ items) x (Memᴰ.tail m) =
      elim (Bool-cases (ltb budget (used + cost included item))) [
        | inl over ↦ rw (over, if◌then◌else◌) (pack_from-greedy budget included used items x m)
        | inr within ↦
            rw (within, if◌then◌else◌)
              (pack_from-greedy budget (included ++ item ∷ []) (used + cost included item) items x
                m)
      ]

  -- Each item that a pack was given is either included or costs more, with its separator, than the budget has left when the pack is done.
  pub pack_items_greedy :
      (items : List (ContextItem S)) (category : Amount) (remaining : ℕ) (x : ContextItem S)
      → Memᴰ x items
      → Memᴰ x ((pack_items items category remaining).included)
        ⊎ (min (floor_or_zero category) remaining
            < (pack_items items category remaining).tokens
              + cost ((pack_items items category remaining).included) x)
  unfolding pack_items
  pack_items_greedy items category remaining x m =
      pack_from-greedy (min (floor_or_zero category) remaining) [] 0 items x m
