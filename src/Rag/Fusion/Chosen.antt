-- ===== src/Rag/Fusion/Chosen.antt =====
-- Which of the fused hits are returned, and in what order.
use cherry_wiki.Base.{Bool, not, true, false, List, ◌≡◌, if◌then◌else◌}
use cherry_wiki.Rag.Amount.{Amount}
use cherry_wiki.Rag.Fusion.{FusedHit, Scores}

-- `<` orders the scores strictly, and so does its negation weakly: so it is where none is NaN.
pub record IsOrder {Score : Type 0} (ops : Scores Score) : Type 0 where
  pub asymmetric : (a b : Score) → ops.is_less a b ≡ true → ops.is_less b a ≡ false
  pub transitive :
      (a b c : Score) → ops.is_less a b ≡ false → ops.is_less b c ≡ false → ops.is_less a c ≡ false

module _ {D Score : Type 0} (ops : Scores Score) (order : IsOrder ops) where
  -- A hit that is a risk has its penalty, another its score.
  abbrev weighed : FusedHit D Score → FusedHit D Score
  weighed f = record f { score = if f.hit.injection_risk then ops.penalize f.score else f.score }

  abbrev is_no_worse : FusedHit D Score → FusedHit D Score → Bool
  is_no_worse a b = not (ops.is_less a.score b.score)
