-- ===== src/Rag/Amount.antt =====
-- A number as the code meets it where it rounds: what counts is whether it is finite, its whole
-- part, and whether it has a fraction.
use cherry_wiki.Base.{ℕ, suc, Bool, true, false}

-- `finite n false` is n; `finite n true` lies strictly between n and n + 1. `negative` is any
-- finite number below 0.
pub data Amount : Type 0 where
  not_finite : Amount
  negative : Amount
  finite : ℕ → Bool → Amount

-- `Math.floor` and `Math.ceil` of a number that is positive, and 0 for all others.
unfoldable pub floor_or_zero : Amount → ℕ
floor_or_zero not_finite = 0
floor_or_zero negative = 0
floor_or_zero (finite n fraction) = n

unfoldable pub ceil_or_zero : Amount → ℕ
ceil_or_zero not_finite = 0
ceil_or_zero negative = 0
ceil_or_zero (finite n true) = suc n
ceil_or_zero (finite n false) = n
