-- ===== src/Graph/Data.antt =====
-- packages/graph-core/src/types.ts, confidence.ts, normalize-label.ts and stable-key.ts. Numbers of
-- JSON are floating point, so their type and arithmetic are an argument.
use Prim.Native.String.{String, [], ◌∷◌, ◌++◌}
use Prim.Native.Char.{code}
use cherry_wiki.Base.{ℕ, Bool, ◌&&◌, ◌||◌, Option, List, leb, ◌==◌, ◌=ₛ◌, if◌then◌else◌}
use cherry_wiki.Base.Text.{to_lower, trim, slice_to}

-- What the code does with numbers. `decimal n d` is n / 10 ^ d; `to_fixed_12` is
-- Number(value.toFixed(12)).
pub record Numbers (N : Type 0) : Type 0 where
  pub decimal : ℕ → ℕ → N
  pub is_finite : N → Bool
  pub is_equal : N → N → Bool
  pub times : N → N → N
  pub min_of : N → N → N
  pub max_of : N → N → N
  pub to_fixed_12 : N → N

pub record GraphNode : Type 0 where
  pub id : String
  pub label : String
  pub norm_label : String
  pub type : String
  pub community : Option String
  pub source_file : Option String
  pub source_location : Option String

pub record GraphEdge (N : Type 0) : Type 0 where
  pub source : String
  pub target : String
  pub relation : String
  pub confidence : String
  pub confidence_score : N

-- The hyperedges, which nothing reads, stand beside it in the result of the parser.
pub record GraphOutput (N : Type 0) : Type 0 where
  pub nodes : List GraphNode
  pub edges : List (GraphEdge N)

pub data ConfidenceLabel : Type 0 where
  extracted inferred ambiguous : ConfidenceLabel

-- isConfidenceLabel, with the label that the text is.
unfoldable pub confidence_label : String → Option ConfidenceLabel
confidence_label s =
    if s =ₛ "EXTRACTED"
    then Option.some extracted
    else if s =ₛ "INFERRED"
    then Option.some inferred
    else if s =ₛ "AMBIGUOUS"
    then Option.some ambiguous
    else Option.none

pub record ConfidenceMapping (N : Type 0) : Type 0 where
  pub raw_confidence_score : N
  pub effective_confidence_score : N

module _ {N : Type 0} (ops : Numbers N) where
  abbrev raw_default : ConfidenceLabel → N
  raw_default extracted = ops.decimal 1 0
  raw_default inferred = ops.decimal 5 1
  raw_default ambiguous = ops.decimal 2 1

  abbrev effective_default : ConfidenceLabel → N
  effective_default extracted = ops.decimal 9 1
  effective_default inferred = ops.decimal 7 1
  effective_default ambiguous = ops.decimal 4 1

  abbrev clamp : N → N
  clamp value = ops.min_of (ops.max_of value (ops.decimal 0 0)) (ops.decimal 1 0)

  unfoldable pub map_confidence : ConfidenceLabel → N → ConfidenceMapping N
  map_confidence label raw = record {
    raw_confidence_score = raw;
    effective_confidence_score =
        if ops.is_equal raw (raw_default label)
        then effective_default label
        else ops.to_fixed_12 (
            clamp
              (ops.times (if ops.is_finite raw then raw else ops.decimal 0 0) (ops.decimal 9 1)));
  }

-- The characters that `/[^a-z0-9 ]/g` leaves.
abbrev is_plain : ℕ → Bool
is_plain c = (leb 97 c && leb c 122) || (leb 48 c && leb c 57) || c == 32

unfoldable pub plain : String → String
plain [] = []
plain (c ∷ s) = if is_plain (code c) then c ∷ plain s else plain s

unfoldable pub normalize_label : String → String
unfolding plain
normalize_label label = trim (plain (to_lower label))

-- The digest is the library's, in hexadecimal digits.
unfoldable pub compute_stable_key : (String → String) → String → String → String → String
compute_stable_key sha256 space_id norm_label node_type = slice_to 16 (
    sha256 (
      space_id
      ++ (":" ++ (norm_label ++ (":" ++ (if node_type =ₛ "" then "concept" else node_type))))))
