-- ===== src/Base/Maps.antt =====
-- Maps from texts, as functions.
use Prim.Native.String.{String}
use mathlib.Core.Path.{◌≡◌}
use mathlib.Core.Logic.{◌≢◌, inl, inr}
use text.Mathlib.Text.{◌==◌ as ◌=ₛ◌}
use text.Mathlib.TextEquality.{eq_iff}
use text.Mathlib.TextPositions.{eq_refl}
use cherry_wiki.Base.Tests.{if◌then◌else◌, Bool-cases}

module _ {ℓ} {A : Type ℓ} where
  abbrev pub set_key : String → A → (String → A) → String → A
  set_key k a m j = if k =ₛ j then a else m j

  pub set_key-other : (j k : String) (a : A) (m : String → A) → j ≢ k → set_key j a m k ≡ m k
  set_key-other j k a m ne = elim (Bool-cases (j =ₛ k)) [
    | inl same ↦ absurd (ne ((eq_iff j k).0 same))
    | inr other ↦ rw (other, if◌then◌else◌)
  ]

  pub set_key-same : (k : String) (a : A) (m : String → A) → set_key k a m k ≡ a
  set_key-same k a m = rw (eq_refl k, if◌then◌else◌)
