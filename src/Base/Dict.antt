-- ===== src/Base/Dict.antt =====
-- Go's map[string]V as an association list in which a key stands once.
use Prim.Native.String.{String}
use mathlib.Core.Path.{◌≡◌, refl, ◌∙◌}
use mathlib.Core.Option.{Option, none, some}
use mathlib.Core.List.{List, [], ◌∷◌}
use native.Mathlib.Omega.{arith}
use text.Mathlib.Text.{◌==◌ as str_eq}
use text.Mathlib.TextEquality.{eq_iff}
use load_balancer.Base.Tests.{if◌then◌else◌}

module _ {ℓ} {V : Type ℓ} where
  -- `v, ok := m[k]`.
  unfoldable pub lookup : String → List (String × V) → Option V
  lookup key [] = none
  lookup key ((first, old) ∷ rest) =
      let later = lookup key rest in if str_eq first key then some old else later

  -- `delete(m, k)`.
  unfoldable pub delete : String → List (String × V) → List (String × V)
  delete key [] = []
  delete key ((first, old) ∷ rest) =
      let later = delete key rest in if str_eq first key then later else (first, old) ∷ later

  -- `m[k] = v`.
  unfoldable pub insert : String → V → List (String × V) → List (String × V)
  insert key new ((first, old) ∷ rest) =
      let later = insert key new rest in
      if str_eq first key then (key, new) ∷ rest else (first, old) ∷ later
  insert key new [] = (key, new) ∷ []

  -- Reading `set` after the write of `key`.
  pub lookup-insert :
      (key set : String) (new : V) (dict : List (String × V))
      → lookup set (insert key new dict) ≡ (if str_eq key set then some new else lookup set dict)
  unfolding insert lookup
  lookup-insert key set new ((first, old) ∷ rest) =
      let step = lookup-insert key set new rest in
      ground (eq_iff first set, eq_iff first key, eq_iff key set, step, arith)
  lookup-insert key set new [] = refl

  pub lookup-insert_same :
      (key : String) (new : V) (dict : List (String × V))
      → lookup key (insert key new dict) ≡ some new
  lookup-insert_same key new dict =
      lookup-insert key key new dict ∙ rw ((eq_iff key key).1 refl) refl

  pub lookup-delete :
      (k j : String) (m : List (String × V))
      → lookup j (delete k m) ≡ (if str_eq k j then none else lookup j m)
  unfolding lookup delete
  lookup-delete k j [] = ground arith
  lookup-delete k j ((i, w) ∷ m) =
      ground (arith, eq_iff k j, eq_iff i k, eq_iff i j, lookup-delete k j m)
