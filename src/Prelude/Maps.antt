-- ===== src/Prelude/Maps.antt =====
-- Go's `map[K]V` as an association list: one entry for each key.
use mathlib.Core.List.{List, [], ◌∷◌}
use mathlib.Core.Option.{Option, none, some}
use mathlib.Core.Path.{◌≡◌, refl}
use native.Mathlib.Omega.{arith}
use room_chat.Prelude.Tests.{Comparable, ◌==◌, if◌then◌else◌}

module _ {ℓ} {K : Type ℓ} ⦃e : Comparable K⦄ where
  -- v, exists := m[k]
  unfoldable pub lookup {κ} : {V : Type κ} → List (K × V) → K → Option V
  lookup [] k = none
  lookup ((j, v) ∷ m) k = if j == k then some v else lookup m k

  -- m[k] = v
  unfoldable pub insert {κ} : {V : Type κ} → K → V → List (K × V) → List (K × V)
  insert k v [] = (k, v) ∷ []
  insert k v ((j, w) ∷ m) = if j == k then (k, v) ∷ m else (j, w) ∷ insert k v m

  -- delete(m, k)
  unfoldable pub delete {κ} : {V : Type κ} → K → List (K × V) → List (K × V)
  delete k [] = []
  delete k ((j, w) ∷ m) = let rest = delete k m in if j == k then rest else (j, w) ∷ rest

  pub lookup-insert {κ} :
      {V : Type κ} (k j : K) (v : V) (m : List (K × V))
      → lookup (insert k v m) j ≡ (if k == j then some v else lookup m j)
  unfolding lookup insert
  lookup-insert k j v [] = refl
  lookup-insert k j v ((i, w) ∷ m) =
      ground (arith, lookup-insert k j v m, e.equal_iff k j, e.equal_iff i k, e.equal_iff i j)

  pub lookup-delete {κ} :
      {V : Type κ} (k j : K) (m : List (K × V))
      → lookup (delete k m) j ≡ (if k == j then none else lookup m j)
  unfolding lookup delete
  lookup-delete k j [] = ground arith
  lookup-delete k j ((i, w) ∷ m) =
      ground (arith, lookup-delete k j m, e.equal_iff k j, e.equal_iff i k, e.equal_iff i j)

  -- The heap cell `k` of a total store.
  abbrev pub update {κ} : {V : Type κ} → (K → V) → K → V → K → V
  update f k v j = if k == j then v else f j
