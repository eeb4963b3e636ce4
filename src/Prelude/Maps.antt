-- ===== src/Prelude/Maps.antt =====
-- `HashMap` as the list of its entries.
use mathlib.Core.Path.{◌≡◌, refl}
use mathlib.Core.Bool.{Bool, ◌||◌}
use mathlib.Core.Option.{Option, none, some}
use mathlib.Core.List.{List, [], ◌∷◌}
use native.Mathlib.Omega.{arith}
use butido.Prelude.Tests.{Eq, ◌==◌, if◌then◌else◌}
use butido.Prelude.Lists.{any}

module _ {ℓ κ} {K : Type ℓ} {V : Type κ} ⦃e : Eq K⦄ where
  -- `HashMap::insert`: the value of a key that is there is replaced.
  unfoldable pub map_insert : K → V → List (K × V) → List (K × V)
  map_insert k v [] = (k, v) ∷ []
  map_insert k v ((j, w) ∷ m) = if j == k then (k, v) ∷ m else (j, w) ∷ map_insert k v m

  -- `HashMap::get`
  abbrev pub map_get : K → List (K × V) → Option V
  map_get k [] = none
  map_get k ((j, v) ∷ m) = if j == k then some v else map_get k m

  -- `HashMap::contains_key`, and `keys().any(|id| id == k)`
  abbrev pub contains_key : List (K × V) → K → Bool
  contains_key m k = any (λ e. e.0 == k) m

  -- `HashMap::extend`
  unfoldable pub extend : List (K × V) → List (K × V) → List (K × V)
  extend m [] = m
  extend m ((k, v) ∷ more) = extend (map_insert k v m) more

  pub map_get-insert :
      (k j : K) (v : V) (m : List (K × V))
      → map_get j (map_insert k v m) ≡ (if k == j then some v else map_get j m)
  unfolding map_insert
  map_get-insert k j v [] = refl
  map_get-insert k j v ((i, w) ∷ m) =
      ground (arith, e.beq_iff i k, e.beq_iff i j, e.beq_iff k j, map_get-insert k j v m)

  pub contains_key-insert :
      (k j : K) (v : V) (m : List (K × V))
      → contains_key (map_insert k v m) j ≡ (k == j || contains_key m j)
  unfolding map_insert
  contains_key-insert k j v [] = refl
  contains_key-insert k j v ((i, w) ∷ m) =
      ground (arith, e.beq_iff i k, e.beq_iff i j, e.beq_iff k j, contains_key-insert k j v m)

  -- A key is there after `extend` exactly when it was in one of the two maps.
  pub contains_key-extend :
      (j : K) (more m : List (K × V))
      → contains_key (extend m more) j ≡ (contains_key m j || contains_key more j)
  unfolding extend
  contains_key-extend j [] m = ground arith
  contains_key-extend j ((k, v) ∷ more) m =
      ground (arith, contains_key-extend j more (map_insert k v m), contains_key-insert k j v m)
