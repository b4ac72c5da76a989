-- ===== src/Prelude/Table.antt =====
-- A database table with a primary key, as the list of its rows in order of insertion. The key test
-- `same` is a parameter, with what it decides.
use mathlib.Core.Path.{◌≡◌, refl}
use mathlib.Core.Logic.{◌↔◌}
use mathlib.Core.Bool.{Bool, true}
use mathlib.Core.Option.{Option, none, some}
use mathlib.Core.List.{List, [], ◌∷◌}
use native.Mathlib.Omega.{arith}
use holon.Prelude.Tests.{if◌then◌else◌}

abbrev pub Table {ℓ} : Type ℓ → Type ℓ → Type ℓ
Table K V = List (K × V)

module _ {ℓ} {K V : Type ℓ} (same : K → K → Bool) where
  -- SELECT … WHERE key = k
  unfoldable pub get : K → Table K V → Option V
  get k [] = none
  get k ((j, v) ∷ t) = if same j k then some v else get k t

  -- INSERT … ON CONFLICT (key) DO UPDATE
  unfoldable pub upsert : K → V → Table K V → Table K V
  upsert k v [] = (k, v) ∷ []
  upsert k v ((j, w) ∷ t) = if same j k then (j, v) ∷ t else (j, w) ∷ upsert k v t

  -- UPDATE … WHERE key = k
  unfoldable pub update : K → V → Table K V → Table K V
  update k v [] = []
  update k v ((j, w) ∷ t) = if same j k then (j, v) ∷ t else (j, w) ∷ update k v t

  -- DELETE … WHERE test(key)
  unfoldable pub delete_where : (K → Bool) → Table K V → Table K V
  delete_where test [] = []
  delete_where test ((j, w) ∷ t) =
      if test j then delete_where test t else (j, w) ∷ delete_where test t

  -- DELETE … WHERE key = k
  unfoldable pub delete : K → Table K V → Table K V
  unfolding delete_where
  delete k = delete_where (λ j. same j k)

  module _ (same_iff : (a b : K) → (same a b ≡ true) ↔ (a ≡ b)) where
    pub get-upsert :
        (k j : K) (v : V) (t : Table K V)
        → get j (upsert k v t) ≡ (if same k j then some v else get j t)
    unfolding get upsert
    get-upsert k j v [] = refl
    get-upsert k j v ((i, w) ∷ t) =
        ground (arith, same_iff k j, same_iff i k, same_iff i j, get-upsert k j v t)

    pub get-delete_where :
        (test : K → Bool) (j : K) (t : Table K V)
        → get j (delete_where test t) ≡ (if test j then none else get j t)
    unfolding get delete_where
    get-delete_where test j [] = ground arith
    get-delete_where test j ((i, w) ∷ t) = ground (arith, same_iff i j, get-delete_where test j t)

    pub get-delete :
        (k j : K) (t : Table K V) → get j (delete k t) ≡ (if same j k then none else get j t)
    unfolding delete
    get-delete k j t = get-delete_where (λ i. same i k) j t

    pub get-update :
        (k j : K) (v : V) (t : Table K V)
        → get j (update k v t)
          ≡ (if same k j then (elim (get j t) [ none ↦ none | some w ↦ some v ]) else get j t)
    unfolding get update
    get-update k j v [] = ground arith
    get-update k j v ((i, w) ∷ t) =
        ground (arith, same_iff k j, same_iff i k, same_iff i j, get-update k j v t)
