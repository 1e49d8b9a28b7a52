-- ===== src/Prelude/Dict.antt =====
-- A Python dict in insertion order, over any type of keys that can be compared.
use mathlib.Core.Path.{◌≡◌, refl}
use mathlib.Core.Logic.{◌≢◌, inl, inr}
use mathlib.Core.Option.{Option, none, some}
use mathlib.Core.List.{List, [], ◌∷◌}
use native.Mathlib.Omega.{arith}
use smarty_trader.Prelude.Tests.{if◌then◌else◌, Bool-cases}
use smarty_trader.Prelude.Lists.{All, All-map}
use smarty_trader.Prelude.Equality.{Comparable, ◌==◌}

abbrev pub Dict {ℓ κ} : Type ℓ → Type κ → Type (ℓ ⊔ κ)
Dict K V = List (K × V)

module _ {ℓ κ} {K : Type ℓ} {V : Type κ} ⦃e : Comparable K⦄ where
  abbrev pub lookup : K → Dict K V → Option V
  lookup k [] = none
  lookup k ((j, v) ∷ d) = if j == k then some v else lookup k d

  -- `d.get(k, default)`
  abbrev pub get_or : K → V → Dict K V → V
  get_or k v d = elim (lookup k d) [ none ↦ v | some w ↦ w ]

  -- `d[k] = v`: an old key keeps its place
  abbrev pub insert : K → V → Dict K V → Dict K V
  insert k v [] = (k, v) ∷ []
  insert k v (x ∷ d) = if x.0 == k then (x.0, v) ∷ d else x ∷ insert k v d

  -- `d.pop(k, None)`
  abbrev pub erase : K → Dict K V → Dict K V
  erase k [] = []
  erase k (x ∷ d) = if x.0 == k then d else x ∷ erase k d

  pub lookup-insert :
      (k j : K) (v : V) (d : Dict K V)
      → lookup j (insert k v d) ≡ (if k == j then some v else lookup j d)
  lookup-insert k j v [] = refl
  lookup-insert k j v ((i, w) ∷ d) =
      ground (arith, e.test_iff k j, e.test_iff i k, e.test_iff i j, lookup-insert k j v d)

  pub lookup-insert_self : (k : K) (v : V) (d : Dict K V) → lookup k (insert k v d) ≡ some v
  lookup-insert_self k v d = ground (arith, e.test_iff k k, lookup-insert k k v d)

  pub lookup-insert_ne :
      (k j : K) (v : V) (d : Dict K V) → k ≢ j → lookup j (insert k v d) ≡ lookup j d
  lookup-insert_ne k j v d h = ground (arith, e.test_iff k j, lookup-insert k j v d)

  pub lookup-erase_ne : (k j : K) (d : Dict K V) → k ≢ j → lookup j (erase k d) ≡ lookup j d
  lookup-erase_ne k j [] h = refl
  lookup-erase_ne k j ((i, w) ∷ d) h =
      ground (arith, e.test_iff k j, e.test_iff i k, e.test_iff i j, lookup-erase_ne k j d h)

  -- No key is listed twice.
  abbrev pub DistinctKeys : Dict K V → Type κ
  DistinctKeys [] = Unit
  DistinctKeys (x ∷ d) = (lookup x.0 d ≡ none) × DistinctKeys d

  pub insert-DistinctKeys :
      (k : K) (v : V) (d : Dict K V) → DistinctKeys d → DistinctKeys (insert k v d)
  insert-DistinctKeys k v [] h = (refl, tt)
  insert-DistinctKeys k v (x ∷ d) h = ground (
    arith,
    e.test_iff x.0 k,
    e.test_iff k x.0,
    insert-DistinctKeys k v d h.1,
    lookup-insert k x.0 v d,
  )

  pub erase-DistinctKeys : (k : K) (d : Dict K V) → DistinctKeys d → DistinctKeys (erase k d)
  erase-DistinctKeys k [] h = tt
  erase-DistinctKeys k (x ∷ d) h = ground (
    arith,
    e.test_iff x.0 k,
    e.test_iff k x.0,
    erase-DistinctKeys k d h.1,
    lookup-erase_ne k x.0 d,
  )

  pub lookup-erase_self : (k : K) (d : Dict K V) → DistinctKeys d → lookup k (erase k d) ≡ none
  lookup-erase_self k [] h = refl
  lookup-erase_self k (x ∷ d) h = ground (arith, e.test_iff x.0 k, lookup-erase_self k d h.1)

  other_entries : (k : K) (d : Dict K V) → lookup k d ≡ none → All (λ (x : K × V). x.0 ≢ k) d
  other_entries k [] h = tt
  other_entries k ((j, w) ∷ d) h = ground (arith, e.test_iff j k, other_entries k d)

  -- Where no key repeats, a key has one value only.
  pub lookup-entries :
      (k : K) (v : V) (d : Dict K V)
      → DistinctKeys d
      → lookup k d ≡ some v
      → All (λ (x : K × V). x.0 ≡ k → x.1 ≡ v) d
  lookup-entries k v [] h l = tt
  lookup-entries k v ((j, w) ∷ d) h l = elim (Bool-cases (j == k)) [
    | inl q ↦ (
      (λ _. ground (arith, e.test_iff j k)),
      All-map (λ (x : K × V). x.0 ≡ k → x.1 ≡ v) d (λ x other same. absurd (other same))
          (other_entries k d (ground (arith, e.test_iff j k))),
    )
    | inr q ↦ (
      (λ same. ground (arith, e.test_iff j k)),
      lookup-entries k v d h.1 (ground (arith, e.test_iff j k)),
    )
  ]
