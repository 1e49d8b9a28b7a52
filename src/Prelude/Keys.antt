-- ===== src/Prelude/Keys.antt =====
-- Lists of keys without repeats: `x in keys` and `dict.fromkeys(xs)`.
use mathlib.Core.Path.{◌≡◌, refl}
use mathlib.Core.Bool.{Bool, true, false, ◌||◌}
use mathlib.Core.List.{List, [], ◌∷◌, ◌++◌}
use native.Mathlib.Omega.{arith}
use smarty_trader.Prelude.Tests.{if◌then◌else◌}
use smarty_trader.Prelude.Lists.{All}
use smarty_trader.Prelude.Equality.{Comparable, ◌==◌}

module _ {ℓ} {K : Type ℓ} ⦃e : Comparable K⦄ where
  -- `x in keys`
  abbrev pub member : K → List K → Bool
  member x [] = false
  member x (y ∷ ys) = y == x || member x ys

  -- A key that is there keeps its place.
  abbrev pub add_key : List K → K → List K
  add_key keys x = if member x keys then keys else keys ++ x ∷ []

  abbrev pub add_keys : List K → List K → List K
  add_keys keys [] = keys
  add_keys keys (x ∷ xs) = add_keys (add_key keys x) xs

  -- `list(dict.fromkeys(xs))`
  abbrev pub from_keys : List K → List K
  from_keys xs = add_keys [] xs

  abbrev pub NoRepeats : List K → Type 0
  NoRepeats [] = Unit
  NoRepeats (x ∷ xs) = (member x xs ≡ false) × NoRepeats xs

  pub member-append : (x : K) (ys zs : List K) → member x (ys ++ zs) ≡ (member x ys || member x zs)
  member-append x [] zs = refl
  member-append x (y ∷ ys) zs = ground (arith, member-append x ys zs)

  member-add_key : (x y : K) (ys : List K) → member x (add_key ys y) ≡ (member x ys || (y == x))
  member-add_key x y ys =
      ground (arith, e.test_iff y x, member-append x ys (y ∷ []), member-append y ys (y ∷ []))

  member-add_keys :
      (x : K) (ys zs : List K) → member x (add_keys ys zs) ≡ (member x ys || member x zs)
  member-add_keys x ys [] = ground arith
  member-add_keys x ys (z ∷ zs) =
      ground (arith, member-add_keys x (add_key ys z) zs, member-add_key x z ys)

  pub member-from_keys : (x : K) (xs : List K) → member x (from_keys xs) ≡ member x xs
  member-from_keys x xs = member-add_keys x [] xs

  pub NoRepeats-append_one :
      (ys : List K) (x : K) → NoRepeats ys → member x ys ≡ false → NoRepeats (ys ++ x ∷ [])
  NoRepeats-append_one [] x h k = (refl, tt)
  NoRepeats-append_one (y ∷ ys) x h k = ground (
    arith,
    e.test_iff y x,
    e.test_iff x y,
    member-append y ys (x ∷ []),
    NoRepeats-append_one ys x h.1,
  )

  add_key-NoRepeats : (ys : List K) (x : K) → NoRepeats ys → NoRepeats (add_key ys x)
  add_key-NoRepeats ys x h = ground (arith, NoRepeats-append_one ys x h)

  add_keys-NoRepeats : (ys xs : List K) → NoRepeats ys → NoRepeats (add_keys ys xs)
  add_keys-NoRepeats ys [] h = h
  add_keys-NoRepeats ys (x ∷ xs) h = add_keys-NoRepeats (add_key ys x) xs (add_key-NoRepeats ys x h)

  pub from_keys-NoRepeats : (xs : List K) → NoRepeats (from_keys xs)
  from_keys-NoRepeats xs = add_keys-NoRepeats [] xs tt

  -- keys of three lists, of which the outer ones were deduplicated before
  pub member-union :
      (x : K) (xs ys zs : List K)
      → member x (from_keys (from_keys xs ++ ys ++ from_keys zs))
        ≡ (member x xs || member x ys || member x zs)
  member-union x xs ys zs = ground (
    arith,
    member-from_keys x (from_keys xs ++ ys ++ from_keys zs),
    member-append x (from_keys xs ++ ys) (from_keys zs),
    member-append x (from_keys xs) ys,
    member-from_keys x xs,
    member-from_keys x zs,
  )

  -- what every member satisfies holds of all
  pub All-of_member {κ} :
      (P : K → Type κ) (xs : List K) → ((x : K) → member x xs ≡ true → P x) → All P xs
  All-of_member P [] h = tt
  All-of_member P (x ∷ xs) h =
      (h x (ground (arith, e.test_iff x x)), All-of_member P xs λ y k. h y (ground (arith, k)))
