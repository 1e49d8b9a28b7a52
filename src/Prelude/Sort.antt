-- ===== src/Prelude/Sort.antt =====
-- Python's `sorted(xs, key=...)`, over the strict test of the keys: it is stable, and each two
-- neighbours of the result are in order.
use mathlib.Core.Path.{◌≡◌, refl, sym, subst}
use mathlib.Core.Logic.{inl, inr}
use mathlib.Core.Bool.{Bool, true, false, not, ◌&&◌}
use mathlib.Core.List.{List, [], ◌∷◌, ◌++◌, Perm}
use mathlib.Core.List.Perm
use native.Mathlib.Omega.{arith}
use smarty_trader.Prelude.Tests.{if◌then◌else◌, Bool-cases}
use smarty_trader.Prelude.Lists.{All, select, All-map, All-parts}

module _ {ℓ} {A : Type ℓ} (before : A → A → Bool) where
  -- `x` stood before all of the sorted list, so it passes only what is strictly smaller.
  abbrev pub insert_by : A → List A → List A
  insert_by x [] = x ∷ []
  insert_by x (y ∷ ys) = if before y x then y ∷ insert_by x ys else x ∷ y ∷ ys

  abbrev pub sort_by : List A → List A
  sort_by [] = []
  sort_by (x ∷ xs) = insert_by x (sort_by xs)

  -- No element is smaller than the one in front of it.
  abbrev pub InOrder : List A → Type 0
  InOrder [] = Unit
  InOrder (x ∷ []) = Unit
  InOrder (x ∷ y ∷ ys) = (before y x ≡ false) × InOrder (y ∷ ys)

  insert_by-perm : (x : A) (ys : List A) → Perm (insert_by x ys) (x ∷ ys)
  insert_by-perm x [] = Perm.refl _
  insert_by-perm x (y ∷ ys) = elim (Bool-cases (before y x)) [
    | inl h ↦
        subst (λ b. Perm (if b then y ∷ insert_by x ys else x ∷ y ∷ ys) (x ∷ y ∷ ys)) (sym h)
          (Perm.trans (Perm.cons y (insert_by-perm x ys)) (Perm.swap x y ys))
    | inr h ↦
        subst (λ b. Perm (if b then y ∷ insert_by x ys else x ∷ y ∷ ys) (x ∷ y ∷ ys)) (sym h)
          (Perm.refl _)
  ]

  pub sort_by-perm : (xs : List A) → Perm (sort_by xs) xs
  sort_by-perm [] = Perm.refl _
  sort_by-perm (x ∷ xs) = Perm.trans (insert_by-perm x (sort_by xs)) (Perm.cons x (sort_by-perm xs))

  module _ (asymmetric : (x y : A) → before x y ≡ true → before y x ≡ false) where
    insert_by-InOrder : (x : A) (ys : List A) → InOrder ys → InOrder (insert_by x ys)
    insert_by-InOrder x [] h = tt
    insert_by-InOrder x (y ∷ []) h = ground (arith, asymmetric y x)
    insert_by-InOrder x (y ∷ z ∷ zs) h =
        ground (arith, asymmetric y x, insert_by-InOrder x (z ∷ zs) h.1)

    pub sort_by-InOrder : (xs : List A) → InOrder (sort_by xs)
    sort_by-InOrder [] = tt
    sort_by-InOrder (x ∷ xs) = insert_by-InOrder x (sort_by xs) (sort_by-InOrder xs)

  module _
      (transitive : (x y z : A)
        → before y x ≡ false
        → before z y ≡ false
        → before z x ≡ false) where
    InOrder-tail : (x : A) (ys : List A) → InOrder (x ∷ ys) → InOrder ys
    InOrder-tail x [] h = tt
    InOrder-tail x (y ∷ ys) h = h.1

    pub InOrder-later : (x : A) (ys : List A) → InOrder (x ∷ ys) → All (λ y. before y x ≡ false) ys
    InOrder-later x [] h = tt
    InOrder-later x (y ∷ ys) h = (
      h.0,
      All-map (λ z. before z x ≡ false) ys (λ z k. transitive x y z h.0 k) (InOrder-later y ys h.1),
    )

    -- Of a sorted list, what stands in front of `x` is not larger, and what stands behind is not
    -- smaller.
    pub InOrder-around :
        (x : A) (xs ys : List A)
        → InOrder (xs ++ x ∷ ys)
        → All (λ y. before x y ≡ false) xs × All (λ y. before y x ≡ false) ys
    InOrder-around x [] ys h = (tt, InOrder-later x ys h)
    InOrder-around x (y ∷ xs) ys h = (
      (
        (All-parts (λ z. before z y ≡ false) xs (x ∷ ys) (InOrder-later y (xs ++ x ∷ ys) h)).1.0,
        (InOrder-around x xs ys (InOrder-tail y (xs ++ x ∷ ys) h)).0,
      ),
      (InOrder-around x xs ys (InOrder-tail y (xs ++ x ∷ ys) h)).1,
    )

  -- What holds of every element holds after sorting.
  insert_by-All {κ} :
      (P : A → Type κ) (x : A) (ys : List A) → P x → All P ys → All P (insert_by x ys)
  insert_by-All P x [] p ps = (p, tt)
  insert_by-All P x (y ∷ ys) p ps = elim (Bool-cases (before y x)) [
    | inl h ↦ rw h (ps.0, insert_by-All P x ys p ps.1)
    | inr h ↦ rw h (p, ps)
  ]

  pub sort_by-All {κ} : (P : A → Type κ) (xs : List A) → All P xs → All P (sort_by xs)
  sort_by-All P [] h = tt
  sort_by-All P (x ∷ xs) h = insert_by-All P x (sort_by xs) h.0 (sort_by-All P xs h.1)

module _ {ℓ} {A : Type ℓ} (p : A → Bool) where
  -- the key `p(x)`: False goes before True
  abbrev pub false_first : A → A → Bool
  false_first x y = not (p x) && p y

  insert_by-kept : (x : A) (ys : List A) → p x ≡ false → insert_by false_first x ys ≡ x ∷ ys
  insert_by-kept x [] h = refl
  insert_by-kept x (y ∷ ys) h = ground arith

  insert_by-last : (x : A) (ys : List A) → insert_by false_first x (select p ys) ≡ x ∷ select p ys
  insert_by-last x [] = refl
  insert_by-last x (y ∷ ys) = ground (arith, insert_by-last x ys)

  insert_by-behind :
      (x : A) (ys zs : List A)
      → p x ≡ true
      → insert_by false_first x (select (λ y. not (p y)) ys ++ select p zs)
        ≡ select (λ y. not (p y)) ys ++ x ∷ select p zs
  insert_by-behind x [] zs h = insert_by-last x zs
  insert_by-behind x (y ∷ ys) zs h = ground (arith, insert_by-behind x ys zs h)

  -- Sorting by a test puts those that fail it first, and keeps the order within both groups.
  pub sort_by-test :
      (xs : List A) → sort_by false_first xs ≡ select (λ x. not (p x)) xs ++ select p xs
  sort_by-test [] = refl
  sort_by-test (x ∷ xs) =
      ground (
        arith,
        sort_by-test xs,
        insert_by-kept x (sort_by false_first xs),
        insert_by-behind x xs xs,
      )
