-- ===== src/Baselines/Best.antt =====
-- The strongest baseline.
use smarty_trader.Prelude.{
  ◌≡◌, refl, String, Option, none, some, List, [], ◌∷◌, All, if◌then◌else◌, if_cases, arith,
}
use smarty_trader.Float.{Float, IsOrdered, ◌<?◌, ◌≼◌}
use smarty_trader.Baselines.{named_returns, best_from, best_of, best_baseline}

module _ {F : Type 0} ⦃d : Float F⦄ (laws : IsOrdered F) where
  abbrev IsNumber : String × F → Type 0
  IsNumber x = x.1 ≼ x.1

  better :
      (best x : String × F)
      → IsNumber best
      → IsNumber x
      → let chosen = if best.1 <? x.1 then x else best in (best.1 ≼ chosen.1) × (x.1 ≼ chosen.1)
  better best x h k =
      if_cases {A = String × F} (λ c. (best.1 ≼ c.1) × (x.1 ≼ c.1)) (best.1 <? x.1)
        (λ e. (laws.le_of_lt best.1 x.1 e, k))
        (λ e. (h, ground (arith, e, laws.lt-eq-not-le best.1 x.1 h k)))

  best_from-greatest :
      (best : String × F) (xs : List (String × F))
      → IsNumber best
      → All IsNumber xs
      → (best.1 ≼ (best_from best xs).1) × All (λ x. x.1 ≼ (best_from best xs).1) xs
  best_from-greatest best [] h k = (h, tt)
  best_from-greatest best (x ∷ xs) h k =
      let chosen = if best.1 <? x.1 then x else best in
      let (p, q) = better best x h k.0 in
      let (r, rest) = best_from-greatest chosen xs (laws.number_of_le best.1 chosen.1 p).1 k.1 in
      (laws.le_trans best.1 chosen.1 _ p r, (laws.le_trans x.1 chosen.1 _ q r, rest))

  -- the named baseline is as good as every one that has a return
  pub Greatest : List (String × F) → Option (String × F) → Type 0
  Greatest [] best = best ≡ none
  Greatest (x ∷ xs) none = ⊥
  Greatest (x ∷ xs) (some best) = All (λ y. y.1 ≼ best.1) (x ∷ xs)

  Greatest-of : (xs : List (String × F)) → All IsNumber xs → Greatest xs (best_of xs)
  unfolding Greatest
  Greatest-of [] h = refl
  Greatest-of (x ∷ xs) h = let (p, q) = best_from-greatest x xs h.0 h.1 in (p, q)

  -- Where all returns are numbers, the named baseline earns as much as each other one; there is none
  -- only if no baseline has a return.
  pub best_baseline-Greatest :
      (baselines : List (String × Option F))
      → All IsNumber (named_returns baselines)
      → Greatest (named_returns baselines) (best_baseline baselines)
  unfolding best_baseline Greatest
  best_baseline-Greatest baselines h = Greatest-of (named_returns baselines) h
