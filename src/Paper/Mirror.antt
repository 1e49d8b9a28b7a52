-- ===== src/Paper/Mirror.antt =====
-- The tracker mirrors the book: for orders in whole steps of 10^-8, to which the sizing rounds, the
-- lots of every symbol add up to its position. Sums are exact (`Fixed`).
use mathlib.Core.Path.{subst}
use smarty_trader.Prelude.{
  ◌≡◌, ◌∙◌, sym, ◌≢◌, false, inl, inr, String, Option, none, some, arith, string_eq, ◌==◌,
  Bool-cases, ap,
}
use smarty_trader.Prelude.Dict.{
  Dict, lookup, insert, lookup-insert_ne, lookup-insert_self, lookup-erase_ne, lookup-erase_self,
  DistinctKeys, insert-DistinctKeys, erase-DistinctKeys,
}
use smarty_trader.Prelude.Int.{ℤ, pos, ◌≤ℤ◌, ◌<ℤ◌, ◌-ℤ◌, ◌+ℤ◌}
use smarty_trader.Float.{fixed}
use smarty_trader.Models.{Position}
use smarty_trader.Tracker.{PositionTracker, quantity, lots_quantity, lots_of, on_buy, on_sell}
use smarty_trader.Tracker.Frame.{lots_of-on_buy_ne, lots_of-on_sell_ne}
use smarty_trader.Tracker.Whole.{IsWhole, AllWhole, on_buy-whole, on_sell-whole, quantity-IsWhole}
use smarty_trader.Paper.{OrderRequest, reduced}

-- The quantity of the position in a symbol, 0 where there is none.
abbrev pub quantity_in : Option (Position ℤ) → ℤ
quantity_in none = pos 0
quantity_in (some p) = p.quantity

abbrev pub position_quantity : Dict String (Position ℤ) → String → ℤ
position_quantity ps s = quantity_in (lookup s ps)

apart : (s j : String) → (s == j) ≡ false → s ≢ j
apart s j h = ground (arith, string_eq.test_iff s j)

pub record Mirrors (ps : Dict String (Position ℤ)) (t : PositionTracker ℤ) : Type 0 where
  pub positions_keys : DistinctKeys ps
  pub lots_keys : DistinctKeys t.lots
  pub lots_whole : (s : String) → AllWhole (lots_of s t.lots)
  pub same : (s : String) → position_quantity ps s ≡ quantity t s

module _ (ps : Dict String (Position ℤ)) (t : PositionTracker ℤ) (m : Mirrors ps t) where
  -- A change of one symbol.
  pub change_at :
      (s : String) (ps' : Dict String (Position ℤ)) (t' : PositionTracker ℤ)
      → DistinctKeys ps'
      → DistinctKeys t'.lots
      → AllWhole (lots_of s t'.lots)
      → position_quantity ps' s ≡ quantity t' s
      → ((j : String) → s ≢ j → lookup j ps' ≡ lookup j ps)
      → ((j : String) → s ≢ j → lots_of j t'.lots ≡ lots_of j t.lots)
      → Mirrors ps' t'
  unfolding quantity
  change_at s ps' t' k l w e f g = record {
    positions_keys = k;
    lots_keys = l;
    lots_whole = λ j. elim (Bool-cases (s == j)) [
      | inl eq ↦
          subst (λ (n : String). AllWhole (lots_of n t'.lots)) ((string_eq.test_iff s j).0 eq) w
      | inr ne ↦ rw (g j (apart s j ne)) (m.lots_whole j)
    ];
    same = λ j. elim (Bool-cases (s == j)) [
      | inl eq ↦
          subst (λ (n : String). position_quantity ps' n ≡ quantity t' n)
            ((string_eq.test_iff s j).0 eq) e
      | inr ne ↦
          ap quantity_in (f j (apart s j ne))
          ∙ m.same j
          ∙ sym (ap lots_quantity (g j (apart s j ne)))
    ];
  }

  module _ (r : OrderRequest ℤ) (price fee : ℤ) (p : pos 0 <ℤ r.quantity)
      (w : IsWhole r.quantity) where
    pub buy-Mirrors :
        (q : Position ℤ)
        → q.quantity ≡ position_quantity ps r.symbol +ℤ r.quantity
        → Mirrors (insert r.symbol q ps) (on_buy t r.symbol r.quantity price fee r.decision_id)
    buy-Mirrors q e =
        let s = r.symbol in
        let x =
          on_buy-whole t s r.quantity price fee r.decision_id m.lots_keys (m.lots_whole s) p w in
        change_at s _ _ (insert-DistinctKeys s q ps m.positions_keys) x.2 x.1
          (ap quantity_in (lookup-insert_self s q ps)
            ∙ e
            ∙ ap (λ (z : ℤ). z +ℤ r.quantity) (m.same s)
            ∙ sym x.0)
          (λ j ne. lookup-insert_ne s j q ps ne)
          (λ j ne. lots_of-on_buy_ne t s j r.quantity price fee r.decision_id ne)

    reduced-DistinctKeys : (q : Position ℤ) → DistinctKeys (reduced r q ps)
    unfolding reduced
    reduced-DistinctKeys q = ground (
      arith,
      erase-DistinctKeys r.symbol ps m.positions_keys,
      insert-DistinctKeys r.symbol (record q { quantity = q.quantity -ℤ r.quantity }) ps
          m.positions_keys,
    )

    lookup-reduced_ne :
        (q : Position ℤ) (j : String) → r.symbol ≢ j → lookup j (reduced r q ps) ≡ lookup j ps
    unfolding reduced
    lookup-reduced_ne q j ne = ground (
      arith,
      lookup-erase_ne r.symbol j ps ne,
      lookup-insert_ne r.symbol j (record q { quantity = q.quantity -ℤ r.quantity }) ps ne,
    )

    -- Where no more than dust would be left of a whole quantity, nothing is.
    reduced_quantity :
        (q : Position ℤ) (n : ℤ)
        → q.quantity -ℤ r.quantity ≡ n
        → IsWhole n
        → position_quantity (reduced r q ps) r.symbol ≡ n
    unfolding reduced
    reduced_quantity q n e x = ground (
      arith,
      lookup-erase_self r.symbol ps m.positions_keys,
      lookup-insert_self r.symbol (record q { quantity = q.quantity -ℤ r.quantity }) ps,
    )

    pub sell-Mirrors :
        (q : Position ℤ)
        → lookup r.symbol ps ≡ some q
        → r.quantity ≤ℤ q.quantity
        → Mirrors (reduced r q ps) (on_sell t r.symbol r.quantity price fee).1
    sell-Mirrors q e enough =
        let s = r.symbol in
        let t' = (on_sell t s r.quantity price fee).1 in
        let held : q.quantity ≡ quantity t s = sym (ap quantity_in e) ∙ m.same s in
        let x =
          on_sell-whole t s r.quantity price fee m.lots_keys (m.lots_whole s) w
            (subst (λ (z : ℤ). r.quantity ≤ℤ z) held enough) in
        let left : q.quantity -ℤ r.quantity ≡ quantity t' s =
          ap (λ (z : ℤ). z -ℤ r.quantity) held ∙ sym x.0 in
        change_at s _ t' (reduced-DistinctKeys q) x.2 x.1
          (reduced_quantity q (quantity t' s) left (quantity-IsWhole t' s x.1))
          (λ j ne. lookup-reduced_ne q j ne)
          (λ j ne. lots_of-on_sell_ne t s j r.quantity price fee ne)
