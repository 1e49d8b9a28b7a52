-- ===== src/Tracker/Attribution.antt =====
-- Which entry decisions a sale's profit is attributed to, where sums are exact (`Fixed`).
use smarty_trader.Prelude.{
  ℕ, suc, ◌≡◌, refl, Option, List, [], ◌∷◌, map, ap, length, option_eq, string_eq,
}
use smarty_trader.Prelude.Dict.{Dict, get_or, insert}
use smarty_trader.Tracker.Loop.{consume_inv}
use smarty_trader.Prelude.Int.{ℤ, pos, ◌+ℤ◌, int_laws}
use smarty_trader.Float.{fixed, sum_f, sum, sum_f-eq-sum}
use smarty_trader.Models.{ClosedEntry}
use smarty_trader.Tracker.{Lot, Sale, consume_lot, sell_lots, start, outcome}

-- The sum of the values of a dict, as a plain recursion.
abbrev total : {K : Type 0} → Dict K ℤ → ℤ
total [] = pos 0
total ((_, v) ∷ m) = v +ℤ total m

total-insert :
    (k : Option ℕ) (net : ℤ) (m : Dict (Option ℕ) ℤ)
    → total (insert k (get_or k (pos 0) m +ℤ net) m) ≡ total m +ℤ net
total-insert k net [] = omega int_laws
total-insert k net (x ∷ m) = grind (int_laws, total-insert k net m)

abbrev pub entry_pnl : ClosedEntry ℤ → ℤ
entry_pnl e = e.pnl

consume_lot-total :
    (gain : ℤ → ℤ) (qty fee : ℤ) (lot : Lot ℤ) (rest : List (Lot ℤ)) (s : Sale ℤ)
    → total s.per_entry ≡ s.net_pnl
    → let s' = consume_lot gain qty fee lot rest s in total s'.per_entry ≡ s'.net_pnl
unfolding consume_lot
consume_lot-total gain qty fee lot rest s h = rw total-insert (cc)

outcome-total : (s : Sale ℤ) → sum (map entry_pnl (outcome s).closed_entries) ≡ total s.per_entry
unfolding outcome
outcome-total s = go s.per_entry
  where
    go :
        (m : Dict (Option ℕ) ℤ)
        → sum (
            map entry_pnl
              (map (λ (e : Option ℕ × ℤ). record { entry_decision_id = e.0; pnl = e.1 }) m))
          ≡ total m
    go [] = refl
    go (x ∷ m) = ap (λ z. x.1 +ℤ z) (go m)

-- The realised profit of a sale or a cover is attributed in full: the shares of the entry decisions
-- add up to the net profit of the fill, where sums are exact.
pub sell_lots-attributed :
    (gain : ℤ → ℤ) (qty fee : ℤ) (lots : List (Lot ℤ))
    → let o = outcome (sell_lots gain qty fee lots) in
      sum_f (map entry_pnl o.closed_entries) ≡ o.net_pnl
unfolding sell_lots outcome
sell_lots-attributed gain qty fee lots =
    let s = sell_lots gain qty fee lots in
    rw (sum_f-eq-sum, outcome-total s)
      (consume_inv (λ s. total s.per_entry ≡ s.net_pnl) gain qty fee
        (λ s lot rest e go h. consume_lot-total gain qty fee lot rest s h) (suc (length lots))
        (start qty lots) lots refl refl)
