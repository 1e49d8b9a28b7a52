-- ===== src/Tracker.antt =====
-- src/execution/position_tracker.py: the FIFO ledger of lots. A loop that consumes lots is `consume`,
-- on fuel, since the code's `while` may visit a lot and leave it; the fuel that `sell_lots` gives it
-- is one more than the number of lots. Logging is left out.
pub mod Loop
pub mod Frame
pub mod Attribution
pub mod Quantity
pub mod Whole
pub mod Booking
pub mod Replay
mod Tests
use smarty_trader.Prelude.{
  select, ℕ, zero, suc, Bool, true, false, String, Option, none, some, List, [], ◌∷◌, ◌++◌, map,
  arith, length, ◌||◌, ◌&&◌, not, if◌then◌else◌, option_eq, string_eq,
}
use smarty_trader.Prelude.Dict.{Dict, lookup, get_or, insert, erase}
use smarty_trader.Float.{Float, ◌⊕◌, ◌⊖◌, ◌⊗◌, ◌⊘◌, ◌<?◌, ◌≤?◌, zero_f, min_f, sum_f}
use smarty_trader.Models.{ClosedEntry}

-- `_Lot`
pub record Lot (F : Type 0) : Type 0 where
  pub quantity : F
  pub price : F
  pub fee_paid : F
  pub decision_id : Option ℕ

abbrev pub Ledger : Type 0 → Type 0
Ledger F = Dict String (List (Lot F))

pub record PositionTracker (F : Type 0) : Type 0 where
  pub lots : Ledger F
  pub short_lots : Ledger F

pub record SellOutcome (F : Type 0) : Type 0 where
  pub gross_pnl : F
  pub net_pnl : F
  pub closed_entries : List (ClosedEntry F)

-- The variables of the loop in `on_sell` and `cover`.
pub record Sale (F : Type 0) : Type 0 where
  pub remaining : F
  pub lots : List (Lot F)
  pub gross_pnl : F
  pub net_pnl : F
  pub per_entry : Dict (Option ℕ) F

abbrev pub empty_tracker : {F : Type 0} → PositionTracker F
empty_tracker = record { lots = []; short_lots = [] }

-- `self._lots.get(symbol, [])`
abbrev pub lots_of : {F : Type 0} → String → Ledger F → List (Lot F)
lots_of symbol book = get_or symbol [] book

module _ {F : Type 0} ⦃d : Float F⦄ where
  -- the literal 1e-12
  abbrev pub dust : F
  dust = d.decimal 1 12

  unfoldable pub lots_quantity : List (Lot F) → F
  lots_quantity lots = sum_f (map (λ (l : Lot F). l.quantity) lots)

  unfoldable pub quantity : PositionTracker F → String → F
  quantity t symbol = lots_quantity (lots_of symbol t.lots)

  unfoldable pub short_quantity : PositionTracker F → String → F
  short_quantity t symbol = lots_quantity (lots_of symbol t.short_lots)

  unfoldable pub average_price : PositionTracker F → String → Option F
  average_price t symbol =
      let lots = lots_of symbol t.lots in
      let qty = lots_quantity lots in
      if qty ≤? zero_f
      then none
      else some (sum_f (map (λ (l : Lot F). l.quantity ⊗ l.price) lots) ⊘ qty)

  -- `lots.append(_Lot(...))` on `self._lots.setdefault(symbol, [])`
  unfoldable pub add_lot : Ledger F → String → F → F → F → Option ℕ → Ledger F
  add_lot book symbol qty price fee decision =
      if qty ≤? zero_f
      then book
      else insert symbol
          (lots_of symbol book
            ++ (record { quantity = qty; price = price; fee_paid = fee; decision_id = decision }
                ∷ []))
          book

  unfoldable pub on_buy : PositionTracker F → String → F → F → F → Option ℕ → PositionTracker F
  on_buy t symbol qty price fee decision = record t {
    lots = add_lot t.lots symbol qty price fee decision;
  }

  unfoldable pub open_short : PositionTracker F → String → F → F → F → Option ℕ → PositionTracker F
  open_short t symbol qty price fee decision = record t {
    short_lots = add_lot t.short_lots symbol qty price fee decision;
  }

  -- One round of the loop. `gain` is the profit of a unit that was opened at the given price.
  unfoldable pub consume_lot : (F → F) → F → F → Lot F → List (Lot F) → Sale F → Sale F
  consume_lot gain qty fee lot rest s =
      let taken = min_f lot.quantity s.remaining in
      let gross = gain lot.price ⊗ taken in
      let open_fee_share =
        if zero_f <? lot.quantity then lot.fee_paid ⊗ (taken ⊘ lot.quantity) else zero_f in
      let close_fee_share = if zero_f <? qty then fee ⊗ (taken ⊘ qty) else zero_f in
      let net = gross ⊖ open_fee_share ⊖ close_fee_share in
      let left = lot.quantity ⊖ taken in
      record {
        remaining = s.remaining ⊖ taken;
        lots =
            if left ≤? dust
            then rest
            else record lot { quantity = left; fee_paid = lot.fee_paid ⊖ open_fee_share } ∷ rest;
        gross_pnl = s.gross_pnl ⊕ gross;
        net_pnl = s.net_pnl ⊕ net;
        per_entry =
            insert lot.decision_id (get_or lot.decision_id zero_f s.per_entry ⊕ net) s.per_entry;
      }

  -- `while remaining > 0 and lots`
  unfoldable pub consume : ℕ → (F → F) → F → F → Sale F → Sale F
  consume zero gain qty fee s = s
  consume (suc fuel) gain qty fee s = elim s.lots [
    | [] ↦ s
    | lot ∷ rest ↦ elim (zero_f <? s.remaining) [
      | true ↦ consume fuel gain qty fee (consume_lot gain qty fee lot rest s)
      | false ↦ s
    ]
  ]

  abbrev pub start : F → List (Lot F) → Sale F
  start qty lots = record {
    remaining = qty;
    lots = lots;
    gross_pnl = zero_f;
    net_pnl = zero_f;
    per_entry = [];
  }

  unfoldable pub sell_lots : (F → F) → F → F → List (Lot F) → Sale F
  sell_lots gain qty fee lots = consume (suc (length lots)) gain qty fee (start qty lots)

  -- `if not lots: self._lots.pop(symbol, None)`; the list in the dict is the one that was consumed
  unfoldable pub put_back : String → List (Lot F) → Ledger F → Ledger F
  put_back symbol [] book = erase symbol book
  put_back symbol (l ∷ ls) book = insert symbol (l ∷ ls) book

  unfoldable pub outcome : Sale F → SellOutcome F
  outcome s = record {
    gross_pnl = s.gross_pnl;
    net_pnl = s.net_pnl;
    closed_entries =
        map (λ (e : Option ℕ × F). record { entry_decision_id = e.0; pnl = e.1 }) s.per_entry;
  }

  unfoldable pub on_sell :
      PositionTracker F → String → F → F → F → SellOutcome F × PositionTracker F
  on_sell t symbol qty price fee =
      let s = sell_lots (λ entry. price ⊖ entry) qty fee (lots_of symbol t.lots) in
      (outcome s, record t { lots = put_back symbol s.lots t.lots })

  unfoldable pub cover : PositionTracker F → String → F → F → F → SellOutcome F × PositionTracker F
  cover t symbol qty price fee =
      let s = sell_lots (λ entry. entry ⊖ price) qty fee (lots_of symbol t.short_lots) in
      (outcome s, record t { short_lots = put_back symbol s.lots t.short_lots })

  unfoldable pub discard : PositionTracker F → String → F × PositionTracker F
  discard t symbol =
      (lots_quantity (lots_of symbol t.lots), record t { lots = erase symbol t.lots })

  unfoldable pub entry_decision_ids : PositionTracker F → String → List (Option ℕ)
  entry_decision_ids t symbol = map (λ (l : Lot F). l.decision_id) (lots_of symbol t.lots)

  abbrev is_held : String × List (Lot F) → Bool
  is_held (symbol, []) = false
  is_held (symbol, l ∷ ls) = true

  unfoldable pub symbols : PositionTracker F → List String
  symbols t = map (λ (e : String × List (Lot F)). e.0) (select is_held t.lots)
